-- ===== src/Models/Ports.antt =====
-- src/aisb/models.py: `parse_port`, and the loop of `to_api` over the ports of a spec.
use Prim.Native.Char.{code}
use Prim.Native.String
use aisb.Prelude.{
  ℕ, String, Bool, true, false, Option, none, some, List, [], ◌∷◌, ◌++◌, Dict, get, put, eqb,
  partition, or_else, if◌then◌else◌, ◌==◌,
}
use aisb.Prelude.Results.{Result, ok, err}
use aisb.Models.{Error, bad_port, World, joined}

abbrev pub before_first : String → List String → List String
before_first c [] = c ∷ []
before_first c (p ∷ ps) = String.◌++◌ c p ∷ ps

-- s.split(c), for one character
split_on : ℕ → String → List String
split_on k String.[] = "" ∷ []
split_on k (String.◌∷◌ c s) =
    let rest = split_on k s in
    if eqb (code c) k then "" ∷ rest else before_first (String.◌∷◌ c "") rest

pub record Binding : Type 0 where
  pub host_ip : String
  pub host_port : String

pub record Port : Type 0 where
  pub key : String
  pub binding : Option Binding

-- What `to_api` keeps of the ports: the keys that are exposed, and the bindings of each.
pub record Published : Type 0 where
  pub exposed : Dict (Unit {0})
  pub bindings : Dict (List Binding)

module _ (w : World) where
  -- f"{parts[-1]}/{proto or 'tcp'}"
  abbrev pub port_key : String → String → String
  port_key port proto = joined port "/" (if proto == "" then "tcp" else proto)

  abbrev pub port_if : Bool → String → Port → Result Error Port
  port_if true spec p = ok p
  port_if false spec p = err (bad_port spec)

  -- one to three parts, the last of them digits
  abbrev pub port_of : String → String → List String → Result Error Port
  port_of spec proto (p ∷ []) =
      port_if (w.is_digits p) spec (record { key = port_key p proto; binding = none })
  port_of spec proto (host ∷ p ∷ []) = port_if (w.is_digits p) spec (record {
    key = port_key p proto;
    binding = some (record { host_ip = ""; host_port = host });
  })
  port_of spec proto (ip ∷ host ∷ p ∷ []) = port_if (w.is_digits p) spec (record {
    key = port_key p proto;
    binding = some (record { host_ip = ip; host_port = host });
  })
  port_of spec proto _ = err (bad_port spec)

  -- `parse_port`; "/" is code 47 and ":" code 58
  unfoldable pub parse_port : String → Result Error Port
  unfolding partition split_on
  parse_port spec = let p = partition 47 spec in port_of spec p.after (split_on 58 p.before)

  -- exposed[key] = {}, and bindings.setdefault(key, []).append(binding) if there is one
  publish : Port → Published → Published
  unfolding get put
  publish p out = record {
    exposed = put out.exposed p.key tt;
    bindings = elim p.binding [
      | none ↦ out.bindings
      | some b ↦ put out.bindings p.key (or_else (get out.bindings p.key) [] ++ (b ∷ []))
    ];
  }

  -- for spec in self.ports
  unfoldable pub publish_all : List String → Published → Result Error Published
  unfolding parse_port publish
  publish_all [] out = ok out
  publish_all (spec ∷ specs) out = elim (parse_port spec) [
    | ok p ↦ publish_all specs (publish p out)
    | err e ↦ err e
  ]
