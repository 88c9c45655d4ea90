-- ===== src/Stack/Parse.antt =====
-- `parse` of src/aisb/stack.py, with `_prefix_volume`. SHA-256 of the sorted JSON of a body, and
-- `graphlib.TopologicalSorter`, are parameters. A stack file is given by what `parse` asks of it; the
-- keys of an object are distinct. An error keeps the names it is about, without its text.
pub mod Placed
pub mod Ordered
pub mod Found
pub mod Tests
use Prim.Native.String
use aisb.Prelude.{
  ℕ, String, Bool, true, false, not, ◌&&◌, ◌||◌, Option, none, some, List, [], ◌∷◌, ◌++◌, ◌==◌, map,
  Dict, get, put, keys, contains, minus, inter, sorted, keep, all, partition, decimal, codes, leb,
  eqb, or_else, if◌then◌else◌,
}
use aisb.Prelude.Results.{Result, ok, err, ◌>>=◌, ◌>>◌}
use aisb.Ops.Binding.{Value, null, flag, number, text, texts, table}
use aisb.Models.{
  RunSpec, truthy, items, items_of, from_dict, joined, is_any, Error as SpecError, World as Models,
}
use aisb.Models.Api.{Body, to_api}
use aisb.Stack.{Ready, rule, tests, Service, Stack, stack_key, service_key, hash_key}

pub data Error : Type 0 where
  bad_name no_services : Error
  unknown_keys : List String → Error
  bad_volumes : SpecError → Error
  bad_service_name bad_ready : String → Error
  managed_keys : String → List String → Error
  bad_spec : String → SpecError → Error
  unknown_services : String → List String → Error
  cycle : List String → Error

-- A stack file: `services` is none where it is missing or no object, `keys` are those of the file.
pub record File : Type 0 where
  pub name : Value
  pub services : Option (Dict (Dict Value))
  pub volumes : Value
  pub keys : List String

-- `static_order` returns an order, or raises with a cycle.
pub record World : Type 0 where
  pub models : Models
  pub digest : Body → String
  pub static_order : Dict (List String) → Result (List String) (List String)

-- [a-z0-9] and [a-z0-9_.-]
abbrev first_of_name : ℕ → Bool
first_of_name c = (leb 97 c && leb c 122) || (leb 48 c && leb c 57)

abbrev in_name : ℕ → Bool
in_name c = first_of_name c || eqb c 95 || eqb c 46 || eqb c 45

-- the rest of a name: `$` matches before a line feed at the end, too
abbrev ends_well : List ℕ → Bool
ends_well [] = true
ends_well (c ∷ []) = in_name c || eqb c 10
ends_well (c ∷ d ∷ cs) = in_name c && ends_well (d ∷ cs)

abbrev well_named : List ℕ → Bool
well_named [] = false
well_named (c ∷ cs) = first_of_name c && ends_well cs

-- _NAME.match(name)
unfoldable pub is_name : String → Bool
is_name n = well_named (codes n)

-- str(v or ""), where it may be a name: that of a list or an object never is one
unfoldable pub name_text : Value → String
unfolding decimal
name_text null = ""
name_text (flag b) = if b then "True" else ""
name_text (number n) = if eqb n 0 then "" else decimal n
name_text (text t) = t
name_text (texts ts) = ""
name_text (table d) = ""

-- `_prefix_volume`
unfoldable pub prefix_volume : String → String → List String → String
unfolding partition contains
prefix_volume mount stack declared =
    let p = partition 58 mount in
    if p.found && contains declared p.before
    then String.◌++◌ stack (String.◌++◌ "_" (joined p.before ":" p.after))
    else mount

unfoldable pub ready_of : String → Value → Result Error Ready
unfolding contains
ready_of svc (text t) =
    if contains ("probe" ∷ "running" ∷ "healthy" ∷ []) t then ok (rule t) else err (bad_ready svc)
ready_of svc (table []) = err (bad_ready svc)
ready_of svc (table (e ∷ es)) =
    if all (contains ("log" ∷ "port" ∷ [])) (keys (e ∷ es))
    then ok (tests (e ∷ es))
    else err (bad_ready svc)
ready_of svc _ = err (bad_ready svc)

abbrev pub in_service : {A : Type 0} → String → Result SpecError A → Result Error A
in_service svc (ok a) = ok a
in_service svc (err e) = err (bad_spec svc e)

abbrev pub fail_if : Bool → Error → Result Error (Unit {0})
fail_if true e = err e
fail_if false e = ok tt

-- the configuration without what `parse` pops from it
abbrev pub popped : Dict Value → Dict Value
popped conf = keep (λ e. not (e.0 == "depends_on" || e.0 == "ready")) conf

abbrev pub managed : List String
managed = "name" ∷ "network" ∷ "aliases" ∷ []

-- the first `replace`
unfoldable pub placed : String → String → List String → RunSpec → RunSpec
unfolding prefix_volume put
placed name svc declared spec = record spec {
  name = text (joined name "-" svc);
  network = text (String.◌++◌ name "_default");
  aliases = svc ∷ [];
  volumes = map (λ v. prefix_volume v name declared) spec.volumes;
  labels = put (put spec.labels stack_key name) service_key svc;
}

-- the second
unfoldable pub hashed : String → RunSpec → RunSpec
unfolding put
hashed digest spec = record spec { labels = put spec.labels hash_key digest }

abbrev as_volumes : Result SpecError (List String) → Result Error (List String)
as_volumes (ok vs) = ok vs
as_volumes (err e) = err (bad_volumes e)

-- set(data.get("volumes") or [])
abbrev pub declared_of : Value → Result Error (List String)
declared_of v = if truthy v then as_volumes (items v) else ok []

unfoldable pub distinct : List String → List String
unfolding contains
distinct [] = []
distinct (x ∷ xs) = let rest = distinct xs in if contains rest x then rest else x ∷ rest

abbrev pub present : Option (Dict (Dict Value)) → Result Error (Dict (Dict Value))
present none = err no_services
present (some []) = err no_services
present (some (e ∷ es)) = ok (e ∷ es)

-- {s.name: s.depends_on for s in services.values()}
abbrev pub graph : Dict Service → Dict (List String)
graph services = map (λ e. (e.1.name, e.1.depends_on)) services

-- every service that is depended on is there
unfoldable pub check_dependencies : List String → Dict Service → Result Error (Unit {0})
unfolding minus sorted
check_dependencies known [] = ok tt
check_dependencies known ((n, s) ∷ services) =
    fail_if (is_any (minus s.depends_on known))
      (unknown_services s.name (sorted (minus s.depends_on known)))
    >> check_dependencies known services

abbrev pub sorted_by : Result (List String) (List String) → Result Error (List String)
sorted_by (ok order) = ok order
sorted_by (err names) = err (cycle names)

module _ (w : World) where
  unfoldable pub made : String → List String → Ready → RunSpec → Result Error Service
  unfolding to_api hashed
  made svc deps ready spec = in_service svc (to_api w.models spec false) >>= λ body. ok (record {
    name = svc;
    spec = hashed (w.digest body) spec;
    depends_on = deps;
    ready = ready;
    digest = w.digest body;
  })

  -- the body of the loop over the services
  unfoldable pub parse_service : String → List String → String → Dict Value → Result Error Service
  unfolding is_name get inter sorted from_dict ready_of placed made
  parse_service name declared svc conf =
      fail_if (not (is_name svc)) (bad_service_name svc)
      >> in_service svc (items_of (get conf "depends_on"))
      >>= λ deps. ready_of svc (or_else (get conf "ready") (text "probe")) >>= λ ready.
          fail_if (is_any (inter managed (keys (popped conf))))
            (managed_keys svc (sorted (inter managed (keys (popped conf)))))
          >> in_service svc (from_dict w.models (popped conf))
          >>= λ spec. made svc deps ready (placed name svc declared spec)

  unfoldable pub parse_services :
      String → List String → Dict (Dict Value) → Result Error (Dict Service)
  unfolding parse_service
  parse_services name declared [] = ok []
  parse_services name declared ((svc, conf) ∷ raw) = parse_service name declared svc conf >>= λ s.
      parse_services name declared raw >>= λ services. ok ((svc, s) ∷ services)

  -- `parse`
  unfoldable pub parse : File → Result Error Stack
  unfolding is_name minus sorted parse_services check_dependencies name_text distinct
  parse file =
      fail_if (not (is_name (name_text file.name))) bad_name >> present file.services >>= λ raw.
      fail_if (is_any (minus file.keys ("name" ∷ "services" ∷ "volumes" ∷ [])))
        (unknown_keys (sorted (minus file.keys ("name" ∷ "services" ∷ "volumes" ∷ []))))
      >> declared_of file.volumes
      >>= λ declared. parse_services (name_text file.name) declared raw >>= λ services.
          check_dependencies (keys services) services
          >> sorted_by (w.static_order (graph services))
          >>= λ order. ok (record {
            name = name_text file.name;
            network = String.◌++◌ (name_text file.name) "_default";
            volumes = map (λ v. joined (name_text file.name) "_" v) (sorted (distinct declared));
            services = services;
            order = order;
          })
