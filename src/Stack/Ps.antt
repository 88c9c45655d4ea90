-- ===== src/Stack/Ps.antt =====
-- `ps` of src/aisb/api/stack.py, for what `_name` finds: a name, and a stack if it is a file.
pub mod Healthy
mod Tests
use Prim.Native.String
use aisb.Prelude.{
  String, Bool, false, not, ◌&&◌, ◌||◌, Option, none, some, List, [], ◌∷◌, ◌==◌, get, contains, map,
  all, sorted, is_some, or_else, if◌then◌else◌,
}
use aisb.Transport.Actions.{Action, ◌▷◌, give}
use aisb.Stack.{Stack, service_key, hash_key, has_drifted, digest_of, is_text}
use aisb.Stack.Up.{Payload, path3}
use aisb.Stack.Down.{Listed, World, label_of, containers}

pub record Shown : Type 0 where
  pub service : String
  pub state : Option String
  pub status : Option String
  pub ports : Option (List String)
  pub drift : Option Bool

pub record Services : Type 0 where
  pub stack : String
  pub services : List Shown
  pub healthy : Bool

-- rows.get(svc), where of two rows of one service the later one counts
unfoldable pub row_of : List Listed → String → Option Listed
unfolding label_of
row_of [] n = none
row_of (r ∷ rows) n =
    let later = row_of rows n in
    if is_some later then later else if is_text (label_of r service_key) n then some r else none

-- the services that are labelled, once each
unfoldable pub labelled_services : List Listed → List String
unfolding label_of contains
labelled_services [] = []
labelled_services (r ∷ rows) =
    let rest = labelled_services rows in
    elim (label_of r service_key) [
      | none ↦ rest
      | some n ↦ if n == "" || contains rest n then rest else n ∷ rest
    ]

-- p.get("PublicPort"), with `->` and the private one
abbrev pub port_text : Option String × String → List String
port_text (none, inner) = []
port_text (some outer, inner) = if outer == "" then [] else path3 outer "->" inner ∷ []

unfoldable pub ports_of : List (Option String × String) → List String
unfolding contains
ports_of [] = []
ports_of (p ∷ ps) =
    let rest = ports_of ps in
    elim (port_text p) [ [] ↦ rest | t ∷ ts ↦ if contains rest t then rest else t ∷ rest ]

abbrev pub drift_of : Option Stack → String → Listed → Option Bool
drift_of none n r = none
drift_of (some s) n r = some (has_drifted (label_of r hash_key) (digest_of (get s.services n)))

abbrev pub shown_of : Option Stack → String → Option Listed → Shown
shown_of s n none = record {
  service = n;
  state = some "missing";
  status = none;
  ports = none;
  drift = none;
}
shown_of s n (some r) = record {
  service = n;
  state = r.state;
  status = r.status;
  ports = some (sorted (ports_of r.ports));
  drift = drift_of s n r;
}

abbrev pub is_fine : Shown → Bool
is_fine e = is_text e.state "running" && not (or_else e.drift false)

unfoldable pub names_of : Option Stack → List Listed → List String
unfolding labelled_services sorted
names_of none rows = sorted (labelled_services rows)
names_of (some s) rows = s.order

-- the entries, and what `ps` returns
unfoldable pub shown : String → Option Stack → List Listed → Services
unfolding row_of names_of
shown name s rows =
    let entries = map (λ n. shown_of s n (row_of rows n)) (names_of s rows) in
    record { stack = name; services = entries; healthy = all is_fine entries }

-- `ps`
unfoldable pub ps : {A E : Type 0} → World A E → String → Option Stack → Action Payload E Services
unfolding shown containers
ps w name s = containers w name ▷ λ rows. give (shown name s rows)
