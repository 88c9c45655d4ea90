-- ===== src/Stack.antt =====
-- src/aisb/stack.py: a stack and its services, and `plan`, each service of a stack against the
-- containers that exist. Parse has `parse`, and Up, Down and Ps the commands of
-- src/aisb/api/stack.py.
pub mod Plan
pub mod Parse
pub mod Up
pub mod Down
pub mod Ps
mod Tests
use aisb.Prelude.{
  String, Bool, true, false, not, ◌&&◌, Option, none, some, List, [], ◌∷◌, ◌++◌, ◌==◌, Dict, get,
  if◌then◌else◌, is_some, map, keep, contains,
}
use aisb.Models.{RunSpec}

-- The readiness of a service: "probe", "running" or "healthy", or an object of tests.
pub data Ready : Type 0 where
  rule : String → Ready
  tests : Dict String → Ready

pub record Service : Type 0 where
  pub name : String
  pub spec : RunSpec
  pub depends_on : List String
  pub ready : Ready
  pub digest : String

pub record Stack : Type 0 where
  pub name : String
  pub network : String
  pub volumes : List String
  pub services : Dict Service
  pub order : List String

-- `dependents`
unfoldable pub dependents : Stack → String → List String
unfolding contains
dependents s svc = map (λ e. e.1.name) (keep (λ e. contains e.1.depends_on svc) s.services)

-- A container, as the daemon's API (`Labels`, `State`) or as `containers list` writes it.
pub record Row : Type 0 where
  pub api_labels : Option (Dict String)
  pub list_labels : Option (Dict String)
  pub api_state : Option String
  pub list_state : Option String

-- STACK_KEY, SERVICE_KEY and HASH_KEY
abbrev pub stack_key : String
stack_key = "aisb.stack"

abbrev pub service_key : String
service_key = "aisb.service"

abbrev pub hash_key : String
hash_key = "aisb.hash"

abbrev pub dict_or : Option (Dict String) → Dict String → Dict String
dict_or none d = d
dict_or (some []) d = d
dict_or (some (e ∷ es)) d = e ∷ es

unfoldable pub labels : Row → Dict String
labels r = dict_or r.api_labels (dict_or r.list_labels [])

abbrev pub is_text : Option String → String → Bool
is_text none t = false
is_text (some s) t = s == t

-- labels(r).get(STACK_KEY) in (None, s.name)
unfoldable pub belongs : Stack → Row → Bool
unfolding labels
belongs s r = elim (get (labels r) stack_key) [ none ↦ true | some n ↦ n == s.name ]

-- the rows by service: of two with one name the later one counts
unfoldable pub find_service : Stack → List Row → String → Option Row
unfolding belongs
find_service s [] n = none
find_service s (r ∷ rows) n =
    let later = find_service s rows n in
    if is_some later
    then later
    else if belongs s r && is_text (get (labels r) service_key) n
    then some r
    else none

pub data Class : Type 0 where
  missing stopped drift fine : Class

abbrev pub text_or : Option String → Option String → Option String
text_or none t = t
text_or (some s) t = if s == "" then t else some s

abbrev pub digest_of : Option Service → Option String
digest_of none = none
digest_of (some s) = some s.digest

-- labels(r).get(HASH_KEY) != s.services[name].digest
abbrev pub has_drifted : Option String → Option String → Bool
has_drifted (some h) (some d) = not (h == d)
has_drifted (some h) none = true
has_drifted none d = true

abbrev pub class_of_row : Stack → String → Option Row → Class
class_of_row s n none = missing
class_of_row s n (some r) =
    if has_drifted (get (labels r) hash_key) (digest_of (get s.services n))
    then drift
    else if not (is_text (text_or r.api_state r.list_state) "running")
    then stopped
    else fine

unfoldable pub class_of : Stack → List Row → String → Class
unfolding find_service
class_of s rows n = class_of_row s n (find_service s rows n)

pub record Classified : Type 0 where
  pub missing : List String
  pub stopped : List String
  pub drift : List String
  pub fine : List String

abbrev pub added : Class → String → Classified → Classified
added missing n c = record c { missing = c.missing ++ (n ∷ []) }
added stopped n c = record c { stopped = c.stopped ++ (n ∷ []) }
added drift n c = record c { drift = c.drift ++ (n ∷ []) }
added fine n c = record c { fine = c.fine ++ (n ∷ []) }

-- the loop over the services
unfoldable pub plan_from : Stack → List Row → List String → Classified → Classified
unfolding class_of
plan_from s rows [] c = c
plan_from s rows (n ∷ order) c = plan_from s rows order (added (class_of s rows n) n c)

-- `plan`; no rows stand for `rows=None`
unfoldable pub plan : Stack → List Row → Classified
unfolding plan_from
plan s rows =
    plan_from s rows s.order (record { missing = []; stopped = []; drift = []; fine = [] })
