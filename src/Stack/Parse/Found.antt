-- ===== src/Stack/Parse/Found.antt =====
-- `parse` and `plan` of src/aisb/stack.py together: a container made from the spec of a service is
-- the one that `plan` finds for it.
use mathlib.Core.Path.{subst}
use aisb.Prelude.{
  Bool-cases, inl, inr, ◌++◌, String, ◌≡◌, refl, true, none, some, List, [], ◌∷◌, Dict, get, All,
  ◌==◌, eq_refl, eq_iff,
}
use aisb.Prelude.Results.{ok}
use aisb.Stack.{
  Service, Stack, Row, fine, class_of, find_service, belongs, labels, is_text, dict_or, service_key,
}
use aisb.Stack.Parse.{File, World, parse}
use aisb.Stack.Parse.Placed.{IsPlaced, parse_services-IsPlaced}
use aisb.Stack.Parse.Ordered.{parse-IsParsed}

some_injective : {A : Type 0} {a b : A} → some a ≡ some b → a ≡ b
some_injective h = cc

get-IsPlaced :
    (name : String) (services : Dict Service) (n : String) {s : Service}
    → All (λ e. IsPlaced name e.0 e.1) services
    → get services n ≡ some s
    → IsPlaced name n s
unfolding get
get-IsPlaced name [] n p h = cc
get-IsPlaced name ((m, t) ∷ services) n {s} (p, ps) h = elim (Bool-cases (m == n)) [
  | inl e ↦
      subst (λ k. IsPlaced name k s) ((eq_iff m n).0 e)
        (subst (IsPlaced name m) (some_injective (rw e at h)) p)
  | inr e ↦ get-IsPlaced name services n ps (rw e at h)
]

-- Each service of a stack that `parse` returns is placed under the key it has.
parse-IsPlaced :
    (w : World) (file : File) {s : Stack} {svc : Service} (n : String)
    → parse w file ≡ ok s
    → get s.services n ≡ some svc
    → IsPlaced s.name n svc
parse-IsPlaced w file {s} n h found =
    let known = parse-IsParsed w file h in
    get-IsPlaced s.name s.services n
      (parse_services-IsPlaced w s.name known.declared known.raw known.parsed) found

-- the row of a running container that was made from the spec of a service
abbrev pub running : Service → Row
running svc = record {
  api_labels = some svc.spec.labels;
  list_labels = none;
  api_state = some "running";
  list_state = none;
}

labels-running : (svc : Service) → labels (running svc) ≡ svc.spec.labels
unfolding labels
labels-running svc = whole svc.spec.labels
  where
    whole : (d : Dict String) → dict_or (some d) [] ≡ d
    whole [] = refl
    whole (e ∷ es) = refl

find_last :
    (s : Stack) (rows : List Row) (r : Row) (n : String)
    → belongs s r ≡ true
    → is_text (get (labels r) service_key) n ≡ true
    → find_service s (rows ++ (r ∷ [])) n ≡ some r
unfolding find_service
find_last s [] r n b t = rw (b, t) refl
find_last s (row ∷ rows) r n b t = rw (find_last s rows r n b t) refl

-- Once `parse` returns a stack, a running container made from the spec of one of its services is
-- recognised: whatever rows come before its own, `plan` puts the service in the class of those that
-- are as the file says.
pub class_of-running :
    (w : World) (file : File) {s : Stack} {svc : Service} (n : String) (rows : List Row)
    → parse w file ≡ ok s
    → get s.services n ≡ some svc
    → class_of s (rows ++ (running svc ∷ [])) n ≡ fine
unfolding class_of belongs get
class_of-running w file {s} {svc} n rows h found =
    let p = parse-IsPlaced w file n h found in
    let same = labels-running svc in
    rw
      (
        find_last s rows (running svc) n (rw (same, p.of_stack) (eq_refl s.name))
            (rw (same, p.of_service) (eq_refl n)),
        same,
        p.of_digest,
        found,
        eq_refl svc.digest,
      )
      refl
