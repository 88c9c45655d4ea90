-- ===== src/Stack/Up/Follows.antt =====
-- `parse` and `up` together: a service is not touched before those it depends on are ready.
use aisb.Prelude.{
  ℕ, String, ◌≡◌, Bool, true, false, ◌&&◌, ◌||◌, none, some, List, [], ◌∷◌, ◌++◌, ◌==◌, get, arith,
  if◌then◌else◌, contains,
}
use aisb.Prelude.Results.{ok}
use aisb.Transport.{Transport}
use aisb.Stack.{Service, Stack}
use aisb.Stack.Parse.{File, parse, World as Parsing}
use aisb.Stack.Parse.Ordered.{before, IsSorting, parse-IsSorted}
use aisb.Stack.Up.{Payload, World, Entry, Outcome, came_up, not_ready, up}
use aisb.Stack.Up.Gates.{is_settled}
use aisb.Stack.Up.Order.{services_of, all_settled, Gated, up-Gated}

abbrev pub entries_of : Outcome → List Entry
entries_of (came_up es) = es
entries_of (not_ready n es rest) = es

-- among the entries before the one of `n`, one of `d` that is settled
unfoldable pub settled_before : String → String → List Entry → Bool
settled_before d n [] = false
settled_before d n (e ∷ es) =
    let later = settled_before d n es in
    if e.service == n then false else (e.service == d && is_settled e) || later

settled_up :
    (d n : String) (es : List Entry)
    → all_settled es ≡ true
    → contains (before n (services_of es)) d ≡ true
    → settled_before d n es ≡ true
unfolding settled_before contains
settled_up d n [] h c = cc
settled_up d n (e ∷ es) h c = ground (arith, settled_up d n es)

-- the last entry is that of a service that failed
settled_up_to :
    (d n : String) (es : List Entry) (failed : Entry) (behind : List String)
    → all_settled es ≡ true
    → contains (services_of (es ++ (failed ∷ []))) n ≡ true
    → contains (before n (services_of es ++ (failed.service ∷ behind))) d ≡ true
    → settled_before d n (es ++ (failed ∷ [])) ≡ true
unfolding settled_before contains
settled_up_to d n [] failed behind h i c = ground arith
settled_up_to d n (e ∷ es) failed behind h i c = ground (arith, settled_up_to d n es failed behind)

module _ (s : Stack) (n d : String) where
  Gated-follows :
      (outcome : Outcome)
      → Gated s.order s.order [] outcome
      → contains (services_of (entries_of outcome)) n ≡ true
      → contains (before n s.order) d ≡ true
      → settled_before d n (entries_of outcome) ≡ true
  Gated-follows (came_up es) (more, same, covered, all) i c =
      rw same (settled_up d n more all (rw covered c))
  Gated-follows (not_ready m es rest)
        (settled, failed, behind, same, named, split, all, fails, left) i c =
      rw same
        (settled_up_to d n settled failed behind all (rw same at i) (rw named (rw split at c)))

-- In a stack that `parse` returned, where the topological sort does what its documentation says: if
-- `up`, outside a dry run and waiting for readiness, returns with an entry for a service, then before
-- that entry there is one for every service it depends on, which has drifted or was found ready.
pub up-follows :
    {A E : Type 0} (p : Parsing) (file : File) (w : World A E) (within : ℕ) (t : Transport Payload)
    {s : Stack} {outcome : Outcome} {u : Transport Payload} (n d : String) {svc : Service}
    → IsSorting p.static_order
    → parse p file ≡ ok s
    → t.plan ≡ none
    → up w s within false t ≡ (ok outcome, u)
    → get s.services n ≡ some svc
    → contains svc.depends_on d ≡ true
    → contains (services_of (entries_of outcome)) n ≡ true
    → settled_before d n (entries_of outcome) ≡ true
up-follows p file w within t {s} {outcome} n d {svc} sorting parsed real done found depends
      reached =
    let ordered = parse-IsSorted p file sorting parsed in
    Gated-follows s n d outcome (up-Gated w s within t real done) reached
      (ordered.follows n d svc found depends)
