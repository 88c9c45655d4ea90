-- ===== src/Fleet/Health.antt =====
-- `changes` of src/aisb/fleet/health.py: what changed between two snapshots of the fleet's health.
pub mod Events
mod Tests
use aisb.Prelude.{
  ℕ, String, Bool, true, false, not, ◌&&◌, ◌||◌, Option, none, some, List, [], ◌∷◌, ◌++◌, ◌==◌,
  Dict, get, keys, union, minus, sorted, ltb, eqb, if◌then◌else◌,
}
use aisb.Fleet.Inventory.{dedupe}

pub data Verdict : Type 0 where
  healthy degraded failing down : Verdict

-- RANK
abbrev pub rank : Verdict → ℕ
rank healthy = 0
rank degraded = 1
rank failing = 2
rank down = 3

abbrev pub is_down : Verdict → Bool
is_down v = eqb (rank v) 3

pub record Health : Type 0 where
  pub verdict : Verdict
  pub reasons : List String

pub data Kind : Type 0 where
  recovered better went_down worse changed : Kind

pub data Event : Type 0 where
  added removed : (host : String) → Event
  change :
      (host : String) (kind : Kind) (before after : Verdict) (new resolved : List String) → Event

abbrev pub same_texts : List String → List String → Bool
same_texts [] [] = true
same_texts [] (y ∷ ys) = false
same_texts (x ∷ xs) [] = false
same_texts (x ∷ xs) (y ∷ ys) = x == y && same_texts xs ys

abbrev pub is_empty : List String → Bool
is_empty [] = true
is_empty (x ∷ xs) = false

unfoldable pub kind_of : Verdict → Verdict → Kind
kind_of a b =
    if ltb (rank b) (rank a)
    then (if is_down a then recovered else better)
    else if ltb (rank a) (rank b)
    then (if is_down b then went_down else worse)
    else changed

-- sorted(set(xs) - set(ys))
unfoldable pub only_in : List String → List String → List String
unfolding dedupe
only_in xs ys = sorted (minus (dedupe xs) ys)

-- what the loop adds for a host that both snapshots hold
unfoldable pub compared : String → Health → Health → List Event
unfolding kind_of only_in
compared host a b =
    let new = only_in b.reasons a.reasons in
    let gone = only_in a.reasons b.reasons in
    if eqb (rank a.verdict) (rank b.verdict) && same_texts a.reasons b.reasons
    then []
    else if eqb (rank a.verdict) (rank b.verdict) && is_empty new && is_empty gone
    then []
    else change host (kind_of a.verdict b.verdict) a.verdict b.verdict new gone ∷ []

unfoldable pub events_of : String → Option Health → Option Health → List Event
unfolding compared
events_of host none none = []
events_of host none (some b) = added host ∷ []
events_of host (some a) none = removed host ∷ []
events_of host (some a) (some b) = compared host a b

unfoldable pub events_from : Dict Health → Dict Health → List String → List Event
unfolding events_of
events_from prev cur [] = []
events_from prev cur (host ∷ hosts) =
    events_of host (get prev host) (get cur host) ++ events_from prev cur hosts

unfoldable pub changes : Dict Health → Dict Health → List Event
unfolding events_from
changes prev cur = events_from prev cur (sorted (union (keys prev) (keys cur)))
