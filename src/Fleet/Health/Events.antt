-- ===== src/Fleet/Health/Events.antt =====
-- When `changes` is silent, and what its events say.
use aisb.Prelude.{
  String, ◌≡◌, refl, inl, inr, Bool, true, false, ◌&&◌, Option, none, some, List, [], ◌∷◌, Dict,
  get, ltb, eqb, eqb_iff, arith, eq_refl, All, All-append, Bool-cases,
}
use aisb.Fleet.Health.{
  Verdict, rank, Health, Kind, recovered, better, went_down, worse, changed, Event, added, removed,
  change, same_texts, is_empty, only_in, kind_of, compared, events_of, events_from, changes,
}

same_texts_refl : (xs : List String) → same_texts xs xs ≡ true
same_texts_refl [] = refl
same_texts_refl (x ∷ xs) = rw (eq_refl x, same_texts_refl xs) refl

compared-same : (host : String) (a : Health) → compared host a a ≡ []
unfolding compared
compared-same host a =
    rw ((eqb_iff (rank a.verdict) (rank a.verdict)).1 refl, same_texts_refl a.reasons) refl

events_of-same : (host : String) (a : Option Health) → events_of host a a ≡ []
unfolding events_of
events_of-same host none = refl
events_of-same host (some a) = compared-same host a

events_from-same : (s : Dict Health) (hosts : List String) → events_from s s hosts ≡ []
unfolding events_from
events_from-same s [] = refl
events_from-same s (h ∷ hosts) = rw (events_of-same h (get s h), events_from-same s hosts) refl

-- Two snapshots that are the same have no events between them.
pub changes-same : (s : Dict Health) → changes s s ≡ []
unfolding changes
changes-same s = events_from-same s _

-- that a kind tells of a worse host, or of a better one
abbrev pub is_worse : Kind → Bool
is_worse went_down = true
is_worse worse = true
is_worse recovered = false
is_worse better = false
is_worse changed = false

abbrev pub is_better : Kind → Bool
is_better recovered = true
is_better better = true
is_better went_down = false
is_better worse = false
is_better changed = false

-- What an event says of its host is so.
unfoldable pub IsTrue : Dict Health → Dict Health → Event → Type 0
IsTrue prev cur (added h) = (get prev h ≡ none) × ((b : Health) × (get cur h ≡ some b))
IsTrue prev cur (removed h) = (get cur h ≡ none) × ((a : Health) × (get prev h ≡ some a))
IsTrue prev cur (change h k before after new resolved) =
    ((a : Health) × (get prev h ≡ some a) × (a.verdict ≡ before))
    × ((b : Health) × (get cur h ≡ some b) × (b.verdict ≡ after))
    × (is_worse k ≡ ltb (rank before) (rank after))
    × (is_better k ≡ ltb (rank after) (rank before))

kind_of-worse : (a b : Verdict) → is_worse (kind_of a b) ≡ ltb (rank a) (rank b)
unfolding kind_of
kind_of-worse a b = ground arith

kind_of-better : (a b : Verdict) → is_better (kind_of a b) ≡ ltb (rank b) (rank a)
unfolding kind_of
kind_of-better a b = ground arith

module _ (prev cur : Dict Health) where
  compared-IsTrue :
      (host : String) (a b : Health)
      → get prev host ≡ some a
      → get cur host ≡ some b
      → All (IsTrue prev cur) (compared host a b)
  unfolding compared IsTrue
  compared-IsTrue host a b f g =
      elim (Bool-cases (eqb (rank a.verdict) (rank b.verdict) && same_texts a.reasons b.reasons)) [
        | inl e ↦ rw e tt
        | inr e ↦
            elim (Bool-cases (
              eqb (rank a.verdict) (rank b.verdict)
              && is_empty (only_in b.reasons a.reasons)
              && is_empty (only_in a.reasons b.reasons))) [
                | inl x ↦ rw (e, x) tt
                | inr x ↦
                    rw (e, x)
                      (
                        (
                          (a, f, refl),
                          (b, g, refl),
                          kind_of-worse a.verdict b.verdict,
                          kind_of-better a.verdict b.verdict,
                        ),
                        tt,
                      )
              ]
      ]

  events_of-IsTrue :
      (host : String) (a b : Option Health)
      → get prev host ≡ a
      → get cur host ≡ b
      → All (IsTrue prev cur) (events_of host a b)
  unfolding events_of IsTrue
  events_of-IsTrue host none none f g = tt
  events_of-IsTrue host none (some b) f g = ((f, (b, g)), tt)
  events_of-IsTrue host (some a) none f g = ((g, (a, f)), tt)
  events_of-IsTrue host (some a) (some b) f g = compared-IsTrue host a b f g

  events_from-IsTrue : (hosts : List String) → All (IsTrue prev cur) (events_from prev cur hosts)
  unfolding events_from
  events_from-IsTrue [] = tt
  events_from-IsTrue (h ∷ hosts) =
      All-append (IsTrue prev cur) (events_of h (get prev h) (get cur h))
        (events_from prev cur hosts) (events_of-IsTrue h (get prev h) (get cur h) refl refl)
        (events_from-IsTrue hosts)

  -- Every event is so: a host that was added is in the second snapshot only, one that was removed in the
  -- first only; a change tells the verdicts of both, and calls the host worse exactly if its verdict
  -- ranks higher than before, and better exactly if it ranks lower.
  pub changes-IsTrue : All (IsTrue prev cur) (changes prev cur)
  unfolding changes
  changes-IsTrue = events_from-IsTrue _
