-- ===== src/Session/Again.antt =====
-- A rollback of src/aisb/api/session.py that is done again.
use aisb.Prelude.{
  and_true, String, Bool, true, false, not, ◌||◌, ◌≡◌, refl, ap, ◌∙◌, inl, inr, Option, List, [],
  ◌∷◌, all, Bool-cases, arith,
}
use aisb.Prelude.Results.{ok, err}
use aisb.Session.Snapshot.{Snapshot}
use aisb.Session.Undo.{World}
use aisb.Session.Rollback.{Entry, Rolling, has_inverse, marked, mark_next, undo_entries, undo_entry}
use aisb.Session.Scope.{reverse, Outcome, replay, turned}
use aisb.Session.Laws.{Turn}
use aisb.Session.Safety.{reverse-reverse}

abbrev is_skipped : (Entry → Bool) → Entry → Bool
is_skipped mine e = not (mine e) || e.is_done || not (has_inverse e)

marked-skipped : (mine : Entry → Bool) (e : Entry) → is_skipped mine (marked false e) ≡ true
marked-skipped mine e = ground arith

module _ {A E : Type 0} (w : World A E) (place : Option String) (mine : Entry → Bool)
    (base : Snapshot) where
  mark_next-skipped :
      (e : Entry) (es : List Entry) (next : Rolling E → Outcome E) (x : Turn E)
      → ((s : Rolling E) → (next s).0 ≡ ok tt → all (is_skipped mine) (next s).2 ≡ true)
      → (mark_next w false place e es next x).0 ≡ ok tt
      → all (is_skipped mine) (mark_next w false place e es next x).2 ≡ true
  mark_next-skipped e es next (ok r, s) rest done = rw (marked-skipped mine e) (rest s done)
  mark_next-skipped e es next (err x, s) rest done = cc

  undo_entries-skipped :
      (es : List Entry) (s : Rolling E)
      → (undo_entries w false place mine base es s).0 ≡ ok tt
      → all (is_skipped mine) (undo_entries w false place mine base es s).2 ≡ true
  unfolding undo_entries
  undo_entries-skipped [] s = λ done. refl
  undo_entries-skipped (e ∷ es) s = elim (Bool-cases (is_skipped mine e)) [
    | inl skipped ↦ rw skipped (λ done. rw skipped (undo_entries-skipped es s done))
    | inr undone ↦ rw undone (
        mark_next-skipped e es (undo_entries w false place mine base es)
          (undo_entry w false place base e.inverse s) (undo_entries-skipped es))
  ]

  skipped-undo_entries :
      (es : List Entry) (t : Rolling E)
      → all (is_skipped mine) es ≡ true
      → undo_entries w false place mine base es t ≡ (ok tt, t, es)
  unfolding undo_entries
  skipped-undo_entries [] t good = refl
  skipped-undo_entries (e ∷ es) t good =
      let (first, rest) = and_true (is_skipped mine e) (all (is_skipped mine) es) good in
      rw first (rw (skipped-undo_entries es t rest) refl)

  -- Once the entries of an endpoint are replayed without an exception that is raised, replaying what
  -- they have become, from any state, takes no step and sends nothing.
  pub replay-again :
      (journal : List Entry) (s t : Rolling E)
      → (replay w false place mine base journal s).0 ≡ ok tt
      → replay w false place mine base (replay w false place mine base journal s).2 t
        ≡ (ok tt, t, (replay w false place mine base journal s).2)
  replay-again journal s t done =
      let after = (undo_entries w false place mine base (reverse journal) s).2 in
      ap (λ es. turned w false (undo_entries w false place mine base es t)) (reverse-reverse after)
      ∙ ap (turned w false)
          (skipped-undo_entries after t (undo_entries-skipped (reverse journal) s done))
