-- ===== src/Session/Laws.antt =====
-- What holds through the steps of `_scope` of src/aisb/api/session.py.
use aisb.Prelude.{
  String, Bool, true, false, not, ◌||◌, ◌≡◌, refl, inl, inr, Option, none, some, List, [], ◌∷◌,
  keep, minus, Bool-cases,
}
use aisb.Prelude.Results.{Result, ok, err}
use aisb.Session.Snapshot.{Snapshot, Comparison, volumes, networks, compare}
use aisb.Session.Undo.{Action, Inverse, World, drop_volume}
use aisb.Session.Rollback.{
  Label, remove_added_container, remove_added_volume, remove_added_network, Entry, Undo, parts_of,
  Rolling, then_roll, is_wanted, has_inverse, removed_names, step, undo, undo_parts, undo_entry,
  undo_entries, mark_next, each_step,
}
use aisb.Session.Scope.{
  reverse, Outcome, roll_back, remove_container, remove_network, clean_up, then_entries, replay,
  remove_containers, names_added,
}

abbrev pub is_added : Label → Bool
is_added (remove_added_container n) = true
is_added (remove_added_volume n) = true
is_added (remove_added_network n) = true
is_added _ = false

abbrev pub Turn : Type 0 → Type 0
Turn E = Result E (Unit {0}) × Rolling E

module _ {A E : Type 0} (w : World A E) (plan : Bool) (place : Option String) (base : Snapshot)
    (P : Turn E → Type 0)
    (undo_kept : (inverse : Inverse) (s : Rolling E)
      → is_wanted base inverse ≡ true
      → P (ok tt, s)
      → P (undo w plan place inverse s)) where
  then_roll-kept :
      (x : Turn E) (next : Rolling E → Turn E)
      → P x
      → ((s : Rolling E) → P (ok tt, s) → P (next s))
      → P (then_roll x next)
  then_roll-kept (ok r, s) next good rest = rest s good
  then_roll-kept (err e, s) next good rest = good

  undo_parts-kept :
      (parts : List Inverse) (s : Rolling E)
      → P (ok tt, s)
      → P (undo_parts w plan place base parts s)
  unfolding undo_parts
  undo_parts-kept [] s good = good
  undo_parts-kept (inverse ∷ parts) s good = elim (Bool-cases (is_wanted base inverse)) [
    | inl wanted ↦ rw wanted (
        then_roll-kept (undo w plan place inverse s) (undo_parts w plan place base parts)
          (undo_kept inverse s wanted good) (λ t fine. undo_parts-kept parts t fine))
    | inr unwanted ↦ rw unwanted (undo_parts-kept parts s good)
  ]

  each_step-kept :
      (label : String → Label) (act : String → Action E (Unit {0}))
      → ((n : String) (s : Rolling E) → P (ok tt, s) → P (step w plan place (label n) (act n) s))
      → (names : List String) (s : Rolling E) → P (ok tt, s)
      → P (each_step w plan place label act names s)
  unfolding each_step
  each_step-kept label act one [] s good = good
  each_step-kept label act one (n ∷ names) s good =
      then_roll-kept (step w plan place (label n) (act n) s)
        (each_step w plan place label act names) (one n s good) (each_step-kept label act one names)

  abbrev turn_of : Outcome E → Turn E
  turn_of (r, s, es) = (r, s)

  undo_entry-kept :
      (u : Option Undo) (s : Rolling E) → P (ok tt, s) → P (undo_entry w plan place base u s)
  undo_entry-kept none s good = good
  undo_entry-kept (some u) s good = undo_parts-kept (parts_of u) s good

  mark_next-kept :
      (e : Entry) (es : List Entry) (next : Rolling E → Outcome E) (x : Turn E)
      → P x
      → ((s : Rolling E) → P (ok tt, s) → P (turn_of (next s)))
      → P (turn_of (mark_next w plan place e es next x))
  mark_next-kept e es next (ok r, s) good rest = rest s good
  mark_next-kept e es next (err x, s) good rest = good

  undo_entries-kept :
      (mine : Entry → Bool) (es : List Entry) (s : Rolling E)
      → P (ok tt, s)
      → P (turn_of (undo_entries w plan place mine base es s))
  unfolding undo_entries
  undo_entries-kept mine [] s good = good
  undo_entries-kept mine (e ∷ es) s good =
      elim (Bool-cases (not (mine e) || e.is_done || not (has_inverse e))) [
        | inl skipped ↦ rw skipped (undo_entries-kept mine es s good)
        | inr undone ↦ rw undone (
            mark_next-kept e es (undo_entries w plan place mine base es)
              (undo_entry w plan place base e.inverse s) (undo_entry-kept e.inverse s good)
              (undo_entries-kept mine es))
      ]

  then_entries-kept :
      (next : Rolling E → Outcome E) (es : List Entry) (x : Turn E)
      → P x
      → ((s : Rolling E) → P (ok tt, s) → P (turn_of (next s)))
      → P (turn_of (then_entries w plan next es x))
  then_entries-kept next es (ok r, s) good rest = rest s good
  then_entries-kept next es (err x, s) good rest = good

  module _
      (added_kept : (label : Label) (act : Action E (Unit {0})) (s : Rolling E)
        → is_added label ≡ true
        → P (ok tt, s)
        → P (step w plan place label act s)) where
    clean_up-kept :
        (diff : Comparison) (mine : List Entry) (x : Outcome E)
        → P (turn_of x)
        → P (turn_of (clean_up w plan place diff mine x))
    clean_up-kept diff mine (err e, s, es) good = good
    clean_up-kept diff mine (ok r, s, es) good =
        then_roll-kept
          (each_step w plan place remove_added_volume (drop_volume w)
            (minus (names_added w plan diff volumes) (removed_names mine)) s)
          (each_step w plan place remove_added_network (remove_network w plan)
            (names_added w plan diff networks))
          (each_step-kept remove_added_volume (drop_volume w)
            (λ n t fine. added_kept (remove_added_volume n) (drop_volume w n) t refl fine) _ s good)
          (each_step-kept remove_added_network (remove_network w plan)
            (λ n t fine. added_kept (remove_added_network n) (remove_network w plan n) t refl fine)
            _)

    pub roll_back-kept :
        (mine : Entry → Bool) (journal : List Entry) (now : Snapshot) (s : Rolling E)
        → P (ok tt, s)
        → P (turn_of (roll_back w plan place mine base journal now s))
    unfolding roll_back
    roll_back-kept mine journal now s good =
        clean_up-kept (compare base now) (keep mine journal)
          (then_entries w plan (replay w plan place mine base journal) journal
            (remove_containers w plan place base now s))
          (then_entries-kept (replay w plan place mine base journal) journal
            (remove_containers w plan place base now s)
            (each_step-kept remove_added_container (remove_container w plan)
              (λ n t fine.
                added_kept (remove_added_container n) (remove_container w plan n) t refl fine)
              _ s good)
            (λ t fine. undo_entries-kept mine (reverse journal) t fine))
