-- ===== src/Session/Safety.antt =====
-- What a rollback of src/aisb/api/session.py does when it is only planned: it sends nothing.
use aisb.Prelude.{
  String, Bool, true, false, not, ◌||◌, ◌≡◌, refl, ap, ◌∙◌, inl, inr, Option, List, [], ◌∷◌, ◌++◌,
  keep, Bool-cases, Option-cases,
}
use aisb.Prelude.Results.{ok, err}
use aisb.Transport.{Transport, add_note}
use aisb.Session.Snapshot.{Snapshot, Comparison, compare}
use aisb.Session.Undo.{
  Payload, Inverse, recreate_container, recreate_network, restore_volume, remove_volume, restore_db,
  set_running, not_undoable, capture_failed, World,
}
use aisb.Session.Rollback.{
  shown, Label, planned, Entry, Rolling, is_wanted, step, undo, add_step, undo_entries, has_inverse,
  marked, mark_next,
}
use aisb.Session.Scope.{
  reverse, Outcome, roll_back, then_entries, clean_up, replay, remove_containers,
}
use aisb.Session.Laws.{Turn, roll_back-kept}

add_note-sent : (n : String) (t : Transport Payload) → (add_note n t).sent ≡ t.sent
unfolding add_note
add_note-sent n t = elim (Option-cases t.plan) [
  | inl live ↦ rw live refl
  | inr (requests, dry) ↦ rw dry refl
]

-- Nothing is raised or sent since `s`.
abbrev pub IsQuiet : {E : Type 0} → Rolling E → Turn E → Type 0
IsQuiet {E} s x = (x.0 ≡ ok tt) × (x.1.local.sent ≡ s.local.sent) × (x.1.remote ≡ s.remote)

module _ {A E : Type 0} (w : World A E) (place : Option String) (base : Snapshot)
    (s : Rolling E) where
  noted-IsQuiet :
      (label : Label) (t : Rolling E)
      → IsQuiet s (ok tt, t)
      → IsQuiet s (
        ok tt,
        add_step place label planned (record t { local = add_note (shown place label) t.local }),
      )
  noted-IsQuiet label t quiet = (refl, add_note-sent (shown place label) t.local ∙ quiet.1, quiet.2)

  undo-IsQuiet :
      (inverse : Inverse) (t : Rolling E)
      → is_wanted base inverse ≡ true
      → IsQuiet s (ok tt, t)
      → IsQuiet s (undo w true place inverse t)
  unfolding undo
  undo-IsQuiet (recreate_container c) t wanted quiet = noted-IsQuiet _ t quiet
  undo-IsQuiet (recreate_network n driver internal labels) t wanted quiet = noted-IsQuiet _ t quiet
  undo-IsQuiet (restore_volume n meta backup) t wanted quiet = noted-IsQuiet _ t quiet
  undo-IsQuiet (remove_volume n) t wanted quiet = noted-IsQuiet _ t quiet
  undo-IsQuiet (restore_db c database dump) t wanted quiet = noted-IsQuiet _ t quiet
  undo-IsQuiet (set_running n c true) t wanted quiet = noted-IsQuiet _ t quiet
  undo-IsQuiet (set_running n c false) t wanted quiet = noted-IsQuiet _ t quiet
  undo-IsQuiet (not_undoable reason) t wanted quiet = quiet
  undo-IsQuiet (capture_failed e) t wanted quiet = quiet

marked-planned : (e : Entry) → marked true e ≡ e
marked-planned e = elim (Bool-cases e.is_done) [
  | inl yes_done ↦ ap (λ b. record e { is_done = b }) (rw yes_done refl)
  | inr open_still ↦ ap (λ b. record e { is_done = b }) (rw open_still refl)
]

module _ {A E : Type 0} (w : World A E) (place : Option String) where
  mark_next-planned :
      (e : Entry) (es : List Entry) (next : Rolling E → Outcome E) (x : Turn E)
      → ((s : Rolling E) → (next s).2 ≡ es)
      → (mark_next w true place e es next x).2 ≡ e ∷ es
  mark_next-planned e es next (err x, s) same = refl
  mark_next-planned e es next (ok r, s) same =
      rw (marked-planned e) (ap (λ rest. e ∷ rest) (same s))

  undo_entries-planned :
      (mine : Entry → Bool) (base : Snapshot) (es : List Entry) (s : Rolling E)
      → (undo_entries w true place mine base es s).2 ≡ es
  unfolding undo_entries
  undo_entries-planned mine base [] s = refl
  undo_entries-planned mine base (e ∷ es) s =
      elim (Bool-cases (not (mine e) || e.is_done || not (has_inverse e))) [
        | inl skipped ↦ rw skipped (ap (λ rest. e ∷ rest) (undo_entries-planned mine base es s))
        | inr undone ↦ rw undone (
            mark_next-planned e es (undo_entries w true place mine base es) _
              (undo_entries-planned mine base es))
      ]

reverse-append : (es : List Entry) (e : Entry) → reverse (es ++ e ∷ []) ≡ e ∷ reverse es
unfolding reverse
reverse-append [] e = refl
reverse-append (x ∷ es) e = rw (reverse-append es e) refl

pub reverse-reverse : (es : List Entry) → reverse (reverse es) ≡ es
unfolding reverse
reverse-reverse [] = refl
reverse-reverse (e ∷ es) =
    reverse-append (reverse es) e ∙ ap (λ rest. e ∷ rest) (reverse-reverse es)

module _ {A E : Type 0} (w : World A E) (place : Option String) (mine : Entry → Bool)
    (base : Snapshot) (journal : List Entry) where
  then_entries-planned :
      (next : Rolling E → Outcome E) (x : Turn E)
      → ((s : Rolling E) → (next s).2 ≡ journal)
      → (then_entries w true next journal x).2 ≡ journal
  then_entries-planned next (ok r, s) same = same s
  then_entries-planned next (err e, s) same = refl

  clean_up-planned :
      (diff : Comparison) (x : Outcome E)
      → x.2 ≡ journal
      → (clean_up w true place diff (keep mine journal) x).2 ≡ journal
  clean_up-planned diff (ok r, s, es) same = same
  clean_up-planned diff (err e, s, es) same = same

  -- A rollback that is only planned raises nothing after the snapshot of an endpoint, sends nothing
  -- to that endpoint or any other, and leaves every entry of the journal as it was.
  pub roll_back-planned :
      (now : Snapshot) (s : Rolling E)
      → IsQuiet s (
        (roll_back w true place mine base journal now s).0,
        (roll_back w true place mine base journal now s).1,
      )
        × ((roll_back w true place mine base journal now s).2 ≡ journal)
  unfolding roll_back step
  roll_back-planned now s = (
    roll_back-kept w true place base (IsQuiet s) (undo-IsQuiet w place base s)
        (λ label act t added quiet. noted-IsQuiet w place base s label t quiet) mine journal now s
        (refl, refl, refl),
    clean_up-planned (compare base now)
        (then_entries w true (replay w true place mine base journal) journal
          (remove_containers w true place base now s))
        (then_entries-planned (replay w true place mine base journal)
          (remove_containers w true place base now s)
          (λ t.
            ap reverse (undo_entries-planned w place mine base (reverse journal) t)
            ∙ reverse-reverse journal)),
  )
