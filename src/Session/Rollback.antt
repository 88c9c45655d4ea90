-- ===== src/Session/Rollback.antt =====
-- `_scope` and `rollback` of src/aisb/api/session.py: an endpoint is brought back to its baseline
-- step by step, and the local daemon and each host in turn. The connection to a host is a parameter.
use Prim.Native.String
use aisb.Prelude.{
  Dict, String, Bool, true, false, not, ◌&&◌, ◌||◌, Option, none, some, List, [], ◌∷◌, ◌++◌, ◌==◌,
  keys, contains, or_else, is_some, if◌then◌else◌,
}
use aisb.Prelude.Results.{Result, ok, err}
use aisb.Transport.{add_note, planning}
use aisb.Session.Snapshot.{Snapshot, containers, volumes, networks}
use aisb.Session.Undo.{
  no_payload, Endpoint, Action, Inverse, recreate_container, recreate_network, restore_volume,
  remove_volume, restore_db, set_running, not_undoable, capture_failed, World, new_network, tell,
  if_missing, ensure_volume, recreate, ◌▷◌,
}

-- The steps of a rollback, by what they do.
pub data Label : Type 0 where
  remove_added_container remove_added_volume remove_added_network : String → Label
  recreating_container recreating_network restoring_volume removing_volume restoring_db :
      String → Label
  starting stopping baseline connect : String → Label

pub data Status (E : Type 0) : Type 0 where
  planned done : Status E
  failed : E → Status E
  no_baseline : Option String → Status E

pub record Step (E : Type 0) : Type 0 where
  pub place : Option String
  pub label : Label
  pub status : Status E

-- An entry of the journal: what is undone of it is one inverse, or a group of them.
pub data Undo : Type 0 where
  one : Inverse → Undo
  group : List Inverse → Undo

pub record Entry : Type 0 where
  pub id : String
  pub op : String
  pub tier : String
  pub args : Dict String
  pub host : Option String
  pub inverse : Option Undo
  pub is_done : Bool

-- The state of a rollback: its steps, the transport of the session, and that of the host at work.
pub record Rolling (E : Type 0) : Type 0 where
  pub steps : List (Step E)
  pub local : Endpoint
  pub remote : Option Endpoint

abbrev join2 : String → String → String
join2 = String.◌++◌

abbrev pub text_of : Label → String
text_of (remove_added_container n) = join2 "remove added container " n
text_of (remove_added_volume n) = join2 "remove added volume " n
text_of (remove_added_network n) = join2 "remove added network " n
text_of (recreating_container n) = join2 "recreate container " n
text_of (recreating_network n) = join2 "recreate network " n
text_of (restoring_volume n) = join2 "restore volume " n
text_of (removing_volume n) = join2 "remove volume " (join2 n " (it didn't exist before)")
text_of (restoring_db n) = join2 "restore database in " n
text_of (starting n) = join2 "start " n
text_of (stopping n) = join2 "stop " n
text_of (baseline n) = "baseline"
text_of (connect n) = "connect"

-- `label` of `step`
abbrev pub shown : Option String → Label → String
shown none label = text_of label
shown (some h) label =
    if h == "local" then text_of label else join2 "[" (join2 h (join2 "] " (text_of label)))

module _ {E : Type 0} where
  abbrev pub here : Rolling E → Endpoint
  here s = or_else s.remote s.local

  abbrev pub moved_in : Option Endpoint → Endpoint → Rolling E → Rolling E
  moved_in none t s = record s { local = t }
  moved_in (some _) t s = record s { remote = some t }

  abbrev pub moved : Endpoint → Rolling E → Rolling E
  moved t s = moved_in s.remote t s

  abbrev pub add_step : Option String → Label → Status E → Rolling E → Rolling E
  add_step place label status s = record s {
    steps = s.steps ++ record { place = place; label = label; status = status } ∷ [];
  }

abbrev pub then_roll :
    {E : Type 0}
    → Result E (Unit {0}) × Rolling E
    → (Rolling E → Result E (Unit {0}) × Rolling E)
    → Result E (Unit {0}) × Rolling E
then_roll (ok r, s) next = next s
then_roll (err e, s) next = (err e, s)

-- [e["inverse"]] + e["inverse"].get("steps", []), without the group itself, which undoes nothing
abbrev pub parts_of : Undo → List Inverse
parts_of (one inverse) = inverse ∷ []
parts_of (group inverses) = inverses

-- `existed` and the two tests of `_scope` that skip an inverse
unfoldable pub is_wanted : Snapshot → Inverse → Bool
is_wanted base (recreate_container c) = contains (keys (base.objects containers)) c.name
is_wanted base (restore_volume n meta backup) = contains (keys (base.objects volumes)) n
is_wanted base (recreate_network n driver internal labels) =
    contains (keys (base.objects networks)) n
is_wanted base (set_running n (some c) running) =
    c == "" || contains (keys (base.objects containers)) c
is_wanted base _ = true

abbrev pub has_inverse : Entry → Bool
has_inverse e = is_some e.inverse

abbrev pub marked : Bool → Entry → Entry
marked planning e = record e { is_done = e.is_done || (not planning && has_inverse e) }

abbrev pub removed_by : Option Undo → List String
removed_by (some (one (remove_volume n))) = n ∷ []
removed_by _ = []

unfoldable pub removed_names : List Entry → List String
removed_names [] = []
removed_names (e ∷ es) = removed_by e.inverse ++ removed_names es

module _ {A E : Type 0} (w : World A E) (plan : Bool) (place : Option String) where
  abbrev pub settle :
      Label → Result E (Unit {0}) × Endpoint → Rolling E → Result E (Unit {0}) × Rolling E
  settle label (ok r, t) s = (ok tt, add_step place label done (moved t s))
  settle label (err e, t) s =
      if w.is_caught e
      then (ok tt, add_step place label (failed e) (moved t s))
      else (err e, moved t s)

  -- `step` of `rollback`
  abbrev pub step_if :
      Bool → Label → Action E (Unit {0}) → Rolling E → Result E (Unit {0}) × Rolling E
  step_if true label act s = (
    ok tt,
    add_step place label planned (record s { local = add_note (shown place label) s.local }),
  )
  step_if false label act s = settle label (act (here s)) s

  unfoldable pub step : Label → Action E (Unit {0}) → Rolling E → Result E (Unit {0}) × Rolling E
  step = step_if plan

  -- `_undo`
  unfoldable pub undo : Inverse → Rolling E → Result E (Unit {0}) × Rolling E
  unfolding step recreate if_missing ensure_volume
  undo (recreate_container c) s = step (recreating_container c.name) (recreate w c) s
  undo (recreate_network n driver internal labels) s =
      step (recreating_network n)
        (if_missing w (join2 "/networks/" (w.quote n))
          (tell w "POST" "/networks/create" (new_network n driver internal labels)))
        s
  undo (restore_volume n meta backup) s =
      step (restoring_volume n) (ensure_volume w n meta ▷ λ _. w.restore n backup true) s
  undo (remove_volume n) s =
      step (removing_volume n) (tell w "DELETE" (join2 "/volumes/" (w.quote n)) no_payload) s
  undo (restore_db c database dump) s = step (restoring_db c) (w.run_script c database dump) s
  undo (set_running n c true) s =
      step (starting n)
        (tell w "POST" (join2 "/containers/" (join2 (w.quote n) "/start")) no_payload) s
  undo (set_running n c false) s =
      step (stopping n)
        (tell w "POST" (join2 "/containers/" (join2 (w.quote n) "/stop")) no_payload) s
  undo (not_undoable reason) s = (ok tt, s)
  undo (capture_failed e) s = (ok tt, s)

  unfoldable pub undo_parts : Snapshot → List Inverse → Rolling E → Result E (Unit {0}) × Rolling E
  unfolding undo is_wanted
  undo_parts base [] s = (ok tt, s)
  undo_parts base (inverse ∷ rest) s =
      let skipped = undo_parts base rest s in
      let undone = then_roll (undo inverse s) (undo_parts base rest) in
      if is_wanted base inverse then undone else skipped

  abbrev pub undo_entry : Snapshot → Option Undo → Rolling E → Result E (Unit {0}) × Rolling E
  undo_entry base none s = (ok tt, s)
  undo_entry base (some u) s = undo_parts base (parts_of u) s

  abbrev pub mark_next :
      Entry
      → List Entry
      → (Rolling E → Result E (Unit {0}) × Rolling E × List Entry)
      → Result E (Unit {0}) × Rolling E
      → Result E (Unit {0}) × Rolling E × List Entry
  mark_next e es next (err x, s) = (err x, s, e ∷ es)
  mark_next e es next (ok r, s) =
      let (result, last, rest) = next s in (result, last, marked plan e ∷ rest)

  abbrev pub keep_next :
      Entry
      → Result E (Unit {0}) × Rolling E × List Entry
      → Result E (Unit {0}) × Rolling E × List Entry
  keep_next e (result, s, es) = (result, s, e ∷ es)

  -- The loop over the journal, the newest entry first: what is raised, the state, and the entries,
  -- those marked that are undone. `mine` tells the entries of this endpoint.
  unfoldable pub undo_entries :
      (Entry → Bool)
      → Snapshot
      → List Entry
      → Rolling E
      → Result E (Unit {0}) × Rolling E × List Entry
  unfolding undo_parts
  undo_entries mine base [] s = (ok tt, s, [])
  undo_entries mine base (e ∷ es) s =
      let skipped = keep_next e (undo_entries mine base es s) in
      let undone = mark_next e es (undo_entries mine base es) (undo_entry base e.inverse s) in
      if not (mine e) || e.is_done || not (has_inverse e) then skipped else undone

  -- a loop of steps over names
  unfoldable pub each_step :
      (String → Label)
      → (String → Action E (Unit {0}))
      → List String
      → Rolling E
      → Result E (Unit {0}) × Rolling E
  unfolding step
  each_step label act [] s = (ok tt, s)
  each_step label act (n ∷ ns) s = then_roll (step (label n) (act n) s) (each_step label act ns)
