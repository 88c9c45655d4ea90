-- ===== src/Session/Scope.antt =====
-- `_scope` and the body of `rollback` of src/aisb/api/session.py.
use Prim.Native.String
use aisb.Prelude.{
  contains, sorted, String, Bool, true, false, Option, none, some, List, [], ◌∷◌, ◌++◌, ◌==◌, map,
  minus, keep, if◌then◌else◌,
}
use aisb.Prelude.Results.{Result, ok, err}
use aisb.Transport.{planning}
use aisb.Session.Snapshot.{Kind, Snapshot, Comparison, containers, volumes, networks, compare}
use aisb.Session.Undo.{
  Endpoint, Action, World, not_undoable, capture_failed, forced, no_payload, tell, drop_volume,
}
use aisb.Session.Rollback.{
  remove_added_container, remove_added_volume, remove_added_network, baseline, connect, Status,
  failed, no_baseline, Step, Entry, Undo, one, Rolling, here, moved, add_step, then_roll,
  removed_names, undo_entries, each_step,
}

unfoldable pub reverse : List Entry → List Entry
reverse [] = []
reverse (e ∷ es) = reverse es ++ e ∷ []

-- What a scope or a rollback comes to: what it raises, its state, and the entries of the journal.
abbrev pub Outcome : Type 0 → Type 0
Outcome E = Result E (Unit {0}) × Rolling E × List Entry

module _ {A E : Type 0} (w : World A E) (plan : Bool) where
  abbrev pub remove_container : String → Action E (Unit {0})
  remove_container n = tell w "DELETE" (String.◌++◌ "/containers/" (w.quote n)) forced

  abbrev pub remove_network : String → Action E (Unit {0})
  remove_network n = tell w "DELETE" (String.◌++◌ "/networks/" (w.quote n)) no_payload

  abbrev pub names_added : Comparison → Kind → List String
  names_added diff kind = (diff.differences kind).added

  -- the objects that were added and that no inverse removes
  abbrev pub clean_up : Option String → Comparison → List Entry → Outcome E → Outcome E
  clean_up place diff mine (err e, s, es) = (err e, s, es)
  clean_up place diff mine (ok r, s, es) =
      let (result, last) =
        then_roll
          (each_step w plan place remove_added_volume (drop_volume w)
            (minus (names_added diff volumes) (removed_names mine)) s)
          (each_step w plan place remove_added_network remove_network
            (names_added diff networks)) in
      (result, last, es)

  abbrev pub then_entries :
      (Rolling E → Outcome E) → List Entry → Result E (Unit {0}) × Rolling E → Outcome E
  then_entries next es (err e, s) = (err e, s, es)
  then_entries next es (ok r, s) = next s

  abbrev pub turned : Outcome E → Outcome E
  turned (result, s, es) = (result, s, reverse es)

  -- the containers that were added are removed, then the entries are undone, the newest first
  abbrev pub remove_containers :
      Option String → Snapshot → Snapshot → Rolling E → Result E (Unit {0}) × Rolling E
  remove_containers place base now =
      each_step w plan place remove_added_container remove_container
        (names_added (compare base now) containers)

  abbrev pub replay : Option String → (Entry → Bool) → Snapshot → List Entry → Rolling E → Outcome E
  replay place mine base journal s =
      turned (undo_entries w plan place mine base (reverse journal) s)

  -- after the snapshot of what there is now
  unfoldable pub roll_back :
      Option String → (Entry → Bool) → Snapshot → List Entry → Snapshot → Rolling E → Outcome E
  unfolding compare each_step undo_entries drop_volume reverse
  roll_back place mine base journal now s =
      clean_up place (compare base now) (keep mine journal)
        (then_entries (replay place mine base journal) journal (remove_containers place base now s))

  abbrev from_snapshot :
      Option String
      → (Entry → Bool)
      → Snapshot
      → List Entry
      → Rolling E
      → Result E Snapshot × Endpoint
      → Outcome E
  from_snapshot place mine base journal s (err e, t) = (err e, moved t s, journal)
  from_snapshot place mine base journal s (ok now, t) =
      roll_back place mine base journal now (moved t s)

  -- `_scope`, for the entries that are `mine`
  unfoldable pub scope :
      Option String → (Entry → Bool) → Snapshot → List Entry → Rolling E → Outcome E
  unfolding roll_back
  scope place mine base journal s = from_snapshot place mine base journal s (w.snapshot (here s))

-- A host of the session: its name, and what its baseline file holds.
pub record HostBaseline (A E : Type 0) : Type 0 where
  pub name : String
  pub base : Option Snapshot
  pub error : Option String
  pub world : World A E
  pub connection : Result E Endpoint

-- e.get("host") == h.name, and not e.get("host")
abbrev is_on : String → Entry → Bool
is_on name e = elim e.host [ none ↦ false | some h ↦ h == name ]

abbrev pub is_local : Entry → Bool
is_local e = elim e.host [ none ↦ true | some h ↦ h == "" ]

module _ {E : Type 0} where
  -- A host that cannot be reached, or whose scope raises, has a step that failed.
  abbrev left : (E → Bool) → String → Outcome E → Outcome E
  left is_unreachable name (ok r, s, es) = (ok r, record s { remote = none }, es)
  left is_unreachable name (err e, s, es) =
      if is_unreachable e
      then (ok tt, add_step (some name) (connect name) (failed e) (record s { remote = none }), es)
      else (err e, s, es)

  abbrev then_hosts : (List Entry → Rolling E → Outcome E) → Outcome E → Outcome E
  then_hosts next (ok r, s, es) = next es s
  then_hosts next (err e, s, es) = (err e, s, es)

module _ {A E : Type 0} (is_unreachable : E → Bool) (plan : Bool) where
  abbrev on_connection :
      HostBaseline A E → Snapshot → List Entry → Rolling E → Result E Endpoint → Outcome E
  on_connection h base es s (err e) = (err e, s, es)
  on_connection h base es s (ok t) =
      scope h.world plan (some h.name) (is_on h.name) base es (record s { remote = some t })

  abbrev on_host : HostBaseline A E → Option Snapshot → List Entry → Rolling E → Outcome E
  on_host h none es s =
      (ok tt, add_step (some h.name) (baseline h.name) (no_baseline h.error) s, es)
  on_host h (some base) es s = left is_unreachable h.name (on_connection h base es s h.connection)

  roll_hosts : List (HostBaseline A E) → List Entry → Rolling E → Outcome E
  unfolding scope
  roll_hosts [] es s = (ok tt, s, es)
  roll_hosts (h ∷ hs) es s = then_hosts (roll_hosts hs) (on_host h h.base es s)

-- What `rollback` returns: the hosts of the journal, the steps, the operations that cannot be undone, and the journal that
-- it writes, if it writes one.
pub record Report (E : Type 0) : Type 0 where
  pub hosts : List String
  pub steps : List (Step E)
  pub failed_steps : List (Step E)
  pub not_undone : List String
  pub journal : Option (List Entry)
  pub transport : Endpoint

abbrev is_failed : {E : Type 0} → Status E → Bool
is_failed (failed e) = true
is_failed (no_baseline e) = true
is_failed _ = false

-- {e.get("host") or "local" for e in journal} | {"local"}
abbrev place_of : Option String → String
place_of none = "local"
place_of (some h) = if h == "" then "local" else h

abbrev host_names : List Entry → List String
host_names [] = "local" ∷ []
host_names (e ∷ es) =
    let rest = host_names es in
    if contains rest (place_of e.host) then rest else place_of e.host ∷ rest

abbrev cannot : Option Undo → Bool
cannot (some (one (not_undoable reason))) = true
cannot (some (one (capture_failed e))) = true
cannot _ = false

module _ {A E : Type 0} (is_unreachable : E → Bool) (w : World A E) where
  abbrev report : Bool → Outcome E → Result E (Report E)
  report plan (err e, s, es) = err e
  report plan (ok r, s, es) = ok (record {
    hosts = sorted (host_names es);
    steps = s.steps;
    failed_steps = keep (λ t. is_failed t.status) s.steps;
    not_undone = map (λ e. e.op) (keep (λ e. cannot e.inverse) es);
    journal = if plan then none else some es;
    transport = s.local;
  })

  -- `rollback` of a session with this baseline, these hosts and this journal
  unfoldable pub rollback :
      Snapshot → List (HostBaseline A E) → List Entry → Endpoint → Result E (Report E)
  unfolding scope roll_hosts planning contains sorted
  rollback base hosts journal t =
      let plan = planning t in
      report plan (
        then_hosts (roll_hosts is_unreachable plan hosts) (
          scope w plan none is_local base journal
            (record { steps = []; local = t; remote = none })))
