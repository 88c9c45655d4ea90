-- ===== src/Session/Lifecycle.antt =====
-- `begin`, `status`, `ls` and `end` of src/aisb/api/session.py: which session is at work, and what
-- is kept of each. The id of a new session is an argument.
use mathlib.Core.Path.{subst}
use aisb.Prelude.{
  ℕ, String, Bool, true, false, ◌||◌, ◌≡◌, refl, Option, none, some, List, [], ◌∷◌, ◌++◌, ◌==◌,
  Dict, sorted, map, keep, get, put, keys, length, or_else, get-put, eq_refl, if◌then◌else◌,
}
use aisb.Prelude.Results.{Result, ok, err, ok_injective}
use aisb.Session.Snapshot.{Kind, Snapshot, Summary, compare}
use aisb.Session.Undo.{
  Endpoint, Inverse, recreate_container, recreate_network, restore_volume, remove_volume,
  restore_db, set_running, not_undoable, capture_failed, World,
}
use aisb.Session.Rollback.{Entry, Undo, one, group}

-- What `session.json` holds, and the sessions on this machine.
pub record Meta : Type 0 where
  pub name : Option String
  pub is_active : Bool
  pub protects : Bool
  pub baseline : Snapshot

pub record Sessions : Type 0 where
  pub current : Option String
  pub metas : Dict Meta
  pub journals : Dict (List Entry)

pub data Refusal (E : Type 0) : Type 0 where
  already_active no_meta : String → Refusal E
  no_session : Refusal E
  raised : E → Refusal E

abbrev is_active : Option Meta → Bool
is_active none = false
is_active (some m) = m.is_active

abbrev active_in : Sessions → Option String → Option String
active_in s none = none
active_in s (some sid) = if is_active (get s.metas sid) then some sid else none

-- the session that is at work
unfoldable pub active : Sessions → Option String
unfolding get
active s = active_in s s.current

abbrev journal_of : Sessions → String → List Entry
journal_of s sid = or_else (get s.journals sid) []

-- `inverse.get("kind", "none")`
abbrev kind_of : Inverse → String
kind_of (recreate_container c) = "recreate-container"
kind_of (recreate_network n driver internal labels) = "recreate-network"
kind_of (restore_volume n meta backup) = "restore-volume"
kind_of (remove_volume n) = "remove-volume"
kind_of (restore_db c database dump) = "restore-db"
kind_of (set_running n c running) = "set-running"
kind_of (not_undoable reason) = "not-undoable"
kind_of (capture_failed e) = "capture-failed"

abbrev undo_kind : Option Undo → String
undo_kind none = "none"
undo_kind (some (one inverse)) = kind_of inverse
undo_kind (some (group inverses)) = "group"

abbrev is_lost : Entry → Bool
is_lost e = undo_kind e.inverse == "not-undoable" || undo_kind e.inverse == "capture-failed"

pub record Line : Type 0 where
  pub op : String
  pub undo : String
  pub is_done : Bool

pub record Report : Type 0 where
  pub session : String
  pub is_active : Bool
  pub summary : List (Kind × Summary)
  pub journal : List Line
  pub not_undone : List String

abbrev line_of : Entry → Line
line_of e = record { op = e.op; undo = undo_kind e.inverse; is_done = e.is_done }

-- A row of `ls`.
pub record Row : Type 0 where
  pub session : String
  pub name : Option String
  pub is_active : Bool
  pub changes : ℕ

module _ {A E : Type 0} (w : World A E) where
  abbrev begun :
      String
      → Option String
      → Bool
      → Sessions
      → Result E Snapshot × Endpoint
      → Result (Refusal E) Sessions × Endpoint
  begun sid name protects s (err e, t) = (err (raised e), t)
  begun sid name protects s (ok base, t) = (
    ok (record s {
      current = some sid;
      metas =
          put s.metas sid
            (record { name = name; is_active = true; protects = protects; baseline = base });
    }),
    t,
  )

  abbrev begin_unless :
      Option String
      → String
      → Option String
      → Bool
      → Sessions
      → Endpoint
      → Result (Refusal E) Sessions × Endpoint
  begin_unless (some old) sid name protects s t = (err (already_active old), t)
  begin_unless none sid name protects s t = begun sid name protects s (w.snapshot t)

  unfoldable pub begin :
      String → Option String → Bool → Sessions → Endpoint → Result (Refusal E) Sessions × Endpoint
  unfolding active put
  begin sid name protects s t = begin_unless (active s) sid name protects s t

  abbrev reported :
      String
      → Meta
      → List Entry
      → Result E Snapshot × Endpoint
      → Result (Refusal E) Report × Endpoint
  reported sid m journal (err e, t) = (err (raised e), t)
  reported sid m journal (ok now, t) = (
    ok (record {
      session = sid;
      is_active = m.is_active;
      summary = (compare m.baseline now).summary;
      journal = map line_of journal;
      not_undone = map (λ e. e.op) (keep is_lost journal);
    }),
    t,
  )

  abbrev report_if :
      Sessions → String → Option Meta → Endpoint → Result (Refusal E) Report × Endpoint
  report_if s sid none t = (err (no_meta sid), t)
  report_if s sid (some m) t = reported sid m (journal_of s sid) (w.snapshot t)

  abbrev status_of : Sessions → Option String → Endpoint → Result (Refusal E) Report × Endpoint
  status_of s none t = (err no_session, t)
  status_of s (some sid) t = report_if s sid (get s.metas sid) t

  abbrev asked_or_current : Option String → Option String → Option String
  asked_or_current none current = current
  asked_or_current (some sid) current = if sid == "" then current else some sid

  unfoldable pub status : Option String → Sessions → Endpoint → Result (Refusal E) Report × Endpoint
  unfolding get compare
  status session s t = status_of s (asked_or_current session s.current) t

module _ {E : Type 0} where
  abbrev ended_if : Sessions → String → Option Meta → Result (Refusal E) Sessions
  ended_if s sid none = err (no_meta sid)
  ended_if s sid (some m) =
      ok (record s { current = none; metas = put s.metas sid (record m { is_active = false }) })

  abbrev end_of : Sessions → Option String → Result (Refusal E) Sessions
  end_of s none = err no_session
  end_of s (some sid) = ended_if s sid (get s.metas sid)

  end_session : Sessions → Result (Refusal E) Sessions
  unfolding get put
  end_session s = end_of s s.current

abbrev row_of : Sessions → String → Option Meta → List Row
row_of s sid none = []
row_of s sid (some m) =
    record {
      session = sid;
      name = m.name;
      is_active = m.is_active;
      changes = length (journal_of s sid);
    }
    ∷ []

abbrev rows_of : Sessions → List String → List Row
rows_of s [] = []
rows_of s (sid ∷ sids) = rows_of s sids ++ row_of s sid (get s.metas sid)

-- the sessions, the newest first, as their ids begin with their time
unfoldable pub ls : Sessions → List Row
unfolding get sorted
ls s = rows_of s (sorted (keys s.metas))

began : Sessions → String → Meta → Sessions
began s sid m = record s { current = some sid; metas = put s.metas sid m }

active-began :
    (s : Sessions) (sid : String) (m : Meta)
    → m.is_active ≡ true
    → active (began s sid m) ≡ some sid
unfolding began active
active-began s sid m live = rw (get-put s.metas sid sid m) (rw (eq_refl sid) (rw live refl))

module _ {A E : Type 0} (w : World A E) (sid : String) (name : Option String) (protects : Bool)
    (s after : Sessions) where
  begun-active :
      (x : Result E Snapshot × Endpoint)
      → (begun w sid name protects s x).0 ≡ ok after
      → active after ≡ some sid
  unfolding began
  begun-active (err e, t) done = cc
  begun-active (ok base, t) done =
      subst (λ (a : Sessions). active a ≡ some sid) (ok_injective {E = Refusal E} done)
        (active-began s sid
          (record { name = name; is_active = true; protects = protects; baseline = base }) refl)

  begin_unless-active :
      (old : Option String) (t : Endpoint)
      → (begin_unless w old sid name protects s t).0 ≡ ok after
      → active after ≡ some sid
  begin_unless-active (some old) t done = cc
  begin_unless-active none t done = begun-active (w.snapshot t) done

  -- A session that has begun is at work.
  begin-active :
      (t : Endpoint) → (begin w sid name protects s t).0 ≡ ok after → active after ≡ some sid
  unfolding begin
  begin-active t done = begin_unless-active (active s) t done
