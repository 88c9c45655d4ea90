-- ===== src/Session/Capture.antt =====
-- `capture` of src/aisb/api/session.py, which journals how a change is undone before it is made. The
-- id of an entry is an argument.
use aisb.Prelude.{
  String, Bool, false, not, ◌&&◌, ◌||◌, Option, none, some, List, [], ◌∷◌, ◌++◌, ◌==◌, Dict, get,
  put, contains, is_some, if◌then◌else◌,
}
use aisb.Prelude.Results.{Result, ok, err}
use aisb.Session.Snapshot.{Snapshot}
use aisb.Session.Undo.{
  no_payload, Endpoint, Action, Inverse, restore_db, set_running, not_undoable, capture_failed, ask,
  give, ◌▷◌,
}
use aisb.Session.Rollback.{Undo, one, Entry}
use aisb.Session.Inspect.{
  Arguments, Client, join2, strip_slashes, redacted, network_state, named_container, is_running_op,
  path_of, volume_meta, container_state, volume_state, stack_state,
}

module _ {A E : Type 0} (client : Client A E) where
  abbrev just : Inverse → Action E (Option Undo)
  just inverse = give (some (one inverse))

  -- the chain of branches, before what it raises is caught
  unfoldable pub inverse_of : String → Bool → String → String → Arguments → Action E (Option Undo)
  unfolding container_state volume_meta stack_state strip_slashes
  inverse_of key protects id op args =
      if op == "containers.rm"
      then container_state client args.ref args.takes_volumes ▷ just
      else if op == "volumes.rm" || op == "volumes.restore"
      then volume_state client args.ref ▷ just
      else if op == "db.restore" || (op == "db.exec" && protects)
      then (client.dump args.ref args.database id ▷ λ path.
          just (restore_db args.ref args.database path))
      else if op == "networks.rm"
      then (ask client.world "GET" (path_of client "/networks/" args.ref) no_payload ▷ λ a.
          just (network_state (client.network_info a)))
      else if op == "stack.down"
      then (stack_state client key args ▷ λ u. give (some u))
      else if is_running_op op
      then (ask client.world "GET" (join2 (path_of client "/containers/" args.ref) "/json")
            no_payload
          ▷ λ a.
              let info = client.container_info a in
              just (set_running args.ref (named_container info.name) info.is_running))
      else if op == "system.prune" || op == "images.rmi"
      then just (
          not_undoable
            (join2 op " cannot be reversed (images can be pulled again; pruned objects are gone)"))
      else give none

-- The session at work, if there is one: what is protected, the baselines of its hosts (or why there
-- is none), and its journal.
pub record Store : Type 0 where
  pub current : Option String
  pub protects : Bool
  pub baselines : Dict (Result String Snapshot)
  pub journal : List Entry

-- The operation that is invoked, and the id of its entry.
pub record Change : Type 0 where
  pub id : String
  pub resource : String
  pub op : String
  pub tier : String
  pub host : Option String
  pub arguments : Arguments

-- `SKIP`
abbrev pub is_skipped : String → Bool
is_skipped resource = contains ("session" ∷ "capsule" ∷ []) resource

abbrev pub Captured : Type 0 → Type 0
Captured E = Result E (Unit {0}) × Store × Endpoint

module _ {A E : Type 0} (client : Client A E) (key : String) where
  abbrev set_baseline : String → Result String Snapshot → Store → Store
  set_baseline host base s = record s { baselines = put s.baselines host base }

  abbrev pub with_snapshot :
      String → Store → Result E Snapshot × Endpoint → (Store → Endpoint → Captured E) → Captured E
  with_snapshot host s (ok base, t) next = next (set_baseline host (ok base) s) t
  with_snapshot host s (err e, t) next =
      if client.is_docker_error e
      then next (set_baseline host (err (client.text_of_error e)) s) t
      else (err e, s, t)

  -- the baseline of a host that the session touches first
  unfoldable pub with_baseline :
      Option String → Store → Endpoint → (Store → Endpoint → Captured E) → Captured E
  unfolding get put
  with_baseline none s t next = next s t
  with_baseline (some host) s t next =
      let taken = with_snapshot host s (client.world.snapshot t) next in
      if is_some (get s.baselines host) then next s t else taken

  abbrev pub entry_of : Change → Option Undo → Entry
  entry_of c inverse = record {
    id = c.id;
    op = c.op;
    tier = c.tier;
    args = redacted client.is_secret c.arguments.all_args;
    host = c.host;
    inverse = inverse;
    is_done = false;
  }

  abbrev write_entry : Change → Option Undo → Store → Endpoint → Captured E
  write_entry c inverse s t =
      (ok tt, record s { journal = s.journal ++ entry_of c inverse ∷ [] }, t)

  abbrev pub journal_entry : Change → Store → Result E (Option Undo) × Endpoint → Captured E
  journal_entry c s (ok inverse, t) = write_entry c inverse s t
  journal_entry c s (err e, t) =
      if client.is_rescued e
      then write_entry c (some (one (capture_failed (client.text_of_error e)))) s t
      else (err e, s, t)

  unfoldable pub capture_in : Change → Store → Endpoint → Captured E
  unfolding inverse_of redacted
  capture_in c s t = journal_entry c s (inverse_of client key s.protects c.id c.op c.arguments t)

  unfoldable pub capture : Change → Store → Endpoint → Captured E
  unfolding capture_in with_baseline
  capture c s t =
      if not (is_some s.current) || is_skipped c.resource
      then (ok tt, s, t)
      else with_baseline c.host s t (capture_in c)
