-- ===== src/Transport.antt =====
-- src/aisb/transport.py: the requests of an operation to the Docker daemon, and `dry_run`, which
-- records the requests that change something instead of sending them. An operation is what it asks
-- of its transport, one request at a time; the HTTP exchange is a parameter: the daemon answers a
-- request, knowing what was sent before.
pub mod Preview
pub mod Actions
mod Tests
use aisb.Prelude.{
  String, Bool, true, false, not, ◌&&◌, Option, none, some, List, [], ◌∷◌, ◌++◌, ◌==◌, has_text,
}
use aisb.Prelude.Results.{Result, ok, err}

-- DRY_ID
abbrev pub dry_id : String
dry_id = "dry-run-id"

-- The methods of `Transport` that send a request.
pub data Kind : Type 0 where
  json raw stream head : Kind

-- `B` is what a request holds beside its method and path: it is only carried.
pub record Request (B : Type 0) : Type 0 where
  pub method : String
  pub path : String
  pub payload : B

-- A request of the plan, or a note of a side effect outside the Docker API.
pub data Planned (B : Type 0) : Type 0 where
  request : Request B → Planned B
  note : String → Planned B

-- The state: the plan of a dry run, and what was sent, the latest first.
pub record Transport (B : Type 0) : Type 0 where
  pub plan : Option (List (Planned B))
  pub sent : List (Kind × Request B)

-- What the daemon answers, and what stands for the answer to a request that is not sent:
-- `{"Id": DRY_ID}`, or no bytes.
pub data Answer (A : Type 0) : Type 0 where
  answered : A → Answer A
  id : String → Answer A
  nothing : Answer A

-- A function of an operation, as what it asks of its transport; `E` is what it may raise.
pub data Prog (B A E R : Type 0) : Type 0 where
  done : R → Prog B A E R
  raise : E → Prog B A E R
  send : Kind → Request B → (Answer A → Prog B A E R) → Prog B A E R
  take_note : String → Prog B A E R → Prog B A E R
  ask_planning : (Bool → Prog B A E R) → Prog B A E R

abbrev pub Daemon : (B A E : Type 0) → Type 0
Daemon B A E = List (Kind × Request B) → Kind → Request B → Result E A

module _ {B : Type 0} where
  -- the test of `_intercept`, within a plan
  unfoldable pub is_kept : Request B → Bool
  is_kept r = not (r.method == "GET" && not (has_text dry_id r.path))

  -- `planning`
  unfoldable pub planning : Transport B → Bool
  planning t = elim t.plan [ none ↦ false | some _ ↦ true ]

  abbrev pub planned_of : Transport B → List (Planned B)
  planned_of t = elim t.plan [ none ↦ [] | some planned ↦ planned ]

  -- `note`
  unfoldable pub add_note : String → Transport B → Transport B
  add_note n t = elim t.plan [
    | none ↦ t
    | some planned ↦ record t { plan = some (planned ++ (note n ∷ [])) }
  ]

  abbrev pub record_if : Bool → Request B → List (Planned B) → Transport B → Bool × Transport B
  record_if false r planned t = (false, t)
  record_if true r planned t = (true, record t { plan = some (planned ++ (request r ∷ [])) })

  -- `_intercept`
  unfoldable pub intercept : Request B → Transport B → Bool × Transport B
  unfolding is_kept
  intercept r t = elim t.plan [
    | none ↦ (false, t)
    | some planned ↦ record_if (is_kept r) r planned t
  ]

  -- `head` sends without asking `_intercept`.
  unfoldable pub intercept_kind : Kind → Request B → Transport B → Bool × Transport B
  unfolding intercept
  intercept_kind head r t = (false, t)
  intercept_kind json r t = intercept r t
  intercept_kind raw r t = intercept r t
  intercept_kind stream r t = intercept r t

-- what `json`, `raw` and `stream` return for a request that is kept back
abbrev pub made_up : {A : Type 0} → Kind → Answer A
made_up json = id dry_id
made_up raw = nothing
made_up stream = nothing
made_up head = nothing

abbrev pub as_answer : {A E : Type 0} → Result E A → Result E (Answer A)
as_answer (ok a) = ok (answered a)
as_answer (err e) = err e

module _ {B A E : Type 0} where
  abbrev pub send_unless :
      Daemon B A E → Kind → Request B → Bool × Transport B → Result E (Answer A) × Transport B
  send_unless d k r (true, t) = (ok (made_up k), t)
  send_unless d k r (false, t) = (as_answer (d t.sent k r), record t { sent = (k, r) ∷ t.sent })

  -- `json`, `raw`, `stream` and `head`
  unfoldable pub exchange :
      Daemon B A E → Kind → Request B → Transport B → Result E (Answer A) × Transport B
  unfolding intercept_kind
  exchange d k r t = send_unless d k r (intercept_kind k r t)

module _ {B A E R : Type 0} where
  abbrev pub go_on :
      (Answer A → Transport B → Result E R × Transport B)
      → Result E (Answer A) × Transport B
      → Result E R × Transport B
  go_on next (ok a, t) = next a t
  go_on next (err e, t) = (err e, t)

  unfoldable pub run : Daemon B A E → Prog B A E R → Transport B → Result E R × Transport B
  unfolding exchange add_note planning
  run d (done r) t = (ok r, t)
  run d (raise e) t = (err e, t)
  run d (send k r next) t = go_on (λ a. run d (next a)) (exchange d k r t)
  run d (take_note n p) t = run d p (add_note n t)
  run d (ask_planning next) t = run d (next (planning t)) t

  -- `dry_run` around a call: what the call returns or raises, the plan, and the transport with the
  -- plan it had.
  unfoldable pub dry_run :
      Daemon B A E → Prog B A E R → Transport B → Result E R × List (Planned B) × Transport B
  unfolding run
  dry_run d p t =
      let (result, after) = run d p (record t { plan = some [] }) in
      (result, planned_of after, record after { plan = t.plan })
