-- ===== src/Ops.antt =====
-- `invoke` of src/aisb/ops.py: how an operation runs under the policy and its tier. What the
-- daemon, the clock, the identifiers and the rules are is read from an environment; the state is
-- the transport and the audit trail. Of a result `invoke` reads whether it is a mapping, and its
-- "ok", "reason" and "warnings"; of the audit record, `ms` and `endpoint` are left out.
pub mod Binding
pub mod Laws
pub mod Masking
pub mod Auditing
mod Tests
use Prim.Native.String
use aisb.Prelude.{
  ℕ, zero, suc, String, Bool, true, false, not, ◌&&◌, ◌||◌, Option, none, some, List, [], ◌∷◌, ◌++◌,
  Dict, if◌then◌else◌, map, ◌==◌,
}
use aisb.Prelude.Results.{Result, ok, err}
use aisb.Transport
use aisb.Transport.{Transport, Planned, Prog, Daemon, run}
use aisb.Policy.{Ctx}
use aisb.Policy.Conditions.{Kwargs}
use aisb.Policy.Check.{World, Rule, Violation, Refusal, policy_denied, bad_rule, check, enforce}
use aisb.Policy.Window
use aisb.Ops.Binding
use aisb.Ops.Binding.{Value, Param, Arguments, bind}
use aisb.Ops.Masking.{redact}

pub data Tier : Type 0 where
  read mutate destroy : Tier

abbrev pub tier_value : Tier → String
tier_value read = "read"
tier_value mutate = "mutate"
tier_value destroy = "destroy"

abbrev pub is_read : Tier → Bool
is_read read = true
is_read mutate = false
is_read destroy = false

abbrev pub is_destroy : Tier → Bool
is_destroy read = false
is_destroy mutate = false
is_destroy destroy = true

-- What a call may raise.
pub data Failure : Type 0 where
  denied : List Violation → Failure
  rule_error : Window.Error → Failure
  bad_arguments : Binding.Error → Failure
  raised : String → Failure

-- What an operation returns.
pub data Payload : Type 0 where
  mapping : (ok : Option Bool) (reason : String) (warnings : List String) → Payload
  other : String → Payload

-- The statuses "ok", "dry-run" and "confirm".
pub data Status : Type 0 where
  completed dry to_confirm : Status

-- A warning of the result, or of a rule that was broken.
pub data Warning : Type 0 where
  own : String → Warning
  warn_only would_be_denied : Violation → Warning

pub record Op (B A : Type 0) : Type 0 where
  pub qualname : String
  pub tier : Tier
  pub params : List Param
  pub func : Arguments → Prog B A Failure Payload

pub record Outcome (B : Type 0) : Type 0 where
  pub status : Status
  pub result : Option Payload
  pub planned : List (Planned B)
  pub warnings : List Warning

-- A record of the audit trail.
pub record Entry : Type 0 where
  pub op : String
  pub tier : Tier
  pub args : Dict Value
  pub ctx : Ctx
  pub ok : Bool
  pub error : Option String
  pub denied : Bool

-- `view` is how the rules' conditions read the arguments; `shown` is how an exception is printed;
-- `audit_on` and `audit_reads` are what the configuration says of auditing; `uuid` is the id of a change; `is_secret` is the search of
-- SECRET_KEY.
pub record Env (B A : Type 0) : Type 0 where
  pub daemon : Daemon B A Failure
  pub world : World
  pub rules : List Rule
  pub now : Window.Moment
  pub view : Dict Value → Kwargs
  pub hooks : List (Op B A → Dict Value → Prog B A Failure (Unit {0}))
  pub shown : Failure → String
  pub audit_on : Bool
  pub audit_reads : Bool
  pub uuid : String
  pub is_secret : String → Bool

pub record State (B : Type 0) : Type 0 where
  pub transport : Transport B
  pub trail : List Entry

-- `enabled` of src/aisb/audit.py
unfoldable pub is_enabled : {B A : Type 0} → Env B A → Tier → Bool
is_enabled env tier = env.audit_on && (not (is_read tier) || env.audit_reads)

-- text[:n]
abbrev pub cut : ℕ → String → String
cut zero s = ""
cut (suc n) String.[] = ""
cut (suc n) (String.◌∷◌ c s) = String.◌∷◌ c (cut n s)

-- `preview` of `invoke`
unfoldable pub is_preview : Tier → (dry_run confirm : Bool) → Bool
is_preview tier dry_run confirm =
    not (is_read tier) && (dry_run || (is_destroy tier && not confirm))

abbrev pub own_warnings : Payload → List Warning
own_warnings (mapping o r warnings) = map own warnings
own_warnings (other t) = []

abbrev pub warning_of : Violation → Warning
warning_of v = if v.mode == "warn" then warn_only v else would_be_denied v

-- isinstance(result, Mapping) and result.get("ok") is False
abbrev pub is_unmet : Payload → Bool
is_unmet (mapping (some false) r w) = true
is_unmet (mapping (some true) r w) = false
is_unmet (mapping none r w) = false
is_unmet (other t) = false

abbrev pub unmet_reason : Payload → Option String
unmet_reason (mapping (some false) r w) = some (cut 500 r)
unmet_reason (mapping (some true) r w) = none
unmet_reason (mapping none r w) = none
unmet_reason (other t) = none

abbrev pub failure_of : Refusal → Failure
failure_of (policy_denied vs) = denied vs
failure_of (bad_rule e) = rule_error e

-- `context.use(run_id=…)`: one id for each change
unfoldable pub with_run_id : String → Tier → Ctx → Ctx
with_run_id uuid tier ctx = elim ctx.run_id [
  | none ↦ if is_read tier then ctx else record ctx { run_id = some uuid }
  | some i ↦ ctx
]

abbrev pub start :
    {B A : Type 0} → Op B A → Result Binding.Error Arguments → Prog B A Failure Payload
start op (ok arguments) = op.func arguments
start op (err e) = Transport.raise (bad_arguments e)

-- `Op.call`
unfoldable pub call : {B A : Type 0} → Op B A → Dict Value → Prog B A Failure Payload
unfolding bind
call op kwargs = start op (bind op.params kwargs)

abbrev pub entry : {B A : Type 0} → Op B A → Dict Value → Ctx → Bool → Option String → Bool → Entry
entry op kwargs ctx is_ok error is_denied = record {
  op = op.qualname;
  tier = op.tier;
  args = kwargs;
  ctx = ctx;
  ok = is_ok;
  error = error;
  denied = is_denied;
}

module _ {B A : Type 0} (env : Env B A) where
  -- `record` of src/aisb/audit.py, as far as `invoke` is concerned: a record, if it is enabled
  unfoldable pub audited :
      Op B A → Dict Value → Ctx → Bool → Option String → Bool → State B → State B
  unfolding redact
  audited op kwargs ctx is_ok error is_denied s =
      if is_enabled env op.tier
      then record s {
        trail = s.trail ++ (entry op (redact env.is_secret kwargs) ctx is_ok error is_denied ∷ []);
      }
      else s

  abbrev pub outcome_of :
      Bool
      → List Violation
      → Result Failure Payload × List (Planned B) × Transport B
      → Result Failure (Outcome B) × Transport B
  outcome_of dry_run violations (ok result, planned, t) = (
    ok (record {
      status = if dry_run then dry else to_confirm;
      result = none;
      planned = planned;
      warnings = own_warnings result ++ map warning_of violations;
    }),
    t,
  )
  outcome_of dry_run violations (err e, planned, t) = (err e, t)

  -- the preview, once `check` has listed the violations
  unfoldable pub previewed :
      Op B A
      → Dict Value
      → Bool
      → Result Window.Error (List Violation)
      → State B
      → Result Failure (Outcome B) × State B
  unfolding call
  previewed op kwargs dry_run (err e) s = (err (rule_error e), s)
  previewed op kwargs dry_run (ok violations) s =
      let (outcome, t) =
        outcome_of dry_run violations (Transport.dry_run env.daemon (call op kwargs) s.transport) in
      (outcome, record s { transport = t })

  -- the branch of `invoke` that previews
  unfoldable pub preview :
      Op B A → Dict Value → Ctx → Bool → State B → Result Failure (Outcome B) × State B
  unfolding previewed
  preview op kwargs ctx dry_run s =
      previewed op kwargs dry_run
        (check env.world env.rules op.qualname (tier_value op.tier) (env.view kwargs) ctx env.now) s

  abbrev pub then_hook :
      (Transport B → Result Failure (Unit {0}) × Transport B)
      → Result Failure (Unit {0}) × Transport B
      → Result Failure (Unit {0}) × Transport B
  then_hook next (ok u, t) = next t
  then_hook next (err e, t) = (err e, t)

  -- the hooks, until one raises
  unfoldable pub run_hooks :
      List (Op B A → Dict Value → Prog B A Failure (Unit {0}))
      → Op B A
      → Dict Value
      → Transport B
      → Result Failure (Unit {0}) × Transport B
  run_hooks [] op kwargs t = (ok tt, t)
  run_hooks (hook ∷ hooks) op kwargs t =
      then_hook (run_hooks hooks op kwargs) (run env.daemon (hook op kwargs) t)

  abbrev pub then_call :
      Op B A
      → Dict Value
      → Result Failure (Unit {0}) × Transport B
      → Result Failure Payload × Transport B
  then_call op kwargs (ok u, t) = run env.daemon (call op kwargs) t
  then_call op kwargs (err e, t) = (err e, t)

  -- the `try` of `invoke`, once the policy lets it pass
  unfoldable pub perform : Op B A → Dict Value → Transport B → Result Failure Payload × Transport B
  unfolding run_hooks call
  perform op kwargs t =
      let hooked = then_call op kwargs (run_hooks env.hooks op kwargs t) in
      if is_read op.tier then run env.daemon (call op kwargs) t else hooked

  abbrev pub is_denied : Failure → Bool
  is_denied (denied vs) = true
  is_denied (rule_error e) = false
  is_denied (bad_arguments e) = false
  is_denied (raised t) = false

  abbrev pub error_text : Failure → String
  error_text f = if is_denied f then env.shown f else cut 500 (env.shown f)

  -- what follows the `try`
  unfoldable pub conclude :
      Op B A
      → Dict Value
      → Ctx
      → List Violation
      → Result Failure Payload
      → State B
      → Result Failure (Outcome B) × State B
  unfolding audited
  conclude op kwargs ctx warned (err f) s =
      (err f, audited op kwargs ctx false (some (error_text f)) (is_denied f) s)
  conclude op kwargs ctx warned (ok result) s = (
    ok (record {
      status = completed;
      result = some result;
      planned = [];
      warnings = map warn_only warned;
    }),
    audited op kwargs ctx (not (is_unmet result)) (unmet_reason result) false s,
  )

  -- the run, once `enforce` has decided
  unfoldable pub enforced :
      Op B A
      → Dict Value
      → Ctx
      → Result Refusal (List Violation)
      → State B
      → Result Failure (Outcome B) × State B
  unfolding perform conclude
  enforced op kwargs ctx (err refusal) s = conclude op kwargs ctx [] (err (failure_of refusal)) s
  enforced op kwargs ctx (ok warned) s =
      let (result, t) = perform op kwargs s.transport in
      conclude op kwargs ctx warned result (record s { transport = t })

  -- the branch of `invoke` that runs the operation
  unfoldable pub execute :
      Op B A → Dict Value → Ctx → State B → Result Failure (Outcome B) × State B
  unfolding enforced
  execute op kwargs ctx s =
      enforced op kwargs ctx
        (enforce env.world env.rules op.qualname (tier_value op.tier) (env.view kwargs) ctx env.now)
        s

  unfoldable pub invoke :
      Op B A
      → Dict Value
      → Ctx
      → (dry_run confirm : Bool) → State B
      → Result Failure (Outcome B) × State B
  unfolding is_preview preview with_run_id execute
  invoke op kwargs ctx dry_run confirm s =
      if is_preview op.tier dry_run confirm
      then preview op kwargs ctx dry_run s
      else execute op kwargs (with_run_id env.uuid op.tier ctx) s
