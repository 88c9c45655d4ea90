-- ===== src/Ops/Tests.antt =====
-- `invoke` at work on an operation that removes a container, and its theorems there.
use aisb.Prelude.{
  String, ◌≡◌, refl, inr, true, false, none, some, List, [], ◌∷◌, arith, eq_iff, All, Dict, get,
  put, minus, contains, sorted, partition, has_text, join_comma, keys, ◌||◌, ◌==◌,
}
use aisb.Prelude.Results.{ok, err}
use aisb.Transport.{json, Request, request, done, send, run, dry_run}
use aisb.Policy.{Ctx, absent, value}
use aisb.Policy.Matching.{Match, matches}
use aisb.Policy.Window.{in_window}
use aisb.Policy.Conditions.{no_volumes, conditions}
use aisb.Policy.Check.{Rule, not_allowed, check, enforce, applies}
use aisb.Ops.{
  destroy, mapping, Op, Env, State, to_confirm, own, would_be_denied, is_preview, is_enabled,
  invoke, call,
}
use aisb.Ops.Binding.{
  Value, text, texts, flag, table, Param, variadic, keyword, no_default, given, bind, is_required,
  unknown_arguments,
}
use aisb.Ops.Binding.Laws.{bind_checks}
use aisb.Ops.Masking.{redact}
use aisb.Ops.Laws.{IsHarmless, IsPreviewed, invoke-IsPreviewed}
use aisb.Ops.Auditing.{IsStopped, invoke-denied}

abbrev anything : Match
anything = record { op = absent; tier = absent; source = absent; user = absent; hosts = absent }

abbrev no_destroy : Rule
no_destroy = record {
  name = some "keep";
  mode = none;
  match = record anything { tier = value "destroy" };
  deny = true;
  message = none;
  require = record { ticket = false; ticket_pattern = none };
  window = none;
  deny_if = record {
    privileged = false;
    image_tag = absent;
    image = absent;
    host_network = false;
    docker_socket = false;
    volumes = false;
    force = false;
  };
}

abbrev ids : Param
ids = record { name = "ids"; kind = variadic; default = no_default; mapping = false }

abbrev force : Param
force = record { name = "force"; kind = keyword; default = given (flag false); mapping = false }

abbrev delete : Request String
delete = record { method = "DELETE"; path = "/containers/web"; payload = "" }

abbrev rm : Op String String
rm = record {
  qualname = "containers.rm";
  tier = destroy;
  params = ids ∷ force ∷ [];
  func = λ a. send json delete (λ answer. done (mapping none "None" ("was running" ∷ [])));
}

abbrev env : List Rule → Env String String
env rules = record {
  daemon = λ sent k r. ok "gone";
  world = record { inventory = none; astimezone = λ tz now. now; fullmatch = λ p t. true };
  rules = rules;
  now = record { weekday = 2; hour = 12; minute = 0 };
  view = λ kwargs. record {
    image = none;
    ref = none;
    network = none;
    privileged = false;
    force = false;
    volume = [];
    volumes = no_volumes;
  };
  hooks = (λ op kwargs. done tt) ∷ [];
  shown = λ f. "failed";
  audit_on = true;
  audit_reads = false;
  uuid = "c0ffee";
  is_secret = λ k. k == "password" || k == "API_TOKEN";
}

abbrev ann : Ctx
ann = record { user = "ann"; source = "cli"; host = none; ticket = none; run_id = none }

abbrev fresh : State String
fresh = record { transport = record { plan = none; sent = [] }; trail = [] }

abbrev web : Dict Value
web = ("ids", texts ("web" ∷ [])) ∷ []

runs : Unit {0}
unfolding invoke check enforce matches in_window conditions run dry_run has_text get put minus
    contains sorted partition call applies is_preview is_enabled join_comma
runs = tt

bound : bind rm.params web ≡ ok (record { args = text "web" ∷ []; kw = ("force", flag false) ∷ [] })
unfolding runs
bound = refl

unbound : bind rm.params (("all", flag true) ∷ web) ≡ err (unknown_arguments ("all" ∷ []))
unfolding runs
unbound = refl

removed : (invoke (env []) rm web ann false true fresh).1.transport.sent ≡ (json, delete) ∷ []
unfolding runs
removed = refl

asked :
    (invoke (env (no_destroy ∷ [])) rm web ann false false fresh).0
    ≡ ok (record {
      status = to_confirm;
      result = none;
      planned = request delete ∷ [];
      warnings =
          own "was running"
          ∷ would_be_denied
              (record { rule = "keep"; reason = not_allowed "containers.rm"; mode = "deny" })
          ∷ [];
    })
unfolding runs
asked = refl

bind_checks_example :
    ((x : String) → contains (keys web) x ≡ true → contains ("ids" ∷ "force" ∷ []) x ≡ true)
    × All (λ p. is_required p ≡ true → contains (keys web) p.name ≡ true) rm.params
unfolding runs
bind_checks_example =
    bind_checks web rm.params (record { args = text "web" ∷ []; kw = ("force", flag false) ∷ [] })
      refl

invoke-IsPreviewed_example :
    IsHarmless (env []) rm web ann fresh (invoke (env []) rm web ann false false fresh).1
    × IsPreviewed (env []) rm web ann false (invoke (env []) rm web ann false false fresh).0
invoke-IsPreviewed_example =
    invoke-IsPreviewed (env []) rm web ann false false fresh refl (inr (refl, refl))

abbrev secret_args : Dict Value
secret_args =
    ("password", text "hunter2")
    ∷ ("env", texts ("API_TOKEN=tok123" ∷ "MODE=x" ∷ "BARE" ∷ []))
    ∷ ("labels", table (("password", "s3") ∷ ("team", "a") ∷ []))
    ∷ []

redacted_args :
    redact (env []).is_secret secret_args
    ≡ ("password", text "***")
      ∷ ("env", texts ("API_TOKEN=***" ∷ "MODE=x" ∷ "BARE" ∷ []))
      ∷ ("labels", table (("password", "***") ∷ ("team", "a") ∷ []))
      ∷ []
unfolding redact partition
redacted_args = refl

invoke-denied_example :
    IsStopped
      (env (no_destroy ∷ []))
      rm
      web
      ann
      fresh
      (invoke (env (no_destroy ∷ [])) rm web ann false true fresh)
unfolding runs
invoke-denied_example =
    invoke-denied (env (no_destroy ∷ [])) rm web ann [] [] no_destroy false true fresh refl refl
      refl (λ e. ground (arith, eq_iff "deny" "warn"))
