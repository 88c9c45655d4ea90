-- ===== src/Stack/Up.antt =====
-- `up` of src/aisb/api/stack.py, with `_exists` and `_ready`, after the stack file is read. A
-- container is created and started, and its readiness found out, by functions of
-- src/aisb/api/containers.py and services.py: parameters, as what they ask of the transport. So are
-- the quoting of a path, the classes of an exception and what is read from an answer.
pub mod Keeps
pub mod Gates
pub mod Order
pub mod Follows
pub mod Inspected
pub mod Refines
mod Tests
use Prim.Native.String
use aisb.Prelude.{
  ℕ, String, Bool, true, false, not, ◌&&◌, Option, none, some, List, [], ◌∷◌, ◌++◌, ◌==◌, Dict, get,
  if◌then◌else◌,
}
use aisb.Prelude.Results.{Result, ok, err}
use aisb.Ops.Binding.{text}
use aisb.Models.{RunSpec}
use aisb.Transport.{json, Transport, Answer, Daemon, Prog, exchange, run, planning}
use aisb.Transport.Actions.{Action, ◌▷◌, give}
use aisb.Stack.{Ready, rule, tests, Service, Stack, stack_key, hash_key, dict_or, has_drifted}

-- The body of a request.
pub data Payload : Type 0 where
  no_payload forced : Payload
  new_network : String → String → Dict String → Payload
  new_volume : String → Dict String → Payload
  labelled : String → Payload

-- What `up` reads of a container: the labels of its configuration, and whether it runs.
pub record Info : Type 0 where
  pub labels : Option (Dict String)
  pub is_running : Bool

-- The conditions that `wait_for` waits for.
pub record Conditions : Type 0 where
  pub running : Bool
  pub healthy : Bool
  pub log : Option String
  pub port : Option String

-- What `wait_for` and the probe of a service return: `ok`, and the text of the rest.
pub record Report : Type 0 where
  pub is_ok : Bool
  pub rest : String

pub record World (A E : Type 0) : Type 0 where
  pub daemon : Daemon Payload A E
  pub quote : String → String
  pub is_not_found : E → Bool
  pub is_value_error : E → Bool
  pub key_error : E
  pub is_none : Answer A → Bool
  pub is_falsy : Answer A → Bool
  pub info_of : Answer A → Info
  pub create_from : RunSpec → Prog Payload A E (Unit {0})
  pub start : String → Prog Payload A E (Unit {0})
  pub probe : String → ℕ → Prog Payload A E Report
  pub wait_for : String → Conditions → ℕ → Prog Payload A E Report

pub data Did : Type 0 where
  created drifted started unchanged : Did

pub record Entry : Type 0 where
  pub service : String
  pub container : String
  pub action : Did
  pub ready : Option Report

-- `came_up` has the services, `not_ready` the one that did not become ready, the services up to it,
-- and those that were not started.
pub data Outcome : Type 0 where
  came_up : List Entry → Outcome
  not_ready : String → List Entry → List String → Outcome

-- `container`
unfoldable pub container_of : Service → String
container_of s = elim s.spec.name [ text t ↦ t | _ ↦ "" ]

abbrev pub path3 : String → String → String → String
path3 a b c = String.◌++◌ a (String.◌++◌ b c)

-- {STACK_KEY: name, "aisb.managed": "true"}
abbrev pub stack_labels : String → Dict String
stack_labels name = (stack_key, name) ∷ ("aisb.managed", "true") ∷ []

-- order[order.index(name) + 1:]
unfoldable pub following : String → List String → List String
following n [] = []
following n (x ∷ xs) = if x == n then xs else following n xs

abbrev pub is_drift : Did → Bool
is_drift drifted = true
is_drift _ = false

unfoldable pub conditions_of : Ready → Conditions
unfolding get
conditions_of (rule r) = record {
  running = r == "running";
  healthy = r == "healthy";
  log = none;
  port = none;
}
conditions_of (tests d) = record {
  running = false;
  healthy = false;
  log = get d "log";
  port = get d "port";
}

-- if not no_wait and not self.t.planning and entry["action"] != "drift"
unfoldable pub waits : Bool → Did → Transport Payload → Bool
unfolding planning
waits no_wait did t = not no_wait && not (planning t) && not (is_drift did)

unfoldable pub entry_of : String → Service → Did → Option Report → Entry
unfolding container_of
entry_of name svc did report = record {
  service = name;
  container = container_of svc;
  action = did;
  ready = report;
}

abbrev pub has_failed : Entry → Bool
has_failed e = elim e.ready [ none ↦ false | some r ↦ not r.is_ok ]

module _ {A E : Type 0} (w : World A E) where
  abbrev pub ask : String → String → Payload → Action Payload E (Answer A)
  ask method path payload =
      exchange w.daemon json (record { method = method; path = path; payload = payload })

  abbrev pub tell : String → String → Payload → Action Payload E (Unit {0})
  tell method path payload = ask method path payload ▷ λ _. give tt

  abbrev pub found_or_none :
      Result E (Answer A) × Transport Payload → Result E (Option (Answer A)) × Transport Payload
  found_or_none (ok a, t) = (ok (if w.is_none a then none else some a), t)
  found_or_none (err e, t) = (if w.is_not_found e then ok none else err e, t)

  -- `_exists`
  unfoldable pub exists : String → Action Payload E (Option (Answer A))
  exists path t = found_or_none (ask "GET" path no_payload t)

  abbrev pub is_there : Option (Answer A) → Bool
  is_there none = false
  is_there (some a) = not (w.is_falsy a)

  -- if not self._exists(path): post
  unfoldable pub create_unless : String → Action Payload E (Unit {0}) → Action Payload E (Unit {0})
  unfolding exists
  create_unless path post = exists path ▷ λ found. if is_there found then give tt else post

  unfoldable pub ensure_network : Stack → Action Payload E (Unit {0})
  unfolding create_unless
  ensure_network s =
      create_unless (String.◌++◌ "/networks/" (w.quote s.network))
        (tell "POST" "/networks/create" (new_network s.network "bridge" (stack_labels s.name)))

  unfoldable pub ensure_volumes : String → List String → Action Payload E (Unit {0})
  unfolding create_unless
  ensure_volumes name [] = give tt
  ensure_volumes name (vol ∷ vols) =
      create_unless (String.◌++◌ "/volumes/" (w.quote vol))
        (tell "POST" "/volumes/create" (new_volume vol (stack_labels name)))
      ▷ λ _. ensure_volumes name vols

  unfoldable pub wait : String → Ready → ℕ → Action Payload E Report
  unfolding run conditions_of
  wait name ready within = run w.daemon (w.wait_for name (conditions_of ready) within)

  -- except ValueError: rule = "running"
  unfoldable pub or_running :
      String → ℕ → Result E Report × Transport Payload → Result E Report × Transport Payload
  unfolding wait
  or_running name within (ok r, t) = (ok r, t)
  or_running name within (err e, t) =
      if w.is_value_error e then wait name (rule "running") within t else (err e, t)

  -- `_ready`, for the name of a container
  unfoldable pub ready_by : Ready → String → ℕ → Action Payload E Report
  unfolding run wait or_running
  ready_by (tests d) name within t = wait name (tests d) within t
  ready_by (rule r) name within t =
      if r == "probe"
      then or_running name within (run w.daemon (w.probe name within) t)
      else wait name (rule r) within t

  unfoldable pub ready : Service → ℕ → Action Payload E Report
  unfolding ready_by container_of
  ready svc = ready_by svc.ready (container_of svc)

  unfoldable pub inspect_path : Service → String
  unfolding container_of
  inspect_path svc = path3 "/containers/" (w.quote (container_of svc)) "/json"

  unfoldable pub start_path : Service → String
  unfolding container_of
  start_path svc = path3 "/containers/" (w.quote (container_of svc)) "/start"

  -- what is done about a service, by what is known of its container
  unfoldable pub act : Service → Option (Answer A) → Action Payload E Did
  unfolding container_of run get start_path
  act svc none = run w.daemon (w.create_from svc.spec) ▷ λ _.
      tell "POST" (start_path svc) no_payload ▷ λ _. give created
  act svc (some a) =
      let info = w.info_of a in
      if has_drifted (get (dict_or info.labels []) hash_key) (some svc.digest)
      then give drifted
      else if not info.is_running
      then (run w.daemon (w.start (container_of svc)) ▷ λ _. give started)
      else give unchanged

  unfoldable pub report_if : Bool → Service → ℕ → Action Payload E (Option Report)
  unfolding ready
  report_if true svc within = ready svc within ▷ λ r. give (some r)
  report_if false svc within = give none

  -- the body of the loop, up to what the entry holds
  unfoldable pub up_service : String → Service → ℕ → Bool → Action Payload E Entry
  unfolding exists waits entry_of inspect_path act report_if
  up_service name svc within no_wait = exists (inspect_path svc) ▷ λ found. act svc found ▷ λ did.
      (λ t. report_if (waits no_wait did t) svc within t) ▷ λ report.
      give (entry_of name svc did report)

  abbrev pub lookup : Option Service → Action Payload E Service
  lookup none t = (err w.key_error, t)
  lookup (some svc) t = (ok svc, t)

  -- the loop: the order that is left, and the results
  unfoldable pub up_from : Stack → ℕ → Bool → List String → List Entry → Action Payload E Outcome
  unfolding up_service get following
  up_from s within no_wait [] results = give (came_up results)
  up_from s within no_wait (name ∷ names) results =
      let rest = up_from s within no_wait names in
      lookup (get s.services name) ▷ λ svc. up_service name svc within no_wait ▷ λ e.
      if has_failed e
      then give (not_ready name (results ++ (e ∷ [])) (following name s.order))
      else rest (results ++ (e ∷ []))

  -- `up`
  unfoldable pub up : Stack → ℕ → Bool → Action Payload E Outcome
  unfolding up_from ensure_network ensure_volumes
  up s within no_wait = ensure_network s ▷ λ _.
      ensure_volumes s.name s.volumes ▷ λ _. up_from s within no_wait s.order []
