-- ===== src/Stack/Up/Keeps.antt =====
-- What every request keeps of the transport, `up` keeps.
use Prim.Native.String
use aisb.Prelude.{
  ℕ, String, Bool, true, false, not, Option, none, some, List, [], ◌∷◌, ◌==◌, get, if◌then◌else◌,
}
use aisb.Prelude.Results.{Result, ok, err}
use aisb.Transport.{json, Transport, Answer, run}
use aisb.Transport.Actions.{Action, ◌▷◌, give, IsKept, run-Keeps, Keeps, ▷-Keeps}
use aisb.Stack.{Service, Stack, Ready, rule, tests, has_drifted, dict_or, hash_key}
use aisb.Stack.Up.{
  Payload, no_payload, World, Report, created, drifted, started, unchanged, ask, exists,
  found_or_none, act, ready, ready_by, or_running, wait, conditions_of, ensure_network,
  ensure_volumes, create_unless, is_there, stack_labels, new_volume, container_of, tell, start_path,
}

module _ {A E : Type 0} (w : World A E) (I : Transport Payload → Type 0)
    (kept : IsKept w.daemon I) where
  pub exists-Keeps : (path : String) → Keeps I (exists w path)
  unfolding exists
  exists-Keeps path t h = same (ask w "GET" path no_payload t) (kept.by_request json _ t h)
    where
      same : (p : Result E (Answer A) × Transport Payload) → I p.1 → I (found_or_none w p).1
      same (ok a, t) h = h
      same (err e, t) h = h

  tell-Keeps : (method path : String) (payload : Payload) → Keeps I (tell w method path payload)
  tell-Keeps method path payload =
      ▷-Keeps I (ask w method path payload) (λ _. give tt) (kept.by_request json _) (λ _ t h. h)

  if_keeps :
      {R : Type 0} (b : Bool) (f g : Action Payload E R)
      → Keeps I f
      → Keeps I g
      → (t : Transport Payload) → I t
      → I ((if b then f else g) t).1
  if_keeps true f g hf hg = hf
  if_keeps false f g hf hg = hg

  pub act-Keeps : (svc : Service) (found : Option (Answer A)) → Keeps I (act w svc found)
  unfolding act start_path
  act-Keeps svc none =
      ▷-Keeps I (run w.daemon (w.create_from svc.spec))
        (λ _. tell w "POST" (start_path w svc) no_payload ▷ λ _. give created)
        (run-Keeps w.daemon I kept (w.create_from svc.spec))
        (λ _.
          ▷-Keeps I (tell w "POST" (start_path w svc) no_payload) (λ _. give created)
            (tell-Keeps "POST" (start_path w svc) no_payload) (λ _ t h. h))
  act-Keeps svc (some a) =
      let info = w.info_of a in
      if_keeps (has_drifted (get (dict_or info.labels []) hash_key) (some svc.digest))
        (give drifted) _ (λ t h. h)
        (if_keeps (not info.is_running)
          (run w.daemon (w.start (container_of svc)) ▷ λ _. give started) (give unchanged)
          (▷-Keeps I (run w.daemon (w.start (container_of svc))) (λ _. give started)
            (run-Keeps w.daemon I kept (w.start (container_of svc))) (λ _ t h. h))
          (λ t h. h))

  if_either :
      {R : Type 0} (b : Bool) (p q : Result E R × Transport Payload)
      → I p.1
      → I q.1
      → I (if b then p else q).1
  if_either true p q hp hq = hp
  if_either false p q hp hq = hq

  wait-Keeps : (name : String) (r : Ready) (within : ℕ) → Keeps I (wait w name r within)
  unfolding wait conditions_of
  wait-Keeps name r within = run-Keeps w.daemon I kept (w.wait_for name (conditions_of r) within)

  or_running_keeps :
      (name : String) (within : ℕ) (p : Result E Report × Transport Payload)
      → I p.1
      → I (or_running w name within p).1
  unfolding wait or_running
  or_running_keeps name within (ok r, t) h = h
  or_running_keeps name within (err e, t) h =
      if_either (w.is_value_error e) (wait w name (rule "running") within t) (err e, t)
        (wait-Keeps name (rule "running") within t h) h

  ready_by-Keeps : (r : Ready) (name : String) (within : ℕ) → Keeps I (ready_by w r name within)
  unfolding ready_by wait or_running
  ready_by-Keeps (tests d) name within t h = wait-Keeps name (tests d) within t h
  ready_by-Keeps (rule r) name within t h =
      if_either (r == "probe") (or_running w name within (run w.daemon (w.probe name within) t))
        (wait w name (rule r) within t)
        (or_running_keeps name within _ (run-Keeps w.daemon I kept (w.probe name within) t h))
        (wait-Keeps name (rule r) within t h)

  pub ready-Keeps : (svc : Service) (within : ℕ) → Keeps I (ready w svc within)
  unfolding ready
  ready-Keeps svc within = ready_by-Keeps svc.ready (container_of svc) within

  create_unless-Keeps :
      (path : String) (post : Action Payload E (Unit {0}))
      → Keeps I post
      → Keeps I (create_unless w path post)
  unfolding create_unless
  create_unless-Keeps path post h =
      ▷-Keeps I (exists w path) (λ found. if is_there w found then give tt else post)
        (exists-Keeps path) (λ found. if_keeps (is_there w found) (give tt) post (λ t g. g) h)

  pub ensure_volumes-Keeps :
      (name : String) (vols : List String) → Keeps I (ensure_volumes w name vols)
  unfolding create_unless ensure_volumes
  ensure_volumes-Keeps name [] t h = h
  ensure_volumes-Keeps name (vol ∷ vols) t h =
      ▷-Keeps I
        (create_unless w (String.◌++◌ "/volumes/" (w.quote vol))
          (tell w "POST" "/volumes/create" (new_volume vol (stack_labels name))))
        (λ _. ensure_volumes w name vols)
        (create_unless-Keeps _ _ (tell-Keeps "POST" "/volumes/create" _))
        (λ _. ensure_volumes-Keeps name vols) t h

  pub ensure_network-Keeps : (s : Stack) → Keeps I (ensure_network w s)
  unfolding ensure_network
  ensure_network-Keeps s = create_unless-Keeps _ _ (tell-Keeps "POST" "/networks/create" _)
