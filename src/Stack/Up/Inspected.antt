-- ===== src/Stack/Up/Inspected.antt =====
-- `up --dry-run`: an inspection is sent, and what it says decides what is done about a service.
use mathlib.Core.Path.{subst}
use aisb.Prelude.{
  String, ◌≡◌, refl, sym, ap, ◌∙◌, Bool, true, false, not, Option, none, some, List, [], get,
  if◌then◌else◌, All, has_text,
}
use aisb.Prelude.Results.{Result, ok, err, ok_injective}
use aisb.Transport.{
  json, Kind, Request, Transport, Answer, answered, run, dry_id, is_kept, as_answer,
}
use aisb.Transport.Preview.{IsRead, exchange_sent}
use aisb.Transport.Actions.{◌▷◌, give, after-eq-ok, give-eq-ok, IsDry}
use aisb.Stack.{
  Service, Stack, Row, Class, missing, stopped, drift, fine, class_of_row, find_service, labels,
  is_text, text_or, dict_or, has_drifted, hash_key,
}
use aisb.Stack.Up.{
  Payload, no_payload, World, Info, Did, created, drifted, started, unchanged, exists,
  found_or_none, act, inspect_path, tell, start_path, container_of,
}

some_injective : {A : Type 0} {a b : A} → some a ≡ some b → a ≡ b
some_injective h = cc

err_injective : {E A : Type 0} {d e : E} → ◌≡◌ {A = Result E A} (err d) (err e) → d ≡ e
err_injective h = cc

-- the class that an action answers
abbrev pub class_of_did : Did → Class
class_of_did created = missing
class_of_did drifted = drift
class_of_did started = stopped
class_of_did unchanged = fine

-- An inspection says what a row says: the same hash, and whether the container runs.
abbrev pub Says : Row → Info → Type 0
unfolding labels get
Says row info =
    (get (dict_or info.labels []) hash_key ≡ get (labels row) hash_key)
    × (info.is_running ≡ is_text (text_or row.api_state row.list_state) "running")

module _ {A E : Type 0} (w : World A E) where
  abbrev pub inspection : Service → Request Payload
  inspection svc = record { method = "GET"; path = inspect_path w svc; payload = no_payload }

  -- The answer to an inspection, by the row of the service, if it has one.
  abbrev pub Answers : Option Row → Result E A → Type 0
  Answers none r = (e : E) × (r ≡ err e) × (w.is_not_found e ≡ true)
  Answers (some row) r =
      (a : A) × (r ≡ ok a) × (w.is_none (answered a) ≡ false) × Says row (w.info_of (answered a))

  -- As long as it was only read from, the daemon answers by these rows.
  pub record Agrees (s : Stack) (rows : List Row) : Type 0 where
    pub clean :
        (n : String) (svc : Service)
        → get s.services n ≡ some svc
        → has_text dry_id (inspect_path w svc) ≡ false
    pub answers :
        (n : String) (svc : Service) (sent : List (Kind × Request Payload))
        → get s.services n ≡ some svc
        → All IsRead sent
        → Answers (find_service s rows n) (w.daemon sent json (inspection svc))

  same_found :
      (r : Result E (Answer A)) (t u : Transport Payload)
      → (found_or_none w (r, t)).0 ≡ (found_or_none w (r, u)).0
  same_found (ok a) t u = refl
  same_found (err e) t u = refl

  -- In a dry run, an inspection is sent.
  pub exists_sent :
      (svc : Service) (t : Transport Payload)
      → IsDry t
      → has_text dry_id (inspect_path w svc) ≡ false
      → (exists w (inspect_path w svc) t).0
        ≡ (found_or_none w (as_answer (w.daemon t.sent json (inspection svc)), t)).0
  unfolding exists is_kept
  exists_sent svc t h c =
      ap (λ p. (found_or_none w p).0)
        (exchange_sent w.daemon (inspection svc) t h.0.0 h.0.1 (rw c refl))
      ∙ same_found (as_answer (w.daemon t.sent json (inspection svc))) _ t

  -- What `_exists` finds for the container of a service, by its row.
  abbrev pub Finds : Option Row → Option (Answer A) → Type 0
  Finds none found = found ≡ none
  Finds (some row) found = (a : Answer A) × (found ≡ some a) × Says row (w.info_of a)

  pub found_by :
      (row : Option Row) (r : Result E A) (t : Transport Payload) {found : Option (Answer A)}
      → Answers row r
      → (found_or_none w (as_answer r, t)).0 ≡ ok found
      → Finds row found
  found_by none (ok a) t (e, same, gone) h = cc
  found_by none (err x) t (e, same, gone) h =
      let missed = subst (λ e. w.is_not_found e ≡ true) (sym (err_injective same)) gone in
      sym (ok_injective {E = E} (rw missed at h))
  found_by (some row) (ok x) t (a, same, there, says) h =
      let eq = sym (ok_injective {E = E} same) in
      let present = subst (λ a. w.is_none (answered a) ≡ false) eq there in
      (
        answered x,
        sym (ok_injective {E = E} (rw present at h)),
        subst (λ a. Says row (w.info_of (answered a))) eq says,
      )
  found_by (some row) (err x) t (a, same, there, says) h = cc

  known_by :
      (svc : Service) (has_changed is_running : Bool) (t : Transport Payload) {did : Did}
      {u : Transport Payload}
      → (if has_changed
            then give drifted
            else if not is_running
            then (run w.daemon (w.start (container_of svc)) ▷ λ _. give started)
            else give unchanged)
          t
        ≡ (ok did, u)
      → class_of_did did ≡ (if has_changed then drift else if not is_running then stopped else fine)
  known_by svc true r t h = ap class_of_did (sym (give-eq-ok {E = E} h).0)
  known_by svc false true t h = ap class_of_did (sym (give-eq-ok {E = E} h).0)
  known_by svc false false t h =
      let began = after-eq-ok (run w.daemon (w.start (container_of svc)) t) _ h in
      ap class_of_did (sym (give-eq-ok {E = E} began.3).0)

  -- The class of a row is what is done about its service.
  pub act_by :
      (s : Stack) (rows : List Row) (n : String) (svc : Service) (row : Option Row)
      (found : Option (Answer A)) (t : Transport Payload) {did : Did} {u : Transport Payload}
      → get s.services n ≡ some svc
      → Finds row found
      → act w svc found t ≡ (ok did, u)
      → class_of_did did ≡ class_of_row s n row
  unfolding act get labels start_path
  act_by s rows n svc none none t g f h =
      let made = after-eq-ok (run w.daemon (w.create_from svc.spec) t) _ h in
      let began = after-eq-ok (tell w "POST" (start_path w svc) no_payload made.1) _ made.3 in
      ap class_of_did (sym (give-eq-ok {E = E} began.3).0)
  act_by s rows n svc none (some a) t g f h = cc
  act_by s rows n svc (some row) none t g f h = cc
  act_by s rows n svc (some row) (some b) t g (a, same, says) h =
      let told = subst (λ a. Says row (w.info_of a)) (sym (some_injective same)) says in
      let info = w.info_of b in
      known_by svc (has_drifted (get (dict_or info.labels []) hash_key) (some svc.digest))
        info.is_running t h
      ∙ rw (g, told.0, told.1) refl
