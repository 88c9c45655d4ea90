-- ===== src/Stack/Up/Refines.antt =====
-- `up --dry-run` against `plan`: what it reports of the services is what `plan` says of them.
use mathlib.Core.Path.{subst}
use aisb.Prelude.{
  ℕ, String, ◌≡◌, refl, sym, ap, ◌∙◌, Bool, true, false, Option, none, some, List, [], ◌∷◌, ◌++◌,
  get, keep, if◌then◌else◌, append_assoc, append-nil,
}
use aisb.Prelude.Results.{ok}
use aisb.Transport.{json, Transport, planning}
use aisb.Transport.Actions.{give, after-eq-ok, give-eq-ok, IsDry, IsDry-kept}
use aisb.Stack.{
  Service, Stack, Row, Class, missing, stopped, drift, fine, class_of, find_service, plan,
  plan_from, added, Classified,
}
use aisb.Stack.Plan.{same_class, listed, listed-added}
use aisb.Stack.Up.{
  Payload, World, Report, Did, Entry, Outcome, came_up, exists, act, waits, entry_of, report_if,
  up_service, has_failed, lookup, up_from, up, ensure_network, ensure_volumes, inspect_path,
}
use aisb.Stack.Up.Keeps.{exists-Keeps, act-Keeps, ensure_network-Keeps, ensure_volumes-Keeps}
use aisb.Stack.Up.Order.{lookup-eq-ok}
use aisb.Stack.Up.Inspected.{class_of_did, inspection, Agrees, exists_sent, found_by, act_by}

-- the services of the entries of a class
abbrev pub reported : Class → List Entry → List String
reported k [] = []
reported k (e ∷ es) =
    if same_class k (class_of_did e.action) then e.service ∷ reported k es else reported k es

-- `plan` lists under a class the services of the order that are in it.
listed-plan_from :
    (s : Stack) (rows : List Row) (k : Class) (order : List String) (c : Classified)
    → listed k (plan_from s rows order c)
      ≡ listed k c ++ keep (λ n. same_class k (class_of s rows n)) order
unfolding plan_from
listed-plan_from s rows k [] c = sym (append-nil (listed k c))
listed-plan_from s rows k (n ∷ order) c =
    listed-plan_from s rows k order (added (class_of s rows n) n c)
    ∙ ap (λ l. l ++ keep (λ n. same_class k (class_of s rows n)) order)
        (listed-added k (class_of s rows n) n c)
    ∙ one (same_class k (class_of s rows n)) (listed k c) n
        (keep (λ n. same_class k (class_of s rows n)) order)
  where
    one :
        (b : Bool) (old : List String) (n : String) (rest : List String)
        → (if b then old ++ (n ∷ []) else old) ++ rest ≡ old ++ (if b then n ∷ rest else rest)
    one true old n rest = append_assoc old (n ∷ []) rest
    one false old n rest = refl

listed-plan :
    (s : Stack) (rows : List Row) (k : Class)
    → listed k (plan s rows) ≡ keep (λ n. same_class k (class_of s rows n)) s.order
unfolding plan
listed-plan s rows missing = listed-plan_from s rows missing s.order _
listed-plan s rows stopped = listed-plan_from s rows stopped s.order _
listed-plan s rows drift = listed-plan_from s rows drift s.order _
listed-plan s rows fine = listed-plan_from s rows fine s.order _

module _ {A E : Type 0} (w : World A E) where
  waits_dry :
      (no_wait : Bool) (did : Did) (t : Transport Payload) → IsDry t → waits no_wait did t ≡ false
  unfolding planning waits
  waits_dry true did t h = refl
  waits_dry false did t h = rw h.0.1 refl

  reported_dry :
      (waiting : Bool) (svc : Service) (within : ℕ) (t : Transport Payload) {report : Option Report}
      {u : Transport Payload}
      → waiting ≡ false
      → report_if w waiting svc within t ≡ (ok report, u)
      → (report ≡ none) × (u ≡ t)
  unfolding report_if
  reported_dry true svc within t e h = cc
  reported_dry false svc within t e h = (sym (give-eq-ok {E = E} h).0, sym (give-eq-ok {E = E} h).1)

  -- An entry of a dry run: it answers the class of its service, and nothing was waited for.
  abbrev Foretold : Stack → List Row → String → Entry → Transport Payload → Type 0
  Foretold s rows n e u =
      (e.service ≡ n) × (class_of_did e.action ≡ class_of s rows n) × (e.ready ≡ none) × IsDry u

  up_service-Foretold :
      (s : Stack) (rows : List Row) (n : String) (svc : Service) (within : ℕ) (no_wait : Bool)
      (t : Transport Payload) {e : Entry} {u : Transport Payload}
      → Agrees w s rows
      → IsDry t
      → get s.services n ≡ some svc
      → up_service w n svc within no_wait t ≡ (ok e, u)
      → Foretold s rows n e u
  unfolding up_service class_of entry_of report_if act waits inspect_path
  up_service-Foretold s rows n svc within no_wait t {e} {u} agrees dry g r =
      let found = after-eq-ok (exists w (inspect_path w svc) t) _ r in
      let d1 =
        subst IsDry (ap (λ p. p.1) found.2)
          (exists-Keeps w IsDry (IsDry-kept w.daemon) (inspect_path w svc) t dry) in
      let finds =
        found_by w (find_service s rows n) (w.daemon t.sent json (inspection w svc)) t
          (agrees.answers n svc t.sent g dry.1)
          (sym (exists_sent w svc t dry (agrees.clean n svc g)) ∙ ap (λ p. p.0) found.2) in
      let did = after-eq-ok (act w svc found.0 found.1) _ found.3 in
      let d2 =
        subst IsDry (ap (λ p. p.1) did.2)
          (act-Keeps w IsDry (IsDry-kept w.daemon) svc found.0 found.1 d1) in
      let report =
        after-eq-ok (report_if w (waits no_wait did.0 did.1) svc within did.1)
          (λ report. give (entry_of n svc did.0 report)) did.3 in
      let quiet =
        reported_dry (waits no_wait did.0 did.1) svc within did.1 (waits_dry no_wait did.0 did.1 d2)
          report.2 in
      let last = give-eq-ok {E = E} report.3 in
      let class = act_by w s rows n svc (find_service s rows n) found.0 found.1 g finds did.2 in
      subst (λ e. Foretold s rows n e u) last.0
        (refl, class, quiet.0, subst IsDry (sym quiet.1 ∙ last.1) d2)

  going_on : (e : Entry) → e.ready ≡ none → has_failed e ≡ false
  going_on e h = rw h refl

  abbrev ForetoldAll : Stack → List Row → List String → List Entry → Outcome → Type 0
  ForetoldAll s rows names results outcome =
      (more : List Entry) × (outcome ≡ came_up (results ++ more))
      × ((k : Class) → reported k more ≡ keep (λ n. same_class k (class_of s rows n)) names)

  module _ (s : Stack) (rows : List Row) (within : ℕ) (no_wait : Bool)
      (agrees : Agrees w s rows) where
    up_from-ForetoldAll :
        (names : List String) (results : List Entry) (t : Transport Payload) {outcome : Outcome}
        {u : Transport Payload}
        → IsDry t
        → up_from w s within no_wait names results t ≡ (ok outcome, u)
        → ForetoldAll s rows names results outcome
    unfolding up_from
    up_from-ForetoldAll [] results t dry r =
        ([], sym (give-eq-ok {E = E} r).0 ∙ ap came_up (sym (append-nil results)), λ k. refl)
    up_from-ForetoldAll (name ∷ names) results t {outcome} {u} dry r =
        let svc = after-eq-ok (lookup w (get s.services name) t) _ r in
        let same = lookup-eq-ok w (get s.services name) t svc.2 in
        let e = after-eq-ok (up_service w name svc.0 within no_wait svc.1) _ svc.3 in
        let told =
          up_service-Foretold s rows name svc.0 within no_wait svc.1 agrees
            (subst IsDry (sym same.0) dry) same.1 e.2 in
        let rest =
          up_from-ForetoldAll names (results ++ (e.0 ∷ [])) e.1 told.3
            (rw (going_on e.0 told.2) at e.3) in
        (
          e.0 ∷ rest.0,
          rest.1 ∙ ap came_up (append_assoc results (e.0 ∷ []) rest.0),
          λ k. rw (told.1, told.0, rest.2 k) refl,
        )

    -- A dry run of `up`, for any timeout and with or without `--no-wait`: if the daemon, as long as it
    -- was only read from, answers each inspection of a service's container as the rows say, and
    -- `up` returns, then it reports that the stack came up, and the services it reports as created,
    -- started, drifted and unchanged are, in order, those that `plan` lists for these rows as
    -- missing, stopped, drifted and as the file says.
    pub up_refines_plan :
        (t : Transport Payload) {outcome : Outcome} {u : Transport Payload}
        → IsDry t
        → up w s within no_wait t ≡ (ok outcome, u)
        → (entries : List Entry) × (outcome ≡ came_up entries)
          × ((k : Class) → reported k entries ≡ listed k (plan s rows))
    unfolding up ensure_network ensure_volumes
    up_refines_plan t dry r =
        let network = after-eq-ok (ensure_network w s t) _ r in
        let volumes = after-eq-ok (ensure_volumes w s.name s.volumes network.1) _ network.3 in
        let kept = IsDry-kept w.daemon in
        let d1 =
          subst IsDry (ap (λ p. p.1) network.2) (ensure_network-Keeps w IsDry kept s t dry) in
        let d2 =
          subst IsDry (ap (λ p. p.1) volumes.2)
            (ensure_volumes-Keeps w IsDry kept s.name s.volumes network.1 d1) in
        let told = up_from-ForetoldAll s.order [] volumes.1 d2 volumes.3 in
        (told.0, told.1, λ k. told.2 k ∙ sym (listed-plan s rows k))
