-- ===== src/Stack/Up/Gates.antt =====
-- `up`: each service waits for the ones before it.
use mathlib.Core.Path.{subst}
use aisb.Prelude.{
  ℕ, String, ◌≡◌, refl, sym, ap, ◌∙◌, Bool, true, false, not, ◌||◌, Option, none, some, arith,
  is_some,
}
use aisb.Prelude.Results.{ok}
use aisb.Transport.{Transport, planning}
use aisb.Transport.Actions.{give, after-eq-ok, give-eq-ok, IsReal, IsReal-kept}
use aisb.Stack.{Service}
use aisb.Stack.Up.{
  Payload, World, Report, Did, Entry, is_drift, exists, act, waits, entry_of, report_if, ready,
  up_service, inspect_path,
}
use aisb.Stack.Up.Keeps.{exists-Keeps, act-Keeps, ready-Keeps}

-- the service has drifted, and is left alone, or it is ready
abbrev pub is_ready : Option Report → Bool
is_ready none = false
is_ready (some r) = r.is_ok

abbrev pub is_settled : Entry → Bool
is_settled e = is_drift e.action || is_ready e.ready

module _ {A E : Type 0} (w : World A E) where
  -- What an entry of a service says: its name, that it was waited for unless it has drifted, and
  -- that the transport is still outside a dry run.
  abbrev pub Reached : String → Entry → Transport Payload → Type 0
  Reached name e u =
      (e.service ≡ name) × ((is_drift e.action || is_some e.ready) ≡ true) × (u.plan ≡ none)

  report_if-Reached :
      (name : String) (svc : Service) (within : ℕ) (did : Did) (waiting : Bool)
      (t : Transport Payload) {report : Option Report} {u : Transport Payload}
      → t.plan ≡ none
      → waiting ≡ not (is_drift did)
      → report_if w waiting svc within t ≡ (ok report, u)
      → Reached name (entry_of name svc did report) u
  unfolding ready entry_of report_if
  report_if-Reached name svc within did true t h e r =
      let given = after-eq-ok (ready w svc within t) (λ r. give (some r)) r in
      let last = give-eq-ok given.3 in
      let plan =
        ap (λ p. p.1.plan) (sym given.2)
        ∙ ready-Keeps w IsReal (IsReal-kept w.daemon) svc within t h in
      (refl, rw (sym last.0) (ground arith), ap (λ t. t.plan) (sym last.1) ∙ plan)
  report_if-Reached name svc within did false t h e r =
      let last = give-eq-ok {E = E} r in
      (refl, ground (arith, e), ap (λ t. t.plan) (sym last.1) ∙ h)

  waits-plan :
      (did : Did) (t : Transport Payload) → t.plan ≡ none → waits false did t ≡ not (is_drift did)
  unfolding planning waits
  waits-plan did t h = rw h refl

  pub up_service-Reached :
      (name : String) (svc : Service) (within : ℕ) (t : Transport Payload) {e : Entry}
      {u : Transport Payload}
      → t.plan ≡ none
      → up_service w name svc within false t ≡ (ok e, u)
      → Reached name e u
  unfolding up_service act
  up_service-Reached name svc within t {e} {u} h r =
      let found = after-eq-ok (exists w (inspect_path w svc) t) _ r in
      let p1 =
        ap (λ p. p.1.plan) (sym found.2)
        ∙ exists-Keeps w IsReal (IsReal-kept w.daemon) (inspect_path w svc) t h in
      let did = after-eq-ok (act w svc found.0 found.1) _ found.3 in
      let p2 =
        ap (λ p. p.1.plan) (sym did.2)
        ∙ act-Keeps w IsReal (IsReal-kept w.daemon) svc found.0 found.1 p1 in
      let report =
        after-eq-ok (report_if w (waits false did.0 did.1) svc within did.1)
          (λ report. give (entry_of name svc did.0 report)) did.3 in
      let reached =
        report_if-Reached name svc within did.0 (waits false did.0 did.1) did.1 p2
          (waits-plan did.0 did.1 p2) report.2 in
      let last = give-eq-ok report.3 in
      subst (λ e. Reached name e u) last.0
        (subst (Reached name (entry_of name svc did.0 report.0)) last.1 reached)
