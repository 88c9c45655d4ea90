-- ===== src/Ops/Laws.antt =====
-- `invoke`: what a preview may do, and what every change leaves in the audit trail.
use aisb.Prelude.{
  ◌≡◌, refl, ap, ◌∙◌, ◌⊎◌, inl, inr, Bool, true, false, none, List, [], ◌++◌, All, Dict,
  if◌then◌else◌,
}
use aisb.Prelude.Results.{Result, ok, err}
use aisb.Transport.{Transport, Request, Kind, Planned, dry_run}
use aisb.Transport.Preview.{IsRead, dry_run-only_reads}
use aisb.Policy.{Ctx}
use aisb.Policy.Check.{Violation}
use aisb.Ops.{
  Env, Op, State, Outcome, Failure, Payload, destroy, is_read, is_preview, outcome_of, previewed,
  preview, invoke, call, dry, to_confirm,
}
use aisb.Ops.Binding.{Value}
use aisb.Policy.Window

module _ {B A : Type 0} (env : Env B A) (op : Op B A) (kwargs : Dict Value) (ctx : Ctx) where
  -- only reads were sent, nothing was audited, and the transport plans what it planned before
  unfoldable pub IsHarmless : State B → State B → Type 0
  IsHarmless s after =
      (news : List (Kind × Request B)) × (after.transport.sent ≡ news ++ s.transport.sent)
      × All IsRead news
      × (after.transport.plan ≡ s.transport.plan)
      × (after.trail ≡ s.trail)

  IsHarmless-none : (s : State B) → IsHarmless s s
  unfolding IsHarmless
  IsHarmless-none s = ([], refl, tt, refl, refl)

  outcome_of-transport :
      (d : Bool) (vs : List Violation) (x : Result Failure Payload × List (Planned B) × Transport B)
      → (outcome_of env d vs x).1 ≡ x.2
  outcome_of-transport d vs (ok r, planned, t) = refl
  outcome_of-transport d vs (err e, planned, t) = refl

  previewed-IsHarmless :
      (d : Bool) (found : Result Window.Error (List Violation)) (s : State B)
      → IsHarmless s (previewed env op kwargs d found s).1
  unfolding previewed IsHarmless
  previewed-IsHarmless d (err e) s = ([], refl, tt, refl, refl)
  previewed-IsHarmless d (ok vs) s =
      let (news, sent, reads, _, plan) =
        dry_run-only_reads env.daemon (call op kwargs) s.transport in
      let same = outcome_of-transport d vs (dry_run env.daemon (call op kwargs) s.transport) in
      (news, ap (λ t. t.sent) same ∙ sent, reads, ap (λ t. t.plan) same ∙ plan, refl)

  -- a preview's outcome: nothing ran
  unfoldable pub IsPreviewed : Bool → Result Failure (Outcome B) → Type 0
  IsPreviewed d (ok o) = (o.status ≡ (if d then dry else to_confirm)) × (o.result ≡ none)
  IsPreviewed d (err f) = Unit {0}

  outcome_of-IsPreviewed :
      (d : Bool) (vs : List Violation) (x : Result Failure Payload × List (Planned B) × Transport B)
      → IsPreviewed d (outcome_of env d vs x).0
  unfolding IsPreviewed
  outcome_of-IsPreviewed d vs (ok r, planned, t) = (refl, refl)
  outcome_of-IsPreviewed d vs (err e, planned, t) = tt

  previewed-IsPreviewed :
      (d : Bool) (found : Result Window.Error (List Violation)) (s : State B)
      → IsPreviewed d (previewed env op kwargs d found s).0
  unfolding previewed IsPreviewed
  previewed-IsPreviewed d (err e) s = tt
  previewed-IsPreviewed d (ok vs) s =
      outcome_of-IsPreviewed d vs (dry_run env.daemon (call op kwargs) s.transport)

  preview_wanted :
      (d c : Bool)
      → is_read op.tier ≡ false
      → (d ≡ true) ⊎ ((op.tier ≡ destroy) × (c ≡ false))
      → is_preview op.tier d c ≡ true
  unfolding is_preview
  preview_wanted d c r (inl e) = rw (r, e) refl
  preview_wanted true c r (inr (e, f)) = rw e refl
  preview_wanted false c r (inr (e, f)) = rw (e, f) refl

  pub invoke-previews :
      (d c : Bool) (s : State B)
      → is_preview op.tier d c ≡ true
      → invoke env op kwargs ctx d c s ≡ preview env op kwargs ctx d s
  unfolding invoke
  invoke-previews d c s h = rw h

  pub preview-IsHarmless : (d : Bool) (s : State B) → IsHarmless s (preview env op kwargs ctx d s).1
  unfolding preview
  preview-IsHarmless d s = previewed-IsHarmless d _ s

  pub preview-IsPreviewed :
      (d : Bool) (s : State B) → IsPreviewed d (preview env op kwargs ctx d s).0
  unfolding preview
  preview-IsPreviewed d s = previewed-IsPreviewed d _ s

  -- An operation that changes something and is invoked with `dry_run`, or one that destroys and is
  -- invoked without `confirm`, is only previewed: the daemon gets nothing but reads, the transport
  -- plans what it planned before, nothing is audited, and what is returned, if the call does not
  -- raise, has no result and the status "dry-run" or "confirm".
  pub invoke-IsPreviewed :
      (d c : Bool) (s : State B)
      → is_read op.tier ≡ false
      → (d ≡ true) ⊎ ((op.tier ≡ destroy) × (c ≡ false))
      → IsHarmless s (invoke env op kwargs ctx d c s).1
        × IsPreviewed d (invoke env op kwargs ctx d c s).0
  invoke-IsPreviewed d c s r h =
      rw (invoke-previews d c s (preview_wanted d c r h))
        (preview-IsHarmless d s, preview-IsPreviewed d s)
