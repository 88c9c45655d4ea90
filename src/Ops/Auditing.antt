-- ===== src/Ops/Auditing.antt =====
-- `invoke`: what a run leaves in the audit trail, and that a denied operation does nothing.
use aisb.Prelude.{
  String, ◌≡◌, ◌≢◌, refl, sym, ap, ◌∙◌, inl, inr, Bool, true, false, not, Option, some, List, [],
  ◌∷◌, ◌++◌, Bool-cases, Option-cases, All, Dict, keys, if◌then◌else◌,
}
use aisb.Prelude.Results.{Result, ok, err, ok_injective}
use aisb.Transport.{Request, Kind}
use aisb.Transport.Preview.{IsRead}
use aisb.Policy.{Ctx}
use aisb.Policy.Check.{Violation, Refusal, Rule, applies, or_text}
use aisb.Policy.Matching.{matches}
use aisb.Policy.Check.Laws.{deny_blocks}
use aisb.Ops.{
  is_enabled, Env, Op, State, Outcome, Entry, Failure, Payload, tier_value, is_read, is_preview,
  audited, preview, conclude, enforced, execute, invoke, with_run_id, is_unmet, is_denied,
  completed, dry, to_confirm,
}
use aisb.Ops.Binding.{Value}
use aisb.Ops.Masking.{redact, IsMasked}
use aisb.Ops.Laws.{
  IsHarmless, IsPreviewed, invoke-previews, preview-IsHarmless, preview-IsPreviewed,
}

module _ {B A : Type 0} (env : Env B A) (op : Op B A) (kwargs : Dict Value) (ctx : Ctx) where
  -- What a record says of how the call ended.
  unfoldable pub Tells : Entry → Result Failure (Outcome B) → Type 0
  Tells e (ok o) =
      (o.status ≡ completed)
      × (e.denied ≡ false)
      × (r : Payload) × (o.result ≡ some r)
      × (e.ok ≡ not (is_unmet r))
  Tells e (err f) = (e.ok ≡ false) × (e.denied ≡ is_denied env f)

  -- One record was added: it names the operation, its redacted arguments, in which no value stands
  -- readable under a secret key, and who asked, and tells the end.
  unfoldable pub IsAudited : Ctx → State B → Result Failure (Outcome B) × State B → Type 0
  IsAudited who s x =
      (e : Entry) × (x.1.trail ≡ s.trail ++ (e ∷ []))
      × (e.op ≡ op.qualname)
      × (e.tier ≡ op.tier)
      × (e.args ≡ redact env.is_secret kwargs)
      × (keys e.args ≡ keys kwargs)
      × All (IsMasked env.is_secret) e.args
      × (e.ctx ≡ who)
      × Tells e x.0

  invoke-executes :
      (d c : Bool) (s : State B)
      → is_preview op.tier d c ≡ false
      → invoke env op kwargs ctx d c s ≡ execute env op kwargs (with_run_id env.uuid op.tier ctx) s
  unfolding invoke
  invoke-executes d c s h = rw h

  -- The rules do not read the id of the change.
  with_run_id-asker :
      (i : String) (who : Ctx)
      → ((with_run_id i op.tier who).source ≡ who.source)
        × ((with_run_id i op.tier who).user ≡ who.user)
        × ((with_run_id i op.tier who).host ≡ who.host)
  unfolding with_run_id
  with_run_id-asker i who = elim (Option-cases who.run_id) [
    | inr (j, h) ↦ rw h (refl, refl, refl)
    | inl h ↦ elim (Bool-cases (is_read op.tier)) [
      | inl r ↦ rw (h, r) (refl, refl, refl)
      | inr r ↦ rw (h, r) (refl, refl, refl)
    ]
  ]

  applies-with_run_id :
      (r : Rule) (i : String)
      → applies env.world r op.qualname (tier_value op.tier) (with_run_id i op.tier ctx)
        ≡ applies env.world r op.qualname (tier_value op.tier) ctx
  unfolding applies matches
  applies-with_run_id r i =
      let (source, user, host) = with_run_id-asker i ctx in rw (source, user, host) refl

  audited-transport :
      (who : Ctx) (is_ok : Bool) (error : Option String) (d : Bool) (s : State B)
      → (audited env op kwargs who is_ok error d s).transport ≡ s.transport
  unfolding audited
  audited-transport who is_ok error d s = elim (Bool-cases (is_enabled env op.tier)) [
    | inl h ↦ rw h refl
    | inr h ↦ rw h refl
  ]

  -- what a denied operation comes to: at most reads were sent, and it was not done
  unfoldable pub IsStopped : State B → Result Failure (Outcome B) × State B → Type 0
  IsStopped s x =
      ((news : List (Kind × Request B)) × (x.1.transport.sent ≡ news ++ s.transport.sent)
        × All IsRead news)
      × ((o : Outcome B) → x.0 ≡ ok o → o.status ≢ completed)

  enforced-IsStopped :
      (who : Ctx) (verdict : Result Refusal (List Violation)) (s : State B)
      → ((vs : List Violation) → verdict ≢ ok vs)
      → IsStopped s (enforced env op kwargs who verdict s)
  unfolding enforced IsStopped conclude audited
  enforced-IsStopped who (ok vs) s h = elim (h vs refl) [ ]
  enforced-IsStopped who (err x) s h =
      (([], ap (λ t. t.sent) (audited-transport who false _ _ s), tt), λ o e. cc)

  previews_complete_nothing : (d : Bool) → (if d then dry else to_confirm) ≢ completed
  previews_complete_nothing true h = cc
  previews_complete_nothing false h = cc

  previewed-IsStopped :
      (d : Bool) (x : Result Failure (Outcome B) × State B) (s : State B)
      → IsHarmless env op kwargs ctx s x.1
      → IsPreviewed env op kwargs ctx d x.0
      → IsStopped s x
  unfolding IsStopped IsHarmless IsPreviewed
  previewed-IsStopped d (ok o, t) s (news, sent, reads, _, _) (status, _) = (
    (news, sent, reads),
    λ p e f. previews_complete_nothing d (sym status ∙ ap (λ o. o.status) (ok_injective e) ∙ f),
  )
  previewed-IsStopped d (err f, t) s (news, sent, reads, _, _) h =
      ((news, sent, reads), λ p e f. cc)

  -- If a rule that applies and denies, in any mode but "warn", is among the rules, no way of
  -- invoking the operation gets it done: at most reads are sent, and the call raises or returns a
  -- preview.
  pub invoke-denied :
      (before after : List Rule) (r : Rule) (d c : Bool) (s : State B)
      → env.rules ≡ before ++ r ∷ after
      → applies env.world r op.qualname (tier_value op.tier) ctx ≡ true
      → r.deny ≡ true
      → or_text r.mode "deny" ≢ "warn"
      → IsStopped s (invoke env op kwargs ctx d c s)
  unfolding execute
  invoke-denied before after r d c s rules a deny mode =
      elim (Bool-cases (is_preview op.tier d c)) [
        | inl p ↦ rw (invoke-previews env op kwargs ctx d c s p) (
            previewed-IsStopped d (preview env op kwargs ctx d s) s
              (preview-IsHarmless env op kwargs ctx d s)
              (preview-IsPreviewed env op kwargs ctx d s))
        | inr p ↦ rw (invoke-executes d c s p) (
            enforced-IsStopped (with_run_id env.uuid op.tier ctx) _ s (λ vs. rw rules (
              deny_blocks env.world op.qualname (tier_value op.tier) (env.view kwargs)
                (with_run_id env.uuid op.tier ctx) env.now before after r vs
                (applies-with_run_id r env.uuid ∙ a) deny mode)))
      ]
