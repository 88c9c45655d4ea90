-- ===== src/Stack/Up/Order.antt =====
-- `up`: the services in the order of the stack, each after those before it are ready.
use mathlib.Core.Path.{subst}
use aisb.Prelude.{
  ℕ, String, ◌≡◌, refl, sym, ap, ◌∙◌, Bool, true, false, not, ◌&&◌, ◌||◌, Option, none, some, List,
  [], ◌∷◌, ◌++◌, get, map, arith, is_some, Bool-cases, inl, inr, append_assoc, append-nil,
}
use aisb.Prelude.Results.{ok}
use aisb.Transport.{Transport}
use aisb.Transport.Actions.{after-eq-ok, give-eq-ok, IsReal, IsReal-kept}
use aisb.Stack.{Service, Stack}
use aisb.Stack.Up.{
  Payload, World, Report, Entry, Outcome, came_up, not_ready, following, is_drift, up_service,
  has_failed, lookup, up_from, up, ensure_network, ensure_volumes,
}
use aisb.Stack.Up.Gates.{is_ready, is_settled, up_service-Reached}
use aisb.Stack.Up.Keeps.{ensure_network-Keeps, ensure_volumes-Keeps}

abbrev pub services_of : List Entry → List String
services_of = map (λ e. e.service)

-- every service of a list has drifted or is ready
abbrev pub all_settled : List Entry → Bool
all_settled [] = true
all_settled (e ∷ es) = is_settled e && all_settled es

-- A run over `names` that adds to `results`, of a stack with `order`: it came up, and every service
-- is settled; or one failed, those before it are settled, and those behind it were left.
abbrev pub Gated : List String → List String → List Entry → Outcome → Type 0
Gated order names results (came_up entries) =
    (more : List Entry) × (entries ≡ results ++ more)
    × (services_of more ≡ names)
    × (all_settled more ≡ true)
Gated order names results (not_ready n entries left) =
    (settled : List Entry) × (failed : Entry) × (behind : List String) × (entries
      ≡ results ++ (settled ++ (failed ∷ [])))
    × (failed.service ≡ n)
    × (names ≡ services_of settled ++ (n ∷ behind))
    × (all_settled settled ≡ true)
    × (has_failed failed ≡ true)
    × (left ≡ following n order)

Gated-cons :
    (order names : List String) (results : List Entry) (e : Entry) (outcome : Outcome)
    → is_settled e ≡ true
    → Gated order names (results ++ (e ∷ [])) outcome
    → Gated order (e.service ∷ names) results outcome
Gated-cons order names results e (came_up entries) h (more, same, covered, all) = (
  e ∷ more,
  same ∙ append_assoc results (e ∷ []) more,
  ap (λ ns. e.service ∷ ns) covered,
  rw (h, all) refl,
)
Gated-cons order names results e (not_ready n entries left) h
      (settled, failed, behind, same, named, split, all, fails, rest) =
    (
      e ∷ settled,
      failed,
      behind,
      same ∙ append_assoc results (e ∷ []) (settled ++ (failed ∷ [])),
      named,
      ap (λ ns. e.service ∷ ns) split,
      rw (h, all) refl,
      fails,
      rest,
    )

-- an entry that has not failed, and was waited for unless it has drifted, is settled
not_failed :
    (e : Entry)
    → (is_drift e.action || is_some e.ready) ≡ true
    → has_failed e ≡ false
    → is_settled e ≡ true
not_failed e waited h = kind e.ready waited h
  where
    kind :
        (o : Option Report)
        → (is_drift e.action || is_some o) ≡ true
        → (elim o [ none ↦ false | some r ↦ not r.is_ok ]) ≡ false
        → (is_drift e.action || is_ready o) ≡ true
    kind none waited h = waited
    kind (some r) waited h = ground (arith, h)

pub lookup-eq-ok :
    {A E : Type 0} (w : World A E) (o : Option Service) (t : Transport Payload) {svc : Service}
    {mid : Transport Payload}
    → lookup w o t ≡ (ok svc, mid)
    → (mid ≡ t) × (o ≡ some svc)
lookup-eq-ok w none t h = cc
lookup-eq-ok w (some svc) t h = (sym (give-eq-ok h).1, ap some (give-eq-ok h).0)

module _ {A E : Type 0} (w : World A E) (s : Stack) (within : ℕ) where
  up_from-Gated :
      (names : List String) (results : List Entry) (t : Transport Payload) {outcome : Outcome}
      {u : Transport Payload}
      → t.plan ≡ none
      → up_from w s within false names results t ≡ (ok outcome, u)
      → Gated s.order names results outcome
  unfolding up_from
  up_from-Gated [] results t h r =
      subst (Gated s.order [] results) (give-eq-ok {E = E} r).0
        ([], sym (append-nil results), refl, refl)
  up_from-Gated (name ∷ names) results t {outcome} {u} h r =
      let svc = after-eq-ok (lookup w (get s.services name) t) _ r in
      let same = lookup-eq-ok w (get s.services name) t svc.2 in
      let e = after-eq-ok (up_service w name svc.0 within false svc.1) _ svc.3 in
      let reached =
        up_service-Reached w name svc.0 within svc.1 (ap (λ t. t.plan) same.0 ∙ h) e.2 in
      elim (Bool-cases (has_failed e.0)) [
        | inl fails ↦
            subst (Gated s.order (name ∷ names) results) (give-eq-ok (rw fails at e.3)).0
              ([], e.0, names, refl, reached.0, refl, refl, fails, refl)
        | inr fine ↦
            subst (λ n. Gated s.order (n ∷ names) results outcome) reached.0
              (Gated-cons s.order names results e.0 outcome (not_failed e.0 reached.1 fine)
                (up_from-Gated names (results ++ (e.0 ∷ [])) e.1 reached.2 (rw fine at e.3)))
      ]

-- Outside a dry run, with readiness waited for: if `up` returns that the stack came up, the entries
-- are the services in the order of the stack, and each has drifted or was found ready. If it returns
-- that a service did not become ready, the entries end with that one, they and the names behind it
-- are the services in order, each entry before it has drifted or was found ready, and the services
-- returned as not started are those that follow its name in the order.
pub up-Gated :
    {A E : Type 0} (w : World A E) (s : Stack) (within : ℕ) (t : Transport Payload)
    {outcome : Outcome} {u : Transport Payload}
    → t.plan ≡ none
    → up w s within false t ≡ (ok outcome, u)
    → Gated s.order s.order [] outcome
unfolding up
up-Gated w s within t h r =
    let network = after-eq-ok (ensure_network w s t) _ r in
    let volumes = after-eq-ok (ensure_volumes w s.name s.volumes network.1) _ network.3 in
    let p1 =
      ap (λ p. p.1.plan) (sym network.2)
      ∙ ensure_network-Keeps w IsReal (IsReal-kept w.daemon) s t h in
    let p2 =
      ap (λ p. p.1.plan) (sym volumes.2)
      ∙ ensure_volumes-Keeps w IsReal (IsReal-kept w.daemon) s.name s.volumes network.1 p1 in
    up_from-Gated w s within s.order [] volumes.1 p2 volumes.3
