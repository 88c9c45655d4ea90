-- ===== src/Remediate/Laws.antt =====
-- What `plan` does without a human.
use aisb.Prelude.{
  ℕ, zero, suc, String, ◌≡◌, refl, ap, inl, inr, Bool, true, false, not, ◌&&◌, List, [], ◌∷◌, ◌==◌,
  keep, contains, arith, eq_iff, All, All-append, Bool-cases,
}
use aisb.Remediate.{
  Report, Task, limit, start, restart, Action, Plan, plan, is_down, codes_of, needs_human,
  memory_part, limited, with_limit, restarted, finished, has_memory_trouble,
}

module _ (r : Report) (codes rules : List String) where
  unfoldable IsEnabled : Action → Type 0
  IsEnabled a = contains rules a.rule ≡ true

  with_limit-IsEnabled :
      (raise_to : ℕ → ℕ) (memory : ℕ)
      → All IsEnabled (with_limit r codes rules raise_to memory).plan.actions
  unfolding IsEnabled
  with_limit-IsEnabled raise_to memory = elim (Bool-cases (contains rules "raise-memory")) [
    | inr e ↦ rw e tt
    | inl e ↦
        elim (Bool-cases
          (contains codes "oom-killed" && is_down r && contains rules "start-exited")) [
            | inr f ↦ rw (e, f) (e, tt)
            | inl f ↦ rw (e, f) (e, (ground (arith, f), tt))
          ]
  ]

  memory_part-IsEnabled :
      (raise_to : ℕ → ℕ) (memory : ℕ)
      → All IsEnabled (memory_part r codes rules raise_to memory).plan.actions
  unfolding memory_part
  memory_part-IsEnabled raise_to memory = elim (Bool-cases (has_memory_trouble codes)) [
    | inr e ↦ rw e tt
    | inl e ↦ rw e (by_limit memory)
  ]
    where
      by_limit : (m : ℕ) → All IsEnabled (limited r codes rules raise_to m).plan.actions
      by_limit zero = tt
      by_limit (suc m) = with_limit-IsEnabled raise_to (suc m)

  restarted-IsEnabled : All IsEnabled (restarted r codes rules)
  unfolding IsEnabled
  restarted-IsEnabled =
      elim (Bool-cases (
        contains codes "unhealthy"
        && r.status == "running"
        && contains rules "restart-unhealthy")) [
          | inl e ↦ rw e (ground (arith, e), tt)
          | inr e ↦
              elim (Bool-cases
                (is_down r && contains rules "start-exited" && not (contains codes "oom-killed"))) [
                  | inl f ↦ rw (e, f) (ground (arith, f), tt)
                  | inr f ↦ rw (e, f) tt
                ]
        ]

  finished-IsEnabled :
      (blocked : List String) (p : Plan)
      → All IsEnabled p.actions
      → All IsEnabled (finished r codes rules blocked p).actions
  finished-IsEnabled [] p h =
      All-append IsEnabled p.actions (restarted r codes rules) h restarted-IsEnabled
  finished-IsEnabled (c ∷ cs) p h = h

-- Every action of a plan stands under a rule that is enabled.
pub plan-enabled :
    (r : Report) (memory : ℕ) (rules : List String) (raise_to : ℕ → ℕ)
    → All (λ a. contains rules a.rule ≡ true) (plan r memory rules raise_to).actions
unfolding plan IsEnabled
plan-enabled r memory rules raise_to =
    let begun = memory_part r (codes_of r) rules raise_to memory in
    let here = memory_part-IsEnabled r (codes_of r) rules raise_to memory in
    elim (Bool-cases begun.is_over) [
      | inl e ↦ rw e here
      | inr e ↦
          rw e (
            finished-IsEnabled r (codes_of r) rules (keep needs_human (codes_of r)) begun.plan here)
    ]

-- raising a limit, which neither starts nor restarts anything
abbrev pub is_limit : Task → Bool
is_limit (limit m) = true
is_limit start = false
is_limit restart = false

abbrev pub OnlyLimits : Plan → Type 0
OnlyLimits p = All (λ a. is_limit a.task ≡ true) p.actions

keep-nonempty :
    (p : String → Bool) (xs : List String) (x : String)
    → contains xs x ≡ true
    → p x ≡ true
    → (y : String) × (ys : List String) × (keep p xs ≡ y ∷ ys)
unfolding contains
keep-nonempty p [] x h k = cc
keep-nonempty p (y ∷ xs) x h k = elim (Bool-cases (p y)) [
  | inl e ↦ (y, keep p xs, rw e refl)
  | inr e ↦
      let (z, zs, f) = keep-nonempty p xs x (ground (arith, h, k, e, eq_iff y x, ap p)) k in
      (z, zs, rw e f)
]

module _ (r : Report) (codes rules : List String)
    (alive : contains codes "oom-killed" ≡ false) where
  limited-OnlyLimits :
      (raise_to : ℕ → ℕ) (memory : ℕ)
      → OnlyLimits (limited r codes rules raise_to memory).plan
        × ((limited r codes rules raise_to memory).is_over ≡ false)
  limited-OnlyLimits raise_to zero = (tt, refl)
  limited-OnlyLimits raise_to (suc m) = elim (Bool-cases (contains rules "raise-memory")) [
    | inr e ↦ rw e (tt, refl)
    | inl e ↦ rw (e, alive) ((refl, tt), refl)
  ]

  memory_part-OnlyLimits :
      (raise_to : ℕ → ℕ) (memory : ℕ)
      → OnlyLimits (memory_part r codes rules raise_to memory).plan
        × ((memory_part r codes rules raise_to memory).is_over ≡ false)
  unfolding memory_part
  memory_part-OnlyLimits raise_to memory = elim (Bool-cases (has_memory_trouble codes)) [
    | inr e ↦ rw e (tt, refl)
    | inl e ↦ rw e (limited-OnlyLimits raise_to memory)
  ]

-- Nothing is started or restarted where a code needs a human, unless the container was OOM-killed: at
-- most its memory limit is raised.
pub plan-OnlyLimits :
    (r : Report) (memory : ℕ) (rules : List String) (raise_to : ℕ → ℕ) (code : String)
    → contains (codes_of r) code ≡ true
    → needs_human code ≡ true
    → contains (codes_of r) "oom-killed" ≡ false
    → OnlyLimits (plan r memory rules raise_to)
unfolding plan
plan-OnlyLimits r memory rules raise_to code found human alive =
    let (only, on) = memory_part-OnlyLimits r (codes_of r) rules alive raise_to memory in
    let (c, cs, blocked) = keep-nonempty needs_human (codes_of r) code found human in
    rw (on, blocked) only
