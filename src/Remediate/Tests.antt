-- ===== src/Remediate/Tests.antt =====
-- Containers that were killed, and one whose disk is full.
use aisb.Prelude.{ℕ, ◌+◌, ◌*◌, ◌/◌, String, ◌≡◌, refl, List, [], ◌∷◌, contains, minus}
use aisb.Fleet.Inventory.{dedupe}
use aisb.Remediate.{Report, limit, start, human, plan, codes_of, needs_human, memory_part, act}
use aisb.Remediate.Laws.{plan-OnlyLimits, OnlyLimits}

abbrev all_rules : List String
all_rules = "start-exited" ∷ "restart-unhealthy" ∷ "raise-memory" ∷ []

abbrev killed : Report
killed = record { container = "db"; findings = "oom-killed" ∷ "crash-loop" ∷ []; status = "exited" }

abbrev full : Report
full = record { container = "db"; findings = "disk-full" ∷ []; status = "exited" }

-- a growth of 1.25, to a multiple of 16 MiB
abbrev by_quarter : ℕ → ℕ
by_quarter memory = (memory * 5 + 67108863) / 67108864 * 16777216

runs : Unit {0}
unfolding plan contains dedupe memory_part codes_of needs_human minus
runs = tt

killed_plan : plan killed 536870912 all_rules by_quarter ≡ record {
  actions = act killed "raise-memory" (limit 671088640) ∷ act killed "start-exited" start ∷ [];
  suggestions = [];
}
unfolding runs
killed_plan = refl

full_plan :
    plan full 0 all_rules by_quarter
    ≡ record { actions = []; suggestions = human "db" "disk-full" ∷ [] }
unfolding runs
full_plan = refl

plan-OnlyLimits_example : OnlyLimits (plan full 0 all_rules by_quarter)
unfolding runs
plan-OnlyLimits_example = plan-OnlyLimits full 0 all_rules by_quarter "disk-full" refl refl refl
