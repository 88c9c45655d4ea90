-- ===== src/Remediate.antt =====
-- src/aisb/insights/remediate.py: what is done about a container, from what `doctor` found. Of a report
-- `plan` reads the codes and the status, of the inspection the memory limit. What a limit is raised to,
-- which the source computes in floating point from the growth, is a parameter, `raise_to`.
pub mod Laws
mod Tests
use aisb.Prelude.{
  ℕ, zero, suc, ◌+◌, ◌-◌, String, Bool, true, false, not, ◌&&◌, ◌||◌, List, [], ◌∷◌, ◌++◌, ◌==◌,
  map, keep, contains, if◌then◌else◌,
}
use aisb.Fleet.Inventory.{dedupe}

-- The keys of NEEDS_HUMAN; a suggestion names its code, which stands for the text.
unfoldable pub needs_human : String → Bool
unfolding contains
needs_human c =
    contains
      ("missing-env" ∷ "missing-file" ∷ "disk-full" ∷ "tls-error" ∷ "auth-failure"
        ∷ "dependency-unreachable" ∷ "dns-failure" ∷ "start-error" ∷ "port-in-use"
        ∷ "permission-denied" ∷ "wrong-arch" ∷ "crash-loop" ∷ "never-started" ∷ "stale-image"
        ∷ "paused" ∷ [])
      c

-- The operations that are asked for.
pub data Task : Type 0 where
  limit : (memory : ℕ) → Task
  start restart : Task

pub record Action : Type 0 where
  pub container : String
  pub rule : String
  pub task : Task

pub data Suggestion : Type 0 where
  no_limit : (container : String) → Suggestion
  human : (container code : String) → Suggestion

pub record Plan : Type 0 where
  pub actions : List Action
  pub suggestions : List Suggestion

pub record Report : Type 0 where
  pub container : String
  pub findings : List String
  pub status : String

-- `_codes`
unfoldable pub codes_of : Report → List String
unfolding dedupe
codes_of r = dedupe r.findings

abbrev pub is_down : Report → Bool
is_down r = r.status == "exited" || r.status == "dead"

abbrev pub has_memory_trouble : List String → Bool
has_memory_trouble codes = contains codes "oom-killed" || contains codes "memory-pressure"

abbrev pub act : Report → String → Task → Action
act r rule task = record { container = r.container; rule = rule; task = task }

-- what the first part of `plan` comes to: the plan so far, and whether it is returned
pub record Begun : Type 0 where
  pub plan : Plan
  pub is_over : Bool

abbrev pub with_limit : Report → List String → List String → (ℕ → ℕ) → ℕ → Begun
with_limit r codes rules raise_to memory =
    let grow = act r "raise-memory" (limit (raise_to memory)) in
    if not (contains rules "raise-memory")
    then record { plan = record { actions = []; suggestions = [] }; is_over = false }
    else if contains codes "oom-killed" && is_down r && contains rules "start-exited"
    then record {
      plan = record { actions = grow ∷ act r "start-exited" start ∷ []; suggestions = [] };
      is_over = true;
    }
    else record { plan = record { actions = grow ∷ []; suggestions = [] }; is_over = false }

abbrev pub limited : Report → List String → List String → (ℕ → ℕ) → ℕ → Begun
limited r codes rules raise_to zero = record {
  plan = record { actions = []; suggestions = no_limit r.container ∷ [] };
  is_over = false;
}
limited r codes rules raise_to (suc m) = with_limit r codes rules raise_to (suc m)

unfoldable pub memory_part : Report → List String → List String → (ℕ → ℕ) → ℕ → Begun
memory_part r codes rules raise_to memory =
    if has_memory_trouble codes
    then limited r codes rules raise_to memory
    else record { plan = record { actions = []; suggestions = [] }; is_over = false }

-- the last part, where no code needs a human
abbrev pub restarted : Report → List String → List String → List Action
restarted r codes rules =
    if contains codes "unhealthy" && r.status == "running" && contains rules "restart-unhealthy"
    then act r "restart-unhealthy" restart ∷ []
    else if is_down r && contains rules "start-exited" && not (contains codes "oom-killed")
    then act r "start-exited" start ∷ []
    else []

abbrev pub finished : Report → List String → List String → List String → Plan → Plan
finished r codes rules [] p = record p { actions = p.actions ++ restarted r codes rules }
finished r codes rules (c ∷ cs) p = record p {
  suggestions = p.suggestions ++ map (human r.container) (c ∷ cs);
}

-- `plan`; a missing memory limit is 0
unfoldable pub plan : Report → (memory : ℕ) → (rules : List String) → (raise_to : ℕ → ℕ) → Plan
unfolding codes_of memory_part needs_human
plan r memory rules raise_to =
    let codes = codes_of r in
    let begun = memory_part r codes rules raise_to memory in
    if begun.is_over then begun.plan else finished r codes rules (keep needs_human codes) begun.plan
