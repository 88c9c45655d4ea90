-- ===== src/Runbook.antt =====
-- src/aisb/runbooks.py and the engine of src/aisb/api/runbook.py: a run goes through the steps of a
-- runbook, pauses where an approval is not answered yet, and is resumed from its saved state. The
-- state is the run; times, durations and the results of commands are left out of it. What commands
-- do, `shlex.split` and the word characters of `re` are parameters.
pub mod Text
pub mod Engine
pub mod Parse
mod Tests
use aisb.Yaml.Text.{ℤ}
use aisb.Prelude.{ℕ, String, Bool, true, false, not, Option, none, some, List, Dict, get}

-- `when` of a step
pub data When : Type 0 where
  success always on_failure : When
  step_ok step_failed : String → When

-- `parse` wants exactly one of `run`, `approve` and `sleep`.
pub data Action : Type 0 where
  run approve : String → Action
  sleep : ℕ → Action

pub record Step : Type 0 where
  pub name : String
  pub action : Action
  pub when : When
  pub retry_times : ℤ
  pub continue_on_error : Bool

pub record Runbook : Type 0 where
  pub name : String
  pub steps : List Step
  pub vars : Dict String
  pub sha256 : String

pub data Status : Type 0 where
  pending waiting done failed skipped : Status

-- A step of a run; `none` where the key is not set.
pub record Entry : Type 0 where
  pub status : Status
  pub prompt : Option String
  pub attempts : Option ℕ
  pub error : Option String
  pub approved_by : Option String
  pub tolerated : Bool

pub record Decision : Type 0 where
  pub is_deny : Bool
  pub by : String
  pub note : Option String

pub data RunStatus : Type 0 where
  running paused ended failed_run : RunStatus

-- `log` are the commands that were executed, the latest first.
pub record Run : Type 0 where
  pub id : String
  pub sha256 : String
  pub vars : Dict String
  pub status : RunStatus
  pub confirmed : Bool
  pub steps : Dict Entry
  pub approvals : Dict Decision
  pub log : List (List String)

-- the status of a step, or nothing
abbrev pub status_of : Dict Entry → String → Option Status
status_of steps n = elim (get steps n) [ none ↦ none | some s ↦ some s.status ]

abbrev pub is_done : Option Status → Bool
is_done (some done) = true
is_done (some pending) = false
is_done (some waiting) = false
is_done (some failed) = false
is_done (some skipped) = false
is_done none = false

abbrev pub is_failed : Option Status → Bool
is_failed (some failed) = true
is_failed (some pending) = false
is_failed (some waiting) = false
is_failed (some done) = false
is_failed (some skipped) = false
is_failed none = false

unfoldable pub should_run : When → Dict Entry → Bool → Bool
should_run always steps any_failed = true
should_run on_failure steps any_failed = any_failed
should_run success steps any_failed = not any_failed
should_run (step_ok n) steps any_failed = is_done (status_of steps n)
should_run (step_failed n) steps any_failed = is_failed (status_of steps n)
