-- ===== src/Runbook/Parse/Tests.antt =====
-- A runbook of two steps, parsed.
use aisb.Prelude.{◌≡◌, refl, true, false, none, some, List, [], ◌∷◌, contains, decimal}
use aisb.Prelude.Results.{ok, err}
use aisb.Yaml.Text.{pos}
use aisb.Runbook.{Step, run, approve, success, step_failed}
use aisb.Runbook.Parse.{
  Patterns, RawStep, parse, not_an_earlier_step, duplicate_name, before_suffix,
}
use aisb.Runbook.Parse.Order.{IsOrdered, parse-IsOrdered}

abbrev patterns : Patterns
patterns = record { is_name = λ t. true; is_reference = λ t. true }

abbrev ship : RawStep
ship = record {
  name = some "ship";
  run = some "fleet ship api";
  approve = none;
  sleep = none;
  when = none;
  retry_times = some (pos 2);
  continue_on_error = false;
  other_keys = [];
}

abbrev undo : RawStep
undo = record ship {
  name = none;
  run = none;
  approve = some "roll back?";
  when = some "ship.failed";
  retry_times = none;
}

runs : Unit {0}
unfolding parse contains decimal before_suffix
runs = tt

abbrev parsed : List Step
parsed =
    record {
      name = "ship";
      action = run "fleet ship api";
      when = success;
      retry_times = pos 2;
      continue_on_error = false;
    }
    ∷ record {
      name = "step-2";
      action = approve "roll back?";
      when = step_failed "ship";
      retry_times = pos 0;
      continue_on_error = false;
    }
    ∷ []

accepted : parse patterns (ship ∷ undo ∷ []) ≡ ok parsed
unfolding runs
accepted = refl

too_early : parse patterns (undo ∷ ship ∷ []) ≡ err (not_an_earlier_step "ship")
unfolding runs
too_early = refl

twice : parse patterns (ship ∷ ship ∷ []) ≡ err (duplicate_name "ship")
unfolding runs
twice = refl

parse-IsOrdered_example : IsOrdered [] parsed
unfolding runs
parse-IsOrdered_example = parse-IsOrdered patterns (ship ∷ undo ∷ []) parsed accepted
