-- ===== src/Runbook/Tests.antt =====
-- A rollout with an approval in its middle, run and resumed.
use aisb.Prelude.{
  ◌≡◌, refl, true, false, none, some, [], ◌∷◌, get, put, strip, eqb, contains, sorted,
}
use aisb.Prelude.Results.{ok, err}
use aisb.Yaml.Text.{pos, negsuc}
use aisb.Runbook.{
  Step, run, approve, always, success, Runbook, Entry, pending, done, waiting, Run, running, paused,
  should_run,
}
use aisb.Runbook.Text.{render, argv_of, undefined_variables}
use aisb.Runbook.Engine.{World, waiting_for, execute, execute_from, decide, resume}
use aisb.Runbook.Engine.Gates.{gate_holds, executed, IsGate}

abbrev world : World
world = record {
  words = record { is_word = λ c. eqb c 118; split = λ line. ok (line ∷ []) };
  exec = λ log argv. record { ok = true; error = none };
}

abbrev ship : Step
ship = record {
  name = "ship";
  action = run "aisb ship {v}";
  when = success;
  retry_times = pos 1;
  continue_on_error = false;
}

abbrev gate : Step
gate = record {
  name = "go";
  action = approve "go on?";
  when = always;
  retry_times = pos 0;
  continue_on_error = false;
}

abbrev rest : Step
rest = record {
  name = "rest";
  action = run "ship all";
  when = success;
  retry_times = pos 0;
  continue_on_error = false;
}

abbrev fresh : Entry
fresh = record {
  status = pending;
  prompt = none;
  attempts = none;
  error = none;
  approved_by = none;
  tolerated = false;
}

abbrev book : Runbook
book = record {
  name = "rollout";
  steps = ship ∷ gate ∷ rest ∷ [];
  vars = ("v", "api:2") ∷ [];
  sha256 = "s";
}

abbrev begun : Run
begun = record {
  id = "r1";
  sha256 = "s";
  vars = [];
  status = running;
  confirmed = true;
  steps = ("ship", fresh) ∷ ("go", fresh) ∷ ("rest", fresh) ∷ [];
  approvals = [];
  log = [];
}

abbrev shipped : Entry
shipped = record fresh { status = done; attempts = some 1 }

abbrev halfway : Run
halfway = record begun {
  status = paused;
  steps =
      ("ship", shipped)
      ∷ ("go", record fresh { status = waiting; prompt = some "go on?" })
      ∷ ("rest", fresh)
      ∷ [];
  log = ("ship api:2" ∷ []) ∷ [];
}

runs : Unit {0}
unfolding execute decide resume render argv_of strip get put contains sorted should_run
runs = tt

-- A negative number of retries: no command is executed.
never_tried :
    executed
      (execute_from world book.vars (record ship { retry_times = negsuc 0 } ∷ []) false begun)
    ≡ []
unfolding runs executed
never_tried = refl

first_run : execute world book begun ≡ (waiting_for "go", halfway)
unfolding runs
first_run = refl

approved_run :
    (decide world book (record { is_deny = false; by = "ann"; note = none }) true halfway).1.log
    ≡ ("ship all" ∷ []) ∷ ("ship api:2" ∷ []) ∷ []
unfolding runs
approved_run = refl

undefined :
    render world.words "ship {v} {vv}" (("v", "1") ∷ []) ≡ err (undefined_variables ("vv" ∷ []))
unfolding runs
undefined = refl

literal : render world.words "{} {x} {{v}" (("v", "1") ∷ []) ≡ ok "{} {x} {1"
unfolding runs
literal = refl

gate_holds_example :
    executed (execute_from world book.vars (ship ∷ gate ∷ rest ∷ []) false begun)
    ≡ executed (execute_from world book.vars (ship ∷ []) false begun)
unfolding runs IsGate executed
gate_holds_example =
    gate_holds world book.vars (ship ∷ []) (rest ∷ []) gate false begun (refl, tt)
      (("go on?", refl), refl, refl, (fresh, refl, refl))
