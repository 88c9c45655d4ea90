-- ===== src/Fleet/Runner/Tests.antt =====
-- A fan-out over three hosts.
use aisb.Prelude.{
  String, ◌≡◌, refl, ◌⊎◌, true, false, not, ◌&&◌, none, some, List, [], ◌∷◌, ◌++◌, any, eqb,
  if◌then◌else◌, ◌==◌,
}
use aisb.Fleet.Inventory.{Host}
use aisb.Yaml.Text.{pos, negsuc}
use aisb.Fleet.Runner.{other, returned, unreachable, failed, Job, attempt, Fanned, fan_out, summary}
use aisb.Fleet.Runner.Laws.{fan_out-covers, reported, accounted}

abbrev host : String → Host
host n = record {
  name = n;
  ssh = some "ops";
  port = none;
  key = none;
  docker = none;
  groups = [];
  labels = [];
  ssh_options = [];
}

-- The first attempt cannot connect; "db" then fails.
abbrev job : Host → Job
job h = record {
  ending = λ n.
      if eqb n 1
      then some (unreachable "no route")
      else if h.name == "db"
      then some (failed "boom")
      else some (returned other);
  is_late = λ n. false;
  timed_out = "timed out after 5s";
}

abbrev three : List Host
three = host "web" ∷ host "db" ∷ host "cache" ∷ []

runs : Unit {0}
unfolding fan_out attempt summary
runs = tt

abbrev rolled : Fanned
rolled = fan_out three job (some (pos 1)) true 2

rolled_skips : rolled.skipped ≡ "cache" ∷ []
unfolding runs
rolled_skips = refl

rolled_summary :
    summary rolled.results rolled.skipped
    ≡ record { hosts = 3; ok = 1; failed = "db" ∷ []; skipped = "cache" ∷ [] }
unfolding runs
rolled_summary = refl

second : (attempt (host "web") (job (host "web")) 2).attempts ≡ 2
unfolding runs
second = refl

-- A negative batch size: every host is lost.
negative : fan_out three job (some (negsuc 0)) false 0 ≡ record { results = []; skipped = [] }
unfolding runs
negative = refl

fan_out-covers_example :
    (reported rolled.results ++ rolled.skipped ≡ accounted (some (pos 1)) three)
    × ((rolled.skipped ≡ []) ⊎ ((true && any (λ r. not r.ok) rolled.results) ≡ true))
fan_out-covers_example = fan_out-covers three job (some (pos 1)) true 2
