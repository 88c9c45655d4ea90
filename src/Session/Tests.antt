-- ===== src/Session/Tests.antt =====
-- A session in which a container and its volume were removed and another one was made, rolled back.
use aisb.Prelude.{
  String, true, false, not, ◌&&◌, ◌≡◌, ◌↔◌, refl, none, some, List, [], ◌∷◌, ◌==◌, map,
  if◌then◌else◌, keys, contains,
}
use aisb.Prelude.Results.{ok, err}
use aisb.Transport.{exchange}
use aisb.Session.Snapshot.{
  Kind, Object, Objects, Snapshot, Change, containers, volumes, compare, differs, fields,
}
use aisb.Session.Exact.{compare_exact}
use aisb.Session.Lifecycle.{Sessions, Row, already_active, begin, ls}
use aisb.Session.Inspect.{Client}
use aisb.Session.Capture.{Change as SessionChange, Store, capture}
use aisb.Session.Journal.{IsJournaled, capture-IsJournaled}
use aisb.Session.Undo.{Endpoint, Container, recreate_container, World}
use aisb.Session.Rollback.{Entry, done, one, Rolling, remove_added_container, recreating_container}
use aisb.Session.Scope.{rollback, roll_back, replay, is_local}
use aisb.Session.Foreign.{without_foreign, forgetting, roll_back-without_foreign}
use aisb.Session.Safety.{IsQuiet, roll_back-planned}
use aisb.Session.Again.{replay-again}

abbrev object : String → Object
object image = ("image", image) ∷ []

abbrev before_objects : Kind → Objects
before_objects containers = ("api", object "api:1") ∷ ("web", object "web:1") ∷ []
before_objects volumes = ("data", []) ∷ []
before_objects _ = []

abbrev now_objects : Kind → Objects
now_objects containers = ("web", object "web:2") ∷ ("job", object "job:1") ∷ []
now_objects volumes = ("data", []) ∷ []
now_objects _ = []

abbrev before : Snapshot
before = record { taken = some 1; objects = before_objects }

abbrev now : Snapshot
now = record { taken = some 2; objects = now_objects }

abbrev world : World String String
world = record {
  daemon = λ sent k r. if r.method == "GET" then err "404" else ok "";
  quote = λ ref. ref;
  is_not_found = λ e. e == "404";
  is_caught = λ e. true;
  snapshot = λ t. (ok now, t);
  create_from = λ spec t. (ok spec.image, t);
  restore = λ name backup clear t. (err "no helper", t);
  run_script = λ c database dump t. (ok tt, t);
}

abbrev api : Container
api = record {
  name = "api";
  spec = record { image = "api"; network = none; aliases = []; volumes = []; rest = "" };
  image_id = some "api:1";
  is_running = true;
  networks = ("back", "api" ∷ "0123456789ab" ∷ []) ∷ ("bridge", []) ∷ [];
  volumes = [];
}

abbrev journal : List Entry
journal =
    record {
      id = "1";
      op = "containers.rm";
      tier = "destroy";
      args = [];
      host = none;
      inverse = some (one (recreate_container api));
      is_done = false;
    }
    ∷ record {
      id = "2";
      op = "containers.rm";
      tier = "destroy";
      args = [];
      host = none;
      inverse = some (one (recreate_container (record api { name = "job" })));
      is_done = false;
    }
    ∷ []

abbrev idle : Endpoint
idle = record { plan = none; sent = [] }

abbrev rolling : Rolling String
rolling = record { steps = []; local = idle; remote = none }

session_runs : Unit {0}
unfolding rollback exchange
session_runs = tt

rolled_back_paths :
    map
      (λ s. s.1.path)
      (roll_back world false none is_local before journal now rolling).1.local.sent
    ≡ "/containers/api:1/start" ∷ "/networks/bridge/connect" ∷ "/containers/api/json"
      ∷ "/containers/job" ∷ []
unfolding session_runs
rolled_back_paths = refl

rolled_back_labels :
    map (λ s. s.label) (roll_back world false none is_local before journal now rolling).1.steps
    ≡ remove_added_container "job" ∷ recreating_container "api" ∷ []
unfolding session_runs
rolled_back_labels = refl

compare_exact_example :
    (contains ((compare before now).differences containers).added "job" ≡ (
      contains (keys (now_objects containers)) "job"
      && not (contains (keys (before_objects containers)) "job")))
    × (contains ((compare before now).differences containers).removed "job" ≡ (
        contains (keys (before_objects containers)) "job"
        && not (contains (keys (now_objects containers)) "job")))
    × ((contains
            (map (λ (c : Change). c.name) ((compare before now).differences containers).changed)
            "job"
          ≡ true)
        ↔ ((contains (keys (now_objects containers)) "job"
              && contains (keys (before_objects containers)) "job")
            ≡ true)
          × ((f : String) × (differs
                  (fields (before_objects containers) "job")
                  (fields (now_objects containers) "job")
                  f
                ≡ true)))
compare_exact_example = compare_exact before now containers "job"

-- The second entry is about "job", which the baseline does not hold.
roll_back-without_foreign_example :
    roll_back world false none is_local before (map (without_foreign before) journal) now rolling
    ≡ forgetting world false none before
        (roll_back world false none is_local before journal now rolling)
unfolding without_foreign
roll_back-without_foreign_example =
    roll_back-without_foreign world false none before is_local journal now rolling (λ e. refl)

roll_back-planned_example :
    IsQuiet rolling (
      (roll_back world true none is_local before journal now rolling).0,
      (roll_back world true none is_local before journal now rolling).1,
    )
    × ((roll_back world true none is_local before journal now rolling).2 ≡ journal)
roll_back-planned_example = roll_back-planned world none is_local before journal now rolling

replay-again_example :
    replay world false none is_local before
      (replay world false none is_local before journal rolling).2
      rolling
    ≡ (ok tt, rolling, (replay world false none is_local before journal rolling).2)
unfolding session_runs
replay-again_example = replay-again world none is_local before journal rolling rolling refl

abbrev client : Client String String
client = record {
  world = record world { daemon = λ sent k r. ok r.path };
  container_info = λ a. record {
    name = some "/api";
    spec = api.spec;
    image = some "api:1";
    is_running = true;
    networks = [];
    mounts = ("volume", "data", "/data") ∷ ("bind", "", "/etc") ∷ [];
  };
  volume_info = λ a. record { name = "data"; driver = none; options = []; labels = [] };
  network_info = λ a. record { name = "back"; driver = none; is_internal = false; labels = [] };
  networks_in = λ a. [];
  volumes_in = λ a. [];
  backup = λ name t. (ok "data.tar", t);
  dump = λ ref database id t. (ok "dump.sql", t);
  stack_name = λ stack t. (ok stack, t);
  stack_containers = λ name t. (ok [], t);
  text_of_error = λ e. e;
  is_docker_error = λ e. true;
  is_rescued = λ e. true;
  is_secret = λ k. k == "password";
}

abbrev removal : SessionChange
removal = record {
  id = "3";
  resource = "containers";
  op = "containers.rm";
  tier = "destroy";
  host = none;
  arguments = record {
    ref = "api";
    takes_volumes = true;
    database = none;
    stack = "";
    has_service = false;
    all_args = ("ref", "api") ∷ ("password", "x") ∷ [];
  };
}

abbrev store : Store
store = record { current = some "s1"; protects = false; baselines = []; journal = [] }

captured :
    (capture client "stack" removal store idle).1.journal
    ≡ record {
      id = "3";
      op = "containers.rm";
      tier = "destroy";
      args = ("ref", "api") ∷ ("password", "***") ∷ [];
      host = none;
      inverse = some (
          one (
            recreate_container (record {
              name = "api";
              spec = api.spec;
              image_id = some "api:1";
              is_running = true;
              networks = [];
              volumes =
                  record {
                    name = "data";
                    destination = "/data";
                    meta = some (record { driver = "local"; options = []; labels = [] });
                    backup = "data.tar";
                  }
                  ∷ [];
            })));
      is_done = false;
    }
      ∷ []
unfolding session_runs capture
captured = refl

capture-IsJournaled_example :
    IsJournaled client "stack" removal store idle (capture client "stack" removal store idle)
unfolding session_runs
capture-IsJournaled_example = capture-IsJournaled client "stack" removal store idle refl refl

rolled_back_report :
    rollback (λ e. true) world before [] journal idle
    ≡ ok (record {
      hosts = "local" ∷ [];
      steps =
          record { place = none; label = remove_added_container "job"; status = done }
          ∷ record { place = none; label = recreating_container "api"; status = done }
          ∷ [];
      failed_steps = [];
      not_undone = [];
      journal = some (map (λ (e : Entry). record e { is_done = true }) journal);
      transport = (roll_back world false none is_local before journal now rolling).1.local;
    })
unfolding session_runs
rolled_back_report = refl

abbrev sessions : Sessions
sessions = record { current = none; metas = []; journals = ("s1", journal) ∷ [] }

abbrev begun_session : Sessions
begun_session = record sessions {
  current = some "s1";
  metas = ("s1", record { name = none; is_active = true; protects = false; baseline = now }) ∷ [];
}

begun_once : begin world "s1" none false sessions idle ≡ (ok begun_session, idle)
unfolding begin
begun_once = refl

begun_twice : begin world "s2" none false begun_session idle ≡ (err (already_active "s1"), idle)
unfolding begin
begun_twice = refl

ended_then_listed :
    map (λ (r : Row). r.changes) (ls (record begun_session { current = none })) ≡ 2 ∷ []
unfolding ls
ended_then_listed = refl
