-- ===== src/Stack/Tests.antt =====
-- A stack of three services, one drifted, one stopped and one missing.
use aisb.Prelude.{
  if◌then◌else◌, ◌==◌, false, String, ◌≡◌, refl, none, some, List, [], ◌∷◌, get, contains,
}
use aisb.Ops.Binding.{text, null, flag}
use aisb.Stack.{drift, Stack, Service, rule, dependents, Row, class_of, plan, labels, find_service}

abbrev pub service : String → String → Service
service name digest = record {
  name = name;
  spec = record {
    image = text "shop";
    cmd = [];
    entrypoint = null;
    name = text name;
    env = [];
    ports = [];
    volumes = [];
    labels = [];
    restart = null;
    network = null;
    workdir = null;
    user = null;
    memory = null;
    cpus = null;
    tty = flag false;
    rm = flag false;
    health_cmd = null;
    aliases = [];
    pid = null;
    hostname = null;
    cap_add = [];
    privileged = flag false;
  };
  depends_on = if name == "db" then [] else "db" ∷ [];
  ready = rule "probe";
  digest = digest;
}

abbrev pub shop : Stack
shop = record {
  name = "shop";
  network = "shop_default";
  volumes = [];
  services =
      ("db", service "db" "d1") ∷ ("api", service "api" "a1") ∷ ("web", service "web" "w1") ∷ [];
  order = "db" ∷ "api" ∷ "web" ∷ [];
}

abbrev row : String → String → String → Row
row service digest state = record {
  api_labels =
      some (("aisb.stack", "shop") ∷ ("aisb.service", service) ∷ ("aisb.hash", digest) ∷ []);
  list_labels = none;
  api_state = some state;
  list_state = none;
}

abbrev found : List Row
found = row "db" "d0" "running" ∷ row "api" "a1" "exited" ∷ []

runs : Unit {0}
unfolding plan class_of contains labels find_service get
runs = tt

planned :
    plan shop found
    ≡ record { missing = "web" ∷ []; stopped = "api" ∷ []; drift = "db" ∷ []; fine = [] }
unfolding runs
planned = refl

depending : dependents shop "db" ≡ "api" ∷ "web" ∷ []
unfolding dependents contains
depending = refl
