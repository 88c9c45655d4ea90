-- ===== src/Policy/Tests.antt =====
-- Rules at work, and the theorems about them at concrete inputs.
use aisb.Prelude.{
  ◌≡◌, ◌≢◌, refl, true, false, none, some, [], ◌∷◌, arith, eq_iff, contains, has_text, has_code,
  after_last, partition, join_comma, strip, decimal,
}
use aisb.Prelude.Results.{ok, err}
use aisb.Fleet.Selector.{terms_of, is_plain, plain}
use aisb.Policy.{Ctx, absent, value}
use aisb.Policy.Matching.{Match, matches, local_matches, removes_local, is_local}
use aisb.Policy.Window.{Moment, in_window, in_hours}
use aisb.Policy.Conditions.{Condition, Kwargs, no_volumes, mounts, socket_mount, tag_of, conditions}
use aisb.Policy.Check.{
  World, Rule, not_allowed, ticket_required, policy_denied, check, enforce, applies,
}
use aisb.Policy.Check.Laws.{deny_blocks}

abbrev agent : Ctx
agent = record { user = "ann"; source = "mcp"; host = none; ticket = none; run_id = none }

abbrev anything : Match
anything = record { op = absent; tier = absent; source = absent; user = absent; hosts = absent }

abbrev never : Condition
never = record {
  privileged = false;
  image_tag = absent;
  image = absent;
  host_network = false;
  docker_socket = false;
  volumes = false;
  force = false;
}

abbrev plain_rule : Rule
plain_rule = record {
  name = none;
  mode = none;
  match = anything;
  deny = false;
  message = none;
  require = record { ticket = false; ticket_pattern = none };
  window = none;
  deny_if = never;
}

abbrev no_destroy : Rule
no_destroy = record plain_rule {
  match = record anything { tier = value "destroy" };
  deny = true;
  message = some "ask first";
}

abbrev needs_ticket : Rule
needs_ticket = record plain_rule {
  name = some "tickets";
  require = record { ticket = true; ticket_pattern = none };
}

abbrev world : World
world = record { inventory = none; astimezone = λ tz now. now; fullmatch = λ p t. true }

abbrev noon : Moment
noon = record { weekday = 2; hour = 12; minute = 0 }

abbrev bare : Kwargs
bare = record {
  image = none;
  ref = none;
  network = none;
  privileged = false;
  force = false;
  volume = [];
  volumes = no_volumes;
}

runs : Unit {0}
unfolding check enforce matches in_window conditions contains has_text has_code after_last partition
    join_comma strip terms_of plain is_plain tag_of applies decimal
runs = tt

both_reasons :
    enforce world (needs_ticket ∷ no_destroy ∷ []) "containers.rm" "destroy" bare agent noon
    ≡ err (
        policy_denied (
          record { rule = "tickets"; reason = ticket_required; mode = "deny" }
          ∷ record { rule = "rule-2"; reason = not_allowed "ask first"; mode = "deny" }
          ∷ []))
unfolding runs
both_reasons = refl

socket :
    conditions
      (record never { docker_socket = true })
      (record bare { volumes = mounts ("/var/run/docker.sock:/s" ∷ []) })
      "containers.run"
    ≡ socket_mount ∷ []
unfolding runs
socket = refl

tags :
    (tag_of "localhost:5000/web" ≡ "latest")
    × (tag_of "r.io/web:1.2" ≡ "1.2")
    × (tag_of "web@sha256:ab" ≡ "digest")
unfolding runs
tags = (refl, refl, refl)

-- An `&` with the local endpoint's own name keeps it.
kept_by_intersection :
    (local_matches "local&all" ≡ true)
    × (local_matches "@web,!db" ≡ false)
    × (local_matches "!db" ≡ true)
unfolding runs
kept_by_intersection = (refl, refl, refl)

night : in_hours 22 6 (record noon { hour = 23 }) ≡ true
unfolding in_hours
night = refl

local_test : local_matches "local&all" ≡ true
unfolding runs is_local removes_local
local_test = refl

deny_blocks_example :
    enforce world (needs_ticket ∷ no_destroy ∷ []) "containers.rm" "destroy" bare agent noon ≢ ok []
unfolding runs
deny_blocks_example =
    deny_blocks world "containers.rm" "destroy" bare agent noon (needs_ticket ∷ []) [] no_destroy []
      refl refl (λ e. ground (arith, eq_iff "deny" "warn"))
