-- ===== src/Fleet/Inventory/Tests.antt =====
-- A small inventory, and runs of the selectors on it.
use aisb.Prelude.{
  String, ◌≡◌, ◌≢◌, refl, true, none, List, [], ◌∷◌, Dict, contains, get, put, join_comma, minus,
  union, has_code, sorted,
}
use aisb.Prelude.Results.{ok, err}
use aisb.Fleet.Selector.{terms_of, is_plain}
use aisb.Fleet.Inventory.{
  group_names, hosts_of, Host, Inventory, group_cycle, unknown_group, out_of_fuel, members_of,
  select, regroup,
}
use aisb.Fleet.Inventory.Selection.{names, selects, select_exact}
use aisb.Fleet.Inventory.Termination.{select-fueled}
use aisb.Fleet.Inventory.Editing.{in_group, regroup_exact}

abbrev machine : String → List String → Dict String → Host
machine n gs ls = record {
  name = n;
  ssh = none;
  port = none;
  key = none;
  docker = none;
  groups = gs;
  labels = ls;
  ssh_options = [];
}

abbrev web1 : Host
web1 = machine "web1" ("web" ∷ []) (("region", "eu") ∷ [])

abbrev web2 : Host
web2 = machine "web2" ("web" ∷ []) (("region", "us") ∷ [])

abbrev db1 : Host
db1 = machine "db1" ("db" ∷ []) (("region", "eu") ∷ [])

abbrev farm : Inventory
farm = record {
  hosts = ("web2", web2) ∷ ("web1", web1) ∷ ("db1", db1) ∷ [];
  groups = ("canary", "@web" ∷ "!web2" ∷ []) ∷ ("loop", "@pool" ∷ []) ∷ ("pool", "@loop" ∷ []) ∷ [];
}

-- what a run looks into
runs : Unit {0}
unfolding select members_of regroup terms_of is_plain has_code contains get put join_comma minus
    union hosts_of sorted group_names
runs = tt

union_and_exclude : select farm "!web2,*" ≡ ok (db1 ∷ web1 ∷ [])
unfolding runs
union_and_exclude = refl

computed : members_of farm "canary" ≡ ok ("web1" ∷ [])
unfolding runs
computed = refl

cycle : select farm "@loop" ≡ err (group_cycle "loop")
unfolding runs
cycle = refl

nobody : select farm "@cache" ≡ err (unknown_group "cache")
unfolding runs
nobody = refl

select_exact_example : contains (names (db1 ∷ web1 ∷ [])) "web1" ≡ selects farm "!web2,*" "web1"
select_exact_example =
    select_exact farm "!web2,*" (db1 ∷ web1 ∷ []) "web1" (refl, (refl, (refl, tt)))
      union_and_exclude

select-fueled_example : select farm "@loop" ≢ err out_of_fuel
select-fueled_example = select-fueled farm "@loop"

abbrev moved : Inventory
moved = record farm {
  hosts =
      ("web2", record web2 { groups = [] })
      ∷ ("web1", web1)
      ∷ ("db1", record db1 { groups = "db" ∷ "web" ∷ [] })
      ∷ [];
}

regroup_run : regroup farm "web" ("db1" ∷ "web2" ∷ []) ("web2" ∷ []) ≡ ok moved
unfolding runs
regroup_run = refl

regroup_exact_example : in_group moved.hosts "web" "db1" ≡ true
unfolding runs
regroup_exact_example =
    regroup_exact farm moved "web" ("db1" ∷ "web2" ∷ []) ("web2" ∷ []) "web" "db1" regroup_run
