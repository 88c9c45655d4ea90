-- ===== src/Stack/Ps/Tests.antt =====
-- Two containers of a stack of three services.
use aisb.Prelude.{String, ◌≡◌, refl, some, none, List, [], ◌∷◌, all, map, get, contains, sorted}
use aisb.Stack.{fine, belongs, labels, class_of}
use aisb.Stack.Plan.{same_class}
use aisb.Stack.Tests.{shop}
use aisb.Stack.Down.{Listed, label_of}
use aisb.Stack.Ps.{shown, row_of, labelled_services, ports_of, names_of}
use aisb.Stack.Ps.Healthy.{as_row, shown-healthy}

abbrev listed : String → String → String → Listed
listed service digest state = record {
  id = service;
  names = [];
  labels = some (("aisb.stack", "shop") ∷ ("aisb.service", service) ∷ ("aisb.hash", digest) ∷ []);
  state = some state;
  status = none;
  ports = (some "8080", "80") ∷ (none, "443") ∷ (some "8080", "80") ∷ [];
}

abbrev rows : List Listed
rows = listed "db" "d1" "running" ∷ listed "api" "a0" "running" ∷ []

runs : Unit {0}
unfolding shown row_of labelled_services ports_of names_of label_of belongs labels class_of get
runs = tt

by_label : names_of none rows ≡ "api" ∷ "db" ∷ []
unfolding runs contains sorted
by_label = refl

published : ports_of (listed "db" "d1" "running").ports ≡ "8080->80" ∷ []
unfolding runs contains
published = refl

shown-healthy_example :
    (shown "shop" (some shop) rows).healthy
    ≡ all (λ n. same_class fine (class_of shop (map as_row rows) n)) shop.order
unfolding runs
shown-healthy_example = shown-healthy "shop" shop rows (refl, (refl, tt))
