-- ===== src/Stack/Up/Tests.antt =====
-- A stack of two services, the database running and the API not created yet.
use aisb.Prelude.{
  String, ◌≡◌, refl, sym, true, false, none, some, List, [], ◌∷◌, ◌==◌, get, contains, Bool-cases,
  inl, inr, ◌⊎◌, eq_iff, if◌then◌else◌, has_text,
}
use aisb.Prelude.Results.{Result, ok, err}
use aisb.Transport.{json, Kind, Request, Transport, Answer, answered, done, dry_id}
use aisb.Stack.{Service, Row, Class, missing, find_service, labels, hash_key, plan}
use aisb.Stack.Plan.{listed}
use aisb.Stack.Parse.Found.{running}
use aisb.Stack.Parse.Tests.{parsing, file, shop, parsed, service_of, found_api, sort_two-IsSorting}
use aisb.Stack.Up.{
  Payload, Info, Report, World, Entry, Outcome, came_up, not_ready, created, unchanged, up,
  inspect_path,
}
use aisb.Stack.Up.Order.{Gated, up-Gated}
use aisb.Stack.Up.Follows.{entries_of, settled_before, up-follows}
use aisb.Stack.Up.Inspected.{Agrees}
use aisb.Stack.Up.Refines.{reported, up_refines_plan}

-- the answer to an inspection of the database; nothing else is there
abbrev answer : String → Result String Info
answer path =
    if path == "/containers/shop-db/json"
    then ok (record { labels = some ((hash_key, "h1") ∷ []); is_running = true })
    else err "not found"

abbrev info : Answer Info → Info
info (answered i) = i
info _ = record { labels = none; is_running = false }

abbrev ready_report : Report
ready_report = record { is_ok = true; rest = "" }

abbrev world : World Info String
world = record {
  daemon = λ sent kind r.
      if r.method == "GET" then answer r.path else ok (info (aisb.Transport.nothing));
  quote = λ s. s;
  is_not_found = λ e. e == "not found";
  is_value_error = λ e. e == "value";
  key_error = "key";
  is_none = λ a. false;
  is_falsy = λ a. false;
  info_of = info;
  create_from = λ s. done tt;
  start = λ s. done tt;
  probe = λ name within. done ready_report;
  wait_for = λ name c within. done (record { is_ok = false; rest = "timed out" });
}

abbrev real : Transport Payload
real = record { plan = none; sent = [] }

abbrev dry : Transport Payload
dry = record { plan = some []; sent = [] }

runs : Unit {0}
unfolding up shop service_of get contains
runs = tt

abbrev outcome : Outcome
outcome =
    not_ready "api"
      (record {
        service = "db";
        container = "shop-db";
        action = unchanged;
        ready = some ready_report;
      }
        ∷ record {
          service = "api";
          container = "shop-api";
          action = created;
          ready = some (record { is_ok = false; rest = "timed out" });
        }
        ∷ [])
      []

went : up world shop 120 false real ≡ (ok outcome, (up world shop 120 false real).1)
unfolding runs
went = refl

up-Gated_example : Gated shop.order shop.order [] outcome
up-Gated_example = up-Gated world shop 120 real refl went

up-follows_example : settled_before "db" "api" (entries_of outcome) ≡ true
unfolding runs
up-follows_example =
    up-follows parsing file world 120 real "api" "db" sort_two-IsSorting parsed refl went found_api
      refl refl

abbrev rows : List Row
rows = running (service_of "db") ∷ []

some_injective : {A : Type 0} {a b : A} → some a ≡ some b → a ≡ b
some_injective h = cc

none_there : {A : Type 0} {a : A} → none ≡ some a → ⊥
none_there h = cc

-- a service of the stack is the database or the API
by_name :
    (n : String) (svc : Service)
    → get shop.services n ≡ some svc
    → ((n ≡ "db") × (svc ≡ service_of "db")) ⊎ ((n ≡ "api") × (svc ≡ service_of "api"))
unfolding runs
by_name n svc h = elim (Bool-cases ("db" == n)) [
  | inl e ↦ inl (sym ((eq_iff "db" n).0 e), sym (some_injective (rw e at h)))
  | inr e ↦ elim (Bool-cases ("api" == n)) [
    | inl f ↦ inr (sym ((eq_iff "api" n).0 f), sym (some_injective (rw (e, f) at h)))
    | inr f ↦ absurd (none_there (rw (e, f) at h))
  ]
]

rows_agree : Agrees world shop rows
unfolding runs find_service labels inspect_path has_text
rows_agree = record {
  clean = λ n svc h. elim (by_name n svc h) [ inl (e, f) ↦ rw f refl | inr (e, f) ↦ rw f refl ];
  answers = λ n svc sent h reads. elim (by_name n svc h) [
    | inl (e, f) ↦
        rw (e, f)
          (
            record { labels = some ((hash_key, "h1") ∷ []); is_running = true },
            refl,
            refl,
            (refl, refl),
          )
    | inr (e, f) ↦ rw (e, f) ("not found", refl, refl)
  ];
}

abbrev planned : Outcome
planned = came_up (
    record { service = "db"; container = "shop-db"; action = unchanged; ready = none }
    ∷ record { service = "api"; container = "shop-api"; action = created; ready = none }
    ∷ [])

foretold : up world shop 120 false dry ≡ (ok planned, (up world shop 120 false dry).1)
unfolding runs has_text
foretold = refl

up_refines_plan_example :
    (entries : List Entry) × (planned ≡ came_up entries)
    × ((k : Class) → reported k entries ≡ listed k (plan shop rows))
up_refines_plan_example =
    up_refines_plan world shop rows 120 false rows_agree dry (([], refl), tt) foretold

-- the API alone is missing
missing_only : listed missing (plan shop rows) ≡ "api" ∷ []
unfolding runs plan labels find_service
missing_only = refl
