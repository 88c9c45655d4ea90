-- ===== src/Stack/Parse/Tests.antt =====
-- A stack file of two services.
use aisb.Prelude.{
  sym, Bool-cases, inl, inr, String, ◌≡◌, refl, Bool, true, false, ◌&&◌, Option, none, some, List,
  [], ◌∷◌, ◌==◌, Dict, get, contains, arith, eq_iff, if◌then◌else◌,
}
use aisb.Prelude.Results.{Result, ok, err}
use aisb.Ops.Binding.{text, texts, table}
use aisb.Models.{World as Models}
use aisb.Stack.{Stack, Service, class_of, fine}
use aisb.Stack.Tests.{service}
use aisb.Stack.Parse.{File, World, parse, prefix_volume, is_name, Error, bad_service_name, cycle}
use aisb.Stack.Parse.Ordered.{before, IsSorting, IsSorted, parse-IsSorted}
use aisb.Stack.Parse.Found.{running, class_of-running}

abbrev models : Models
models = record {
  split = λ t. some (t ∷ []);
  is_digits = λ t. true;
  parse_int = λ t. none;
  bytes_of = λ t. none;
  nanos_of = λ v. err aisb.Models.type_error;
}

-- a topological sort of the graphs of two services, the second of which depends on the first
abbrev pub sort_two : Dict (List String) → Result (List String) (List String)
sort_two ((a, []) ∷ (b, c ∷ []) ∷ []) =
    if a == "db" && b == "api" && c == "db" then ok ("db" ∷ "api" ∷ []) else err (a ∷ b ∷ [])
sort_two _ = err []

abbrev pub parsing : World
parsing = record { models = models; digest = λ body. "h1"; static_order = sort_two }

abbrev pub file : File
file = record {
  name = text "shop";
  services = some (
      ("db", ("image", text "postgres:16") ∷ ("volumes", texts ("pgdata:/data" ∷ [])) ∷ [])
      ∷ (
        "api",
        ("image", text "shop-api")
            ∷ ("depends_on", texts ("db" ∷ []))
            ∷ ("ports", texts ("8080:80" ∷ []))
            ∷ ("ready", table (("log", "listening") ∷ []))
            ∷ [],
      )
      ∷ []);
  volumes = texts ("pgdata" ∷ []);
  keys = "name" ∷ "services" ∷ "volumes" ∷ [];
}

runs : Unit {0}
unfolding parse get contains is_name prefix_volume class_of
runs = tt

abbrev pub stack_of : Result Error Stack → Stack
stack_of (ok s) = s
stack_of (err e) = record { name = ""; network = ""; volumes = []; services = []; order = [] }

unfoldable pub shop : Stack
unfolding runs
shop = stack_of (parse parsing file)

pub parsed : parse parsing file ≡ ok shop
unfolding runs shop
parsed = refl

order_of : shop.order ≡ "db" ∷ "api" ∷ []
unfolding runs shop
order_of = refl

order_two :
    (b1 b2 b3 : Bool) (a b : String) {order : List String}
    → (if b1 && b2 && b3 then ok ("db" ∷ "api" ∷ []) else err (a ∷ b ∷ [])) ≡ ok order
    → (b1 ≡ true) × (b2 ≡ true) × (b3 ≡ true) × ("db" ∷ "api" ∷ [] ≡ order)
order_two true true true a b h = (refl, refl, refl, cc)
order_two true true false a b h = cc
order_two true false b3 a b h = cc
order_two false b2 b3 a b h = cc

follow_two :
    (n d : String) (deps : List String)
    → get (("db", []) ∷ ("api", "db" ∷ []) ∷ []) n ≡ some deps
    → contains deps d ≡ true
    → contains (before n ("db" ∷ "api" ∷ [])) d ≡ true
unfolding contains get
follow_two n d deps g i = elim (Bool-cases ("db" == n)) [
  | inl e ↦ absurd (none_in d (rw (sym (some_injective (rw e at g))) at i))
  | inr e ↦ elim (Bool-cases ("api" == n)) [
    | inl f ↦ rw (e, f) (rw (sym (some_injective (rw (e, f) at g))) at i)
    | inr f ↦ absurd (none_there (rw (e, f) at g))
  ]
]
  where
    some_injective : {A : Type 0} {a b : A} → some a ≡ some b → a ≡ b
    some_injective h = cc

    none_in : (d : String) → contains [] d ≡ true → ⊥
    none_in d h = cc

    none_there : {A : Type 0} {a : A} → none ≡ some a → ⊥
    none_there h = cc

-- `sort_two` is such a sort.
pub sort_two-IsSorting : IsSorting sort_two
unfolding contains get
sort_two-IsSorting ((a, []) ∷ (b, c ∷ []) ∷ []) order h =
    let (e1, e2, e3, same) = order_two (a == "db") (b == "api") (c == "db") a b h in
    let one = (eq_iff a "db").0 e1 in
    let two = (eq_iff b "api").0 e2 in
    let three = (eq_iff c "db").0 e3 in
    (
      λ n. rw (sym same, one, two, three) (ground arith),
      λ n deps d g i. rw (sym same) (follow_two n d deps (rw (one, two, three) at g) i),
    )
sort_two-IsSorting _ order h = cc

parse-IsSorted_example : IsSorted shop
parse-IsSorted_example = parse-IsSorted parsing file sort_two-IsSorting parsed

abbrev pub service_or : Option Service → Service → Service
service_or none s = s
service_or (some s) t = s

-- a service of the stack
unfoldable pub service_of : String → Service
unfolding runs shop
service_of n = service_or (get shop.services n) (service n "")

pub found_api : get shop.services "api" ≡ some (service_of "api")
unfolding runs shop service_of
found_api = refl

class_of-running_example :
    class_of shop (running (service_of "db") ∷ running (service_of "api") ∷ []) "api" ≡ fine
class_of-running_example =
    class_of-running parsing file "api" (running (service_of "db") ∷ []) parsed found_api

-- a name may end with a line feed, which `$` passes over
ends_with_line_feed : (is_name "shop\n" ≡ true) × (is_name "Shop" ≡ false)
unfolding runs
ends_with_line_feed = (refl, refl)

refused :
    parse parsing (record file { services = some (("DB", []) ∷ []) }) ≡ err (bad_service_name "DB")
unfolding runs
refused = refl

cyclic :
    parse parsing (record file { services = some (("api", ("image", text "a") ∷ []) ∷ []) })
    ≡ err (cycle [])
unfolding runs
cyclic = refl
