-- ===== src/Stack/Parse/Ordered.antt =====
-- `parse` of src/aisb/stack.py: the order of the services. `IsSorting` is what the documentation of
-- `graphlib.TopologicalSorter` says of `static_order`: the nodes and their predecessors, each after
-- its own.
use mathlib.Core.Path.{subst}
use aisb.Prelude.{
  String, ◌≡◌, refl, sym, ap, ◌∙◌, Bool, true, false, not, ◌||◌, Option, some, List, [], ◌∷◌, ◌==◌,
  Dict, get, All, arith, eq_iff, if◌then◌else◌, map, keys, minus, contains, contains-append,
  flatten, sorted, Bool-cases, inl, inr,
}
use aisb.Prelude.Results.{Result, ok, err, ◌>>◌, >>=-eq-ok, ok_injective}
use aisb.Ops.Binding.{Value}
use aisb.Models.{is_any}
use aisb.Stack.{Service, Stack}
use aisb.Stack.Parse.{
  Error, File, World, parse, parse_services, graph, fail_if, is_name, check_dependencies, name_text,
  present, unknown_keys, bad_name, declared_of, sorted_by, unknown_services,
}
use aisb.Stack.Parse.Placed.{IsPlaced, parse_services-IsPlaced}

-- what stands before a name
abbrev pub before : String → List String → List String
before n [] = []
before n (x ∷ xs) = if x == n then [] else x ∷ before n xs

abbrev pub IsSorting : (Dict (List String) → Result (List String) (List String)) → Type 0
IsSorting static_order =
    (g : Dict (List String)) (order : List String)
    → static_order g ≡ ok order
    → ((n : String)
        → contains order n ≡ (contains (keys g) n || contains (flatten (map (λ e. e.1) g)) n))
      × ((n : String) (deps : List String) (d : String)
          → get g n ≡ some deps
          → contains deps d ≡ true
          → contains (before n order) d ≡ true)

-- What is known of a stack that `parse` returns.
pub record IsParsed (w : World) (s : Stack) : Type 0 where
  pub declared : List String
  pub raw : Dict (Dict Value)
  pub parsed : parse_services w s.name declared raw ≡ ok s.services
  pub checked : check_dependencies (keys s.services) s.services ≡ ok tt
  pub sorting : w.static_order (graph s.services) ≡ ok s.order

eq-sorted_by :
    (r : Result (List String) (List String)) {order : List String}
    → sorted_by r ≡ ok order
    → r ≡ ok order
eq-sorted_by (ok o) h = cc
eq-sorted_by (err e) h = cc

pub parse-IsParsed : (w : World) (file : File) {s : Stack} → parse w file ≡ ok s → IsParsed w s
unfolding parse
parse-IsParsed w file h =
    let raw =
      >>=-eq-ok (fail_if (not (is_name (name_text file.name))) bad_name >> present file.services) _
        h in
    let declared =
      >>=-eq-ok
        (fail_if (is_any (minus file.keys ("name" ∷ "services" ∷ "volumes" ∷ [])))
            (unknown_keys (sorted (minus file.keys ("name" ∷ "services" ∷ "volumes" ∷ []))))
          >> declared_of file.volumes)
        _ raw.2 in
    let services =
      >>=-eq-ok (parse_services w (name_text file.name) declared.0 raw.0) _ declared.2 in
    let order =
      >>=-eq-ok
        (check_dependencies (keys services.0) services.0
          >> sorted_by (w.static_order (graph services.0)))
        _ services.2 in
    let checked = >>=-eq-ok (check_dependencies (keys services.0) services.0) _ order.1 in
    subst (IsParsed w) (ok_injective {E = Error} order.2) (record {
      declared = declared.0;
      raw = raw.0;
      parsed = services.1;
      checked = checked.1;
      sorting = eq-sorted_by _ checked.2;
    })

no_others :
    (xs known : List String) (d : String)
    → is_any (minus xs known) ≡ false
    → contains xs d ≡ true
    → contains known d ≡ true
unfolding contains minus
no_others [] known d h i = cc
no_others (x ∷ xs) known d h i = ground (arith, no_others xs known d, eq_iff x d)

not_failed : (b : Bool) (e : Error) {u : Unit {0}} → fail_if b e ≡ ok u → b ≡ false
not_failed true e h = cc
not_failed false e h = refl

-- what is depended on is known
checked-contains :
    (known : List String) (services : Dict Service) (d : String)
    → check_dependencies known services ≡ ok tt
    → contains (flatten (map (λ e. e.1) (graph services))) d ≡ true
    → contains known d ≡ true
unfolding check_dependencies contains
checked-contains known [] d h i = cc
checked-contains known ((n, s) ∷ services) d h i =
    let missing = minus s.depends_on known in
    let first =
      >>=-eq-ok (fail_if (is_any missing) (unknown_services s.name (sorted missing))) _ h in
    let here = no_others s.depends_on known d (not_failed (is_any missing) _ first.1) in
    let there = checked-contains known services d first.2 in
    let both =
      sym (contains-append s.depends_on (flatten (map (λ e. e.1) (graph services))) d) ∙ i in
    elim (Bool-cases (contains s.depends_on d)) [
      | inl e ↦ here e
      | inr e ↦ there (ground (arith, both, e))
    ]

same_choice :
    (here : Bool) (t : Service) {s : Service} {rest : Option Service}
    {others : Option (List String)}
    → (rest ≡ some s → others ≡ some s.depends_on)
    → (if here then some t else rest) ≡ some s
    → (if here then some t.depends_on else others) ≡ some s.depends_on
same_choice true t f h = cc
same_choice false t f h = f h

module _ (name : String) where
  keys-graph :
      (services : Dict Service)
      → All (λ e. IsPlaced name e.0 e.1) services
      → keys (graph services) ≡ keys services
  keys-graph [] p = refl
  keys-graph ((n, s) ∷ services) (p, ps) = rw (p.same_name, keys-graph services ps) refl

  get-graph :
      (services : Dict Service) (n : String) {s : Service}
      → All (λ e. IsPlaced name e.0 e.1) services
      → get services n ≡ some s
      → get (graph services) n ≡ some s.depends_on
  unfolding get
  get-graph [] n p h = cc
  get-graph ((m, t) ∷ services) n (p, ps) h =
      rw p.same_name (same_choice (m == n) t (get-graph services n ps) h)

-- Each service once its dependencies are there: the names of the order are the services, and each
-- service of the order stands after the services that it depends on.
pub record IsSorted (s : Stack) : Type 0 where
  pub covers : (n : String) → contains s.order n ≡ contains (keys s.services) n
  pub follows :
      (n d : String) (svc : Service)
      → get s.services n ≡ some svc
      → contains svc.depends_on d ≡ true
      → contains (before n s.order) d ≡ true

-- If the topological sort does what its documentation says, then in a stack that `parse` returns the
-- names of the order are exactly the services, and each service of the order stands after every
-- service that it depends on.
pub parse-IsSorted :
    (w : World) (file : File) {s : Stack}
    → IsSorting w.static_order
    → parse w file ≡ ok s
    → IsSorted s
unfolding contains
parse-IsSorted w file {s} sorting h =
    let known = parse-IsParsed w file h in
    let placed = parse_services-IsPlaced w s.name known.declared known.raw known.parsed in
    let order = sorting (graph s.services) s.order known.sorting in
    record {
      covers = λ n.
          nodes n (order.0 n) (ap (λ ks. contains ks n) (keys-graph s.name s.services placed))
            (checked-contains (keys s.services) s.services n known.checked);
      follows = λ n d svc found depends.
          order.1 n svc.depends_on d (get-graph s.name s.services n placed found) depends;
    }
  where
    nodes : (n : String) {a b c k : Bool} → a ≡ (b || c) → b ≡ k → (c ≡ true → k ≡ true) → a ≡ k
    nodes n e f g = ground arith
