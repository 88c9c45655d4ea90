-- ===== src/Fleet/Inventory/Selection.antt =====
-- What a selector means, whatever the order of its terms.
use aisb.Prelude.{
  contains-sorted, eq_iff, Option-cases, String, ◌≡◌, ap, ◌∙◌, Bool, true, false, not, ◌&&◌, List,
  [], ◌∷◌, arith, contains, inter, minus, contains-inter, contains-minus, contains-union, Dict, get,
  map, sorted, some, keys, any, all, inl, inr,
}
use aisb.Prelude.Results.{ok, err, Result-cases, >>=-eq-ok}
use aisb.Fleet.Selector.{either, both, except, and_not, Term, terms_of, plain}
use aisb.Fleet.Inventory.{
  hosts_of, selected, Host, Inventory, Names, atom_of, union_of, narrow, start, resolve_terms,
  resolve, members_of, select,
}

module _ (atom : String → Names) (n : String) where
  -- `n` is in the set of the atom
  abbrev pub in_atom : String → Bool
  in_atom a = elim (atom a) [ ok found ↦ contains found n | err e ↦ false ]

  -- What a term asks of `n`, after the plain terms have chosen.
  abbrev pub permits : Term → Bool
  permits t = elim t.op [
    | either ↦ true
    | both ↦ in_atom t.atom
    | except ↦ not (in_atom t.atom)
    | and_not ↦ not (in_atom t.atom)
  ]

  -- `n` is in one of the plain terms, or there is none
  abbrev pub chosen_by : List String → List Term → Bool
  chosen_by hosts [] = contains hosts n
  chosen_by hosts (t ∷ ts) = any (λ u. in_atom u.atom) (t ∷ ts)

  union_of-contains :
      (ts : List Term) (found : List String)
      → union_of atom ts ≡ ok found
      → contains found n ≡ any (λ u. in_atom u.atom) ts
  unfolding union_of contains
  union_of-contains [] found h = ground arith
  union_of-contains (t ∷ ts) found h = elim (Result-cases (atom t.atom)) [
    | inr (e, f) ↦ ground (arith, f)
    | inl (xs, f) ↦ elim (Result-cases (union_of atom ts)) [
      | inr (e, g) ↦ ground (arith, f, g)
      | inl (ys, g) ↦ ground (arith, f, g, union_of-contains ts ys g, contains-union xs ys n)
    ]
  ]

  narrow-contains :
      (ts : List Term) (chosen found : List String)
      → narrow atom ts chosen ≡ ok found
      → contains found n ≡ (contains chosen n && all permits ts)
  unfolding narrow
  narrow-contains [] chosen found h = ground arith
  narrow-contains (t ∷ ts) chosen found h = elim (Result-cases (atom t.atom)) [
    | inr (e, f) ↦ ground (arith, f, narrow-contains ts chosen found)
    | inl (xs, f) ↦ ground (
      arith,
      f,
      narrow-contains ts chosen found,
      narrow-contains ts (inter chosen xs) found,
      narrow-contains ts (minus chosen xs) found,
      contains-inter chosen xs n,
      contains-minus chosen xs n,
    )
  ]

  start-contains :
      (inv : Inventory) (ts : List Term) (chosen : List String)
      → start inv atom ts ≡ ok chosen
      → contains chosen n ≡ chosen_by (keys inv.hosts) ts
  start-contains inv [] chosen h = ground arith
  start-contains inv (t ∷ ts) chosen h = union_of-contains (t ∷ ts) chosen h

  resolve_terms-contains :
      (inv : Inventory) (ts : List Term) (found : List String)
      → resolve_terms inv atom ts ≡ ok found
      → contains found n ≡ (chosen_by (keys inv.hosts) (plain ts) && all permits ts)
  resolve_terms-contains inv [] found h = cc
  resolve_terms-contains inv (t ∷ ts) found h =
      let (chosen, started, narrowed) =
        >>=-eq-ok (start inv atom (plain (t ∷ ts))) (narrow atom (t ∷ ts)) h in
      narrow-contains (t ∷ ts) chosen found narrowed
      ∙ ap (λ b. b && all permits (t ∷ ts)) (start-contains inv (plain (t ∷ ts)) chosen started)

-- The name is selected by the terms: by a plain term, or by there being none, by every term behind
-- `&`, and by no term behind `!`.
abbrev pub selects : Inventory → String → String → Bool
selects inv expr n =
    let atom = atom_of inv (members_of inv) in
    chosen_by atom n (keys inv.hosts) (plain (terms_of expr))
    && all (permits atom n) (terms_of expr)

-- Each key of the hosts is the name of its host.
abbrev pub IsNamed : Dict Host → Type 0
IsNamed [] = Unit
IsNamed ((n, h) ∷ hosts) = (h.name ≡ n) × IsNamed hosts

get-name :
    (hosts : Dict Host) (n : String) (h : Host) → IsNamed hosts → get hosts n ≡ some h → h.name ≡ n
unfolding get
get-name [] n h named found = cc
get-name ((j, v) ∷ hosts) n h (here, rest) found =
    ground (arith, eq_iff j n, get-name hosts n h rest)

abbrev pub names : List Host → List String
names = map (λ h. h.name)

hosts_of-names :
    (inv : Inventory) (ns : List String) (hs : List Host)
    → IsNamed inv.hosts
    → hosts_of inv ns ≡ ok hs
    → names hs ≡ ns
unfolding hosts_of
hosts_of-names inv [] hs named h = ground arith
hosts_of-names inv (n ∷ ns) hs named h = elim (Option-cases (get inv.hosts n)) [
  | inl f ↦ ground (arith, f)
  | inr (x, f) ↦ elim (Result-cases (hosts_of inv ns)) [
    | inr (e, g) ↦ ground (arith, f, g)
    | inl (rest, g) ↦
        ground (arith, f, g, get-name inv.hosts n x named f, hosts_of-names inv ns rest named g)
  ]
]

selected-contains :
    (inv : Inventory) (expr : String) (chosen : List String) (hs : List Host) (n : String)
    → IsNamed inv.hosts
    → selected inv expr chosen ≡ ok hs
    → contains (names hs) n ≡ contains chosen n
selected-contains inv expr [] hs n named h = cc
selected-contains inv expr (c ∷ cs) hs n named h =
    rw (hosts_of-names inv (sorted (c ∷ cs)) hs named h) (contains-sorted (c ∷ cs) n)

resolve-contains :
    (inv : Inventory) (members : String → Names) (expr n : String) (found : List String)
    → resolve inv members expr ≡ ok found
    → contains found n ≡ (
        chosen_by (atom_of inv members) n (keys inv.hosts) (plain (terms_of expr))
        && all (permits (atom_of inv members) n) (terms_of expr))
unfolding resolve
resolve-contains inv members expr n found h =
    resolve_terms-contains (atom_of inv members) n inv (terms_of expr) found h

-- In an inventory that holds each host under its own name, the hosts that `select` returns, if it
-- returns, are exactly those that the terms select, whatever their order: by a plain term or, with no
-- plain term, all; by every `&` term; by no `!` term.
pub select_exact :
    (inv : Inventory) (expr : String) (hs : List Host) (n : String)
    → IsNamed inv.hosts
    → select inv expr ≡ ok hs
    → contains (names hs) n ≡ selects inv expr n
unfolding select
select_exact inv expr hs n named h =
    let (chosen, resolved, kept) =
      >>=-eq-ok (resolve inv (members_of inv) expr) (selected inv expr) h in
    selected-contains inv expr chosen hs n named kept
    ∙ resolve-contains inv (members_of inv) expr n chosen resolved
