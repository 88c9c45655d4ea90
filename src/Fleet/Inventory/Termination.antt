-- ===== src/Fleet/Inventory/Termination.antt =====
-- Groups that are computed from groups: the fuel of the model is enough, since each nested call
-- adds one of the computed groups to `_seen`, and a cycle is an error.
use aisb.Prelude.{
  ℕ, zero, suc, ◌<◌, ◌≤◌, String, ◌≡◌, ◌≢◌, refl, ap, ◌∙◌, inl, inr, true, false, Option, none,
  some, List, [], ◌∷◌, arith, eq_iff, contains, inter, minus, Dict, get, keys, length, Bool-cases,
  tail_of,
}
use aisb.Prelude.Results.{ok, err, ◌>>=◌, Result-cases}
use aisb.Fleet.Selector.{Term, terms_of, plain}
use aisb.Fleet.Inventory.{
  Inventory, out_of_fuel, Names, atom_of, union_of, narrow, start, resolve_terms, resolve,
  known_group, more_members, expr_of, members, enough, members_of, select, selected, hosts_of,
}

minus_mono :
    (xs seen : List String) (g : String) → length (minus xs (g ∷ seen)) ≤ length (minus xs seen)
unfolding minus contains
minus_mono [] seen g = omega arith
minus_mono (x ∷ xs) seen g = ground (arith, minus_mono xs seen g)

minus-shorter :
    (xs seen : List String) (g : String)
    → contains xs g ≡ true
    → contains seen g ≡ false
    → length (minus xs (g ∷ seen)) < length (minus xs seen)
unfolding minus contains
minus-shorter [] seen g h k = cc
minus-shorter (x ∷ xs) seen g h k =
    ground (arith, eq_iff x g, eq_iff g x, minus_mono xs seen g, minus-shorter xs seen g)

keys-contains {ℓ} :
    {V : Type ℓ} (d : Dict V) (k : String) (v : V) → get d k ≡ some v → contains (keys d) k ≡ true
unfolding get contains
keys-contains [] k v h = cc
keys-contains ((j, w) ∷ d) k v h = ground (arith, keys-contains d k v)

minus-nil : (xs : List String) → minus xs [] ≡ xs
unfolding minus contains
minus-nil [] = refl
minus-nil (x ∷ xs) = rw (minus-nil xs)

module _ (inv : Inventory) (mem : String → Names)
    (fine : (g : String) → mem g ≢ err out_of_fuel) where
  atom_of-fueled : (a : String) → atom_of inv mem a ≢ err out_of_fuel
  unfolding atom_of
  atom_of-fueled a = ground (arith, fine (tail_of a))

  union_of-fueled : (ts : List Term) → union_of (atom_of inv mem) ts ≢ err out_of_fuel
  unfolding union_of
  union_of-fueled [] = λ e. cc
  union_of-fueled (t ∷ ts) = ground (arith, atom_of-fueled t.atom, union_of-fueled ts)

  narrow-fueled :
      (ts : List Term) (chosen : List String) → narrow (atom_of inv mem) ts chosen ≢ err out_of_fuel
  unfolding narrow
  narrow-fueled [] chosen = λ e. cc
  narrow-fueled (t ∷ ts) chosen = elim (Result-cases (atom_of inv mem t.atom)) [
    | inr (e, f) ↦ ground (arith, f, atom_of-fueled t.atom, narrow-fueled ts chosen)
    | inl (xs, f) ↦ ground (
      arith,
      f,
      narrow-fueled ts chosen,
      narrow-fueled ts (inter chosen xs),
      narrow-fueled ts (minus chosen xs),
    )
  ]

  start-fueled : (ts : List Term) → start inv (atom_of inv mem) ts ≢ err out_of_fuel
  start-fueled [] = λ e. cc
  start-fueled (t ∷ ts) = union_of-fueled (t ∷ ts)

  resolve_terms-fueled : (ts : List Term) → resolve_terms inv (atom_of inv mem) ts ≢ err out_of_fuel
  resolve_terms-fueled [] = λ e. cc
  resolve_terms-fueled (t ∷ ts) =
      elim (Result-cases (start inv (atom_of inv mem) (plain (t ∷ ts)))) [
        | inl (chosen, f) ↦ rw f (narrow-fueled (t ∷ ts) chosen)
        | inr (e, f) ↦ rw f (λ same. start-fueled (plain (t ∷ ts)) (f ∙ same))
      ]

  resolve-fueled : (expr : String) → resolve inv mem expr ≢ err out_of_fuel
  unfolding resolve
  resolve-fueled expr = resolve_terms-fueled (terms_of expr)

known_group-fueled :
    (inv : Inventory) (group : String) (found : List String)
    → known_group inv group found ≢ err out_of_fuel
known_group-fueled inv group [] = ground arith
known_group-fueled inv group (n ∷ found) = λ e. cc

-- How many computed groups are not yet being computed.
abbrev left : Inventory → List String → ℕ
left inv seen = length (minus (keys inv.groups) seen)

more_members-fueled :
    (nested : Names) (o : Option (List String)) (found : List String)
    → ((terms : List String) → o ≡ some terms → nested ≢ err out_of_fuel)
    → more_members nested o found ≢ err out_of_fuel
more_members-fueled nested none found h = λ e. cc
more_members-fueled nested (some []) found h = λ e. cc
more_members-fueled nested (some (t ∷ ts)) found h = elim (Result-cases nested) [
  | inl (more, f) ↦ rw f (λ e. cc)
  | inr (x, f) ↦ rw f (λ e. h (t ∷ ts) refl (f ∙ e))
]

then_known :
    (inv : Inventory) (group : String) (r : Names)
    → r ≢ err out_of_fuel
    → (r >>= known_group inv group) ≢ err out_of_fuel
then_known inv group (ok found) h = known_group-fueled inv group found
then_known inv group (err e) h = h

members-step :
    (fuel : ℕ) (inv : Inventory) (seen : List String) (group : String)
    → ((terms : List String)
        → get inv.groups group ≡ some terms
        → contains seen group ≡ false
        → resolve inv (λ g. members fuel inv (group ∷ seen) g) (expr_of (get inv.groups group))
          ≢ err out_of_fuel)
    → members (suc fuel) inv seen group ≢ err out_of_fuel
unfolding members
members-step fuel inv seen group nested = elim (Bool-cases (contains seen group)) [
  | inl y ↦ rw y (λ e. cc)
  | inr n ↦ rw n (
      then_known inv group _
        (more_members-fueled _ (get inv.groups group) _ (λ terms e. nested terms e n)))
]

members-fueled :
    (fuel : ℕ) (inv : Inventory) (seen : List String) (group : String)
    → left inv seen < fuel
    → members fuel inv seen group ≢ err out_of_fuel
members-fueled zero inv seen group h = absurd (omega arith)
members-fueled (suc fuel) inv seen group h = members-step fuel inv seen group (λ terms found fresh.
    let smaller =
      minus-shorter (keys inv.groups) seen group (keys-contains inv.groups group terms found)
        fresh in
    resolve-fueled inv (λ g. members fuel inv (group ∷ seen) g)
      (λ g. members-fueled fuel inv (group ∷ seen) g (omega arith))
      (expr_of (get inv.groups group)))

members_of-fueled : (inv : Inventory) (group : String) → members_of inv group ≢ err out_of_fuel
unfolding members_of
members_of-fueled inv group =
    members-fueled (enough inv) inv [] group (rw (minus-nil (keys inv.groups)) (omega arith))

hosts_of-fueled : (inv : Inventory) (ns : List String) → hosts_of inv ns ≢ err out_of_fuel
unfolding hosts_of
hosts_of-fueled inv [] = λ e. cc
hosts_of-fueled inv (n ∷ ns) = ground (arith, hosts_of-fueled inv ns)

selected-fueled :
    (inv : Inventory) (expr : String) (chosen : List String)
    → selected inv expr chosen ≢ err out_of_fuel
selected-fueled inv expr [] = λ e. cc
selected-fueled inv expr (n ∷ chosen) = hosts_of-fueled inv _

-- `select` ends on every inventory, with groups that name one another in a cycle too: with one
-- level of calls for each computed group, and one more, the model's fuel does not run out.
pub select-fueled : (inv : Inventory) (expr : String) → select inv expr ≢ err out_of_fuel
unfolding select
select-fueled inv expr = elim (Result-cases (resolve inv (members_of inv) expr)) [
  | inl (chosen, f) ↦ rw f (selected-fueled inv expr chosen)
  | inr (e, f) ↦ rw f (λ same.
      let why : e ≡ out_of_fuel = cc same in
      resolve-fueled inv (members_of inv) (members_of-fueled inv) expr (f ∙ ap err why))
]
