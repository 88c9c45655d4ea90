-- ===== src/Session/Exact.antt =====
-- What `compare` of src/aisb/insights/snapshot.py tells, name by name.
use mathlib.Core.Path.{subst}
use aisb.Prelude.{
  and_true, String, Bool, true, false, not, ◌&&◌, ◌||◌, ◌≡◌, refl, sym, ap, ◌∙◌, ◌↔◌, inl, inr,
  Option, none, List, [], ◌∷◌, ◌==◌, eq_iff, arith, map, keep, Dict, get, keys, contains,
  contains-sorted, contains-minus, contains-inter, contains-union, inter, minus, union, sorted,
  Bool-cases, if◌then◌else◌,
}
use aisb.Session.Snapshot.{
  Kind, Object, Objects, Snapshot, Change, change_of, delta, changed_from, fields, differs, compare,
}

abbrev is_some_entry {ℓ} : {A : Type ℓ} → List A → Bool
is_some_entry [] = false
is_some_entry (x ∷ xs) = true

abbrev change_name : Change → String
change_name c = c.name

contains-change_of :
    (kind : Kind) (name : String) (ds : Dict (Option String × Option String)) (rest : List Change)
    (n : String)
    → contains (map change_name (change_of kind name ds rest)) n
      ≡ ((name == n && is_some_entry ds) || contains (map change_name rest) n)
unfolding contains
contains-change_of kind name [] rest n = ground arith
contains-change_of kind name (d ∷ ds) rest n = ground arith

full_same :
    (before after : Objects) (name n : String)
    → (name == n) ≡ true
    → is_some_entry (delta (fields before name) (fields after name))
      ≡ is_some_entry (delta (fields before n) (fields after n))
full_same before after name n same =
    ap (λ m. is_some_entry (delta (fields before m) (fields after m))) ((eq_iff name n).0 same)

contains-changed_from :
    (kind : Kind) (before after : Objects) (names : List String) (n : String)
    → contains (map change_name (changed_from kind before after names)) n
      ≡ (contains names n && is_some_entry (delta (fields before n) (fields after n)))
unfolding changed_from contains
contains-changed_from kind before after [] n = refl
contains-changed_from kind before after (name ∷ names) n =
    contains-change_of kind name (delta (fields before name) (fields after name))
      (changed_from kind before after names) n
    ∙ ground (arith, full_same before after name n, contains-changed_from kind before after names n)

keep_some :
    (hit : String → Bool) (xs : List String)
    → is_some_entry (keep hit xs) ≡ true
    → (f : String) × (hit f ≡ true)
keep_some hit [] full = cc
keep_some hit (x ∷ xs) full = elim (Bool-cases (hit x)) [
  | inl hits ↦ (x, hits)
  | inr misses ↦
      keep_some hit xs
        (subst (λ b. is_some_entry (if b then x ∷ keep hit xs else keep hit xs) ≡ true) misses full)
]

keep_full :
    (hit : String → Bool) (xs : List String) (f : String)
    → hit f ≡ true
    → contains xs f ≡ true
    → is_some_entry (keep hit xs) ≡ true
unfolding contains
keep_full hit [] f hits within = cc
keep_full hit (x ∷ xs) f hits within = ground (arith, eq_iff x f, keep_full hit xs f hits)

get-none : (o : Object) (f : String) → contains (keys o) f ≡ false → get o f ≡ none
unfolding contains get
get-none [] f out = refl
get-none ((k, v) ∷ o) f out = ground (arith, get-none o f)

is_some_entry-map {ℓ κ} :
    {A : Type ℓ} {B : Type κ} (g : A → B) (xs : List A)
    → is_some_entry (map g xs) ≡ is_some_entry xs
is_some_entry-map g [] = refl
is_some_entry-map g (x ∷ xs) = refl

differs_within :
    (before after : Object) (f : String)
    → differs before after f ≡ true
    → (contains (keys after) f || contains (keys before) f) ≡ true
differs_within before after f different = ground (arith, get-none before f, get-none after f)

-- the objects differ in a field
delta_some :
    (before after : Object)
    → is_some_entry (delta before after) ≡ true
    → (f : String) × (differs before after f ≡ true)
unfolding delta
delta_some before after full =
    keep_some (differs before after) _ (sym (is_some_entry-map _ _) ∙ full)

delta_full :
    (before after : Object) (f : String)
    → differs before after f ≡ true
    → is_some_entry (delta before after) ≡ true
unfolding delta
delta_full before after f different =
    is_some_entry-map _ _
    ∙ keep_full (differs before after) (sorted (union (keys after) (keys before))) f different (
        contains-sorted (union (keys after) (keys before)) f
        ∙ contains-union (keys after) (keys before) f
        ∙ differs_within before after f different)

and_both : (a b : Bool) → a ≡ true → b ≡ true → (a && b) ≡ true
and_both a b h k = ground arith

-- For each kind and name: it is among the added exactly if the second snapshot has it and the first
-- does not, among the removed exactly if it is the other way round, and among the changed exactly if
-- both have it and a field of it differs.
pub compare_exact :
    (before after : Snapshot) (kind : Kind) (n : String)
    → (contains ((compare before after).differences kind).added n
        ≡ (contains (keys (after.objects kind)) n && not (contains (keys (before.objects kind)) n)))
      × (contains ((compare before after).differences kind).removed n ≡ (
          contains (keys (before.objects kind)) n && not (contains (keys (after.objects kind)) n)))
      × ((contains
              (map (λ (c : Change). c.name) ((compare before after).differences kind).changed)
              n
            ≡ true)
          ↔ ((contains (keys (after.objects kind)) n && contains (keys (before.objects kind)) n)
              ≡ true)
            × ((f : String) × (differs
                    (fields (before.objects kind) n)
                    (fields (after.objects kind) n)
                    f
                  ≡ true)))
unfolding compare
compare_exact before after kind n =
    let a = keys (after.objects kind) in
    let b = keys (before.objects kind) in
    let common = sorted (inter a b) in
    let told = contains-changed_from kind (before.objects kind) (after.objects kind) common n in
    let both = contains-sorted (inter a b) n ∙ contains-inter a b n in
    let old = fields (before.objects kind) n in
    let new = fields (after.objects kind) n in
    (
      contains-sorted (minus a b) n ∙ contains-minus a b n,
      contains-sorted (minus b a) n ∙ contains-minus b a n,
      (
        (λ listed. (
          sym both ∙ (and_true _ _ (sym told ∙ listed)).0,
          delta_some old new (and_true _ _ (sym told ∙ listed)).1,
        )),
        (λ (common, (f, different)).
            told ∙ and_both _ _ (both ∙ common) (delta_full old new f different)),
      ),
    )
