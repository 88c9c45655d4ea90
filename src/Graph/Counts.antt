-- ===== src/Graph/Counts.antt =====
-- `build` of src/aisb/insights/graph.py: what a counter has counted, whatever its order.
use aisb.Prelude.{
  ℕ, ◌+◌, ◌≡◌, refl, ap, ◌∙◌, Bool, true, false, [], ◌∷◌, arith, eqb_iff, eq_iff, Bool-cases, inl,
  inr, if◌then◌else◌,
}
use aisb.Graph.{Key, Counter, same_key, counted, insert_entry, sorted_entries, key_le}

-- the sum of the entries of a key
unfoldable pub total : Key → Counter → ℕ
total k [] = 0
total k ((j, n) ∷ c) = (if same_key j k then n else 0) + total k c

same_key_eq : (j k l : Key) → same_key j k ≡ true → same_key j l ≡ same_key k l
same_key_eq (a, b, p) (c, d, q) (e, f, r) h = ground (arith, eq_iff a c, eq_iff b d, eqb_iff p q)

one_more :
    (b : Bool) (n t : ℕ)
    → (if b then n + 1 else 0) + t ≡ (if b then 1 else 0) + ((if b then n else 0) + t)
one_more true n t = omega arith
one_more false n t = omega arith

pub total-counted :
    (k j : Key) (c : Counter) → total k (counted j c) ≡ (if same_key j k then 1 else 0) + total k c
unfolding total counted
total-counted k j [] = omega arith
total-counted k j ((i, n) ∷ c) = elim (Bool-cases (same_key i j)) [
  | inl e ↦ rw (e, same_key_eq i j k e) (one_more (same_key j k) n (total k c))
  | inr e ↦ rw e (omega (arith, total-counted k j c))
]

total-insert_entry :
    (k : Key) (x : Key × ℕ) (c : Counter)
    → total k (insert_entry x c) ≡ (if same_key x.0 k then x.1 else 0) + total k c
unfolding total insert_entry
total-insert_entry k x [] = refl
total-insert_entry k x (y ∷ c) = elim (Bool-cases (key_le x.0 y.0)) [
  | inl e ↦ rw e refl
  | inr e ↦ rw e (omega (arith, total-insert_entry k x c))
]

pub total-sorted_entries : (k : Key) (c : Counter) → total k (sorted_entries c) ≡ total k c
unfolding total sorted_entries
total-sorted_entries k [] = refl
total-sorted_entries k (x ∷ c) =
    total-insert_entry k x (sorted_entries c)
    ∙ ap (λ n. (if same_key x.0 k then x.1 else 0) + n) (total-sorted_entries k c)
