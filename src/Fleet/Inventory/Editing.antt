-- ===== src/Fleet/Inventory/Editing.antt =====
-- `regroup` and `upsert` change what they name and nothing else.
use aisb.Prelude.{
  String, ◌≡◌, refl, inl, inr, Bool, false, not, ◌&&◌, ◌||◌, none, some, List, [], ◌∷◌, ◌++◌, arith,
  eq_iff, ◌==◌, contains, contains-append, contains-minus, minus, Dict, get, put, get-put,
  Option-cases, if◌then◌else◌,
}
use aisb.Prelude.Results.{ok, Result-cases}
use aisb.Fleet.Inventory.{Host, Inventory, dedupe, join_group, leave_group, regroup}

contains-dedupe : (xs : List String) (a : String) → contains (dedupe xs) a ≡ contains xs a
unfolding dedupe contains
contains-dedupe [] a = refl
contains-dedupe (x ∷ xs) a =
    ground (arith, contains-minus (dedupe xs) (x ∷ []) a, contains-dedupe xs a)

-- whether the host of that name is in the group
abbrev pub in_group : Dict Host → String → String → Bool
in_group hosts group n = elim (get hosts n) [ none ↦ false | some h ↦ contains h.groups group ]

in_group-put :
    (hosts : Dict Host) (m : String) (x : Host) (g n : String)
    → in_group (put hosts m x) g n ≡ (if m == n then contains x.groups g else in_group hosts g n)
in_group-put hosts m x g n = ground (arith, get-put hosts m n x)

join_group-in :
    (group : String) (ns : List String) (hosts after : Dict Host) (g n : String)
    → join_group group ns hosts ≡ ok after
    → in_group after g n ≡ (in_group hosts g n || (group == g && contains ns n))
unfolding join_group contains
join_group-in group [] hosts after g n h =
    let same : hosts ≡ after = cc h in rw (← same) (ground arith)
join_group-in group (m ∷ ns) hosts after g n h = elim (Option-cases (get hosts m)) [
  | inl f ↦ ground (arith, f)
  | inr (x, f) ↦
      let x' : Host = record x { groups = dedupe (x.groups ++ group ∷ []) } in
      ground (
        arith,
        f,
        eq_iff m n,
        join_group-in group ns (put hosts m x') after g n,
        in_group-put hosts m x' g n,
        contains-dedupe (x.groups ++ group ∷ []) g,
        contains-append x.groups (group ∷ []) g,
      )
]

leave_group-in :
    (group : String) (ns : List String) (hosts after : Dict Host) (g n : String)
    → leave_group group ns hosts ≡ ok after
    → in_group after g n ≡ (in_group hosts g n && not (group == g && contains ns n))
unfolding leave_group contains
leave_group-in group [] hosts after g n h =
    let same : hosts ≡ after = cc h in rw (← same) (ground arith)
leave_group-in group (m ∷ ns) hosts after g n h = elim (Option-cases (get hosts m)) [
  | inl f ↦ ground (arith, f)
  | inr (x, f) ↦
      let x' : Host = record x { groups = minus x.groups (group ∷ []) } in
      ground (
        arith,
        f,
        eq_iff m n,
        leave_group-in group ns (put hosts m x') after g n,
        in_group-put hosts m x' g n,
        contains-minus x.groups (group ∷ []) g,
      )
]

-- If `regroup group add remove` does not raise, a host is in a group exactly if it was in it or was added to it,
-- and was not removed from it: removal wins, and other groups stay as they were.
pub regroup_exact :
    (inv after : Inventory) (group : String) (add remove : List String) (g n : String)
    → regroup inv group add remove ≡ ok after
    → in_group after.hosts g n ≡ (
        (in_group inv.hosts g n || (group == g && contains add n))
        && not (group == g && contains remove n))
unfolding regroup
regroup_exact inv after group add remove g n h =
    elim (Result-cases (join_group group add inv.hosts)) [
      | inr (e, f) ↦ ground (arith, f)
      | inl (joined, f) ↦ elim (Result-cases (leave_group group remove joined)) [
        | inr (e, k) ↦ ground (arith, f, k)
        | inl (left, k) ↦ ground (
          arith,
          f,
          k,
          join_group-in group add inv.hosts joined g n f,
          leave_group-in group remove joined left g n k,
        )
      ]
    ]
