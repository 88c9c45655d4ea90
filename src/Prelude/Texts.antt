-- ===== src/Prelude/Texts.antt =====
-- Python's operations on texts that the code uses, over code points.
use Prim.Native.Nat.{ℕ, zero, suc, ◌/◌, ◌%◌}
use Prim.Native.Char.{code}
use Prim.Native.String
use Prim.Native.String.{String}
use mathlib.Core.Bool.{Bool, true, false, ◌&&◌, ◌||◌}
use mathlib.Core.List.{List, [], ◌∷◌}
use text.Mathlib.Text.{◌==◌, starts_with, is_le}
use mathlib.Core.Path.{◌≡◌, refl}
use native.Mathlib.Omega.{arith}
use aisb.Prelude.Dicts.{contains}
use aisb.Prelude.Lists.{is_empty}
use aisb.Prelude.Tests.{ltb, leb, eqb, if◌then◌else◌}

digit : ℕ → String
digit d =
    if eqb d 0
    then "0"
    else if eqb d 1
    then "1"
    else if eqb d 2
    then "2"
    else if eqb d 3
    then "3"
    else if eqb d 4
    then "4"
    else if eqb d 5
    then "5"
    else if eqb d 6
    then "6"
    else if eqb d 7
    then "7"
    else if eqb d 8
    then "8"
    else "9"

decimal_from : ℕ → ℕ → String
decimal_from zero n = ""
decimal_from (suc fuel) n =
    let rest = String.◌++◌ (decimal_from fuel (n / 10)) (digit (n % 10)) in
    if ltb n 10 then digit n else rest

-- str(n), for a natural number: a number has no more digits than itself and one more
unfoldable pub decimal : ℕ → String
unfolding decimal_from digit
decimal n = decimal_from (suc n) n

abbrev pub codes : String → List ℕ
codes String.[] = []
codes (String.◌∷◌ c s) = code c ∷ codes s

-- `str.isspace` of one character
is_space : ℕ → Bool
is_space c =
    (leb 9 c && leb c 13)
    || (leb 28 c && leb c 32)
    || eqb c 133
    || eqb c 160
    || eqb c 5760
    || (leb 8192 c && leb c 8202)
    || eqb c 8232
    || eqb c 8233
    || eqb c 8239
    || eqb c 8287
    || eqb c 12288

lstrip : String → String
lstrip String.[] = ""
lstrip (String.◌∷◌ c s) = if is_space (code c) then lstrip s else String.◌∷◌ c s

rstrip : String → String
rstrip String.[] = ""
rstrip (String.◌∷◌ c s) =
    let rest = rstrip s in if rest == "" && is_space (code c) then "" else String.◌∷◌ c rest

-- s.strip()
unfoldable pub strip : String → String
unfolding lstrip rstrip is_space
strip s = rstrip (lstrip s)

-- c in s, for one character
unfoldable pub has_code : ℕ → String → Bool
has_code k String.[] = false
has_code k (String.◌∷◌ c s) = eqb (code c) k || has_code k s

-- s.partition(c), for one character: what stands before, whether it was found, and what follows
pub record Partition : Type 0 where
  pub before : String
  pub found : Bool
  pub after : String

unfoldable pub partition : ℕ → String → Partition
partition k String.[] = record { before = ""; found = false; after = "" }
partition k (String.◌∷◌ c s) =
    let rest = partition k s in
    if eqb (code c) k
    then record { before = ""; found = true; after = s }
    else record { before = String.◌∷◌ c rest.before; found = rest.found; after = rest.after }

-- s[1:]
abbrev pub tail_of : String → String
tail_of String.[] = ""
tail_of (String.◌∷◌ c s) = s

-- ",".join(xs)
unfoldable pub join_comma : List String → String
join_comma [] = ""
join_comma (x ∷ []) = x
join_comma (x ∷ y ∷ xs) = String.◌++◌ x (String.◌++◌ "," (join_comma (y ∷ xs)))

abbrev pub str_le : String → String → Bool
str_le s t = is_le (String.compare s t)

insert_sorted : String → List String → List String
insert_sorted x [] = x ∷ []
insert_sorted x (y ∷ ys) = if str_le x y then x ∷ y ∷ ys else y ∷ insert_sorted x ys

-- sorted(xs)
unfoldable pub sorted : List String → List String
unfolding insert_sorted
sorted [] = []
sorted (x ∷ xs) = insert_sorted x (sorted xs)

is_empty-insert_sorted : (x : String) (xs : List String) → is_empty (insert_sorted x xs) ≡ false
unfolding insert_sorted
is_empty-insert_sorted x [] = refl
is_empty-insert_sorted x (y ∷ ys) = ground arith

pub is_empty-sorted : (xs : List String) → is_empty (sorted xs) ≡ is_empty xs
unfolding sorted
is_empty-sorted [] = refl
is_empty-sorted (x ∷ xs) = is_empty-insert_sorted x (sorted xs)

contains-insert_sorted :
    (x : String) (xs : List String) (n : String)
    → contains (insert_sorted x xs) n ≡ (x == n || contains xs n)
unfolding contains insert_sorted
contains-insert_sorted x [] n = refl
contains-insert_sorted x (y ∷ ys) n = ground (arith, contains-insert_sorted x ys n)

pub contains-sorted : (xs : List String) (n : String) → contains (sorted xs) n ≡ contains xs n
unfolding contains sorted
contains-sorted [] n = refl
contains-sorted (x ∷ xs) n =
    ground (arith, contains-insert_sorted x (sorted xs) n, contains-sorted xs n)

-- needle in s
unfoldable pub has_text : String → String → Bool
has_text needle String.[] = needle == ""
has_text needle (String.◌∷◌ c s) = starts_with (String.◌∷◌ c s) needle || has_text needle s

-- s.rsplit(c, 1)[-1]: what follows the last c, or all of it
unfoldable pub after_last : ℕ → String → String
unfolding has_code
after_last k String.[] = ""
after_last k (String.◌∷◌ c s) =
    let rest = after_last k s in
    if has_code k s then rest else if eqb (code c) k then s else String.◌∷◌ c s
