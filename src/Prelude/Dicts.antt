-- ===== src/Prelude/Dicts.antt =====
-- Python's dicts with string keys, as association lists in order of insertion, and sets of
-- strings, as lists that hold no item twice.
use Prim.Native.String.{String}
use mathlib.Core.Path.{◌≡◌, refl}
use mathlib.Core.Bool.{Bool, false, not, ◌&&◌, ◌||◌}
use mathlib.Core.Option.{Option, none, some}
use mathlib.Core.List.{List, [], ◌∷◌, ◌++◌, map}
use native.Mathlib.Omega.{arith}
use text.Mathlib.Text.{◌==◌}
use text.Mathlib.TextEquality.{eq_iff}
use aisb.Prelude.Tests.{if◌then◌else◌}

abbrev pub Dict {ℓ} : Type ℓ → Type ℓ
Dict V = List (String × V)

module _ {ℓ} {V : Type ℓ} where
  -- d.get(k)
  unfoldable pub get : Dict V → String → Option V
  get [] k = none
  get ((j, v) ∷ d) k = if j == k then some v else get d k

  -- d[k] = v
  unfoldable pub put : Dict V → String → V → Dict V
  put [] k v = (k, v) ∷ []
  put ((j, w) ∷ d) k v = if j == k then (j, v) ∷ d else (j, w) ∷ put d k v

  abbrev pub keys : Dict V → List String
  keys = map (λ e. e.0)

  pub get-put :
      (entries : Dict V) (set asked : String) (new : V)
      → get (put entries set new) asked ≡ (if set == asked then some new else get entries asked)
  unfolding get put
  get-put [] set asked new = refl
  get-put ((i, w) ∷ entries) set asked new =
      ground (arith, eq_iff i set, eq_iff i asked, eq_iff set asked, get-put entries set asked new)

-- x in xs
unfoldable pub contains : List String → String → Bool
contains [] x = false
contains (y ∷ ys) x = y == x || contains ys x

-- xs & ys, xs - ys and xs | ys
unfoldable pub inter : List String → List String → List String
inter [] ys = []
inter (x ∷ xs) ys = if contains ys x then x ∷ inter xs ys else inter xs ys

unfoldable pub minus : List String → List String → List String
minus [] ys = []
minus (x ∷ xs) ys = if contains ys x then minus xs ys else x ∷ minus xs ys

unfoldable pub union : List String → List String → List String
union xs ys = xs ++ minus ys xs

pub contains-append :
    (xs ys : List String) (a : String) → contains (xs ++ ys) a ≡ (contains xs a || contains ys a)
unfolding contains
contains-append [] ys a = refl
contains-append (x ∷ xs) ys a = ground (arith, contains-append xs ys a)

pub contains-inter :
    (xs ys : List String) (a : String) → contains (inter xs ys) a ≡ (contains xs a && contains ys a)
unfolding contains inter
contains-inter [] ys a = refl
contains-inter (x ∷ xs) ys a = ground (arith, contains-inter xs ys a, eq_iff x a)

pub contains-minus :
    (xs ys : List String) (a : String)
    → contains (minus xs ys) a ≡ (contains xs a && not (contains ys a))
unfolding contains minus
contains-minus [] ys a = refl
contains-minus (x ∷ xs) ys a = ground (arith, contains-minus xs ys a, eq_iff x a)

pub contains-union :
    (xs ys : List String) (a : String) → contains (union xs ys) a ≡ (contains xs a || contains ys a)
unfolding union
contains-union xs ys a = ground (arith, contains-append xs (minus ys xs) a, contains-minus ys xs a)

pub ruleset set_laws = (contains-append, contains-inter, contains-minus, contains-union)
