-- ===== src/Glob.antt =====
-- Python's `fnmatch.fnmatchcase`, which selectors (src/aisb/fleet/inventory.py) and policy rules
-- (src/aisb/policy.py) match names with, over code points.
mod Tests
use aisb.Prelude.{
  ℕ, zero, suc, length, String, Bool, true, false, not, ◌&&◌, ◌||◌, Option, none, some, List, [],
  ◌∷◌, eqb, leb, any, codes, if◌then◌else◌,
}

-- `[...]` holds ranges of code points, and may be negated.
pub data Item : Type 0 where
  star one : Item
  lit : ℕ → Item
  set : Bool → List (ℕ × ℕ) → Item

-- what stands up to the closing bracket, and what follows it
abbrev pub Cut : Type 0
Cut = Option (List ℕ × List ℕ)

abbrev cons_cut : ℕ → Cut → Cut
cons_cut c none = none
cons_cut c (some (inside, rest)) = some (c ∷ inside, rest)

close : List ℕ → Cut
close [] = none
close (c ∷ s) = if eqb c b']' then some ([], s) else cons_cut c (close s)

-- A bracket that stands first is a member of the set.
close_first : List ℕ → Cut
close_first [] = none
close_first (c ∷ s) = cons_cut c (close s)

cut_class : List ℕ → Cut
cut_class [] = none
cut_class (c ∷ s) = if eqb c b'!' then cons_cut c (close_first s) else close_first (c ∷ s)

spans : List ℕ → List (ℕ × ℕ)
spans (a ∷ d ∷ b ∷ s) = if eqb d b'-' then (a, b) ∷ spans s else (a, a) ∷ spans (d ∷ b ∷ s)
spans (a ∷ s) = (a, a) ∷ spans s
spans [] = []

class_item : List ℕ → Item
class_item [] = set false []
class_item (c ∷ s) = if eqb c b'!' then set true (spans s) else set false (spans (c ∷ s))

-- `translate`, on fuel: each round drops a character at least
compile : ℕ → List ℕ → List Item
compile f [] = []
compile zero (c ∷ s) = []
compile (suc f) (c ∷ s) =
    let rest = compile f s in
    if eqb c b'*'
    then star ∷ rest
    else if eqb c b'?'
    then one ∷ rest
    else if eqb c b'['
    then (elim (cut_class s) [
      | none ↦ lit c ∷ rest
      | some (inside, after) ↦ class_item inside ∷ compile f after
    ])
    else lit c ∷ rest

accepts : Item → ℕ → Bool
accepts star c = true
accepts one c = true
accepts (lit k) c = eqb k c
accepts (set false rs) c = any (λ r. leb r.0 c && leb c r.1) rs
accepts (set true rs) c = not (any (λ r. leb r.0 c && leb c r.1) rs)

matches : List Item → List ℕ → Bool
matches [] [] = true
matches [] (c ∷ s) = false
matches (star ∷ p) [] = matches p []
matches (star ∷ p) (c ∷ s) = matches p (c ∷ s) || matches (star ∷ p) s
matches (i ∷ p) [] = false
matches (i ∷ p) (c ∷ s) = accepts i c && matches p s

-- fnmatch.fnmatchcase(name, pattern)
unfoldable pub fnmatch : String → String → Bool
unfolding compile class_item spans cut_class close_first close accepts matches
fnmatch name pattern = matches (compile (length (codes pattern)) (codes pattern)) (codes name)
