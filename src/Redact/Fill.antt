-- ===== src/Redact/Fill.antt =====
-- `fill` of src/aisb/redact.py, and what it makes of a text with placeholders.
use aisb.Prelude.{
  ℕ, zero, suc, Bool, not, ◌&&◌, Option, none, some, List, [], ◌∷◌, ◌++◌, all, length, codes, drop,
  eqb, if◌then◌else◌,
}
use aisb.Yaml.Text.{Text, begins, is_empty, head_is, text_eq}
use aisb.Redact.{Labels, placeholder}

-- [^<>]
abbrev is_inner : ℕ → Bool
is_inner c = not (eqb c b'<') && not (eqb c b'>')

-- [^<>]*, as far as it goes
unfoldable pub inner : Text → Text
inner [] = []
inner (c ∷ s) = let rest = inner s in if is_inner c then c ∷ rest else []

abbrev named_if : Text → Text → Option Text
named_if name after = if not (is_empty name) && head_is b'>' after then some name else none

-- the name of a placeholder that starts here
name_here : Text → Option Text
unfolding inner
name_here s =
    let name = inner (drop 10 s) in
    if begins s (codes "<redacted:") then named_if name (drop (length name) (drop 10 s)) else none

unfoldable pub value_of : Labels → Text → Option Text
value_of [] name = none
value_of ((k, v) ∷ supplied) name = if text_eq k name then some v else value_of supplied name

abbrev Filled : Type 0
Filled = Text × List Text

abbrev keep_char : ℕ → Filled → Filled
keep_char c (out, missing) = (c ∷ out, missing)

abbrev put_value : Option Text → Text → Filled → Filled
put_value (some v) name (out, missing) = (v ++ out, missing)
put_value none name (out, missing) = (placeholder name ++ out, name ∷ missing)

-- a placeholder but for its first character
abbrev after_first : Text → Text
after_first name = codes "redacted:" ++ name ++ b'>' ∷ []

-- The substitution, after `skip` more characters.
fill_from : Labels → ℕ → Text → Filled
unfolding value_of placeholder
fill_from supplied skip [] = ([], [])
fill_from supplied (suc skip) (c ∷ s) = fill_from supplied skip s
fill_from supplied zero (c ∷ s) = elim (name_here (c ∷ s)) [
  | none ↦ keep_char c (fill_from supplied 0 s)
  | some name ↦
      put_value (value_of supplied name) name (fill_from supplied (length (after_first name)) s)
]

unfoldable pub fill : Text → Labels → Filled
unfolding fill_from name_here
fill value supplied = fill_from supplied 0 value

-- A text as it was masked: plain texts, and the names of placeholders.
pub data Piece : Type 0 where
  plain masked : Text → Piece

abbrev is_piece : Piece → Bool
is_piece (plain t) = all (λ c. not (eqb c b'<')) t
is_piece (masked name) = not (is_empty name) && all is_inner name

unfoldable pub written : List Piece → Text
written [] = []
written (plain t ∷ pieces) = t ++ written pieces
written (masked name ∷ pieces) = placeholder name ++ written pieces

-- the text with the values that are supplied, and the names that are not
unfoldable pub filled : Labels → List Piece → Filled
filled supplied [] = ([], [])
filled supplied (plain t ∷ pieces) =
    let (out, missing) = filled supplied pieces in (t ++ out, missing)
filled supplied (masked name ∷ pieces) =
    put_value (value_of supplied name) name (filled supplied pieces)
