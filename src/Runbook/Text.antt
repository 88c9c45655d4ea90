-- ===== src/Runbook/Text.antt =====
-- `render` and `argv_of` of src/aisb/runbooks.py. Which characters are word characters of `re`, and
-- `shlex.split`, are parameters.
use Prim.Native.String
use Prim.Native.Char.{code}
use aisb.Prelude.{
  ℕ, String, Bool, not, ◌&&◌, Option, none, some, List, [], ◌∷◌, ◌==◌, Dict, get, keys, contains,
  eqb, strip, sorted, if◌then◌else◌,
}
use aisb.Prelude.Results.{Result, ok, err, ◌>>=◌}

-- What a step's text, or the state of its run, may raise.
pub data Error : Type 0 where
  undefined_variables : List String → Error
  bad_quoting : String → Error
  missing_step : String → Error

pub record Words : Type 0 where
  pub is_word : ℕ → Bool
  pub split : String → Result Error (List String)

-- A template is text and variables, in a row.
pub data Piece : Type 0 where
  plain variable : String → Piece

abbrev snoc : String → String → String
snoc s t = String.◌++◌ s t

-- `_VAR` found from left to right; after a "{" (code 123), the word that follows it
unfoldable pub pieces : (ℕ → Bool) → String → Option String → List Piece
pieces is_word String.[] none = []
pieces is_word String.[] (some w) = plain (snoc "{" w) ∷ []
pieces is_word (String.◌∷◌ c s) none =
    let opened = pieces is_word s (some "") in
    let rest = pieces is_word s none in
    if eqb (code c) 123 then opened else plain (String.◌∷◌ c "") ∷ rest
pieces is_word (String.◌∷◌ c s) (some w) =
    let longer = pieces is_word s (some (snoc w (String.◌∷◌ c ""))) in
    let reopened = pieces is_word s (some "") in
    let rest = pieces is_word s none in
    if is_word (code c)
    then longer
    else if eqb (code c) 125 && not (w == "")
    then variable w ∷ rest
    else if eqb (code c) 123
    then plain (snoc "{" w) ∷ reopened
    else plain (snoc "{" (snoc w (String.◌∷◌ c ""))) ∷ rest

-- the names that are not defined, each once
unfoldable pub missing_in : Dict String → List Piece → List String
missing_in vars [] = []
missing_in vars (plain t ∷ ps) = missing_in vars ps
missing_in vars (variable n ∷ ps) =
    let rest = missing_in vars ps in
    if contains (keys vars) n then rest else if contains rest n then rest else n ∷ rest

abbrev pub value_of : Dict String → String → String
value_of vars n = elim (get vars n) [ some v ↦ v | none ↦ "" ]

unfoldable pub filled : Dict String → List Piece → String
unfolding get
filled vars [] = ""
filled vars (plain t ∷ ps) = snoc t (filled vars ps)
filled vars (variable n ∷ ps) = snoc (value_of vars n) (filled vars ps)

abbrev pub unless_missing : List String → String → Result Error String
unless_missing [] text = ok text
unless_missing (n ∷ ns) text = err (undefined_variables (sorted (n ∷ ns)))

unfoldable pub render : Words → String → Dict String → Result Error String
unfolding pieces missing_in filled
render words template vars =
    let ps = pieces words.is_word template none in
    unless_missing (missing_in vars ps) (filled vars ps)

-- line[5:] after "aisb "
abbrev pub without_aisb : String → String
without_aisb (String.◌∷◌ a (String.◌∷◌ i (String.◌∷◌ s (String.◌∷◌ b (String.◌∷◌ space rest))))) =
    if eqb (code a) 97
      && eqb (code i) 105
      && eqb (code s) 115
      && eqb (code b) 98
      && eqb (code space) 32
    then rest
    else String.◌∷◌ a (String.◌∷◌ i (String.◌∷◌ s (String.◌∷◌ b (String.◌∷◌ space rest))))
without_aisb line = line

unfoldable pub argv_of : Words → String → Dict String → Result Error (List String)
unfolding render strip
argv_of words template vars = do
  line ← render words template vars
  words.split (without_aisb (strip line))
