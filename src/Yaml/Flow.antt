-- ===== src/Yaml/Flow.antt =====
-- `scalar`, `_flow` and `_split_key` of src/aisb/yamlish.py. `scalar` calls `_flow`, which calls
-- `scalar` for its items: a text of n characters has fuel for n + 2 such calls and turns.
use aisb.Prelude.{
  ℕ, zero, suc, Bool, true, false, not, ◌&&◌, ◌||◌, Option, none, some, [], ◌∷◌, ◌++◌, codes,
  length, eqb, if◌then◌else◌,
}
use aisb.Prelude.Results.{Result, ok, err, ◌>>=◌}
use aisb.Yaml.Text.{
  Text, Value, null, text, items, dict, Values, nil, Entries, empty, Error, unterminated_double,
  unterminated_single, unterminated_flow, unexpected_text, expected_flow_entry, out_of_fuel, Python,
  is_blank, is_in, begins, is_empty, head_is, head_in, lstrip_of, strip, without_last, ends_with,
}
use aisb.Yaml.Quoted.{backslash, double, single, unterminated, unescape, undouble}
use aisb.Yaml.Plain.{plain, put_entry, append}

-- What follows a key: blanks, a colon, and a blank or the end. The value is without its blanks.
abbrev value_if : Text → Option Text
value_if [] = none
value_if (c ∷ s) =
    if eqb c b':' && (is_empty s || head_in (32 ∷ 9 ∷ []) s) then some (strip s) else none

abbrev found : Text → Option Text → Option (Text × Text) → Option (Text × Text)
found key (some value) longer = some (key, value)
found key none longer = longer

-- The pattern of `_split_key`, once it has `key`.
key_from : Text → Text → Option (Text × Text)
unfolding strip lstrip_of
key_from key [] = none
key_from key (c ∷ s) =
    let longer = key_from (key ++ c ∷ []) s in
    found key (value_if (lstrip_of is_blank (c ∷ s))) (if eqb c b'#' then none else longer)

abbrev unless_item : Option (Text × Text) → Option (Text × Text)
unless_item none = none
unless_item (some (key, value)) = if begins key (codes "- ") then none else some (key, value)

-- What follows the quote that closes a key, and the key up to there.
closing : ℕ → Bool → Text → Text → Option (Text × Text)
closing q skip key [] = none
closing q true key (c ∷ s) = closing q false (key ++ c ∷ []) s
closing q false key (c ∷ s) =
    let pair = closing q true (key ++ c ∷ []) s in
    let rest = closing q false (key ++ c ∷ []) s in
    if eqb c q
    then (if eqb q single && head_is single s then pair else some (key ++ c ∷ [], s))
    else rest

abbrev colon_after : Option (Text × Text) → Option (Text × Text)
colon_after none = none
colon_after (some (key, [])) = none
colon_after (some (key, c ∷ s)) =
    if eqb c b':' && (is_empty s || head_is 32 s) then some (key, strip s) else none

-- No result stands for ('', '', text).
unfoldable pub split_key : Text → Option (Text × Text)
unfolding key_from closing strip lstrip_of
split_key [] = none
split_key (c ∷ s) =
    if is_in c (double ∷ single ∷ [])
    then colon_after (closing c false (c ∷ []) s)
    else if is_in c (codes " \t[]{},#")
    then none
    else unless_item (key_from (c ∷ []) s)

-- What the loop over an item does at a character: it stops, or goes on with its depth, its quote
-- and whether it skips the next character. `start` tells whether a quote may open here.
pub data Move : Type 0 where
  halt : Move
  go : ℕ → Option ℕ → Bool → Move

abbrev closed : ℕ → Move
closed zero = halt
closed (suc depth) = go depth none false

move : ℕ → Option ℕ → Bool → ℕ → Text → Move
move depth (some q) start c s =
    if eqb q double && eqb c backslash
    then go depth (some q) true
    else if eqb c q && eqb q single && head_is single s
    then go depth (some q) true
    else if eqb c q
    then go depth none false
    else go depth (some q) false
move depth none start c s =
    if is_in c (double ∷ single ∷ []) && start
    then go depth (some c) false
    else if is_in c (codes "[{")
    then go (suc depth) none false
    else if is_in c (codes "]}")
    then closed depth
    else if eqb c b',' && eqb depth 0
    then halt
    else go depth none false

-- s[i:j] and s[j:], for the item that starts at s[i]
unfoldable pub token_from : ℕ → Option ℕ → Bool → Bool → Text → Text × Text
unfolding move
token_from depth quote start skip [] = ([], [])
token_from depth quote start true (c ∷ s) =
    let (token, rest) = token_from depth quote (is_in c (codes " [{,:")) false s in
    (c ∷ token, rest)
token_from depth quote start false (c ∷ s) = elim (move depth quote start c s) [
  | halt ↦ ([], c ∷ s)
  | go depth quote skip ↦
      (let (token, rest) = token_from depth quote (is_in c (codes " [{,:")) skip s in
        (c ∷ token, rest))
]

abbrev token_of : Text → Text × Text
token_of s = token_from 0 none true false s

abbrev closer : ℕ → ℕ
closer opener = if eqb opener b'[' then b']' else b'}'

abbrev Parser : Type 0
Parser = Text → Result Error Value

-- obj[scalar(k)] = scalar(v), where the value is read first
abbrev flow_entry : Python → Parser → ℕ → Entries → Text → Result Error Entries
flow_entry py read lineno obj token = elim (split_key token) [
  | none ↦ err (expected_flow_entry lineno token)
  | some (key, value) ↦ do v ← read value; k ← read key; ok (put_entry py obj k v)
]

abbrev flow_value : ℕ → Values → Entries → Value
flow_value opener vs obj = if eqb opener b'[' then items vs else dict obj

-- `_flow` after its bracket `opener`, with what it has read so far: the value, and the text after.
unfoldable pub flow_from :
    Python → Parser → ℕ → ℕ → ℕ → Values → Entries → Text → Result Error (Value × Text)
unfolding put_entry append split_key token_from lstrip_of
flow_from py read lineno zero opener vs obj s = err out_of_fuel
flow_from py read lineno (suc fuel) opener vs obj s =
    elim (lstrip_of (λ c. is_in c (codes " ,")) s) [
      | [] ↦ err (unterminated_flow lineno)
      | c ∷ rest ↦
          (let inner = (do
            (v, after) ← flow_from py read lineno fuel c nil empty rest
            flow_from py read lineno fuel opener (append vs v) obj after) in
            let (token, after) = token_of (c ∷ rest) in
            let next_entry = (do
              more ← flow_entry py read lineno obj token
              flow_from py read lineno fuel opener vs more after) in
            let next_item = (do
              v ← read token
              flow_from py read lineno fuel opener (append vs v) obj after) in
            if eqb c (closer opener)
            then ok (flow_value opener vs obj, rest)
            else if is_in c (codes "[{")
            then inner
            else if eqb opener b'{'
            then next_entry
            else next_item)
    ]

-- what must follow a flow collection that is a whole scalar
abbrev alone : ℕ → Value × Text → Result Error Value
alone lineno (v, rest) = if is_empty (strip rest) then ok v else err (unexpected_text lineno rest)

-- a scalar without the blanks around it
abbrev scalar_of : Python → Parser → ℕ → ℕ → Text → Result Error Value
scalar_of py read fuel lineno [] = ok null
scalar_of py read fuel lineno (c ∷ s) =
    let doubled = unescape (without_last s) lineno >>= λ t. ok (text t) in
    let listed = flow_from py read lineno fuel c nil empty s >>= alone lineno in
    if eqb c double
    then (if not (ends_with double (c ∷ s)) || is_empty s || unterminated (c ∷ s)
        then err (unterminated_double lineno)
        else doubled)
    else if eqb c single
    then (if not (ends_with single (c ∷ s)) || is_empty s
        then err (unterminated_single lineno)
        else ok (text (undouble (without_last s))))
    else if is_in c (codes "[{")
    then listed
    else ok (plain (c ∷ s))

unfoldable pub scalar_from : Python → ℕ → ℕ → Text → Result Error Value
unfolding flow_from plain unescape undouble unterminated without_last ends_with strip
scalar_from py lineno zero s = err out_of_fuel
scalar_from py lineno (suc fuel) s = scalar_of py (scalar_from py lineno fuel) fuel lineno (strip s)

unfoldable pub scalar : Python → Text → ℕ → Result Error Value
unfolding scalar_from
scalar py s lineno = scalar_from py lineno (suc (suc (length s))) s
