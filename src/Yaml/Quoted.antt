-- ===== src/Yaml/Quoted.antt =====
-- The quoted scalars of src/aisb/yamlish.py: where one ends, and the text between its quotes.
use aisb.Prelude.{
  ℕ, zero, suc, ◌+◌, ◌-◌, ◌*◌, Bool, true, false, not, ◌&&◌, ◌||◌, Option, none, some, [], ◌∷◌,
  length, take, drop, all, eqb, ltb, if◌then◌else◌,
}
use aisb.Prelude.Results.{Result, ok, err, ◌>>=◌}
use aisb.Yaml.Text.{Text, Error, bad_escape, not_a_character, is_ascii_digit, head_is, is_empty}

abbrev pub backslash : ℕ
backslash = b'\\'

abbrev pub double : ℕ
double = b'"'

abbrev pub single : ℕ
single = b'\''

-- The rest of `_unterminated`, after the quote that opens; the Boolean tells to skip a character.
unfoldable pub open_from : ℕ → Bool → Text → Bool
open_from q skip [] = true
open_from q true (c ∷ s) = open_from q false s
open_from q false (c ∷ s) =
    let skipped = open_from q true s in
    let rest = open_from q false s in
    if eqb q double && eqb c backslash
    then skipped
    else if eqb c q
    then (if eqb q single && head_is single s then skipped else not (is_empty s))
    else rest

unfoldable pub unterminated : Text → Bool
unfolding open_from
unterminated [] = true
unterminated (q ∷ s) = open_from q false s

-- `_ESCAPES`: the code of the character after a backslash, and what it stands for
simple_escape : ℕ → Option ℕ
simple_escape c =
    if eqb c b'0'
    then some 0
    else if eqb c b'a'
    then some 7
    else if eqb c b'b'
    then some 8
    else if eqb c b't' || eqb c 9
    then some 9
    else if eqb c b'n'
    then some 10
    else if eqb c b'v'
    then some 11
    else if eqb c b'f'
    then some 12
    else if eqb c b'r'
    then some 13
    else if eqb c b'e'
    then some 27
    else if eqb c 32 || eqb c double || eqb c b'/' || eqb c backslash
    then some c
    else if eqb c b'N'
    then some 133
    else if eqb c b'_'
    then some 160
    else if eqb c b'L'
    then some 8232
    else if eqb c b'P'
    then some 8233
    else none

-- `_HEX`: how many digits follow
hex_width : ℕ → Option ℕ
hex_width c =
    if eqb c b'x'
    then some 2
    else if eqb c b'u'
    then some 4
    else if eqb c b'U'
    then some 8
    else none

-- [0-9a-fA-F]
abbrev is_hex : ℕ → Bool
is_hex c = is_ascii_digit c || (ltb 64 c && ltb c 71) || (ltb 96 c && ltb c 103)

abbrev hex_digit : ℕ → ℕ
hex_digit c = if ltb c 58 then c - 48 else if ltb c 71 then c - 55 else c - 87

-- int(digits, 16)
hex_from : ℕ → Text → ℕ
hex_from n [] = n
hex_from n (c ∷ s) = hex_from (16 * n + hex_digit c) s

-- chr(n)
chr : ℕ → Result Error ℕ
chr n = if ltb n 1114112 then ok n else err (not_a_character n)

-- one turn of `_unescape` at the character `c`: what it writes, and how many characters it reads
-- after that one
abbrev after_hex : ℕ → Text → Option ℕ → Result Error (ℕ × ℕ)
after_hex lineno s none = err (bad_escape lineno (take 1 s))
after_hex lineno s (some width) =
    let digits = take width (drop 1 s) in
    if all is_hex digits && eqb (length digits) width
    then (chr (hex_from 0 digits) >>= λ n. ok (n, suc width))
    else err (bad_escape lineno (take 1 s))

abbrev after_simple : ℕ → Text → Option ℕ → Option ℕ → Result Error (ℕ × ℕ)
after_simple lineno s (some n) width = ok (n, 1)
after_simple lineno s none width = after_hex lineno s width

abbrev after_backslash : ℕ → Text → Result Error (ℕ × ℕ)
after_backslash lineno [] = err (bad_escape lineno [])
after_backslash lineno (code ∷ s) =
    after_simple lineno (code ∷ s) (simple_escape code) (hex_width code)

unfoldable pub turn : ℕ → ℕ → Text → Result Error (ℕ × ℕ)
unfolding simple_escape hex_width chr hex_from
turn lineno c s =
    let escaped = after_backslash lineno s in if eqb c backslash then escaped else ok (c, 0)

-- The rest of `_unescape`, after `skip` more characters.
unfoldable pub unescape_from : ℕ → ℕ → Text → Result Error Text
unfolding turn
unescape_from lineno skip [] = ok []
unescape_from lineno (suc skip) (c ∷ s) = unescape_from lineno skip s
unescape_from lineno zero (c ∷ s) = do
  (out, skip) ← turn lineno c s
  rest ← unescape_from lineno skip s
  ok (out ∷ rest)

unfoldable pub unescape : Text → ℕ → Result Error Text
unfolding unescape_from
unescape body lineno = unescape_from lineno 0 body

-- s.replace("''", "'")
unfoldable pub undouble : Text → Text
undouble [] = []
undouble (c ∷ []) = c ∷ []
undouble (c ∷ d ∷ s) =
    let pair = undouble s in
    let rest = undouble (d ∷ s) in if eqb c single && eqb d single then single ∷ pair else c ∷ rest
