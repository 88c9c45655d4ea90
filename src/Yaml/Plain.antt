-- ===== src/Yaml/Plain.antt =====
-- The plain scalars of src/aisb/yamlish.py, and the keys and items of what is read.
use aisb.Prelude.{
  ℕ, zero, suc, Bool, true, false, ◌&&◌, ◌||◌, Option, none, some, [], ◌∷◌, codes, eqb,
  if◌then◌else◌,
}
use aisb.Yaml.Text.{
  Text, ℤ, pos, negsuc, Value, null, bool, int, float, text, Values, nil, cons, Entries, empty,
  entry, Python, is_ascii_digit, text_eq, is_empty, head_is, lstrip_of, rstrip_of, without,
  number_from,
}

-- [0-9_]
abbrev is_digit_or_line : ℕ → Bool
is_digit_or_line c = is_ascii_digit c || eqb c b'_'

-- `$` of `re`: the end, or a last line break
abbrev at_end : Text → Bool
at_end [] = true
at_end (c ∷ s) = eqb c 10 && is_empty s

abbrev skip_sign : Text → Text
skip_sign [] = []
skip_sign (c ∷ s) = if eqb c b'-' || eqb c b'+' then s else c ∷ s

-- `_INT`, after the sign
abbrev is_int_unsigned : Text → Bool
is_int_unsigned [] = false
is_int_unsigned (c ∷ s) =
    if eqb c b'0' then at_end s else is_ascii_digit c && at_end (lstrip_of is_digit_or_line s)

is_int : Text → Bool
unfolding lstrip_of
is_int s = is_int_unsigned (skip_sign s)

-- the exponent of `_FLOAT`, if there is one, and the end
abbrev exponent_digits : Text → Bool
exponent_digits [] = false
exponent_digits (c ∷ s) = is_ascii_digit c && at_end (lstrip_of is_ascii_digit s)

abbrev is_exponent : Text → Bool
is_exponent [] = true
is_exponent (c ∷ s) =
    if eqb c b'e' || eqb c b'E' then exponent_digits (skip_sign s) else at_end (c ∷ s)

abbrev is_fraction : Text → Bool
is_fraction [] = true
is_fraction (c ∷ s) =
    if eqb c b'.' then is_exponent (lstrip_of is_ascii_digit s) else is_exponent (c ∷ s)

abbrev after_point : Text → Bool
after_point [] = false
after_point (c ∷ s) = is_ascii_digit c && is_exponent (lstrip_of is_ascii_digit s)

abbrev is_float_unsigned : Text → Bool
is_float_unsigned [] = false
is_float_unsigned (c ∷ s) =
    if eqb c b'.'
    then after_point s
    else is_ascii_digit c && is_fraction (lstrip_of is_digit_or_line s)

is_float : Text → Bool
unfolding lstrip_of
is_float s = is_float_unsigned (skip_sign s)

-- int(s.replace("_", ""))
abbrev negate : ℕ → ℤ
negate zero = pos 0
negate (suc n) = negsuc n

int_of : Text → ℤ
unfolding number_from without rstrip_of
int_of s =
    let n = number_from 0 (skip_sign (without b'_' (rstrip_of (λ c. eqb c 10) s))) in
    if head_is b'-' s then negate n else pos n

-- A scalar that is not quoted.
unfoldable pub plain : Text → Value
unfolding is_int is_float int_of without
plain s =
    if text_eq s (codes "null")
      || text_eq s (codes "Null")
      || text_eq s (codes "NULL")
      || text_eq s (codes "~")
    then null
    else if text_eq s (codes "true") || text_eq s (codes "True") || text_eq s (codes "TRUE")
    then bool true
    else if text_eq s (codes "false") || text_eq s (codes "False") || text_eq s (codes "FALSE")
    then bool false
    else if is_int s
    then int (int_of s)
    else if is_float s
    then float (without b'_' s)
    else text s

-- Python's `==` of keys: True is 1 and False is 0
abbrev number_of : Value → Option ℤ
number_of (int n) = some n
number_of (bool true) = some (pos 1)
number_of (bool false) = some (pos 0)
number_of _ = none

abbrev same_number : Option ℤ → Option ℤ → Bool
same_number (some (pos n)) (some (pos m)) = eqb n m
same_number (some (negsuc n)) (some (negsuc m)) = eqb n m
same_number _ _ = false

unfoldable pub same_key : Python → Value → Value → Bool
same_key py (float s) v = py.float_eq s v
same_key py v (float s) = py.float_eq s v
same_key py null null = true
same_key py (text s) (text t) = text_eq s t
same_key py v w = same_number (number_of v) (number_of w)

-- out[k] = v, and k in out
unfoldable pub put_entry : Python → Entries → Value → Value → Entries
unfolding same_key
put_entry py empty k v = entry k v empty
put_entry py (entry j w d) k v =
    let rest = put_entry py d k v in if same_key py j k then entry j v d else entry j w rest

unfoldable pub has_key : Python → Entries → Value → Bool
unfolding same_key
has_key py empty k = false
has_key py (entry j w d) k = same_key py j k || has_key py d k

-- out.append(v)
unfoldable pub append : Values → Value → Values
append nil v = cons v nil
append (cons w vs) v = cons w (append vs v)
