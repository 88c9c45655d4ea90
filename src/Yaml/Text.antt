-- ===== src/Yaml/Text.antt =====
-- What src/aisb/yamlish.py uses of Python's texts, which are lists of code points here, and the
-- values that it reads. Floating-point numbers and the digits of `re` are parameters.
use aisb.Prelude.{
  ℕ, zero, suc, ◌+◌, ◌-◌, ◌*◌, Bool, true, false, ◌&&◌, ◌||◌, Option, none, some, List, [], ◌∷◌,
  ◌++◌, eqb, ltb, if◌then◌else◌,
}

abbrev pub Text : Type 0
Text = List ℕ

pub data ℤ : Type 0 where
  pos negsuc : ℕ → ℤ

-- A value of a document. A float is kept as its text, which `float` of Python reads.
mutual
  pub data Value : Type 0 where
    null : Value
    bool : Bool → Value
    int : ℤ → Value
    float text : Text → Value
    items : Values → Value
    dict : Entries → Value

  pub data Values : Type 0 where
    nil : Values
    cons : Value → Values → Values

  pub data Entries : Type 0 where
    empty : Entries
    entry : Value → Value → Entries → Entries

-- What is raised, with the number of the line. `out_of_fuel` stands for a loop that goes on.
pub data Error : Type 0 where
  unsupported unterminated_double unterminated_single unterminated_flow : ℕ → Error
  bad_escape unexpected_text expected_flow_entry expected_entry unexpected_content :
      ℕ → Text → Error
  unexpected_indentation multiple_documents : ℕ → Error
  duplicate_key : ℕ → Value → Error
  not_a_character : ℕ → Error
  substring_not_found out_of_fuel : Error

-- Python's `==` of a float, by its text, and another value; and `\d` of `re`.
pub record Python : Type 0 where
  pub float_eq : Text → Value → Bool
  pub is_digit : ℕ → Bool

abbrev pub is_ascii_digit : ℕ → Bool
is_ascii_digit c = ltb 47 c && ltb c 58

-- c in " \t"
abbrev pub is_blank : ℕ → Bool
is_blank c = eqb c 32 || eqb c 9

-- x[:1] in chars, where x has a character
abbrev pub is_in : ℕ → Text → Bool
is_in c [] = false
is_in c (d ∷ ds) = eqb c d || is_in c ds

abbrev pub text_eq : Text → Text → Bool
text_eq [] [] = true
text_eq [] (d ∷ t) = false
text_eq (c ∷ s) [] = false
text_eq (c ∷ s) (d ∷ t) = eqb c d && text_eq s t

-- s.startswith(prefix)
abbrev pub begins : Text → Text → Bool
begins s [] = true
begins [] (p ∷ ps) = false
begins (c ∷ s) (p ∷ ps) = eqb c p && begins s ps

abbrev pub is_empty : Text → Bool
is_empty [] = true
is_empty (c ∷ s) = false

abbrev pub head : Text → Option ℕ
head [] = none
head (c ∷ s) = some c

abbrev pub head_is : ℕ → Text → Bool
head_is k [] = false
head_is k (c ∷ s) = eqb c k

-- s[:1] in chars, where that is a nonempty text
abbrev pub head_in : Text → Text → Bool
head_in chars [] = false
head_in chars (c ∷ s) = is_in c chars

-- s.lstrip(chars), for the characters that are `hit`
unfoldable pub lstrip_of : (ℕ → Bool) → Text → Text
lstrip_of hit [] = []
lstrip_of hit (c ∷ s) = if hit c then lstrip_of hit s else c ∷ s

unfoldable pub rstrip_of : (ℕ → Bool) → Text → Text
rstrip_of hit [] = []
rstrip_of hit (c ∷ s) =
    let rest = rstrip_of hit s in if is_empty rest && hit c then [] else c ∷ rest

-- s.strip(" \t")
unfoldable pub strip : Text → Text
unfolding lstrip_of rstrip_of
strip s = rstrip_of is_blank (lstrip_of is_blank s)

-- s[:-1]
unfoldable pub without_last : Text → Text
without_last [] = []
without_last (c ∷ []) = []
without_last (c ∷ d ∷ s) = c ∷ without_last (d ∷ s)

-- s.endswith(c), for one character
unfoldable pub ends_with : ℕ → Text → Bool
ends_with k [] = false
ends_with k (c ∷ []) = eqb c k
ends_with k (c ∷ d ∷ s) = ends_with k (d ∷ s)

-- c * n, for one character
abbrev pub times : ℕ → ℕ → Text
times c zero = []
times c (suc n) = c ∷ times c n

-- len(s) - len(s.lstrip(" "))
unfoldable pub indent_of : Text → ℕ
indent_of [] = 0
indent_of (c ∷ s) = let more = indent_of s in if eqb c 32 then suc more else 0

-- sep.join(parts)
unfoldable pub join : Text → List Text → Text
join sep [] = []
join sep (p ∷ []) = p
join sep (p ∷ q ∷ ps) = p ++ sep ++ join sep (q ∷ ps)

-- s.replace(c, ""), for one character
unfoldable pub without : ℕ → Text → Text
without k [] = []
without k (c ∷ s) = let rest = without k s in if eqb c k then rest else c ∷ rest

-- int(s), for a text of digits
unfoldable pub number_from : ℕ → Text → ℕ
number_from n [] = n
number_from n (c ∷ s) = number_from (10 * n + (c - 48)) s
