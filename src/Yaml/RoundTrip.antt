-- ===== src/Yaml/RoundTrip.antt =====
-- What is written in quotes, or as a flow sequence of quoted texts, reads back; and what `_check`
-- and `_flow` of src/aisb/yamlish.py do with other texts.
use mathlib.Core.List.{flat_map}
use aisb.Prelude.{
  ℕ, suc, ◌≡◌, refl, ap, ◌∙◌, inl, inr, Bool, true, false, ◌||◌, [], ◌∷◌, ◌++◌, append_assoc, arith,
  length, eqb, if◌then◌else◌, Bool-cases,
}
use aisb.Prelude.Results.{ok}
use aisb.Yaml.Text.{
  Text, text, Python, is_blank, is_empty, lstrip_of, rstrip_of, strip, without_last, ends_with,
}
use aisb.Yaml.Quoted.{
  backslash, double, single, open_from, unterminated, unescape, unescape_from, turn, undouble,
}
use aisb.Yaml.Flow.{scalar, scalar_from}

-- A text between two quotes.
abbrev between : ℕ → Text → Text
between q body = q ∷ body ++ q ∷ []

is_empty-end : (xs : Text) (d : ℕ) → is_empty (xs ++ d ∷ []) ≡ false
is_empty-end [] d = refl
is_empty-end (x ∷ xs) d = refl

rstrip_of-end :
    (hit : ℕ → Bool) (xs : Text) (d : ℕ)
    → hit d ≡ false
    → rstrip_of hit (xs ++ d ∷ []) ≡ xs ++ d ∷ []
unfolding rstrip_of
rstrip_of-end hit [] d solid = rw solid refl
rstrip_of-end hit (x ∷ xs) d solid = rw (rstrip_of-end hit xs d solid) (rw (is_empty-end xs d) refl)

ends_with-end : (xs : Text) (d : ℕ) → ends_with d (xs ++ d ∷ []) ≡ true
unfolding ends_with
ends_with-end [] d = ground arith
ends_with-end (x ∷ []) d = ground arith
ends_with-end (x ∷ y ∷ xs) d = ends_with-end (y ∷ xs) d

without_last-end : (xs : Text) (d : ℕ) → without_last (xs ++ d ∷ []) ≡ xs
unfolding without_last
without_last-end [] d = refl
without_last-end (x ∷ []) d = refl
without_last-end (x ∷ y ∷ xs) d = ap (λ rest. x ∷ rest) (without_last-end (y ∷ xs) d)

strip-between : (q : ℕ) (body : Text) → is_blank q ≡ false → strip (between q body) ≡ between q body
unfolding strip lstrip_of
strip-between q body solid = rw solid (rstrip_of-end is_blank (q ∷ body) q solid)

-- A text in single quotes: each of its quotes is written twice.
unfoldable pub doubled_quote : ℕ → Text
doubled_quote c = if eqb c single then single ∷ single ∷ [] else c ∷ []

unfoldable pub in_single : Text → Text
unfolding doubled_quote flat_map
in_single s = between single (flat_map doubled_quote s)

undouble-cons : (c : ℕ) (s : Text) → eqb c single ≡ false → undouble (c ∷ s) ≡ c ∷ undouble s
unfolding undouble
undouble-cons c [] other = refl
undouble-cons c (d ∷ s) other = rw other refl

undouble-flat_map : (s : Text) → undouble (flat_map doubled_quote s) ≡ s
unfolding undouble flat_map doubled_quote
undouble-flat_map [] = refl
undouble-flat_map (c ∷ s) = elim (Bool-cases (eqb c single)) [
  | inl quote ↦ rw quote (ground (arith, undouble-flat_map s))
  | inr other ↦ rw other (
      undouble-cons c (flat_map doubled_quote s) other
      ∙ ap (λ rest. c ∷ rest) (undouble-flat_map s))
]

pub scalar_from-in_single :
    (py : Python) (lineno fuel : ℕ) (s : Text)
    → scalar_from py lineno (suc fuel) (in_single s) ≡ ok (text s)
unfolding scalar_from in_single
scalar_from-in_single py lineno fuel s = rw (strip-between single (flat_map doubled_quote s) refl) (
    rw (ends_with-end (single ∷ flat_map doubled_quote s) single) (
      rw (is_empty-end (flat_map doubled_quote s) single)
        (rw (without_last-end (flat_map doubled_quote s) single) (rw (undouble-flat_map s) refl))))

-- A text in double quotes: a backslash stands before each quote and each backslash of it.
unfoldable pub escaped : ℕ → Text
escaped c = if eqb c double || eqb c backslash then backslash ∷ c ∷ [] else c ∷ []

in_double : Text → Text
unfolding escaped flat_map
in_double s = between double (flat_map escaped s)

open_from-escaped :
    (c : ℕ) (s : Text) → open_from double false (escaped c ++ s) ≡ open_from double false s
unfolding open_from escaped
open_from-escaped c s = ground arith

open_from-flat_map : (s : Text) → open_from double false (flat_map escaped s ++ double ∷ []) ≡ false
unfolding open_from flat_map
open_from-flat_map [] = refl
open_from-flat_map (c ∷ s) = simp (append_assoc, open_from-escaped, open_from-flat_map s)

turn-escape :
    (lineno c : ℕ) (s : Text)
    → (eqb c double || eqb c backslash) ≡ true
    → turn lineno backslash (c ∷ s) ≡ ok (c, 1)
unfolding turn
turn-escape lineno c s special = ground arith

turn-same : (lineno c : ℕ) (s : Text) → eqb c backslash ≡ false → turn lineno c s ≡ ok (c, 0)
unfolding turn
turn-same lineno c s other = rw other refl

unescape_from-escaped :
    (lineno c : ℕ) (s rest : Text)
    → unescape_from lineno 0 s ≡ ok rest
    → unescape_from lineno 0 (escaped c ++ s) ≡ ok (c ∷ rest)
unfolding unescape_from escaped
unescape_from-escaped lineno c s rest done = elim (Bool-cases (eqb c double || eqb c backslash)) [
  | inl special ↦ rw special (rw (turn-escape lineno c s special) (rw done refl))
  | inr other ↦ rw other (rw (turn-same lineno c s (ground arith)) (rw done refl))
]

unescape-flat_map : (lineno : ℕ) (s : Text) → unescape_from lineno 0 (flat_map escaped s) ≡ ok s
unfolding unescape_from flat_map
unescape-flat_map lineno [] = refl
unescape-flat_map lineno (c ∷ s) =
    unescape_from-escaped lineno c (flat_map escaped s) s (unescape-flat_map lineno s)

scalar_from-in_double :
    (py : Python) (lineno fuel : ℕ) (s : Text)
    → scalar_from py lineno (suc fuel) (in_double s) ≡ ok (text s)
unfolding scalar_from in_double unterminated unescape
scalar_from-in_double py lineno fuel s = rw (strip-between double (flat_map escaped s) refl) (
    rw (ends_with-end (double ∷ flat_map escaped s) double) (
      rw (is_empty-end (flat_map escaped s) double) (
        rw (without_last-end (flat_map escaped s) double)
          (rw (open_from-flat_map s) (rw (unescape-flat_map lineno s) refl)))))

-- What a text in single quotes and a text in double quotes mean to `scalar` is the text.
quotes_read_back :
    (py : Python) (s : Text) (lineno : ℕ)
    → (scalar py (in_single s) lineno ≡ ok (text s))
      × (scalar py (in_double s) lineno ≡ ok (text s))
unfolding scalar
quotes_read_back py s lineno = (
  scalar_from-in_single py lineno (suc (length (in_single s))) s,
  scalar_from-in_double py lineno (suc (length (in_double s))) s,
)
