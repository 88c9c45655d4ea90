-- ===== src/Redact/Blind.antt =====
-- What the masked arguments of src/aisb/redact.py tell of the secrets.
use aisb.Prelude.{
  ℕ, suc, Bool, true, false, not, ◌||◌, ◌≡◌, refl, sym, ap, ◌∙◌, inl, inr, none, some, List, [],
  ◌∷◌, ◌++◌, codes, eqb, Bool-cases, arith,
}
use aisb.Yaml.Text.{Text, begins, is_empty}
use aisb.Redact.{
  Patterns, Masked, parts_of, secret_flag, has_value, args, args_from, at_argument, named,
  placeholder, put_masked, put_plain,
}

-- Two argument lists that differ in the values of secret flags only.
pub data Alike (p : Patterns) : List Text → List Text → Type 0 where
  stop : Alike p [] []
  same : (a : Text) {xs ys : List Text} → Alike p xs ys → Alike p (a ∷ xs) (a ∷ ys)
  assigned :
      (flag v w : Text) {xs ys : List Text}
      → (parts_of flag).has_eq ≡ false
      → secret_flag p flag ≡ true
      → is_empty v ≡ false
      → is_empty w ≡ false
      → Alike p xs ys
      → Alike p ((flag ++ b'=' ∷ v) ∷ xs) ((flag ++ b'=' ∷ w) ∷ ys)
  next :
      (flag v w : Text) {xs ys : List Text}
      → (parts_of flag).has_eq ≡ false
      → secret_flag p flag ≡ true
      → begins v (codes "-") ≡ false
      → begins w (codes "-") ≡ false
      → Alike p xs ys
      → Alike p (flag ∷ v ∷ xs) (flag ∷ w ∷ ys)

has_eq-cons :
    (c : ℕ) (flag : Text) → (parts_of (c ∷ flag)).has_eq ≡ (eqb c b'=' || (parts_of flag).has_eq)
unfolding parts_of
has_eq-cons c flag = elim (Bool-cases (eqb c b'=')) [
  | inl equals ↦ rw equals refl
  | inr other ↦ rw other refl
]

or_false : (a b : Bool) → (a || b) ≡ false → (a ≡ false) × (b ≡ false)
or_false a b h = (ground arith, ground arith)

parts_of-assigned :
    (flag v : Text)
    → (parts_of flag).has_eq ≡ false
    → parts_of (flag ++ b'=' ∷ v) ≡ record { flag = flag; has_eq = true; value = v }
unfolding parts_of
parts_of-assigned [] v plain = refl
parts_of-assigned (c ∷ flag) v plain =
    let (other, rest) =
      or_false (eqb c b'=') (parts_of flag).has_eq (sym (has_eq-cons c flag) ∙ plain) in
    rw other (rw (parts_of-assigned flag v rest) refl)

begins-secret :
    (p : Patterns) (flag : Text) → secret_flag p flag ≡ true → begins flag (codes "-") ≡ true
unfolding secret_flag
begins-secret p flag secret = ground arith

begins-append :
    (flag rest : Text) → begins flag (codes "-") ≡ true → begins (flag ++ rest) (codes "-") ≡ true
begins-append [] rest dash = cc
begins-append (c ∷ flag) rest dash = dash

Alike-has_value : (p : Patterns) {xs ys : List Text} → Alike p xs ys → has_value xs ≡ has_value ys
Alike-has_value p stop = refl
Alike-has_value p (same a more) = refl
Alike-has_value p (assigned flag v w plain secret full full' more) =
    rw (begins-append flag (b'=' ∷ v) (begins-secret p flag secret))
      (rw (begins-append flag (b'=' ∷ w) (begins-secret p flag secret)) refl)
Alike-has_value p (next flag v w plain secret dash dash' more) = refl

module _ (p : Patterns) (prefix : Text) where
  -- the arguments after a secret flag, whose value is masked
  args_from-next :
      (flag v : Text) (argv : List Text) (i : ℕ)
      → (parts_of flag).has_eq ≡ false
      → secret_flag p flag ≡ true
      → begins v (codes "-") ≡ false
      → args_from p prefix i none (flag ∷ v ∷ argv)
        ≡ put_plain flag (
            put_masked
              (placeholder (prefix ++ b':' ∷ flag))
              (prefix ++ b':' ∷ flag)
              (args_from p prefix (suc (suc i)) none argv))
  unfolding args_from
  args_from-next flag v argv i plain secret dash = rw plain (rw secret (rw dash refl))

  args_from-assigned :
      (flag v : Text) (argv : List Text) (i : ℕ)
      → (parts_of flag).has_eq ≡ false
      → secret_flag p flag ≡ true
      → is_empty v ≡ false
      → args_from p prefix i none ((flag ++ b'=' ∷ v) ∷ argv)
        ≡ put_masked
            (flag ++ b'=' ∷ placeholder (prefix ++ b':' ∷ flag))
            (prefix ++ b':' ∷ flag)
            (args_from p prefix (suc i) none argv)
  unfolding args_from
  args_from-assigned flag v argv i plain secret full =
      rw (parts_of-assigned flag v plain) (rw full (rw secret refl))

  at_argument-deaf :
      (i : ℕ) (a : Text) (rest masking masking' : Masked)
      → at_argument p prefix i a false rest masking ≡ at_argument p prefix i a false rest masking'
  unfolding at_argument
  at_argument-deaf i a rest masking masking' = ground arith

  at_argument-same :
      (i : ℕ) (a : Text) (valued : Bool) (rest rest' masking masking' : Masked)
      → rest ≡ rest'
      → (valued ≡ true → masking ≡ masking')
      → at_argument p prefix i a valued rest masking
        ≡ at_argument p prefix i a valued rest' masking'
  at_argument-same i a true rest rest' masking masking' r f =
      ap (λ x. at_argument p prefix i a true x masking) r
      ∙ ap (at_argument p prefix i a true rest') (f refl)
  at_argument-same i a false rest rest' masking masking' r f =
      ap (λ x. at_argument p prefix i a false x masking) r
      ∙ at_argument-deaf i a rest' masking masking'

  -- The same is written for both, from any argument on and, where one is masked, after any flag.
  abbrev IsBlind : List Text → List Text → Type 0
  IsBlind xs ys =
      ((i : ℕ) → args_from p prefix i none xs ≡ args_from p prefix i none ys)
      × ((i : ℕ) (name : Text)
          → has_value xs ≡ true
          → args_from p prefix i (some name) xs ≡ args_from p prefix i (some name) ys)

  args_from-same :
      (a : Text) (xs ys : List Text)
      → has_value xs ≡ has_value ys
      → IsBlind xs ys
      → IsBlind (a ∷ xs) (a ∷ ys)
  unfolding args_from
  args_from-same a xs ys valued blind = (
    λ i.
        at_argument-same i a (has_value xs) (args_from p prefix (suc i) none xs)
          (args_from p prefix (suc i) none ys)
          (args_from p prefix (suc i) (some (named prefix a)) xs)
          (args_from p prefix (suc i) (some (named prefix a)) ys) (blind.0 (suc i))
          (blind.1 (suc i) (named prefix a))
        ∙ ap
            (λ v.
              at_argument p prefix i a v (args_from p prefix (suc i) none ys)
                (args_from p prefix (suc i) (some (named prefix a)) ys))
            valued,
    λ i name masked. ap (put_masked (placeholder name) name) (blind.0 (suc i)),
  )

  no_value : {b : Bool} {X : Type 0} → b ≡ false → b ≡ true → X
  no_value out within = cc (out, within)

  Alike-IsBlind : {xs ys : List Text} → Alike p xs ys → IsBlind xs ys
  Alike-IsBlind stop = ((λ i. refl), λ i name masked. refl)
  Alike-IsBlind (same a more) = args_from-same a _ _ (Alike-has_value p more) (Alike-IsBlind more)
  Alike-IsBlind (assigned flag v w plain secret full full' more) = (
    (λ i.
        args_from-assigned flag v _ i plain secret full
        ∙ ap (put_masked _ _) ((Alike-IsBlind more).0 (suc i))
        ∙ sym (args_from-assigned flag w _ i plain secret full')),
    λ i name masked.
        no_value (ap not (begins-append flag (b'=' ∷ v) (begins-secret p flag secret))) masked,
  )
  Alike-IsBlind (next flag v w plain secret dash dash' more) = (
    (λ i.
        args_from-next flag v _ i plain secret dash
        ∙ ap
            (λ m.
              put_plain flag
                (put_masked (placeholder (prefix ++ b':' ∷ flag)) (prefix ++ b':' ∷ flag) m))
            ((Alike-IsBlind more).0 (suc (suc i)))
        ∙ sym (args_from-next flag w _ i plain secret dash')),
    λ i name masked. no_value (ap not (begins-secret p flag secret)) masked,
  )

-- The masked arguments, and the names of their placeholders, do not depend on the values of secret
-- flags: argument lists that differ in values only, each a text that is not empty after the `=` of a
-- secret flag or an argument without a dash after one, are masked alike.
pub args-blind :
    (p : Patterns) (prefix : Text) {xs ys : List Text}
    → Alike p xs ys
    → args p xs prefix ≡ args p ys prefix
unfolding args
args-blind p prefix alike = (Alike-IsBlind p prefix alike).0 0
