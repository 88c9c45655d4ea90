-- ===== src/Runbook/Parse/Order.antt =====
-- What holds of the steps that `parse` accepts.
use mathlib.Core.Path.{subst}
use aisb.Prelude.{
  ℕ, ◌+◌, String, ◌≡◌, refl, sym, ap, ◌∙◌, ◌⊎◌, inl, inr, true, false, Option, none, some, List, [],
  ◌∷◌, ◌==◌, contains, arith, Bool-cases,
}
use aisb.Prelude.Results.{ok, >>=-eq-ok, ok_injective}
use aisb.Runbook.{Step, When, success, always, on_failure, step_ok, step_failed}
use aisb.Runbook.Parse.{
  Patterns, RawStep, Error, parse, parse_from, parse_step, when_of, named_when, earlier, fresh_name,
  action_of, known_keys, text_or, before_suffix, name_of,
}

-- `when` refers to none but the steps that were seen.
unfoldable pub RefersTo : List String → When → Type 0
RefersTo seen success = Unit {0}
RefersTo seen always = Unit {0}
RefersTo seen on_failure = Unit {0}
RefersTo seen (step_ok n) = contains seen n ≡ true
RefersTo seen (step_failed n) = contains seen n ≡ true

-- No step has the name of an earlier one, and each refers to earlier ones only.
unfoldable pub IsOrdered : List String → List Step → Type 0
IsOrdered seen [] = Unit {0}
IsOrdered seen (s ∷ steps) =
    (contains seen s.name ≡ false) × RefersTo seen s.when × IsOrdered (s.name ∷ seen) steps

IsOrdered-cons :
    (seen : List String) (s : Step) (steps : List Step)
    → contains seen s.name ≡ false
    → RefersTo seen s.when
    → IsOrdered (s.name ∷ seen) steps
    → IsOrdered seen (s ∷ steps)
unfolding IsOrdered
IsOrdered-cons seen s steps new refers rest = (new, refers, rest)

earlier-RefersTo :
    (seen : List String) (n : String) (w : When)
    → (earlier seen n step_ok ≡ ok w) ⊎ (earlier seen n step_failed ≡ ok w)
    → RefersTo seen w
unfolding RefersTo
earlier-RefersTo seen n w h = elim (Bool-cases (contains seen n)) [
  | inr e ↦ elim h [ inl x ↦ ground (arith, e, x) | inr x ↦ ground (arith, e, x) ]
  | inl e ↦ elim h [
    | inl x ↦ subst (RefersTo seen) (ok_injective (sym (found e step_ok) ∙ x)) e
    | inr x ↦ subst (RefersTo seen) (ok_injective (sym (found e step_failed) ∙ x)) e
  ]
]
  where
    found : contains seen n ≡ true → (make : String → When) → earlier seen n make ≡ ok (make n)
    found e make = rw e refl

named_when-RefersTo :
    (p : Patterns) (n : String) (seen : List String) (a b : Option String) (w : When)
    → named_when p n seen a b ≡ ok w
    → RefersTo seen w
named_when-RefersTo p n seen (some a) b w h = elim (Bool-cases (p.is_reference a)) [
  | inl e ↦ earlier-RefersTo seen a w (inl (ground (arith, e, h)))
  | inr e ↦ ground (arith, e, h)
]
named_when-RefersTo p n seen none (some b) w h = elim (Bool-cases (p.is_reference b)) [
  | inl e ↦ earlier-RefersTo seen b w (inr (ground (arith, e, h)))
  | inr e ↦ ground (arith, e, h)
]
named_when-RefersTo p n seen none none w h = cc

when_of-RefersTo :
    (p : Patterns) (n : String) (seen : List String) (t : String) (w : When)
    → when_of p n seen t ≡ ok w
    → RefersTo seen w
unfolding when_of RefersTo
when_of-RefersTo p n seen t w h = elim (Bool-cases (t == "success")) [
  | inl e ↦ subst (RefersTo seen) (ok_injective {E = Error} {a = success} (ground (arith, e, h))) tt
  | inr e ↦ elim (Bool-cases (t == "always")) [
    | inl f ↦
        subst (RefersTo seen) (ok_injective {E = Error} {a = always} (ground (arith, e, f, h))) tt
    | inr f ↦ elim (Bool-cases (t == "on_failure")) [
      | inl g ↦
          subst (RefersTo seen)
            (ok_injective {E = Error} {a = on_failure} (ground (arith, e, f, g, h))) tt
      | inr g ↦
          named_when-RefersTo p n seen (before_suffix ".ok" t) (before_suffix ".failed" t) w
            (ground (arith, e, f, g, h))
    ]
  ]
]

fresh_name-new :
    (p : Patterns) (seen : List String) (n : String) {u : Unit {0}}
    → fresh_name p seen n ≡ ok u
    → contains seen n ≡ false
fresh_name-new p seen n h = ground (arith, h)

parse_step-ordered :
    (p : Patterns) (i : ℕ) (seen : List String) (raw : RawStep) (s : Step)
    → parse_step p i seen raw ≡ ok s
    → (contains seen s.name ≡ false) × RefersTo seen s.when
unfolding parse_step
parse_step-ordered p i seen raw s h =
    let (_, fresh, rest) = >>=-eq-ok (fresh_name p seen (name_of i raw)) _ h in
    let (_, _, rest2) = >>=-eq-ok (action_of (name_of i raw) raw) _ rest in
    let (_, _, rest3) = >>=-eq-ok (known_keys raw.other_keys) _ rest2 in
    let (w, refers, made) =
      >>=-eq-ok (when_of p (name_of i raw) seen (text_or raw.when "success")) _ rest3 in
    let same = ok_injective made in
    (
      ap (λ s. contains seen s.name) (sym same) ∙ fresh_name-new p seen _ fresh,
      subst (λ s. RefersTo seen s.when) same
          (when_of-RefersTo p (name_of i raw) seen (text_or raw.when "success") w refers),
    )

parse_from-IsOrdered :
    (p : Patterns) (i : ℕ) (seen : List String) (raws : List RawStep) (steps : List Step)
    → parse_from p i seen raws ≡ ok steps
    → IsOrdered seen steps
unfolding parse_from
parse_from-IsOrdered p i seen [] steps h =
    subst (IsOrdered seen) (ok_injective h) (unfold IsOrdered in tt)
parse_from-IsOrdered p i seen (raw ∷ raws) steps h =
    let (s, parsed, more) = >>=-eq-ok (parse_step p i seen raw) _ h in
    let (rest, others, made) = >>=-eq-ok (parse_from p (i + 1) (s.name ∷ seen) raws) _ more in
    let (new, refers) = parse_step-ordered p i seen raw s parsed in
    subst (IsOrdered seen) (ok_injective made) (
      IsOrdered-cons seen s rest new refers
        (parse_from-IsOrdered p (i + 1) (s.name ∷ seen) raws rest others))

-- If `parse` accepts a runbook, no two steps have one name, and every `when` refers to an earlier step.
pub parse-IsOrdered :
    (p : Patterns) (raws : List RawStep) (steps : List Step)
    → parse p raws ≡ ok steps
    → IsOrdered [] steps
unfolding parse
parse-IsOrdered p [] steps h = cc
parse-IsOrdered p (raw ∷ raws) steps h = parse_from-IsOrdered p 0 [] (raw ∷ raws) steps h
