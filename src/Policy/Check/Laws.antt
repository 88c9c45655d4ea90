-- ===== src/Policy/Check/Laws.antt =====
-- What the rules guarantee: a rule that denies cannot be outvoted, and broad rules do not lock the
-- reads that explain them.
use Prim.Native.String.{String}
use aisb.Prelude.{
  ℕ, ◌+◌, ◌≡◌, ◌≢◌, refl, sym, ap, ◌∙◌, inl, inr, eq_iff, Bool, true, false, List, [], ◌∷◌, ◌++◌,
  keep, All, arith,
}
use aisb.Prelude.Results.{ok, >>=-eq-ok, Result-cases, ok_injective}
use aisb.Policy.{Ctx}
use aisb.Policy.Window.{Moment}
use aisb.Policy.Conditions.{Kwargs}
use aisb.Policy.Check.{
  World, Rule, Reason, not_allowed, window_reasons, reason_if, Violation, or_text, has_op,
  is_governance_read, applies, reasons_of, violations_of, check_from, check, is_blocking, judge,
  enforce,
}

keep-append {ℓ} :
    {A : Type ℓ} (p : A → Bool) (xs ys : List A) → keep p (xs ++ ys) ≡ keep p xs ++ keep p ys
keep-append p [] ys = refl
keep-append p (x ∷ xs) ys = ground (arith, keep-append p xs ys)

append-eq-nil {ℓ} : {A : Type ℓ} (xs ys : List A) → xs ++ ys ≡ [] → (xs ≡ []) × (ys ≡ [])
append-eq-nil [] ys h = (refl, h)
append-eq-nil (x ∷ xs) ys h = cc

reason_if-true :
    (b : Bool) (x : Reason) (rest : List Reason) → b ≡ true → reason_if b x ++ rest ≡ x ∷ rest
reason_if-true true x rest h = refl
reason_if-true false x rest h = cc

module _ (w : World) (op tier : String) (kwargs : Kwargs) (ctx : Ctx) (now : Moment) where
  -- no violation of the list blocks
  abbrev pub NoneBlocks : List Violation → Type 0
  NoneBlocks vs = keep is_blocking vs ≡ []

  NoneBlocks-append :
      (xs ys : List Violation) → NoneBlocks (xs ++ ys) → NoneBlocks xs × NoneBlocks ys
  NoneBlocks-append xs ys h =
      append-eq-nil (keep is_blocking xs) (keep is_blocking ys)
        (sym (keep-append is_blocking xs ys) ∙ h)

  check_from-cons :
      (i : ℕ) (r : Rule) (rules : List Rule) (found : List Violation)
      → check_from w i (r ∷ rules) op tier kwargs ctx now ≡ ok found
      → (here : List Violation) × (rest : List Violation) × (violations_of w i r op tier kwargs ctx
            now
          ≡ ok here)
        × (check_from w (i + 1) rules op tier kwargs ctx now ≡ ok rest)
        × (here ++ rest ≡ found)
  unfolding check_from
  check_from-cons i r rules found h =
      let (here, f, h') = >>=-eq-ok (violations_of w i r op tier kwargs ctx now) _ h in
      let (rest, g, e) = >>=-eq-ok (check_from w (i + 1) rules op tier kwargs ctx now) _ h' in
      (here, rest, f, g, cc e)

  -- Some rule's violations stand in what the whole list finds.
  check_from-part :
      (before after : List Rule) (r : Rule) (i : ℕ) (found : List Violation)
      → check_from w i (before ++ r ∷ after) op tier kwargs ctx now ≡ ok found
      → NoneBlocks found
      → (j : ℕ) × (vs : List Violation) × (violations_of w j r op tier kwargs ctx now ≡ ok vs)
        × NoneBlocks vs
  check_from-part [] after r i found h quiet =
      let (here, rest, f, _, e) = check_from-cons i r after found h in
      (i, here, f, (NoneBlocks-append here rest (ap (keep is_blocking) e ∙ quiet)).0)
  check_from-part (b ∷ before) after r i found h quiet =
      let (here, rest, _, g, e) = check_from-cons i b (before ++ r ∷ after) found h in
      check_from-part before after r (i + 1) rest g
        (NoneBlocks-append here rest (ap (keep is_blocking) e ∙ quiet)).1

  judge-ok :
      (found vs denied : List Violation) → judge found denied ≡ ok vs → (denied ≡ []) × (found ≡ vs)
  judge-ok found vs [] h = (refl, cc h)
  judge-ok found vs (d ∷ denied) h = cc

  enforce-judge :
      (rules : List Rule) (found : List Violation)
      → check_from w 0 rules op tier kwargs ctx now ≡ ok found
      → enforce w rules op tier kwargs ctx now ≡ judge found (keep is_blocking found)
  unfolding enforce check
  enforce-judge rules found f = rw (f, enforce)

  enforce-check :
      (rules : List Rule) (vs : List Violation)
      → enforce w rules op tier kwargs ctx now ≡ ok vs
      → (check_from w 0 rules op tier kwargs ctx now ≡ ok vs) × NoneBlocks vs
  unfolding enforce check
  enforce-check rules vs h = elim (Result-cases (check_from w 0 rules op tier kwargs ctx now)) [
    | inr (e, f) ↦ ground (arith, f)
    | inl (found, f) ↦
        let (quiet, same) =
          judge-ok found vs (keep is_blocking found) (sym (enforce-judge rules found f) ∙ h) in
        (f ∙ ap ok same, rw (← same) quiet)
  ]

  reasons_of-deny :
      (r : Rule) (reasons : List Reason)
      → r.deny ≡ true
      → reasons_of w r op kwargs ctx now ≡ ok reasons
      → (rest : List Reason) × (reasons ≡ not_allowed (or_text r.message op) ∷ rest)
  unfolding reasons_of
  reasons_of-deny r reasons d h =
      let (outside, f, e) = >>=-eq-ok (window_reasons w r.window now) _ h in
      (_, sym (ok_injective e) ∙ reason_if-true r.deny (not_allowed (or_text r.message op)) _ d)

  deny_found :
      (j : ℕ) (r : Rule) (found : List Violation)
      → applies w r op tier ctx ≡ true
      → r.deny ≡ true
      → or_text r.mode "deny" ≢ "warn"
      → violations_of w j r op tier kwargs ctx now ≡ ok found
      → NoneBlocks found
      → ⊥
  unfolding violations_of is_blocking
  deny_found j r found a d m f quiet = elim (Result-cases (reasons_of w r op kwargs ctx now)) [
    | inr (e, g) ↦ ground (arith, a, f, g)
    | inl (reasons, g) ↦
        let (rest, same) = reasons_of-deny r reasons d g in
        ground (arith, a, f, g, same, eq_iff (or_text r.mode "deny") "warn")
  ]

  -- A rule that applies and denies, in any mode but "warn", stops the operation, whatever rules stand
  -- before and behind it.
  pub deny_blocks :
      (before after : List Rule) (r : Rule) (vs : List Violation)
      → applies w r op tier ctx ≡ true
      → r.deny ≡ true
      → or_text r.mode "deny" ≢ "warn"
      → enforce w (before ++ r ∷ after) op tier kwargs ctx now ≢ ok vs
  deny_blocks before after r vs a d m h =
      let (checked, quiet) = enforce-check (before ++ r ∷ after) vs h in
      let (j, found, f, silent) = check_from-part before after r 0 vs checked quiet in
      deny_found j r found a d m f silent

  -- A governance read is never held up by rules that do not name it: whatever they ask for, `check`
  -- finds nothing.
  pub governance_reads_pass :
      (rules : List Rule) (i : ℕ)
      → is_governance_read op ≡ true
      → All (λ r. has_op r.match ≡ false) rules
      → check_from w i rules op tier kwargs ctx now ≡ ok []
  unfolding check_from violations_of applies
  governance_reads_pass [] i g h = refl
  governance_reads_pass (r ∷ rules) i g (here, h) =
      ground (arith, governance_reads_pass rules (i + 1) g h)
