-- ===== src/Sql/Literals.antt =====
-- `mysql_client_command` of src/aisb/services/sql.py on what `lit` writes.
use Prim.Native.Nat.{ℕ}
use aisb.Prelude.{
  ℕ, ◌≡◌, refl, sym, ap, ◌∙◌, Bool, true, false, ◌&&◌, Option, none, some, [], ◌∷◌, ◌++◌, eqb,
  Bool-cases, inl, inr, if◌then◌else◌, append_assoc, append-nil,
}
use aisb.Yaml.Text.{Text}
use aisb.Sql.{doubled, quoted, lit, single, backslash}
use aisb.Sql.Client.{
  World, Turn, go_on, comment_end, comment_turn, word_turn, turn, scan, or_next,
  mysql_client_command,
}

module _ (w : World) (escapes : Bool) where
  no_comment : (t : Text) → comment_end w (single ∷ t) ≡ none
  unfolding comment_end
  no_comment [] = refl
  no_comment (c ∷ t) = refl

  scan-turn :
      (q r : Option ℕ) (i j : Bool) (k c : ℕ) (t : Text)
      → turn w escapes q i c t ≡ go_on r j k
      → scan w escapes q i 0 (c ∷ t) ≡ scan w escapes r j k t
  unfolding scan
  scan-turn q r i j k c t e = rw (e, scan) refl

  -- outside a quote, where no statement starts: a single quote opens one
  scan_opens :
      (t : Text) → scan w escapes none false 0 (single ∷ t) ≡ scan w escapes (some single) false 0 t
  unfolding turn word_turn
  scan_opens t =
      scan-turn none (some single) false false 0 single t
        (ap (comment_turn w false single t) (no_comment t))

  scan_closes :
      (t : Text) → scan w escapes (some single) false 0 (single ∷ t) ≡ scan w escapes none false 0 t
  unfolding scan turn
  scan_closes t = refl

  scan_passes :
      (c : ℕ) (t : Text)
      → eqb c single ≡ false
      → (eqb c backslash && escapes) ≡ false
      → scan w escapes (some single) false 0 (c ∷ t) ≡ scan w escapes (some single) false 0 t
  unfolding scan turn
  scan_passes c t e f = rw (e, f) refl

  scan_skips :
      (t : Text)
      → scan w escapes (some single) false 0 (backslash ∷ backslash ∷ t)
        ≡ scan w escapes (some single) false 0 t
  unfolding scan turn
  scan_skips t = elim (Bool-cases escapes) [
    | inl e ↦
        scan-turn (some single) (some single) false false 1 backslash (backslash ∷ t) (skipping e)
    | inr e ↦
        scan-turn (some single) (some single) false false 0 backslash (backslash ∷ t) (skipping e)
        ∙ scan-turn (some single) (some single) false false 0 backslash t (skipping e)
  ]
    where
      skipping :
          {b : Bool}
          → escapes ≡ b
          → ◌≡◌ {A = Turn}
              (go_on (some single) false (if escapes then 1 else 0))
              (go_on (some single) false (if b then 1 else 0))
      skipping e = ap (λ b. go_on (some single) false (if b then 1 else 0)) e

  scan_inside :
      (s rest : Text)
      → scan w escapes
          (some single)
          false
          0
          (doubled single (doubled backslash s) ++ (single ∷ rest))
        ≡ scan w escapes none false 0 rest
  unfolding doubled
  scan_inside [] rest = scan_closes rest
  scan_inside (c ∷ s) rest = elim (Bool-cases (eqb c backslash)) [
    | inl e ↦
        rw e (
          scan_skips (doubled single (doubled backslash s) ++ (single ∷ rest)) ∙ scan_inside s rest)
    | inr e ↦ elim (Bool-cases (eqb c single)) [
      | inl f ↦
          rw (e, f)
            (scan_closes (single ∷ (doubled single (doubled backslash s) ++ (single ∷ rest)))
              ∙ scan_opens (doubled single (doubled backslash s) ++ (single ∷ rest))
              ∙ scan_inside s rest)
      | inr f ↦
          rw (e, f)
            (scan_passes c (doubled single (doubled backslash s) ++ (single ∷ rest)) f (rw e refl)
              ∙ scan_inside s rest)
    ]
  ]

  -- Where a statement may start, too, if neither a command nor white space starts with a quote.
  scan-lit :
      (idle : Bool) (s rest : Text)
      → ((t : Text) → w.long_command (single ∷ t) ≡ none)
      → w.is_space single ≡ false
      → scan w escapes none idle 0 (lit true s ++ rest) ≡ scan w escapes none false 0 rest
  unfolding lit quoted turn word_turn
  scan-lit idle s rest h g =
      opens idle ((doubled single (doubled backslash s) ++ (single ∷ [])) ++ rest)
      ∙ ap (scan w escapes (some single) false 0)
          (append_assoc (doubled single (doubled backslash s)) (single ∷ []) rest)
      ∙ scan_inside s rest
    where
      opens :
          (idle : Bool) (t : Text)
          → scan w escapes none idle 0 (single ∷ t) ≡ scan w escapes (some single) false 0 t
      opens false t = scan_opens t
      opens true t = scan-turn none (some single) true false 0 single t (
          ap (word_turn w true single t) (h t)
          ∙ ap (comment_turn w true single t) (no_comment t)
          ∙ ap (λ b. go_on (some single) b 0) g)

-- Where neither white space nor a command of the client starts with a single quote: a literal that
-- `lit` writes for MySQL holds no command of the client, whatever text it is of, and before a text
-- `rest` it changes nothing but that no statement starts there any more: a command is found, by
-- either way to read strings, exactly where it is found in `rest` alone.
pub mysql_client_command-lit :
    (w : World) (s rest : Text)
    → ((t : Text) → w.long_command (single ∷ t) ≡ none)
    → w.is_space single ≡ false
    → (mysql_client_command w (lit true s) ≡ none)
      × (mysql_client_command w (lit true s ++ rest)
          ≡ or_next (scan w true none false 0 rest) (scan w false none false 0 rest))
unfolding mysql_client_command scan
mysql_client_command-lit w s rest h g = (
  ap (mysql_client_command w) (sym (append-nil (lit true s)))
      ∙ rw (scan-lit w true true s [] h g, scan-lit w false true s [] h g) refl,
  rw (scan-lit w true true s rest h g, scan-lit w false true s rest h g) refl,
)
