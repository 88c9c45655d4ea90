-- ===== src/Sql/Reading.antt =====
-- What a server reads where src/aisb/services/sql.py and roles.py have written a text between quotes.
use Prim.Native.Nat.{ℕ}
use aisb.Prelude.{
  ℕ, ◌≡◌, refl, sym, ap, ◌∙◌, Bool, true, false, not, ◌&&◌, Option, none, some, [], ◌∷◌, ◌++◌, eqb,
  eqb_iff, Bool-cases, inl, inr, if◌then◌else◌, append_assoc,
}
use aisb.Yaml.Text.{Text}
use aisb.Sql.{doubled, quoted, lit, single, double, backtick, backslash, pg_ident, my_ident}

abbrev prefixed : ℕ → Option (Text × Text) → Option (Text × Text)
prefixed c none = none
prefixed c (some (u, rest)) = some (c ∷ u, rest)

-- does a text go on with another character than this?
abbrev pub goes_on_without : ℕ → Text → Bool
goes_on_without q [] = true
goes_on_without q (c ∷ s) = not (eqb c q)

module _ (escaped : ℕ → ℕ) where
  -- The lexical rule of SQL for what is quoted, after the first quote: two quotes stand for one, and
  -- a quote that is followed by something else ends it. Where backslashes escape, a backslash and a
  -- character stand for what `escaped` says.
  read_to : ℕ → Bool → Text → Option (Text × Text)
  read_to q escapes [] = none
  read_to q escapes (c ∷ []) = if eqb c q then some ([], []) else none
  read_to q escapes (c ∷ d ∷ s) =
      let behind = read_to q escapes s in
      let next = read_to q escapes (d ∷ s) in
      if eqb c q
      then (if eqb d q then prefixed q behind else some ([], d ∷ s))
      else if escapes && eqb c backslash
      then prefixed (escaped d) behind
      else prefixed c next

  -- the same from the first quote on
  unfoldable pub read_quoted : ℕ → Bool → Text → Option (Text × Text)
  unfolding read_to
  read_quoted q escapes [] = none
  read_quoted q escapes (c ∷ s) = if eqb c q then read_to q escapes s else none

  module _ (q : ℕ) (escapes : Bool) where
    reads_plain :
        (c : ℕ) (t : Text)
        → eqb c q ≡ false
        → (escapes && eqb c backslash) ≡ false
        → read_to q escapes (c ∷ t) ≡ prefixed c (read_to q escapes t)
    unfolding read_to
    reads_plain c [] e f = rw e refl
    reads_plain c (d ∷ s) e f = rw (e, f) refl

    reads_doubled : (t : Text) → read_to q escapes (q ∷ q ∷ t) ≡ prefixed q (read_to q escapes t)
    unfolding read_to
    reads_doubled t = rw ((eqb_iff q q).1 refl) refl

    reads_end :
        (rest : Text)
        → goes_on_without q rest ≡ true
        → read_to q escapes (q ∷ rest) ≡ some ([], rest)
    unfolding read_to
    reads_end [] h = rw ((eqb_iff q q).1 refl) refl
    reads_end (d ∷ s) h =
        rw ((eqb_iff q q).1 refl)
          (elim (Bool-cases (eqb d q)) [ inl e ↦ absurd (clash (rw e at h)) | inr e ↦ rw e refl ])
      where
        clash : false ≡ true → ⊥
        clash h = cc

  reads_literally :
      (q : ℕ) (s rest : Text)
      → goes_on_without q rest ≡ true
      → read_to q false (doubled q s ++ (q ∷ rest)) ≡ some (s, rest)
  unfolding doubled
  reads_literally q [] rest h = reads_end q false rest h
  reads_literally q (c ∷ s) rest h = elim (Bool-cases (eqb c q)) [
    | inl e ↦ rw e (
        reads_doubled q false (doubled q s ++ (q ∷ rest))
        ∙ ap (prefixed q) (reads_literally q s rest h)
        ∙ ap (λ c. some (c ∷ s, rest)) (sym ((eqb_iff c q).0 e)))
    | inr e ↦ rw e (
        reads_plain q false c (doubled q s ++ (q ∷ rest)) e refl
        ∙ ap (prefixed c) (reads_literally q s rest h))
  ]

  reads_backslash :
      (t : Text)
      → read_to single true (backslash ∷ backslash ∷ t)
        ≡ prefixed (escaped backslash) (read_to single true t)
  unfolding read_to
  reads_backslash t = refl

  -- where backslashes escape, and are doubled
  reads_escaped :
      (s rest : Text)
      → escaped backslash ≡ backslash
      → goes_on_without single rest ≡ true
      → read_to single true (doubled single (doubled backslash s) ++ (single ∷ rest))
        ≡ some (s, rest)
  unfolding doubled
  reads_escaped [] rest g h = reads_end single true rest h
  reads_escaped (c ∷ s) rest g h = elim (Bool-cases (eqb c backslash)) [
    | inl e ↦ rw e (
        reads_backslash (doubled single (doubled backslash s) ++ (single ∷ rest))
        ∙ ap (prefixed (escaped backslash)) (reads_escaped s rest g h)
        ∙ ap (λ c. some (c ∷ s, rest)) (g ∙ sym ((eqb_iff c backslash).0 e)))
    | inr e ↦ elim (Bool-cases (eqb c single)) [
      | inl f ↦
          rw (e, f)
            (reads_doubled single true (doubled single (doubled backslash s) ++ (single ∷ rest))
              ∙ ap (prefixed single) (reads_escaped s rest g h)
              ∙ ap (λ c. some (c ∷ s, rest)) (sym ((eqb_iff c single).0 f)))
      | inr f ↦
          rw (e, f)
            (reads_plain single true c (doubled single (doubled backslash s) ++ (single ∷ rest)) f e
              ∙ ap (prefixed c) (reads_escaped s rest g h))
    ]
  ]

  quoted-read :
      (q : ℕ) (s rest : Text)
      → goes_on_without q rest ≡ true
      → read_quoted q false (quoted q s ++ rest) ≡ some (s, rest)
  unfolding read_quoted quoted
  quoted-read q s rest h =
      rw ((eqb_iff q q).1 refl) (
        ap (read_to q false) (append_assoc (doubled q s) (q ∷ []) rest)
        ∙ reads_literally q s rest h)

  -- A name that `pg_ident` or `my_ident` has quoted, followed by anything but its quote, is read back as
  -- that name, and reading ends where it ends, whatever characters the name has.
  ident-read :
      (s rest : Text)
      → (goes_on_without double rest ≡ true
          → read_quoted double false (pg_ident s ++ rest) ≡ some (s, rest))
        × (goes_on_without backtick rest ≡ true
            → read_quoted backtick false (my_ident s ++ rest) ≡ some (s, rest))
  unfolding pg_ident my_ident
  ident-read s rest = (quoted-read double s rest, quoted-read backtick s rest)

  -- If a backslash stands for itself after a backslash: a literal that `lit` has written for a server,
  -- followed by anything but a single quote, is read back by that server, with or without escapes by
  -- backslashes, as the text that was written, and the literal ends where it ends: no text breaks out
  -- of it.
  pub lit-read :
      (escapes : Bool) (s rest : Text)
      → escaped backslash ≡ backslash
      → goes_on_without single rest ≡ true
      → read_quoted single escapes (lit escapes s ++ rest) ≡ some (s, rest)
  unfolding lit quoted read_quoted
  lit-read false s rest g h = quoted-read single s rest h
  lit-read true s rest g h =
      ap (read_to single true)
        (append_assoc (doubled single (doubled backslash s)) (single ∷ []) rest)
      ∙ reads_escaped s rest g h
