-- ===== src/Audit/Verify.antt =====
-- What `verify` has seen of a log that it finds valid.
use mathlib.Core.List.{Memᴰ}
use aisb.Prelude.{
  ℕ, zero, suc, ◌+◌, ◌≤◌, ◌≡◌, refl, sym, ap, ◌∙◌, inl, inr, String, Bool, true, false, Option,
  none, some, List, [], ◌∷◌, eq_iff, arith, ltb, not_ltb→le, eqb, eqb_iff, length, take, any,
  Bool-cases,
}
use aisb.Audit.{
  Crypto, genesis, Anchor, valid, is_text, Record, digest, check_record, count_signed, conclude,
  walk, verify, anchors_mismatch, at_record,
}

is_text-eq : (o : Option String) (t : String) → is_text o t ≡ true → o ≡ some t
is_text-eq none t h = cc
is_text-eq (some s) t h = ap some ((eq_iff s t).0 h)

mem-at_record :
    (n : ℕ) (a : Anchor) (anchors : List Anchor)
    → a.records ≡ n
    → Memᴰ a anchors
    → Memᴰ a (at_record n anchors)
mem-at_record n a [] e m = elim m [ ]
mem-at_record n a (b ∷ anchors) e (Memᴰ.head p) =
    rw ((eqb_iff b.records n).1 (ap (λ (x : Anchor). x.records) (sym p) ∙ e)) (Memᴰ.head p)
mem-at_record n a (b ∷ anchors) e (Memᴰ.tail m) = elim (Bool-cases (eqb b.records n)) [
  | inl y ↦ rw y (Memᴰ.tail (mem-at_record n a anchors e m))
  | inr y ↦ rw y (mem-at_record n a anchors e m)
]

any_of_mem :
    (p : Anchor → Bool) (a : Anchor) (anchors : List Anchor)
    → any p anchors ≡ false
    → Memᴰ a anchors
    → p a ≡ false
any_of_mem p a [] h m = elim m [ ]
any_of_mem p a (b ∷ anchors) h (Memᴰ.head e) = rw e (ground arith)
any_of_mem p a (b ∷ anchors) h (Memᴰ.tail m) = any_of_mem p a anchors (ground arith) m

module _ (c : Crypto) where
  -- The chain: each record names the hash before it and holds its own.
  abbrev pub IsLinked : String → List (Record c) → String → Type 0
  IsLinked prev [] head = prev ≡ head
  IsLinked prev (r ∷ log) head =
      (r.prev ≡ some prev) × (r.hash ≡ some (digest c prev r)) × IsLinked (digest c prev r) log head

  check_record-linked :
      (k : Option String) (anchors : List Anchor) (prev : String) (n signed : ℕ) (r : Record c)
      → check_record c k anchors prev n signed r ≡ none
      → (r.prev ≡ some prev)
        × (r.hash ≡ some (digest c prev r))
        × (anchors_mismatch c (at_record n anchors) (digest c prev r) k ≡ none)
  unfolding check_record
  check_record-linked k anchors prev n signed r h = (
    is_text-eq r.prev prev (ground arith),
    is_text-eq r.hash (digest c prev r) (ground arith),
    ground arith,
  )

  pub walk-cons :
      (k : Option String) (anchors : List Anchor) (prev : String) (n signed : ℕ) (r : Record c)
      (log : List (Record c)) {m s : ℕ} {head : String}
      → walk c k anchors prev n signed (r ∷ log) ≡ valid m head s
      → (check_record c k anchors prev (suc n) signed r ≡ none)
        × (walk c k anchors (digest c prev r) (suc n) (count_signed signed r.mac) log
            ≡ valid m head s)
  unfolding walk
  walk-cons k anchors prev n signed r log h = ground arith

  pub conclude-valid :
      (k : Option String) (anchors : List Anchor) (prev : String) (n signed : ℕ) {m s : ℕ}
      {head : String}
      → conclude c k anchors prev n signed ≡ valid m head s
      → (n ≡ m)
        × (prev ≡ head)
        × (signed ≡ s)
        × (any (λ a. ltb n a.records) anchors ≡ false)
        × (anchors_mismatch c (at_record 0 anchors) genesis k ≡ none)
  unfolding conclude
  conclude-valid k anchors prev n signed h =
      (ground arith, ground arith, ground arith, ground arith, ground arith)

  pub walk-nil :
      (k : Option String) (anchors : List Anchor) (prev : String) (n signed : ℕ)
      → walk c k anchors prev n signed [] ≡ conclude c k anchors prev n signed
  unfolding walk
  walk-nil k anchors prev n signed = refl

  module _ (k : Option String) (anchors : List Anchor) {total s : ℕ} {head : String} where
    -- A valid log is linked from the start to the head that is reported, with the count of records.
    pub walk-IsLinked :
        (prev : String) (n signed : ℕ) (log : List (Record c))
        → walk c k anchors prev n signed log ≡ valid total head s
        → IsLinked prev log head × (total ≡ n + length log)
    walk-IsLinked prev n signed [] h =
        let found =
          conclude-valid k anchors prev n signed (sym (walk-nil k anchors prev n signed) ∙ h) in
        (found.1, omega (arith, found.0))
    walk-IsLinked prev n signed (r ∷ log) h =
        let (checked, rest) = walk-cons k anchors prev n signed r log h in
        let (p, d, _) = check_record-linked k anchors prev (suc n) signed r checked in
        let (linked, count) =
          walk-IsLinked (digest c prev r) (suc n) (count_signed signed r.mac) log rest in
        ((p, d, linked), omega arith)

  walk-start :
      (k : Option String) (anchors : List Anchor) (prev : String) (n signed : ℕ)
      (log : List (Record c)) {total s : ℕ} {head : String}
      → walk c k anchors prev n signed log ≡ valid total head s
      → anchors_mismatch c (at_record 0 anchors) genesis k ≡ none
  walk-start k anchors prev n signed [] h =
      let found =
        conclude-valid k anchors prev n signed (sym (walk-nil k anchors prev n signed) ∙ h) in
      found.4
  walk-start k anchors prev n signed (r ∷ log) h =
      let (_, rest) = walk-cons k anchors prev n signed r log h in
      walk-start k anchors (digest c prev r) (suc n) (count_signed signed r.mac) log rest

  anchors_head :
      (batch : List Anchor) (head : String) (k : Option String) (a : Anchor)
      → anchors_mismatch c batch head k ≡ none
      → Memᴰ a batch
      → a.head ≡ head
  unfolding anchors_mismatch
  anchors_head [] head k a h m = elim m [ ]
  anchors_head (b ∷ batch) head k a h (Memᴰ.head e) = rw e (ground (arith, eq_iff b.head head))
  anchors_head (b ∷ batch) head k a h (Memᴰ.tail m) = anchors_head batch head k a (ground arith) m

  module _ (k : Option String) (anchors : List Anchor) (a : Anchor) {total s : ℕ} {head : String}
      (here : Memᴰ a anchors) where
    -- An anchor behind the records that were read: the log reaches it, and its head is the one
    -- that the log has there.
    pub walk-anchor :
        (prev : String) (n signed m : ℕ) (log : List (Record c))
        → walk c k anchors prev n signed log ≡ valid total head s
        → a.records ≡ n + suc m
        → (suc m ≤ length log) × IsLinked prev (take (suc m) log) a.head
    walk-anchor prev n signed m [] h e =
        let found =
          conclude-valid k anchors prev n signed (sym (walk-nil k anchors prev n signed) ∙ h) in
        let near = any_of_mem (λ b. ltb n b.records) a anchors found.3 here in
        absurd (omega (arith, not_ltb→le n a.records near))
    walk-anchor prev n signed zero (r ∷ log) h e =
        let (checked, _) = walk-cons k anchors prev n signed r log h in
        let (p, d, q) = check_record-linked k anchors prev (suc n) signed r checked in
        let same =
          anchors_head (at_record (suc n) anchors) (digest c prev r) k a q
            (mem-at_record (suc n) a anchors (omega arith) here) in
        (omega arith, (p, d, sym same))
    walk-anchor prev n signed (suc m) (r ∷ log) h e =
        let (checked, rest) = walk-cons k anchors prev n signed r log h in
        let (p, d, _) = check_record-linked k anchors prev (suc n) signed r checked in
        let (fits, linked) =
          walk-anchor (digest c prev r) (suc n) (count_signed signed r.mac) m log rest
            (omega arith) in
        (omega arith, (p, d, linked))

  -- Where `verify` finds a log valid, every anchor's record is in it, and the log up to there ends
  -- in the anchor's head.
  pub verify-anchor :
      (k : Option String) (anchors : List Anchor) (log : List (Record c)) (a : Anchor) {total s : ℕ}
      {head : String}
      → verify c k anchors log ≡ valid total head s
      → Memᴰ a anchors
      → (a.records ≤ length log) × IsLinked genesis (take a.records log) a.head
  unfolding verify
  verify-anchor k anchors log a h here = by_place a.records refl
    where
      by_place : (n : ℕ) → a.records ≡ n → (n ≤ length log) × IsLinked genesis (take n log) a.head
      by_place zero e = (
        omega arith,
        sym (
            anchors_head (at_record 0 anchors) genesis k a (walk-start k anchors genesis 0 0 log h)
              (mem-at_record 0 a anchors e here)),
      )
      by_place (suc m) e = walk-anchor k anchors a here genesis 0 0 m log h (omega arith)

  pub verify-IsLinked :
      (k : Option String) (anchors : List Anchor) (log : List (Record c)) {total s : ℕ}
      {head : String}
      → verify c k anchors log ≡ valid total head s
      → IsLinked genesis log head × (total ≡ length log)
  unfolding verify
  verify-IsLinked k anchors log h =
      let (linked, count) = walk-IsLinked k anchors genesis 0 0 log h in (linked, omega arith)
