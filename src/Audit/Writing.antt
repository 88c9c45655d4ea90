-- ===== src/Audit/Writing.antt =====
-- What `record` appends, `verify` accepts; a record that could not be signed is flagged.
use Prim.Native.String
use Prim.Native.String.{count}
use aisb.Prelude.{
  ℕ, suc, ◌≡◌, ◌≢◌, refl, sym, ap, ◌∙◌, String, false, Option, none, some, All, length, List, [],
  ◌∷◌, ◌++◌, arith, ◌==◌, eq_iff, eq_refl, Bool-cases, inl, inr,
}
use aisb.Audit.{
  Crypto, genesis, Reason, not_signed, valid, invalid, KeyFile, unset, key, unusable, Record, body,
  failure_of, kid_of, digest, last_hash, or_genesis, sealed, write, check_record, count_signed,
  conclude, walk, verify,
}
use aisb.Audit.Verify.{IsLinked, walk-cons, walk-nil, conclude-valid, verify-IsLinked}
use aisb.Audit.Tamper.{HasDigestLength}

abbrev pub configured : KeyFile → Option String
configured (key k) = some k
configured _ = none

-- A log with signed records is written on with a key only.
abbrev pub MaySign : KeyFile → ℕ → Type 0
MaySign unset signed = signed ≡ 0
MaySign (key k) signed = Unit {0}
MaySign (unusable why) signed = ⊥

abbrev pub signed_after : KeyFile → ℕ → ℕ
signed_after (key k) signed = suc signed
signed_after _ signed = signed

not_empty : (t : String) → count t ≡ 64 → (t == "") ≡ false
not_empty t h = elim (Bool-cases (t == "")) [
  | inl e ↦ absurd (let wrong : count "" ≡ 64 = rw ((eq_iff t "").0 e) at h in omega arith)
  | inr e ↦ e
]

ne_text : (t : String) → t ≢ "" → (t == "") ≡ false
ne_text t h = elim (Bool-cases (t == "")) [ inl e ↦ absurd (h ((eq_iff t "").0 e)) | inr e ↦ e ]

abbrev pub IsUsable : KeyFile → Type 0
IsUsable (unusable why) = ⊥
IsUsable _ = Unit {0}

abbrev pub signed_total : KeyFile → ℕ → ℕ
signed_total (key k) n = n
signed_total _ n = 0

MaySign-total : (kf : KeyFile) (n : ℕ) → IsUsable kf → MaySign kf (signed_total kf n)
MaySign-total unset n u = refl
MaySign-total (key k) n u = tt
MaySign-total (unusable why) n u = u

signed_after-total :
    (kf : KeyFile) (n : ℕ)
    → IsUsable kf
    → signed_after kf (signed_total kf n) ≡ signed_total kf (suc n)
signed_after-total unset n u = refl
signed_after-total (key k) n u = refl
signed_after-total (unusable why) n u = absurd u

module _ (c : Crypto) where
  open c use {Fields, dumps, reread, sha256}

  -- Reading the line back does not change the canonical JSON of the fields.
  abbrev pub IsStable : Fields → Type 0
  IsStable f = (u k p : Option String) → dumps (reread f) u k p ≡ dumps f u k p

  or_genesis-digest :
      HasDigestLength c
      → (p : String) (r : Record c) → or_genesis (some (digest c p r)) ≡ digest c p r
  unfolding digest
  or_genesis-digest len p r = rw (not_empty (sha256 (String.◌++◌ p (body c r))) (len _))

  last_hash-linked :
      HasDigestLength c
      → (log : List (Record c)) (p head : String) → IsLinked c p log head
      → log ≢ []
      → last_hash c log ≡ head
  unfolding last_hash
  last_hash-linked len [] p head h ne = absurd (ne refl)
  last_hash-linked len (r ∷ []) p head (_, d, e) ne = rw d (or_genesis-digest len p r ∙ e)
  last_hash-linked len (r ∷ s ∷ log) p head (_, _, h) ne =
      last_hash-linked len (s ∷ log) (digest c p r) head h (λ e. cc)

  last_hash-head :
      HasDigestLength c
      → (log : List (Record c)) (head : String) → IsLinked c genesis log head
      → last_hash c log ≡ head
  last_hash-head len [] head h = unfold last_hash in h
  last_hash-head len (r ∷ log) head h = last_hash-linked len (r ∷ log) genesis head h (λ e. cc)

  walk_step :
      (k : Option String) (prev : String) (n signed : ℕ) (r : Record c) (log : List (Record c))
      → check_record c k [] prev (suc n) signed r ≡ none
      → walk c k [] prev n signed (r ∷ log)
        ≡ walk c k [] (digest c prev r) (suc n) (count_signed signed r.mac) log
  unfolding walk
  walk_step k prev n signed r log h = ground arith

  walk-append :
      (k : Option String) (prev : String) (n signed : ℕ) (log : List (Record c)) (r : Record c)
      (m s : ℕ) (head : String)
      → walk c k [] prev n signed log ≡ valid m head s
      → walk c k [] prev n signed (log ++ r ∷ []) ≡ walk c k [] head m s (r ∷ [])
  walk-append k prev n signed [] r m s head h =
      let found = conclude-valid c k [] prev n signed (sym (walk-nil c k [] prev n signed) ∙ h) in
      rw (found.0, found.1, found.2)
  walk-append k prev n signed (q ∷ log) r m s head h =
      let (checked, rest) = walk-cons c k [] prev n signed q log h in
      walk_step k prev n signed q (log ++ r ∷ []) checked
      ∙ walk-append k (digest c prev q) (suc n) (count_signed signed q.mac) log r m s head rest

  -- the record whose hash is stored
  abbrev in_memory : KeyFile → String → Fields → Record c
  in_memory kf prev f = record {
    fields = f;
    unsigned = failure_of c kf;
    kid = kid_of c kf;
    prev = some prev;
    hash = none;
    mac = none;
  }

  digest-sealed :
      (kf : KeyFile) (prev : String) (f : Fields)
      → IsStable f
      → digest c prev (sealed c kf prev f) ≡ digest c prev (in_memory kf prev f)
  unfolding sealed digest body
  digest-sealed kf prev f stable =
      ap (λ t. sha256 (String.◌++◌ prev t)) (stable (failure_of c kf) (kid_of c kf) (some prev))

  check_record-sealed :
      (kf : KeyFile) (prev : String) (n signed : ℕ) (f : Fields)
      → IsStable f
      → MaySign kf signed
      → check_record c (configured kf) [] prev n signed (sealed c kf prev f) ≡ none
  unfolding check_record sealed
  check_record-sealed unset prev n signed f stable h =
      rw (eq_refl prev, digest-sealed unset prev f stable, eq_refl, h)
  check_record-sealed (key k) prev n signed f stable h =
      rw (eq_refl prev, digest-sealed (key k) prev f stable, eq_refl, eq_refl, eq_refl)
  check_record-sealed (unusable why) prev n signed f stable h = absurd h

  walk-sealed :
      (kf : KeyFile) (head : String) (n signed : ℕ) (f : Fields)
      → IsStable f
      → MaySign kf signed
      → walk c (configured kf) [] head n signed (sealed c kf head f ∷ [])
        ≡ valid (suc n) (digest c head (sealed c kf head f)) (signed_after kf signed)
  walk-sealed unset head n signed f stable h =
      walk_step none head n signed _ [] (check_record-sealed unset head (suc n) signed f stable h)
      ∙ unfold walk conclude sealed in refl
  walk-sealed (key k) head n signed f stable h =
      walk_step (some k) head n signed _ []
        (check_record-sealed (key k) head (suc n) signed f stable h)
      ∙ unfold walk conclude sealed in refl
  walk-sealed (unusable why) head n signed f stable h = absurd h

  -- With a hash whose results have 64 characters, a record written to a valid log leaves it valid: one
  -- record more, one signature more where there is a key, and the new record's hash as the head. The
  -- key file holds a key, or it is off and no record before is signed; and reading the record's line
  -- back does not change the canonical JSON that is hashed.
  pub verify-write :
      HasDigestLength c
      → (kf : KeyFile) (f : Fields) (log : List (Record c)) (n s : ℕ) (head : String) → IsStable f
      → MaySign kf s
      → verify c (configured kf) [] log ≡ valid n head s
      → verify c (configured kf) [] (write c kf f log)
        ≡ valid (suc n) (digest c head (sealed c kf head f)) (signed_after kf s)
  verify-write len kf f log n s head stable may h =
      let last = last_hash-head len log head (verify-IsLinked c (configured kf) [] log h).0 in
      unfold write verify in
      rw last (
        walk-append (configured kf) genesis 0 0 log _ n s head h
        ∙ walk-sealed kf head n s f stable may)

  -- what `record` writes over time with one key file, the newest first in the argument
  unfoldable pub write_all : KeyFile → List Fields → List (Record c)
  write_all kf [] = []
  write_all kf (f ∷ fs) = write c kf f (write_all kf fs)

  unfold_write :
      (kf : KeyFile) (f : Fields) (fs : List Fields)
      → verify c (configured kf) [] (write_all kf (f ∷ fs))
        ≡ verify c (configured kf) [] (write c kf f (write_all kf fs))
  unfolding write_all
  unfold_write kf f fs = refl

  empty_valid :
      (kf : KeyFile)
      → IsUsable kf
      → verify c (configured kf) [] (write_all kf []) ≡ valid 0 genesis (signed_total kf 0)
  unfolding write_all verify
  empty_valid unset u = refl
  empty_valid (key k) u = refl
  empty_valid (unusable why) u = absurd u

  -- With such a hash and records whose lines are read back like that, written with signing off or with
  -- a key, the whole log verifies: as many records as were written, every one of them signed where
  -- there is a key.
  pub verify-write_all :
      HasDigestLength c
      → (kf : KeyFile) (fs : List Fields) → IsUsable kf
      → All IsStable fs
      → (head : String) × (verify c (configured kf) [] (write_all kf fs)
          ≡ valid (length fs) head (signed_total kf (length fs)))
  verify-write_all len kf [] u stable = (genesis, empty_valid kf u)
  verify-write_all len kf (f ∷ fs) u (stable, others) =
      let (head, h) = verify-write_all len kf fs u others in
      let r = sealed c kf head f in
      (
        digest c head r,
        unfold_write kf f fs
            ∙ verify-write len kf f (write_all kf fs) (length fs) _ head stable
                (MaySign-total kf _ u) h
            ∙ ap (valid (suc (length fs)) (digest c head r)) (signed_after-total kf (length fs) u),
      )

  check_record-unsigned :
      (k : Option String) (why prev : String) (n signed : ℕ) (f : Fields)
      → IsStable f
      → why ≢ ""
      → check_record c k [] prev n signed (sealed c (unusable why) prev f) ≡ some (not_signed why)
  unfolding check_record sealed
  check_record-unsigned k why prev n signed f stable ne =
      rw (eq_refl prev, digest-sealed (unusable why) prev f stable, eq_refl, ne_text why ne)

  walk_fail :
      (k : Option String) (prev : String) (n signed : ℕ) (r : Record c) (log : List (Record c))
      (bad : Reason)
      → check_record c k [] prev (suc n) signed r ≡ some bad
      → walk c k [] prev n signed (r ∷ log) ≡ invalid (suc n) (suc n) bad
  unfolding walk
  walk_fail k prev n signed r log bad h = ground arith

  -- With such a hash, a record whose line is read back like that and that could not be signed, for a
  -- reason that is not empty, is kept behind a valid log, and `verify` stops at it with the reason.
  pub verify-write_unsigned :
      HasDigestLength c
      → (k : Option String) (why : String) (f : Fields) (log : List (Record c)) (n s : ℕ)
        (head : String)
      → IsStable f
      → why ≢ ""
      → verify c k [] log ≡ valid n head s
      → verify c k [] (write c (unusable why) f log) ≡ invalid (suc n) (suc n) (not_signed why)
  verify-write_unsigned len k why f log n s head stable ne h =
      let last = last_hash-head len log head (verify-IsLinked c k [] log h).0 in
      unfold write verify in
      rw last (
        walk-append k genesis 0 0 log _ n s head h
        ∙ walk_fail k head n s (sealed c (unusable why) head f) [] (not_signed why)
            (check_record-unsigned k why head (suc n) s f stable ne))
