-- ===== src/Audit/Tamper.antt =====
-- Two logs that `verify` finds valid with one head hold the same texts, unless SHA-256 takes two
-- texts hashed at one place of the two logs to one digest. Nothing is assumed of SHA-256 but the length
-- of its digest.
use Prim.Native.String
use Prim.Native.String.{count}
use mathlib.Core.List.{Memᴰ}
use text.Mathlib.TextLemmas.{append_inj}
use aisb.Prelude.{
  ℕ, ◌≤◌, ◌≡◌, refl, sym, ap, ◌∙◌, ◌≢◌, ◌⊎◌, inl, inr, String, Option, some, List, [], ◌∷◌, arith,
  ◌==◌, eq_iff, Bool-cases, length, take, length-take,
}
use aisb.Audit.{Crypto, genesis, Anchor, valid, Record, body, digest, verify}
use aisb.Audit.Verify.{IsLinked, verify-IsLinked, verify-anchor}

module _ (c : Crypto) where
  open c use {sha256}

  -- Somewhere along the two logs, read behind `p` and `q`, the texts that are hashed differ and have
  -- one hash.
  abbrev pub Clash : String → String → List (Record c) → List (Record c) → Type 0
  Clash p q (r ∷ log) (s ∷ log') =
      ((String.◌++◌ p (body c r) ≢ String.◌++◌ q (body c s))
        × (sha256 (String.◌++◌ p (body c r)) ≡ sha256 (String.◌++◌ q (body c s))))
      ⊎ Clash (digest c p r) (digest c q s) log log'
  Clash p q _ _ = ⊥

  -- What the hash of a record covers, all but its signature, is the same in both logs, record by
  -- record, and so is the hash.
  abbrev pub SameTexts : List (Record c) → List (Record c) → Type 0
  SameTexts [] [] = Unit
  SameTexts (r ∷ log) (s ∷ log') = (body c r ≡ body c s) × (r.hash ≡ s.hash) × SameTexts log log'
  SameTexts _ _ = ⊥

  -- "hexdigest" of SHA-256
  abbrev pub HasDigestLength : Type 0
  HasDigestLength = (s : String) → count (sha256 s) ≡ 64

  digest-split :
      (p q : String) (r s : Record c)
      → digest c p r ≡ digest c q s
      → count p ≡ count q
      → ((p ≡ q) × (body c r ≡ body c s))
        ⊎ ((String.◌++◌ p (body c r) ≢ String.◌++◌ q (body c s))
            × (sha256 (String.◌++◌ p (body c r)) ≡ sha256 (String.◌++◌ q (body c s))))
  unfolding digest
  digest-split p q r s h same =
      elim (Bool-cases (String.◌++◌ p (body c r) == String.◌++◌ q (body c s))) [
        | inl e ↦ inl (append_inj ((eq_iff _ _).0 e) same)
        | inr e ↦ inr (λ x. cc (e, (eq_iff _ _).1 x), h)
      ]

  count-digest : HasDigestLength → (p : String) (r : Record c) → count (digest c p r) ≡ 64
  unfolding digest
  count-digest len p r = len _

  linked_same :
      HasDigestLength
      → (log log' : List (Record c)) (p q head : String) → count p ≡ 64
      → count q ≡ 64
      → length log ≡ length log'
      → IsLinked c p log head
      → IsLinked c q log' head
      → ((p ≡ q) × SameTexts log log') ⊎ Clash p q log log'
  linked_same len [] [] p q head hp hq n h h' = inl (h ∙ sym h', tt)
  linked_same len [] (s ∷ log') p q head hp hq n h h' = absurd (omega arith)
  linked_same len (r ∷ log) [] p q head hp hq n h h' = absurd (omega arith)
  linked_same len (r ∷ log) (s ∷ log') p q head hp hq n (_, d, h) (_, d', h') =
      elim (linked_same len log log' (digest c p r) (digest c q s) head (count-digest len p r)
        (count-digest len q s) (omega arith) h h') [
          | inr x ↦ inr (inr x)
          | inl (e, rest) ↦ elim (digest-split p q r s e (hp ∙ sym hq)) [
            | inr x ↦ inr (inl x)
            | inl (start, t) ↦ inl (start, (t, d ∙ ap some e ∙ sym d', rest))
          ]
        ]

  count-genesis : count genesis ≡ 64
  count-genesis = refl

  -- With a hash whose results have 64 characters, two logs that verify with as many records and one
  -- head hold records with the same texts and hashes, whatever the keys and the anchors, or the two
  -- logs themselves clash: at one place the texts hashed along the two chains differ and have one hash.
  pub verify-tamper_evident :
      HasDigestLength
      → (k k' : Option String) (anchors anchors' : List Anchor) (log log' : List (Record c))
        (n s s' : ℕ) (head : String)
      → verify c k anchors log ≡ valid n head s
      → verify c k' anchors' log' ≡ valid n head s'
      → SameTexts log log' ⊎ Clash genesis genesis log log'
  verify-tamper_evident len k k' anchors anchors' log log' n s s' head h h' =
      let (linked, size) = verify-IsLinked c k anchors log h in
      let (linked', size') = verify-IsLinked c k' anchors' log' h' in
      elim (linked_same len log log' genesis genesis head count-genesis count-genesis
        (sym size ∙ size') linked linked') [ inl (_, same) ↦ inl same | inr x ↦ inr x ]

  length-take_le : (m : ℕ) (log : List (Record c)) → m ≤ length log → length (take m log) ≡ m
  length-take_le m log h = omega (arith, length-take m log)

  -- With such a hash, and a checkpoint of a log that was valid: a log that verifies with the checkpoint
  -- among its anchors still begins with the texts and hashes of that log, or that beginning and the log
  -- clash: at one place the texts hashed along the two chains differ and have one hash.
  pub anchor_keeps_prefix :
      HasDigestLength
      → (k k' : Option String) (anchors anchors' : List Anchor) (log log' : List (Record c))
        (a : Anchor) (n s s' : ℕ) (head : String)
      → verify c k anchors log ≡ valid a.records a.head s
      → Memᴰ a anchors'
      → verify c k' anchors' log' ≡ valid n head s'
      → SameTexts log (take a.records log') ⊎ Clash genesis genesis log (take a.records log')
  anchor_keeps_prefix len k k' anchors anchors' log log' a n s s' head h m h' =
      let (linked, size) = verify-IsLinked c k anchors log h in
      let (fits, linked') = verify-anchor c k' anchors' log' a h' m in
      elim (linked_same len log (take a.records log') genesis genesis a.head count-genesis
        count-genesis (sym size ∙ sym (length-take_le a.records log' fits)) linked linked') [
          | inl (_, same) ↦ inl same
          | inr x ↦ inr x
        ]
