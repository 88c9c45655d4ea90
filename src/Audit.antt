-- ===== src/Audit.antt =====
-- src/aisb/audit.py: the hash-chained log. A log is the list of its records, oldest first; the
-- JSON lines, the lock and the file are left out.
pub mod Verify
pub mod Writing
pub mod Tamper
mod Tests
use Prim.Native.String.{slice}
use Prim.Native.String
use aisb.Prelude.{
  ℕ, suc, ◌+◌, String, Bool, false, not, Option, none, some, List, [], ◌∷◌, ◌++◌, ◌==◌, ltb, eqb,
  if◌then◌else◌, keep, any, decimal,
}

-- hashlib, hmac and json, which the code calls. `Fields` are those of a record that the log only
-- carries, and `dumps` is the canonical JSON of a record less `hash` and `mac`; `reread` is what reading
-- their line gives back, which need not be the same (a tuple is a list then, and a key a text).
pub record Crypto : Type 1 where
  pub Fields : Type 0
  pub dumps : Fields → (unsigned kid prev : Option String) → String
  pub reread : Fields → Fields
  pub sha256 : String → String
  pub hmac_sha256 : String → String → String

-- "0" * 64
abbrev pub genesis : String
genesis = "0000000000000000000000000000000000000000000000000000000000000000"

pub record Anchor : Type 0 where
  pub records : ℕ
  pub head : String
  pub ts : String
  pub kid : Option String
  pub mac : Option String

-- The reasons that `verify` gives.
pub data Reason : Type 0 where
  chain_broken content_modified signatures_stripped another_key forged : Reason
  not_signed : String → Reason
  anchor_differs anchor_other_key anchor_altered : ℕ → Reason
  records_removed : ℕ → Reason

-- `head` and `signed` of a log that holds, or the place and the reason
pub data Verdict : Type 0 where
  valid : (records : ℕ) (head : String) (signed : ℕ) → Verdict
  invalid : (records broken_at : ℕ) → Reason → Verdict

-- What `load_key` finds: signing is off, a key, or an unusable key file.
pub data KeyFile : Type 0 where
  unset : KeyFile
  key : String → KeyFile
  unusable : String → KeyFile

-- the option is the text
abbrev pub is_text : Option String → String → Bool
is_text none t = false
is_text (some s) t = s == t

-- x or y, where an empty text counts as none
abbrev pub or_genesis : Option String → String
or_genesis none = genesis
or_genesis (some h) = if h == "" then genesis else h

-- The greatest of the anchors' records.
unfoldable pub max_records : List Anchor → ℕ
max_records [] = 0
max_records (a ∷ rest) = let m = max_records rest in if ltb m a.records then a.records else m

-- `want.get(n, ())`
abbrev pub at_record : ℕ → List Anchor → List Anchor
at_record n = keep (λ a. eqb a.records n)

abbrev pub check_unsigned : Option String → Option Reason
check_unsigned none = none
check_unsigned (some why) = if why == "" then none else some (not_signed why)

abbrev pub count_signed : ℕ → Option String → ℕ
count_signed signed none = signed
count_signed signed (some _) = suc signed

module _ (c : Crypto) where
  open c use {Fields, dumps, reread, sha256, hmac_sha256}

  pub record Record : Type 0 where
    pub fields : Fields
    pub unsigned : Option String
    pub kid : Option String
    pub prev : Option String
    pub hash : Option String
    pub mac : Option String

  unfoldable pub key_id : String → String
  key_id k = slice (sha256 (String.◌++◌ "aisb-audit-kid:" k)) 0 12

  pub body : Record → String
  body r = dumps r.fields r.unsigned r.kid r.prev

  -- `_digest`
  unfoldable pub digest : String → Record → String
  unfolding body
  digest prev r = sha256 (String.◌++◌ prev (body r))

  -- `_last_hash`: the hash of the last record, GENESIS where there is none
  unfoldable pub last_hash : List Record → String
  last_hash [] = genesis
  last_hash (r ∷ []) = or_genesis r.hash
  last_hash (r ∷ s ∷ log) = last_hash (s ∷ log)

  abbrev pub kid_of : KeyFile → Option String
  kid_of (key k) = some (key_id k)
  kid_of _ = none

  abbrev pub failure_of : KeyFile → Option String
  failure_of (unusable why) = some why
  failure_of _ = none

  abbrev pub mac_of : KeyFile → String → Option String
  mac_of (key k) h = some (hmac_sha256 k h)
  mac_of _ h = none

  -- the record that `record` writes behind `prev`, as it is read back: what is hashed are the fields in
  -- memory
  unfoldable pub sealed : KeyFile → String → Fields → Record
  sealed k prev f =
      let fresh : Record = record {
        fields = f;
        unsigned = failure_of k;
        kid = kid_of k;
        prev = some prev;
        hash = none;
        mac = none;
      } in
      let h = digest prev fresh in
      record fresh { fields = reread f; hash = some h; mac = mac_of k h }

  -- `record`, for a tier whose records are kept
  unfoldable pub write : KeyFile → Fields → List Record → List Record
  unfolding sealed last_hash digest key_id
  write k f log = log ++ sealed k (last_hash log) f ∷ []

  -- `_anchor_msg`
  unfoldable pub anchor_msg : Anchor → String
  anchor_msg a = String.◌++◌ "aisb-audit-anchor:" (
      String.◌++◌ (decimal a.records) (String.◌++◌ ":" (String.◌++◌ a.head (String.◌++◌ ":" a.ts))))

  abbrev pub check_anchor_mac : Anchor → Option String → Option String → Option Reason
  check_anchor_mac a none m = none
  check_anchor_mac a (some k) none = none
  check_anchor_mac a (some k) (some m) =
      if not (is_text a.kid (key_id k))
      then some (anchor_other_key a.records)
      else if not (m == hmac_sha256 k (anchor_msg a))
      then some (anchor_altered a.records)
      else none

  -- `_anchors_mismatch`
  unfoldable pub anchors_mismatch : List Anchor → String → Option String → Option Reason
  anchors_mismatch [] head k = none
  anchors_mismatch (a ∷ rest) head k =
      if not (a.head == head)
      then some (anchor_differs a.records)
      else elim (check_anchor_mac a k a.mac) [
        | none ↦ anchors_mismatch rest head k
        | some bad ↦ some bad
      ]

  -- the checks of one record's signature; `h` is its hash, and `signed` counts the signed records
  -- before it
  abbrev pub check_mac : Option String → Record → String → ℕ → Option String → Option Reason
  check_mac k r h signed none = if ltb 0 signed then some signatures_stripped else none
  check_mac none r h signed (some m) = none
  check_mac (some k) r h signed (some m) =
      if not (is_text r.kid (key_id k))
      then some another_key
      else if not (m == hmac_sha256 k h)
      then some forged
      else none

  -- the body of the loop over the records, up to the first reason to fail
  unfoldable pub check_record :
      Option String → List Anchor → String → ℕ → ℕ → Record → Option Reason
  unfolding anchors_mismatch
  check_record k anchors prev n signed r =
      if not (is_text r.prev prev)
      then some chain_broken
      else if not (is_text r.hash (digest prev r))
      then some content_modified
      else elim (check_unsigned r.unsigned) [
        | some bad ↦ some bad
        | none ↦ elim (check_mac k r (digest prev r) signed r.mac) [
          | some bad ↦ some bad
          | none ↦ anchors_mismatch (at_record n anchors) (digest prev r) k
        ]
      ]

  -- what stands below the loop; `n` records were read
  unfoldable pub conclude : Option String → List Anchor → String → ℕ → ℕ → Verdict
  unfolding anchors_mismatch max_records
  conclude k anchors prev n signed = elim (anchors_mismatch (at_record 0 anchors) genesis k) [
    | some bad ↦ invalid n 0 bad
    | none ↦
        if any (λ a. ltb n a.records) anchors
        then invalid n (n + 1) (records_removed (max_records anchors))
        else valid n prev signed
  ]

  -- the loop; `n` records were read before
  unfoldable pub walk : Option String → List Anchor → String → ℕ → ℕ → List Record → Verdict
  unfolding conclude check_record digest
  walk k anchors prev n signed [] = conclude k anchors prev n signed
  walk k anchors prev n signed (r ∷ log) =
      let rest = walk k anchors (digest prev r) (suc n) (count_signed signed r.mac) log in
      elim (check_record k anchors prev (suc n) signed r) [
        | some bad ↦ invalid (suc n) (suc n) bad
        | none ↦ rest
      ]

  -- `verify`, with a usable key or none; with an unusable key file it raises before it reads
  unfoldable pub verify : Option String → List Anchor → List Record → Verdict
  unfolding walk
  verify k anchors log = walk k anchors genesis 0 0 log
