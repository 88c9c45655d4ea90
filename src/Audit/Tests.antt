-- ===== src/Audit/Tests.antt =====
-- Runs of the log, with a toy hash.
use Prim.Native.String
use Prim.Native.String.{count, len}
use mathlib.Core.List.{Memᴰ}
use aisb.Prelude.{
  ◌%◌, String, ◌≡◌, ◌⊎◌, refl, none, some, List, take, [], ◌∷◌, or_else, Bool-cases, inl, inr, eqb,
  if◌then◌else◌,
}
use aisb.Audit.{
  Crypto, genesis, Anchor, valid, invalid, key, unset, content_modified, Record, sealed, write,
  verify, digest, records_removed,
}
use aisb.Audit.Writing.{write_all, verify-write}
use aisb.Audit.Tamper.{
  Clash, SameTexts, HasDigestLength, verify-tamper_evident, anchor_keeps_prefix,
}

abbrev odd_digest : String
odd_digest = "1000000000000000000000000000000000000000000000000000000000000000"

abbrev toy_hash : String → String
toy_hash s = if eqb (len s % 2) 0 then genesis else odd_digest

-- The fields are a text, which a tuple or a list holds; their JSON is the same, and reading it back
-- gives a list.
data Holder : Type 0 where
  tuple list : String → Holder

abbrev held : Holder → String
held (tuple t) = t
held (list t) = t

abbrev toy : Crypto
toy = record {
  Fields = Holder;
  dumps = λ f u k p. String.◌++◌ (held f) (or_else u "");
  reread = λ f. list (held f);
  sha256 = toy_hash;
  hmac_sha256 = λ k s. String.◌++◌ k s;
}

toy-HasDigestLength : HasDigestLength toy
toy-HasDigestLength s = elim (Bool-cases (eqb (len s % 2) 0)) [ inl e ↦ rw e | inr e ↦ rw e ]

abbrev pair_log : List (Record toy)
pair_log = write_all toy (key "k") (tuple "rm web" ∷ tuple "rm db" ∷ [])

pair_valid : verify toy (some "k") [] pair_log ≡ valid 2 genesis 2
unfolding write_all write verify
pair_valid = refl

abbrev checkpoint : Anchor
checkpoint = record { records = 1; head = odd_digest; ts = "7"; kid = none; mac = none }

one_log : List (Record toy)
one_log = write_all toy (key "k") (tuple "rm db" ∷ [])

one_valid : verify toy (some "k") [] one_log ≡ valid 1 odd_digest 1
unfolding one_log write_all write verify
one_valid = refl

pair_anchored : verify toy none (checkpoint ∷ []) pair_log ≡ valid 2 genesis 2
unfolding write_all write verify
pair_anchored = refl

dropped : verify toy none (checkpoint ∷ []) [] ≡ invalid 0 1 (records_removed 1)
unfolding verify
dropped = refl

-- where reading a line back changes its JSON: the record that was just written does not verify
abbrev brittle : Crypto
brittle = record toy { dumps = λ f u k p. elim f [ tuple t ↦ String.◌++◌ t "!" | list t ↦ t ] }

broken : verify brittle none [] (write brittle unset (tuple "rm") []) ≡ invalid 1 1 content_modified
unfolding write verify
broken = refl

verify-write_example :
    verify toy (some "k") [] (write toy (key "k") (tuple "up") pair_log)
    ≡ valid 3 (digest toy genesis (sealed toy (key "k") genesis (tuple "up"))) 3
verify-write_example =
    verify-write toy toy-HasDigestLength (key "k") (tuple "up") pair_log 2 2 genesis (λ u k p. refl)
      tt pair_valid

verify-tamper_evident_example :
    SameTexts toy pair_log pair_log ⊎ Clash toy genesis genesis pair_log pair_log
verify-tamper_evident_example =
    verify-tamper_evident toy toy-HasDigestLength (some "k") none [] (checkpoint ∷ []) pair_log
      pair_log 2 2 2 genesis pair_valid pair_anchored

anchor_keeps_prefix_example :
    SameTexts toy one_log (take 1 pair_log) ⊎ Clash toy genesis genesis one_log (take 1 pair_log)
anchor_keeps_prefix_example =
    anchor_keeps_prefix toy toy-HasDigestLength (some "k") none [] (checkpoint ∷ []) one_log
      pair_log checkpoint 2 1 2 genesis one_valid (Memᴰ.head refl) pair_anchored
