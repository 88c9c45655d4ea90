-- ===== src/Ops/Masking.antt =====
-- `redact` of src/aisb/audit.py and `redact_env` of src/aisb/transport.py: the arguments as the audit
-- log keeps them. `is_secret` is the search of SECRET_KEY; an argument that is neither a text, a list
-- of texts nor a table of texts is kept as it is.
use Prim.Native.String
use aisb.Prelude.{
  String, Partition, ◌≡◌, refl, ◌⊎◌, inl, inr, Bool, false, not, ◌&&◌, ◌||◌, List, [], ◌∷◌, All,
  Dict, keys, map, partition, ap, ◌==◌, Bool-cases, if◌then◌else◌,
}
use aisb.Ops.Binding.{Value, null, flag, number, text, texts, table}

module _ (is_secret : String → Bool) where
  -- one entry KEY=VALUE
  abbrev masked_entry : Partition → String
  masked_entry e =
      if is_secret e.before && e.found
      then String.◌++◌ e.before "=***"
      else String.◌++◌ e.before (if e.found then String.◌++◌ "=" e.after else "")

  unfoldable pub redact_env : List String → List String
  redact_env env = map (λ e. masked_entry (partition 61 e)) env

  -- key and SECRET_KEY.search(key)
  abbrev pub is_hidden : String → Bool
  is_hidden key = not (key == "") && is_secret key

  unfoldable pub redact_texts : Dict String → Dict String
  redact_texts [] = []
  redact_texts ((k, t) ∷ d) = (k, if is_hidden k then "***" else t) ∷ redact_texts d

  unfoldable pub redact_value : String → Value → Value
  unfolding redact_env redact_texts
  redact_value key (table d) = table (redact_texts d)
  redact_value key (texts xs) = texts (if key == "env" || key == "Env" then redact_env xs else xs)
  redact_value key null = null
  redact_value key (flag b) = flag b
  redact_value key (number n) = number n
  redact_value key (text t) = text t

  -- `redact`, of the arguments
  unfoldable pub redact : Dict Value → Dict Value
  unfolding redact_value
  redact [] = []
  redact ((k, v) ∷ d) = (k, if is_hidden k then text "***" else redact_value k v) ∷ redact d

  -- No text of a table stands under a secret key.
  abbrev pub IsMaskedText : String × String → Type 0
  IsMaskedText (k, t) = (is_hidden k ≡ false) ⊎ (t ≡ "***")

  abbrev pub IsMaskedTable : Value → Type 0
  IsMaskedTable (table d) = All IsMaskedText d
  IsMaskedTable _ = Unit

  -- The argument does not stand under a secret key, or is masked; and neither does a text in it.
  abbrev pub IsMasked : String × Value → Type 0
  IsMasked (k, v) = ((is_hidden k ≡ false) ⊎ (v ≡ text "***")) × IsMaskedTable v

  redact_texts-IsMaskedText : (d : Dict String) → All IsMaskedText (redact_texts d)
  unfolding redact_texts
  redact_texts-IsMaskedText [] = tt
  redact_texts-IsMaskedText ((k, t) ∷ d) = elim (Bool-cases (is_hidden k)) [
    | inl e ↦ rw e (inr refl, redact_texts-IsMaskedText d)
    | inr e ↦ rw e (inl refl, redact_texts-IsMaskedText d)
  ]

  redact_value-IsMaskedTable : (k : String) (v : Value) → IsMaskedTable (redact_value k v)
  unfolding redact_value
  redact_value-IsMaskedTable k (table d) = redact_texts-IsMaskedText d
  redact_value-IsMaskedTable k (texts xs) = tt
  redact_value-IsMaskedTable k null = tt
  redact_value-IsMaskedTable k (flag b) = tt
  redact_value-IsMaskedTable k (number n) = tt
  redact_value-IsMaskedTable k (text t) = tt

  pub redact-IsMasked : (args : Dict Value) → All IsMasked (redact args)
  unfolding redact
  redact-IsMasked [] = tt
  redact-IsMasked ((k, v) ∷ d) = elim (Bool-cases (is_hidden k)) [
    | inl e ↦ rw e ((inr refl, tt), redact-IsMasked d)
    | inr e ↦ rw e ((inl refl, redact_value-IsMaskedTable k v), redact-IsMasked d)
  ]

  -- The names of the arguments stay.
  pub keys-redact : (args : Dict Value) → keys (redact args) ≡ keys args
  unfolding redact
  keys-redact [] = refl
  keys-redact ((k, v) ∷ d) = ap (λ ks. k ∷ ks) (keys-redact d)
