-- ===== src/Yaml/Distinct.antt =====
-- The entries of a block mapping that src/aisb/yamlish.py reads: a repeated key replaces none.
use aisb.Prelude.{
  ℕ, zero, suc, ◌≡◌, refl, sym, ap, ◌∙◌, inl, inr, Bool, true, false, Option, ◌&&◌, ◌||◌, none,
  some, arith, Option-cases, eqb, ltb, if◌then◌else◌,
}
use aisb.Prelude.Results.{Result, ok, err, ◌>>=◌, >>=-eq-ok, ok_injective}
use aisb.Yaml.Text.{
  Text, Value, dict, Entries, empty, entry, Error, unexpected_indentation, duplicate_key, Python,
}
use aisb.Yaml.Plain.{has_key, put_entry, same_key}
use aisb.Yaml.Flow.{scalar, split_key}
use aisb.Yaml.Lines.{Lines, Significant, next_significant, check}
use aisb.Yaml.Block.{
  is_item, read_map, key_of, key_in, new_key, value_after, with_continued, goes_after,
}

-- No later key equals an earlier one.
abbrev others : Python → Value → Entries → Bool
others py j empty = true
others py j (entry k v d) = if same_key py j k then false else others py j d

abbrev has_distinct : Python → Entries → Bool
has_distinct py empty = true
has_distinct py (entry k v d) = others py k d && has_distinct py d

others-put_entry :
    (py : Python) (j : Value) (d : Entries) (k v : Value)
    → same_key py j k ≡ false
    → has_key py d k ≡ false
    → others py j d ≡ true
    → others py j (put_entry py d k v) ≡ true
unfolding put_entry has_key
others-put_entry py j empty k v apart fresh good = rw apart refl
others-put_entry py j (entry i w d) k v apart fresh good =
    ground (arith, others-put_entry py j d k v apart)

put_entry-distinct :
    (py : Python) (d : Entries) (k v : Value)
    → has_key py d k ≡ false
    → has_distinct py d ≡ true
    → has_distinct py (put_entry py d k v) ≡ true
unfolding put_entry has_key
put_entry-distinct py empty k v fresh good = refl
put_entry-distinct py (entry j w d) k v fresh good =
    ground (arith, others-put_entry py j d k v, put_entry-distinct py d k v)

-- one dict's entries, then another's
abbrev pub joined : Entries → Entries → Entries
joined empty e = e
joined (entry k v d) e = entry k v (joined d e)

joined_assoc :
    (d : Entries) (k v : Value) (e : Entries)
    → joined (joined d (entry k v empty)) e ≡ joined d (entry k v e)
joined_assoc empty k v e = refl
joined_assoc (entry j w d) k v e = ap (entry j w) (joined_assoc d k v e)

joined_empty : (d : Entries) → joined d empty ≡ d
joined_empty empty = refl
joined_empty (entry j w d) = ap (entry j w) (joined_empty d)

-- A key that is not there is put last.
put_entry-last :
    (py : Python) (d : Entries) (k v : Value)
    → has_key py d k ≡ false
    → put_entry py d k v ≡ joined d (entry k v empty)
unfolding put_entry has_key
put_entry-last py empty k v fresh = refl
put_entry-last py (entry j w d) k v fresh = ground (arith, put_entry-last py d k v)

-- What is read is a dict with distinct keys, if anything is read: the entries of `out`, each with its
-- value, and then others.
abbrev pub IsExtended : Python → Entries → Result Error (Value × Lines) → Type 0
IsExtended py out (err e) = Unit
IsExtended py out (ok (v, lines)) =
    (more : Entries) × (v ≡ dict (joined out more)) × (has_distinct py (joined out more) ≡ true)

-- What extends `out` and one entry more extends `out`.
IsExtended-put_entry :
    (py : Python) (out : Entries) (k v : Value) (r : Result Error (Value × Lines))
    → has_key py out k ≡ false
    → IsExtended py (put_entry py out k v) r
    → IsExtended py out r
IsExtended-put_entry py out k v (err e) fresh good = tt
IsExtended-put_entry py out k v (ok (w, lines)) fresh (more, read, distinct) =
    let same =
      ap (λ o. joined o more) (put_entry-last py out k v fresh) ∙ joined_assoc out k v more in
    (entry k v more, read ∙ ap dict same, sym (ap (has_distinct py) same) ∙ distinct)

chosen : Bool → Value → Text → Error → Result Error (Value × Text)
chosen found j rest e = if found then err e else ok (j, rest)

chosen-ok :
    (found : Bool) (j : Value) (value : Text) (e : Error) {k : Value} {rest : Text}
    → chosen found j value e ≡ ok (k, rest)
    → (found ≡ false) × (j ≡ k)
unfolding chosen
chosen-ok true j value e done = cc
chosen-ok false j value e done = (refl, ap (λ p. p.0) (ok_injective done))

new_key-fresh :
    (py : Python) (out : Entries) (next : Significant) (value : Text) (j : Value) {k : Value}
    {rest : Text}
    → new_key py out next value j ≡ ok (k, rest)
    → has_key py out k ≡ false
unfolding chosen
new_key-fresh py out next value j done =
    let (fresh, same) =
      chosen-ok (has_key py out j) j value (duplicate_key (suc next.index) j) done in
    ap (has_key py out) (sym same) ∙ fresh

key_in-fresh :
    (py : Python) (out : Entries) (next : Significant) (split : Option (Text × Text)) {k : Value}
    {rest : Text}
    → key_in py out next split ≡ ok (k, rest)
    → has_key py out k ≡ false
key_in-fresh py out next none done = cc
key_in-fresh py out next (some (key, value)) done =
    let (j, read, set) =
      >>=-eq-ok (scalar py key (suc next.index)) (new_key py out next value) done in
    new_key-fresh py out next value j set

IsExtended-bind :
    {A : Type 0} (py : Python) (out : Entries) (first : Result Error A)
    (rest : A → Result Error (Value × Lines))
    → ((a : A) → first ≡ ok a → IsExtended py out (rest a))
    → IsExtended py out (first >>= rest)
IsExtended-bind py out (ok a) rest good = good a refl
IsExtended-bind py out (err e) rest good = tt

IsExtended-if :
    (py : Python) (past over : Bool) (lines : Lines) (out : Entries) (e : Error)
    (r : Result Error (Value × Lines))
    → has_distinct py out ≡ true
    → IsExtended py out r
    → IsExtended py out (if past then ok (dict out, lines) else if over then err e else r)
IsExtended-if py true over lines out e r good rest =
    (empty, ap dict (sym (joined_empty out)), ap (has_distinct py) (joined_empty out) ∙ good)
IsExtended-if py false true lines out e r good rest = tt
IsExtended-if py false false lines out e r good rest = rest

-- What `_map` does with an entry: after its key, and all of it.
abbrev after_key :
    Python → ℕ → Lines → ℕ → Entries → ℕ → Value × Text → Result Error (Value × Lines)
after_key py fuel lines indent out lineno (k, rest) =
    let (whole, after) = with_continued lines rest indent in
    value_after py fuel after whole indent lineno true >>= λ v.
    read_map py fuel v.1 indent (put_entry py out k v.0)

abbrev entered : Python → ℕ → Lines → ℕ → Entries → Significant → Result Error (Value × Lines)
entered py fuel lines indent out next = check next.content (suc next.index) >>= λ _.
    key_of py out next
    >>= after_key py fuel (goes_after lines next.index) indent out (suc next.index)

-- If `_map` returns, it returns a dict that begins with the entries read before, in their order and each
-- with its value, so that no later entry takes the place of an earlier one; and where their keys are
-- distinct, all keys of the dict are.
pub read_map-IsExtended :
    (py : Python) (fuel : ℕ) (lines : Lines) (indent : ℕ) (out : Entries)
    → has_distinct py out ≡ true
    → IsExtended py out (read_map py fuel lines indent out)
unfolding read_map
read_map-IsExtended py zero lines indent out good = tt
read_map-IsExtended py (suc fuel) lines indent out good =
    elim (Option-cases (next_significant lines)) [
      | inl finished ↦
          rw (finished, read_map, IsExtended)
            (
              empty,
              ap dict (sym (joined_empty out)),
              ap (has_distinct py) (joined_empty out) ∙ good,
            )
      | inr (next, found) ↦
          rw (found, read_map)
            (IsExtended-if py
              (ltb next.indent indent || (eqb next.indent indent && is_item next.content))
              (ltb indent next.indent) lines out (unexpected_indentation (suc next.index))
              (entered py fuel lines indent out next) good
              (IsExtended-bind py out (check next.content (suc next.index)) _ λ u checked.
                IsExtended-bind py out (key_of py out next)
                  (after_key py fuel (goes_after lines next.index) indent out (suc next.index))
                  λ k keyed.
                    IsExtended-bind py out _
                      (λ v. read_map py fuel v.1 indent (put_entry py out k.0 v.0))
                      λ v valued.
                        let fresh = key_in-fresh py out next (split_key next.content) keyed in
                        IsExtended-put_entry py out k.0 v.0 _ fresh (
                          read_map-IsExtended py fuel v.1 indent (put_entry py out k.0 v.0)
                            (put_entry-distinct py out k.0 v.0 fresh good))))
    ]
