-- ===== src/Yaml/Refusals.antt =====
-- What `_check`, `_map` and `_flow` of src/aisb/yamlish.py do with texts that they do not read.
use aisb.Prelude.{ℕ, zero, suc, ◌≡◌, refl, ap, ◌∙◌, true, false, some, [], ◌∷◌, ◌++◌, arith, codes}
use aisb.Prelude.Results.{err}
use aisb.Yaml.Text.{Text, Values, Entries, out_of_fuel, unsupported, Python, is_in}
use aisb.Yaml.Flow.{scalar_from, flow_from}
use aisb.Yaml.Lines.{Lines, Significant, next_significant, check, has_mark}
use aisb.Yaml.Block.{is_item, read_map}

-- A key with the start of an anchor, an alias or a tag after it.
abbrev pub marked : Text → ℕ → Text → Text
marked key mark rest = key ++ b':' ∷ 32 ∷ mark ∷ rest

has_mark-marked :
    (key : Text) (mark : ℕ) (rest : Text)
    → is_in mark (codes "&*!") ≡ true
    → has_mark (marked key mark rest) ≡ true
unfolding has_mark
has_mark-marked [] mark rest special = ground (arith, special)
has_mark-marked (c ∷ key) mark rest special = ground (arith, has_mark-marked key mark rest special)

check-marked :
    (key : Text) (mark : ℕ) (rest : Text) (lineno : ℕ)
    → is_in mark (codes "&*!") ≡ true
    → check (marked key mark rest) lineno ≡ err (unsupported lineno)
unfolding check
check-marked key mark rest lineno special =
    rw (has_mark-marked key mark rest special) (ground arith)

-- An entry of a block mapping, at its indentation and no item of a sequence, in which `&`, `*` or
-- `!` follows a colon and a space, is refused with the number of its line.
read_map-marked :
    (py : Python) (fuel : ℕ) (lines : Lines) (out : Entries) (next : Significant) (key : Text)
    (mark : ℕ) (rest : Text)
    → next_significant lines ≡ some next
    → next.content ≡ marked key mark rest
    → is_in mark (codes "&*!") ≡ true
    → is_item next.content ≡ false
    → read_map py (suc fuel) lines next.indent out ≡ err (unsupported (suc next.index))
unfolding read_map
read_map-marked py fuel lines out next key mark rest found content special plain =
    rw (found, read_map)
      (rw plain (
        rw
          (ap (λ t. check t (suc next.index)) content
            ∙ check-marked key mark rest (suc next.index) special)
          (ground arith)))

-- `_flow` does not end on a closing brace where it expects an item of a flow sequence: whatever
-- fuel the loop and the reader of its items have, it runs out.
pub flow_from-brace :
    (py : Python) (lineno more fuel : ℕ) (vs : Values) (obj : Entries) (rest : Text)
    → flow_from py (scalar_from py lineno more) lineno fuel b'[' vs obj (b'}' ∷ rest)
      ≡ err out_of_fuel
unfolding flow_from scalar_from
flow_from-brace py lineno more zero vs obj rest = refl
flow_from-brace py lineno zero (suc fuel) vs obj rest = refl
flow_from-brace py lineno (suc more) (suc fuel) vs obj rest =
    flow_from-brace py lineno (suc more) fuel _ obj rest
