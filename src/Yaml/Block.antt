-- ===== src/Yaml/Block.antt =====
-- The block collections of src/aisb/yamlish.py, and `loads`. The four functions call each other on
-- fuel: a call reads a character of a line or the rest of it, so that four calls for each character
-- and each line are enough.
use aisb.Prelude.{
  ℕ, zero, suc, ◌+◌, ◌*◌, Bool, true, false, not, ◌&&◌, ◌||◌, Option, none, some, List, [], ◌∷◌,
  ◌++◌, codes, length, drop, any, flatten, is_some, eqb, ltb, if◌then◌else◌,
}
use aisb.Prelude.Results.{Result, ok, err, ◌>>=◌}
use aisb.Yaml.Text.{
  Text, Value, null, text, items, dict, Values, nil, Entries, empty, Error, expected_entry,
  duplicate_key, unexpected_indentation, unexpected_content, multiple_documents,
  substring_not_found, out_of_fuel, Python, is_in, text_eq, begins, is_empty, head_in, times,
  indent_of, strip,
}
use aisb.Yaml.Plain.{has_key, put_entry, append}
use aisb.Yaml.Flow.{scalar, split_key}
use aisb.Yaml.Lines.{Lines, lines_of, Significant, next_significant, strip_comment, check}
use aisb.Yaml.Continued.{continued, block_scalar}

-- content == "-" or content.startswith("- ")
abbrev pub is_item : Text → Bool
is_item content = text_eq content (codes "-") || begins content (codes "- ")

-- re.fullmatch(r"[|>][-+]?\d?", rest)
abbrev is_width : Python → Text → Bool
is_width py [] = true
is_width py (c ∷ s) = py.is_digit c && is_empty s

abbrev is_chomped : Python → Text → Bool
is_chomped py [] = true
is_chomped py (c ∷ s) = if is_in c (codes "-+") then is_width py s else is_width py (c ∷ s)

abbrev is_header : Python → Text → Bool
is_header py [] = false
is_header py (c ∷ s) = is_in c (codes "|>") && is_chomped py s

-- s.index(c, start)
index_from : ℕ → ℕ → Text → Option ℕ
index_from c at [] = none
index_from c at (d ∷ s) = let rest = index_from c (suc at) s in if eqb d c then some at else rest

abbrev line_at : List Text → ℕ → Text
line_at [] j = []
line_at (line ∷ raw) zero = line
line_at (line ∷ raw) (suc j) = line_at raw j

abbrev with_line : List Text → ℕ → Text → List Text
with_line [] j new = []
with_line (line ∷ raw) zero new = new ∷ raw
with_line (line ∷ raw) (suc j) new = line ∷ with_line raw j new

-- What stands after a dash starts at the column where its first character is, and the line is
-- read again without its dash.
reindent : Lines → ℕ → ℕ → Result Error (ℕ × Lines)
unfolding index_from indent_of
reindent lines j c =
    let line = line_at lines.raw j in
    let start = suc (indent_of line) in
    elim (index_from c start (drop start line)) [
      | none ↦ err substring_not_found
      | some col ↦
          ok (col, record { raw = with_line lines.raw j (times 32 col ++ drop col line); i = j })
    ]

-- `scalar(_continued(lines, first, indent), lineno)`, where `least` is `indent + 1`
read_scalar : Python → Lines → Text → ℕ → ℕ → Result Error (Value × Lines)
unfolding continued scalar
read_scalar py lines first least lineno =
    let (whole, after) = continued lines first least in do v ← scalar py whole lineno; ok (v, after)

abbrev pub goes_after : Lines → ℕ → Lines
goes_after lines j = record lines { i = suc j }

-- key, sep, rest = _split_key(content)
abbrev pub new_key : Python → Entries → Significant → Text → Value → Result Error (Value × Text)
new_key py out next rest k =
    if has_key py out k then err (duplicate_key (suc next.index) k) else ok (k, rest)

abbrev pub key_in :
    Python → Entries → Significant → Option (Text × Text) → Result Error (Value × Text)
key_in py out next none = err (expected_entry (suc next.index) next.content)
key_in py out next (some (key, rest)) = scalar py key (suc next.index) >>= new_key py out next rest

abbrev pub key_of : Python → Entries → Significant → Result Error (Value × Text)
key_of py out next = key_in py out next (split_key next.content)

-- the value that stands on the line of its key, with the lines that go on in it
abbrev pub with_continued : Lines → Text → ℕ → Text × Lines
with_continued lines rest indent =
    if not (is_empty rest) && not (head_in (codes "|>") rest)
    then continued lines rest (suc indent)
    else (rest, lines)

-- What an item of a sequence holds.
pub data Item : Type 0 where
  below : Item
  sequence mapping : ℕ → Item
  header : Item
  inline : Item

abbrev item_of : Text → Item
item_of [] = below
item_of (c ∷ s) =
    if is_item (c ∷ s)
    then sequence b'-'
    else if is_some (split_key (c ∷ s)) && not (is_in c (codes "[{"))
    then mapping c
    else if is_in c (codes "|>")
    then header
    else inline

abbrev item_text : Significant → Text
item_text next = strip (drop 1 next.content)

-- `_block`, `_value_after`, `_map` and `_seq`, the last two with what they have read so far
unfoldable mutual
  unfolding next_significant check split_key has_key put_entry append scalar continued block_scalar
      read_scalar reindent strip

  pub block : Python → ℕ → Lines → ℕ → Result Error (Value × Lines)
  block py zero lines indent = err out_of_fuel
  block py (suc fuel) lines indent = elim (next_significant lines) [
    | none ↦ ok (null, lines)
    | some next ↦
        (let listed = read_seq py fuel lines next.indent nil in
          let mapped = read_map py fuel lines next.indent empty in
          let flowing =
            read_scalar py (goes_after lines next.index) next.content next.indent
              (suc next.index) in
          if is_item next.content
          then listed
          else if head_in (codes "[{") next.content
          then flowing
          else mapped)
  ]

  pub value_after : Python → ℕ → Lines → Text → ℕ → ℕ → Bool → Result Error (Value × Lines)
  value_after py zero lines rest indent lineno same = err out_of_fuel
  value_after py (suc fuel) lines rest indent lineno same =
      let (body, after) = block_scalar lines rest indent in
      if is_header py rest
      then ok (text body, after)
      else if not (is_empty rest)
      then (scalar py rest lineno >>= λ v. ok (v, lines))
      else elim (next_significant lines) [
        | none ↦ ok (null, lines)
        | some next ↦
            (let deeper = block py fuel lines next.indent in
              if ltb indent next.indent || (same && eqb next.indent indent && is_item next.content)
              then deeper
              else ok (null, lines))
      ]

  pub read_map : Python → ℕ → Lines → ℕ → Entries → Result Error (Value × Lines)
  read_map py zero lines indent out = err out_of_fuel
  read_map py (suc fuel) lines indent out = elim (next_significant lines) [
    | none ↦ ok (dict out, lines)
    | some next ↦
        (let entered = (do
          _ ← check next.content (suc next.index)
          (k, rest) ← key_of py out next
          let (whole, after) = with_continued (goes_after lines next.index) rest indent in
              do
                (v, last) ← value_after py fuel after whole indent (suc next.index) true
                read_map py fuel last indent (put_entry py out k v)) in
          if ltb next.indent indent || (eqb next.indent indent && is_item next.content)
          then ok (dict out, lines)
          else if ltb indent next.indent
          then err (unexpected_indentation (suc next.index))
          else entered)
  ]

  pub read_seq : Python → ℕ → Lines → ℕ → Values → Result Error (Value × Lines)
  read_seq py zero lines indent out = err out_of_fuel
  read_seq py (suc fuel) lines indent out = elim (next_significant lines) [
    | none ↦ ok (items out, lines)
    | some next ↦
        (let lineno = suc next.index in
          let item = item_text next in
          let value : Result Error (Value × Lines) = elim (item_of item) [
            | below ↦ value_after py fuel (goes_after lines next.index) [] indent lineno false
            | sequence c ↦ do
              (col, again) ← reindent lines next.index c
              read_seq py fuel again col nil
            | mapping c ↦ do
              (col, again) ← reindent lines next.index c
              read_map py fuel again col empty
            | header ↦ value_after py fuel (goes_after lines next.index) item indent lineno false
            | inline ↦ read_scalar py (goes_after lines next.index) item (suc indent) lineno
          ] in
          let added = (do
            _ ← check next.content lineno
            (v, last) ← value
            read_seq py fuel last indent (append out v)) in
          if not (eqb next.indent indent) || not (is_item next.content)
          then (if ltb indent next.indent
              then err (unexpected_indentation lineno)
              else ok (items out, lines))
          else added)
  ]

-- The rest of the document: other content, or the start of another document, is refused.
abbrev is_text_line : Text → Bool
is_text_line r = not (is_empty (strip (strip_comment r)))

next_document : ℕ → List Text → Option ℕ
unfolding strip strip_comment
next_document j [] = none
next_document j (r ∷ rs) =
    let rest = next_document (suc j) rs in
    if begins r (codes "---") && any is_text_line rs then some (suc j) else rest

abbrev refuse_rest : Value → Option Significant → Option ℕ → Result Error Value
refuse_rest v (some next) line = err (unexpected_content (suc next.index) next.content)
refuse_rest v none (some line) = err (multiple_documents line)
refuse_rest v none none = ok v

abbrev enough : Lines → ℕ
enough lines = 4 * (length (flatten lines.raw) + length lines.raw) + 4

unfoldable pub loads : Python → Text → Result Error Value
unfolding lines_of block next_significant next_document
loads py document =
    let lines = lines_of document in
    do
      (v, after) ← block py (enough lines) lines 0
      refuse_rest v (next_significant after) (next_document after.i (drop after.i after.raw))
