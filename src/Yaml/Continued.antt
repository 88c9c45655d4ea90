-- ===== src/Yaml/Continued.antt =====
-- The scalars over several lines: `_open_flow`, `_fold`, `_join_flow`, `_continued` and
-- `_block_scalar` of src/aisb/yamlish.py. A bound on the indentation is the least that goes on,
-- which is `indent + 1` of the code.
use aisb.Prelude.{
  ℕ, suc, ◌%◌, Bool, true, false, not, ◌&&◌, ◌||◌, Option, none, some, List, [], ◌∷◌, ◌++◌, codes,
  length, drop, is_some, or_else, any, eqb, ltb, leb, if◌then◌else◌,
}
use aisb.Yaml.Text.{
  Text, is_in, text_eq, begins, is_empty, head_in, times, join, indent_of, strip, without_last,
  ends_with,
}
use aisb.Yaml.Quoted.{backslash, double, single, unterminated}
use aisb.Yaml.Flow.{split_key}
use aisb.Yaml.Lines.{Lines, Significant, next_significant, strip_comment}

-- The loop of `_open_flow`, with the brackets opened and closed so far; the depth of the code is
-- their difference. `start` tells whether a quote may open here.
open_flow_from : ℕ → ℕ → Option ℕ → Bool → Bool → Text → Bool
open_flow_from opened closed quote start skip [] = ltb closed opened || is_some quote
open_flow_from opened closed quote start true (c ∷ s) =
    open_flow_from opened closed quote (is_in c (codes " [{,:")) false s
open_flow_from opened closed (some q) start false (c ∷ s) =
    open_flow_from opened closed
      (if eqb c q && not (eqb q double && eqb c backslash) then none else some q)
      (is_in c (codes " [{,:")) (eqb q double && eqb c backslash) s
open_flow_from opened closed none start false (c ∷ s) =
    let quoted = is_in c (double ∷ single ∷ []) && start in
    open_flow_from (if not quoted && is_in c (codes "[{") then suc opened else opened)
      (if not quoted && is_in c (codes "]}") then suc closed else closed)
      (if quoted then some c else none) (is_in c (codes " [{,:")) false s

open_flow : Text → Bool
unfolding open_flow_from
open_flow s = open_flow_from 0 0 none true false s

-- out.endswith("\\") and not out.endswith("\\\\")
abbrev escapes_break : Text → Bool
escapes_break out = ends_with backslash out && not (ends_with backslash (without_last out))

-- the loop of `_fold`, with the empty lines since the last part
fold_from : Bool → Text → ℕ → List Text → Text
unfolding ends_with without_last
fold_from doubled out blank [] = out ++ times 10 blank
fold_from doubled out blank ([] ∷ parts) = fold_from doubled out (suc blank) parts
fold_from doubled out blank ((c ∷ part) ∷ parts) =
    let joined = without_last out ++ c ∷ part in
    let spaced =
      (if ltb 0 blank
        then out ++ times 10 blank ++ c ∷ part
        else if is_empty out
        then c ∷ part
        else out ++ 32 ∷ c ∷ part) in
    fold_from doubled (if doubled && escapes_break out then joined else spaced) 0 parts

fold : Text → List Text → Bool → Text
unfolding fold_from
fold first parts doubled = fold_from doubled first 0 parts

-- len(out) - len(out.rstrip("\\"))
trailing_from : ℕ → Text → ℕ
trailing_from n [] = n
trailing_from n (c ∷ s) = trailing_from (if eqb c backslash then suc n else 0) s

join_flow : Text → List Text → Text
unfolding trailing_from without_last
join_flow out [] = out
join_flow out (part ∷ parts) =
    join_flow
      (if eqb (trailing_from 0 out % 2) 1 then without_last out ++ part else out ++ 32 ∷ part) parts

-- `kind` of `_continued`: the first character, if it opens a quoted scalar or a flow collection
pub data Kind : Type 0 where
  quoted flow : ℕ → Kind
  unquoted : Kind

abbrev kind_of : Text → Kind
kind_of [] = unquoted
kind_of (c ∷ s) =
    if is_in c (double ∷ single ∷ [])
    then quoted c
    else if is_in c (codes "[{")
    then flow c
    else unquoted

abbrev needs_more : Kind → Text → Bool
needs_more (quoted q) s = unterminated s
needs_more (flow q) s = open_flow s
needs_more unquoted s = true

abbrev is_unquoted : Kind → Bool
is_unquoted unquoted = true
is_unquoted _ = false

abbrev closes_flow : Kind → Text → Bool
closes_flow (flow q) s = head_in (codes "]}") s
closes_flow _ s = false

-- the next line goes on in the scalar, or a later one does after blank lines
abbrev goes_on : ℕ → Option Significant → Bool
goes_on least none = false
goes_on least (some next) = leb least next.indent

-- a line that starts a block collection
abbrev is_structure : Text → Bool
is_structure text = begins text (codes "- ") || text_eq text (codes "-") || is_some (split_key text)

-- What `_continued` does with a line: it stops before it, or takes a part from it.
abbrev taken : Kind → ℕ → List Text → ℕ → Text → Option Text
taken kind least raw i line =
    let text = (if is_unquoted kind then strip (strip_comment line) else strip line) in
    if is_empty (strip line)
    then (if is_unquoted kind
          && not (goes_on least (next_significant (record { raw = raw; i = i })))
        then none
        else some [])
    else if ltb (indent_of line) least && not (closes_flow kind (strip line))
    then none
    else if is_unquoted kind && is_structure text
    then none
    else some text

-- The loop of `_continued` at line `i`: the next line after the scalar, and the parts of it.
continued_from : Kind → ℕ → List Text → ℕ → List Text → List Text → ℕ × List Text
unfolding unterminated open_flow join split_key strip strip_comment next_significant indent_of
continued_from kind least raw i parts [] = (i, parts)
continued_from kind least raw i parts (line ∷ rest) =
    elim (if needs_more kind (join (32 ∷ []) parts) then taken kind least raw i line else none) [
      | none ↦ (i, parts)
      | some part ↦ continued_from kind least raw (suc i) (parts ++ part ∷ []) rest
    ]

abbrev drop_empty : List Text → List Text
drop_empty [] = []
drop_empty ([] ∷ parts) = drop_empty parts
drop_empty ((c ∷ part) ∷ parts) = (c ∷ part) ∷ drop_empty parts

abbrev fold_parts : Kind → List Text → Text
fold_parts kind [] = []
fold_parts (flow q) (first ∷ parts) = join_flow first (drop_empty parts)
fold_parts (quoted q) (first ∷ parts) = fold first parts (eqb q double)
fold_parts unquoted (first ∷ parts) = fold first parts false

unfoldable pub continued : Lines → Text → ℕ → Text × Lines
unfolding continued_from fold join_flow
continued lines first least =
    let (i, parts) =
      continued_from (kind_of first) least lines.raw lines.i (first ∷ [])
        (drop lines.i lines.raw) in
    (fold_parts (kind_of first) parts, record lines { i = i })

abbrev cut : ℕ → Text → Text
cut indent line = if leb indent (length line) then drop indent line else strip line

-- The loop of `_block_scalar`: the next line after it, and its lines.
body_from : ℕ → Option ℕ → ℕ → List Text → ℕ × List Text
unfolding strip indent_of
body_from parent indent i [] = (i, [])
body_from parent indent i (line ∷ rest) =
    let here = or_else indent (indent_of line) in
    let (after_blank, blank_body) = body_from parent indent (suc i) rest in
    let (after_line, body) = body_from parent (some here) (suc i) rest in
    if is_empty (strip line)
    then (after_blank, [] ∷ blank_body)
    else if leb (indent_of line) parent
    then (i, [])
    else (after_line, cut here line ∷ body)

-- the lines without the empty ones at the end
without_blank_end : List Text → List Text
without_blank_end [] = []
without_blank_end (line ∷ lines) =
    let rest = without_blank_end lines in
    elim rest [ [] ↦ (if is_empty line then [] else line ∷ []) | r ∷ rs ↦ line ∷ r ∷ rs ]

-- re.sub(r"(?<!\n)\n(?!\n)", " ", s); `after` tells that a line break stands before
abbrev starts_break : Text → Bool
starts_break [] = false
starts_break (c ∷ s) = eqb c 10

single_breaks : Bool → Text → Text
single_breaks after [] = []
single_breaks after (c ∷ s) =
    let rest = single_breaks (eqb c 10) s in
    if eqb c 10 && not after && not (starts_break s) then 32 ∷ rest else c ∷ rest

abbrev scalar_text : Text → List Text → Text
scalar_text header [] = []
scalar_text header (line ∷ lines) =
    let joined = join (10 ∷ []) (line ∷ lines) in
    let body = (if begins header (codes "|") then joined else single_breaks false joined) in
    if any (λ c. eqb c b'-') header then body else body ++ 10 ∷ []

unfoldable pub block_scalar : Lines → Text → ℕ → Text × Lines
unfolding body_from without_blank_end single_breaks join
block_scalar lines header parent =
    let (i, body) = body_from parent none lines.i (drop lines.i lines.raw) in
    let kept =
      (if any (λ c. eqb c b'+') header && not (any (λ c. eqb c b'-') header)
        then body
        else without_blank_end body) in
    (scalar_text header kept, record lines { i = i })
