-- ===== src/Yaml/Lines.antt =====
-- The lines of a document: `_strip_comment`, `_Lines` and `_check` of src/aisb/yamlish.py.
use aisb.Prelude.{
  ℕ, suc, ◌+◌, ◌-◌, ◌%◌, Bool, true, false, not, ◌&&◌, ◌||◌, Option, none, some, List, [], ◌∷◌,
  ◌++◌, codes, take, drop, any, eqb, if◌then◌else◌,
}
use aisb.Prelude.Results.{Result, ok, err}
use aisb.Yaml.Text.{
  Text, Error, unsupported, is_blank, is_in, text_eq, begins, is_empty, head_in, times, indent_of,
  lstrip_of, rstrip_of, strip, without_last, ends_with,
}
use aisb.Yaml.Quoted.{double, single}

-- The loop of `_strip_comment`; `start` tells whether a quote may open here, and `apart` whether a
-- comment may.
uncommented : Option ℕ → Bool → Bool → Text → Text
uncommented quote start apart [] = []
uncommented (some q) start apart (c ∷ s) =
    let rest =
      uncommented (if eqb c q then none else some q) (is_in c (codes " \t[{,:")) (is_blank c) s in
    c ∷ rest
uncommented none start apart (c ∷ s) =
    let quoted = is_in c (double ∷ single ∷ []) && start in
    let rest =
      uncommented (if quoted then some c else none) (is_in c (codes " \t[{,:")) (is_blank c) s in
    if not quoted && eqb c b'#' && apart then [] else c ∷ rest

unfoldable pub strip_comment : Text → Text
unfolding uncommented rstrip_of
strip_comment s = rstrip_of is_blank (uncommented none true true s)

-- text.expandtabs(2), from a column on
expand_from : ℕ → Text → Text
expand_from column [] = []
expand_from column (c ∷ s) =
    let tabbed = expand_from 0 s in
    let rest = expand_from (suc column) s in
    let width = 2 - column % 2 in
    let after_tab = expand_from (column + width) s in
    if eqb c 9
    then times 32 width ++ after_tab
    else if eqb c 10 || eqb c 13
    then c ∷ tabbed
    else c ∷ rest

-- re.split(r"\r\n|\r|\n", text), from what it has of the first line on; `after_cr` tells that a
-- carriage return ended the line before.
abbrev push : ℕ → List Text → List Text
push c [] = (c ∷ []) ∷ []
push c (line ∷ lines) = (c ∷ line) ∷ lines

split_lines : Bool → Text → List Text
split_lines after_cr [] = [] ∷ []
split_lines after_cr (c ∷ s) =
    let same = split_lines false s in
    let carried = split_lines true s in
    if eqb c 10
    then (if after_cr then same else [] ∷ same)
    else if eqb c 13
    then [] ∷ carried
    else push c same

abbrev without_final_break : Text → Text
without_final_break s = if ends_with 10 s then without_last s else s

-- `_Lines`: the lines, and the index of the next one
pub record Lines : Type 0 where
  pub raw : List Text
  pub i : ℕ

unfoldable pub lines_of : Text → Lines
unfolding expand_from split_lines ends_with without_last
lines_of s = record { raw = split_lines false (without_final_break (expand_from 0 s)); i = 0 }

abbrev is_content : Text → Bool
is_content s = not (text_eq s []) && not (text_eq s (codes "---"))

seen_content : List Text → ℕ → Bool
unfolding strip_comment strip
seen_content raw j = any (λ r. is_content (strip (strip_comment r))) (take j raw)

-- A line that is not blank and no comment: its index, its indentation and its content.
pub record Significant : Type 0 where
  pub index : ℕ
  pub indent : ℕ
  pub content : Text

significant_from : List Text → ℕ → List Text → Option Significant
unfolding seen_content strip_comment strip indent_of
significant_from raw j [] = none
significant_from raw j (r ∷ rs) =
    let rest = significant_from raw (suc j) rs in
    let line = strip_comment r in
    let content = strip line in
    if text_eq content (codes "...") || (begins line (codes "---") && seen_content raw j)
    then none
    else if not (is_empty content) && not (begins line (codes "---"))
    then some (record { index = j; indent = indent_of line; content = content })
    else rest

unfoldable pub next_significant : Lines → Option Significant
unfolding significant_from
next_significant lines = significant_from lines.raw lines.i (drop lines.i lines.raw)

-- `:[ \t]+[&*!]` somewhere in the text
abbrev is_mark_after : Text → Bool
is_mark_after [] = false
is_mark_after (c ∷ s) = is_blank c && head_in (codes "&*!") (lstrip_of is_blank s)

unfoldable pub has_mark : Text → Bool
unfolding lstrip_of
has_mark [] = false
has_mark (c ∷ s) = (eqb c b':' && is_mark_after s) || has_mark s

unfoldable pub check : Text → ℕ → Result Error (Unit {0})
unfolding has_mark lstrip_of
check text lineno =
    let t = lstrip_of (λ c. is_in c (codes "- ")) text in
    if head_in (codes "&*!") t || has_mark text || begins t (codes "<<")
    then err (unsupported lineno)
    else ok tt
