-- ===== src/Fleet/Selector.antt =====
-- The syntax of selectors: `_TERM` of src/aisb/fleet/inventory.py and the list of terms that
-- `_resolve` and `_local_matches` make with it. The regular expression is run as a scanner: an
-- operator opens a term, and the term's atom reaches to the next operator.
mod Tests
use Prim.Native.Char.{Char, code}
use Prim.Native.String
use Prim.Native.String.{String}
use aisb.Prelude.{
  ℕ, Bool, true, false, not, ◌&&◌, ◌||◌, List, [], ◌∷◌, ◌++◌, ◌==◌, eqb, keep, strip, if◌then◌else◌,
}

-- "" or `,`; `&`; `!`; `&!`
pub data Operator : Type 0 where
  either both except and_not : Operator

pub record Term : Type 0 where
  pub op : Operator
  pub atom : String

abbrev push : String → Char → String
push s c = String.◌++◌ s (String.◌∷◌ c "")

-- A term with no character is no match; one that is blank is left out by `if atom.strip()`.
emit : Operator → String → List Term → List Term
emit op atom rest =
    let bare = strip atom in if bare == "" then rest else record { op = op; atom = bare } ∷ rest

-- `&!` is one operator where nothing stands between
after_bang : Operator → String → Operator
after_bang both atom = if atom == "" then and_not else except
after_bang op atom = except

scan : Operator → String → String → List Term
scan op atom String.[] = emit op atom []
scan op atom (String.◌∷◌ c s) =
    let union = scan either "" s in
    let meet = scan both "" s in
    let drop = scan (after_bang op atom) "" s in
    let more = scan op (push atom c) s in
    if eqb (code c) b','
    then emit op atom union
    else if eqb (code c) b'&'
    then emit op atom meet
    else if eqb (code c) b'!'
    then emit op atom drop
    else more

-- [(op, atom.strip()) for op, atom in _TERM.findall(expr) if atom.strip()]
unfoldable pub terms_of : String → List Term
unfolding scan emit after_bang strip
terms_of expr = scan either "" expr

-- op not in ("&", "!", "&!")
unfoldable pub is_plain : Term → Bool
is_plain t = elim t.op [ either ↦ true | _ ↦ false ]

unfoldable pub plain : List Term → List Term
plain = keep is_plain
