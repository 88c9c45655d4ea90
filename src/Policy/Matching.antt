-- ===== src/Policy/Matching.antt =====
-- `matches` of src/aisb/policy.py: which operations, callers and hosts a rule is about.
use Prim.Native.String.{String}
use aisb.Prelude.{
  Bool, true, false, not, ◌&&◌, ◌||◌, Option, none, some, List, [], ◌∷◌, ◌==◌, any, keys, contains,
  join_comma, if◌then◌else◌,
}
use aisb.Prelude.Results.{Result, ok, err}
use aisb.Glob.{fnmatch}
use aisb.Fleet.Selector.{either, both, except, and_not, Term, terms_of, plain}
use aisb.Fleet.Inventory.{Host, Inventory, Error, select}
use aisb.Fleet.Inventory.Selection.{names}
use aisb.Policy.{Ctx, Values, many}

pub record Match : Type 0 where
  pub op : Values
  pub tier : Values
  pub source : Values
  pub user : Values
  pub hosts : Values

-- `_LOCAL`
unfoldable pub is_local : String → Bool
is_local a = a == "local" || a == "all" || a == "*"

abbrev pub chosen_first : List Term → Bool
chosen_first [] = true
chosen_first (t ∷ ts) = any (λ u. is_local u.atom) (t ∷ ts)

-- the test of the loop in `_local_matches`
unfoldable pub removes_local : Term → Bool
removes_local t = elim t.op [
  | either ↦ false
  | both ↦ not (is_local t.atom)
  | except ↦ is_local t.atom
  | and_not ↦ is_local t.atom
]

unfoldable pub local_loop : List Term → Bool → Bool
unfolding removes_local
local_loop [] chosen = chosen
local_loop (t ∷ ts) chosen = local_loop ts (if removes_local t then false else chosen)

-- `_local_matches`
unfoldable pub local_matches : String → Bool
unfolding local_loop is_local
local_matches expr = let terms = terms_of expr in local_loop terms (chosen_first (plain terms))

-- the inventory with which `_host_matches` selects: a host that it does not hold stands alone
unfoldable pub around : Inventory → Host → Inventory
around inv h =
    if contains (keys inv.hosts) h.name then inv else record inv { hosts = (h.name, h) ∷ [] }

abbrev pub is_selected : Result Error (List Host) → String → Bool
is_selected (ok hs) n = contains (names hs) n
is_selected (err e) n = false

-- `_host_matches`; `none` is an inventory that does not load
unfoldable pub host_matches : Option Inventory → String → Option Host → Bool
unfolding local_matches around
host_matches loaded expr none = local_matches expr
host_matches none expr (some h) = false
host_matches (some inv) expr (some h) = is_selected (select (around inv h) expr) h.name

-- `(xs := _many(...)) and not test(xs)`, which refuses
abbrev pub refuses : List String → (List String → Bool) → Bool
refuses [] test = false
refuses (x ∷ xs) test = not (test (x ∷ xs))

unfoldable pub matches : Option Inventory → Match → (op tier : String) → Ctx → Bool
unfolding many host_matches
matches loaded m op tier ctx =
    let hosts = join_comma (many m.hosts) in
    if refuses (many m.op) (any (λ p. fnmatch op p))
    then false
    else if refuses (many m.tier) (λ ts. contains ts tier)
    then false
    else if refuses (many m.source) (λ ss. contains ss ctx.source)
    then false
    else if refuses (many m.user) (any (λ u. fnmatch ctx.user u))
    then false
    else if not (hosts == "") && not (host_matches loaded hosts ctx.host)
    then false
    else true
