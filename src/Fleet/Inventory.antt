-- ===== src/Fleet/Inventory.antt =====
-- src/aisb/fleet/inventory.py: hosts, computed groups, and what a selector selects. The file that
-- holds the inventory, and the checks on the JSON that it is read from, are left out.
pub mod Selection
pub mod Termination
pub mod Editing
mod Tests
use Prim.Native.String.{String}
use Prim.Native.String
use text.Mathlib.Text.{starts_with}
use aisb.Prelude.{
  ℕ, zero, suc, Bool, true, false, not, ◌&&◌, ◌||◌, Option, none, some, List, [], ◌∷◌, ◌++◌, map,
  ◌==◌, Dict, get, put, keys, contains, inter, minus, union, any, keep, is_some, or_else, length,
  eqb, has_code, partition, tail_of, join_comma, sorted, if◌then◌else◌,
}
use aisb.Prelude.Results.{Result, ok, err, ◌>>=◌}
use aisb.Glob.{fnmatch}
use aisb.Fleet.Selector.{Operator, either, both, except, and_not, Term, terms_of, plain}

pub record Host : Type 0 where
  pub name : String
  pub ssh : Option String
  pub port : Option ℕ
  pub key : Option String
  pub docker : Option String
  pub groups : List String
  pub labels : Dict String
  pub ssh_options : List String

pub record Inventory : Type 0 where
  pub hosts : Dict Host
  pub groups : Dict (List String)

-- What `ValueError` and `KeyError` say; `out_of_fuel` belongs to the model only.
pub data Error : Type 0 where
  group_cycle unknown_group unknown_host empty_target selects_nothing computed_group key_error :
      String → Error
  clash : Error
  out_of_fuel : Error

-- tuple(dict.fromkeys(xs)): the first of each
unfoldable pub dedupe : List String → List String
dedupe [] = []
dedupe (x ∷ xs) = x ∷ minus (dedupe xs) (x ∷ [])

-- {n for n, h in self.hosts.items() if test(h)}
unfoldable pub names_where : (Host → Bool) → Dict Host → List String
names_where test [] = []
names_where test ((n, h) ∷ hosts) =
    if test h then n ∷ names_where test hosts else names_where test hosts

assigned : Dict Host → List String
assigned [] = []
assigned ((n, h) ∷ hosts) = h.groups ++ assigned hosts

unfoldable pub group_names : Inventory → List String
unfolding assigned dedupe
group_names inv = sorted (dedupe (assigned inv.hosts ++ keys inv.groups))

-- A set of names, or what is raised.
abbrev pub Names : Type 0
Names = Result Error (List String)

-- `h.labels.get(k, "\0")`
abbrev label_of : String → Host → String
label_of k h = or_else (get h.labels k) "\0"

-- `_atom`; `members` is the call of `self.members` with the groups that are being computed
unfoldable pub atom_of : Inventory → (String → Names) → String → Names
unfolding names_where
atom_of inv members a =
    if a == "all" || a == "*"
    then ok (keys inv.hosts)
    else if starts_with a "@"
    then members (tail_of a)
    else if has_code b'=' a
    then (let p = partition b'=' a in
        ok (names_where (λ h. fnmatch (label_of p.before h) p.after) inv.hosts))
    else if has_code b'*' a || has_code b'?' a || has_code b'[' a
    then ok (keep (λ n. fnmatch n a) (keys inv.hosts))
    else if contains (keys inv.hosts) a
    then ok (a ∷ [])
    else err (unknown_host a)

-- set().union(*(self._atom(a, seen) for a in plain))
unfoldable pub union_of : (String → Names) → List Term → Names
union_of atom [] = ok []
union_of atom (t ∷ ts) = do found ← atom t.atom; others ← union_of atom ts; ok (union found others)

-- the loop over the terms; what is plain has been used before
unfoldable pub narrow : (String → Names) → List Term → List String → Names
narrow atom [] chosen = ok chosen
narrow atom (t ∷ ts) chosen = elim t.op [
  | either ↦ narrow atom ts chosen
  | both ↦ (do found ← atom t.atom; narrow atom ts (inter chosen found))
  | except ↦ (do found ← atom t.atom; narrow atom ts (minus chosen found))
  | and_not ↦ (do found ← atom t.atom; narrow atom ts (minus chosen found))
]

abbrev pub start : Inventory → (String → Names) → List Term → Names
start inv atom [] = ok (keys inv.hosts)
start inv atom (t ∷ ts) = union_of atom (t ∷ ts)

abbrev pub resolve_terms : Inventory → (String → Names) → List Term → Names
resolve_terms inv atom [] = err (empty_target "")
resolve_terms inv atom (t ∷ ts) = do
  chosen ← start inv atom (plain (t ∷ ts))
  narrow atom (t ∷ ts) chosen

-- `_resolve`
unfoldable pub resolve : Inventory → (String → Names) → String → Names
unfolding narrow union_of plain
resolve inv members expr = resolve_terms inv (atom_of inv members) (terms_of expr)

-- the last test of `members`
abbrev pub known_group : Inventory → String → List String → Names
known_group inv group [] =
    if contains (keys inv.groups) group || contains (group_names inv) group
    then ok []
    else err (unknown_group group)
known_group inv group (n ∷ found) = ok (n ∷ found)

-- `if terms := self.groups.get(group)`: an empty list of terms counts as none
abbrev pub more_members : Names → Option (List String) → List String → Names
more_members resolved none found = ok found
more_members resolved (some []) found = ok found
more_members resolved (some (t ∷ ts)) found = do more ← resolved; ok (union found more)

abbrev pub expr_of : Option (List String) → String
expr_of none = ""
expr_of (some terms) = join_comma terms

-- `members`, on fuel: each nested call computes one group more
unfoldable pub members : ℕ → Inventory → List String → String → Names
unfolding atom_of resolve
members zero inv seen group = err out_of_fuel
members (suc fuel) inv seen group =
    let terms = get inv.groups group in
    let nested = resolve inv (λ g. members fuel inv (group ∷ seen) g) (expr_of terms) in
    let found = names_where (λ h. contains h.groups group) inv.hosts in
    let result = (do
      all_found ← more_members nested terms found
      known_group inv group all_found) in
    if contains seen group then err (group_cycle group) else result

abbrev pub enough : Inventory → ℕ
enough inv = suc (length (keys inv.groups))

unfoldable pub members_of : Inventory → String → Names
unfolding members
members_of inv group = members (enough inv) inv [] group

-- [self.hosts[n] for n in names]
unfoldable pub hosts_of : Inventory → List String → Result Error (List Host)
hosts_of inv [] = ok []
hosts_of inv (n ∷ ns) = do
  h ← (elim (get inv.hosts n) [ none ↦ err (key_error n) | some h ↦ ok h ])
  rest ← hosts_of inv ns
  ok (h ∷ rest)

abbrev pub selected : Inventory → String → List String → Result Error (List Host)
selected inv expr [] = err (selects_nothing expr)
selected inv expr (n ∷ chosen) = hosts_of inv (sorted (n ∷ chosen))

-- `select`
unfoldable pub select : Inventory → String → Result Error (List Host)
unfolding members_of
select inv expr = do chosen ← resolve inv (members_of inv) expr; selected inv expr chosen

-- `regroup`, its two loops. A name that is no host raises KeyError.
unfoldable pub join_group : String → List String → Dict Host → Result Error (Dict Host)
unfolding dedupe
join_group group [] hosts = ok hosts
join_group group (n ∷ ns) hosts = elim (get hosts n) [
  | none ↦ err (key_error n)
  | some h ↦
      join_group group ns (put hosts n (record h { groups = dedupe (h.groups ++ group ∷ []) }))
]

unfoldable pub leave_group : String → List String → Dict Host → Result Error (Dict Host)
leave_group group [] hosts = ok hosts
leave_group group (n ∷ ns) hosts = elim (get hosts n) [
  | none ↦ err (key_error n)
  | some h ↦ leave_group group ns (put hosts n (record h { groups = minus h.groups (group ∷ []) }))
]

unfoldable pub regroup : Inventory → String → (add remove : List String) → Result Error Inventory
unfolding join_group leave_group
regroup inv group add remove =
    if contains (keys inv.groups) group then err (computed_group group) else do
      joined ← join_group group add inv.hosts
      left ← leave_group group remove joined
      ok (record inv { hosts = left })

-- `{**old, **new}`
unfoldable pub update : Dict String → Dict String → Dict String
update d [] = d
update d ((k, v) ∷ e) = update (put d k v) e

-- the new field, or the old one where the new one is not truthy
abbrev pub text_or_old : Option String → Option String → Option String
text_or_old none old = old
text_or_old (some x) old = if x == "" then old else some x

abbrev pub port_or_old : Option ℕ → Option ℕ → Option ℕ
port_or_old none old = old
port_or_old (some x) old = if eqb x 0 then old else some x

abbrev pub options_or_old : List String → List String → List String
options_or_old [] old = old
options_or_old (x ∷ xs) old = x ∷ xs

unfoldable pub merged : Host → Host → Host
unfolding dedupe update
merged old h = record h {
  ssh = text_or_old h.ssh old.ssh;
  port = port_or_old h.port old.port;
  key = text_or_old h.key old.key;
  docker = text_or_old h.docker old.docker;
  groups = dedupe (old.groups ++ h.groups);
  labels = update old.labels h.labels;
  ssh_options = options_or_old h.ssh_options old.ssh_options;
}

-- `upsert`, which returns the host that it stores
unfoldable pub upsert : Inventory → Host → Bool → Inventory × Host
unfolding merged
upsert inv host merge =
    let stored : Host = elim (get inv.hosts host.name) [
      | none ↦ host
      | some old ↦ if merge then merged old host else host
    ] in
    (record inv { hosts = put inv.hosts host.name stored }, stored)
