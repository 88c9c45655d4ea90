-- ===== src/Session/Snapshot.antt =====
-- `compare` of src/aisb/insights/snapshot.py. A value of an object is its JSON text, and one that is
-- null is left out.
use Prim.Native.String
use aisb.Prelude.{
  ℕ, String, Bool, not, ◌&&◌, Option, none, some, List, [], ◌∷◌, ◌++◌, ◌==◌, map, keep, length,
  Dict, get, keys, contains, inter, minus, union, sorted,
}

-- The fields of an object, and the objects of a kind by their names.
abbrev pub Object : Type 0
Object = Dict String

abbrev pub Objects : Type 0
Objects = Dict Object

pub data Kind : Type 0 where
  containers images volumes networks : Kind

pub record Snapshot : Type 0 where
  pub taken : Option ℕ
  pub objects : Kind → Objects

pub record Change : Type 0 where
  pub name : String
  pub recreated : Bool
  pub changes : Dict (Option String × Option String)

-- The differences of one kind; `tags` is empty but for images.
pub record Difference : Type 0 where
  pub added : List String
  pub removed : List String
  pub changed : List Change
  pub tags : List (String × Option String)

abbrev pub fields : Objects → String → Object
fields objects name = elim (get objects name) [ none ↦ [] | some object ↦ object ]

abbrev same_value : Option String → Option String → Bool
same_value none none = Bool.true
same_value (some v) (some w) = v == w
same_value _ _ = Bool.false

-- b[key].get(f) != a[key].get(f)
abbrev pub differs : Object → Object → String → Bool
differs before after f = not (same_value (get before f) (get after f))

-- the fields that differ, sorted
unfoldable pub delta : Object → Object → Dict (Option String × Option String)
unfolding get union
delta before after =
    map (λ f. (f, (get before f, get after f)))
      (keep (differs before after) (sorted (union (keys after) (keys before))))

abbrev is_containers : Kind → Bool
is_containers containers = Bool.true
is_containers _ = Bool.false

abbrev pub change_of :
    Kind → String → Dict (Option String × Option String) → List Change → List Change
change_of kind name [] rest = rest
change_of kind name (d ∷ ds) rest =
    record {
      name = name;
      recreated = contains (keys (d ∷ ds)) "id" && is_containers kind;
      changes = d ∷ ds;
    }
    ∷ rest

unfoldable pub changed_from : Kind → Objects → Objects → List String → List Change
unfolding delta contains
changed_from kind before after [] = []
changed_from kind before after (name ∷ names) =
    change_of kind name (delta (fields before name) (fields after name))
      (changed_from kind before after names)

-- (a.get(k) or b.get(k) or {}).get("tags", [])
abbrev tags_in : Object → Object → Option String
tags_in [] before = get before "tags"
tags_in (f ∷ after) before = get (f ∷ after) "tags"

abbrev tags_for : Kind → Objects → Objects → List String → List (String × Option String)
tags_for images before after names =
    map (λ k. (k, tags_in (fields after k) (fields before k))) names
tags_for _ before after names = []

unfoldable pub difference : Kind → Objects → Objects → Difference
unfolding minus inter sorted changed_from
difference kind before after =
    let added = sorted (minus (keys after) (keys before)) in
    let removed = sorted (minus (keys before) (keys after)) in
    record {
      added = added;
      removed = removed;
      changed = changed_from kind before after (sorted (inter (keys after) (keys before)));
      tags = tags_for kind before after (added ++ removed);
    }

-- `_CLEANUP`
abbrev cleanup_of : Kind → String → String
cleanup_of containers key = String.◌++◌ "aisb containers rm " (String.◌++◌ key " --force --dry-run")
cleanup_of images key = String.◌++◌ "aisb images rmi " (String.◌++◌ key " --dry-run")
cleanup_of volumes key = String.◌++◌ "aisb volumes rm " (String.◌++◌ key " --dry-run")
cleanup_of networks key = String.◌++◌ "aisb networks rm " (String.◌++◌ key " --dry-run")

abbrev kinds : List Kind
kinds = containers ∷ images ∷ volumes ∷ networks ∷ []

pub record Summary : Type 0 where
  pub added : ℕ
  pub removed : ℕ
  pub changed : ℕ

abbrev pub count : Difference → Summary
count d = record { added = length d.added; removed = length d.removed; changed = length d.changed }

pub record Comparison : Type 0 where
  pub window : Option ℕ × Option ℕ
  pub differences : Kind → Difference
  pub summary : List (Kind × Summary)
  pub cleanup : List String

abbrev cleanups : (Kind → Difference) → List Kind → List String
cleanups differences [] = []
cleanups differences (kind ∷ rest) =
    map (cleanup_of kind) (differences kind).added ++ cleanups differences rest

unfoldable pub compare : Snapshot → Snapshot → Comparison
unfolding difference
compare before after =
    let differences : Kind → Difference =
      λ kind. difference kind (before.objects kind) (after.objects kind) in
    record {
      window = (before.taken, after.taken);
      differences = differences;
      summary = map (λ kind. (kind, count (differences kind))) kinds;
      cleanup = cleanups differences kinds;
    }
