-- ===== src/Stack/Ps/Healthy.antt =====
-- `ps` against `plan`, for a stack file.
use aisb.Prelude.{
  String, ◌≡◌, refl, Bool, true, false, not, ◌&&◌, Option, none, some, List, [], ◌∷◌, ◌==◌, Dict,
  get, map, all, is_some, if◌then◌else◌, All, Bool-cases, inl, inr, eq_iff,
}
use aisb.Stack.{
  Stack, Row, fine, drift, stopped, labels, belongs, find_service, class_of, class_of_row,
  service_key, hash_key, is_text, text_or, dict_or, has_drifted, digest_of,
}
use aisb.Stack.Plan.{same_class}
use aisb.Stack.Down.{Listed, label_of}
use aisb.Stack.Ps.{shown, shown_of, row_of, is_fine}

-- a row of the list, as `plan` reads it
abbrev pub as_row : Listed → Row
as_row r = record {
  api_labels = r.labels;
  list_labels = none;
  api_state = r.state;
  list_state = none;
}

abbrev row_option : Option Listed → Option Row
row_option none = none
row_option (some r) = some (as_row r)

same_labels : (r : Listed) → labels (as_row r) ≡ dict_or r.labels []
unfolding labels
same_labels r = either r.labels
  where
    either : (o : Option (Dict String)) → dict_or o (dict_or none []) ≡ dict_or o []
    either o = refl

same_found :
    (later : Option Listed) (found : Option Row) (mine : Bool) (r : Listed)
    → found ≡ row_option later
    → (if is_some found then found else if mine then some (as_row r) else none)
      ≡ row_option (if is_some later then later else if mine then some r else none)
same_found none found true r h = rw h refl
same_found none found false r h = rw h refl
same_found (some l) found mine r h = rw h refl

-- `plan` and `ps` find the same container for a service.
find_service-row_of :
    (s : Stack) (rows : List Listed) (n : String)
    → All (λ r. belongs s (as_row r) ≡ true) rows
    → find_service s (map as_row rows) n ≡ row_option (row_of rows n)
unfolding find_service row_of label_of
find_service-row_of s [] n h = refl
find_service-row_of s (r ∷ rows) n (b, h) =
    rw (b, same_labels r)
      (same_found (row_of rows n) (find_service s (map as_row rows) n)
        (is_text (get (dict_or r.labels []) service_key) n) r (find_service-row_of s rows n h))

-- a state that is the empty text is none
is_running :
    (state : Option String) → is_text (text_or state none) "running" ≡ is_text state "running"
is_running none = refl
is_running (some t) = elim (Bool-cases (t == "")) [
  | inl e ↦ rw ((eq_iff t "").0 e) refl
  | inr e ↦ rw e refl
]

is_fine-class :
    (s : Stack) (n : String) (o : Option Listed)
    → is_fine (shown_of (some s) n o) ≡ same_class fine (class_of_row s n (row_option o))
unfolding label_of
is_fine-class s n none = refl
is_fine-class s n (some r) =
    rw (same_labels r, is_running r.state)
      (classes (is_text r.state "running")
        (has_drifted (get (dict_or r.labels []) hash_key) (digest_of (get s.services n))))
  where
    classes :
        (running drifted : Bool)
        → (running && not drifted)
          ≡ same_class fine (if drifted then drift else if not running then stopped else fine)
    classes true true = refl
    classes true false = refl
    classes false true = refl
    classes false false = refl

all_fine :
    (s : Stack) (rows : List Listed) (names : List String)
    → All (λ r. belongs s (as_row r) ≡ true) rows
    → all is_fine (map (λ n. shown_of (some s) n (row_of rows n)) names)
      ≡ all (λ n. same_class fine (class_of s (map as_row rows) n)) names
unfolding class_of
all_fine s rows [] h = refl
all_fine s rows (n ∷ names) h =
    rw (find_service-row_of s rows n h, all_fine s rows names h, is_fine-class s n (row_of rows n))
      refl

-- With a stack file, where the listed containers carry the label of the stack or no such label, `ps`
-- says that the stack is healthy exactly if `plan`, for the same containers, puts every service of
-- the order in the class of those that are as the file says.
pub shown-healthy :
    (name : String) (s : Stack) (rows : List Listed)
    → All (λ r. belongs s (as_row r) ≡ true) rows
    → (shown name (some s) rows).healthy
      ≡ all (λ n. same_class fine (class_of s (map as_row rows) n)) s.order
unfolding shown
shown-healthy name s rows h = all_fine s rows s.order h
