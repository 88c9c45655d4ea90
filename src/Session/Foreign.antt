-- ===== src/Session/Foreign.antt =====
-- What a rollback of src/aisb/api/session.py leaves alone: an inverse that would bring back a container,
-- a network or a volume that the baseline does not hold. Recreating a container that the baseline holds
-- restores the volumes recorded with it, whatever the baseline holds of these.
use aisb.Prelude.{
  String, Bool, true, false, not, ◌&&◌, ◌||◌, ◌≡◌, refl, ap, ◌∙◌, sym, inl, inr, Option, none, some,
  List, [], ◌∷◌, ◌++◌, map, keep, keys, contains, Bool-cases, arith, if◌then◌else◌,
}
use aisb.Prelude.Results.{ok, err}
use aisb.Session.Snapshot.{Snapshot, Comparison, Kind, compare, containers, volumes, networks}
use aisb.Session.Undo.{
  Inverse, recreate_container, recreate_network, restore_volume, remove_volume, restore_db,
  set_running, not_undoable, capture_failed, World,
}
use aisb.Session.Rollback.{
  Undo, one, group, Entry, Rolling, is_wanted, then_roll, undo, undo_parts, undo_entry,
  undo_entries, has_inverse, marked, mark_next, keep_next, removed_names, removed_by,
}
use aisb.Session.Scope.{
  reverse, Outcome, roll_back, then_entries, clean_up, replay, turned, remove_containers,
}
use aisb.Session.Laws.{Turn}

-- the object that an inverse brings back, with its kind
abbrev brought_back : Inverse → Option (Kind × String)
brought_back (recreate_container c) = some (containers, c.name)
brought_back (recreate_network n driver internal labels) = some (networks, n)
brought_back (restore_volume n meta backup) = some (volumes, n)
brought_back _ = none

abbrev is_outside : Snapshot → Option (Kind × String) → Bool
is_outside base none = false
is_outside base (some (kind, n)) = not (contains (keys (base.objects kind)) n)

-- The inverse brings back what the baseline does not hold.
abbrev is_foreign : Snapshot → Inverse → Bool
is_foreign base inverse = is_outside base (brought_back inverse)

abbrev own_parts : Snapshot → List Inverse → List Inverse
own_parts base = keep (λ i. not (is_foreign base i))

abbrev own_undo : Snapshot → Option Undo → Option Undo
own_undo base none = none
own_undo base (some (one inverse)) =
    some (if is_foreign base inverse then group [] else one inverse)
own_undo base (some (group inverses)) = some (group (own_parts base inverses))

-- The entry without its foreign inverses.
unfoldable pub without_foreign : Snapshot → Entry → Entry
without_foreign base e = record e { inverse = own_undo base e.inverse }

foreign-unwanted :
    (base : Snapshot) (inverse : Inverse)
    → is_foreign base inverse ≡ true
    → is_wanted base inverse ≡ false
unfolding is_wanted
foreign-unwanted base (recreate_container c) h = ground (arith, h)
foreign-unwanted base (recreate_network n driver internal labels) h = ground (arith, h)
foreign-unwanted base (restore_volume n meta backup) h = ground (arith, h)
foreign-unwanted base (remove_volume n) h = cc
foreign-unwanted base (restore_db c database dump) h = cc
foreign-unwanted base (set_running n c running) h = cc
foreign-unwanted base (not_undoable reason) h = cc
foreign-unwanted base (capture_failed e) h = cc

is_done-without_foreign :
    (base : Snapshot) (e : Entry) → (without_foreign base e).is_done ≡ e.is_done
unfolding without_foreign
is_done-without_foreign base e = refl

inverse-without_foreign :
    (base : Snapshot) (e : Entry) → (without_foreign base e).inverse ≡ own_undo base e.inverse
unfolding without_foreign
inverse-without_foreign base e = refl

has_inverse-without_foreign :
    (base : Snapshot) (e : Entry) → has_inverse (without_foreign base e) ≡ has_inverse e
unfolding without_foreign
has_inverse-without_foreign base e = by_inverse e.inverse
  where
    by_inverse :
        (u : Option Undo)
        → has_inverse (record e { inverse = own_undo base u })
          ≡ has_inverse (record e { inverse = u })
    by_inverse none = refl
    by_inverse (some (one inverse)) = refl
    by_inverse (some (group inverses)) = refl

is_skipped-without_foreign :
    (base : Snapshot) (mine : Entry → Bool) (e : Entry)
    → mine (without_foreign base e) ≡ mine e
    → (not (mine (without_foreign base e))
        || (without_foreign base e).is_done
        || not (has_inverse (without_foreign base e)))
      ≡ (not (mine e) || e.is_done || not (has_inverse e))
is_skipped-without_foreign base mine e same =
    rw (same, has_inverse-without_foreign base e, is_done-without_foreign base e) refl

marked-without_foreign :
    (base : Snapshot) (plan : Bool) (e : Entry)
    → marked plan (without_foreign base e) ≡ without_foreign base (marked plan e)
unfolding without_foreign
marked-without_foreign base plan e =
    ap (λ b. record e { inverse = own_undo base e.inverse; is_done = e.is_done || (not plan && b) })
      (has_inverse-without_foreign base e)

removed_by-own_undo :
    (base : Snapshot) (u : Option Undo) → removed_by (own_undo base u) ≡ removed_by u
removed_by-own_undo base none = refl
removed_by-own_undo base (some (group inverses)) = refl
removed_by-own_undo base (some (one (recreate_container c))) = ground arith
removed_by-own_undo base (some (one (recreate_network n driver internal labels))) = ground arith
removed_by-own_undo base (some (one (restore_volume n meta backup))) = ground arith
removed_by-own_undo base (some (one (remove_volume n))) = refl
removed_by-own_undo base (some (one (restore_db c database dump))) = refl
removed_by-own_undo base (some (one (set_running n c running))) = refl
removed_by-own_undo base (some (one (not_undoable reason))) = refl
removed_by-own_undo base (some (one (capture_failed e))) = refl

removed_names-without_foreign :
    (base : Snapshot) (mine : Entry → Bool) (es : List Entry)
    → ((e : Entry) → mine (without_foreign base e) ≡ mine e)
    → removed_names (keep mine (map (without_foreign base) es)) ≡ removed_names (keep mine es)
unfolding removed_names
removed_names-without_foreign base mine [] same = refl
removed_names-without_foreign base mine (e ∷ es) same =
    let rest = removed_names-without_foreign base mine es same in
    elim (Bool-cases (mine e)) [
      | inl here ↦
          rw (same e, here, inverse-without_foreign base e, removed_by-own_undo base e.inverse)
            (ap (λ ns. removed_by e.inverse ++ ns) rest)
      | inr elsewhere ↦ rw (same e, elsewhere) rest
    ]

map-append : (f : Entry → Entry) (xs ys : List Entry) → map f (xs ++ ys) ≡ map f xs ++ map f ys
map-append f [] ys = refl
map-append f (x ∷ xs) ys = ap (λ r. f x ∷ r) (map-append f xs ys)

reverse-map : (f : Entry → Entry) (es : List Entry) → reverse (map f es) ≡ map f (reverse es)
unfolding reverse
reverse-map f [] = refl
reverse-map f (e ∷ es) =
    ap (λ r. r ++ f e ∷ []) (reverse-map f es) ∙ sym (map-append f (reverse es) (e ∷ []))

then_roll-same :
    {E : Type 0} (x : Turn E) (f g : Rolling E → Turn E)
    → ((s : Rolling E) → f s ≡ g s)
    → then_roll x f ≡ then_roll x g
then_roll-same (ok r, s) f g same = same s
then_roll-same (err e, s) f g same = refl

module _ {A E : Type 0} (w : World A E) (plan : Bool) (place : Option String)
    (base : Snapshot) where
  undo_parts-own_parts :
      (inverses : List Inverse) (s : Rolling E)
      → undo_parts w plan place base (own_parts base inverses) s
        ≡ undo_parts w plan place base inverses s
  unfolding undo_parts
  undo_parts-own_parts [] s = refl
  undo_parts-own_parts (i ∷ inverses) s = elim (Bool-cases (is_foreign base i)) [
    | inl foreign ↦ rw (foreign, foreign-unwanted base i foreign) (undo_parts-own_parts inverses s)
    | inr own ↦ rw own (
        ap
          (λ x.
            if is_wanted base i
            then x
            else undo_parts w plan place base (own_parts base inverses) s)
          (then_roll-same (undo w plan place i s)
            (undo_parts w plan place base (own_parts base inverses))
            (undo_parts w plan place base inverses) (undo_parts-own_parts inverses))
        ∙ ap
            (λ x.
              if is_wanted base i
              then then_roll (undo w plan place i s) (undo_parts w plan place base inverses)
              else x)
            (undo_parts-own_parts inverses s))
  ]

  undo_entry-own_undo :
      (u : Option Undo) (s : Rolling E)
      → undo_entry w plan place base (own_undo base u) s ≡ undo_entry w plan place base u s
  unfolding undo_parts
  undo_entry-own_undo none s = refl
  undo_entry-own_undo (some (one inverse)) s = elim (Bool-cases (is_foreign base inverse)) [
    | inl foreign ↦ rw (foreign, foreign-unwanted base inverse foreign) refl
    | inr own ↦ rw own refl
  ]
  undo_entry-own_undo (some (group inverses)) s = undo_parts-own_parts inverses s

  -- an outcome, with the entries as they are without foreign inverses
  abbrev pub forgetting : Outcome E → Outcome E
  forgetting (result, s, es) = (result, s, map (without_foreign base) es)

  mark_next-forgetting :
      (e : Entry) (es : List Entry) (next next' : Rolling E → Outcome E) (x : Turn E)
      → ((s : Rolling E) → next' s ≡ forgetting (next s))
      → mark_next w plan place (without_foreign base e) (map (without_foreign base) es) next' x
        ≡ forgetting (mark_next w plan place e es next x)
  mark_next-forgetting e es next next' (err f, s) same = refl
  mark_next-forgetting e es next next' (ok r, s) same =
      rw (same s, marked-without_foreign base plan e) refl

  keep_next-forgetting :
      (e : Entry) (x : Outcome E)
      → keep_next w plan place (without_foreign base e) (forgetting x)
        ≡ forgetting (keep_next w plan place e x)
  keep_next-forgetting e (result, s, es) = refl

  undo_without_foreign :
      (e : Entry) (s : Rolling E)
      → undo_entry w plan place base (without_foreign base e).inverse s
        ≡ undo_entry w plan place base e.inverse s
  unfolding without_foreign
  undo_without_foreign e s = undo_entry-own_undo e.inverse s

  if-forgetting :
      (b b' : Bool) (x y x' y' : Outcome E)
      → b' ≡ b
      → x' ≡ forgetting x
      → y' ≡ forgetting y
      → (if b' then x' else y') ≡ forgetting (if b then x else y)
  if-forgetting true b' x y x' y' same first second = rw same first
  if-forgetting false b' x y x' y' same first second = rw same second

  undo_entries-forgetting :
      (mine : Entry → Bool) (es : List Entry) (s : Rolling E)
      → ((e : Entry) → mine (without_foreign base e) ≡ mine e)
      → undo_entries w plan place mine base (map (without_foreign base) es) s
        ≡ forgetting (undo_entries w plan place mine base es s)
  unfolding undo_entries
  undo_entries-forgetting mine [] s same = refl
  undo_entries-forgetting mine (e ∷ es) s same =
      let before = undo_entries w plan place mine base es s in
      if-forgetting (not (mine e) || e.is_done || not (has_inverse e)) _
        (keep_next w plan place e before)
        (mark_next w plan place e es (undo_entries w plan place mine base es)
          (undo_entry w plan place base e.inverse s))
        _ _ (is_skipped-without_foreign base mine e (same e))
        (ap (keep_next w plan place (without_foreign base e))
            (undo_entries-forgetting mine es s same)
          ∙ keep_next-forgetting e before)
        (ap
            (mark_next w plan place (without_foreign base e) (map (without_foreign base) es)
              (undo_entries w plan place mine base (map (without_foreign base) es)))
            (undo_without_foreign e s)
          ∙ mark_next-forgetting e es (undo_entries w plan place mine base es)
              (undo_entries w plan place mine base (map (without_foreign base) es))
              (undo_entry w plan place base e.inverse s)
              (λ t. undo_entries-forgetting mine es t same))

  then_entries-forgetting :
      (next next' : Rolling E → Outcome E) (es : List Entry) (x : Turn E)
      → ((s : Rolling E) → next' s ≡ forgetting (next s))
      → then_entries w plan next' (map (without_foreign base) es) x
        ≡ forgetting (then_entries w plan next es x)
  then_entries-forgetting next next' es (ok r, s) same = same s
  then_entries-forgetting next next' es (err e, s) same = refl

  clean_up-forgetting :
      (diff : Comparison) (own own' : List Entry) (x : Outcome E)
      → removed_names own' ≡ removed_names own
      → clean_up w plan place diff own' (forgetting x)
        ≡ forgetting (clean_up w plan place diff own x)
  clean_up-forgetting diff own own' (ok r, s, es) same = rw same refl
  clean_up-forgetting diff own own' (err e, s, es) same = refl

  turned-forgetting : (x : Outcome E) → turned w plan (forgetting x) ≡ forgetting (turned w plan x)
  turned-forgetting (result, s, es) =
      ap (λ es. (result, s, es)) (reverse-map (without_foreign base) es)

  replay-forgetting :
      (mine : Entry → Bool) (journal : List Entry) (s : Rolling E)
      → ((e : Entry) → mine (without_foreign base e) ≡ mine e)
      → replay w plan place mine base (map (without_foreign base) journal) s
        ≡ forgetting (replay w plan place mine base journal s)
  replay-forgetting mine journal s same =
      ap (λ es. turned w plan (undo_entries w plan place mine base es s))
        (reverse-map (without_foreign base) journal)
      ∙ ap (turned w plan) (undo_entries-forgetting mine (reverse journal) s same)
      ∙ turned-forgetting (undo_entries w plan place mine base (reverse journal) s)

  -- What an endpoint's rollback does, its requests, steps and end, is the same as without the inverses
  -- that bring back a container, a network or a volume that the baseline does not hold; the entries
  -- end marked alike. Which entries are the endpoint's does not depend on their inverses.
  pub roll_back-without_foreign :
      (mine : Entry → Bool) (journal : List Entry) (now : Snapshot) (s : Rolling E)
      → ((e : Entry) → mine (without_foreign base e) ≡ mine e)
      → roll_back w plan place mine base (map (without_foreign base) journal) now s
        ≡ forgetting (roll_back w plan place mine base journal now s)
  unfolding roll_back
  roll_back-without_foreign mine journal now s same =
      ap (clean_up w plan place (compare base now) (keep mine (map (without_foreign base) journal)))
        (then_entries-forgetting (replay w plan place mine base journal)
          (replay w plan place mine base (map (without_foreign base) journal)) journal
          (remove_containers w plan place base now s) (λ t. replay-forgetting mine journal t same))
      ∙ clean_up-forgetting (compare base now) (keep mine journal)
          (keep mine (map (without_foreign base) journal)) _
          (removed_names-without_foreign base mine journal same)
