-- ===== src/Session/Journal.antt =====
-- What `capture` of src/aisb/api/session.py writes to the journal.
use mathlib.Core.Path.{subst}
use mathlib.Core.Option
use aisb.Prelude.{
  String, true, false, ◌≡◌, ◌⊎◌, refl, sym, inl, inr, Option, none, some, [], ◌∷◌, ◌++◌, ◌==◌,
  eq_iff, get, Dict, is_some, Bool-cases, ap, if◌then◌else◌,
}
use aisb.Prelude.Results.{Result, ok, err}
use aisb.Session.Snapshot.{Snapshot}
use aisb.Session.Undo.{Endpoint, capture_failed}
use aisb.Session.Rollback.{Entry, Undo, one}
use aisb.Session.Inspect.{Client, redacted}
use aisb.Session.Capture.{
  Change, Store, Captured, capture, capture_in, with_baseline, with_snapshot, entry_of,
  journal_entry, is_skipped, inverse_of,
}

module _ {A E : Type 0} (client : Client A E) (key : String) (c : Change) (s : Store)
    (start : Endpoint) where
  -- What `capture` makes of what is read to find the inverse: the inverse, or a note of what was
  -- raised, where that is caught.
  abbrev pub IsInverse : Option Undo → Result E (Option Undo) × Endpoint → Type 0
  IsInverse inverse (ok found, t) = inverse ≡ found
  IsInverse inverse (err e, t) =
      (client.is_rescued e ≡ true)
      × (inverse ≡ some (one (capture_failed (client.text_of_error e))))

  -- The endpoint as it was, or as the snapshot for a baseline left it.
  abbrev pub IsReached : Endpoint → Type 0
  IsReached u = (u ≡ start) ⊎ (u ≡ (client.world.snapshot start).1)

  -- The entry describes the change, is not done, and holds every argument under its name, "***" in
  -- place of one with a secret name; its inverse is what was found from there on, which left
  -- the endpoint as it is in the end.
  abbrev pub Describes : Entry → Endpoint → Type 0
  Describes e t =
      (e.id ≡ c.id)
      × (e.op ≡ c.op)
      × (e.tier ≡ c.tier)
      × (e.host ≡ c.host)
      × (e.is_done ≡ false)
      × ((k : String)
          → get e.args k
            ≡ Option.map (λ v. if client.is_secret k then "***" else v)
                (get c.arguments.all_args k))
      × (u : Endpoint) × IsReached u
      × ((inverse_of client key s.protects c.id c.op c.arguments u).1 ≡ t)
      × IsInverse e.inverse (inverse_of client key s.protects c.id c.op c.arguments u)

  -- One entry is added, which describes the change, and where something is raised nothing is.
  abbrev pub IsJournaled : Captured E → Type 0
  IsJournaled (ok r, s', t) = (e : Entry) × (s'.journal ≡ s.journal ++ e ∷ []) × Describes e t
  IsJournaled (err e, s', t) = s'.journal ≡ s.journal

  get-redacted :
      (args : Dict String) (k : String)
      → get (redacted client.is_secret args) k
        ≡ Option.map (λ v. if client.is_secret k then "***" else v) (get args k)
  unfolding redacted get
  get-redacted [] k = refl
  get-redacted ((n, v) ∷ args) k = elim (Bool-cases (n == k)) [
    | inl e ↦ rw (e, (eq_iff n k).0 e) refl
    | inr e ↦ rw e (get-redacted args k)
  ]

  entry_of-Describes :
      (inverse : Option Undo) (u t : Endpoint)
      → IsReached u
      → (inverse_of client key s.protects c.id c.op c.arguments u).1 ≡ t
      → IsInverse inverse (inverse_of client key s.protects c.id c.op c.arguments u)
      → Describes (entry_of client key c inverse) t
  entry_of-Describes inverse u t from last h =
      (refl, refl, refl, refl, refl, get-redacted c.arguments.all_args, u, from, last, h)

  -- the journal and what is protected stay, and at most a snapshot was taken
  abbrev Keeps : Store → Endpoint → Type 0
  Keeps s' u = (s'.journal ≡ s.journal) × (s'.protects ≡ s.protects) × IsReached u

  -- what writing an entry comes to, from what was read to find the inverse
  journal_entry-IsJournaled :
      (s' : Store) (u : Endpoint) (x : Result E (Option Undo) × Endpoint)
      → x ≡ inverse_of client key s.protects c.id c.op c.arguments u
      → IsReached u
      → s'.journal ≡ s.journal
      → IsJournaled (journal_entry client key c s' x)
  journal_entry-IsJournaled s' u (ok inverse, t) found from same = (
    entry_of client key c inverse,
    ap (λ j. j ++ entry_of client key c inverse ∷ []) same,
    entry_of-Describes inverse u t from (sym (ap (λ x. x.1) found))
        (subst (IsInverse inverse) found refl),
  )
  journal_entry-IsJournaled s' u (err e, t) found from same =
      elim (Bool-cases (client.is_rescued e)) [
        | inl rescued ↦
            let inverse = some (one (capture_failed (client.text_of_error e))) in
            rw (rescued, IsJournaled)
              (
                entry_of client key c inverse,
                ap (λ j. j ++ entry_of client key c inverse ∷ []) same,
                entry_of-Describes inverse u t from (sym (ap (λ x. x.1) found))
                    (subst (IsInverse inverse) found (rescued, refl)),
              )
        | inr raised ↦ rw (raised, IsJournaled) same
      ]

  capture_in-IsJournaled :
      (s' : Store) (u : Endpoint) → Keeps s' u → IsJournaled (capture_in client key c s' u)
  unfolding capture_in
  capture_in-IsJournaled s' u (same, protects, from) =
      journal_entry-IsJournaled s' u (inverse_of client key s'.protects c.id c.op c.arguments u)
        (ap (λ p. inverse_of client key p c.id c.op c.arguments u) protects) from same

  with_snapshot-IsJournaled :
      (host : String) (x : Result E Snapshot × Endpoint) (next : Store → Endpoint → Captured E)
      → IsReached x.1
      → ((s' : Store) (t : Endpoint) → Keeps s' t → IsJournaled (next s' t))
      → IsJournaled (with_snapshot client key host s x next)
  with_snapshot-IsJournaled host (ok base, t) next from good = good _ t (refl, refl, from)
  with_snapshot-IsJournaled host (err e, t) next from good =
      elim (Bool-cases (client.is_docker_error e)) [
        | inl known ↦ rw (known, IsJournaled) (good _ t (refl, refl, from))
        | inr other ↦ rw (other, IsJournaled) refl
      ]

  with_baseline-IsJournaled :
      (host : Option String) (next : Store → Endpoint → Captured E)
      → ((s' : Store) (t : Endpoint) → Keeps s' t → IsJournaled (next s' t))
      → IsJournaled (with_baseline client key host s start next)
  unfolding with_baseline
  with_baseline-IsJournaled none next good = good s start (refl, refl, inl refl)
  with_baseline-IsJournaled (some host) next good =
      elim (Bool-cases (is_some (get s.baselines host))) [
        | inl touched ↦ rw touched (good s start (refl, refl, inl refl))
        | inr fresh ↦
            rw fresh
              (with_snapshot-IsJournaled host (client.world.snapshot start) next (inr refl) good)
      ]

  -- While a session is at work, a change of a resource that is not left out adds exactly one entry
  -- to the journal, the last: it names the change, is not done, has every argument under its name with
  -- "***" for those with a secret name, and holds the inverse that was found, or a note of the failure
  -- where that is one `capture` catches. Where it raises, the journal stays as it was.
  pub capture-IsJournaled :
      is_some s.current ≡ true
      → is_skipped c.resource ≡ false
      → IsJournaled (capture client key c s start)
  unfolding capture
  capture-IsJournaled active kept =
      rw active (
        rw kept (with_baseline-IsJournaled c.host (capture_in client key c) capture_in-IsJournaled))
