-- ===== src/Fleet/Runner/Laws.antt =====
-- `fan_out`: who is run, who is skipped, and how often.
use mathlib.Core.Path.{subst}
use aisb.Prelude.{
  ℕ, zero, suc, ◌+◌, ◌≤◌, ◌<◌, String, ◌≡◌, refl, sym, ap, ◌∙◌, ◌⊎◌, inl, inr, Bool, true, false,
  not, ◌&&◌, ◌||◌, Option, none, some, List, [], ◌∷◌, ◌++◌, map, any, length, keep, take, drop,
  length-drop, take-append-drop, append-nil, append_assoc, arith, Bool-cases, eqb, eqb_iff,
}
use aisb.Fleet.Inventory.{Host}
use aisb.Yaml.Text.{ℤ, pos, negsuc}
use aisb.Fleet.Runner.{
  HostResult, Ending, returned, unreachable, failed, unavailable, Job, one, ended, result_of,
  attempt_from, attempt, size_of_batch, Fanned, names_of, batch_step, fan_from, fan_rounds, fan_out,
  summary,
}

-- an attempt that is made again: its connection could not be set up, and there is time
unfoldable pub IsRetried : Host → Job → ℕ → Type 0
IsRetried h job n =
    ((result_of h job n).ok ≡ false)
    × ((result_of h job n).transient ≡ true)
    × (job.is_late n ≡ false)

retried :
    (h : Host) (job : Job) (n : ℕ)
    → ((result_of h job n).ok || not (result_of h job n).transient || job.is_late n) ≡ false
    → IsRetried h job n
unfolding IsRetried
retried h job n e = (ground (arith, e), ground (arith, e), ground (arith, e))

next_le : (n m : ℕ) → n ≤ m → eqb n m ≡ false → n + 1 ≤ m
next_le n m a x = ground (arith, x)

attempt_from_last :
    (h : Host) (job : Job) (left n : ℕ)
    → (k : ℕ) × (attempt_from h job left n ≡ result_of h job k)
      × (n ≤ k)
      × (k ≤ n + left)
      × ((m : ℕ) → n ≤ m → m < k → IsRetried h job m)
unfolding attempt_from
attempt_from_last h job zero n = (n, refl, omega arith, omega arith, λ m a b. absurd (omega arith))
attempt_from_last h job (suc left) n =
    elim (Bool-cases
      ((result_of h job n).ok || not (result_of h job n).transient || job.is_late n)) [
        | inl e ↦ (n, rw e refl, omega arith, omega arith, λ m a b. absurd (omega arith))
        | inr e ↦
            let (k, same, from_next, bound, before) = attempt_from_last h job left (n + 1) in
            (
              k,
              rw e same,
              omega arith,
              omega arith,
              λ m a b. elim (Bool-cases (eqb n m)) [
                | inl x ↦ subst (IsRetried h job) ((eqb_iff n m).0 x) (retried h job n e)
                | inr x ↦ before m (next_le n m a x) b
              ],
            )
      ]

-- `_attempt` returns the result of one of its attempts, at most one more than there are retries; each
-- attempt before it failed to set up its connection, before the deadline.
pub attempt_is_last :
    (h : Host) (job : Job) (retries : ℕ)
    → (k : ℕ) × (attempt h job retries ≡ result_of h job k)
      × (1 ≤ k)
      × (k ≤ 1 + retries)
      × ((m : ℕ) → 1 ≤ m → m < k → IsRetried h job m)
unfolding attempt
attempt_is_last h job retries = attempt_from_last h job retries 1

one-host : (h : Host) (e : Ending) → (one h e).host ≡ h.name
unfolding one
one-host h (returned r) = refl
one-host h (unreachable t) = refl
one-host h (failed t) = refl
one-host h (unavailable t) = refl

ended-host : (h : Host) (job : Job) (n : ℕ) (e : Option Ending) → (ended h job n e).host ≡ h.name
ended-host h job n (some e) = one-host h e
ended-host h job n none = refl

attempt-host : (h : Host) (job : Job) (retries : ℕ) → (attempt h job retries).host ≡ h.name
attempt-host h job retries =
    let (k, same, _, _, _) = attempt_is_last h job retries in
    ap (λ r. r.host) same ∙ ended-host h job k (job.ending k)

-- The hosts that are accounted for: all of them, and none where the size of a batch is negative.
unfoldable pub accounted : Option ℤ → List Host → List String
accounted (some (negsuc n)) hosts = []
accounted _ hosts = names_of hosts

names-append : (xs ys : List Host) → names_of (xs ++ ys) ≡ names_of xs ++ names_of ys
names-append [] ys = refl
names-append (x ∷ xs) ys = ap (λ ns. x.name ∷ ns) (names-append xs ys)

abbrev pub reported : List HostResult → List String
reported rs = map (λ r. r.host) rs

reported-append : (xs ys : List HostResult) → reported (xs ++ ys) ≡ reported xs ++ reported ys
reported-append [] ys = refl
reported-append (x ∷ xs) ys = ap (λ ns. x.host ∷ ns) (reported-append xs ys)

module _ (run : Host → HostResult) (fail_fast : Bool)
    (names : (h : Host) → (run h).host ≡ h.name) where
  reported-run : (hosts : List Host) → reported (map run hosts) ≡ names_of hosts
  reported-run [] = refl
  reported-run (h ∷ hosts) = rw (names h, reported-run hosts) refl

  -- Hosts are skipped only once a result failed, with `fail_fast`.
  unfoldable pub IsOrderly : Fanned → Type 0
  IsOrderly f = (f.skipped ≡ []) ⊎ ((fail_fast && any (λ r. not r.ok) f.results) ≡ true)

  orderly_skips :
      (f : Fanned)
      → IsOrderly f
      → (fail_fast && any (λ r. not r.ok) f.results) ≡ false
      → f.skipped ≡ []
  unfolding IsOrderly
  orderly_skips f (inl s) e = s
  orderly_skips f (inr x) e = ground (arith, x, e)

  batch_step-IsOrderly :
      (chunk : List Host) (f : Fanned) → IsOrderly f → IsOrderly (batch_step run fail_fast chunk f)
  unfolding batch_step IsOrderly
  batch_step-IsOrderly chunk f o = elim (Bool-cases (fail_fast && any (λ r. not r.ok) f.results)) [
    | inl e ↦ rw e (inr e)
    | inr e ↦ rw e (inl (orderly_skips f o e))
  ]

  batch_step-covers :
      (chunk : List Host) (f : Fanned)
      → IsOrderly f
      → reported (batch_step run fail_fast chunk f).results
          ++ (batch_step run fail_fast chunk f).skipped
        ≡ (reported f.results ++ f.skipped) ++ names_of chunk
  unfolding batch_step IsOrderly
  batch_step-covers chunk f o = elim (Bool-cases (fail_fast && any (λ r. not r.ok) f.results)) [
    | inl e ↦ rw e (sym (append_assoc (reported f.results) f.skipped (names_of chunk)))
    | inr e ↦
        rw
          (
            e,
            orderly_skips f o e,
            append-nil,
            append-nil,
            reported-append f.results (map run chunk),
            reported-run chunk,
          )
          refl
  ]

  fan_from-covers :
      (size rounds : ℕ) (hosts : List Host) (f : Fanned)
      → 1 ≤ size
      → length hosts ≤ rounds
      → IsOrderly f
      → let after = fan_from run fail_fast size rounds hosts f in
        (reported after.results ++ after.skipped
          ≡ (reported f.results ++ f.skipped) ++ names_of hosts)
        × IsOrderly after
  unfolding fan_from
  fan_from-covers size zero [] f a b o = (sym (append-nil _), o)
  fan_from-covers size zero (h ∷ hosts) f a b o = absurd (omega (arith, b))
  fan_from-covers size (suc rounds) [] f a b o = (sym (append-nil _), o)
  fan_from-covers size (suc rounds) (h ∷ hosts) f a b o =
      let chunk = take size (h ∷ hosts) in
      let rest = drop size (h ∷ hosts) in
      let (covers, orderly) =
        fan_from-covers size rounds rest (batch_step run fail_fast chunk f) a
          (omega (arith, length-drop size (h ∷ hosts), b)) (batch_step-IsOrderly chunk f o) in
      (
        covers
            ∙ ap (λ ns. ns ++ names_of rest) (batch_step-covers chunk f o)
            ∙ append_assoc (reported f.results ++ f.skipped) (names_of chunk) (names_of rest)
            ∙ ap (λ ns. (reported f.results ++ f.skipped) ++ ns)
                (sym (names-append chunk rest) ∙ ap names_of (take-append-drop size (h ∷ hosts))),
        orderly,
      )

  fan_from-all :
      (size : ℕ) (hosts : List Host)
      → 1 ≤ size
      → let after =
          fan_from run fail_fast size
            (length hosts)
            hosts
            (record { results = []; skipped = [] }) in
        (reported after.results ++ after.skipped ≡ names_of hosts)
        × ((after.skipped ≡ []) ⊎ ((fail_fast && any (λ r. not r.ok) after.results) ≡ true))
  unfolding IsOrderly
  fan_from-all size hosts positive =
      fan_from-covers size (length hosts) hosts (record { results = []; skipped = [] }) positive
        (omega arith) (inl refl)

  fan_rounds-covers :
      (batch : Option ℤ) (hosts : List Host)
      → let after =
          fan_rounds run fail_fast
            (size_of_batch batch hosts)
            hosts
            (record { results = []; skipped = [] }) in
        (reported after.results ++ after.skipped ≡ accounted batch hosts)
        × ((after.skipped ≡ []) ⊎ ((fail_fast && any (λ r. not r.ok) after.results) ≡ true))
  unfolding size_of_batch accounted
  fan_rounds-covers none [] = fan_from-all 1 [] (omega arith)
  fan_rounds-covers none (h ∷ hosts) = fan_from-all (length (h ∷ hosts)) (h ∷ hosts) (omega arith)
  fan_rounds-covers (some (pos zero)) [] = fan_from-all 1 [] (omega arith)
  fan_rounds-covers (some (pos zero)) (h ∷ hosts) =
      fan_from-all (length (h ∷ hosts)) (h ∷ hosts) (omega arith)
  fan_rounds-covers (some (pos (suc n))) hosts = fan_from-all (suc n) hosts (omega arith)
  fan_rounds-covers (some (negsuc n)) hosts = (refl, inl refl)

-- Every host is accounted for once, in order, however the hosts are cut into batches: those that were
-- run, then those that were skipped; but with a negative batch size no host is run or skipped. A host
-- is skipped only with `fail_fast`, and after a failure.
pub fan_out-covers :
    (hosts : List Host) (job : Host → Job) (batch : Option ℤ) (fail_fast : Bool) (retries : ℕ)
    → let after = fan_out hosts job batch fail_fast retries in
      (reported after.results ++ after.skipped ≡ accounted batch hosts)
      × ((after.skipped ≡ []) ⊎ ((fail_fast && any (λ r. not r.ok) after.results) ≡ true))
unfolding fan_out
fan_out-covers hosts job batch fail_fast retries =
    fan_rounds-covers (λ h. attempt h (job h) retries) fail_fast
      (λ h. attempt-host h (job h) retries) batch hosts

kept_or_not :
    (results : List HostResult)
    → length (keep (λ r. r.ok) results) + length (map (λ r. r.host) (keep (λ r. not r.ok) results))
      ≡ length results
kept_or_not [] = refl
kept_or_not (r ∷ results) = ground (arith, kept_or_not results)

-- The counts of a summary add up: of its hosts some are ok, and the others are listed, failed or
-- skipped.
pub summary_adds_up :
    (results : List HostResult) (skipped : List String)
    → let s = summary results skipped in s.ok + length s.failed + length s.skipped ≡ s.hosts
unfolding summary
summary_adds_up results skipped = omega (arith, kept_or_not results)
