-- ===== src/Runbook/Engine/Gates.antt =====
-- What a run never does: a step over again, or anything behind an unanswered approval.
use mathlib.Core.Path.{subst}
use aisb.Prelude.{
  ℕ, zero, suc, ◌+◌, ◌≤◌, length, String, ◌≡◌, refl, sym, ap, ◌∙◌, inl, inr, Bool, false, none,
  some, List, [], ◌∷◌, ◌++◌, ◌==◌, Dict, get, arith, eq_iff, Bool-cases, All,
}
use aisb.Prelude.Results.{Result, ok, err}
use aisb.Runbook.{Step, approve, Runbook, Entry, done, Run, always, should_run, is_done}
use aisb.Runbook.Text.{Error, render}
use aisb.Runbook.Engine.{
  World, try_from, Next, go_on, stop, Outcome, ask, pause, act, step_entry, follow, execute_from,
  execute,
}
use aisb.Runbook.Engine.Frame.{run_of, IsFrame, step_entry-IsFrame}

-- a step that waits for an approval, reached with the decision missing
unfoldable pub IsGate : Step → Run → Type 0
IsGate s r =
    ((prompt : String) × (s.action ≡ approve prompt))
    × (s.when ≡ always)
    × (get r.approvals s.name ≡ none)
    × ((e : Entry) × (get r.steps s.name ≡ some e) × (is_done (some e.status) ≡ false))

-- the commands that were executed, the latest first
unfoldable pub executed : Outcome × Run → List (List String)
executed x = x.1.log

tries_from :
    (w : World) (argv : List String) (left n : ℕ) (log : List (List String))
    → let t = try_from w argv left n log in
      (t.attempts ≤ n + left)
      × (length t.log + n ≡ suc (length log + t.attempts))
      × (t.reply.ok ≡ false → t.attempts ≡ n + left)
unfolding try_from
tries_from w argv zero n log = (omega arith, omega arith, λ e. omega arith)
tries_from w argv (suc left) n log =
    let (bound, count, spent) = tries_from w argv left (n + 1) (argv ∷ log) in
    elim (Bool-cases (w.exec log argv).ok) [
      | inl e ↦ rw e (omega arith, omega arith, λ f. cc)
      | inr e ↦ rw e (omega arith, omega arith, λ f. omega (arith, spent f))
    ]

-- A command is tried once, and once more for each of the step's retries while it fails: as often as the
-- entry of the step says, and a command that is not ok in the end was tried that often.
pub tries_bounded :
    (w : World) (argv : List String) (retries : ℕ) (log : List (List String))
    → let t = try_from w argv retries 1 log in
      (t.attempts ≤ 1 + retries)
      × (length t.log ≡ length log + t.attempts)
      × (t.reply.ok ≡ false → t.attempts ≡ 1 + retries)
tries_bounded w argv retries log =
    let (bound, count, spent) = tries_from w argv retries 1 log in (bound, omega arith, spent)

module _ (w : World) (vars : Dict String) where
  step_entry-done :
      (s : Step) (f : Bool) (r : Run) (e : Entry)
      → e.status ≡ done
      → step_entry w vars s f r (some e) ≡ go_on f r
  unfolding step_entry
  step_entry-done s f r e d = rw d refl

  keeps_done :
      (s : Step) (f : Bool) (r : Run) (j : String) (e : Entry)
      → get r.steps j ≡ some e
      → e.status ≡ done
      → get (run_of (step_entry w vars s f r (get r.steps s.name))).steps j ≡ some e
  unfolding IsFrame
  keeps_done s f r j e h d = elim (Bool-cases (s.name == j)) [
    | inl x ↦
        ap (λ q. get (run_of q).steps j)
          (ap (λ o. step_entry w vars s f r o) (ap (λ n. get r.steps n) ((eq_iff s.name j).0 x) ∙ h)
            ∙ step_entry-done s f r e d)
        ∙ h
    | inr x ↦ (step_entry-IsFrame w vars s f r (get r.steps s.name)).0 j x ∙ h
  ]

  follow-done :
      (steps : List Step) (x : Next) (j : String) (e : Entry)
      → get (run_of x).steps j ≡ some e
      → ((f : Bool) (r : Run)
          → get r.steps j ≡ some e
          → get (execute_from w vars steps f r).1.steps j ≡ some e)
      → get (follow (λ f r. execute_from w vars steps f r) x).1.steps j ≡ some e
  follow-done steps (go_on f r) j e h next = next f r h
  follow-done steps (stop o r) j e h next = h

  execute_from-done :
      (steps : List Step) (f : Bool) (r : Run) (j : String) (e : Entry)
      → get r.steps j ≡ some e
      → e.status ≡ done
      → get (execute_from w vars steps f r).1.steps j ≡ some e
  unfolding execute_from
  execute_from-done [] f r j e h d = h
  execute_from-done (s ∷ steps) f r j e h d =
      follow-done steps (step_entry w vars s f r (get r.steps s.name)) j e
        (keeps_done s f r j e h d) (λ g q k. execute_from-done steps g q j e k d)

  IsGate-frame :
      (gate : Step) (n : String) (r q : Run)
      → (n == gate.name) ≡ false
      → IsFrame n r q
      → IsGate gate r
      → IsGate gate q
  unfolding IsGate IsFrame
  IsGate-frame gate n r q other (entries, approvals) (asks, runs, open_now, (e, found, fresh)) = (
    asks,
    runs,
    ap (λ a. get a gate.name) approvals ∙ open_now,
    (e, entries gate.name other ∙ found, fresh),
  )

  pause-stops :
      (after : List Step) (s : Step) (e : Entry) (r : Run) (text : Result Error String)
      → executed (follow (λ f q. execute_from w vars after f q) (pause s e r text)) ≡ r.log
  unfolding executed
  pause-stops after s e r (err x) = refl
  pause-stops after s e r (ok t) = refl

  gate-asks :
      (gate : Step) (f : Bool) (r : Run) (e : Entry) (prompt : String)
      → gate.action ≡ approve prompt
      → gate.when ≡ always
      → get r.approvals gate.name ≡ none
      → is_done (some e.status) ≡ false
      → step_entry w vars gate f r (some e) ≡ pause gate e r (render w.words prompt vars)
  unfolding step_entry act ask should_run
  gate-asks gate f r e prompt asks runs open_now fresh = rw (fresh, runs, asks, open_now) refl

  gate_stops :
      (gate : Step) (after : List Step) (f : Bool) (r : Run)
      → IsGate gate r
      → executed (execute_from w vars (gate ∷ after) f r) ≡ r.log
  unfolding execute_from IsGate
  gate_stops gate after f r ((prompt, asks), runs, open_now, (e, found, fresh)) =
      ap (λ x. executed (follow (λ g q. execute_from w vars after g q) x))
        (ap (λ o. step_entry w vars gate f r o) found
          ∙ gate-asks gate f r e prompt asks runs open_now fresh)
      ∙ pause-stops after gate e r (render w.words prompt vars)

  follow-gate :
      (before after : List Step) (gate : Step) (x : Next)
      → ((f : Bool) (q : Run)
          → q ≡ run_of x
          → executed (execute_from w vars (before ++ gate ∷ after) f q)
            ≡ executed (execute_from w vars before f q))
      → executed (follow (λ f q. execute_from w vars (before ++ gate ∷ after) f q) x)
        ≡ executed (follow (λ f q. execute_from w vars before f q) x)
  follow-gate before after gate (go_on f q) next = next f q refl
  follow-gate before after gate (stop o q) next = refl

  -- Nothing behind an unanswered approval is executed: where a step asks for one in any case, and
  -- there is no decision, the commands executed are those that the steps before it execute; none of
  -- them has its name, and it is not done.
  pub gate_holds :
      (before after : List Step) (gate : Step) (f : Bool) (r : Run)
      → All (λ s. (s.name == gate.name) ≡ false) before
      → IsGate gate r
      → executed (execute_from w vars (before ++ gate ∷ after) f r)
        ≡ executed (execute_from w vars before f r)
  unfolding execute_from executed
  gate_holds [] after gate f r others g = gate_stops gate after f r g
  gate_holds (s ∷ before) after gate f r (other, others) g =
      follow-gate before after gate (step_entry w vars s f r (get r.steps s.name)) (λ h q same.
        gate_holds before after gate h q others (
          IsGate-frame gate s.name r q other
            (subst (IsFrame s.name r) (sym same)
              (step_entry-IsFrame w vars s f r (get r.steps s.name)))
            g))

-- A step that is done stays as it is: `_execute` on a run, a resumed one too, never does it again.
pub execute-done :
    (w : World) (rb : Runbook) (r : Run) (j : String) (e : Entry)
    → get r.steps j ≡ some e
    → e.status ≡ done
    → get (execute w rb r).1.steps j ≡ some e
unfolding execute
execute-done w rb r j e h d = execute_from-done w _ rb.steps false r j e h d
