-- ===== src/Runbook/Engine/Frame.antt =====
-- What one step of a run leaves as it was.
use aisb.Prelude.{
  String, ◌≡◌, refl, inl, inr, Bool, false, Option, none, some, List, ◌==◌, Dict, get, put, get-put,
  Bool-cases,
}
use aisb.Prelude.Results.{Result, ok, err}
use aisb.Runbook.{Step, Action, run, approve, sleep, Entry, Decision, Run, should_run, is_done}
use aisb.Runbook.Text.{Error, render, argv_of}
use aisb.Yaml.Text.{ℤ, pos, negsuc}
use aisb.Runbook.Engine.{
  World, Next, go_on, stop, put_entry, pause, ask, attempted, command, act, step_entry,
}

-- the run that a round ends with
abbrev pub run_of : Next → Run
run_of (go_on f r) = r
run_of (stop o r) = r

-- every entry but that of n, and the approvals, are as they were
unfoldable pub IsFrame : String → Run → Run → Type 0
IsFrame n r q =
    ((j : String) → (n == j) ≡ false → get q.steps j ≡ get r.steps j) × (q.approvals ≡ r.approvals)

IsFrame-none : (n : String) (r : Run) → IsFrame n r r
unfolding IsFrame
IsFrame-none n r = (λ j h. refl, refl)

put-other :
    (d : Dict Entry) (n j : String) (e : Entry) → (n == j) ≡ false → get (put d n e) j ≡ get d j
put-other d n j e h = rw (get-put d n j e, h) refl

put_entry-IsFrame : (r : Run) (n : String) (e : Entry) → IsFrame n r (put_entry r n e)
unfolding IsFrame
put_entry-IsFrame r n e = (λ j x. put-other r.steps n j e x, refl)

pause-IsFrame :
    (s : Step) (e : Entry) (r : Run) (text : Result Error String)
    → IsFrame s.name r (run_of (pause s e r text))
unfolding IsFrame
pause-IsFrame s e r (err x) = (λ j y. refl, refl)
pause-IsFrame s e r (ok t) = (λ j x. put-other r.steps s.name j _ x, refl)

module _ (w : World) (vars : Dict String) where
  ask-IsFrame :
      (s : Step) (prompt : String) (e : Entry) (f : Bool) (r : Run) (d : Option Decision)
      → IsFrame s.name r (run_of (ask w vars s prompt e f r d))
  unfolding ask IsFrame
  ask-IsFrame s prompt e f r none = pause-IsFrame s e r (render w.words prompt vars)
  ask-IsFrame s prompt e f r (some d) = elim (Bool-cases d.is_deny) [
    | inl h ↦ rw h (λ j x. put-other r.steps s.name j _ x, refl)
    | inr h ↦ rw h (λ j x. put-other r.steps s.name j _ x, refl)
  ]

  attempted-IsFrame :
      (s : Step) (e : Entry) (f : Bool) (r : Run) (argv : List String) (retries : ℤ)
      → IsFrame s.name r (run_of (attempted w s e f r argv retries))
  unfolding attempted IsFrame
  attempted-IsFrame s e f r argv (pos n) = (λ j x. put-other r.steps s.name j _ x, refl)
  attempted-IsFrame s e f r argv (negsuc n) = (λ j x. put-other r.steps s.name j _ x, refl)

  command-IsFrame :
      (s : Step) (e : Entry) (f : Bool) (r : Run) (argv : Result Error (List String))
      → IsFrame s.name r (run_of (command w s e f r argv))
  unfolding command IsFrame
  command-IsFrame s e f r (err x) = (λ j h. refl, refl)
  command-IsFrame s e f r (ok argv) = attempted-IsFrame s e f r argv s.retry_times

  act-IsFrame :
      (s : Step) (e : Entry) (f : Bool) (r : Run) (a : Action)
      → IsFrame s.name r (run_of (act w vars s e f r a))
  unfolding act
  act-IsFrame s e f r (approve prompt) = ask-IsFrame s prompt e f r (get r.approvals s.name)
  act-IsFrame s e f r (sleep n) = put_entry-IsFrame r s.name _
  act-IsFrame s e f r (run line) = command-IsFrame s e f r (argv_of w.words line vars)

  pub step_entry-IsFrame :
      (s : Step) (f : Bool) (r : Run) (found : Option Entry)
      → IsFrame s.name r (run_of (step_entry w vars s f r found))
  unfolding step_entry
  step_entry-IsFrame s f r none = IsFrame-none s.name r
  step_entry-IsFrame s f r (some e) = elim (Bool-cases (is_done (some e.status))) [
    | inl h ↦ rw h (IsFrame-none s.name r)
    | inr h ↦ elim (Bool-cases (should_run s.when r.steps f)) [
      | inl x ↦ rw (h, x) (act-IsFrame s e f r s.action)
      | inr x ↦ rw (h, x) (put_entry-IsFrame r s.name _)
    ]
  ]
