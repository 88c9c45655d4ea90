-- ===== src/Runbook/Engine.antt =====
-- `_execute`, `_exec`, `approve` and `resume` of src/aisb/api/runbook.py.
pub mod Frame
pub mod Gates
use Prim.Native.String
use aisb.Prelude.{
  ℕ, zero, suc, ◌+◌, String, Bool, true, false, not, ◌&&◌, ◌||◌, Option, none, some, List, [], ◌∷◌,
  ◌++◌, ◌==◌, Dict, get, put, map, if◌then◌else◌,
}
use aisb.Prelude.Results.{Result, ok, err}
use aisb.Yaml.Text.{ℤ, pos, negsuc}
use aisb.Runbook.{
  Step, Action, run, approve, sleep, Runbook, Entry, pending, waiting, done, failed, skipped,
  Decision, Run, running, paused, ended, failed_run, should_run, is_done,
}
use aisb.Runbook.Text.{Error, missing_step, Words, argv_of, render}

-- What `_exec` returns, less the result: whether the command is ok, and its error.
pub record Reply : Type 0 where
  pub ok : Bool
  pub error : Option String

-- How commands end, knowing the commands before, the latest first.
pub record World : Type 0 where
  pub words : Words
  pub exec : List (List String) → List String → Reply

-- How `_execute` ends.
pub data Outcome : Type 0 where
  over : Outcome
  waiting_for : String → Outcome
  raised : Error → Outcome

-- The loop goes on, with the flag `failed`, or it returns.
pub data Next : Type 0 where
  go_on : Bool → Run → Next
  stop : Outcome → Run → Next

abbrev pub put_entry : Run → String → Entry → Run
put_entry r n e = record r { steps = put r.steps n e }

abbrev pub denial : Decision → String
denial d = String.◌++◌ "denied by " (
    String.◌++◌ d.by
      (elim d.note [ none ↦ "" | some t ↦ if t == "" then "" else String.◌++◌ ": " t ]))

-- an approval that is not answered yet
abbrev pub pause : Step → Entry → Run → Result Error String → Next
pause s e r (err x) = stop (raised x) r
pause s e r (ok text) = stop (waiting_for s.name) (record r {
  status = paused;
  steps = put r.steps s.name (record e { status = waiting; prompt = some text });
})

-- an `approve` step
unfoldable pub ask :
    World → Dict String → Step → String → Entry → Bool → Run → Option Decision → Next
unfolding render
ask w vars s prompt e any_failed r none = pause s e r (render w.words prompt vars)
ask w vars s prompt e any_failed r (some d) =
    if d.is_deny
    then go_on true (put_entry r s.name (record e { status = failed; error = some (denial d) }))
    else go_on any_failed (put_entry r s.name (record e { status = done; approved_by = some d.by }))

-- What the attempts at a command come to.
pub record Tried : Type 0 where
  pub reply : Reply
  pub attempts : ℕ
  pub log : List (List String)

-- the loop of attempts, from attempt n on, of which `left` may follow
unfoldable pub try_from : World → List String → (left n : ℕ) → List (List String) → Tried
try_from w argv zero n log = record { reply = w.exec log argv; attempts = n; log = argv ∷ log }
try_from w argv (suc left) n log =
    let rest = try_from w argv left (n + 1) (argv ∷ log) in
    if (w.exec log argv).ok
    then record { reply = w.exec log argv; attempts = n; log = argv ∷ log }
    else rest

abbrev pub settle : Step → Entry → Bool → Run → Reply → Option ℕ → (log : List (List String)) → Next
settle s e any_failed r reply attempts log =
    go_on (any_failed || (not reply.ok && not s.continue_on_error)) (record r {
      steps = put r.steps s.name (record e {
        status = if reply.ok then done else failed;
        attempts = attempts;
        error = reply.error;
        tolerated = e.tolerated || (not reply.ok && s.continue_on_error);
      });
      log = log;
    })

-- False, None, None: what stands before the loop of attempts
abbrev no_reply : Reply
no_reply = record { ok = false; error = none }

-- the attempts and what follows them; with a negative number of retries there is no attempt
unfoldable pub attempted : World → Step → Entry → Bool → Run → List String → ℤ → Next
unfolding try_from
attempted w s e any_failed r argv (pos retries) =
    let t = try_from w argv retries 1 r.log in
    settle s e any_failed r t.reply (some t.attempts) t.log
attempted w s e any_failed r argv (negsuc n) = settle s e any_failed r no_reply e.attempts r.log

-- a `run` step
unfoldable pub command : World → Step → Entry → Bool → Run → Result Error (List String) → Next
unfolding attempted
command w s e any_failed r (err x) = stop (raised x) r
command w s e any_failed r (ok argv) = attempted w s e any_failed r argv s.retry_times

-- what a step does that is to run
unfoldable pub act : World → Dict String → Step → Entry → Bool → Run → Action → Next
unfolding ask command argv_of
act w vars s e any_failed r (approve prompt) =
    ask w vars s prompt e any_failed r (get r.approvals s.name)
act w vars s e any_failed r (sleep n) =
    go_on any_failed (put_entry r s.name (record e { status = done }))
act w vars s e any_failed r (run line) = command w s e any_failed r (argv_of w.words line vars)

-- one round of the loop, for a step whose entry is given
unfoldable pub step_entry : World → Dict String → Step → Bool → Run → Option Entry → Next
unfolding act should_run
step_entry w vars s any_failed r none = stop (raised (missing_step s.name)) r
step_entry w vars s any_failed r (some e) =
    if is_done (some e.status)
    then go_on any_failed r
    else if not (should_run s.when r.steps any_failed)
    then go_on any_failed (put_entry r s.name (record e { status = skipped }))
    else act w vars s e any_failed r s.action

abbrev pub follow : (Bool → Run → Outcome × Run) → Next → Outcome × Run
follow next (go_on any_failed r) = next any_failed r
follow next (stop o r) = (o, r)

unfoldable pub execute_from : World → Dict String → List Step → Bool → Run → Outcome × Run
unfolding step_entry
execute_from w vars [] any_failed r =
    (over, record r { status = if any_failed then failed_run else ended })
execute_from w vars (s ∷ steps) any_failed r =
    follow (λ f q. execute_from w vars steps f q)
      (step_entry w vars s any_failed r (get r.steps s.name))

-- {**a, **b}
unfoldable pub updated : Dict String → Dict String → Dict String
updated a [] = a
updated a ((k, v) ∷ b) = updated (put a k v) b

-- `_execute`
unfoldable pub execute : World → Runbook → Run → Outcome × Run
unfolding execute_from updated
execute w rb r = execute_from w (put (updated rb.vars r.vars) "run" r.id) rb.steps false r

-- Why `approve` and `resume` refuse.
pub data Refusal : Type 0 where
  not_waiting not_confirmed changed : Refusal

unfoldable pub waiting_step : Dict Entry → Option String
waiting_step [] = none
waiting_step ((n, e) ∷ steps) = elim e.status [ waiting ↦ some n | _ ↦ waiting_step steps ]

abbrev pub resumed :
    World → Runbook → String → Run → Option Entry → Result Refusal (Option Outcome) × Run
resumed w rb n r none = (ok none, r)
resumed w rb n r (some e) =
    let (outcome, after) =
      execute w rb
        (record r { steps = put r.steps n (record e { status = pending }); status = running }) in
    (ok (some outcome), after)

-- `approve` outside a plan: the decision is kept, and the run goes on if `go_on_now` (`resume`)
unfoldable pub decide :
    World → Runbook → Decision → (go_on_now : Bool) → Run → Result Refusal (Option Outcome) × Run
unfolding waiting_step execute
decide w rb d go_on_now r = elim (waiting_step r.steps) [
  | none ↦ (err not_waiting, r)
  | some n ↦
      let decided = record r { approvals = put r.approvals n d } in
      if not go_on_now
      then (ok none, decided)
      else if not r.confirmed
      then (err not_confirmed, decided)
      else resumed w rb n decided (get r.steps n)
]

abbrev pub reopened : Entry → Entry
reopened e = elim e.status [
  | failed ↦ record e { status = pending }
  | skipped ↦ record e { status = pending }
  | waiting ↦ record e { status = pending }
  | pending ↦ e
  | done ↦ e
]

abbrev pub reopen_all : Dict Entry → Dict Entry
reopen_all steps = map (λ p. (p.0, reopened p.1)) steps

-- `resume` outside a plan: "nothing to resume" is `none`
unfoldable pub resume :
    World → Runbook → (allow_changed : Bool) → Run → Result Refusal (Option (Outcome × Run))
unfolding execute
resume w rb allow_changed r = elim r.status [
  | ended ↦ ok none
  | _ ↦
      if not (rb.sha256 == r.sha256) && not allow_changed
      then err changed
      else ok (some (execute w rb (record r { steps = reopen_all r.steps; status = running })))
]
