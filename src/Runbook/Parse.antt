-- ===== src/Runbook/Parse.antt =====
-- `parse` of src/aisb/runbooks.py, over the table of a runbook. The two
-- patterns are parameters; the numbers of `retry` and `sleep` are given as numbers.
pub mod Order
mod Tests
use Prim.Native.String
use aisb.Prelude.{
  ℕ, ◌+◌, String, Bool, not, ◌||◌, Option, none, some, List, [], ◌∷◌, ◌++◌, ◌==◌, contains, decimal,
  is_some, sorted, if◌then◌else◌,
}
use aisb.Prelude.Results.{Result, ok, err, ◌>>=◌}
use aisb.Yaml.Text.{ℤ, pos}
use aisb.Runbook.{
  Step, Action, run, approve, sleep, When, success, always, on_failure, step_ok, step_failed,
}

-- A step as it is written; `other_keys` are the keys that no option has.
pub record RawStep : Type 0 where
  pub name : Option String
  pub run : Option String
  pub approve : Option String
  pub sleep : Option ℕ
  pub when : Option String
  pub retry_times : Option ℤ
  pub continue_on_error : Bool
  pub other_keys : List String

pub data Error : Type 0 where
  no_steps : Error
  invalid_name duplicate_name bad_kinds bad_when : String → Error
  unknown_keys : List String → Error
  not_an_earlier_step : String → Error

-- `_NAME`, and what stands before `.ok` or `.failed` in the pattern of `when`
pub record Patterns : Type 0 where
  pub is_name : String → Bool
  pub is_reference : String → Bool

-- s.removesuffix(end), if s ends so
unfoldable pub before_suffix : String → String → Option String
before_suffix end String.[] = if end == "" then some "" else none
before_suffix end (String.◌∷◌ c s) =
    let rest = before_suffix end s in
    if String.◌∷◌ c s == end
    then some ""
    else elim rest [ some t ↦ some (String.◌∷◌ c t) | none ↦ none ]

abbrev pub text_or : Option String → String → String
text_or none d = d
text_or (some t) d = if t == "" then d else t

-- exactly one of `run`, `approve` and `sleep`
abbrev pub action_of : String → RawStep → Result Error Action
action_of n raw = elim raw.run [
  | some line ↦
      if is_some raw.approve || is_some raw.sleep then err (bad_kinds n) else ok (run line)
  | none ↦ elim raw.approve [
    | some t ↦ if is_some raw.sleep then err (bad_kinds n) else ok (approve t)
    | none ↦ elim raw.sleep [ some k ↦ ok (sleep k) | none ↦ err (bad_kinds n) ]
  ]
]

-- a reference to a step, which has to be an earlier one
abbrev pub earlier : List String → String → (String → When) → Result Error When
earlier seen ref make = if contains seen ref then ok (make ref) else err (not_an_earlier_step ref)

abbrev pub named_when :
    Patterns → String → List String → Option String → Option String → Result Error When
named_when names n seen (some ref) failed_ref =
    if names.is_reference ref then earlier seen ref step_ok else err (bad_when n)
named_when names n seen none (some ref) =
    if names.is_reference ref then earlier seen ref step_failed else err (bad_when n)
named_when names n seen none none = err (bad_when n)

unfoldable pub when_of : Patterns → String → List String → String → Result Error When
unfolding before_suffix
when_of names n seen w =
    if w == "success"
    then ok success
    else if w == "always"
    then ok always
    else if w == "on_failure"
    then ok on_failure
    else named_when names n seen (before_suffix ".ok" w) (before_suffix ".failed" w)

abbrev pub known_keys : List String → Result Error (Unit {0})
known_keys [] = ok tt
known_keys (k ∷ ks) = err (unknown_keys (sorted (k ∷ ks)))

abbrev pub number_or : Option ℤ → ℤ → ℤ
number_or none d = d
number_or (some n) d = n

abbrev pub fresh_name : Patterns → List String → String → Result Error (Unit {0})
fresh_name names seen n =
    if not (names.is_name n)
    then err (invalid_name n)
    else if contains seen n
    then err (duplicate_name n)
    else ok tt

abbrev pub name_of : ℕ → RawStep → String
name_of i raw = text_or raw.name (String.◌++◌ "step-" (decimal (i + 1)))

-- one round of the loop; `seen` are the names before, and i rounds were made
unfoldable pub parse_step : Patterns → ℕ → List String → RawStep → Result Error Step
unfolding when_of
parse_step names i seen raw = fresh_name names seen (name_of i raw) >>= λ _. (do
  action ← action_of (name_of i raw) raw
  _ ← known_keys raw.other_keys
  when ← when_of names (name_of i raw) seen (text_or raw.when "success")
  ok (record {
    name = name_of i raw;
    action = action;
    when = when;
    retry_times = number_or raw.retry_times (pos 0);
    continue_on_error = raw.continue_on_error;
  }))

unfoldable pub parse_from : Patterns → ℕ → List String → List RawStep → Result Error (List Step)
unfolding parse_step
parse_from names i seen [] = ok []
parse_from names i seen (raw ∷ raws) = do
  s ← parse_step names i seen raw
  rest ← parse_from names (i + 1) (s.name ∷ seen) raws
  ok (s ∷ rest)

-- the steps of `parse`
unfoldable pub parse : Patterns → List RawStep → Result Error (List Step)
unfolding parse_from
parse names [] = err no_steps
parse names (raw ∷ raws) = parse_from names 0 [] (raw ∷ raws)
