-- ===== src/Policy/Check.antt =====
-- `check` and `enforce` of src/aisb/policy.py.
pub mod Laws
use Prim.Native.String.{String}
use Prim.Native.String
use aisb.Prelude.{
  ℕ, suc, ◌+◌, Bool, true, false, not, ◌&&◌, ◌||◌, Option, none, some, List, [], ◌∷◌, ◌++◌, ◌==◌,
  map, contains, keep, decimal, if◌then◌else◌, ◌≡◌, refl, arith,
}
use aisb.Prelude.Results.{Result, ok, err, ◌>>=◌}
use aisb.Fleet.Inventory.{Inventory}
use aisb.Policy.{Ctx, Values, absent, many}
use aisb.Policy.Matching.{Match, matches}
use aisb.Policy.Window.{Window, Moment, Error, in_window}
use aisb.Policy.Conditions.{Condition, Kwargs, Hit, conditions}

pub record Require : Type 0 where
  pub ticket : Bool
  pub ticket_pattern : Option String

pub record Rule : Type 0 where
  pub name : Option String
  pub mode : Option String
  pub match : Match
  pub deny : Bool
  pub message : Option String
  pub require : Require
  pub window : Option Window
  pub deny_if : Condition

pub data Reason : Type 0 where
  not_allowed : String → Reason
  ticket_required outside_window : Reason
  ticket_mismatch : (ticket pattern : String) → Reason
  condition : Hit → Reason

pub record Violation : Type 0 where
  pub rule : String
  pub reason : Reason
  pub mode : String

-- What the rules are read with: the inventory, the clock's zones, and `re.fullmatch`, of which
-- nothing is assumed.
pub record World : Type 0 where
  pub inventory : Option Inventory
  pub astimezone : String → Moment → Moment
  pub fullmatch : (pattern text : String) → Bool

-- GOVERNANCE_READS
unfoldable pub is_governance_read : String → Bool
is_governance_read op =
    op == "policy.rules"
    || op == "policy.check"
    || op == "audit.log"
    || op == "audit.verify"
    || op == "audit.anchor"
    || op == "config.show"

-- str(x or y), where an empty text counts as none
abbrev pub or_text : Option String → String → String
or_text none d = d
or_text (some t) d = if t == "" then d else t

abbrev pub has_op : Match → Bool
has_op m = elim m.op [ absent ↦ false | _ ↦ true ]

abbrev pub reason_if : Bool → Reason → List Reason
reason_if true r = r ∷ []
reason_if false r = []

-- an empty ticket counts as none
abbrev pub ticket_of : Option String → Option String
ticket_of none = none
ticket_of (some t) = if t == "" then none else some t

abbrev pub pattern_reasons : World → Option String → Option String → List Reason
pattern_reasons w none ticket = []
pattern_reasons w (some p) none = []
pattern_reasons w (some p) (some t) =
    if p == "" then [] else reason_if (not (w.fullmatch p t)) (ticket_mismatch t p)

abbrev pub is_missing : Option String → Bool
is_missing none = true
is_missing (some t) = false

abbrev pub window_reasons : World → Option Window → Moment → Result Error (List Reason)
window_reasons w none now = ok []
window_reasons w (some win) now = do
  open_now ← in_window w.astimezone win now
  ok (reason_if (not open_now) outside_window)

-- the reasons that one rule finds, once it applies
unfoldable pub reasons_of :
    World → Rule → String → Kwargs → Ctx → Moment → Result Error (List Reason)
reasons_of w r op kwargs ctx now = do
  outside ← window_reasons w r.window now
  ok (
      reason_if r.deny (not_allowed (or_text r.message op))
      ++ (reason_if (r.require.ticket && is_missing (ticket_of ctx.ticket)) ticket_required
          ++ (pattern_reasons w r.require.ticket_pattern (ticket_of ctx.ticket)
              ++ (outside ++ map condition (conditions r.deny_if kwargs op)))))

unfoldable pub applies : World → Rule → (op tier : String) → Ctx → Bool
unfolding is_governance_read
applies w r op tier ctx =
    not (is_governance_read op && not (has_op r.match)) && matches w.inventory r.match op tier ctx

abbrev pub rule_name : ℕ → Rule → String
rule_name i r = or_text r.name (String.◌++◌ "rule-" (decimal (i + 1)))

abbrev pub violation : ℕ → Rule → Reason → Violation
violation i r reason = record {
  rule = rule_name i r;
  reason = reason;
  mode = or_text r.mode "deny";
}

-- what one round of the loop adds
unfoldable pub violations_of :
    World → ℕ → Rule → (op tier : String) → Kwargs → Ctx → Moment → Result Error (List Violation)
unfolding applies reasons_of
violations_of w i r op tier kwargs ctx now =
    let found = (do reasons ← reasons_of w r op kwargs ctx now; ok (map (violation i r) reasons)) in
    if applies w r op tier ctx then found else ok []

-- the loop; `i` rules were read before
unfoldable pub check_from :
    World
    → ℕ
    → List Rule
    → (op tier : String) → Kwargs
    → Ctx
    → Moment
    → Result Error (List Violation)
unfolding violations_of
check_from w i [] op tier kwargs ctx now = ok []
check_from w i (r ∷ rules) op tier kwargs ctx now = do
  found ← violations_of w i r op tier kwargs ctx now
  rest ← check_from w (i + 1) rules op tier kwargs ctx now
  ok (found ++ rest)

unfoldable pub check :
    World → List Rule → (op tier : String) → Kwargs → Ctx → Moment → Result Error (List Violation)
unfolding check_from
check w rules op tier kwargs ctx now = check_from w 0 rules op tier kwargs ctx now

unfoldable pub is_blocking : Violation → Bool
is_blocking v = not (v.mode == "warn")

-- What `enforce` raises: PolicyDenied with the blocking violations, or what a rule's text raises.
pub data Refusal : Type 0 where
  policy_denied : List Violation → Refusal
  bad_rule : Error → Refusal

abbrev pub judge : List Violation → List Violation → Result Refusal (List Violation)
judge found [] = ok found
judge found (v ∷ denied) = err (policy_denied (v ∷ denied))

unfoldable pub enforce :
    World → List Rule → (op tier : String) → Kwargs → Ctx → Moment → Result Refusal (List Violation)
unfolding is_blocking
enforce w rules op tier kwargs ctx now = elim (check w rules op tier kwargs ctx now) [
  | err e ↦ err (bad_rule e)
  | ok found ↦ judge found (keep is_blocking found)
]
