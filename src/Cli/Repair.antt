-- ===== src/Cli/Repair.antt =====
-- `envorca repair` (cli/cmd/envorca/repair.go), over a client of the daemon whose state is `S`.
use envorca.Prelude.{
  ℕ, ◌+◌, ◌*◌, Bool, true, false, ◌||◌, not, Option, none, some, List, [], ◌∷◌, ◌++◌, length, ◌==◌,
  if◌then◌else◌,
}
use envorca.Text.{Text, bytes, text_eq, to_lower}
use envorca.Text.Trim.{trim_space}
use envorca.Text.Decimal.{itoa}
use envorca.Health.{second}
use envorca.Api.{RepairAction, RepairPlan, RepairOutcome}

-- The answer of a remote call.
pub data Response (A : Type 0) : Type 0 where
  received : A → Response A
  call_failed : Text → Response A

-- The calls of cli/internal/client that the command makes, with their timeouts; `dial` is the error of
-- Dial, if any.
pub record Client (S : Type 0) : Type 0 where
  pub probe : S → Bool × S
  pub dial : S → Option Text
  pub get_repair_plan : ℕ → S → Response RepairPlan × S
  pub execute_repair : Text → Bool → ℕ → S → Response RepairOutcome × S

-- What Fscanln makes of the input: a word, no input (end of file or a blank line), or another error.
pub data Input : Type 0 where
  word : Text → Input
  no_input : Input
  read_error : Text → Input

pub data Answer : Type 0 where
  decided : Bool → Answer
  unreadable : Text → Answer

unfoldable pub prompt_yes_no : Input → Answer
prompt_yes_no (word s) =
    let a = to_lower (trim_space s) in decided (text_eq a (bytes "y") || text_eq a (bytes "yes"))
prompt_yes_no no_input = decided false
prompt_yes_no (read_error e) = unreadable e

unfoldable pub outcome_label : Text → Text
outcome_label [] = []
outcome_label (c ∷ s) = bytes " (verified)"

abbrev pub flag_of : RepairAction → Text
flag_of a =
    (if a.requires_confirmation then bytes " requires confirmation" else [])
    ++ (if not a.safe then bytes " UNSAFE" else [])

abbrev pub description_line : Text → List Text
description_line [] = []
description_line (c ∷ s) = (bytes "        " ++ (c ∷ s)) ∷ []

unfoldable pub list_actions : List RepairAction → List Text
list_actions [] = []
list_actions (a ∷ rest) =
    (bytes "  " ++ (a.action_id ++ (bytes ": " ++ (a.summary ++ flag_of a))))
    ∷ (description_line a.description ++ list_actions rest)

-- What is printed before the question.
abbrev pub listing : RepairPlan → List Text
listing plan =
    (bytes "Envorca can fix " ++ (itoa (length plan.actions) ++ bytes " issue(s):\n"))
    ∷ list_actions plan.actions

abbrev pub question : Text
question = bytes "\nApply these repairs now? [y/N]: "

-- The line of one repair, and whether it failed.
unfoldable pub repair_line : Text → Response RepairOutcome → Text × Bool
unfolding outcome_label
repair_line id (call_failed e) = (bytes "  " ++ (id ++ (bytes ": failed — " ++ e)), true)
repair_line id (received o) =
    if o.success
    then (bytes "  " ++ (id ++ (bytes ": ok" ++ outcome_label o.verification)), false)
    else (bytes "  " ++ (id ++ (bytes ": failed — " ++ o.result)), true)

-- What the command prints, whether it ends in an error, and the client's state.
pub record Ended (S : Type 0) : Type 0 where
  pub lines : List Text
  pub error : Option Text
  pub state : S

abbrev pub count_failure : Bool → ℕ → ℕ
count_failure true n = n + 1
count_failure false n = n

abbrev pub closing_line : ℕ → Text
closing_line failures =
    if failures == 0
    then bytes "\nAll repairs applied. Run 'envorca doctor' to confirm."
    else bytes "\n"
      ++ (itoa failures ++ bytes " repair(s) failed. Run 'envorca doctor' for details.")

-- The first result for no actions, and else the second.
abbrev pub unless_empty : {A : Type 0} → List RepairAction → A → A → A
unless_empty [] nothing some_work = nothing
unless_empty (a ∷ rest) nothing some_work = some_work

abbrev pub plan_timeout : ℕ
plan_timeout = 8 * second

abbrev pub execute_timeout : ℕ
execute_timeout = 30 * second

module _ {S : Type 0} (client : Client S) where
  -- The loop over the plan: its lines, the failures, and the state.
  unfoldable pub apply_repairs : Bool → List RepairAction → ℕ → S → List Text × ℕ × S
  unfolding repair_line
  apply_repairs yes_flag [] failures s = ([], failures, s)
  apply_repairs yes_flag (a ∷ rest) failures s =
      let (reply, s₁) = client.execute_repair a.action_id yes_flag execute_timeout s in
      let (line, failed) = repair_line a.action_id reply in
      let (lines, n, s₂) = apply_repairs yes_flag rest (count_failure failed failures) s₁ in
      (line ∷ lines, n, s₂)

  unfoldable pub apply_plan : Bool → List Text → RepairPlan → S → Ended S
  unfolding apply_repairs
  apply_plan yes_flag listed plan s =
      let (lines, failures, s') = apply_repairs yes_flag plan.actions 0 s in
      record { lines = listed ++ (lines ++ closing_line failures ∷ []); error = none; state = s' }

  -- After the question was answered.
  abbrev pub after_answer : Answer → List Text → RepairPlan → S → Ended S
  after_answer (unreadable e) listed plan s = record { lines = listed; error = some e; state = s }
  after_answer (decided true) listed plan s = apply_plan false listed plan s
  after_answer (decided false) listed plan s = record {
    lines = listed ++ bytes "Aborted. No changes were made." ∷ [];
    error = none;
    state = s;
  }

  abbrev pub with_actions : Bool → Input → RepairPlan → S → Ended S
  with_actions yes_flag input plan s =
      if yes_flag
      then apply_plan true (listing plan) plan s
      else after_answer (prompt_yes_no input) (listing plan ++ question ∷ []) plan s

  abbrev pub with_plan : Bool → Input → Response RepairPlan × S → Ended S
  with_plan yes_flag input (call_failed e, s) = record {
    lines = [];
    error = some (bytes "get repair plan: " ++ e);
    state = s;
  }
  with_plan yes_flag input (received plan, s) =
      let nothing : Ended S = record {
        lines = bytes "Nothing to repair." ∷ [];
        error = none;
        state = s;
      } in
      unless_empty plan.actions nothing (with_actions yes_flag input plan s)

  abbrev pub with_dial : Bool → Input → Option Text → S → Ended S
  with_dial yes_flag input (some e) s = record {
    lines = [];
    error = some (bytes "connect: " ++ e);
    state = s;
  }
  with_dial yes_flag input none s = with_plan yes_flag input (client.get_repair_plan plan_timeout s)

  unfoldable pub repair : Bool → Input → S → Ended S
  unfolding apply_plan
  repair yes_flag input s =
      let (alive, s₁) = client.probe s in
      if not alive
      then record {
        lines = [];
        error = some (bytes "Envorca daemon is not running.\nRun 'envorca start' to launch it.");
        state = s₁;
      }
      else with_dial yes_flag input (client.dial s₁) s₁
