-- ===== src/Recovery.antt =====
-- Repairs (daemon/internal/recovery/actions.go): the two actions, the plan and the execution.
pub mod Actions
pub mod Plan
pub mod Safety
pub mod Outcomes
use envorca.Prelude.{
  Bool, true, false, not, ◌&&◌, Option, none, some, List, [], ◌∷◌, ◌++◌, if◌then◌else◌,
}
use envorca.Text.{Text, bytes, text_eq}
use envorca.Api.{ComponentStatus, RepairAction, RepairOutcome}
use envorca.Health.{Context}
use envorca.Wsl.{Runner}
use envorca.Recovery.Actions.{
  Action, wsl_start, wsl_restart, action_id, component_id, action_summary, description,
  requires_confirmation, can_execute, execute_action, verify_action,
}

-- The actions that a Recovery knows; its runner is an argument of `execute`.
pub record Recovery : Type 0 where
  pub actions : List Action

unfoldable pub new : Recovery
new = record { actions = wsl_start ∷ wsl_restart ∷ [] }

abbrev pub proposal : Action → RepairAction
proposal a = record {
  component_id = component_id a;
  action_id = action_id a;
  summary = action_summary a;
  description = description a;
  safe = true;
  requires_confirmation = requires_confirmation a;
}

unfoldable pub plan_from : List Action → List ComponentStatus → List RepairAction
plan_from [] components = []
plan_from (a ∷ rest) components =
    let out = plan_from rest components in
    if can_execute a components then proposal a ∷ out else out

unfoldable pub plan : Recovery → List ComponentStatus → List RepairAction
unfolding plan_from
plan r components = plan_from r.actions components

-- The errors of Execute; action results are no errors.
pub data RecoveryError : Type 0 where
  confirmation_required : Text → RecoveryError
  unknown_action : Text → RecoveryError

pub data Executed : Type 0 where
  outcome : RepairOutcome → Executed
  refused : RecoveryError → Executed

abbrev pub outcome_of : Action → Text → Bool → Text → Text → RepairOutcome
outcome_of a id success result verification = record {
  action_id = id;
  component_id = component_id a;
  success = success;
  result = result;
  verification = verification;
}

abbrev pub not_applicable : Action → Text → RepairOutcome
not_applicable a id = outcome_of a id false (bytes "action no longer applicable; re-run doctor") []

-- What the verification's error, or none, makes of the outcome.
abbrev pub verified : Action → Text → Option Text → RepairOutcome
verified a id (some e) = outcome_of a id false (bytes "executed but verification failed: " ++ e) []
verified a id none = outcome_of a id true (bytes "ok") (bytes "component now passes verification")

module _ {W : Type 0} (run : Runner W) where
  -- The end of a round of Execute.
  unfoldable pub verify_step : Context → Action → Text → W → Executed × W
  verify_step ctx a id w =
      let (failed, w') = verify_action run ctx a w in (outcome (verified a id failed), w')

  abbrev pub after_execute : Context → Action → Text → Option Text × W → Executed × W
  after_execute ctx a id (some e, w) =
      (outcome (outcome_of a id false (bytes "execute failed: " ++ e) []), w)
  after_execute ctx a id (none, w) = verify_step ctx a id w

  -- The round of Execute for the action with the given identifier.
  unfoldable pub execute_known :
      Context → Action → Text → Bool → List ComponentStatus → W → Executed × W
  unfolding verify_step
  execute_known ctx a id confirmed components w =
      if not (can_execute a components)
      then (outcome (not_applicable a id), w)
      else if requires_confirmation a && not confirmed
      then (refused (confirmation_required id), w)
      else after_execute ctx a id (execute_action run ctx a w)

  unfoldable pub execute_from :
      List Action → Context → Text → Bool → List ComponentStatus → W → Executed × W
  unfolding execute_known
  execute_from [] ctx id confirmed components w = (refused (unknown_action id), w)
  execute_from (a ∷ rest) ctx id confirmed components w =
      if text_eq (action_id a) id
      then execute_known ctx a id confirmed components w
      else execute_from rest ctx id confirmed components w

  unfoldable pub execute :
      Recovery → Context → Text → Bool → List ComponentStatus → W → Executed × W
  unfolding execute_from
  execute r ctx id confirmed components w = execute_from r.actions ctx id confirmed components w
