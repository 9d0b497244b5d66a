-- ===== src/Recovery/Actions.antt =====
-- WSLStartAction and WSLRestartAction: one constructor for each, and the methods by cases.
use envorca.Prelude.{
  Bool, true, false, ◌&&◌, Option, none, some, List, [], ◌∷◌, any_by, if◌then◌else◌,
}
use envorca.Text.{Text, bytes, text_eq, contains, to_lower}
use envorca.Api.{Status, ComponentStatus}
use envorca.Health.{Context}
use envorca.Wsl.{Runner, Result, ok, err, default_distro, boot, shutdown}

pub data Action : Type 0 where
  wsl_start wsl_restart : Action

unfoldable pub action_id : Action → Text
action_id Action.wsl_start = bytes "wsl.start"
action_id Action.wsl_restart = bytes "wsl.restart"

unfoldable pub component_id : Action → Text
component_id Action.wsl_start = bytes "wsl"
component_id Action.wsl_restart = bytes "wsl"

unfoldable pub action_summary : Action → Text
action_summary Action.wsl_start = bytes "Start the WSL environment"
action_summary Action.wsl_restart = bytes "Restart the WSL environment"

unfoldable pub description : Action → Text
description Action.wsl_start =
    bytes "Boots the default Linux distribution. Does not affect user data."
description Action.wsl_restart =
    bytes
      "Stops and restarts the WSL virtual machine. Running distributions are interrupted; no user data is removed."

unfoldable pub requires_confirmation : Action → Bool
requires_confirmation Action.wsl_start = false
requires_confirmation Action.wsl_restart = true

abbrev pub is_critical : Status → Bool
is_critical Status.critical = true
is_critical _ = false

unfoldable pub wsl_critical : List ComponentStatus → (ComponentStatus → Bool) → Bool
wsl_critical [] predicate = false
wsl_critical (c ∷ cs) predicate =
    if text_eq c.id (bytes "wsl") && (is_critical c.status && predicate c)
    then true
    else wsl_critical cs predicate

unfoldable pub summary_has : ComponentStatus → List Text → Bool
summary_has c keywords = let s = to_lower c.summary in any_by (contains s) keywords

abbrev pub start_keywords : List Text
start_keywords = bytes "failed to start" ∷ []

abbrev pub restart_keywords : List Text
restart_keywords = bytes "failed to start" ∷ bytes "could not query" ∷ bytes "broken" ∷ []

unfoldable pub can_execute : Action → List ComponentStatus → Bool
unfolding wsl_critical summary_has
can_execute Action.wsl_start cs = wsl_critical cs (λ s. summary_has s start_keywords)
can_execute Action.wsl_restart cs = wsl_critical cs (λ s. summary_has s restart_keywords)

module _ {W : Type 0} (run : Runner W) where
  abbrev pub after_distro : Context → Result Text × W → Option Text × W
  after_distro ctx (err e, w) = (some e, w)
  after_distro ctx (ok d, w) = boot run ctx d w

  -- What both actions end with: boot the default distribution.
  unfoldable pub boot_default : Context → W → Option Text × W
  boot_default ctx w = after_distro ctx (default_distro run ctx w)

  abbrev pub after_shutdown : Context → Option Text × W → Option Text × W
  after_shutdown ctx (some e, w) = (some e, w)
  after_shutdown ctx (none, w) = boot_default ctx w

  unfoldable pub execute_action : Context → Action → W → Option Text × W
  execute_action ctx Action.wsl_start w = boot_default ctx w
  execute_action ctx Action.wsl_restart w = after_shutdown ctx (shutdown run ctx w)

  unfoldable pub verify_action : Context → Action → W → Option Text × W
  verify_action ctx Action.wsl_start w = boot_default ctx w
  verify_action ctx Action.wsl_restart w = boot_default ctx w
