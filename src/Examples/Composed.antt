-- ===== src/Examples/Composed.antt =====
-- Commands against a daemon whose WSL environment is broken until the start repairs it.
use envorca.Prelude.{
  ℕ, suc, ◌≤◌, ◌≡◌, refl, true, false, Option, none, some, List, [], ◌∷◌, ◌++◌, map, length, last_n,
  leb, if◌then◌else◌,
}
use envorca.Text.{Text, bytes, text_eq, contains, to_lower}
use envorca.Api.{critical, healthy, brief, ComponentStatus, RepairOutcome}
use envorca.Health.{Context, Registry, returned, snapshot}
use envorca.Events.{channel_capacity}
use envorca.Recovery as Recoveries
use envorca.Recovery.{verified}
use envorca.Recovery.Actions.{
  wsl_start, wsl_restart, action_id, can_execute, execute_action, verify_action, boot_default,
  wsl_critical, summary_has, requires_confirmation,
}
use envorca.Daemon.Rpc.{Message, answer}
use envorca.Daemon.Handlers.{Daemon, get_repair_plan, execute_repair}
use envorca.Cli.Repair.{no_input, repair, outcome_label, listing, closing_line}
use envorca.Cli.Interactive.{daemon_client}
use envorca.Cli.Redundant.{
  both_planned, confirmed_request, redundant_line, repair_redundant_restart,
}
use envorca.Examples.{half_minute}
use envorca.Examples.Daemon.{services, daemon_of}
use envorca.Examples.Events.{later}

-- The environment is broken in the first three states of the world.
abbrev healing : ℕ → ComponentStatus
healing w =
    if leb w 3 then brief critical (bytes "Linux environment failed to start") else brief healthy []

abbrev healing_daemon : Daemon services
healing_daemon = record (daemon_of []) {
  health = record {
    components = record { id = bytes "wsl"; probe = λ c w. (returned (healing w), suc w) } ∷ [];
  };
}

abbrev show : Message → Text
show m = bytes "refused"

abbrev healed : RepairOutcome
healed = verified wsl_start (action_id wsl_start) none

abbrev after_start : Daemon services
after_start = (execute_repair services half_minute (confirmed_request wsl_start) healing_daemon 1).1

both_repairs :
    (get_repair_plan services half_minute healing_daemon 0).0 ≡ answer (both_planned (bytes "noon"))
unfolding get_repair_plan Recoveries.plan Recoveries.plan_from Recoveries.new snapshot
    envorca.Health.snapshot_from envorca.Health.stamped can_execute wsl_critical summary_has text_eq
    bytes contains to_lower
both_repairs = refl

-- One call of the probe, two of the start and two of the verification.
start_heals :
    execute_repair services half_minute
      (confirmed_request wsl_start)
      healing_daemon
      (get_repair_plan services half_minute healing_daemon 0).1
    ≡ (answer healed, after_start, 6)
unfolding get_repair_plan execute_repair Recoveries.execute Recoveries.new Recoveries.execute_known
    Recoveries.execute_from Recoveries.verify_step snapshot envorca.Health.snapshot_from
    envorca.Health.stamped can_execute wsl_critical summary_has text_eq bytes contains to_lower
    action_id requires_confirmation execute_action verify_action boot_default
    envorca.Wsl.default_distro envorca.Wsl.list envorca.Wsl.default_name envorca.Wsl.boot
start_heals = refl

nothing_left : can_execute wsl_restart (snapshot after_start.health half_minute 6).0 ≡ false
unfolding execute_repair Recoveries.execute Recoveries.new Recoveries.execute_known
    Recoveries.execute_from Recoveries.verify_step snapshot envorca.Health.snapshot_from
    envorca.Health.stamped can_execute wsl_critical summary_has text_eq bytes contains to_lower
    action_id requires_confirmation execute_action verify_action boot_default
    envorca.Wsl.default_distro envorca.Wsl.list envorca.Wsl.default_name envorca.Wsl.boot
nothing_left = refl

repair_redundant_restart_example :
    (repair (daemon_client services half_minute show) true no_input (healing_daemon, 0)).lines
    ≡ listing (both_planned (bytes "noon"))
      ++ (bytes "  wsl.start: ok" ++ outcome_label healed.verification)
        ∷ redundant_line
        ∷ closing_line 1
        ∷ []
repair_redundant_restart_example =
    repair_redundant_restart services half_minute show no_input healing_daemon after_start 0 6 refl
      both_repairs start_heals refl nothing_left

abbrev quoted : Text → Text
quoted s = bytes "\"" ++ (s ++ bytes "\"")

abbrev nano : Option ℕ → Text
nano t = bytes "noon"

few : length (later ++ later) ≤ channel_capacity
few = omega envorca.Prelude.arith
