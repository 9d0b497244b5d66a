-- ===== src/Examples/Recovery.antt =====
-- Repairs of a WSL environment that failed to start.
use envorca.Prelude.{◌≡◌, refl, true, false, none, [], ◌∷◌}
use envorca.Text.{bytes, text_eq, contains, to_lower}
use envorca.Wsl.{boot, default_distro, list, default_name}
use envorca.Recovery.{new, execute}
use envorca.Recovery.Actions.{
  wsl_start, wsl_restart, can_execute, execute_action, verify_action, boot_default, wsl_critical,
  summary_has,
}
use envorca.Recovery.Safety.{logged, NoShutdown, execute-NoShutdown}
use envorca.Examples.{half_minute, counting_runner, broken_wsl}

execute-NoShutdown_example :
    NoShutdown
      (execute
        (logged counting_runner)
        new
        half_minute
        (bytes "wsl.restart")
        false
        (broken_wsl ∷ [])
        (0, [])).1.1
execute-NoShutdown_example =
    execute-NoShutdown counting_runner half_minute new (bytes "wsl.restart") (broken_wsl ∷ []) 0

applies : can_execute wsl_start (broken_wsl ∷ []) ≡ true
unfolding can_execute wsl_critical summary_has text_eq bytes contains to_lower
applies = refl

restarts : can_execute wsl_restart (broken_wsl ∷ []) ≡ true
unfolding can_execute wsl_critical summary_has text_eq bytes contains to_lower
restarts = refl

-- A restart makes three calls: the shutdown, the listing and the boot.
restart_runs : execute_action counting_runner half_minute wsl_restart 0 ≡ (none, 3)
unfolding execute_action boot_default default_distro list default_name envorca.Wsl.shutdown
    envorca.Wsl.boot
restart_runs = refl

start_runs : execute_action counting_runner half_minute wsl_start 0 ≡ (none, 2)
unfolding execute_action boot_default default_distro list default_name envorca.Wsl.boot
start_runs = refl

restart_verified : verify_action counting_runner half_minute wsl_restart 3 ≡ (none, 5)
unfolding verify_action boot_default default_distro list default_name envorca.Wsl.boot
restart_verified = refl
