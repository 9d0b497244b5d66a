-- ===== src/Examples/Cli.antt =====
-- Commands against a small daemon.
use envorca.Prelude.{
  leb, ℕ, suc, ◌+◌, ◌≡◌, ◌↔◌, refl, true, false, none, List, [], ◌∷◌, ◌++◌, arith,
}
use envorca.Text.{Text, bytes, text_eq, to_lower, contains}
use envorca.Text.Trim.{trim_space}
use envorca.Api.{healthy, warning, ComponentStatus, brief, RepairPlan}
use envorca.Health.{overall_status, snapshot}
use envorca.Recovery.{proposal, verified}
use envorca.Recovery.Actions.{wsl_start, wsl_restart, can_execute, wsl_critical, summary_has}
use envorca.Daemon.Rpc.{Message, answer}
use envorca.Daemon.Handlers.{Daemon, get_repair_plan}
use envorca.Cli.Doctor.{counts, report_components}
use envorca.Cli.Summaries.{no_counts, counts-overall_status}
use envorca.Cli.Repair.{Client, word, received, repair, listing, question, closing_line}
use envorca.Cli.Requests.{logged, Requested, SaysYes, short, repair-requests}
use envorca.Cli.Interactive.{daemon_client, restart_plan, vain_line, repair_restart_refused}
use envorca.Cli.Lifecycle.{Launcher, await_ready, start_rounds, start_budget}
use envorca.Cli.Ready.{Reports, await_ready-started}
use envorca.Cli.Waiting.{KeepsTime, await_ready_ends, Waits}
use envorca.Examples.{half_minute}
use envorca.Examples.Daemon.{services, daemon_of}

abbrev both : RepairPlan
both = record {
  actions = proposal wsl_start ∷ proposal wsl_restart ∷ [];
  evaluated_at = bytes "noon";
}

abbrev willing : Client ℕ
willing = record {
  probe = λ s. (true, s);
  dial = λ s. none;
  get_repair_plan = λ t s. (received both, suc s);
  execute_repair = λ id confirmed t s. (received (verified wsl_start id none), suc s);
}

repair-requests_example :
    Requested willing false
      (word (bytes "y"))
      both.actions
      (repair (logged willing) false (word (bytes "y")) (0, [])).state.1
repair-requests_example = repair-requests willing false (word (bytes "y")) 0 refl refl refl

abbrev show : Message → Text
show m = bytes "refused"

restart_planned :
    (get_repair_plan services half_minute (daemon_of (bytes "could not query WSL status")) 0).0
    ≡ answer (restart_plan services half_minute show (bytes "noon"))
unfolding get_repair_plan envorca.Recovery.plan envorca.Recovery.plan_from envorca.Recovery.new
    envorca.Health.snapshot envorca.Health.snapshot_from envorca.Health.stamped can_execute
    wsl_critical summary_has text_eq bytes contains to_lower
restart_planned = refl

said_yes : SaysYes (word (bytes " Y"))
unfolding bytes trim_space to_lower
said_yes = short refl

abbrev unqueried : Daemon services
unqueried = daemon_of (bytes "could not query WSL status")

repair_restart_refused_example :
    let (cs, w') =
      snapshot unqueried.health half_minute (snapshot unqueried.health half_minute 0).1 in
    let ended =
      repair (daemon_client services half_minute show) false (word (bytes " Y")) (unqueried, 0) in
    (ended.lines
      ≡ (listing (restart_plan services half_minute show (bytes "noon")) ++ question ∷ [])
        ++ vain_line services half_minute show (can_execute wsl_restart cs) ∷ closing_line 1 ∷ [])
    × (ended.state.1 ≡ w')
repair_restart_refused_example =
    repair_restart_refused services half_minute show (word (bytes " Y")) unqueried 0 refl
      restart_planned said_yes

-- A clock in nanoseconds, and a daemon that never answers.
abbrev silent : Launcher ℕ
silent = record {
  probe = λ s. (false, s + 2);
  find_daemon_binary = λ s. received (bytes "envorcad");
  open_spawn_log = λ s. (received (bytes "daemon.out.log"), s);
  set_config = λ path s. (none, s);
  spawn = λ exe s. (none, s);
  now = λ s. s;
  sleep = λ s. s + 150_000_000;
  dial = λ s. none;
  shutdown = λ t s. (none, s);
}

silent-KeepsTime : KeepsTime silent
silent-KeepsTime = record { sleep_lasts = λ s. omega arith; probe_forward = λ s. omega arith }

await_ready_ends_example :
    Waits silent silent-KeepsTime (bytes "pipe") (silent.now 0 + start_budget) (bytes "log") 0 (
      await_ready silent
        (bytes "pipe")
        (start_rounds silent (bytes "pipe"))
        (silent.now 0 + start_budget)
        (bytes "log")
        0)
await_ready_ends_example = await_ready_ends silent silent-KeepsTime (bytes "pipe") (bytes "log") 0

abbrev mixed : List ComponentStatus
mixed = brief healthy [] ∷ brief warning [] ∷ []

counts-overall_status_example :
    (counts (report_components true mixed no_counts).1 ≡ []) ↔ (overall_status mixed ≡ healthy)
counts-overall_status_example = counts-overall_status true mixed

-- The same clock, and a daemon that answers after a second.
abbrev slow : Launcher ℕ
slow = record silent { probe = λ s. (leb 1_000_000_000 s, s + 2) }

slow-KeepsTime : KeepsTime slow
slow-KeepsTime = record { sleep_lasts = λ s. omega arith; probe_forward = λ s. omega arith }

await_ready-started_example : Reports slow (bytes "pipe") (
    await_ready slow
      (bytes "pipe")
      (start_rounds slow (bytes "pipe"))
      (slow.now 5 + start_budget)
      (bytes "log")
      5)
await_ready-started_example =
    await_ready-started slow (bytes "pipe") slow-KeepsTime 150_000_002 1_000_000_000
      (λ s. omega arith) (λ s h. ground arith) (bytes "log") 5 (omega arith)
