-- ===== src/Cli/Lifecycle.antt =====
-- `envorca start` and `envorca stop` (cli/cmd/envorca/lifecycle.go).
use envorca.Prelude.{
  ℕ, zero, suc, ◌+◌, ◌*◌, Bool, not, Option, none, some, [], ◌∷◌, ◌++◌, ltb, if◌then◌else◌,
}
use envorca.Text.{Text, bytes}
use envorca.Health.{second}
use envorca.Cli.Repair.{Response, received, call_failed, Ended}
use envorca.Cli.Commands.{failed_with, printed}

-- What start and stop call; `spawn` also takes the config path that the daemon is to use, if any.
pub record Launcher (S : Type 0) : Type 0 where
  pub probe : S → Bool × S
  pub find_daemon_binary : S → Response Text
  pub open_spawn_log : S → Response Text × S
  pub set_config : Text → S → Option Text × S
  pub spawn : Text → S → Option Text × S
  pub now : S → ℕ
  pub sleep : S → S
  pub dial : S → Option Text
  pub shutdown : ℕ → S → Option Text × S

abbrev pub start_budget : ℕ
start_budget = 15 * second

module _ {S : Type 0} (l : Launcher S) (endpoint : Text) where
  abbrev pub not_ready : Text → S → Ended S
  not_ready log s =
      failed_with
        (bytes "daemon did not become ready within 15s; see " ++ (log ++ bytes " for startup logs"))
        s

  -- The wait for readiness: each round asks the clock, probes, and sleeps 150 ms.
  unfoldable pub await_ready : ℕ → ℕ → Text → S → Ended S
  await_ready zero deadline log s = not_ready log s
  await_ready (suc rounds) deadline log s =
      let (alive, s₁) = l.probe s in
      let again = await_ready rounds deadline log (l.sleep s₁) in
      let ready =
        printed (bytes "Envorca daemon started." ∷ (bytes "Socket: " ++ endpoint) ∷ []) s₁ in
      if ltb (l.now s) deadline then (if alive then ready else again) else not_ready log s

  -- Fifteen seconds are at most a hundred rounds of 150 ms.
  abbrev pub start_rounds : ℕ
  start_rounds = 100

  abbrev pub after_spawn : Text → Option Text × S → Ended S
  after_spawn log (some e, s) = failed_with (bytes "start daemon: " ++ e) s
  after_spawn log (none, s) = await_ready start_rounds (l.now s + start_budget) log s

  abbrev pub after_config : Text → Text → Option Text × S → Ended S
  after_config bin log (some e, s) = failed_with (bytes "set config for daemon: " ++ e) s
  after_config bin log (none, s) = after_spawn log (l.spawn bin s)

  abbrev pub set_config_if : Text → S → Option Text × S
  set_config_if [] s = (none, s)
  set_config_if (c ∷ cfg) s = l.set_config (c ∷ cfg) s

  abbrev pub after_log : Text → Text → Response Text × S → Ended S
  after_log bin cfg (call_failed e, s) = failed_with (bytes "open spawn log: " ++ e) s
  after_log bin cfg (received log, s) = after_config bin log (set_config_if cfg s)

  abbrev pub after_find : Text → Response Text → S → Ended S
  after_find cfg (call_failed e) s = failed_with e s
  after_find cfg (received bin) s = after_log bin cfg (l.open_spawn_log s)

  unfoldable pub start : Text → S → Ended S
  unfolding await_ready
  start cfg s =
      let (alive, s₁) = l.probe s in
      if alive
      then printed (bytes "Envorca daemon is already running." ∷ []) s₁
      else after_find cfg (l.find_daemon_binary s₁) s₁

  abbrev pub after_shutdown : Option Text × S → Ended S
  after_shutdown (some e, s) = failed_with (bytes "shutdown: " ++ e) s
  after_shutdown (none, s) = printed [] s

  abbrev pub stop_dialled : Option Text → S → Ended S
  stop_dialled (some e) s = failed_with (bytes "connect: " ++ e) s
  stop_dialled none s = after_shutdown (l.shutdown (5 * second) s)

  unfoldable pub stop : S → Ended S
  stop s =
      let (alive, s₁) = l.probe s in
      if not alive
      then printed (bytes "Envorca daemon is not running." ∷ []) s₁
      else stop_dialled (l.dial s₁) s₁
