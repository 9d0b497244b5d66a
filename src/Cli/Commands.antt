-- ===== src/Cli/Commands.antt =====
-- The commands that ask the daemon once and print its answer (status.go, doctor.go, ping.go, history.go),
-- and where they look for the daemon (cli/cmd/envorca/config.go).
use envorca.Prelude.{ℕ, ◌*◌, Bool, not, Option, none, some, List, [], ◌∷◌, ◌++◌, ℤ, if◌then◌else◌}
use envorca.Text.{Text, bytes}
use envorca.Health.{second}
use envorca.Api.{PingResponse, EnvironmentStatus, DiagnosticRecord, RepairRecord}
use envorca.Cli.Repair.{Response, received, call_failed, Ended}
use envorca.Cli.Render.{render_status, render_ping}
use envorca.Cli.Doctor.{render_doctor}
use envorca.Cli.History.{render_diagnostics, render_repair_history}

pub record Queries (S : Type 0) : Type 0 where
  pub probe : S → Bool × S
  pub dial : S → Option Text
  pub ping : ℕ → S → Response PingResponse × S
  pub get_status : ℕ → S → Response EnvironmentStatus × S
  pub get_diagnostics : ℤ → ℕ → S → Response (List DiagnosticRecord) × S
  pub get_repair_history : ℤ → ℕ → S → Response (List RepairRecord) × S

abbrev pub not_running : Text
not_running = bytes "Envorca daemon is not running.\nRun 'envorca start' to launch it."

module _ {S : Type 0} where
  abbrev pub failed_with : Text → S → Ended S
  failed_with e s = record { lines = []; error = some e; state = s }

  -- A call's answer is printed, and its error is wrapped with what was asked.
  abbrev pub then_print : {A : Type 0} → Text → (A → S → Ended S) → Response A × S → Ended S
  then_print what print (call_failed e, s) = failed_with (what ++ (bytes ": " ++ e)) s
  then_print what print (received a, s) = print a s

  abbrev pub printed : List Text → S → Ended S
  printed lines s = record { lines = lines; error = none; state = s }

module _ {S : Type 0} (q : Queries S) where
  abbrev pub dialled : Option Text → (S → Ended S) → S → Ended S
  dialled (some e) act s = failed_with (bytes "connect: " ++ e) s
  dialled none act s = act s

  -- The liveness probe and the connection, with which each command begins.
  abbrev pub connected : (S → Ended S) → S → Ended S
  connected act s =
      let (alive, s₁) = q.probe s in
      if not alive then failed_with not_running s₁ else dialled (q.dial s₁) act s₁

  unfoldable pub status_command : Bool → S → Ended S
  status_command terminal = connected (λ s.
      then_print (bytes "get status") (λ st. printed (render_status terminal st))
        (q.get_status (15 * second) s))

  unfoldable pub doctor_command : Bool → S → Ended S
  doctor_command terminal = connected (λ s.
      then_print (bytes "get status") (λ st. printed (render_doctor terminal st))
        (q.get_status (20 * second) s))

  unfoldable pub ping_command : S → Ended S
  ping_command =
      connected
        (λ s. then_print (bytes "ping") (λ r. printed (render_ping r)) (q.ping (5 * second) s))

  unfoldable pub history_command : (Text → Option Text) → Bool → ℤ → S → Ended S
  history_command local_time terminal limit = connected (λ s.
      then_print (bytes "get diagnostics")
        (λ ds s₁.
          then_print (bytes "get repair history")
            (λ rs. printed (
              render_diagnostics local_time terminal ds
              ++ render_repair_history local_time terminal rs))
            (q.get_repair_history limit (5 * second) s₁))
        (q.get_diagnostics limit (5 * second) s))

-- The flag --config, or the value of ENVORCA_CONFIG.
unfoldable pub config_path : Text → Text → Text
config_path [] env = env
config_path (c ∷ s) env = c ∷ s

abbrev pub or_default : Text → Option Text → Text
or_default default none = default
or_default default (some []) = default
or_default default (some (c ∷ s)) = c ∷ s

-- `read_socket` reads a file and the field `socket` of its YAML, none where either fails; `default` is the
-- default endpoint.
unfoldable pub command_endpoint : (Text → Option Text) → Text → Text → Text
command_endpoint read_socket [] default = default
command_endpoint read_socket (c ∷ s) default = or_default default (read_socket (c ∷ s))
