-- ===== src/Cli/Calls.antt =====
-- The calls of the daemon (cli/internal/client/client.go). Each gives its context a timeout and calls a stub
-- of the generated package on a connection, which is known by the endpoint that it dials.
use envorca.Prelude.{ℕ, ◌+◌, ◌*◌, Bool, true, false, Option, none, some, List, ℤ}
use envorca.Text.{Text}
use envorca.Api.{
  PingResponse, EnvironmentStatus, RepairPlan, ExecuteRepairRequest, RepairOutcome,
  DiagnosticRecord, RepairRecord, WireEvent,
}
use envorca.Health.{Context, with_deadline, second}
use envorca.Cli.Repair.{Response, received, call_failed, Client}
use envorca.Cli.Commands.{Queries}
use envorca.Cli.Lifecycle.{Launcher}
use envorca.Cli.Runner.{System, find_daemon_binary, open_spawn_log}

-- How a stream of events ends: closed by the daemon, cancelled with the command's context, or broken.
pub data Ending : Type 0 where
  closed : Ending
  cancelled broken : Text → Ending

pub record Stream : Type 0 where
  pub events : List WireEvent
  pub ending : Ending

-- grpc.NewClient, the generated stubs and the clock. A history's reply holds the list of its records.
pub record Stubs (S : Type 0) : Type 0 where
  pub now : S → ℕ
  pub new_client : Text → Option Text
  pub ping : Text → Context → S → Response PingResponse × S
  pub get_status : Text → Context → S → Response EnvironmentStatus × S
  pub get_repair_plan : Text → Context → S → Response RepairPlan × S
  pub execute_repair : Text → Context → ExecuteRepairRequest → S → Response RepairOutcome × S
  pub stream_events : Text → Context → Bool → S → Response Stream × S
  pub get_diagnostics : Text → Context → ℤ → S → Response (List DiagnosticRecord) × S
  pub get_repair_history : Text → Context → ℤ → S → Response (List RepairRecord) × S
  pub shutdown : Text → Context → S → Option Text × S

abbrev pub is_received : {A : Type 0} → Response A → Bool
is_received (received a) = true
is_received (call_failed e) = false

module _ {S : Type 0} (stubs : Stubs S) (parent : Context) (endpoint : Text) where
  -- The context of a call that begins now.
  abbrev pub timed : Context → ℕ → S → Context
  timed ctx timeout s = with_deadline (stubs.now s + timeout) ctx.deadline

  unfoldable pub dial : S → Option Text
  dial s = stubs.new_client endpoint

  abbrev pub probe_dialled : Context → Option Text → S → Bool × S
  probe_dialled ctx (some e) s = (false, s)
  probe_dialled ctx none s =
      let (reply, s') = stubs.ping endpoint (timed ctx (2 * second) s) s in (is_received reply, s')

  unfoldable pub probe : S → Bool × S
  unfolding dial
  probe s = probe_dialled (timed parent (2 * second) s) (dial s) s

  unfoldable pub ping : ℕ → S → Response PingResponse × S
  ping timeout s = stubs.ping endpoint (timed parent timeout s) s

  unfoldable pub get_status : ℕ → S → Response EnvironmentStatus × S
  get_status timeout s = stubs.get_status endpoint (timed parent timeout s) s

  unfoldable pub get_repair_plan : ℕ → S → Response RepairPlan × S
  get_repair_plan timeout s = stubs.get_repair_plan endpoint (timed parent timeout s) s

  unfoldable pub execute_repair : Text → Bool → ℕ → S → Response RepairOutcome × S
  execute_repair id confirmed timeout s =
      stubs.execute_repair endpoint (timed parent timeout s)
        (record { action_id = id; confirmed = confirmed }) s

  unfoldable pub stream_events : Bool → S → Response Stream × S
  stream_events replay s = stubs.stream_events endpoint parent replay s

  unfoldable pub get_diagnostics : ℤ → ℕ → S → Response (List DiagnosticRecord) × S
  get_diagnostics limit timeout s = stubs.get_diagnostics endpoint (timed parent timeout s) limit s

  unfoldable pub get_repair_history : ℤ → ℕ → S → Response (List RepairRecord) × S
  get_repair_history limit timeout s =
      stubs.get_repair_history endpoint (timed parent timeout s) limit s

  unfoldable pub shutdown : ℕ → S → Option Text × S
  shutdown timeout s = stubs.shutdown endpoint (timed parent timeout s) s

  -- What the commands call.
  unfoldable pub repair_client : Client S
  repair_client = record {
    probe = probe;
    dial = dial;
    get_repair_plan = get_repair_plan;
    execute_repair = execute_repair;
  }

  unfoldable pub queries : Queries S
  queries = record {
    probe = probe;
    dial = dial;
    ping = ping;
    get_status = get_status;
    get_diagnostics = get_diagnostics;
    get_repair_history = get_repair_history;
  }

  -- `start` and `stop` call the daemon too, and the runner's package; the environment, the start of a process, the
  -- clock and the sleep are the system's.
  unfoldable pub launcher : System → Launcher S → Launcher S
  launcher sys l = record l {
    probe = probe;
    dial = dial;
    shutdown = shutdown;
    find_daemon_binary = λ s. find_daemon_binary sys;
    open_spawn_log = λ s. (open_spawn_log sys, s);
  }
