-- ===== src/Examples/Deadlines.antt =====
-- A machine whose wsl.exe hangs, and a daemon that is reached over gRPC.
use envorca.Prelude.{
  ℕ, ◌+◌, ◌*◌, ◌≤◌, max, ◌≡◌, refl, true, false, Option, none, some, [], leb, if◌then◌else◌, arith,
}
use envorca.Text.{bytes}
use envorca.Health.{Registry, snapshot, second}
use envorca.Wsl.{Runner, ok, err}
use envorca.System.{no_resources}
use envorca.Diagnosis.Virtualization.{not_run}
use envorca.Diagnosis.Entries.{Machine, built, default_registry}
use envorca.Diagnosis.Deadlines.{InTime, KeepsDeadlines}
use envorca.Diagnosis.Budgets.{
  default_registry-Budgeted, default_components, default_registry-components,
}
use envorca.Diagnosis.Hung.{Hangs}
use envorca.Daemon.Rpc.{Reply, answer, status, crash}
use envorca.Daemon.Handlers.{Daemon}
use envorca.Cli.Repair.{Response, received, call_failed, no_input, repair}
use envorca.Cli.Calls.{repair_client, queries, closed}
use envorca.Cli.Served.{Before, Grpc, Traffic, served, background}
use envorca.Cli.HungRepair.{FailsTo}
use envorca.Cli.HungStatus.{commands_hung}
use envorca.Cli.Commands.{status_command, doctor_command}
use envorca.Examples.{half_minute}
use envorca.Examples.Daemon.{services, daemon_of}

abbrev until : Option ℕ → ℕ → ℕ
until none w = w
until (some d) w = max w d

abbrev hung_runner : Runner ℕ
hung_runner ctx args w = (err (bytes "signal: killed"), until ctx.deadline w)

abbrev hung_machine : Machine ℕ
hung_machine = record {
  run = hung_runner;
  installed = true;
  now = λ w. w;
  on_windows = true;
  rtl_answer = λ w. record {
    code = 0;
    version = record { major = 10; minor = 0; build = 22631 };
    call_error = [];
  };
  feature_present = λ n. true;
  sc_query = λ c name w. (not_run, w);
  memory = λ w. ok no_resources;
}

until-InTime : (d : Option ℕ) (w : ℕ) → InTime d w (until d w)
until-InTime none w = omega arith
until-InTime (some d) w = (omega arith, omega arith)

stays-InTime : (d : Option ℕ) (w : ℕ) → InTime d w w
stays-InTime none w = omega arith
stays-InTime (some d) w = (omega arith, omega arith)

until_late : (o : Option ℕ) (w d : ℕ) → o ≡ some d → d ≤ until o w
until_late none w d h = absurd (ground arith)
until_late (some e) w d h = ground arith

hung_keeps : KeepsDeadlines hung_machine.now hung_machine.run hung_machine.sc_query
hung_keeps = record {
  run_in_time = λ ctx args w. until-InTime ctx.deadline w;
  sc_in_time = λ ctx name w. stays-InTime ctx.deadline w;
}

hung-Hangs : Hangs hung_machine.now hung_machine.run
hung-Hangs = record {
  fails = λ ctx args w. (bytes "signal: killed", refl);
  late = λ ctx args w {d} h. until_late ctx.deadline w d h;
}

default_registry-Budgeted_example :
    (r : Registry ℕ) × (default_registry hung_machine ≡ built r)
    × InTime half_minute.deadline 5 (snapshot r half_minute 5).1
    × ((snapshot r half_minute 5).1 ≤ 5 + 26 * second)
default_registry-Budgeted_example = default_registry-Budgeted hung_machine hung_keeps half_minute 5

abbrev answered : {A : Type 0} → Reply A → Response A
answered (answer a) = received a
answered (status c m) = call_failed (bytes "refused")
answered crash = call_failed (bytes "transport is closing")

abbrev in_time_of : {A : Type 0} → Option ℕ → ℕ → Reply A → Response A
in_time_of none t reply = answered reply
in_time_of (some d) t reply =
    if leb d t then call_failed (bytes "context deadline exceeded") else answered reply

pub prompt_reply :
    {A : Type 0} (o : Option ℕ) (t : ℕ) (a : A)
    → Before t o
    → in_time_of o t (answer a) ≡ received a
prompt_reply none t a h = refl
prompt_reply (some d) t a h = ground arith

pub late_reply :
    {A : Type 0} (o : Option ℕ) (t d : ℕ) (reply : Reply A)
    → o ≡ some d
    → d ≤ t
    → in_time_of o t reply ≡ call_failed (bytes "context deadline exceeded")
late_reply none t d reply h k = absurd (ground arith)
late_reply (some e) t d reply h k = ground arith

abbrev pub grpc : Grpc
grpc = record {
  deliver = λ ctx t reply. in_time_of ctx.deadline t reply;
  prompt = λ ctx t a h. prompt_reply ctx.deadline t a h;
  too_late = λ ctx t d reply h k. (_, late_reply ctx.deadline t d reply h k);
}

abbrev pub quiet : Traffic
quiet = record { between = []; ticks = []; ending = closed; format_nano = λ t. bytes "noon" }

abbrev hung_daemon : Daemon services
hung_daemon = record (daemon_of []) {
  health = record { components = default_components hung_machine };
}

commands_hung_example :
    let q = queries (served grpc services quiet) background (bytes "pipe") in
    let repaired =
      repair
        (repair_client (served grpc services quiet) background (bytes "pipe"))
        true
        no_input
        (hung_daemon, 7) in
    FailsTo (bytes "get status") (status_command q false (hung_daemon, 7))
    × FailsTo (bytes "get status") (doctor_command q false (hung_daemon, 7))
    × FailsTo (bytes "get repair plan") repaired
    × (repaired.state.0 ≡ hung_daemon)
commands_hung_example =
    commands_hung grpc services quiet (bytes "pipe") hung_machine hung_keeps hung-Hangs false true
      no_input hung_daemon 7 refl refl refl (default_registry-components hung_machine)
