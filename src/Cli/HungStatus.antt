-- ===== src/Cli/HungStatus.antt =====
-- `envorca status` and `envorca doctor` against a daemon whose wsl.exe hangs.
use envorca.Prelude.{ℕ, ◌+◌, ◌*◌, ◌≤◌, ◌≡◌, refl, Bool, true, arith}
use envorca.Text.{Text, bytes}
use envorca.Api.{EnvironmentStatus}
use envorca.Health.{second}
use envorca.Diagnosis.Entries.{Machine, built, default_registry}
use envorca.Diagnosis.Deadlines.{KeepsDeadlines}
use envorca.Diagnosis.Hung.{Hangs, virtualization_delay}
use envorca.Daemon.Rpc.{answer}
use envorca.Daemon.Handlers as Handlers
use envorca.Daemon.Handlers.{Services, Daemon}
use envorca.Cli.Repair.{Response, received, call_failed, Input, Ended, repair}
use envorca.Cli.Commands.{then_print, printed, status_command, doctor_command}
use envorca.Cli.Render.{render_status}
use envorca.Cli.Doctor.{render_doctor}
use envorca.Cli.Calls.{Stubs, dial, get_status, queries, repair_client}
use envorca.Cli.Served.{Grpc, Traffic, served, background, probe-served}
use envorca.Cli.HungRepair.{FailsTo, call_context, snapshot_late, repair_hung}

then_print_failed :
    {A S : Type 0} (what : Text) (print : A → S → Ended S) (out : Response A × S) {e : Text}
    → out.0 ≡ call_failed e
    → FailsTo what (then_print what print out)
then_print_failed what print (received a, s) h = absurd (ground arith)
then_print_failed what print (call_failed e, s) h = ((e, refl), refl)

module _ (grpc : Grpc) {W : Type 0} (s : Services W) (traffic : Traffic) (endpoint : Text) where
  abbrev stubs : Stubs (Daemon s × W)
  stubs = served grpc s traffic

  status-served :
      (terminal : Bool) (d : Daemon s) (w : W)
      → status_command (queries stubs background endpoint) terminal (d, w)
        ≡ then_print
            (bytes "get status")
            (λ st. printed (render_status terminal st))
            (get_status stubs background endpoint (15 * second) (d, w))
  unfolding status_command queries dial served
  status-served terminal d w = rw (probe-served grpc s traffic endpoint d w) refl

  doctor-served :
      (terminal : Bool) (d : Daemon s) (w : W)
      → doctor_command (queries stubs background endpoint) terminal (d, w)
        ≡ then_print
            (bytes "get status")
            (λ st. printed (render_doctor terminal st))
            (get_status stubs background endpoint (20 * second) (d, w))
  unfolding doctor_command queries dial served
  doctor-served terminal d w = rw (probe-served grpc s traffic endpoint d w) refl

module _ (grpc : Grpc) {W : Type 0} (s : Services W) (traffic : Traffic) (endpoint : Text)
    (m : Machine W) (keeps : KeepsDeadlines m.now m.run m.sc_query)
    (hangs : Hangs m.now m.run) where
  get_status_late :
      (timeout : ℕ) (d : Daemon s) (w : W)
      → timeout ≤ virtualization_delay m.on_windows + 19 * second
      → m.installed ≡ true
      → m.now ≡ s.now
      → default_registry m ≡ built d.health
      → (e : Text) × ((get_status (served grpc s traffic) background endpoint timeout (d, w)).0
          ≡ call_failed e)
  unfolding get_status served envorca.Daemon.Handlers.get_status
  get_status_late timeout d w soon installed clock registry =
      grpc.too_late (call_context timeout (s.now w)) _ (s.now w + timeout) (answer _) refl (
        snapshot_late grpc s traffic endpoint m keeps hangs timeout d w soon installed clock
          registry)

  get_status_fails :
      (timeout : ℕ) (print : EnvironmentStatus → Daemon s × W → Ended (Daemon s × W)) (d : Daemon s)
      (w : W)
      → timeout ≤ virtualization_delay m.on_windows + 19 * second
      → m.installed ≡ true
      → m.now ≡ s.now
      → default_registry m ≡ built d.health
      → FailsTo (bytes "get status") (
          then_print
            (bytes "get status")
            print
            (get_status (served grpc s traffic) background endpoint timeout (d, w)))
  get_status_fails timeout print d w soon installed clock registry =
      let (e, late) = get_status_late timeout d w soon installed clock registry in
      then_print_failed (bytes "get status") print _ late

  -- Where wsl.exe hangs, Envorca neither says so nor repairs it. The daemon runs on Windows with the default
  -- registry, WSL is installed, and every command of wsl.exe fails no earlier than its context's deadline, to
  -- which it keeps. Then the daemon's answer misses the 15 seconds that `envorca status` waits for it, the 20 of
  -- `envorca doctor` and the eight of `envorca repair`: each of them prints nothing and ends with an error that
  -- the status or the plan is not there, and `envorca repair` leaves the daemon as it was, with --yes and without.
  pub commands_hung :
      (terminal yes_flag : Bool) (input : Input) (d : Daemon s) (w : W)
      → m.on_windows ≡ true
      → m.installed ≡ true
      → m.now ≡ s.now
      → default_registry m ≡ built d.health
      → let q = queries (served grpc s traffic) background endpoint in
        let repaired =
          repair
            (repair_client (served grpc s traffic) background endpoint)
            yes_flag
            input
            (d, w) in
        FailsTo (bytes "get status") (status_command q terminal (d, w))
        × FailsTo (bytes "get status") (doctor_command q terminal (d, w))
        × FailsTo (bytes "get repair plan") repaired
        × (repaired.state.0 ≡ d)
  commands_hung terminal yes_flag input d w windows installed clock registry =
      let fits : 20 * second ≤ virtualization_delay m.on_windows + 19 * second =
        rw windows (omega arith) in
      let (unplanned, kept) =
        repair_hung grpc s traffic endpoint m keeps hangs yes_flag input d w installed clock
          registry in
      (
        rw (status-served grpc s traffic endpoint terminal d w)
            (get_status_fails (15 * second) _ d w (omega arith) installed clock registry),
        rw (doctor-served grpc s traffic endpoint terminal d w)
            (get_status_fails (20 * second) _ d w fits installed clock registry),
        unplanned,
        kept,
      )
