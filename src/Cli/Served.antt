-- ===== src/Cli/Served.antt =====
-- The stubs of a client whose calls a running daemon answers. gRPC carries the deadline of a call to the
-- daemon's handler and the handler's reply back.
use envorca.Prelude.{ℕ, ◌≤◌, ◌<◌, ◌≡◌, ap, arith, true, Option, none, some, List}
use envorca.Text.{Text}
use envorca.Health.{Context}
use envorca.Events.{Event}
use envorca.Daemon.Rpc.{Reply, answer}
use envorca.Daemon.Handlers as Handlers
use envorca.Daemon.Handlers.{Services, Daemon}
use envorca.Daemon.Stream as Streaming
use envorca.Daemon.Stream.{Tick}
use envorca.Daemon.Replayed.{accepts}
use envorca.Cli.Repair.{Response, received, call_failed}
use envorca.Cli.Calls.{probe, dial, is_received, Ending, Stubs}

-- A time before the deadline, if there is one.
abbrev pub Before : ℕ → Option ℕ → Type 0
Before t none = t ≡ t
Before t (some d) = t < d

-- What gRPC makes of a handler's reply, given the call's context and the time when the handler returned.
pub record Grpc : Type 1 where
  pub deliver : {A : Type 0} → Context → ℕ → Reply A → Response A
  pub prompt :
      {A : Type 0} (ctx : Context) (t : ℕ) (a : A)
      → Before t ctx.deadline
      → deliver ctx t (answer a) ≡ received a
  pub too_late :
      {A : Type 0} (ctx : Context) (t : ℕ) (d : ℕ) (reply : Reply A)
      → ctx.deadline ≡ some d
      → d ≤ t
      → (e : Text) × (deliver ctx t reply ≡ call_failed e)

-- What else goes on while a stream is open: what is published before its snapshot and then, and how it ends.
pub record Traffic : Type 0 where
  pub between : List (ℕ × Event)
  pub ticks : List Tick
  pub ending : Ending
  pub format_nano : Option ℕ → Text

abbrev pub error_of : {A : Type 0} → Response A → Option Text
error_of (received a) = none
error_of (call_failed e) = some e

module _ (grpc : Grpc) {W : Type 0} (s : Services W) (traffic : Traffic) where
  unfoldable pub served : Stubs (Daemon s × W)
  served = record {
    now = λ t. s.now t.1;
    new_client = λ endpoint. none;
    ping = λ endpoint ctx t. (grpc.deliver ctx (s.now t.1) (answer (Handlers.ping s t.0 t.1)), t);
    get_status = λ endpoint ctx t.
        let (st, d, w) = Handlers.get_status s ctx t.0 t.1 in
        (grpc.deliver ctx (s.now w) (answer st), (d, w));
    get_repair_plan = λ endpoint ctx t.
        let (reply, w) = Handlers.get_repair_plan s ctx t.0 t.1 in
        (grpc.deliver ctx (s.now w) reply, (t.0, w));
    execute_repair = λ endpoint ctx req t.
        let (reply, d, w) = Handlers.execute_repair s ctx req t.0 t.1 in
        (grpc.deliver ctx (s.now w) reply, (d, w));
    stream_events = λ endpoint ctx replay t.
        let (sent, bus) =
          Streaming.stream_events traffic.format_nano (accepts traffic.format_nano) replay
            traffic.between traffic.ticks t.0.bus in
        (
          received (record { events = sent; ending = traffic.ending }),
          (record (t.0) { bus = bus }, t.1),
        );
    get_diagnostics = λ endpoint ctx limit t.
        (grpc.deliver ctx (s.now t.1) (Handlers.get_diagnostics s limit t.0), t);
    get_repair_history = λ endpoint ctx limit t.
        (grpc.deliver ctx (s.now t.1) (Handlers.get_repair_history s limit t.0), t);
    shutdown = λ endpoint ctx t.
        (error_of (grpc.deliver ctx (s.now t.1) (answer tt)), (Handlers.shutdown s t.0 t.1, t.1));
  }

-- The context of a command.
abbrev pub background : Context
background = record { deadline = none }

module _ (grpc : Grpc) {W : Type 0} (s : Services W) (traffic : Traffic) (endpoint : Text) where
  -- A running daemon is found by the liveness probe.
  pub probe-served :
      (d : Daemon s) (w : W)
      → probe (served grpc s traffic) background endpoint (d, w) ≡ (true, (d, w))
  unfolding probe served dial
  probe-served d w =
      ap (λ reply. (is_received reply, (d, w)))
        (grpc.prompt (record { deadline = some (_) }) (s.now w) (Handlers.ping s d w) (omega arith))
