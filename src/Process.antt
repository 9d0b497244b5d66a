-- ===== src/Process.antt =====
-- The daemon's process (run in daemon/cmd/envorcad/main.go): start-up, the wait for a reason to stop, and
-- the stop. Each step of start-up that can fail is given by its error.
pub mod Deeds
pub mod Stopping
pub mod Life
pub mod Draining
pub mod Successor
use envorca.Prelude.{ℕ, Bool, true, false, Option, none, some, List, [], ◌∷◌, ◌++◌, if◌then◌else◌}
use envorca.Text.{Text, bytes}
use envorca.Events.{Event, Bus, new, new_event, publish}

pub record Process : Type 0 where
  pub bus : Bus
  pub db_open : Bool
  pub endpoint_open : Bool
  pub socket_file : Bool
  pub pid_file : Bool
  pub serving : Bool
  pub stopped : Bool

-- `unix` says that the endpoint is a Unix socket, which has a file, and not a pipe of Windows, for which Cleanup does
-- nothing. A file of the pid that an earlier process left is there from the start; `pid_left` says whether a write that fails
-- leaves one.
pub record Startup : Type 0 where
  pub version : Text
  pub state_dir : Text
  pub endpoint : Text
  pub config_failed : Option Text
  pub level_failed : Option Text
  pub log_failed : Option Text
  pub open_failed : Option Text
  pub migrate_failed : Option Text
  pub registry_failed : Option Text
  pub listen_failed : Option Text
  pub pid_failed : Option Text
  pub unix : Bool
  pub pid_before : Bool
  pub pid_left : Bool

pub data Started : Type 0 where
  failed : Text → Process → Started
  running : Process → Started

-- What the select at the end of run takes: the server's error, a signal, or the cancelled context.
pub data Wake : Type 0 where
  serve_failed : Text → Wake
  signalled : Wake
  asked : Wake

-- What other goroutines do meanwhile: the one that serves announces the endpoint, and handlers publish events.
pub data Deed : Type 0 where
  announcing : Deed
  handling : Event → Deed

-- These come before the reason to stop, between it and the stop, while GracefulStop waits, and between the stop and
-- the return of run.
pub record Meanwhile : Type 0 where
  pub waiting : List Deed
  pub before_stop : List Deed
  pub draining : List Deed
  pub after_stop : List Deed

abbrev pub fresh : Process
fresh = record {
  bus = new 256;
  db_open = false;
  endpoint_open = false;
  socket_file = false;
  pid_file = false;
  serving = false;
  stopped = false;
}

abbrev pub unless_failed : Option Text → Process → Started → Started
unless_failed none p rest = rest
unless_failed (some e) p rest = failed e p

abbrev pub said : Text → Option Text → Option Text
said what none = none
said what (some e) = some (what ++ (bytes ": " ++ e))

abbrev pub reason : Wake → Text
reason (serve_failed e) = bytes "serve_failure"
reason signalled = bytes "signal"
reason asked = bytes "shutdown_request"

abbrev pub exit_error : Wake → Option Text
exit_error (serve_failed e) = some (bytes "grpc serve: " ++ e)
exit_error signalled = none
exit_error asked = none

-- `clock` is the time at which an event is published, by the number of events before it.
module _ (clock : ℕ → ℕ) where
  unfoldable pub say : Text → List (Text × Text) → Process → Process
  say name fs p = record p {
    bus = publish (clock p.bus.seq) (new_event (bytes "info") (bytes "daemon") name fs) p.bus;
  }

  -- The stop up to GracefulStop, which takes no more calls and closes the listener at once; with it the file of a
  -- Unix socket goes.
  unfoldable pub begin_stop : Text → Process → Process
  unfolding say
  begin_stop why p = record (say (bytes "stopping") ((bytes "reason", why) ∷ []) p) {
    serving = false;
    endpoint_open = false;
    socket_file = false;
  }

  -- ipc.Cleanup, which removes the file of a Unix socket, whoever made it.
  abbrev pub cleaned : Process → Process
  cleaned p = record p { socket_file = false }

  -- The stop from when GracefulStop returns: no call is left.
  unfoldable pub end_stop : Text → Process → Process
  unfolding say
  end_stop why p =
      record (say (bytes "stopped") ((bytes "reason", why) ∷ [])
        (record (cleaned p) { db_open = false })) { stopped = true }

  -- The goroutine that serves: it announces the endpoint.
  unfoldable pub announce : Text → Process → Process
  unfolding say
  announce endpoint p = say (bytes "listening") ((bytes "endpoint", endpoint) ∷ []) p

  abbrev pub perform : Text → Deed → Process → Process
  perform endpoint announcing p = announce endpoint p
  perform endpoint (handling ev) p = record p { bus = publish (clock p.bus.seq) ev p.bus }

  unfoldable pub perform_all : Text → List Deed → Process → Process
  unfolding announce
  perform_all endpoint [] p = p
  perform_all endpoint (d ∷ ds) p = perform_all endpoint ds (perform endpoint d p)

  -- What sync.Once runs; `draining` happens while GracefulStop waits.
  unfoldable pub stop_now : Text → List Deed → Text → Process → Process
  unfolding begin_stop end_stop perform_all
  stop_now endpoint draining why p = end_stop why (perform_all endpoint draining (begin_stop why p))

  -- The closure `stop`.
  unfoldable pub stop : Text → List Deed → Text → Process → Process
  unfolding stop_now
  stop endpoint draining why p = if p.stopped then p else stop_now endpoint draining why p

  -- The deferred db.Close.
  abbrev pub closed : Process → Process
  closed p = record p { db_open = false }

  unfoldable pub start_up : Startup → Started
  unfolding say
  start_up st =
      let blank = record fresh { pid_file = st.pid_before } in
      let begun =
        say (bytes "starting")
          ((bytes "version", st.version) ∷ (bytes "state_dir", st.state_dir) ∷ []) blank in
      let opened = record begun { db_open = true } in
      let listening = record opened { endpoint_open = true; socket_file = st.unix } in
      let unwritten = record (closed listening) { pid_file = st.pid_left } in
      let ready = record listening { pid_file = true; serving = true } in
      unless_failed st.config_failed blank (
        unless_failed st.level_failed blank (
          unless_failed st.log_failed blank (
            unless_failed st.open_failed begun (
              unless_failed (said (bytes "migrate state") st.migrate_failed) (closed opened) (
                unless_failed (said (bytes "diagnosis registry") st.registry_failed) (closed opened)
                  (unless_failed (said (bytes "listen " ++ st.endpoint) st.listen_failed)
                    (closed opened)
                    (unless_failed (said (bytes "write pid file") st.pid_failed) unwritten
                      (running ready))))))))

  -- What ends the wait: the handler Shutdown publishes its event before it cancels the context.
  abbrev pub woken : Wake → Process → Process
  woken (serve_failed e) p = p
  woken signalled p = p
  woken asked p = say (bytes "shutdown_requested") [] p

  -- run: the error that it returns, and the process when the deferred calls are done.
  abbrev pub finish : Text → Wake → Meanwhile → Started → Option Text × Process
  finish endpoint wake others (failed e p) = (some e, p)
  finish endpoint wake others (running p) =
      let waited =
        perform_all endpoint others.before_stop
          (woken wake (perform_all endpoint others.waiting p)) in
      let stopped_now = stop endpoint others.draining (reason wake) waited in
      (
        exit_error wake,
        record (perform_all endpoint others.after_stop stopped_now) {
          db_open = false;
          pid_file = false;
        },
      )

  unfoldable pub run : Startup → Wake → Meanwhile → Option Text × Process
  unfolding start_up stop say perform_all
  run st wake others = finish st.endpoint wake others (start_up st)
