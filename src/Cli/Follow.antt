-- ===== src/Cli/Follow.antt =====
-- `envorca events` (cli/cmd/envorca/events.go): the loop that receives events and prints them.
use envorca.Prelude.{Bool, not, Option, none, some, List, [], ◌∷◌, ◌++◌, if◌then◌else◌}
use envorca.Text.{Text, bytes}
use envorca.Api.{WireEvent}
use envorca.Cli.Repair.{Response, received, call_failed, Ended}
use envorca.Cli.Commands.{not_running, failed_with}
use envorca.Cli.EventLine.{render_event}
use envorca.Health.{Context}
use envorca.Cli.Calls.{Stubs, probe, dial, stream_events, Ending, closed, cancelled, broken, Stream}

-- The calls that the command makes.
pub record Follower (S : Type 0) : Type 0 where
  pub probe : S → Bool × S
  pub dial : S → Option Text
  pub stream_events : Bool → S → Response Stream × S

-- What an error of Recv makes of the command.
abbrev pub recv_error : Ending → Option Text
recv_error closed = none
recv_error (cancelled e) = none
recv_error (broken e) = some (bytes "event stream: " ++ e)

-- `quoted` is the print of %q.
module _ (quoted : Text → Text) {S : Type 0} (f : Follower S) where
  -- The loop: the lines, and the error with which it ends.
  unfoldable pub receive_loop : List WireEvent → Ending → List Text × Option Text
  receive_loop [] ending = ([], recv_error ending)
  receive_loop (ev ∷ rest) ending =
      let (lines, e) = receive_loop rest ending in (render_event quoted ev ∷ lines, e)

  abbrev pub after_open : Response Stream × S → Ended S
  after_open (call_failed e, s) = failed_with (bytes "open event stream: " ++ e) s
  after_open (received stream, s) =
      let (lines, e) = receive_loop stream.events stream.ending in
      record { lines = lines; error = e; state = s }

  abbrev pub after_dial : Bool → Option Text → S → Ended S
  after_dial replay (some e) s = failed_with (bytes "connect: " ++ e) s
  after_dial replay none s = after_open (f.stream_events replay s)

  unfoldable pub events_command : Bool → S → Ended S
  unfolding receive_loop
  events_command replay s =
      let (alive, s₁) = f.probe s in
      if not alive then failed_with not_running s₁ else after_dial replay (f.dial s₁) s₁

-- The client's calls for the command.
unfoldable pub follower : {S : Type 0} → Stubs S → Context → Text → Follower S
follower stubs parent endpoint = record {
  probe = probe stubs parent endpoint;
  dial = dial stubs parent endpoint;
  stream_events = stream_events stubs parent endpoint;
}
