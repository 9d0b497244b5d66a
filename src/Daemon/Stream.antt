-- ===== src/Daemon/Stream.antt =====
-- StreamEvents: the replay and the loop of one stream. The other goroutines publish in between.
use envorca.Prelude.{ℕ, Bool, true, false, Option, List, [], ◌∷◌, ◌++◌, if◌then◌else◌}
use envorca.Text.{Text}
use envorca.Api.{WireEvent}
use envorca.Events.{Event, Bus, publish, subscribe, unsubscribe, snapshot, receive, waiting}
use envorca.Events.Delivery.{publish_all}

-- What happens while the loop runs: another goroutine publishes at a time, or select takes the channel.
pub data Tick : Type 0 where
  publishes : ℕ → Event → Tick
  turn : Tick

-- `format_nano` prints a time as RFC3339Nano, and `send` says whether a Send succeeds.
module _ (format_nano : Option ℕ → Text) (send : WireEvent → Bool) where
  unfoldable pub to_proto_event : Event → WireEvent
  to_proto_event ev = record {
    seq = ev.seq;
    timestamp = format_nano ev.timestamp;
    level = ev.level;
    component = ev.component;
    name = ev.name;
    project = ev.project;
    fields = ev.fields;
  }

  -- The events that were sent, and whether the last Send succeeded.
  unfoldable pub send_all : List Event → List WireEvent × Bool
  unfolding to_proto_event
  send_all [] = ([], true)
  send_all (ev ∷ evs) =
      let (rest, sound) = send_all evs in
      if send (to_proto_event ev) then (to_proto_event ev ∷ rest, sound) else ([], false)

  abbrev pub sent_one : List Event → List WireEvent × Bool
  sent_one [] = ([], true)
  sent_one (ev ∷ queue) = send_all (ev ∷ [])

  abbrev pub then_send : List WireEvent × Bool → List WireEvent × Bus → Bus → List WireEvent × Bus
  then_send (sent, true) (rest, b) stopped = (sent ++ rest, b)
  then_send (sent, false) (rest, b) stopped = (sent, stopped)

  -- The loop; the client disconnects after the ticks. A turn at an empty channel waits.
  unfoldable pub stream_live : List Tick → ℕ → Bus → List WireEvent × Bus
  unfolding send_all
  stream_live [] ch b = ([], unsubscribe ch b)
  stream_live (publishes now ev ∷ ticks) ch b = stream_live ticks ch (publish now ev b)
  stream_live (turn ∷ ticks) ch b =
      then_send (sent_one (waiting ch b.subs)) (stream_live ticks ch (receive ch b))
        (unsubscribe ch (receive ch b))

  abbrev pub replayed : Bool → Bus → List WireEvent × Bool
  replayed true b = send_all (snapshot b)
  replayed false b = ([], true)

  -- `between` is what the others publish after Subscribe and before Snapshot.
  unfoldable pub stream_events : Bool → List (ℕ × Event) → List Tick → Bus → List WireEvent × Bus
  unfolding stream_live
  stream_events replay between ticks b =
      let (ch, b') = subscribe b in
      let b'' = publish_all between b' in
      then_send (replayed replay b'') (stream_live ticks ch b'') (unsubscribe ch b'')
