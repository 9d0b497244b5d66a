-- ===== src/Events.antt =====
-- The event bus (daemon/internal/events/events.go): a bounded replay buffer and buffered channels.
-- The mutex makes each operation one step, so an interleaving is a sequence of operations.
pub mod Replay
pub mod Delivery
use envorca.Prelude.{
  ℕ, ◌+◌, ◌-◌, ◌%◌, ◌^◌, Bool, true, false, Option, none, some, List, [], ◌∷◌, ◌++◌, map, length,
  drop, filter_by, ltb, ◌==◌, not, if◌then◌else◌,
}
use envorca.Text.{Text}

-- `none` is the zero time. The daemon's field values are all strings.
pub record Event : Type 0 where
  pub seq : ℕ
  pub timestamp : Option ℕ
  pub level : Text
  pub component : Text
  pub name : Text
  pub project : Text
  pub fields : List (Text × Text)

-- An event as the callers of Publish build it.
abbrev pub new_event : Text → Text → Text → List (Text × Text) → Event
new_event level component name fs = record {
  seq = 0;
  timestamp = none;
  level = level;
  component = component;
  name = name;
  project = [];
  fields = fs;
}

-- A channel and the events that wait in it.
pub record Subscription : Type 0 where
  pub channel : ℕ
  pub queue : List Event

-- `next_channel` stands for the identity that `make` gives a new channel.
pub record Bus : Type 0 where
  pub subs : List Subscription
  pub buffer : List Event
  pub max : ℕ
  pub seq : ℕ
  pub next_channel : ℕ

abbrev pub channel_capacity : ℕ
channel_capacity = 64

unfoldable pub new : ℕ → Bus
new max = record { subs = []; buffer = []; max = max; seq = 0; next_channel = 0 }

abbrev pub or_now : ℕ → Option ℕ → Option ℕ
or_now now none = some now
or_now now (some t) = some t

-- The event that Publish records, when the bus has counted `n` events.
unfoldable pub stamp : ℕ → ℕ → Event → Event
stamp now n ev = record ev { timestamp = or_now now ev.timestamp; seq = (n + 1) % 2 ^ 64 }

-- The select of Publish: a full channel is passed over.
unfoldable pub offer : Event → Subscription → Subscription
offer ev s =
    if ltb (length s.queue) channel_capacity then record s { queue = s.queue ++ ev ∷ [] } else s

-- The events that the buffer keeps.
unfoldable pub retain : ℕ → List Event → List Event
retain max buffer = if ltb max (length buffer) then drop (length buffer - max) buffer else buffer

-- `now` is the clock's reading.
unfoldable pub publish : ℕ → Event → Bus → Bus
unfolding stamp offer retain
publish now ev b =
    let ev' = stamp now b.seq ev in
    record b {
      seq = (b.seq + 1) % 2 ^ 64;
      buffer = retain b.max (b.buffer ++ ev' ∷ []);
      subs = map (offer ev') b.subs;
    }

-- The channel, and the bus that sends to it.
unfoldable pub subscribe : Bus → ℕ × Bus
subscribe b = (
  b.next_channel,
  record b {
    subs = b.subs ++ record { channel = b.next_channel; queue = [] } ∷ [];
    next_channel = b.next_channel + 1;
  },
)

-- The function that Subscribe returns.
unfoldable pub unsubscribe : ℕ → Bus → Bus
unsubscribe ch b = record b { subs = filter_by (λ s. not (s.channel == ch)) b.subs }

unfoldable pub snapshot : Bus → List Event
snapshot b = b.buffer

-- A receive from a channel takes its first event.
abbrev pub dequeue : List Event → List Event
dequeue [] = []
dequeue (e ∷ es) = es

unfoldable pub take_from : ℕ → Subscription → Subscription
take_from ch s = if s.channel == ch then record s { queue = dequeue s.queue } else s

unfoldable pub receive : ℕ → Bus → Bus
unfolding take_from
receive ch b = record b { subs = map (take_from ch) b.subs }

-- What waits in a channel.
unfoldable pub waiting : ℕ → List Subscription → List Event
waiting ch [] = []
waiting ch (s ∷ ss) = if s.channel == ch then s.queue else waiting ch ss
