-- ===== src/Examples/Events.antt =====
-- A bus of two buffered events.
use envorca.Prelude.{ℕ, ◌+◌, ◌-◌, ◌≤◌, ◌≡◌, refl, List, [], ◌∷◌, length, last_n, arith, inl}
use envorca.Text.{Text, bytes}
use envorca.Events.{
  Event, Bus, new, new_event, publish, subscribe, snapshot, waiting, stamp, channel_capacity,
}
use envorca.Events.Replay.{Run, start, published, Numbered, snapshot-Run, snapshot-Numbered}
use envorca.Events.Delivery.{Subscribed}

abbrev pub note : Text → Event
note name = new_event (bytes "info") (bytes "daemon") name []

abbrev pub small : Bus
small = publish 9 (note (bytes "listening")) (publish 8 (note (bytes "starting")) (new 1))

abbrev pub small_log : List Event
small_log = stamp 8 0 (note (bytes "starting")) ∷ stamp 9 1 (note (bytes "listening")) ∷ []

pub small_run : Run 1 small small_log
unfolding publish new
small_run = published 9 (note (bytes "listening")) (published 8 (note (bytes "starting")) start)

abbrev heard : Bus
heard = (subscribe small).1

abbrev pub later : List (ℕ × Event)
later = (10, note (bytes "stopping")) ∷ (11, note (bytes "stopped")) ∷ []

heard-Subscribed : Subscribed 0 heard.subs
unfolding subscribe publish new
heard-Subscribed = inl refl

heard_room : length (waiting 0 heard.subs) + length later ≤ channel_capacity
unfolding subscribe publish new waiting
heard_room = omega arith

snapshot-Run_example : snapshot small ≡ last_n 1 small_log
snapshot-Run_example = snapshot-Run small_run

snapshot-Numbered_example :
    Numbered (small.seq - length (snapshot small)) (snapshot small)
    × (small.seq ≡ length small_log)
    × (length (snapshot small) ≤ 1)
snapshot-Numbered_example = snapshot-Numbered small_run (omega arith)
