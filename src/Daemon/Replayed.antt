-- ===== src/Daemon/Replayed.antt =====
-- What a stream sends that replays the buffer.
use envorca.Prelude.{
  ℕ, ◌+◌, ◌%◌, ◌^◌, ◌≤◌, ◌≡◌, refl, ap, ◌∙◌, Bool, true, Option, List, [], ◌∷◌, ◌++◌, map, length,
  last_n, append-nil, append_assoc, arith,
}
use envorca.Text.{Text}
use envorca.Api.{WireEvent}
use envorca.Events.{
  Event, Subscription, Bus, channel_capacity, stamp, publish, subscribe, unsubscribe, snapshot,
  receive, waiting, dequeue, take_from,
}
use envorca.Events.Replay.{Run, published, subscribed, snapshot-Run}
use envorca.Events.Delivery.{publish_all, stamp_all, waiting-publish_all, subscribe-waiting}
use envorca.Daemon.Stream.{
  Tick, publishes, turn, to_proto_event, send_all, then_send, stream_live, stream_events,
}

abbrev pub publishing : List (ℕ × Event) → List Tick
publishing [] = []
publishing ((now, ev) ∷ es) = publishes now ev ∷ publishing es

abbrev pub turns : List Event → List Tick
turns [] = []
turns (e ∷ es) = turn ∷ turns es

waiting-receive :
    (ch : ℕ) (ss : List Subscription) → waiting ch (map (take_from ch) ss) ≡ dequeue (waiting ch ss)
unfolding waiting take_from
waiting-receive ch [] = refl
waiting-receive ch (s ∷ ss) = ground (arith, waiting-receive ch ss)

publish_all-Run :
    {max : ℕ} (es : List (ℕ × Event)) {b : Bus} {log : List Event}
    → Run max b log
    → Run max (publish_all es b) (log ++ stamp_all b.seq es)
unfolding publish_all stamp_all publish
publish_all-Run [] r = rw (append-nil _) r
publish_all-Run ((now, ev) ∷ es) {b = b} {log = log} r =
    let x = stamp now b.seq ev in
    let rest = stamp_all ((b.seq + 1) % 2 ^ 64) es in
    let e : (log ++ x ∷ []) ++ rest ≡ log ++ x ∷ rest = append_assoc log (x ∷ []) rest in
    rw (← e) (publish_all-Run es (published now ev r))

publish_all-append :
    (es fs : List (ℕ × Event)) (b : Bus)
    → publish_all fs (publish_all es b) ≡ publish_all (es ++ fs) b
unfolding publish_all
publish_all-append [] fs b = refl
publish_all-append ((now, ev) ∷ es) fs b = publish_all-append es fs (publish now ev b)

module _ (format_nano : Option ℕ → Text) where
  abbrev pub accepts : WireEvent → Bool
  accepts e = true

  abbrev pub wire : List Event → List WireEvent
  wire es = map (to_proto_event format_nano accepts) es

  send_all-wire : (es : List Event) → send_all format_nano accepts es ≡ (wire es, true)
  unfolding send_all
  send_all-wire [] = refl
  send_all-wire (e ∷ es) = rw (send_all-wire es) refl

  stream_live-turns :
      (es : List Event) (ch : ℕ) (b : Bus)
      → waiting ch b.subs ≡ es
      → (stream_live format_nano accepts (turns es) ch b).0 ≡ wire es
  unfolding stream_live send_all receive
  stream_live-turns [] ch b h = refl
  stream_live-turns (e ∷ es) ch b h = rw h (
      ap (λ ws. to_proto_event format_nano accepts e ∷ ws)
        (stream_live-turns es ch (receive ch b) (waiting-receive ch b.subs ∙ ap dequeue h)))

  stream_live-publishing :
      (es : List (ℕ × Event)) (ticks : List Tick) (ch : ℕ) (b : Bus)
      → stream_live format_nano accepts (publishing es ++ ticks) ch b
        ≡ stream_live format_nano accepts ticks ch (publish_all es b)
  unfolding stream_live publish_all
  stream_live-publishing [] ticks ch b = refl
  stream_live-publishing ((now, ev) ∷ es) ticks ch b =
      stream_live-publishing es ticks ch (publish now ev b)

  stream_live-all :
      (es : List (ℕ × Event)) (sent : List Event) (ch : ℕ) (b : Bus)
      → waiting ch (publish_all es b).subs ≡ sent
      → (stream_live format_nano accepts (publishing es ++ turns sent) ch b).0 ≡ wire sent
  stream_live-all es sent ch b h =
      rw (stream_live-publishing es (turns sent) ch b)
        (stream_live-turns sent ch (publish_all es b) h)

  then_send-wire :
      (es : List Event) (rest : List WireEvent × Bus) (b : Bus)
      → (then_send format_nano accepts (send_all format_nano accepts es) rest b).0
        ≡ wire es ++ rest.0
  then_send-wire es rest b = rw (send_all-wire es) refl

  -- A stream of a reachable bus with replay, whose Sends succeed. The others publish `es`
  -- between its Subscribe and its Snapshot, then `fs`, together at most 64 events, and select
  -- takes the channel as often. Then it sends the last `max` events published before the
  -- Snapshot, and then all of `es` and `fs` in order: no event published since Subscribe is
  -- lost, and those of `es` that the buffer still holds are sent twice.
  pub stream_events_complete :
      {max : ℕ} {b : Bus} {log : List Event} (es fs : List (ℕ × Event))
      → Run max b log
      → length (es ++ fs) ≤ channel_capacity
      → let live = stamp_all b.seq (es ++ fs) in
        ((stream_events format_nano accepts true es (publishing fs ++ turns live) b).0
          ≡ wire (last_n max (log ++ stamp_all b.seq es)) ++ wire live)
  unfolding stream_events subscribe
  stream_events_complete {max} {b} {log} es fs r h =
      let b' = (subscribe b).1 in
      let ch = (subscribe b).0 in
      let live = stamp_all b.seq (es ++ fs) in
      let (s, w) = subscribe-waiting r in
      let q : waiting ch (publish_all (es ++ fs) b').subs ≡ live =
        waiting-publish_all ch (es ++ fs) b' s (omega (arith, ap length w))
        ∙ ap (λ q. q ++ live) w in
      let old : snapshot (publish_all es b') ≡ last_n max (log ++ stamp_all b.seq es) =
        snapshot-Run (publish_all-Run es (subscribed r)) in
      let rest =
        stream_live format_nano accepts (publishing fs ++ turns live) ch (publish_all es b') in
      then_send-wire (snapshot (publish_all es b')) rest (unsubscribe ch (publish_all es b'))
      ∙ (ap (λ a. wire a ++ rest.0) old
          ∙ ap (λ c. wire (last_n max (log ++ stamp_all b.seq es)) ++ c)
              (stream_live-all fs live ch (publish_all es b')
                (ap (λ bus. waiting ch bus.subs) (publish_all-append es fs b') ∙ q)))
