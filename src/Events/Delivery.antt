-- ===== src/Events/Delivery.antt =====
-- The channels of the bus (Publish and Subscribe of daemon/internal/events/events.go).
use envorca.Prelude.{
  ℕ, ◌+◌, ◌%◌, ◌^◌, ◌≤◌, ◌<◌, ◌≡◌, refl, ap, ◌∙◌, sym, true, List, [], ◌∷◌, ◌++◌, map, length,
  length-append, append-nil, append_assoc, All, All-append, All-map, All-weaken, All-filter_by, inl,
  inr, ltb, if◌then◌else◌, arith, ◌⊎◌,
}
use envorca.Events.{
  Event, Subscription, Bus, channel_capacity, new, stamp, offer, publish, subscribe, unsubscribe,
  take_from, receive, dequeue, waiting,
}
use envorca.Events.Replay.{Run, start, published, subscribed, unsubscribed, received}

-- Publish, for events one after another with the clock's readings.
unfoldable pub publish_all : List (ℕ × Event) → Bus → Bus
publish_all [] b = b
publish_all ((now, ev) ∷ es) b = publish_all es (publish now ev b)

-- The events that this records, when the bus has counted `n` events.
unfoldable pub stamp_all : ℕ → List (ℕ × Event) → List Event
stamp_all n [] = []
stamp_all n ((now, ev) ∷ es) = stamp now n ev ∷ stamp_all ((n + 1) % 2 ^ 64) es

abbrev pub Subscribed : ℕ → List Subscription → Type 0
Subscribed ch [] = ⊥
Subscribed ch (s ∷ ss) = (s.channel ≡ ch) ⊎ Subscribed ch ss

-- A channel after an event was offered to it.
abbrev pub with_room : List Event → Event → List Event
with_room queue e = if ltb (length queue) channel_capacity then queue ++ e ∷ [] else queue

offer-channel : (e : Event) (s : Subscription) → (offer e s).channel ≡ s.channel
unfolding offer
offer-channel e s = ground arith

offer-queue : (e : Event) (s : Subscription) → (offer e s).queue ≡ with_room s.queue e
unfolding offer
offer-queue e s = ground arith

waiting-offer :
    (ch : ℕ) (e : Event) (ss : List Subscription)
    → Subscribed ch ss
    → waiting ch (map (offer e) ss) ≡ with_room (waiting ch ss) e
unfolding waiting
waiting-offer ch e [] h = absurd h
waiting-offer ch e (s ∷ ss) (inl p) = ground (arith, offer-channel e s, offer-queue e s)
waiting-offer ch e (s ∷ ss) (inr k) =
    ground (arith, offer-channel e s, offer-queue e s, waiting-offer ch e ss k)

Subscribed-offer :
    (ch : ℕ) (e : Event) (ss : List Subscription)
    → Subscribed ch ss
    → Subscribed ch (map (offer e) ss)
Subscribed-offer ch e [] h = h
Subscribed-offer ch e (s ∷ ss) (inl p) = inl (offer-channel e s ∙ p)
Subscribed-offer ch e (s ∷ ss) (inr h) = inr (Subscribed-offer ch e ss h)

with_room_lem :
    (queue : List Event) (e : Event)
    → ltb (length queue) channel_capacity ≡ true
    → with_room queue e ≡ queue ++ e ∷ []
with_room_lem queue e h = rw h

-- A subscriber with room for `es` gets all of them, in order, behind what waits for it already.
pub waiting-publish_all :
    (ch : ℕ) (es : List (ℕ × Event)) (b : Bus)
    → Subscribed ch b.subs
    → length (waiting ch b.subs) + length es ≤ channel_capacity
    → waiting ch (publish_all es b).subs ≡ waiting ch b.subs ++ stamp_all b.seq es
unfolding publish_all stamp_all publish
waiting-publish_all ch [] b s h = sym (append-nil _)
waiting-publish_all ch ((now, ev) ∷ es) b s h =
    let e = stamp now b.seq ev in
    let queue = waiting ch b.subs in
    let room : ltb (length queue) channel_capacity ≡ true = ground arith in
    let next : waiting ch (publish now ev b).subs ≡ queue ++ e ∷ [] =
      waiting-offer ch e b.subs s ∙ with_room_lem queue e room in
    let rest =
      waiting-publish_all ch es (publish now ev b) (Subscribed-offer ch e b.subs s)
        (omega (arith, ap length next, length-append queue (e ∷ []))) in
    rest ∙ ap (λ q. q ++ stamp_all ((b.seq + 1) % 2 ^ 64) es) next ∙ append_assoc queue (e ∷ []) _

-- What every reachable bus keeps: channels hold at most their capacity, and a channel that `make`
-- gives next is none of those in use.
record IsSound (b : Bus) : Type 0 where
  fits : All (λ s. length s.queue ≤ channel_capacity) b.subs
  fresh : All (λ s. s.channel < b.next_channel) b.subs

offer-fits :
    (e : Event) (ss : List Subscription)
    → All (λ s. length s.queue ≤ channel_capacity) ss
    → All (λ s. length s.queue ≤ channel_capacity) (map (offer e) ss)
unfolding offer
offer-fits e [] h = tt
offer-fits e (s ∷ ss) (p, h) = (ground (arith, length-append s.queue (e ∷ [])), offer-fits e ss h)

offer-fresh :
    (e : Event) (n : ℕ) (ss : List Subscription)
    → All (λ s. s.channel < n) ss
    → All (λ s. s.channel < n) (map (offer e) ss)
offer-fresh e n [] h = tt
offer-fresh e n (s ∷ ss) (p, h) = (rw (offer-channel e s) p, offer-fresh e n ss h)

length-dequeue : (es : List Event) → length (dequeue es) ≤ length es
length-dequeue [] = omega arith
length-dequeue (e ∷ es) = omega arith

take_from-fits :
    (ch : ℕ) (s : Subscription)
    → length s.queue ≤ channel_capacity
    → length (take_from ch s).queue ≤ channel_capacity
unfolding take_from
take_from-fits ch s h = ground (arith, length-dequeue s.queue)

take_from-channel : (ch : ℕ) (s : Subscription) → (take_from ch s).channel ≡ s.channel
unfolding take_from
take_from-channel ch s = ground arith

Run-IsSound : {max : ℕ} {b : Bus} {log : List Event} → Run max b log → IsSound b
unfolding new publish subscribe unsubscribe receive
Run-IsSound start = record { fits = tt; fresh = tt }
Run-IsSound (published {b = b} now ev r) =
    let h = Run-IsSound r in
    record {
      fits = offer-fits _ b.subs h.fits;
      fresh = offer-fresh _ b.next_channel b.subs h.fresh;
    }
Run-IsSound (subscribed {b = b} r) =
    let h = Run-IsSound r in
    record {
      fits = All-append _ b.subs _ h.fits (omega arith, tt);
      fresh =
          All-append _ b.subs _
            (All-weaken (λ s. s.channel < b.next_channel) _ b.subs (λ s q. omega arith) h.fresh)
            (omega arith, tt);
    }
Run-IsSound (unsubscribed {b = b} ch r) =
    let h = Run-IsSound r in
    record { fits = All-filter_by _ _ b.subs h.fits; fresh = All-filter_by _ _ b.subs h.fresh }
Run-IsSound (received {b = b} ch r) =
    let h = Run-IsSound r in
    record {
      fits = All-map _ (take_from ch) b.subs (take_from-fits ch) h.fits;
      fresh = All-map _ (take_from ch) b.subs (λ s q. rw (take_from-channel ch s) q) h.fresh;
    }

-- In every reachable bus a channel holds at most 64 events.
pub Run-capacity :
    {max : ℕ} {b : Bus} {log : List Event}
    → Run max b log
    → All (λ s. length s.queue ≤ channel_capacity) b.subs
Run-capacity r = (Run-IsSound r).fits

waiting_absent :
    (ch : ℕ) (ss : List Subscription)
    → All (λ s. s.channel < ch) ss
    → waiting ch (ss ++ record { channel = ch; queue = [] } ∷ []) ≡ []
unfolding waiting
waiting_absent ch [] h = ground arith
waiting_absent ch (s ∷ ss) (p, h) = ground (arith, waiting_absent ch ss h)

Subscribed-last :
    (ch : ℕ) (ss : List Subscription)
    → Subscribed ch (ss ++ record { channel = ch; queue = [] } ∷ [])
Subscribed-last ch [] = inl refl
Subscribed-last ch (s ∷ ss) = inr (Subscribed-last ch ss)

-- The channel that Subscribe returns on a reachable bus is subscribed, and nothing waits in it.
pub subscribe-waiting :
    {max : ℕ} {b : Bus} {log : List Event}
    → Run max b log
    → Subscribed (subscribe b).0 (subscribe b).1.subs
      × (waiting (subscribe b).0 (subscribe b).1.subs ≡ [])
unfolding subscribe
subscribe-waiting {b = b} r = (
  Subscribed-last b.next_channel b.subs,
  waiting_absent b.next_channel b.subs (Run-IsSound r).fresh,
)
