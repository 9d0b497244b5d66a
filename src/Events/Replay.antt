-- ===== src/Events/Replay.antt =====
-- The bus (daemon/internal/events/events.go) against an unbounded log of what was published.
use native.Mathlib.Nat.{add-zero}
use envorca.Prelude.{
  ℕ, zero, suc, ◌+◌, ◌-◌, ◌^◌, ◌≤◌, ◌<◌, ◌≡◌, refl, sym, ap, ◌∙◌, List, [], ◌∷◌, ◌++◌, length, drop,
  length-append, length-drop, last_n, last_n-append_last, drop-nil, arith, Bool-cases, inl, inr,
  ltb,
}
use envorca.Events.{
  Event, Subscription, Bus, new, stamp, retain, publish, subscribe, unsubscribe, receive, snapshot,
}

-- What can happen to a bus, with the log of all the events that Publish stamped.
pub data Run (max : ℕ) : Bus → List Event → Type 0 where
  start : Run max (new max) []
  published :
      {b : Bus} {log : List Event} (now : ℕ) (ev : Event)
      → Run max b log
      → Run max (publish now ev b) (log ++ stamp now b.seq ev ∷ [])
  subscribed : {b : Bus} {log : List Event} → Run max b log → Run max (subscribe b).1 log
  unsubscribed :
      {b : Bus} {log : List Event} (ch : ℕ) → Run max b log → Run max (unsubscribe ch b) log
  received : {b : Bus} {log : List Event} (ch : ℕ) → Run max b log → Run max (receive ch b) log

-- Numbered one by one from `suc n` on.
abbrev pub Numbered : ℕ → List Event → Type 0
Numbered n [] = Unit
Numbered n (e ∷ es) = (e.seq ≡ suc n) × Numbered (suc n) es

retain-last_n : (n : ℕ) (xs : List Event) → retain n xs ≡ last_n n xs
unfolding retain
retain-last_n n xs = elim (Bool-cases (ltb n (length xs))) [
  | inl t ↦ rw t
  | inr f ↦ rw f (ap (λ k. drop k xs) (let e : 0 ≡ length xs - n = ground arith in e))
]

retain-log :
    (n : ℕ) (log : List Event) (e : Event)
    → retain n (last_n n log ++ e ∷ []) ≡ last_n n (log ++ e ∷ [])
retain-log n log e = retain-last_n n (last_n n log ++ e ∷ []) ∙ last_n-append_last n log e

Numbered-append :
    (n : ℕ) (es : List Event) (e : Event)
    → Numbered n es
    → e.seq ≡ suc (n + length es)
    → Numbered n (es ++ e ∷ [])
Numbered-append n [] e h q = (omega arith, tt)
Numbered-append n (f ∷ es) e (p, h) q = (p, Numbered-append (suc n) es e h (omega arith))

-- What the bus remembers of its log.
record Remembers (max : ℕ) (b : Bus) (log : List Event) : Type 0 where
  max_kept : b.max ≡ max
  buffer_end : b.buffer ≡ last_n max log
  counted : length log < 2 ^ 64 → b.seq ≡ length log
  numbered : length log < 2 ^ 64 → Numbered 0 log

new-Remembers : (max : ℕ) → Remembers max (new max) []
unfolding new
new-Remembers max = record {
  max_kept = refl;
  buffer_end = sym (drop-nil (0 - max));
  counted = λ h. refl;
  numbered = λ h. tt;
}

-- Only Publish touches the buffer and the counter.
with_subs :
    {max : ℕ} {b : Bus} {log : List Event} (ss : List Subscription) (n : ℕ)
    → Remembers max b log
    → Remembers max (record b { subs = ss; next_channel = n }) log
with_subs ss n h = record {
  max_kept = h.max_kept;
  buffer_end = h.buffer_end;
  counted = h.counted;
  numbered = h.numbered;
}

stamp-seq : (now n : ℕ) (ev : Event) → suc n < 2 ^ 64 → (stamp now n ev).seq ≡ suc n
unfolding stamp
stamp-seq now n ev h = omega arith

publish-Remembers :
    {max : ℕ} {b : Bus} {log : List Event} (now : ℕ) (ev : Event)
    → Remembers max b log
    → Remembers max (publish now ev b) (log ++ stamp now b.seq ev ∷ [])
unfolding publish
publish-Remembers {max} {b} {log} now ev h =
    let e = stamp now b.seq ev in
    let size : length (log ++ e ∷ []) ≡ suc (length log) =
      omega (arith, length-append log (e ∷ [])) in
    record {
      max_kept = h.max_kept;
      buffer_end = rw (h.max_kept, h.buffer_end) (retain-log max log e);
      counted = λ fits. let c = h.counted (omega arith) in omega arith;
      numbered = λ fits.
          let c = h.counted (omega arith) in
          Numbered-append 0 log e (h.numbered (omega arith))
            (omega (arith, stamp-seq now b.seq ev (omega arith)));
    }

Run-Remembers : {max : ℕ} {b : Bus} {log : List Event} → Run max b log → Remembers max b log
unfolding subscribe unsubscribe receive
Run-Remembers {max = max} start = new-Remembers max
Run-Remembers (published now ev r) = publish-Remembers now ev (Run-Remembers r)
Run-Remembers (subscribed r) = with_subs _ _ (Run-Remembers r)
Run-Remembers (unsubscribed ch r) = with_subs _ _ (Run-Remembers r)
Run-Remembers (received ch r) = with_subs _ _ (Run-Remembers r)

-- Whatever is published, subscribed, unsubscribed and received, in whatever order: Snapshot returns
-- the last `max` events of all that were published, oldest first.
pub snapshot-Run :
    {max : ℕ} {b : Bus} {log : List Event} → Run max b log → snapshot b ≡ last_n max log
unfolding snapshot
snapshot-Run r = (Run-Remembers r).buffer_end

Numbered-drop : (n k : ℕ) (es : List Event) → Numbered k es → Numbered (k + n) (drop n es)
Numbered-drop zero k es h = rw add-zero h
Numbered-drop (suc n) k [] h = tt
Numbered-drop (suc n) k (e ∷ es) (_, h) =
    let same : suc k + n ≡ k + suc n = omega arith in rw (← same) (Numbered-drop n (suc k) es h)

-- As long as fewer than 2^64 events were published, the events of a Snapshot carry consecutive sequence
-- numbers, the last of them the number of events published so far.
pub snapshot-Numbered :
    {max : ℕ} {b : Bus} {log : List Event}
    → Run max b log
    → length log < 2 ^ 64
    → Numbered (b.seq - length (snapshot b)) (snapshot b)
      × (b.seq ≡ length log)
      × (length (snapshot b) ≤ max)
snapshot-Numbered {max} {b} {log} r fits =
    let h = Run-Remembers r in
    let c = h.counted fits in
    let n = length log - max in
    let size = length-drop n log in
    let first : b.seq - length (drop n log) ≡ 0 + n = omega arith in
    rw (snapshot-Run r, first) (Numbered-drop n 0 log (h.numbered fits), c, omega arith)
