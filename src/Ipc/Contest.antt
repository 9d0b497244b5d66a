-- ===== src/Ipc/Contest.antt =====
-- What becomes of two processes that start on one endpoint at the same time.
use envorca.Prelude.{
  ℕ, ◌≤◌, ◌≡◌, refl, ap, ◌∙◌, ◌⊎◌, inl, inr, Bool, true, false, Option, List, [], ◌∷◌, ◌++◌, arith,
}
use envorca.Text.{Text}
use envorca.Ipc.{Node, absent, leftover, served, unheard, Sockets, answers, dial, cleanup, listen}
use envorca.Ipc.Exclusive.{put_node_same, listen_busy, listen_free}
use envorca.Ipc.Race.{
  Stage, outside, unanswered, cleared, listening, refused, advance, Race, turn, race, starting,
  refusal, turns_of, calls_left, race-calls_left,
}

-- A process that has not removed anything, and a node that nobody answers on.
data Early : Stage → Type 0 where
  at_dial : Early outside
  at_remove : Early unanswered

data Silent : Node → Type 0 where
  no_file : Silent absent
  old_file : Silent leftover
  slow_owner : {p : ℕ} → Silent (unheard p)

-- What holds between any two calls: nobody listens yet, or the endpoint is one's who listens on it, or
-- who listened on it has lost its file to one that is about to bind.
data Sound (a b : ℕ) : Race → Type 0 where
  both_early :
      {x y : Stage} {n : Node}
      → Early x
      → Early y
      → Silent n
      → Sound a b (record { first = x; second = y; node = n })
  first_cleared :
      {y : Stage} → Early y → Sound a b (record { first = cleared; second = y; node = absent })
  second_cleared :
      {x : Stage} → Early x → Sound a b (record { first = x; second = cleared; node = absent })
  both_cleared : Sound a b (record { first = cleared; second = cleared; node = absent })
  first_holds : (y : Stage) → Sound a b (record { first = listening; second = y; node = served a })
  second_holds : (x : Stage) → Sound a b (record { first = x; second = listening; node = served b })
  first_lost : Sound a b (record { first = listening; second = cleared; node = absent })
  second_lost : Sound a b (record { first = cleared; second = listening; node = absent })

module _ (a b : ℕ) where
  first-Sound : {r : Race} → Sound a b r → Sound a b (turn a b true r)
  unfolding turn advance
  first-Sound (both_early at_dial y no_file) = both_early at_remove y no_file
  first-Sound (both_early at_dial y old_file) = both_early at_remove y old_file
  first-Sound (both_early at_dial y slow_owner) = both_early at_remove y slow_owner
  first-Sound (both_early at_remove y n) = first_cleared y
  first-Sound (first_cleared {y} e) = first_holds y
  first-Sound (second_cleared at_dial) = second_cleared at_remove
  first-Sound (second_cleared at_remove) = both_cleared
  first-Sound both_cleared = first_holds cleared
  first-Sound (first_holds y) = first_holds y
  first-Sound (second_holds outside) = second_holds (refused _)
  first-Sound (second_holds unanswered) = second_lost
  first-Sound (second_holds cleared) = second_holds (refused _)
  first-Sound (second_holds listening) = second_holds listening
  first-Sound (second_holds (refused e)) = second_holds (refused e)
  first-Sound first_lost = first_lost
  first-Sound second_lost = first_holds listening

  second-Sound : {r : Race} → Sound a b r → Sound a b (turn a b false r)
  unfolding turn advance
  second-Sound (both_early x at_dial no_file) = both_early x at_remove no_file
  second-Sound (both_early x at_dial old_file) = both_early x at_remove old_file
  second-Sound (both_early x at_dial slow_owner) = both_early x at_remove slow_owner
  second-Sound (both_early x at_remove n) = second_cleared x
  second-Sound (second_cleared {x} e) = second_holds x
  second-Sound (first_cleared at_dial) = first_cleared at_remove
  second-Sound (first_cleared at_remove) = both_cleared
  second-Sound both_cleared = second_holds cleared
  second-Sound (second_holds x) = second_holds x
  second-Sound (first_holds outside) = first_holds (refused _)
  second-Sound (first_holds unanswered) = first_lost
  second-Sound (first_holds cleared) = first_holds (refused _)
  second-Sound (first_holds listening) = first_holds listening
  second-Sound (first_holds (refused e)) = first_holds (refused e)
  second-Sound first_lost = second_holds listening
  second-Sound second_lost = second_lost

  race-Sound : (ts : List Bool) {r : Race} → Sound a b r → Sound a b (race a b ts r)
  unfolding race
  race-Sound [] sound = sound
  race-Sound (true ∷ ts) sound = race-Sound ts (first-Sound sound)
  race-Sound (false ∷ ts) sound = race-Sound ts (second-Sound sound)

  -- Somebody who listens on the endpoint is the one that is reached there.
  abbrev pub Reached : Race → Type 0
  Reached r =
      ((r.first ≡ listening) × (r.node ≡ served a)) ⊎ ((r.second ≡ listening) × (r.node ≡ served b))

  sound_end :
      {r : Race} → Sound a b r → calls_left r.first ≤ 0 → calls_left r.second ≤ 0 → Reached r
  sound_end (both_early at_dial y n) p q = absurd (omega (arith, p))
  sound_end (both_early at_remove y n) p q = absurd (omega (arith, p))
  sound_end (first_cleared y) p q = absurd (omega (arith, p))
  sound_end (second_cleared x) p q = absurd (omega (arith, q))
  sound_end both_cleared p q = absurd (omega (arith, p))
  sound_end (first_holds y) p q = inl (refl, refl)
  sound_end (second_holds x) p q = inr (refl, refl)
  sound_end first_lost p q = absurd (omega (arith, q))
  sound_end second_lost p q = absurd (omega (arith, p))

starting-Sound : (a b : ℕ) (node : Node) → answers node ≡ false → Sound a b (starting node)
starting-Sound a b absent h = both_early at_dial at_dial no_file
starting-Sound a b leftover h = both_early at_dial at_dial old_file
starting-Sound a b (unheard p) h = both_early at_dial at_dial slow_owner
starting-Sound a b (served p) h = absurd (ground arith)

race-append :
    (a b : ℕ) (us vs : List Bool) (r : Race) → race a b (us ++ vs) r ≡ race a b vs (race a b us r)
unfolding race
race-append a b [] vs r = refl
race-append a b (u ∷ us) vs r = race-append a b us vs (turn a b u r)

-- The first process removes the file and binds, and then the second does so.
abbrev pub overtaking : List Bool
overtaking = true ∷ true ∷ false ∷ false ∷ []

overtaken :
    (a b : ℕ) (x y : Stage) (n : Node)
    → x ≡ unanswered
    → y ≡ unanswered
    → race a b overtaking (record { first = x; second = y; node = n })
      ≡ record { first = listening; second = listening; node = served b }
unfolding race turn advance
overtaken a b x y n h k = rw (h, k) refl

-- A result of listen that the three calls give, with what they leave at the endpoint.
abbrev pub Alone : ℕ → Node → Option Text × Sockets → Text → Type 0
Alone me n (e, after) endpoint =
    let (x₁, n₁) = advance me outside n in
    let (x₂, n₂) = advance me x₁ n₁ in
    let (x₃, n₃) = advance me x₂ n₂ in (after endpoint ≡ n₃) × (e ≡ refusal x₃)

after_dial :
    (me : ℕ) (endpoint : Text) (sockets : Sockets) (writable : Text → Bool) (n : Node)
    → writable endpoint ≡ true
    → sockets endpoint ≡ n
    → Alone me n (listen writable me endpoint sockets) endpoint
unfolding advance dial
after_dial me endpoint sockets writable absent can h =
    rw (listen_free writable me endpoint sockets can (ap answers h))
      (put_node_same endpoint (served me) (cleanup endpoint sockets), refl)
after_dial me endpoint sockets writable leftover can h =
    rw (listen_free writable me endpoint sockets can (ap answers h))
      (put_node_same endpoint (served me) (cleanup endpoint sockets), refl)
after_dial me endpoint sockets writable (unheard p) can h =
    rw (listen_free writable me endpoint sockets can (ap answers h))
      (put_node_same endpoint (served me) (cleanup endpoint sockets), refl)
after_dial me endpoint sockets writable (served p) can h =
    rw (listen_busy writable me endpoint sockets (ap answers h)) (h, refl)

-- The calls of a process that is not disturbed are those of listen, with its result.
pub undisturbed :
    (me : ℕ) (endpoint : Text) (sockets : Sockets) (writable : Text → Bool)
    → writable endpoint ≡ true
    → Alone me (sockets endpoint) (listen writable me endpoint sockets) endpoint
undisturbed me endpoint sockets writable can =
    after_dial me endpoint sockets writable (sockets endpoint) can refl

-- Two processes start on one endpoint that nobody answers on, and their dials, removals and binds come in any
-- order. When both are through, somebody listens and is reached at the endpoint. But if both have dialled
-- before either removes the file, both can listen: the second removes the socket of the first, and only the
-- second is reached.
pub listen_race :
    (a b : ℕ) (node : Node) (ts us : List Bool)
    → answers node ≡ false
    → 3 ≤ turns_of true ts
    → 3 ≤ turns_of false ts
    → (race a b us (starting node)).first ≡ unanswered
    → (race a b us (starting node)).second ≡ unanswered
    → Reached a b (race a b ts (starting node))
      × (race a b (us ++ overtaking) (starting node)
          ≡ record { first = listening; second = listening; node = served b })
listen_race a b node ts us silent first second asked asked_too =
    let (none_left, none_left_too) = race-calls_left a b ts (starting node) in
    let r = race a b us (starting node) in
    (
      sound_end a b (race-Sound a b ts (starting-Sound a b node silent))
          (omega (arith, none_left, first)) (omega (arith, none_left_too, second)),
      race-append a b us overtaking (starting node)
          ∙ overtaken a b r.first r.second r.node asked asked_too,
    )
