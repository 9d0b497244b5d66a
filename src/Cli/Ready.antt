-- ===== src/Cli/Ready.antt =====
-- `envorca start` and a daemon that becomes ready (cli/cmd/envorca/lifecycle.go).
use envorca.Prelude.{
  ℕ, zero, suc, ◌+◌, ◌*◌, ◌≤◌, ◌<◌, ◌≡◌, refl, sym, ◌∙◌, inl, inr, Bool-cases, true, false, [], ◌∷◌,
  ◌++◌, ltb, ltb→lt, arith,
}
use envorca.Text.{Text, bytes}
use envorca.Cli.Repair.{Ended}
use envorca.Cli.Commands.{printed}
use envorca.Cli.Lifecycle.{Launcher, await_ready, start_budget, start_rounds}
use envorca.Cli.Waiting.{nap, KeepsTime}

module _ {S : Type 0} (l : Launcher S) (endpoint : Text) where
  -- The command reports that the daemon has started.
  abbrev pub Reports : Ended S → Type 0
  Reports ended =
      (s : S) × (ended
        ≡ printed (bytes "Envorca daemon started." ∷ (bytes "Socket: " ++ endpoint) ∷ []) s)

  await_found :
      (n deadline : ℕ) (log : Text) (s : S)
      → l.now s < deadline
      → (l.probe s).0 ≡ true
      → Reports (await_ready l endpoint (suc n) deadline log s)
  unfolding await_ready
  await_found n deadline log s early up =
      let early' : ltb (l.now s) deadline ≡ true = ground arith in
      ((l.probe s).1, rw (early', up) refl)

  await_again :
      (n deadline : ℕ) (log : Text) (s : S)
      → l.now s < deadline
      → (l.probe s).0 ≡ false
      → await_ready l endpoint (suc n) deadline log s
        ≡ await_ready l endpoint n deadline log (l.sleep (l.probe s).1)
  unfolding await_ready
  await_again n deadline log s early down =
      let early' : ltb (l.now s) deadline ≡ true = ground arith in rw (early', down) refl

  module _ (time : KeepsTime l) (lag up : ℕ)
      (short : (s : S) → l.now (l.sleep (l.probe s).1) ≤ l.now s + lag)
      (answers : (s : S) → up ≤ l.now s → (l.probe s).0 ≡ true) where
    too_early : (s : S) → (l.probe s).0 ≡ false → l.now s < up
    too_early s f = elim (Bool-cases (ltb (l.now s) up)) [
      | inl t ↦ ltb→lt (l.now s) up t
      | inr g ↦
          let late : up ≤ l.now s = ground arith in
          absurd (let clash = sym (answers s late) ∙ f in ground arith)
    ]

    await_ready_found :
        (n deadline : ℕ) (log : Text) (s : S)
        → up ≤ l.now s + n * nap
        → l.now s < deadline
        → up + lag ≤ deadline
        → Reports (await_ready l endpoint (suc n) deadline log s)
    await_ready_found zero deadline log s soon early room =
        await_found zero deadline log s early (answers s (omega arith))
    await_ready_found (suc n) deadline log s soon early room = elim (Bool-cases (l.probe s).0) [
      | inl t ↦ await_found (suc n) deadline log s early t
      | inr f ↦
          let next = l.sleep (l.probe s).1 in
          let before = too_early s f in
          let (end, e) =
            await_ready_found n deadline log next
              (omega (arith, time.sleep_lasts (l.probe s).1, time.probe_forward s))
              (omega (arith, short s)) room in
          (end, await_again (suc n) deadline log s early f ∙ e)
    ]

    -- If the daemon answers from a time `up` on, and a round of the wait takes no longer than `lag`, and `up` is at
    -- least `lag` before the fifteen seconds are over, then `envorca start` reports that the daemon has started.
    pub await_ready-started :
        (log : Text) (s : S)
        → up + lag ≤ l.now s + start_budget
        → Reports (await_ready l endpoint (start_rounds l endpoint) (l.now s + start_budget) log s)
    await_ready-started log s room =
        await_ready_found 99 (l.now s + start_budget) log s
          (omega (arith, short s, time.sleep_lasts (l.probe s).1, time.probe_forward s))
          (omega arith) room
