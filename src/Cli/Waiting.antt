-- ===== src/Cli/Waiting.antt =====
-- The wait of `envorca start` (cli/cmd/envorca/lifecycle.go) and its rounds.
use native.Mathlib.Nat.{suc-add}
use envorca.Prelude.{
  ℕ, zero, suc, ◌+◌, ◌*◌, ◌≤◌, ◌<◌, ◌≡◌, refl, ap, sym, ◌∙◌, arith, Bool, true, false, ltb,
  Bool-cases, inl, inr, if◌then◌else◌, [], ◌∷◌, ◌++◌,
}
use envorca.Text.{Text, bytes}
use envorca.Cli.Repair.{Ended}
use envorca.Cli.Commands.{printed}
use envorca.Cli.Lifecycle.{Launcher, await_ready, start_budget, start_rounds, not_ready}

abbrev pub nap : ℕ
nap = 150_000_000

-- What the wait relies on: a sleep lasts at least 150 ms, and the clock does not go back in a probe.
pub record KeepsTime {S : Type 0} (l : Launcher S) : Type 0 where
  pub sleep_lasts : (s : S) → l.now s + nap ≤ l.now (l.sleep s)
  pub probe_forward : (s : S) → l.now s ≤ l.now (l.probe s).1

module _ {S : Type 0} (l : Launcher S) (time : KeepsTime l) (endpoint : Text) where
  await_late :
      (rounds deadline : ℕ) (log : Text) (s : S)
      → deadline ≤ l.now s
      → await_ready l endpoint rounds deadline log s ≡ not_ready l endpoint log s
  unfolding await_ready
  await_late zero deadline log s h = refl
  await_late (suc rounds) deadline log s h = ground arith

  await_step :
      (n m deadline : ℕ) (log : Text) (s : S)
      → await_ready l endpoint n deadline log (l.sleep (l.probe s).1)
        ≡ await_ready l endpoint m deadline log (l.sleep (l.probe s).1)
      → await_ready l endpoint (suc n) deadline log s
        ≡ await_ready l endpoint (suc m) deadline log s
  unfolding await_ready
  await_step n m deadline log s h = ground arith

  await_more :
      (rounds more deadline : ℕ) (log : Text) (s : S)
      → deadline ≤ l.now s + rounds * nap
      → await_ready l endpoint (rounds + more) deadline log s
        ≡ await_ready l endpoint rounds deadline log s
  await_more zero more deadline log s h =
      await_late (0 + more) deadline log s (omega arith)
      ∙ sym (await_late 0 deadline log s (omega arith))
  await_more (suc rounds) more deadline log s h =
      let next = l.sleep (l.probe s).1 in
      ap (λ n. await_ready l endpoint n deadline log s) (suc-add rounds more)
      ∙ await_step (rounds + more) rounds deadline log s (
          await_more rounds more deadline log next
            (omega (arith, time.sleep_lasts (l.probe s).1, time.probe_forward s)))

  -- Rounds of the wait in which there is time left, the probe fails, and the command sleeps.
  pub data Waited (deadline : ℕ) (s : S) : S → Type 0 where
    at_once : Waited deadline s s
    slept :
        {t t' : S}
        → Waited deadline s t
        → l.now t < deadline
        → l.probe t ≡ (false, t')
        → Waited deadline s (l.sleep t')

  -- The end of the wait: a probe in time is answered, or the time is over.
  pub data Outcome (deadline : ℕ) (log : Text) (t : S) : Ended S → Type 0 where
    answered :
        {t' : S}
        → l.now t < deadline
        → l.probe t ≡ (true, t')
        → Outcome deadline log t
            (printed (bytes "Envorca daemon started." ∷ (bytes "Socket: " ++ endpoint) ∷ []) t')
    timed_out : deadline ≤ l.now t → Outcome deadline log t (not_ready l endpoint log t)

  abbrev pub Waits : ℕ → Text → S → Ended S → Type 0
  Waits deadline log s ended = (t : S) × Waited deadline s t × Outcome deadline log t ended

  slept_first :
      {deadline : ℕ} {s s' t : S}
      → l.now s < deadline
      → l.probe s ≡ (false, s')
      → Waited deadline (l.sleep s') t
      → Waited deadline s t
  slept_first early silent at_once = slept at_once early silent
  slept_first early silent (slept w e p) = slept (slept_first early silent w) e p

  round-Waits :
      (deadline : ℕ) (log : Text) (s : S) (alive : Bool) (s' : S) (again : Ended S)
      → l.now s < deadline
      → l.probe s ≡ (alive, s')
      → Waits deadline log (l.sleep s') again
      → Waits deadline log s (
          if alive
          then printed (bytes "Envorca daemon started." ∷ (bytes "Socket: " ++ endpoint) ∷ []) s'
          else again)
  round-Waits deadline log s true s' again early p h = (s, at_once, answered early p)
  round-Waits deadline log s false s' again early p (t, w, o) = (t, slept_first early p w, o)

  await_ready-Waits :
      (rounds deadline : ℕ) (log : Text) (s : S)
      → deadline ≤ l.now s + rounds * nap
      → Waits deadline log s (await_ready l endpoint rounds deadline log s)
  unfolding await_ready
  await_ready-Waits zero deadline log s enough = (s, at_once, timed_out (omega arith))
  await_ready-Waits (suc rounds) deadline log s enough =
      let s' = (l.probe s).1 in
      let rest =
        await_ready-Waits rounds deadline log (l.sleep s')
          (omega (arith, time.sleep_lasts s', time.probe_forward s)) in
      elim (Bool-cases (ltb (l.now s) deadline)) [
        | inl early ↦
            rw early (round-Waits deadline log s (l.probe s).0 s' _ (ground arith) refl rest)
        | inr late ↦ rw late (s, at_once, timed_out (ground arith))
      ]

  -- If a sleep lasts at least 150 ms and the clock does not go back in a probe, the wait of `envorca start` ends, in
  -- one of two ways: after rounds whose probes failed, a probe that was made before the fifteen seconds were
  -- over is answered, and the command says so; or all probes fail until the fifteen seconds are over, and only
  -- then the command gives up. It never gives up earlier, nor after a probe that was answered.
  pub await_ready_ends :
      (log : Text) (s : S)
      → Waits
          (l.now s + start_budget)
          log
          s
          (await_ready l endpoint (start_rounds l endpoint) (l.now s + start_budget) log s)
  await_ready_ends log s = await_ready-Waits 100 (l.now s + start_budget) log s (omega arith)
