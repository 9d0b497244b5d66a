-- ===== src/Process/Draining.antt =====
-- What a stop waits for.
use mathlib.Core.Path.{subst}
use envorca.Prelude.{ℕ, ◌≡◌, refl, sym, ◌∙◌, ◌⊎◌, inl, inr, true, false, Option, none, some, arith}
use envorca.Text.{Text}
use envorca.Process.{
  Process, Startup, Started, failed, running, unless_failed, said, say, start_up, announce,
  begin_stop, end_stop,
}
use envorca.Process.Life.{
  Life, born, Step, announces, opens, closes, begins, ends, returns, Reach, begun, then_step,
}

-- Before the stop has ended: the database is open and the pid file is there.
pub record IsHeld (l : Life) : Type 0 where
  pub running : l.process.stopped ≡ false
  pub db : l.process.db_open ≡ true
  pub pid : l.process.pid_file ≡ true
  pub waits : l.returned ≡ false
  pub closing :
      (l.stopping ≡ none) ⊎ ((l.process.serving ≡ false) × (l.process.endpoint_open ≡ false))

-- After it: no stream is open, and nothing is left but the pid file, which run removes.
pub record IsReleased (l : Life) : Type 0 where
  pub over : l.process.stopped ≡ true
  pub db : l.process.db_open ≡ false
  pub endpoint : l.process.endpoint_open ≡ false
  pub serving : l.process.serving ≡ false
  pub drained : l.open_streams ≡ 0
  pub why : Text
  pub given : l.stopping ≡ some why
  pub pid : (l.process.pid_file ≡ true) ⊎ (l.returned ≡ true)

-- A stop that was begun has closed the endpoint.
closed_by : {o : Option Text} {why : Text} {A : Type 0} → o ≡ some why → (o ≡ none) ⊎ A → A
closed_by s (inl n) = absurd (let k = sym n ∙ s in ground arith)
closed_by s (inr a) = a

module _ (clock : ℕ → ℕ) (endpoint : Text) where
  Step-IsHeld : {l m : Life} → Step clock endpoint l m → IsHeld l → IsHeld m ⊎ IsReleased m
  unfolding announce begin_stop end_stop say
  Step-IsHeld (announces a r) h =
      inl (record {
        running = h.running;
        db = h.db;
        pid = h.pid;
        waits = h.waits;
        closing = h.closing;
      })
  Step-IsHeld (opens s) h =
      inl (record { running = h.running; db = h.db; pid = h.pid; waits = h.waits; closing = inl s })
  Step-IsHeld (closes e) h =
      inl (record {
        running = h.running;
        db = h.db;
        pid = h.pid;
        waits = h.waits;
        closing = h.closing;
      })
  Step-IsHeld (begins wake s) h = inl (record {
    running = h.running;
    db = h.db;
    pid = h.pid;
    waits = h.waits;
    closing = inr (refl, refl);
  })
  Step-IsHeld {l} (ends {why} s e t) h =
      let (idle, shut) = closed_by s h.closing in
      inr (record {
        over = refl;
        db = refl;
        endpoint = shut;
        serving = idle;
        drained = e;
        why = why;
        given = s;
        pid = inl h.pid;
      })
  Step-IsHeld (returns t r) h = absurd (let k = sym t ∙ h.running in ground arith)

  Step-IsReleased : {l m : Life} → Step clock endpoint l m → IsReleased l → IsReleased m
  unfolding announce begin_stop end_stop say
  Step-IsReleased (announces a r) h = record {
    over = h.over;
    db = h.db;
    endpoint = h.endpoint;
    serving = h.serving;
    drained = h.drained;
    why = h.why;
    given = h.given;
    pid = h.pid;
  }
  Step-IsReleased (opens s) h = absurd (let k = sym s ∙ h.given in ground arith)
  Step-IsReleased (closes e) h = absurd (let k = sym e ∙ h.drained in ground arith)
  Step-IsReleased (begins wake s) h = absurd (let k = sym s ∙ h.given in ground arith)
  Step-IsReleased (ends s e t) h = absurd (let k = sym t ∙ h.over in ground arith)
  Step-IsReleased (returns t r) h = record {
    over = h.over;
    db = refl;
    endpoint = h.endpoint;
    serving = h.serving;
    drained = h.drained;
    why = h.why;
    given = h.given;
    pid = inr refl;
  }

  Reach-IsHeld : {l m : Life} → IsHeld l → Reach clock endpoint l m → IsHeld m ⊎ IsReleased m
  Reach-IsHeld h begun = inl h
  Reach-IsHeld h (then_step r s) = elim (Reach-IsHeld h r) [
    | inl k ↦ Step-IsHeld s k
    | inr k ↦ inr (Step-IsReleased s k)
  ]

  -- What a start-up that succeeded holds.
  abbrev Holds : Started → Type 0
  Holds (failed e p) = Unit
  Holds (running p) = IsHeld (born p)

  unless_failed-Holds :
      (o : Option Text) (p : Process) (rest : Started) → Holds rest → Holds (unless_failed o p rest)
  unless_failed-Holds none p rest h = h
  unless_failed-Holds (some e) p rest h = tt

  start_up-Holds : (st : Startup) → Holds (start_up clock st)
  unfolding start_up say
  start_up-Holds st = unless_failed-Holds st.config_failed _ _ (
      unless_failed-Holds st.level_failed _ _ (
        unless_failed-Holds st.log_failed _ _ (
          unless_failed-Holds st.open_failed _ _ (
            unless_failed-Holds (said _ st.migrate_failed) _ _ (
              unless_failed-Holds (said _ st.registry_failed) _ _ (
                unless_failed-Holds (said _ st.listen_failed) _ _ (
                  unless_failed-Holds (said _ st.pid_failed) _ _ (record {
                    running = refl;
                    db = refl;
                    pid = refl;
                    waits = refl;
                    closing = inl refl;
                  }))))))))

  -- After a start-up that succeeded, in every interleaving of the process's goroutines and its clients: either the
  -- stop has not ended, the database is open, the pid file is there and run has not returned; or the stop has
  -- ended, no client has a stream open, and the database and the endpoint are closed. So a stop does
  -- not end, and run does not return, while one client follows the events.
  pub life_drains :
      (st : Startup) {p : Process} {m : Life}
      → start_up clock st ≡ running p
      → Reach clock endpoint (born p) m
      → IsHeld m ⊎ IsReleased m
  life_drains st {p} started r = Reach-IsHeld (subst Holds started (start_up-Holds st)) r
