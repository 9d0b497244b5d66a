-- ===== src/Process/Stopping.antt =====
-- What a process leaves behind, and the events of its life.
use envorca.Prelude.{
  ℕ, ◌≡◌, refl, ap, ◌∙◌, false, Option, none, some, [], ◌∷◌, map, map-last_n, last_n,
}
use envorca.Text.{Text, bytes}
use envorca.Events.{snapshot}
use envorca.Events.Replay.{start, snapshot-Run}
use envorca.Process.{
  Process, Startup, Started, failed, running, Wake, Meanwhile, unless_failed, said, fresh,
  exit_error, reason, say, perform_all, stop, woken, start_up, finish, run,
}
use envorca.Process.Deeds.{
  life, Logged, SameBut-after, perform_all-SameBut, woken-SameBut, woken-Logged, perform_all-Logged,
  stop-IsStopped, publish-Logged,
}

module _ (clock : ℕ → ℕ) where
  -- The end of a run, for a start-up that failed and for one that succeeded.
  abbrev pub Finished : Wake → Meanwhile → Started → Option Text × Process → Type 0
  Finished wake others (failed e p) (error, left) =
      (error ≡ some e) × (left.db_open ≡ false) × (left.serving ≡ false)
  Finished wake others (running p) (error, left) =
      (error ≡ exit_error wake)
      × (left.db_open ≡ false)
      × (left.pid_file ≡ false)
      × (left.serving ≡ false)
      × (left.endpoint_open ≡ false)
      × (left.socket_file ≡ false)
      × (map (λ e. e.name) (snapshot left.bus) ≡ last_n 256 (life wake others))

  finish-Finished :
      (endpoint : Text) (wake : Wake) (others : Meanwhile) (p : Process)
      → p.stopped ≡ false
      → Logged p.bus (bytes "starting" ∷ [])
      → Finished wake others (running p) (finish clock endpoint wake others (running p))
  finish-Finished endpoint wake others p fresh_stop h =
      let waited = perform_all clock endpoint others.waiting p in
      let ready = perform_all clock endpoint others.before_stop (woken clock wake waited) in
      let same = SameBut-after (perform_all-SameBut clock endpoint others.waiting p) (
        SameBut-after (woken-SameBut clock wake waited)
          (perform_all-SameBut clock endpoint others.before_stop (woken clock wake waited))) in
      let told =
        perform_all-Logged clock endpoint others.before_stop (woken clock wake waited)
          (woken-Logged clock wake waited (perform_all-Logged clock endpoint others.waiting p h)) in
      let why = reason wake in
      let end =
        stop-IsStopped clock endpoint others.draining why ready (same.same_stopped ∙ fresh_stop)
          told in
      let left = stop clock endpoint others.draining why ready in
      let kept = perform_all-SameBut clock endpoint others.after_stop left in
      let all = perform_all-Logged clock endpoint others.after_stop left end.told in
      (
        refl,
        refl,
        refl,
        kept.same_serving ∙ end.not_serving,
        kept.same_endpoint ∙ end.not_open,
        kept.same_socket ∙ end.no_socket,
        ap (map (λ e. e.name)) (snapshot-Run all.run_so_far)
            ∙ map-last_n (λ e. e.name) 256 all.log
            ∙ ap (last_n 256) all.named,
      )

  abbrev IsClosed : Process → Type 0
  IsClosed p = (p.db_open ≡ false) × (p.serving ≡ false)

  unless_failed-Finished :
      (endpoint : Text) (wake : Wake) (others : Meanwhile) (o : Option Text) (p : Process)
      (rest : Started)
      → IsClosed p
      → Finished wake others rest (finish clock endpoint wake others rest)
      → Finished wake others
          (unless_failed o p rest)
          (finish clock endpoint wake others (unless_failed o p rest))
  unless_failed-Finished endpoint wake others none p rest c h = h
  unless_failed-Finished endpoint wake others (some e) p rest (d, s) h = (refl, d, s)

  nothing_yet : Logged fresh.bus []
  nothing_yet = record { log = []; run_so_far = start; named = refl }

  start_up-Finished :
      (st : Startup) (wake : Wake) (others : Meanwhile)
      → Finished wake others
          (start_up clock st)
          (finish clock st.endpoint wake others (start_up clock st))
  unfolding start_up say
  start_up-Finished st wake others =
      let checks = unless_failed-Finished st.endpoint wake others in
      checks st.config_failed _ _ (refl, refl)
        (checks st.level_failed _ _ (refl, refl)
          (checks st.log_failed _ _ (refl, refl)
            (checks st.open_failed _ _ (refl, refl)
              (checks (said _ st.migrate_failed) _ _ (refl, refl)
                (checks (said _ st.registry_failed) _ _ (refl, refl)
                  (checks (said _ st.listen_failed) _ _ (refl, refl)
                    (checks (said _ st.pid_failed) _ _ (refl, refl)
                      (finish-Finished st.endpoint wake others _ refl
                        (publish-Logged clock _ fresh nothing_yet)))))))))

  -- However the start-up goes, whatever ends the wait and whatever other goroutines publish: when run returns, the
  -- database is closed and nothing serves. A start-up that fails ends with its own error. After one that succeeds
  -- there is no pid file, the endpoint is closed, a Unix socket's file is gone, and run returns an error exactly if
  -- the server failed. The bus then has the last 256 of these events, in order: starting; what the others publish
  -- during the wait; shutdown_requested, if a client asked for the stop; what they publish before the stop begins;
  -- stopping; what they publish while GracefulStop waits; stopped; and what they publish until run returns. The
  -- announcement of the endpoint is one of theirs.
  pub run-Finished :
      (st : Startup) (wake : Wake) (others : Meanwhile)
      → Finished wake others (start_up clock st) (run clock st wake others)
  unfolding run
  run-Finished st wake others = start_up-Finished st wake others
