-- ===== src/Daemon/Effects.antt =====
-- What the handlers do to the bus, the histories and the daemon's state.
use envorca.Prelude.{
  ℕ, ◌≡◌, ◌≢◌, refl, ap, ◌∙◌, sym, inl, inr, true, Option, none, some, List, [], ◌∷◌, ◌++◌, map,
  All, Bool-cases, arith, ◌||◌,
}
use envorca.Text.{Text, bytes, text_eq}
use envorca.Api.{status_name, status_unspecified, ExecuteRepairRequest, RepairOutcome}
use envorca.Health
use envorca.Health.{Context}
use envorca.Health.Aggregate.{of_severity, worst, overall_status-worst}
use envorca.Health.Reports.{snapshot-ids}
use envorca.Events.{Event, publish, stamp}
use envorca.Events.Replay.{Run, published}
use envorca.Recovery
use envorca.Recovery.{Recovery, Executed, outcome, refused}
use envorca.Recovery.Actions.{Action, action_id}
use envorca.Recovery.Outcomes.{Knows, Applied, execute_success}
use envorca.State.History.{keep_diagnostics, keep_repairs, record_diagnostic, record_repair}
use envorca.State.Retention.{IsOrdered, Left, record_diagnostic-Left, record_repair-Left}
use envorca.Daemon.Rpc.{answer}
use envorca.Daemon.Handlers.{
  Services, Store, Daemon, get_status, execute_repair, execute_with, conclude_repair,
  record_outcome, repair_values, repair_event, shutdown, ping,
}

module _ {W : Type 0} (s : Services W) where
  open s use {diagnostics, repairs, run, now}

  conclude_repair_answer :
      (id : Text) (d : Daemon s) (r : Executed × W) {o : RepairOutcome} {d' : Daemon s} {w' : W}
      → conclude_repair s id d r ≡ (answer o, d', w')
      → (r ≡ (outcome o, w'))
        × (d' ≡ record d {
          bus = publish (now w') (repair_event s o) d.bus;
          state = record_outcome s id o d.state;
        })
  conclude_repair_answer id d (refused e, w) h = absurd (ground arith)
  conclude_repair_answer id d (outcome a, w) {o} {d'} {w'} h =
      let same : a ≡ o = cc (ap (λ t. t.0) h) in
      let world = ap (λ t. t.2) h in
      (
        λ i. (outcome (same i), world i),
        sym (ap (λ t. t.1) h) ∙ (λ i. record d {
          bus = publish (now (world i)) (repair_event s (same i)) d.bus;
          state = record_outcome s id (same i) d.state;
        }),
      )

  -- An answered ExecuteRepair: the repair subsystem is there, its Execute on a snapshot taken now gave the
  -- outcome, and the daemon published one event and recorded the outcome.
  pub record Answered (ctx : Context) (req : ExecuteRepairRequest) (d : Daemon s) (w : W)
      (o : RepairOutcome) (d' : Daemon s) (w' : W) : Type 0 where
    pub known : Recovery
    pub is_known : d.recovery ≡ some known
    pub ran :
        Recovery.execute run known ctx req.action_id req.confirmed
          (Health.snapshot d.health ctx w).0
          (Health.snapshot d.health ctx w).1
        ≡ (outcome o, w')
    pub left : d' ≡ record d {
      bus = publish (now w') (repair_event s o) d.bus;
      state = record_outcome s req.action_id o d.state;
    }

  execute_with_answer :
      (r : Option Recovery) (ctx : Context) (req : ExecuteRepairRequest) (d : Daemon s) (w : W)
      {o : RepairOutcome} {d' : Daemon s} {w' : W}
      → d.recovery ≡ r
      → execute_with s r ctx req d w ≡ (answer o, d', w')
      → Answered ctx req d w o d' w'
  execute_with_answer none ctx req d w e h = absurd (ground arith)
  execute_with_answer (some r) ctx req d w e h = elim (Bool-cases (text_eq req.action_id [])) [
    | inl t ↦ absurd (ground arith)
    | inr f ↦
        let (ran, left) = conclude_repair_answer req.action_id d _ (rw f at h) in
        record { known = r; is_known = e; ran = ran; left = left }
  ]

  pub execute_repair_answer :
      (ctx : Context) (req : ExecuteRepairRequest) (d : Daemon s) (w : W) {o : RepairOutcome}
      {d' : Daemon s} {w' : W}
      → execute_repair s ctx req d w ≡ (answer o, d', w')
      → Answered ctx req d w o d' w'
  unfolding execute_repair
  execute_repair_answer ctx req d w h = execute_with_answer d.recovery ctx req d w refl h

  -- When ExecuteRepair answers with success, the requested action is a known one, it applied to the component
  -- states of a snapshot taken by this very call, it was confirmed where it has to be, and its commands and
  -- its verification ran without error between that snapshot and the answer.
  pub execute_repair_success :
      (ctx : Context) (req : ExecuteRepairRequest) (d : Daemon s) (w : W) {o : RepairOutcome}
      {d' : Daemon s} {w' : W}
      → execute_repair s ctx req d w ≡ (answer o, d', w')
      → o.success ≡ true
      → (r : Recovery) × (d.recovery ≡ some r)
        × ((a : Action) × Knows a r.actions
            × (action_id a ≡ req.action_id)
            × Applied run ctx a req.confirmed
                (Health.snapshot d.health ctx w).0
                (Health.snapshot d.health ctx w).1
                w')
  execute_repair_success ctx req d w h done =
      let q = execute_repair_answer ctx req d w h in
      (
        q.known,
        q.is_known,
        execute_success run ctx q.known req.action_id req.confirmed
            (Health.snapshot d.health ctx w).0 (Health.snapshot d.health ctx w).1 q.ran done,
      )

  -- For a daemon with a reachable bus and a repair history whose keys ascend: every answered
  -- repair, successful or not, is published as the one next event, and RecordRepair is run on the
  -- history with its values. By the error that this very call of RecordRepair gives, or none, the
  -- repair is the newest of the latest 1000 rows, or the rows are as they were, or one more; the
  -- diagnostics are left alone.
  pub execute_repair_recorded :
      (ctx : Context) (req : ExecuteRepairRequest) (d : Daemon s) (w : W) {o : RepairOutcome}
      {d' : Daemon s} {w' : W} {max : ℕ} {log : List Event} {st : Store s}
      → execute_repair s ctx req d w ≡ (answer o, d', w')
      → Run max d.bus log
      → d.state ≡ some st
      → IsOrdered (repairs.table st.repairs_db)
      → Run max d'.bus (log ++ stamp (now w') d.bus.seq (repair_event s o) ∷ [])
        × ((st' : Store s) × (d'.state ≡ some st')
            × (st'.diagnostics_db ≡ st.diagnostics_db)
            × ((e : Option Text) × (record_repair repairs
                    (repair_values s req.action_id o)
                    st.repairs_db
                  ≡ (e, st'.repairs_db))
                × Left repairs keep_repairs
                    (repair_values s req.action_id o)
                    st.repairs_db
                    st'.repairs_db
                    e))
  execute_repair_recorded ctx req d w {o} {w' = w'} {st = st} h run_so_far is_open ordered =
      let q = execute_repair_answer ctx req d w h in
      rw q.left (
        published (now w') (repair_event s o) run_so_far,
        (
          record st {
            repairs_db = (record_repair repairs (repair_values s req.action_id o) st.repairs_db).1;
          },
          rw is_open refl,
          refl,
          (
            _,
            refl,
            record_repair-Left repairs (repair_values s req.action_id o) st.repairs_db ordered,
          ),
        ),
      )

  -- For a daemon with a history whose keys ascend, where the status can be printed: GetStatus
  -- reports one status for each registered component in order, none of them unspecified, and
  -- the worst of them as the overall status, and RecordDiagnostic is run on the history with the
  -- overall status's name and the print. By the error that this very call gives, or none, the
  -- status is the newest of the latest 200 rows, or the rows are as they were, or one more. The
  -- bus and the repair history are left alone.
  pub get_status-overall :
      (ctx : Context) (d : Daemon s) (w : W) {st : Store s} {payload : Text}
      → d.state ≡ some st
      → IsOrdered (diagnostics.table st.diagnostics_db)
      → s.marshal (get_status s ctx d w).0 ≡ some payload
      → let (reply, d', w') = get_status s ctx d w in
        (map (λ c. c.id) reply.components ≡ map (λ c. c.id) d.health.components)
        × All (λ c. c.status ≢ status_unspecified) reply.components
        × (reply.overall_status ≡ of_severity (worst reply.components))
        × (d'.bus ≡ d.bus)
        × ((st' : Store s) × (d'.state ≡ some st')
            × (st'.repairs_db ≡ st.repairs_db)
            × ((e : Option Text) × (record_diagnostic diagnostics
                    (status_name reply.overall_status)
                    payload
                    st.diagnostics_db
                  ≡ (e, st'.diagnostics_db))
                × Left diagnostics keep_diagnostics
                    (record {
                      overall_status = status_name reply.overall_status;
                      payload = payload;
                    })
                    st.diagnostics_db
                    st'.diagnostics_db
                    e))
  unfolding get_status
  get_status-overall ctx d w {st} {payload} is_open ordered printed =
      let (ids, specified) = snapshot-ids d.health ctx w in
      (
        ids,
        specified,
        overall_status-worst (Health.snapshot d.health ctx w).0,
        refl,
        (
          record st {
            diagnostics_db =
                (record_diagnostic diagnostics
                  (status_name (Health.overall_status (Health.snapshot d.health ctx w).0)) payload
                  st.diagnostics_db).1;
          },
          rw (is_open, printed) refl,
          refl,
          (_, refl, record_diagnostic-Left diagnostics _ payload st.diagnostics_db ordered),
        ),
      )

  -- Shutdown publishes one event, makes every later Ping say "stopping", and asks the daemon to stop if it
  -- can be asked; nothing else of the daemon changes.
  pub shutdown-ping :
      (d : Daemon s) (w w' : W) {max : ℕ} {log : List Event}
      → Run max d.bus log
      → ((ev : Event) × (ev.name ≡ bytes "shutdown_requested")
          × Run max (shutdown s d w).bus (log ++ stamp (now w) d.bus.seq ev ∷ []))
        × ((ping s (shutdown s d w) w').daemon_state ≡ bytes "stopping")
        × ((shutdown s d w).stop_requested ≡ (d.can_stop || d.stop_requested))
        × ((shutdown s d w).state ≡ d.state)
        × ((shutdown s d w).health ≡ d.health)
  unfolding shutdown ping
  shutdown-ping d w w' run_so_far = elim (Bool-cases d.can_stop) [
    | inl t ↦ rw t ((_, refl, published (now w) _ run_so_far), refl, refl, refl, refl)
    | inr f ↦ rw f ((_, refl, published (now w) _ run_so_far), refl, refl, refl, refl)
  ]
