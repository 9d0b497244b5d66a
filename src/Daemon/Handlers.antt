-- ===== src/Daemon/Handlers.antt =====
-- The handlers that answer with one message.
use envorca.Prelude.{
  ℕ, ◌-◌, ◌/◌, Bool, true, false, Option, none, some, List, [], ◌∷◌, map, ℤ, if◌then◌else◌,
}
use envorca.Text.{Text, bytes, text_eq}
use envorca.Api.{
  Status, status_name, ComponentStatus, PingResponse, EnvironmentStatus, RepairPlan,
  ExecuteRepairRequest, RepairOutcome, DiagnosticRecord, RepairRecord,
}
use envorca.Health
use envorca.Health.{Context, Registry, overall_status}
use envorca.Events.{Event, Bus, new_event, publish}
use envorca.Wsl.{Runner}
use envorca.Recovery
use envorca.Recovery.{Recovery, Executed, outcome, refused, plan}
use envorca.State.Sql.{Row, Database}
use envorca.State.History.{
  DiagnosticValues, RepairValues, record_diagnostic, recent_diagnostics, record_repair,
  recent_repairs,
}
use envorca.Daemon.Rpc.{
  Reply, answer, status, crash, unavailable, internal, failed_precondition, invalid_argument, said,
  from_recovery, clamp_limit,
}

-- What the handlers are given: the database of the two histories, the runner of wsl.exe, the clock in
-- nanoseconds, the print of a time, the JSON print of a status, and the daemon's version.
pub record Services (W : Type 0) : Type 1 where
  pub diagnostics : Database DiagnosticValues
  pub repairs : Database RepairValues
  pub run : Runner W
  pub now : W → ℕ
  pub format_time : ℕ → Text
  pub marshal : EnvironmentStatus → Option Text
  pub full_version : Text

module _ {W : Type 0} (s : Services W) where
  open s use {diagnostics, repairs, run, now, format_time, marshal, full_version}

  -- The open handles of the two histories.
  pub record Store : Type 0 where
    pub diagnostics_db : diagnostics.Db
    pub repairs_db : repairs.Db

  -- `stop_requested` says that the context's cancel function was called.
  pub record Daemon : Type 0 where
    pub bus : Bus
    pub health : Registry W
    pub recovery : Option Recovery
    pub state : Option Store
    pub endpoint : Text
    pub started : ℕ
    pub dstate : Text
    pub can_stop : Bool
    pub stop_requested : Bool

  unfoldable pub new : Bus → Registry W → Option Recovery → Option Store → Text → Bool → W → Daemon
  new bus reg rec st endpoint can_stop w = record {
    bus = bus;
    health = reg;
    recovery = rec;
    state = st;
    endpoint = endpoint;
    started = now w;
    dstate = bytes "running";
    can_stop = can_stop;
    stop_requested = false;
  }

  unfoldable pub set_state : Text → Daemon → Daemon
  set_state st d = record d { dstate = st }

  abbrev pub uptime : Daemon → W → ℕ
  uptime d w = (now w - d.started) / 1_000_000_000

  unfoldable pub ping : Daemon → W → PingResponse
  ping d w = record {
    version = full_version;
    daemon_state = d.dstate;
    uptime_seconds = uptime d w;
    socket = d.endpoint;
  }

  -- The end of GetStatus: an error of the record is only logged, and a context that is over is one of them.
  abbrev pub record_payload : Status → Option Text → Option Store → Option Store
  record_payload overall payload none = none
  record_payload overall none (some st) = some st
  record_payload overall (some payload) (some st) = some (record st {
    diagnostics_db =
        (record_diagnostic diagnostics (status_name overall) payload st.diagnostics_db).1;
  })

  unfoldable pub get_status : Context → Daemon → W → EnvironmentStatus × Daemon × W
  get_status ctx d w =
      let (components, w') = Health.snapshot d.health ctx w in
      let overall = overall_status components in
      let st : EnvironmentStatus = record {
        version = full_version;
        daemon_state = d.dstate;
        uptime_seconds = uptime d w';
        socket = d.endpoint;
        overall_status = overall;
        components = components;
      } in
      (st, record d { state = record_payload overall (marshal st) d.state }, w')

  abbrev pub diagnostic_record : Row DiagnosticValues → DiagnosticRecord
  diagnostic_record r = record {
    performed_at = r.performed_at;
    overall_status = r.values.overall_status;
    payload = r.values.payload;
  }

  abbrev pub repair_record : Row RepairValues → RepairRecord
  repair_record r = record {
    performed_at = r.performed_at;
    action_id = r.values.action_id;
    component_id = r.values.component_id;
    success = r.values.success;
    result = r.values.result;
    verification = r.values.verification;
  }

  -- The rows, or the error of the read.
  abbrev pub answer_rows :
      {V A : Type 0} → (Row V → A) → List (Row V) × Option Text → Reply (List A)
  answer_rows f (rows, none) = answer (map f rows)
  answer_rows f (rows, some e) = status internal (said e)

  abbrev pub diagnostics_of : ℤ → Option Store → Reply (List DiagnosticRecord)
  diagnostics_of limit none = status unavailable (said (bytes "diagnostic history not available"))
  diagnostics_of limit (some st) =
      answer_rows diagnostic_record
        (recent_diagnostics diagnostics (clamp_limit limit) st.diagnostics_db)

  unfoldable pub get_diagnostics : ℤ → Daemon → Reply (List DiagnosticRecord)
  get_diagnostics limit d = diagnostics_of limit d.state

  abbrev pub repairs_of : ℤ → Option Store → Reply (List RepairRecord)
  repairs_of limit none = status unavailable (said (bytes "repair history not available"))
  repairs_of limit (some st) =
      answer_rows repair_record (recent_repairs repairs (clamp_limit limit) st.repairs_db)

  unfoldable pub get_repair_history : ℤ → Daemon → Reply (List RepairRecord)
  get_repair_history limit d = repairs_of limit d.state

  -- A nil recovery is dereferenced here: the method reads the actions of its receiver.
  abbrev pub plan_of : Option Recovery → List ComponentStatus → Text → Reply RepairPlan
  plan_of none components at = crash
  plan_of (some r) components at =
      answer (record { actions = plan r components; evaluated_at = at })

  unfoldable pub get_repair_plan : Context → Daemon → W → Reply RepairPlan × W
  get_repair_plan ctx d w =
      let (components, w') = Health.snapshot d.health ctx w in
      (plan_of d.recovery components (format_time (now w')), w')

  abbrev pub repair_event : RepairOutcome → Event
  repair_event o =
      new_event (bytes "info") (bytes "recovery") (bytes "repair_executed")
        ((bytes "result", o.result) ∷ [])

  abbrev pub repair_values : Text → RepairOutcome → RepairValues
  repair_values id o = record {
    action_id = id;
    component_id = o.component_id;
    success = o.success;
    result = o.result;
    verification = o.verification;
  }

  -- The record of an outcome, whose error is only logged. The request's context, which ExecContext is given too, can
  -- only make it fail: one that is over is an error of the database.
  abbrev pub record_outcome : Text → RepairOutcome → Option Store → Option Store
  record_outcome id o none = none
  record_outcome id o (some st) =
      some (record st { repairs_db = (record_repair repairs (repair_values id o) st.repairs_db).1 })

  -- The end of ExecuteRepair, after Recovery's Execute.
  abbrev pub conclude_repair : Text → Daemon → Executed × W → Reply RepairOutcome × Daemon × W
  conclude_repair id d (refused e, w) = (status failed_precondition (from_recovery e), d, w)
  conclude_repair id d (outcome o, w) = (
    answer o,
    record d { bus = publish (now w) (repair_event o) d.bus; state = record_outcome id o d.state },
    w,
  )

  abbrev pub execute_with :
      Option Recovery
      → Context
      → ExecuteRepairRequest
      → Daemon
      → W
      → Reply RepairOutcome × Daemon × W
  execute_with none ctx req d w =
      (status failed_precondition (said (bytes "repair subsystem not available")), d, w)
  execute_with (some r) ctx req d w =
      let (components, w') = Health.snapshot d.health ctx w in
      let refusal : Reply RepairOutcome =
        status invalid_argument (said (bytes "action_id is required")) in
      if text_eq req.action_id []
      then (refusal, d, w)
      else conclude_repair req.action_id d
          (Recovery.execute run r ctx req.action_id req.confirmed components w')

  unfoldable pub execute_repair :
      Context → ExecuteRepairRequest → Daemon → W → Reply RepairOutcome × Daemon × W
  execute_repair ctx req d w = execute_with d.recovery ctx req d w

  unfoldable pub shutdown : Daemon → W → Daemon
  unfolding set_state
  shutdown d w =
      let d₁ = record d {
        bus =
            publish (now w)
              (new_event (bytes "info") (bytes "daemon") (bytes "shutdown_requested") []) d.bus;
      } in
      let d₂ = set_state (bytes "stopping") d₁ in
      if d₂.can_stop then record d₂ { stop_requested = true } else d₂
