-- ===== src/Examples/Daemon.antt =====
-- A daemon whose WSL environment failed to start, and whose repairs work.
use envorca.Prelude.{
  ℕ, suc, ◌≤◌, ◌≡◌, ◌≢◌, refl, true, false, Option, none, some, List, [], ◌∷◌, ◌++◌, map, reverse,
  last_n, min, length, All, arith, pos,
}
use envorca.Text.{Text, bytes, text_eq, contains, to_lower}
use envorca.Api.{
  critical, status_name, status_unspecified, brief, ExecuteRepairRequest, RepairOutcome,
  DiagnosticRecord,
}
use envorca.Health as HealthModule
use envorca.Health.{Registry, returned}
use envorca.Health.Aggregate.{of_severity, worst}
use envorca.Events.{stamp, channel_capacity}
use envorca.Events.Replay.{Run}
use envorca.Events.Delivery.{stamp_all}
use envorca.Recovery as RecoveryModule
use envorca.Recovery.{Recovery, verified}
use envorca.Recovery.Actions.{
  Action, wsl_restart, action_id, can_execute, execute_action, verify_action, boot_default,
  wsl_critical, summary_has, requires_confirmation,
}
use envorca.Recovery.Outcomes.{Knows, Applied}
use envorca.State.Sql.{
  Row, Table, meaning, rows_until, select_latest, order_by_id_desc, insert_desc, id_in,
}
use envorca.State.History.{
  DiagnosticValues, RepairValues, keep_diagnostics, keep_repairs, record_row, record_diagnostic,
  record_repair,
}
use envorca.State.Retention.{IsOrdered, Left, Recorded, opened, recorded, entry}
use envorca.Daemon.Rpc.{answer}
use envorca.Daemon.Handlers.{
  Services, Store, Daemon, get_status, get_diagnostics, execute_repair, repair_event, repair_values,
}
use envorca.Daemon.Limits.{asked, diagnostic_entry, get_diagnostics-Recorded}
use envorca.Daemon.Effects.{execute_repair_success, execute_repair_recorded, get_status-overall}
use envorca.Daemon.Stream.{stream_events}
use envorca.Daemon.Replayed.{publishing, turns, accepts, wire, stream_events_complete}
use envorca.Examples.{half_minute, counting_runner, memory_database, empty_table}
use envorca.Examples.Events.{small, small_log, small_run, later}

abbrev pub services : Services ℕ
services = record {
  diagnostics = memory_database DiagnosticValues;
  repairs = memory_database RepairValues;
  run = counting_runner;
  now = λ w. w;
  format_time = λ t. bytes "noon";
  marshal = λ st. some (bytes "{}");
  full_version = bytes "0.1.0-dev";
}

abbrev pub registry_of : Text → Registry ℕ
registry_of summary = record {
  components =
      record { id = bytes "wsl"; probe = λ c w. (returned (brief critical summary), suc w) } ∷ [];
}

abbrev empty_store : Store services
empty_store = record { diagnostics_db = empty_table; repairs_db = empty_table }

abbrev pub daemon_of : Text → Daemon services
daemon_of summary = record {
  bus = small;
  health = registry_of summary;
  recovery = some RecoveryModule.new;
  state = some empty_store;
  endpoint = bytes "/run/envorca.sock";
  started = 0;
  dstate = bytes "running";
  can_stop = true;
  stop_requested = false;
}

abbrev broken : Daemon services
broken = daemon_of (bytes "Linux environment failed to start")

abbrev restart : ExecuteRepairRequest
restart = record { action_id = action_id wsl_restart; confirmed = true }

abbrev repaired : RepairOutcome
repaired = verified wsl_restart (action_id wsl_restart) none

abbrev after : Daemon services
after = (execute_repair services half_minute restart broken 0).1

-- One call of the probe, three of the restart and two of the verification.
restarted : execute_repair services half_minute restart broken 0 ≡ (answer repaired, after, 6)
unfolding execute_repair envorca.Recovery.execute envorca.Recovery.new
    envorca.Recovery.execute_known envorca.Recovery.execute_from envorca.Recovery.verify_step
    envorca.Health.snapshot envorca.Health.snapshot_from envorca.Health.stamped can_execute
    wsl_critical summary_has text_eq bytes contains to_lower action_id requires_confirmation
    execute_action verify_action boot_default envorca.Wsl.default_distro envorca.Wsl.list
    envorca.Wsl.default_name envorca.Wsl.shutdown envorca.Wsl.boot
restarted = refl

empty_IsOrdered : {V : Type 0} → IsOrdered (empty_table {V = V})
empty_IsOrdered = record { ascending = tt; bounded = tt }

execute_repair_success_example :
    (r : Recovery) × (broken.recovery ≡ some r)
    × ((a : Action) × Knows a r.actions
        × (action_id a ≡ restart.action_id)
        × Applied counting_runner half_minute a true
            (HealthModule.snapshot broken.health half_minute 0).0
            (HealthModule.snapshot broken.health half_minute 0).1
            6)
execute_repair_success_example =
    execute_repair_success services half_minute restart broken 0 restarted refl

execute_repair_recorded_example :
    Run 1 after.bus (small_log ++ stamp 6 broken.bus.seq (repair_event services repaired) ∷ [])
    × ((st' : Store services) × (after.state ≡ some st')
        × (st'.diagnostics_db ≡ empty_store.diagnostics_db)
        × ((e : Option Text) × (record_repair services.repairs
                (repair_values services restart.action_id repaired)
                empty_store.repairs_db
              ≡ (e, st'.repairs_db))
            × Left services.repairs keep_repairs
                (repair_values services restart.action_id repaired)
                empty_store.repairs_db
                st'.repairs_db
                e))
execute_repair_recorded_example =
    execute_repair_recorded services half_minute restart broken 0 restarted small_run refl
      empty_IsOrdered

get_status-overall_example :
    let (reply, d', w') = get_status services half_minute broken 0 in
    (map (λ c. c.id) reply.components ≡ map (λ c. c.id) broken.health.components)
    × All (λ c. c.status ≢ status_unspecified) reply.components
    × (reply.overall_status ≡ of_severity (worst reply.components))
    × (d'.bus ≡ broken.bus)
    × ((st' : Store services) × (d'.state ≡ some st')
        × (st'.repairs_db ≡ empty_store.repairs_db)
        × ((e : Option Text) × (record_diagnostic services.diagnostics
                (status_name reply.overall_status)
                (bytes "{}")
                empty_store.diagnostics_db
              ≡ (e, st'.diagnostics_db))
            × Left services.diagnostics keep_diagnostics
                (record { overall_status = status_name reply.overall_status; payload = bytes "{}" })
                empty_store.diagnostics_db
                st'.diagnostics_db
                e))
get_status-overall_example =
    get_status-overall services half_minute broken 0 refl empty_IsOrdered refl

abbrev row : ℕ → Text → Row DiagnosticValues
row id name = record {
  id = id;
  performed_at = bytes "noon";
  values = record { overall_status = name; payload = bytes "{}" };
}

abbrev two_rows : Table DiagnosticValues
two_rows = record { rows = row 1 (bytes "CRITICAL") ∷ row 2 (bytes "HEALTHY") ∷ []; last_id = 2 }

abbrev two_entries : List (Text × DiagnosticValues)
two_entries = map (entry services.diagnostics) two_rows.rows

-- The same daemon after a critical and a healthy snapshot.
abbrev healed : Daemon services
healed = record broken {
  state = some (record { diagnostics_db = two_rows; repairs_db = empty_table });
}

twice :
    Recorded services.diagnostics keep_diagnostics
      (bytes "record diagnostic")
      (bytes "prune diagnostics")
      two_rows
      two_entries
unfolding record_row meaning select_latest order_by_id_desc insert_desc id_in bytes
twice =
    recorded (row 2 (bytes "HEALTHY")).values two_rows
      (recorded (row 1 (bytes "CRITICAL")).values
        (record { rows = row 1 (bytes "CRITICAL") ∷ []; last_id = 1 }) (opened empty_table refl)
        refl)
      refl

latest_found :
    services.diagnostics.query_latest (asked (pos 1)) two_rows
    ≡ rows_until (row 2 (bytes "HEALTHY") ∷ []) none
unfolding select_latest order_by_id_desc insert_desc
latest_found = refl

get_diagnostics-Recorded_example :
    (out : List DiagnosticRecord) × (get_diagnostics services (pos 1) healed ≡ answer out)
    × (map (diagnostic_entry services) out
        ≡ reverse (last_n (min (asked (pos 1)) keep_diagnostics) two_entries))
get_diagnostics-Recorded_example =
    get_diagnostics-Recorded services (pos 1) healed refl twice latest_found

abbrev nano : Option ℕ → Text
nano t = bytes "noon"

few : length (later ++ later) ≤ channel_capacity
few = omega arith

stream_events_complete_example :
    (stream_events nano
      (accepts nano)
      true
      later
      (publishing later ++ turns (stamp_all small.seq (later ++ later)))
      small).0
    ≡ wire nano (last_n 1 (small_log ++ stamp_all small.seq later))
      ++ wire nano (stamp_all small.seq (later ++ later))
stream_events_complete_example = stream_events_complete nano later later small_run few
