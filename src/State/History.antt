-- ===== src/State/History.antt =====
-- RecordDiagnostic, RecordRepair, RecentDiagnostics and RecentRepairs.
use envorca.Prelude.{ℕ, zero, suc, Bool, Option, none, some, List, [], ◌++◌, ℤ, pos, negsuc}
use envorca.Text.{Text, bytes}
use envorca.State.Sql.{
  Row, insert_values, delete_not_in_latest, Query, query_failed, scan_failed, rows_until, Database,
}

-- The columns of `diagnostics` and of `repair_history` that are inserted.
pub record DiagnosticValues : Type 0 where
  pub overall_status : Text
  pub payload : Text

pub record RepairValues : Type 0 where
  pub action_id : Text
  pub component_id : Text
  pub success : Bool
  pub result : Text
  pub verification : Text

abbrev pub keep_diagnostics : ℕ
keep_diagnostics = 200

abbrev pub keep_repairs : ℕ
keep_repairs = 1000

-- `none` is a nil error; an error is wrapped with what failed.
abbrev pub wrapped : Text → Option Text → Option Text
wrapped what none = none
wrapped what (some e) = some (what ++ (bytes ": " ++ e))

module _ {V : Type 0} (database : Database V) where
  open database use {Db, exec, query_latest}

  abbrev pub then_prune : ℕ → Text → Text → Option Text × Db → Option Text × Db
  then_prune keep what prune (some e, d) = (wrapped what (some e), d)
  then_prune keep what prune (none, d) =
      let (failed, d') = exec (delete_not_in_latest keep) d in (wrapped prune failed, d')

  -- Insert, and delete the rows beyond the latest `keep`.
  unfoldable pub record_row : ℕ → Text → Text → V → Db → Option Text × Db
  record_row keep what prune v d = then_prune keep what prune (exec (insert_values v) d)

  abbrev pub scan_rows : Text → Query V → List (Row V) × Option Text
  scan_rows read (query_failed e) = ([], wrapped read (some e))
  scan_rows read (scan_failed e) = ([], some e)
  scan_rows read (rows_until rs failed) = (rs, failed)

  unfoldable pub recent_rows : Text → ℤ → Db → List (Row V) × Option Text
  recent_rows read (negsuc n) d = ([], none)
  recent_rows read (pos zero) d = ([], none)
  recent_rows read (pos (suc n)) d = scan_rows read (query_latest (suc n) d)

module _ (database : Database DiagnosticValues) where
  open database use {Db}

  unfoldable pub record_diagnostic : Text → Text → Db → Option Text × Db
  unfolding record_row
  record_diagnostic overall_status payload d =
      record_row database keep_diagnostics (bytes "record diagnostic") (bytes "prune diagnostics")
        (record { overall_status = overall_status; payload = payload }) d

  unfoldable pub recent_diagnostics : ℤ → Db → List (Row DiagnosticValues) × Option Text
  unfolding recent_rows
  recent_diagnostics limit d = recent_rows database (bytes "read diagnostics") limit d

module _ (database : Database RepairValues) where
  open database use {Db}

  unfoldable pub record_repair : RepairValues → Db → Option Text × Db
  unfolding record_row
  record_repair v d =
      record_row database keep_repairs (bytes "record repair") (bytes "prune repair history") v d

  unfoldable pub recent_repairs : ℤ → Db → List (Row RepairValues) × Option Text
  unfolding recent_rows
  recent_repairs limit d = recent_rows database (bytes "read repair history") limit d
