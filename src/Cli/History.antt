-- ===== src/Cli/History.antt =====
-- The two listings of `envorca history` (cli/cmd/envorca/history.go). The parser of times and the local
-- zone are the argument `local_time`.
use envorca.Prelude.{
  ℕ, Bool, ◌||◌, Option, none, some, List, [], ◌∷◌, ◌++◌, length, take, leb, if◌then◌else◌,
}
use envorca.Text.{Text, bytes, text_eq}
use envorca.Api.{Status, healthy, warning, critical, unknown, DiagnosticRecord, RepairRecord}
use envorca.Cli.Render.{padded, decorate_status}

unfoldable pub status_from_string : Text → Status
status_from_string s =
    if text_eq s (bytes "HEALTHY")
      || (text_eq s (bytes "HEALTHY_STATUS")
          || (text_eq s (bytes "STATUS_HEALTHY") || text_eq s (bytes "1")))
    then healthy
    else if text_eq s (bytes "WARNING")
        || (text_eq s (bytes "STATUS_WARNING") || text_eq s (bytes "2"))
    then warning
    else if text_eq s (bytes "CRITICAL")
        || (text_eq s (bytes "STATUS_CRITICAL") || text_eq s (bytes "3"))
    then critical
    else if text_eq s (bytes "UNKNOWN")
        || (text_eq s (bytes "STATUS_UNKNOWN") || text_eq s (bytes "4"))
    then unknown
    else unknown

abbrev pub preview : ℕ
preview = 60

unfoldable pub snapshot_line : Text → Text
snapshot_line payload =
    if leb (length payload) preview then payload else take preview payload ++ bytes "..."

unfoldable pub display_time : (Text → Option Text) → Text → Text
display_time local_time ts = elim (local_time ts) [ none ↦ ts | some t ↦ t ]

module _ (local_time : Text → Option Text) (terminal : Bool) where
  abbrev pub diagnostic_lines : List DiagnosticRecord → List Text
  diagnostic_lines [] = []
  diagnostic_lines (r ∷ rest) =
      (bytes "  "
        ++ (padded 24 (display_time local_time r.performed_at)
            ++ (padded 10
                  (decorate_status terminal (status_from_string r.overall_status) r.overall_status)
                ++ snapshot_line r.payload)))
      ∷ diagnostic_lines rest

  unfoldable pub render_diagnostics : List DiagnosticRecord → List Text
  render_diagnostics [] = bytes "DIAGNOSTICS" ∷ bytes "  (none recorded)" ∷ []
  render_diagnostics (r ∷ rest) =
      bytes "DIAGNOSTICS"
      ∷ (bytes "  "
          ++ (padded 24 (bytes "WHEN") ++ (padded 10 (bytes "STATUS") ++ bytes "SNAPSHOT")))
      ∷ (diagnostic_lines (r ∷ rest) ++ [] ∷ [])

  abbrev pub repair_lines : List RepairRecord → List Text
  repair_lines [] = []
  repair_lines (r ∷ rest) =
      (bytes "  "
        ++ (padded 24 (display_time local_time r.performed_at)
            ++ (padded 24 r.action_id
                ++ (padded 6 (if r.success then bytes "ok" else bytes "failed") ++ r.result))))
      ∷ repair_lines rest

  unfoldable pub render_repair_history : List RepairRecord → List Text
  render_repair_history [] = bytes "REPAIRS" ∷ bytes "  (none recorded)" ∷ []
  render_repair_history (r ∷ rest) =
      bytes "REPAIRS"
      ∷ (bytes "  "
          ++ (padded 24 (bytes "WHEN")
              ++ (padded 24 (bytes "ACTION") ++ (padded 6 (bytes "RESULT") ++ bytes "NOTES"))))
      ∷ (repair_lines (r ∷ rest) ++ [] ∷ [])
