-- ===== src/Daemon/Limits.antt =====
-- How many records GetDiagnostics and GetRepairHistory return, and which.
use envorca.Prelude.{
  ℕ, zero, suc, ◌≤◌, ◌≡◌, refl, ap, ◌∙◌, none, some, List, [], ◌∷◌, map, reverse, last_n, min, ℤ,
  pos, negsuc, arith,
}
use envorca.Text.{Text, bytes}
use envorca.Api.{DiagnosticRecord}
use envorca.State.Sql.{Row, rows_until}
use envorca.State.History.{DiagnosticValues, keep_diagnostics, recent_diagnostics}
use envorca.State.Retention.{Recorded, entry, recent_rows-Recorded}
use envorca.Daemon.Rpc.{answer, clamp_limit}
use envorca.Daemon.Handlers.{Services, Daemon, Store, get_diagnostics, diagnostic_record}

-- The limit that a request asks for: 20 for none or a negative one, and at most 500.
abbrev pub asked : ℤ → ℕ
asked (negsuc n) = 20
asked (pos zero) = 20
asked (pos (suc n)) = min (suc n) 500

-- clampLimit yields a number from 1 to 500: 20 for a limit that is not positive, else the smaller of the
-- limit and 500.
pub clamp_limit_bounds :
    (limit : ℤ) → (clamp_limit limit ≡ pos (asked limit)) × (1 ≤ asked limit) × (asked limit ≤ 500)
unfolding clamp_limit
clamp_limit_bounds (negsuc n) = (refl, omega arith, omega arith)
clamp_limit_bounds (pos zero) = (refl, omega arith, omega arith)
clamp_limit_bounds (pos (suc n)) = (ground arith, omega arith, omega arith)

module _ {W : Type 0} (s : Services W) where
  open s use {diagnostics, repairs}

  -- The time and the values of a record.
  abbrev pub diagnostic_entry : DiagnosticRecord → Text × DiagnosticValues
  diagnostic_entry r =
      (r.performed_at, record { overall_status = r.overall_status; payload = r.payload })

  map-diagnostic_entry :
      (rs : List (Row DiagnosticValues))
      → map diagnostic_entry (map (diagnostic_record s) rs) ≡ map (entry diagnostics) rs
  map-diagnostic_entry [] = refl
  map-diagnostic_entry (r ∷ rs) = ap (λ t. entry diagnostics r ∷ t) (map-diagnostic_entry rs)

  -- After any number of recorded snapshots, where the query succeeds, GetDiagnostics answers
  -- with the latest of them, newest first: as many as the request asks for, and 20 where it asks
  -- for none or for a negative number, but at most 500 and at most the 200 that are kept.
  pub get_diagnostics-Recorded :
      (limit : ℤ) (d : Daemon s) {st : Store s} {log : List (Text × DiagnosticValues)}
      {what prune : Text} {rs : List (Row DiagnosticValues)}
      → d.state ≡ some st
      → Recorded diagnostics keep_diagnostics what prune st.diagnostics_db log
      → diagnostics.query_latest (asked limit) st.diagnostics_db ≡ rows_until rs none
      → (out : List DiagnosticRecord) × (get_diagnostics s limit d ≡ answer out)
        × (map diagnostic_entry out ≡ reverse (last_n (min (asked limit) keep_diagnostics) log))
  unfolding get_diagnostics recent_diagnostics
  get_diagnostics-Recorded limit d {st} {log} {what} {prune} {rs} is_open r found =
      let (clamped, at_least, at_most) = clamp_limit_bounds limit in
      let (fits, read, latest_first) =
        recent_rows-Recorded diagnostics (bytes "read diagnostics") (asked limit) r at_least
          found in
      (
        map (diagnostic_record s) rs,
        rw (is_open, clamped, read),
        map-diagnostic_entry rs ∙ latest_first,
      )
