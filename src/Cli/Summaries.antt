-- ===== src/Cli/Summaries.antt =====
-- What the summaries of the command line say of the statuses and times they are made of.
use envorca.Prelude.{
  ℕ, zero, suc, ◌+◌, ◌*◌, ◌/◌, ◌%◌, ◌≤◌, ◌<◌, ◌≡◌, ◌≢◌, ◌↔◌, refl, ◌⊎◌, inl, inr, Bool, Bool-cases,
  ltb→lt, List, [], ◌∷◌, ◌++◌, ltb, if◌then◌else◌, pos, arith,
}
use envorca.Text.{Text, bytes}
use envorca.Text.Decimal.{itoa}
use envorca.Api.{Status, healthy, unknown, status_unspecified, status_name, ComponentStatus}
use envorca.Health.{overall_status}
use envorca.Health.Aggregate.{severity, of_severity, worst, overall_status-worst}
use envorca.Cli.Render.{format_uptime}
use envorca.Cli.Doctor.{Counts, count_one, report_components, counts}
use envorca.Cli.History.{status_from_string}

abbrev pub no_counts : Counts
no_counts = record { critical = 0; warning = 0; unknown = 0 }

abbrev total : Counts → ℕ
total n = n.critical + n.warning + n.unknown

-- How many components are not healthy.
abbrev problems : List ComponentStatus → ℕ
problems [] = 0
problems (c ∷ cs) = (if ltb 0 (severity c.status) then 1 else 0) + problems cs

total-count_one :
    (t : Status) (n : Counts)
    → total (count_one t n) ≡ total n + (if ltb 0 (severity t) then 1 else 0)
total-count_one t n = ground arith

total-report :
    (terminal : Bool) (cs : List ComponentStatus) (n : Counts)
    → total (report_components terminal cs n).1 ≡ total n + problems cs
unfolding report_components
total-report terminal [] n = omega arith
total-report terminal (c ∷ cs) n =
    omega (arith, total-report terminal cs (count_one c.status n), total-count_one c.status n)

counts-nil : (n : Counts) → (counts n ≡ []) ↔ (total n ≡ 0)
unfolding counts
counts-nil n = ground arith

problems-worst : (cs : List ComponentStatus) → (problems cs ≡ 0) ↔ (worst cs ≡ 0)
problems-worst [] = ground arith
problems-worst (c ∷ cs) = ground (arith, problems-worst cs)

of_severity-healthy : (k : ℕ) → (of_severity k ≡ healthy) ↔ (k ≡ 0)
of_severity-healthy zero = ground arith
of_severity-healthy (suc zero) = ((λ e. cc), (λ e. cc))
of_severity-healthy (suc (suc zero)) = ((λ e. cc), (λ e. cc))
of_severity-healthy (suc (suc (suc k))) = ((λ e. cc), (λ e. cc))

-- The doctor's summary lists no problem exactly when the overall status of the components is HEALTHY.
pub counts-overall_status :
    (terminal : Bool) (cs : List ComponentStatus)
    → (counts (report_components terminal cs no_counts).1 ≡ []) ↔ (overall_status cs ≡ healthy)
counts-overall_status terminal cs = ground (
  arith,
  counts-nil (report_components terminal cs no_counts).1,
  total-report terminal cs no_counts,
  problems-worst cs,
  overall_status-worst cs,
  of_severity-healthy (worst cs),
)

-- The name under which a status is recorded is read back as that status; an unspecified one as UNKNOWN.
pub status_from_string-status_name :
    (t : Status)
    → ((t ≢ status_unspecified) × (status_from_string (status_name t) ≡ t))
      ⊎ ((t ≡ status_unspecified) × (status_from_string (status_name t) ≡ unknown))
unfolding status_from_string status_name bytes envorca.Text.text_eq
status_from_string-status_name Status.status_unspecified = inr (refl, refl)
status_from_string-status_name Status.healthy = inl ((λ e. cc), refl)
status_from_string-status_name Status.warning = inl ((λ e. cc), refl)
status_from_string-status_name Status.critical = inl ((λ e. cc), refl)
status_from_string-status_name Status.unknown = inl ((λ e. cc), refl)

-- An uptime is printed as seconds below a minute; below an hour as minutes and seconds that add up to
-- it; and from an hour on as hours and minutes, with less than a minute left out.
pub format_uptime_parts :
    (secs : ℕ)
    → ((secs < 60) × (format_uptime (pos secs) ≡ itoa secs ++ bytes "s"))
      ⊎ ((m s : ℕ) × (60 ≤ secs)
          × (m < 60)
          × (s < 60)
          × (m * 60 + s ≡ secs)
          × (format_uptime (pos secs) ≡ itoa m ++ (bytes "m " ++ (itoa s ++ bytes "s"))))
      ⊎ ((h m : ℕ) × (3600 ≤ secs)
          × (m < 60)
          × (h * 3600 + m * 60 ≤ secs)
          × (secs < h * 3600 + m * 60 + 60)
          × (format_uptime (pos secs) ≡ itoa h ++ (bytes "h " ++ (itoa m ++ bytes "m"))))
unfolding format_uptime
format_uptime_parts secs = elim (Bool-cases (ltb secs 60)) [
  | inl h ↦ inl (ltb→lt secs 60 h, ground arith)
  | inr h ↦ elim (Bool-cases (ltb secs 3600)) [
    | inl k ↦ inr (
        inl (
          secs / 60,
          secs % 60,
          ground arith,
          ground arith,
          ground arith,
          ground arith,
          ground arith,
        ))
    | inr k ↦ inr (
        inr (
          secs / 3600,
          secs % 3600 / 60,
          ground arith,
          ground arith,
          ground arith,
          ground arith,
          ground arith,
        ))
  ]
]
