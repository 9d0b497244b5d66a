-- ===== src/Cli/Doctor.antt =====
-- The report of `envorca doctor` (cli/cmd/envorca/doctor.go).
use envorca.Prelude.{ℕ, ◌+◌, Bool, true, false, ◌&&◌, not, List, [], ◌∷◌, ◌++◌, ltb, if◌then◌else◌}
use envorca.Text.{Text, bytes, text_eq}
use envorca.Text.Decimal.{itoa}
use envorca.Api.{Status, ComponentStatus, EnvironmentStatus}
use envorca.Cli.Render.{padded, plain_status, decorate_status}

pub record Counts : Type 0 where
  pub critical : ℕ
  pub warning : ℕ
  pub unknown : ℕ

abbrev pub count_one : Status → Counts → Counts
count_one Status.critical n = record n { critical = n.critical + 1 }
count_one Status.warning n = record n { warning = n.warning + 1 }
count_one Status.unknown n = record n { unknown = n.unknown + 1 }
count_one _ n = n

abbrev pub is_problem : Status → Bool
is_problem Status.warning = true
is_problem Status.critical = true
is_problem _ = false

abbrev pub line_if : Bool → Text → List Text
line_if true s = s ∷ []
line_if false s = []

unfoldable pub doctor_details : ComponentStatus → List Text
doctor_details c =
    if not (is_problem c.status)
    then []
    else line_if (not (text_eq c.reason [])) (bytes "Why: " ++ c.reason)
      ++ line_if (not (text_eq c.recommendation [])) (bytes "Recommend: " ++ c.recommendation)

abbrev pub indented : List Text → List Text
indented [] = []
indented (d ∷ ds) = (bytes "        " ++ d) ∷ indented ds

-- The first loop of renderDoctor: its lines and its counts.
unfoldable pub report_components : Bool → List ComponentStatus → Counts → List Text × Counts
unfolding doctor_details
report_components terminal [] n = ([], n)
report_components terminal (c ∷ cs) n =
    let (rest, counted) = report_components terminal cs (count_one c.status n) in
    (
      ((bytes "  "
              ++ (padded 22 c.id
                  ++ (padded 10 (decorate_status terminal c.status (plain_status c.status))
                      ++ c.summary)))
            ∷ indented (doctor_details c))
          ++ rest,
      counted,
    )

unfoldable pub counts : Counts → List Text
counts n =
    line_if (ltb 0 n.critical) (itoa n.critical ++ bytes " critical")
    ++ (line_if (ltb 0 n.warning) (itoa n.warning ++ bytes " warnings")
        ++ line_if (ltb 0 n.unknown) (itoa n.unknown ++ bytes " unknown"))

abbrev pub joined : Text → List Text → Text
joined s [] = s
joined s (c ∷ cs) = joined (s ++ (bytes ", " ++ c)) cs

-- The last loop: what can be fixed, and what is recommended.
unfoldable pub advice : List ComponentStatus → List Text
advice [] = []
advice (c ∷ cs) =
    let line = bytes "  " ++ (c.id ++ (bytes ": " ++ c.recommendation)) in
    (if c.safe_to_fix
      then line ∷ bytes "  Envorca can fix this. Run 'envorca repair' to apply the repair." ∷ []
      else line_if (is_problem c.status && not (text_eq c.recommendation [])) line)
    ++ advice cs

unfoldable pub summary_lines : List Text → List ComponentStatus → List Text
unfolding advice
summary_lines [] cs = bytes "  Summary: 0 problems detected — the environment is healthy." ∷ []
summary_lines (c ∷ rest) cs =
    (bytes "  Summary: " ++ (joined c rest ++ bytes " detected.")) ∷ [] ∷ advice cs

unfoldable pub render_doctor : Bool → EnvironmentStatus → List Text
unfolding report_components counts summary_lines
render_doctor terminal st =
    let (lines, n) =
      report_components terminal st.components
        (record { critical = 0; warning = 0; unknown = 0 }) in
    (bytes "ENVORCA DOCTOR"
      ∷ []
      ∷ (bytes "  "
          ++ (padded 22 (bytes "COMPONENT") ++ (padded 10 (bytes "STATUS") ++ bytes "NOTES")))
      ∷ lines)
    ++ ([]
        ∷ (bytes "  Overall: "
            ++ decorate_status terminal st.overall_status (plain_status st.overall_status))
        ∷ summary_lines (counts n) st.components)
