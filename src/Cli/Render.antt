-- ===== src/Cli/Render.antt =====
-- Statuses, columns and uptimes as the commands print them (cli/cmd/envorca/status.go and ping.go).
use envorca.Prelude.{
  ℕ, zero, suc, ◌-◌, ◌/◌, ◌%◌, Bool, List, [], ◌∷◌, ◌++◌, length, if◌then◌else◌, ℤ, pos, negsuc,
  ltb_ℤ,
}
use envorca.Text.{Text, bytes}
use envorca.Text.Decimal.{itoa}
use envorca.Api.{Status, ComponentStatus, PingResponse, EnvironmentStatus}

abbrev pub blanks : ℕ → Text
blanks zero = []
blanks (suc n) = b' ' ∷ blanks n

-- %-Ns, for texts of one byte a character
unfoldable pub padded : ℕ → Text → Text
padded n s = s ++ blanks (n - length s)

unfoldable pub plain_status : Status → Text
plain_status Status.healthy = bytes "HEALTHY"
plain_status Status.warning = bytes "WARNING"
plain_status Status.critical = bytes "CRITICAL"
plain_status _ = bytes "UNKNOWN"

abbrev pub escape_code : ℕ → Text
escape_code n = 27 ∷ (bytes "[" ++ (itoa n ++ bytes "m"))

abbrev pub color : Status → ℕ
color Status.healthy = 32
color Status.warning = 33
color Status.critical = 31
color _ = 36

-- The first argument says whether stdout is a terminal.
unfoldable pub decorate_status : Bool → Status → Text → Text
decorate_status terminal s text =
    if terminal then escape_code (color s) ++ (text ++ escape_code 0) else text

-- %d of an integer
unfoldable pub print_int : ℤ → Text
print_int (pos n) = itoa n
print_int (negsuc n) = bytes "-" ++ itoa (suc n)

abbrev pub positive_part : ℤ → ℕ
positive_part (pos n) = n
positive_part (negsuc n) = 0

-- An int64 of at least 60 is positive, so the quotients are those of natural numbers.
unfoldable pub format_uptime : ℤ → Text
unfolding print_int
format_uptime secs =
    let n = positive_part secs in
    if ltb_ℤ secs (pos 60)
    then print_int secs ++ bytes "s"
    else if ltb_ℤ secs (pos 3600)
    then itoa (n / 60) ++ (bytes "m " ++ (itoa (n % 60) ++ bytes "s"))
    else itoa (n / 3600) ++ (bytes "h " ++ (itoa (n % 3600 / 60) ++ bytes "m"))

abbrev pub component_lines : Bool → List ComponentStatus → List Text
component_lines terminal [] = []
component_lines terminal (c ∷ cs) =
    (bytes "  " ++ (padded 22 c.id ++ decorate_status terminal c.status (plain_status c.status)))
    ∷ component_lines terminal cs

unfoldable pub render_status : Bool → EnvironmentStatus → List Text
render_status terminal st =
    bytes "ENVORCA DAEMON"
    ∷ (bytes "  State:    " ++ st.daemon_state)
    ∷ (bytes "  Version:  " ++ st.version)
    ∷ (bytes "  Socket:   " ++ st.socket)
    ∷ (bytes "  Uptime:   " ++ format_uptime (pos st.uptime_seconds))
    ∷ (bytes "  Overall:  "
        ++ decorate_status terminal st.overall_status (plain_status st.overall_status))
    ∷ []
    ∷ bytes "  COMPONENTS"
    ∷ component_lines terminal st.components

unfoldable pub render_ping : PingResponse → List Text
render_ping resp =
    bytes "Pong from Envorca daemon."
    ∷ (bytes "  Version:  " ++ resp.version)
    ∷ (bytes "  State:    " ++ resp.daemon_state)
    ∷ (bytes "  Uptime:   " ++ format_uptime (pos resp.uptime_seconds))
    ∷ (bytes "  Socket:   " ++ resp.socket)
    ∷ []
