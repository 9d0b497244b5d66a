-- ===== src/Examples.antt =====
-- A small machine on which the examples run: a runner that answers every command with the listing of one
-- running distribution and counts its calls, and a database that never fails.
pub mod Health
pub mod Events
pub mod Recovery
pub mod State
pub mod Daemon
pub mod Cli
pub mod Wsl
pub mod Diagnosis
pub mod Config
pub mod Process
pub mod Deadlines
pub mod Composed
pub mod Listing
use envorca.Prelude.{
  ℕ, zero, suc, ◌≡◌, refl, sym, ap, ◌∙◌, Bool, true, false, Option, none, some, List, [], ◌∷◌,
}
use envorca.Text.{Text, bytes}
use envorca.Api.{healthy, critical, warning, ComponentStatus, brief}
use envorca.Health as HealthModule
use envorca.Health.{Context}
use envorca.Wsl as WslModule
use envorca.Wsl.{Runner, Result, ok, err}
use envorca.State.Sql.{Row, Table, Statement, meaning, select_latest, Query, rows_until, Database}

abbrev pub half_minute : Context
half_minute = record { deadline = some 30 }

abbrev pub one_distro : Text
one_distro = bytes "  NAME      STATE           VERSION\n* Ubuntu    Running         2\n"

abbrev pub counting_runner : Runner ℕ
counting_runner c args w = (ok one_distro, suc w)

abbrev pub broken_wsl : ComponentStatus
broken_wsl = record (brief critical (bytes "Linux environment failed to start")) {
  id = bytes "wsl";
}

abbrev pub unqueried_wsl : ComponentStatus
unqueried_wsl = record (brief critical (bytes "could not query WSL status")) { id = bytes "wsl" }

abbrev pub empty_table : {V : Type 0} → Table V
empty_table = record { rows = []; last_id = 0 }

abbrev pub rows_of : {V : Type 0} → Query V → List (Row V)
rows_of (Query.rows_until rs e) = rs
rows_of (Query.query_failed e) = []
rows_of (Query.scan_failed e) = []

pub never_fails :
    {V : Type 0} {t t' : Table V} {e : Text}
    → ¬ ((let r : Option Text × Table V = (none, t) in r) ≡ (some e, t'))
never_fails h = cc

abbrev pub memory_database : (V : Type 0) → Database V
memory_database V = record {
  Db = Table V;
  table = λ t. t;
  clock = λ t. bytes "noon";
  exec = λ s t. (none, meaning (bytes "noon") s t);
  query_latest = λ k t. rows_until (select_latest k t) none;
  exec_done = λ s t {d'} h. sym (ap (λ r. r.1) h);
  exec_failed = λ s t {e} {d'} h. absurd (never_fails h);
  query_done = λ k t {rs} h. sym (ap rows_of h);
}
