-- ===== src/Cli.antt =====
-- The command line (cli/cmd/envorca): what each command asks of the daemon and what it prints. A
-- command's output is the list of its lines.
pub mod Render
pub mod Doctor
pub mod History
pub mod EventLine
pub mod Repair
pub mod Requests
pub mod Interactive
pub mod Summaries
pub mod Commands
pub mod Lifecycle
pub mod Runner
pub mod Waiting
pub mod Ready
pub mod Endpoints
pub mod Calls
pub mod Follow
pub mod Served
pub mod HungRepair
pub mod HungStatus
pub mod Redundant
