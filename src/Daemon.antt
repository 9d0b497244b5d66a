-- ===== src/Daemon.antt =====
-- The service handlers (daemon/internal/api/daemon.go). A handler returns its reply, the daemon's new
-- state and the outside world. The logger only writes and is left out.
pub mod Rpc
pub mod Handlers
pub mod Limits
pub mod Effects
pub mod Stream
pub mod Replayed
