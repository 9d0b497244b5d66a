-- ===== src/State.antt =====
-- The state database (daemon/internal/state): the history tables over an SQL database that is a parameter, the
-- migrations and the settings.
pub mod Sql
pub mod Ordered
pub mod History
pub mod Retention
pub mod Migrations
pub mod Migrated
pub mod Handle
pub mod Highest
