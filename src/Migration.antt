-- ===== src/Migration.antt =====
-- pkg/surql/migration: migrations and their history, running them forward and back, the version graph
-- of snapshots, and the diffs of schemas.
pub mod Models
pub mod Versions
pub mod Records
pub mod History
pub mod Executor
pub mod Validation
pub mod Runs
pub mod Rollback
pub mod Safety
pub mod Plans
pub mod Diffs
