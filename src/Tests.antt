-- ===== src/Tests.antt =====
-- Concrete runs of the modelled code.
mod CacheRuns
mod VersionRuns
mod ManagerRuns
mod RecordIdRuns
mod TransactionRuns
mod MigrationRuns
mod RollbackRuns
mod RegistryRuns
mod SchemaRuns
mod DiffRuns
mod QueryRuns
mod DriftRuns
