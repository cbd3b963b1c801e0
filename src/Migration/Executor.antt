-- ===== src/Migration/Executor.antt =====
-- pkg/surql/migration/executor.go: migrations run one at a time, each in its own transaction.
-- What DiscoverMigrations reads from a directory is an input.
pub mod Atomic
pub mod Success
use surql_go.Prelude.{
  ℕ, ◌==◌, ◌-◌, Bool, true, false, not, ◌&&◌, ltb, if◌then◌else◌, Option, none, some, List, [], ◌∷◌,
  ◌++◌, Str, bytes, str_eq, str_ltb, GoMap, lookup, insert, length, take, drop, reverse, sort_by,
}
use surql_go.Errors.{GoError, new, wrap, validation, migration_execution, Result, ok, err}
use surql_go.Connection.Values.{Value}
use surql_go.Connection.Client.{Log, Database, DatabaseClient}
use surql_go.Connection.Transactions.{Transaction, begin, commit, rollback, execute}
use surql_go.Migration.Models.{
  MigrationState, pending, applied, failed, MigrationDirection, up, down, other_direction, is_valid,
  Migration, MigrationHistory, MigrationPlan, is_empty_plan, MigrationStatus,
}
use surql_go.Migration.Records.{Clock}
use surql_go.Migration.History.{
  Outcome, record_migration, remove_migration_record, get_applied_migrations,
}

pub record ExecuteOptions : Type 0 where
  pub steps : ℕ
  pub dry_run : Bool
  pub fail_on_validation : Bool

-- An ExecuteOption is applied to the options so far.
abbrev pub ExecuteOption : Type 0
ExecuteOption = ExecuteOptions → ExecuteOptions

unfoldable pub with_steps : ℕ → ExecuteOption
with_steps n o = record o { steps = n }

unfoldable pub with_dry_run : Bool → ExecuteOption
with_dry_run dry o = record o { dry_run = dry }

unfoldable pub with_fail_on_validation : Bool → ExecuteOption
with_fail_on_validation fail o = record o { fail_on_validation = fail }

abbrev pub default_execute_options : ExecuteOptions
default_execute_options = record { steps = 0; dry_run = false; fail_on_validation = true }

abbrev pub apply_options : List ExecuteOption → ExecuteOptions → ExecuteOptions
apply_options [] o = o
apply_options (opt ∷ opts) o = apply_options opts (opt o)

-- `failed` of ExecuteMigration, without its message
abbrev pub failed_status : Migration → MigrationStatus
failed_status m = record { migration = m; state = failed; applied_at = none }

abbrev pub applied_status : Migration → ℕ → MigrationStatus
applied_status m at = record { migration = m; state = applied; applied_at = some at }

unfoldable pub statements_of : MigrationDirection → Migration → List Str
statements_of down m = m.down_statements
statements_of up m = m.up_statements
statements_of (other_direction _) m = m.up_statements

abbrev failure : Result Value → Option GoError
failure (ok _) = none
failure (err e) = some e

-- The loop over the statements: at the first error the transaction is rolled back.
unfoldable pub run_statements : Database → Transaction → List Str → Log → Option GoError × Log
run_statements db tx [] log = (none, log)
run_statements db tx (stmt ∷ rest) log =
    let (answer, log') = execute db tx stmt log in
    let after = run_statements db tx rest log' in
    elim (failure answer) [ none ↦ after | some e ↦ (some e, (rollback db tx log').1) ]

-- What follows the commit: the history is written.
unfoldable pub write_history :
    Clock → Database → DatabaseClient → Migration → MigrationDirection → ℕ → ℕ → Log → Outcome × Log
write_history f db client m up ms at log =
    record_migration f db (some client)
      (record {
        version = m.version;
        description = m.description;
        applied_at = at;
        checksum = m.checksum;
        execution_time_ms = some ms;
      })
      log
write_history f db client m down ms at log = remove_migration_record db (some client) m.version log
write_history f db client m (other_direction _) ms at log = (none, log)

abbrev pub execution_failed : Migration → GoError → MigrationStatus × Outcome
execution_failed m e = (failed_status m, some (wrap migration_execution e))

-- The status and the error that go with what writing the history returned
unfoldable pub history_answer : Migration → ℕ → Outcome → MigrationStatus × Outcome
history_answer m at none = (applied_status m at, none)
history_answer m at (some e) = execution_failed m e

unfoldable pub finish_migration :
    Clock
    → Database
    → DatabaseClient
    → Migration
    → MigrationDirection
    → Transaction
    → Log
    → (MigrationStatus × Outcome) × Log
unfolding write_history history_answer
finish_migration f db client m dir tx log =
    let (committed, log1) = commit db tx log in
    elim committed.0 [
      | some e ↦ (execution_failed m e, log1)
      | none ↦
          let at = f.now log1 in
          let (written, log2) = write_history f db client m dir (f.elapsed_ms log1) at log1 in
          (history_answer m at written, log2)
    ]

unfoldable pub run_migration :
    Clock
    → Database
    → DatabaseClient
    → Migration
    → MigrationDirection
    → Transaction
    → Log
    → (MigrationStatus × Outcome) × Log
unfolding run_statements finish_migration
run_migration f db client m dir tx log =
    let (ran, log1) = run_statements db tx (statements_of dir m) log in
    elim ran [
      | some e ↦ (execution_failed m e, log1)
      | none ↦ finish_migration f db client m dir tx log1
    ]

-- ExecuteMigration
unfoldable pub execute_migration :
    Clock
    → Database
    → Option DatabaseClient
    → Migration
    → MigrationDirection
    → Log
    → (MigrationStatus × Outcome) × Log
unfolding run_migration is_valid
execute_migration f db none m dir log = ((failed_status m, some (new validation)), log)
execute_migration f db (some client) m dir log =
    if not (is_valid dir)
    then ((failed_status m, some (new validation)), log)
    else (let (begun, log1) = begin db client log in
        elim begun [
          | err e ↦ (execution_failed m e, log1)
          | ok tx ↦ run_migration f db client m dir tx log1
        ])

-- The loop that MigrateUp, MigrateDown and ExecuteMigrationPlan share: it stops at the first error,
-- whose status is the last.
unfoldable pub execute_all :
    Clock
    → Database
    → DatabaseClient
    → MigrationDirection
    → List Migration
    → Log
    → (List MigrationStatus × Outcome) × Log
unfolding execute_migration
execute_all f db client dir [] log = (([], none), log)
execute_all f db client dir (m ∷ ms) log =
    let ((status, failed_with), log1) = execute_migration f db (some client) m dir log in
    let ((statuses, outcome), log2) = execute_all f db client dir ms log1 in
    elim failed_with [
      | some e ↦ ((status ∷ [], some e), log1)
      | none ↦ ((status ∷ statuses, outcome), log2)
    ]
