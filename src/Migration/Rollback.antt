-- ===== src/Migration/Rollback.antt =====
-- pkg/surql/migration/executor.go, MigrateDown, and pkg/surql/migration/rollback.go: rollbacks by
-- number of steps and by a plan. The regular expressions and strings.TrimSpace are parameters.
pub mod Versions
use surql_go.Prelude.{
  ℕ, ◌-◌, ◌==◌, Bool, true, false, not, ◌&&◌, ◌||◌, ltb, if◌then◌else◌, Option, none, some, List,
  [], ◌∷◌, ◌++◌, Str, bytes, str_eq, str_ltb, GoMap, lookup, insert, length, drop, reverse, sort_by,
}
use surql_go.Errors.{
  GoError, new, validation, migration_execution, migration_history, Result, ok, err,
}
use surql_go.Connection.Client.{Log, Database, DatabaseClient}
use surql_go.Migration.Models.{down, Migration, MigrationHistory, MigrationStatus}
use surql_go.Migration.Records.{Clock}
use surql_go.Migration.History.{Outcome, get_applied_migrations}
use surql_go.Migration.Executor.{execute_migration}
use surql_go.Migration.Runs.{Discovered, Report}

-- The order of GetAppliedMigrationsOrdered: by time, then by version
abbrev pub applied_before : MigrationHistory → MigrationHistory → Bool
applied_before a b =
    if a.applied_at == b.applied_at
    then str_ltb a.version b.version
    else ltb a.applied_at b.applied_at

ordered_answer : Result (List MigrationHistory) → Result (List MigrationHistory)
unfolding sort_by
ordered_answer (err e) = err e
ordered_answer (ok history) = ok (sort_by applied_before history)

-- GetAppliedMigrationsOrdered
unfoldable pub get_applied_migrations_ordered :
    Clock → Database → Option DatabaseClient → Log → Result (List MigrationHistory) × Log
unfolding get_applied_migrations ordered_answer
get_applied_migrations_ordered f db client log =
    let (history, log1) = get_applied_migrations f db client log in (ordered_answer history, log1)

-- indexByVersion
unfoldable pub index_by_version : List Migration → GoMap Migration → GoMap Migration
index_by_version [] out = out
index_by_version (m ∷ ms) out = index_by_version ms (insert m.version m out)

-- The loop of MigrateDown, over the target entries from the newest on
unfoldable pub roll_back :
    Clock → Database → DatabaseClient → GoMap Migration → List MigrationHistory → Log → Report × Log
unfolding execute_migration
roll_back f db client disk [] log = (([], none), log)
roll_back f db client disk (entry ∷ entries) log = elim (lookup entry.version disk) [
  | none ↦ (([], some (new migration_execution)), log)
  | some m ↦
      let ((status, failed_with), log1) = execute_migration f db (some client) m down log in
      let ((statuses, outcome), log2) = roll_back f db client disk entries log1 in
      elim failed_with [
        | some e ↦ ((status ∷ [], some e), log1)
        | none ↦ ((status ∷ statuses, outcome), log2)
      ]
]

-- The last `steps` entries, newest first
unfoldable pub rollback_targets : ℕ → List MigrationHistory → List MigrationHistory
rollback_targets steps history =
    reverse (if ltb steps (length history) then drop (length history - steps) history else history)

-- MigrateDown
unfoldable pub migrate_down :
    Clock → Database → Option DatabaseClient → Discovered → ℕ → Log → Report × Log
unfolding get_applied_migrations_ordered index_by_version roll_back rollback_targets
migrate_down f db none found steps log = (([], some (new validation)), log)
migrate_down f db (some client) found steps log =
    if steps == 0 then (([], some (new validation)), log) else elim found [
      | err e ↦ (([], some e), log)
      | ok ms ↦
          let (history, log1) = get_applied_migrations_ordered f db (some client) log in
          elim history [
            | err e ↦ (([], some e), log1)
            | ok entries ↦
                roll_back f db client (index_by_version ms []) (rollback_targets steps entries) log1
          ]
    ]
