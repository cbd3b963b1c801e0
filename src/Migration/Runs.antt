-- ===== src/Migration/Runs.antt =====
-- pkg/surql/migration/executor.go: what is pending, and the runs over a directory of migrations.
-- What DiscoverMigrations reads from the directory is an input.
pub mod Stops
pub mod Limits
pub mod Pending
use surql_go.Prelude.{
  ℕ, suc, ◌-◌, Bool, true, false, not, ◌&&◌, ltb, if◌then◌else◌, Option, none, some, List, [], ◌∷◌,
  Str, str_eq, str_ltb, GoMap, lookup, insert, length, take, drop, reverse, sort_by, map,
}
use surql_go.Errors.{GoError, new, validation, migration_execution, Result, ok, err}
use surql_go.Connection.Client.{Log, Database, DatabaseClient}
use surql_go.Migration.Models.{
  pending, up, down, other_direction, MigrationDirection, is_valid, Migration, MigrationHistory,
  MigrationPlan, is_empty_plan, MigrationStatus,
}
use surql_go.Migration.Records.{Clock}
use surql_go.Migration.History.{Outcome, get_applied_migrations}
use surql_go.Migration.Validation.{validate_migration_set}
use surql_go.Migration.Executor.{ExecuteOptions, execute_migration, execute_all}

-- The result of DiscoverMigrations, of which only failing or not and the migrations are used
abbrev pub Discovered : Type 0
Discovered = Result (List Migration)

abbrev pub Report : Type 0
Report = List MigrationStatus × Outcome

pub record MigrationStatusReport : Type 0 where
  pub total : ℕ
  pub applied : ℕ
  pub pending : ℕ

-- The loop that fills `appliedSet`
unfoldable pub applied_set : List MigrationHistory → GoMap Bool → GoMap Bool
applied_set [] set = set
applied_set (a ∷ rest) set = applied_set rest (insert a.version true set)

-- `_, ok := set[version]`
unfoldable pub in_set : Str → GoMap Bool → Bool
in_set version set = elim (lookup version set) [ none ↦ false | some _ ↦ true ]

-- The loop of pendingMigrations
unfoldable pub not_applied : GoMap Bool → List Migration → List Migration
unfolding in_set
not_applied set [] = []
not_applied set (m ∷ ms) =
    if in_set m.version set then not_applied set ms else m ∷ not_applied set ms

abbrev pub by_version : Migration → Migration → Bool
by_version a b = str_ltb a.version b.version

unfoldable pub pending_answer :
    List Migration → Result (List MigrationHistory) → Result (List Migration)
unfolding applied_set not_applied sort_by
pending_answer ms (err e) = err e
pending_answer ms (ok history) = ok (sort_by by_version (not_applied (applied_set history []) ms))

-- pendingMigrations
unfoldable pub pending_migrations :
    Clock → Database → Option DatabaseClient → List Migration → Log → Result (List Migration) × Log
unfolding get_applied_migrations pending_answer
pending_migrations f db client ms log =
    let (history, log1) = get_applied_migrations f db client log in
    (pending_answer ms history, log1)

-- `if options.Steps > 0 && int(options.Steps) < len(pending)`
unfoldable pub limit_steps : ℕ → List Migration → List Migration
limit_steps steps ms = if ltb 0 steps && ltb steps (length ms) then take steps ms else ms

unfoldable pub pending_status : Migration → MigrationStatus
pending_status m = record { migration = m; state = pending; applied_at = none }

-- The loop of MigrateUp, by the option DryRun
unfoldable pub run_up :
    Clock → Database → DatabaseClient → ExecuteOptions → List Migration → Log → Report × Log
unfolding execute_all pending_status
run_up f db client o ms log =
    if o.dry_run then ((map pending_status ms, none), log) else execute_all f db client up ms log

validation_failure : ExecuteOptions → List Migration → Outcome
unfolding validate_migration_set
validation_failure o ms =
    if o.fail_on_validation
    then elim (validate_migration_set ms) [ [] ↦ none | i ∷ is ↦ some (new migration_execution) ]
    else none

-- ValidateMigrations
unfoldable pub validate_migrations : Discovered → Result (List Str)
unfolding validate_migration_set
validate_migrations (err e) = err e
validate_migrations (ok ms) = ok (validate_migration_set ms)

-- MigrateUp, after the directory has been read
unfoldable pub migrate_discovered :
    Clock → Database → DatabaseClient → ExecuteOptions → List Migration → Log → Report × Log
unfolding validation_failure pending_migrations limit_steps run_up
migrate_discovered f db client o ms log = elim (validation_failure o ms) [
  | some e ↦ (([], some e), log)
  | none ↦
      let (answer, log1) = pending_migrations f db (some client) ms log in
      elim answer [
        | err e ↦ (([], some e), log1)
        | ok rest ↦ run_up f db client o (limit_steps o.steps rest) log1
      ]
]

-- MigrateUp
unfoldable pub migrate_up :
    Clock → Database → Option DatabaseClient → Discovered → ExecuteOptions → Log → Report × Log
unfolding migrate_discovered
migrate_up f db none found o log = (([], some (new validation)), log)
migrate_up f db (some client) (err e) o log = (([], some e), log)
migrate_up f db (some client) (ok ms) o log = migrate_discovered f db client o ms log

-- GetPendingMigrations
unfoldable pub get_pending_migrations :
    Clock → Database → Option DatabaseClient → Discovered → Log → Result (List Migration) × Log
unfolding pending_migrations
get_pending_migrations f db none found log = (err (new validation), log)
get_pending_migrations f db (some client) (err e) log = (err e, log)
get_pending_migrations f db (some client) (ok ms) log = pending_migrations f db (some client) ms log

unfoldable pub count_applied : GoMap Bool → List Migration → ℕ
unfolding in_set
count_applied set [] = 0
count_applied set (m ∷ ms) =
    let rest = count_applied set ms in if in_set m.version set then suc rest else rest

unfoldable pub status_answer :
    List Migration → Result (List MigrationHistory) → Result MigrationStatusReport
unfolding applied_set count_applied
status_answer ms (err e) = err e
status_answer ms (ok history) =
    let count = count_applied (applied_set history []) ms in
    ok (record { total = length ms; applied = count; pending = length ms - count })

-- GetMigrationStatus
unfoldable pub get_migration_status :
    Clock → Database → Option DatabaseClient → Discovered → Log → Result MigrationStatusReport × Log
unfolding get_applied_migrations status_answer
get_migration_status f db none found log = (err (new validation), log)
get_migration_status f db (some client) (err e) log = (err e, log)
get_migration_status f db (some client) (ok ms) log =
    let (history, log1) = get_applied_migrations f db (some client) log in
    (status_answer ms history, log1)

plan_answer : Result (List Migration) → Result MigrationPlan
plan_answer (err e) = err e
plan_answer (ok ms) = ok (record { migrations = ms; direction = up })

-- CreateMigrationPlan
unfoldable pub create_migration_plan :
    Clock → Database → Option DatabaseClient → Discovered → Log → Result MigrationPlan × Log
unfolding get_pending_migrations plan_answer
create_migration_plan f db client found log =
    let (answer, log1) = get_pending_migrations f db client found log in (plan_answer answer, log1)

unfoldable pub in_order : MigrationDirection → List Migration → List Migration
in_order down ms = reverse ms
in_order up ms = ms
in_order (other_direction _) ms = ms

-- ExecuteMigrationPlan
unfoldable pub execute_migration_plan :
    Clock → Database → Option DatabaseClient → MigrationPlan → Log → Report × Log
unfolding is_empty_plan is_valid execute_all in_order
execute_migration_plan f db none plan log = (([], some (new validation)), log)
execute_migration_plan f db (some client) plan log =
    if not (is_valid plan.direction)
    then (([], some (new validation)), log)
    else if is_empty_plan plan
    then (([], none), log)
    else execute_all f db client plan.direction (in_order plan.direction plan.migrations) log
