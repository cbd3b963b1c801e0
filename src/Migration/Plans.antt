-- ===== src/Migration/Plans.antt =====
-- pkg/surql/migration/rollback.go: rollback plans, made and executed. What DiscoverMigrations reads
-- from the directory is an input.
pub mod Sound
pub mod Counts
use surql_go.Prelude.{
  ℕ, suc, ◌==◌, Bool, true, false, not, ◌&&◌, ◌||◌, ltb, if◌then◌else◌, Option, none, some, List,
  [], ◌∷◌, ◌++◌, Str, bytes, str_eq, str_ltb, length, sort_by, select,
}
use surql_go.Errors.{GoError, new, validation, migration_history, Result, ok, err}
use surql_go.Connection.Client.{Log, Database, DatabaseClient}
use surql_go.Migration.Models.{down, Migration, MigrationHistory, MigrationStatus}
use surql_go.Migration.Safety.{
  RollbackSafety, safe, rank, RollbackIssue, RollbackPlan, is_safe_level, RollbackResult, Matchers,
  analyze_migration_safety,
}
use surql_go.Migration.Records.{Clock}
use surql_go.Migration.History.{Outcome}
use surql_go.Migration.Executor.{execute_migration}
use surql_go.Migration.Runs.{Discovered}
use surql_go.Migration.Rollback.{get_applied_migrations_ordered}

-- versionExists
unfoldable pub version_exists : List Migration → Str → Bool
version_exists [] version = false
version_exists (m ∷ ms) version =
    if str_eq m.version version then true else version_exists ms version

-- migrationsNewerThan
unfoldable pub migrations_newer_than : List Migration → Str → List Migration
unfolding sort_by
migrations_newer_than ms target =
    sort_by (λ a b. str_ltb a.version b.version) (select (λ m. str_ltb target m.version) ms)

unfoldable pub analyze_all : Matchers → List Migration → List RollbackIssue
unfolding analyze_migration_safety
analyze_all re [] = []
analyze_all re (m ∷ ms) = analyze_migration_safety re m ++ analyze_all re ms

-- AnalyzeRollbackSafety
unfoldable pub analyze_rollback_safety : Matchers → Discovered → Str → Result (List RollbackIssue)
unfolding version_exists migrations_newer_than analyze_all
analyze_rollback_safety re (err e) target = err e
analyze_rollback_safety re (ok ms) target =
    if version_exists ms target
    then ok (analyze_all re (migrations_newer_than ms target))
    else err (new validation)

-- The inner loop of CreateRollbackPlan: the most severe level so far
unfoldable pub worst : RollbackSafety → List RollbackIssue → RollbackSafety
worst overall [] = overall
worst overall (i ∷ is) =
    if ltb (rank overall) (rank i.safety) then worst i.safety is else worst overall is

-- m.Version > targetVersion && m.Version <= currentVersion
abbrev pub between : Str → Str → Migration → Bool
between target current m = str_ltb target m.version && not (str_ltb current m.version)

abbrev pub newest_first : Migration → Migration → Bool
newest_first a b = str_ltb b.version a.version

unfoldable pub to_roll_back : List Migration → Str → Str → List Migration
unfolding sort_by
to_roll_back ms target current = sort_by newest_first (select (between target current) ms)

unfoldable pub last_entry : List MigrationHistory → Option MigrationHistory
last_entry [] = none
last_entry (h ∷ hs) = elim (last_entry hs) [ none ↦ some h | some l ↦ some l ]

unfoldable pub build_plan : Matchers → List Migration → Str → Str → RollbackPlan
unfolding to_roll_back analyze_all worst
build_plan re ms target current =
    let chosen = to_roll_back ms target current in
    let overall = worst safe (analyze_all re chosen) in
    record {
      from_version = current;
      to_version = target;
      migrations = chosen;
      overall_safety = overall;
      issues = analyze_all re chosen;
      requires_approval = not (is_safe_level overall);
    }

unfoldable pub plan_of_history :
    Matchers → List Migration → Str → Result (List MigrationHistory) → Result RollbackPlan
unfolding build_plan last_entry
plan_of_history re ms target (err e) = err e
plan_of_history re ms target (ok history) = elim (last_entry history) [
  | none ↦ err (new migration_history)
  | some l ↦ ok (build_plan re ms target l.version)
]

abbrev is_empty : Str → Bool
is_empty [] = true
is_empty (_ ∷ _) = false

-- CreateRollbackPlan
unfoldable pub create_rollback_plan :
    Matchers
    → Clock
    → Database
    → Option DatabaseClient
    → Discovered
    → Str
    → Log
    → Result RollbackPlan × Log
unfolding version_exists get_applied_migrations_ordered plan_of_history
create_rollback_plan re f db none found target log = (err (new validation), log)
create_rollback_plan re f db (some client) found target log =
    if is_empty target then (err (new validation), log) else elim found [
      | err e ↦ (err e, log)
      | ok ms ↦
          if version_exists ms target
          then (let (history, log1) = get_applied_migrations_ordered f db (some client) log in
              (plan_of_history re ms target history, log1))
          else (err (new validation), log)
    ]

-- The loop of ExecuteRollback: how many were rolled back, and the error that stopped it
unfoldable pub run_rollback :
    Clock → Database → DatabaseClient → List Migration → ℕ → Log → (ℕ × Outcome) × Log
unfolding execute_migration
run_rollback f db client [] count log = ((count, none), log)
run_rollback f db client (m ∷ ms) count log =
    let ((status, failed_with), log1) = execute_migration f db (some client) m down log in
    let after = run_rollback f db client ms (suc count) log1 in
    elim failed_with [ none ↦ after | some e ↦ ((count, some e), log1) ]

rollback_result : RollbackPlan → ℕ → Outcome → RollbackResult × Outcome
rollback_result p count none =
    (record { plan = p; success = true; rolled_back_count = count; errors = [] }, none)
rollback_result p count (some e) =
    (record { plan = p; success = false; rolled_back_count = count; errors = e ∷ [] }, some e)

-- ExecuteRollback
unfoldable pub execute_rollback :
    Clock → Database → Option DatabaseClient → RollbackPlan → Log → (RollbackResult × Outcome) × Log
unfolding run_rollback rollback_result
execute_rollback f db none p log = (
  (record { plan = p; success = false; rolled_back_count = 0; errors = [] }, some (new validation)),
  log,
)
execute_rollback f db (some client) p log =
    let ((count, outcome), log1) = run_rollback f db client p.migrations 0 log in
    (rollback_result p count outcome, log1)
