-- ===== src/Tests/RollbackRuns.antt =====
-- Rollbacks of pkg/surql/migration against the database of the migration runs.
use Prim.Native.Nat.{min}
use surql_go.Prelude.{
  ◌-◌, ◌≡◌, refl, true, false, if◌then◌else◌, none, some, List, [], ◌∷◌, ◌++◌, arith, bytes, str_eq,
  str_ltb, has_prefix, length, take, reverse, sort_by,
}
use surql_go.Errors.{ok}
use surql_go.Connection.Client.{query_with_vars}
use surql_go.Migration.Models.{Migration, MigrationHistory}
use surql_go.Migration.Records.{extract_records, decode_history_record, decode_records}
use surql_go.Migration.History.{get_applied_migrations, define_table}
use surql_go.Migration.Safety.{RollbackPlan, Matchers, danger, dropping_table}
use surql_go.Migration.Plans.{create_rollback_plan, plan_of_history}
use surql_go.Migration.Plans.Sound.{IsPlan, StartsAtLast, create_rollback_plan-IsPlan}
use surql_go.Migration.Rollback.{get_applied_migrations_ordered, migrate_down}
use surql_go.Migration.Rollback.Versions.{RollsBack, migrate_down-RollsBack}
use surql_go.Tests.MigrationRuns.{clock, db, client, good, next_one, entry_1, migration_of}

abbrev origin : Migration
origin = migration_of (bytes "0") (bytes "B")

-- The matchers find REMOVE TABLE at the start of a statement, and a table t.
abbrev matchers : Matchers
matchers = record {
  trim_space = λ s. s;
  drop_table = λ s. if has_prefix s (bytes "REMOVE TABLE") then some (bytes "t") else none;
  drop_field = λ s. none;
  alter_type = λ s. false;
  redefine_field = λ s. false;
}

abbrev dropping : Migration
dropping = record good { down_statements = bytes "REMOVE TABLE t" ∷ [] }

program : Unit {0}
unfolding str_eq str_ltb has_prefix get_applied_migrations define_table query_with_vars
    extract_records decode_history_record decode_records get_applied_migrations_ordered sort_by
    create_rollback_plan plan_of_history
program = tt

ordered_read : (get_applied_migrations_ordered clock db (some client) []).0 ≡ ok (entry_1 ∷ [])
unfolding program
ordered_read = refl

migrate_down-RollsBack_example :
    (targets : List MigrationHistory) × (take (1 - 3) (entry_1 ∷ []) ++ reverse targets
      ≡ entry_1 ∷ [])
    × (length (reverse targets) ≡ min 3 1)
    × RollsBack targets (migrate_down clock db (some client) (ok (good ∷ next_one ∷ [])) 3 []).0
migrate_down-RollsBack_example =
    migrate_down-RollsBack clock db client (good ∷ next_one ∷ []) 3 [] (entry_1 ∷ []) (omega arith)
      ordered_read

abbrev plan : RollbackPlan
plan = record {
  from_version = bytes "1";
  to_version = bytes "0";
  migrations = dropping ∷ [];
  overall_safety = danger;
  issues =
      record { safety = danger; migration = bytes "1"; concern = dropping_table (bytes "t") } ∷ [];
  requires_approval = true;
}

planned :
    (create_rollback_plan matchers clock db
      (some client)
      (ok (origin ∷ dropping ∷ next_one ∷ []))
      (bytes "0")
      []).0
    ≡ ok plan
unfolding program
planned = refl

create_rollback_plan-IsPlan_example :
    IsPlan matchers (origin ∷ dropping ∷ next_one ∷ []) (bytes "0") plan
    × StartsAtLast (get_applied_migrations_ordered clock db (some client) []).0 plan
create_rollback_plan-IsPlan_example =
    create_rollback_plan-IsPlan matchers clock db (some client) (origin ∷ dropping ∷ next_one ∷ [])
      (bytes "0") [] plan planned
