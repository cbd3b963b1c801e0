-- ===== src/Migration/Safety.antt =====
-- pkg/surql/migration/rollback.go: safety levels, issues, plans and results as data, and the analysis
-- of a migration's down statements. The package's regular expressions and strings.TrimSpace are
-- parameters. Durations are left out.
use surql_go.Prelude.{
  ℕ, ◌==◌, Bool, true, false, ◌||◌, if◌then◌else◌, Option, none, some, List, [], ◌∷◌, ◌++◌, Str,
  length,
}
use surql_go.Errors.{GoError}
use surql_go.Migration.Models.{Migration}

-- The type is a string in the source: `other_safety` is any value but the three constants.
pub data RollbackSafety : Type 0 where
  safe warning danger : RollbackSafety
  other_safety : Str → RollbackSafety

unfoldable pub is_valid_safety : RollbackSafety → Bool
is_valid_safety (other_safety _) = false
is_valid_safety _ = true

abbrev pub rank : RollbackSafety → ℕ
rank danger = 3
rank warning = 2
rank safe = 1
rank (other_safety _) = 0

-- Which of the messages an issue carries
pub data Concern : Type 0 where
  no_rollback_statements : Concern
  dropping_table : Str → Concern
  dropping_field : Str → Concern
  altering_type : Concern

pub record RollbackIssue : Type 0 where
  pub safety : RollbackSafety
  pub migration : Str
  pub concern : Concern

pub record RollbackPlan : Type 0 where
  pub from_version : Str
  pub to_version : Str
  pub migrations : List Migration
  pub overall_safety : RollbackSafety
  pub issues : List RollbackIssue
  pub requires_approval : Bool

unfoldable pub migration_count : RollbackPlan → ℕ
migration_count p = length p.migrations

abbrev pub is_safe_level : RollbackSafety → Bool
is_safe_level safe = true
is_safe_level _ = false

unfoldable pub is_safe : RollbackPlan → Bool
is_safe p = is_safe_level p.overall_safety

abbrev pub loses_data : RollbackSafety → Bool
loses_data warning = true
loses_data danger = true
loses_data _ = false

unfoldable pub has_data_loss : RollbackPlan → Bool
has_data_loss p = loses_data p.overall_safety

pub record RollbackResult : Type 0 where
  pub plan : RollbackPlan
  pub success : Bool
  pub rolled_back_count : ℕ
  pub errors : List GoError

unfoldable pub completed_all : RollbackResult → Bool
unfolding migration_count
completed_all r = r.rolled_back_count == migration_count r.plan

-- The package's matchers: strings.TrimSpace, the capture of dropTableRe and of dropFieldRe, and
-- whether alterTypeRe or redefineFieldRe matches.
pub record Matchers : Type 0 where
  pub trim_space : Str → Str
  pub drop_table : Str → Option Str
  pub drop_field : Str → Option Str
  pub alter_type : Str → Bool
  pub redefine_field : Str → Bool

-- The body of the loop of analyzeMigrationSafety
unfoldable pub statement_issues : Matchers → Str → Str → List RollbackIssue
statement_issues re version stmt = elim (re.trim_space stmt) [
  | [] ↦ []
  | c ∷ cs ↦ elim (re.drop_table (c ∷ cs)) [
    | some table ↦
        record { safety = danger; migration = version; concern = dropping_table table } ∷ []
    | none ↦ elim (re.drop_field (c ∷ cs)) [
      | some name ↦
          record { safety = warning; migration = version; concern = dropping_field name } ∷ []
      | none ↦
          if re.alter_type (c ∷ cs) || re.redefine_field (c ∷ cs)
          then record { safety = warning; migration = version; concern = altering_type } ∷ []
          else []
    ]
  ]
]

unfoldable pub statements_issues : Matchers → Str → List Str → List RollbackIssue
unfolding statement_issues
statements_issues re version [] = []
statements_issues re version (stmt ∷ stmts) =
    statement_issues re version stmt ++ statements_issues re version stmts

-- analyzeMigrationSafety
unfoldable pub analyze_migration_safety : Matchers → Migration → List RollbackIssue
unfolding statements_issues
analyze_migration_safety re m = elim m.down_statements [
  | [] ↦ record { safety = danger; migration = m.version; concern = no_rollback_statements } ∷ []
  | stmt ∷ stmts ↦ statements_issues re m.version (stmt ∷ stmts)
]
