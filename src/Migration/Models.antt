-- ===== src/Migration/Models.antt =====
-- pkg/surql/migration/models.go: migrations, their states and the history entries.
use surql_go.Prelude.{ℕ, Bool, true, false, Option, List, [], ◌∷◌, Str}

pub data MigrationState : Type 0 where
  pending applied failed : MigrationState

-- The type is a string in the source: `other_direction` is any value but the two constants.
pub data MigrationDirection : Type 0 where
  up down : MigrationDirection
  other_direction : Str → MigrationDirection

unfoldable pub is_valid : MigrationDirection → Bool
is_valid up = true
is_valid down = true
is_valid (other_direction _) = false

pub record Migration : Type 0 where
  pub version : Str
  pub description : Str
  pub path : Str
  pub up_statements : List Str
  pub down_statements : List Str
  pub checksum : Str
  pub depends_on : List Str

-- The zero time is 0.
pub record MigrationHistory : Type 0 where
  pub version : Str
  pub description : Str
  pub applied_at : ℕ
  pub checksum : Str
  pub execution_time_ms : Option ℕ

pub record MigrationPlan : Type 0 where
  pub migrations : List Migration
  pub direction : MigrationDirection

unfoldable pub is_empty_plan : MigrationPlan → Bool
is_empty_plan p = elim p.migrations [ [] ↦ true | m ∷ ms ↦ false ]

-- Its error text is left out.
pub record MigrationStatus : Type 0 where
  pub migration : Migration
  pub state : MigrationState
  pub applied_at : Option ℕ
