-- ===== src/Migration/Validation.antt =====
-- validateMigrationSet of pkg/surql/migration/executor.go: duplicate versions, missing dependencies
-- and missing up statements, as texts.
pub mod Complete
use surql_go.Prelude.{
  ℕ, ◌+◌, Bool, true, false, ltb, if◌then◌else◌, Option, none, some, List, [], ◌∷◌, ◌++◌, Str,
  bytes, str_ltb, join, GoMap, lookup, insert, sort_by,
}
use surql_go.Migration.Models.{Migration}

-- counts[m.Version]++
unfoldable pub increment : Str → GoMap ℕ → GoMap ℕ
increment v counts = insert v (elim (lookup v counts) [ none ↦ 1 | some n ↦ n + 1 ]) counts

unfoldable pub count_versions : List Migration → GoMap ℕ → GoMap ℕ
unfolding increment
count_versions [] counts = counts
count_versions (m ∷ ms) counts = count_versions ms (increment m.version counts)

-- The versions that are counted more than once, in the order that the map is walked in
unfoldable pub repeated : GoMap ℕ → List Str
repeated [] = []
repeated ((v, c) ∷ rest) = if ltb 1 c then v ∷ repeated rest else repeated rest

unfoldable pub duplicate_issues : List Str → List Str
unfolding sort_by join
duplicate_issues [] = []
duplicate_issues (v ∷ vs) =
    (bytes "duplicate migration versions: " ++ join (sort_by str_ltb (v ∷ vs)) (bytes ", ")) ∷ []

-- versionSet
unfoldable pub version_set : List Migration → GoMap Bool → GoMap Bool
version_set [] set = set
version_set (m ∷ ms) set = version_set ms (insert m.version true set)

missing_text : Str → Str → Str
missing_text version dep =
    bytes "migration " ++ version ++ bytes " depends on missing migration " ++ dep

unfoldable pub missing_issues : GoMap Bool → Str → List Str → List Str
unfolding missing_text
missing_issues set version [] = []
missing_issues set version (dep ∷ deps) = elim (lookup dep set) [
  | none ↦ missing_text version dep ∷ missing_issues set version deps
  | some _ ↦ missing_issues set version deps
]

unfoldable pub empty_issues : Migration → List Str
empty_issues m = elim m.up_statements [
  | [] ↦ (bytes "migration " ++ m.version ++ bytes " has no up statements") ∷ []
  | s ∷ ss ↦ []
]

unfoldable pub migration_issues : GoMap Bool → List Migration → List Str
unfolding missing_issues empty_issues
migration_issues set [] = []
migration_issues set (m ∷ ms) =
    missing_issues set m.version m.depends_on ++ empty_issues m ++ migration_issues set ms

-- validateMigrationSet
unfoldable pub validate_migration_set : List Migration → List Str
unfolding count_versions repeated duplicate_issues version_set migration_issues sort_by
validate_migration_set ms =
    sort_by str_ltb (
      duplicate_issues (repeated (count_versions ms [])) ++ migration_issues (version_set ms []) ms)
