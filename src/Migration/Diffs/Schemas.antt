-- ===== src/Migration/Diffs/Schemas.antt =====
-- DiffSchemas of diff.go: the schema in code, which is wanted, against that of the database.
use surql_go.Prelude.{none, some, List, ◌++◌}
use surql_go.Errors.{Result, ok, ◌>>=◌}
use surql_go.Schema.Clauses.{Texts}
use surql_go.Schema.Tables.{TableDefinition, zero_table}
use surql_go.Schema.Edges.{EdgeDefinition, zero_edge}
use surql_go.Schema.Buckets.{BucketDefinition}
use surql_go.Migration.Diffs.{SchemaDiff, diff_named}
use surql_go.Migration.Diffs.Tables.{diff_tables, diff_edges}
use surql_go.Migration.Diffs.Buckets.{diff_bucket_sets}

-- What DiffSchemas reads of a SchemaSnapshot
pub record Schemas : Type 0 where
  pub tables : List TableDefinition
  pub edges : List EdgeDefinition
  pub buckets : List BucketDefinition

unfoldable pub diff_schemas : Texts → Schemas → Schemas → Result (List SchemaDiff)
unfolding diff_named diff_tables diff_edges diff_bucket_sets
diff_schemas x code db = do
  tables ←
      diff_named (λ t. t.name) zero_table (λ t. diff_tables x none (some t))
        (λ t. diff_tables x (some t) none) (λ a b. diff_tables x (some a) (some b)) db.tables
        code.tables
  edges ←
      diff_named (λ e. e.name) zero_edge (λ e. diff_edges x none (some e))
        (λ e. diff_edges x (some e) none) (λ a b. diff_edges x (some a) (some b)) db.edges
        code.edges
  buckets ← diff_bucket_sets x code.buckets db.buckets
  ok (tables ++ (edges ++ buckets))
