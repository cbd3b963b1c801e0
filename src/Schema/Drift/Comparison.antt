-- ===== src/Schema/Drift/Comparison.antt =====
-- CompareSchemas of pkg/surql/schema/validator.go.
use surql_go.Prelude.{List, [], ◌++◌, Str, bytes, str_eq}
use surql_go.Schema.Tables.{TableDefinition}
use surql_go.Schema.Edges.{EdgeDefinition}
use surql_go.Schema.Drift.{severity_error, ValidationResult, unless, compare_named}
use surql_go.Schema.Drift.Definitions.{
  result, missing, extra, diff_fields, diff_indexes, diff_events,
}

-- A text of a table or of an edge
abbrev pub own_text : Str → Str → Str → Str → List ValidationResult
unfolding str_eq
own_text container message code db =
    unless (str_eq code db) (result severity_error container [] message code db)

module _ (words : Str → List Str) where
  unfoldable pub diff_table : TableDefinition → TableDefinition → List ValidationResult
  unfolding str_eq diff_fields diff_indexes diff_events
  diff_table code db =
      own_text code.name (bytes "Table mode mismatch") code.mode db.mode
      ++ (diff_fields words code.name code.fields db.fields
          ++ (diff_indexes code.name code.indexes db.indexes
              ++ diff_events code.name code.events db.events))

  unfoldable pub diff_edge : EdgeDefinition → EdgeDefinition → List ValidationResult
  unfolding str_eq diff_fields diff_indexes diff_events
  diff_edge code db =
      own_text code.name (bytes "Edge mode mismatch") code.mode db.mode
      ++ (own_text code.name (bytes "Edge from_table mismatch") code.from_table db.from_table
          ++ (own_text code.name (bytes "Edge to_table mismatch") code.to_table db.to_table
              ++ (diff_fields words code.name code.fields db.fields
                  ++ (diff_indexes code.name code.indexes db.indexes
                      ++ diff_events code.name code.events db.events))))

  unfoldable pub compare_schemas :
      List TableDefinition
      → List TableDefinition
      → List EdgeDefinition
      → List EdgeDefinition
      → List ValidationResult
  unfolding compare_named diff_table diff_edge
  compare_schemas code_tables db_tables code_edges db_edges =
      compare_named (λ t. t.name)
        (λ n. missing n [] (bytes "Table defined in code but missing from database"))
        (λ n. extra n [] (bytes "Table exists in database but not defined in code")) diff_table
        code_tables db_tables
      ++ compare_named (λ e. e.name)
          (λ n. missing n [] (bytes "Edge defined in code but missing from database"))
          (λ n. extra n [] (bytes "Edge exists in database but not defined in code")) diff_edge
          code_edges db_edges
