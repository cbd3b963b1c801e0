-- ===== src/Schema/Registry/Script.antt =====
-- The scripts of pkg/surql/schema/sql.go, for tables, edges, buckets and analyzers.
use surql_go.Prelude.{
  ◌==◌, if◌then◌else◌, Bool, ◌&&◌, Option, none, some, List, [], ◌∷◌, ◌++◌, Str, bytes, is_empty,
  join,
}
use surql_go.Errors.{Result, ok, err, wrap, validation, ◌>>=◌}
use surql_go.Schema.Clauses.{Texts}
use surql_go.Schema.Tables.{TableDefinition, table_statements}
use surql_go.Schema.Edges.{EdgeDefinition, edge_statements}
use surql_go.Schema.Buckets.{
  BucketDefinition, DefineMode, plain, if_absent, validate_bucket, bucket_surql,
}
use surql_go.Schema.Analyzers.{AnalyzerDefinition, validate_analyzer, analyzer_surql}
use surql_go.Schema.Registry.{SchemaRegistry, list_tables, list_edges, list_buckets}

-- strings.TrimRight(s, "\n")
unfoldable pub trim_newlines : Str → Str
trim_newlines [] = []
trim_newlines (c ∷ s) =
    let rest = trim_newlines s in if c == b'\n' && is_empty rest then [] else c ∷ rest

-- What Wrapf adds to an error
abbrev pub wrapped {ℓ} : {A : Type ℓ} → Result A → Result A
wrapped (ok a) = ok a
wrapped (err e) = err (wrap validation e)

module _ (x : Texts) (if_not_exists : Bool) where
  abbrev define_mode : DefineMode
  define_mode = if if_not_exists then if_absent else plain

  unfoldable pub generate_bucket_sql : BucketDefinition → Result (List Str)
  unfolding validate_bucket bucket_surql
  generate_bucket_sql b = elim (validate_bucket x b) [
    | some e ↦ err e
    | none ↦ ok (bucket_surql x b define_mode ∷ [])
  ]

  -- Each loop appends an empty line after the statements of an element.
  unfoldable pub bucket_lines : List BucketDefinition → Result (List Str)
  unfolding generate_bucket_sql
  bucket_lines [] = ok []
  bucket_lines (b ∷ bs) =
      let rest = bucket_lines bs in
      (do stmts ← wrapped (generate_bucket_sql b); later ← rest; ok (stmts ++ [] ∷ later))

  unfoldable pub generate_analyzer_sql : AnalyzerDefinition → Result (List Str)
  unfolding validate_analyzer analyzer_surql
  generate_analyzer_sql a = elim (validate_analyzer a) [
    | some e ↦ err e
    | none ↦ ok (analyzer_surql a if_not_exists ∷ [])
  ]

  unfoldable pub analyzer_lines : List AnalyzerDefinition → Result (List Str)
  unfolding generate_analyzer_sql
  analyzer_lines [] = ok []
  analyzer_lines (a ∷ others) =
      let rest = analyzer_lines others in
      (do stmts ← wrapped (generate_analyzer_sql a); later ← rest; ok (stmts ++ [] ∷ later))

  unfoldable pub table_lines : List TableDefinition → List Str
  unfolding table_statements
  table_lines [] = []
  table_lines (t ∷ ts) = table_statements x t if_not_exists ++ [] ∷ table_lines ts

  unfoldable pub edge_lines : List EdgeDefinition → Result (List Str)
  unfolding edge_statements
  edge_lines [] = ok []
  edge_lines (e ∷ es) =
      let rest = edge_lines es in
      (do
        stmts ← wrapped (edge_statements x e if_not_exists)
        later ← rest
        ok (stmts ++ [] ∷ later))

  -- The early return for empty lists gives what the rest gives.
  unfoldable pub generate_schema_script :
      List BucketDefinition
      → List AnalyzerDefinition
      → List TableDefinition
      → List EdgeDefinition
      → Result Str
  unfolding bucket_lines analyzer_lines table_lines edge_lines join trim_newlines
  generate_schema_script buckets analyzers tables edges = do
    first ← bucket_lines buckets
    second ← analyzer_lines analyzers
    last ← edge_lines edges
    ok (trim_newlines (join (first ++ (second ++ (table_lines tables ++ last))) (bytes "\n")))

  unfoldable pub generate_schema_sql : Option SchemaRegistry → Result Str
  unfolding generate_schema_script list_tables list_edges list_buckets
  generate_schema_sql none = ok []
  generate_schema_sql (some r) =
      generate_schema_script (list_buckets r) [] (list_tables r) (list_edges r)

  -- GenerateSchemaSQLFromSlices
  unfoldable pub schema_sql_from_slices : List TableDefinition → List EdgeDefinition → Result Str
  unfolding generate_schema_script
  schema_sql_from_slices tables edges = generate_schema_script [] [] tables edges

  unfoldable pub schema_sql_with_analyzers :
      List AnalyzerDefinition → List TableDefinition → List EdgeDefinition → Result Str
  unfolding generate_schema_script
  schema_sql_with_analyzers analyzers tables edges =
      generate_schema_script [] analyzers tables edges

  unfoldable pub schema_sql_with_buckets :
      List BucketDefinition → List TableDefinition → List EdgeDefinition → Result Str
  unfolding generate_schema_script
  schema_sql_with_buckets buckets tables edges = generate_schema_script buckets [] tables edges
