-- ===== src/Tests/DriftRuns.antt =====
-- A registry of pkg/surql/schema, its script, and its drift from a database.
use surql_go.Prelude.{
  ℕ, ◌≡◌, ◌≢◌, ◌↔◌, refl, arith, not, ◌==◌, Bool-cases, inl, inr, is_empty, select, true, false,
  none, some, List, [], ◌∷◌, Str, bytes, str_eq, str_ltb, contains, split, is_identifier, lookup,
  insert, keys, sort_by, insert_by, join, Every,
}
use surql_go.Prelude.Int.{pos}
use surql_go.Errors.{ok, err, new, wrap, validation}
use surql_go.Types.Decimal.{digits, format_nat, format_int}
use surql_go.Schema.Clauses.{Texts, permission_statements}
use surql_go.Schema.Fields.{zero_field, field_surql, field_clauses}
use surql_go.Schema.Indexes.{IndexDefinition, new_index}
use surql_go.Schema.IndexClauses.{index_surql, plain_clauses}
use surql_go.Schema.Tables.{
  TableDefinition, zero_table, table_surql, child_statements, table_statements,
}
use surql_go.Schema.Edges.{
  EdgeDefinition, zero_edge, edge_relation, lacks_ends, edge_surql, edge_statements,
}
use surql_go.Schema.Buckets.{validate_bucket, bucket_surql, permissions_clause}
use surql_go.Migration.Diffs.{index_by}
use surql_go.Migration.Diffs.Settled.{SameBy}
use surql_go.Schema.Analyzers.{
  AnalyzerDefinition, standard_analyzer, new_analyzer, with_tokenizer, with_filter, with_filters,
  snowball, filter_surql, validate_analyzer, analyzer_surql,
}
use surql_go.Schema.Registry.{
  new_schema_registry, register_table, register_edge, register_bucket, clear_schemas, sorted_names,
  element, in_name_order, table_names, list_tables, list_edges, list_buckets,
}
use surql_go.Schema.Registry.Script.{
  generate_analyzer_sql, analyzer_lines, schema_sql_with_analyzers, trim_newlines,
  generate_bucket_sql, bucket_lines, table_lines, edge_lines, generate_schema_script,
  generate_schema_sql,
}
use surql_go.Schema.Registry.Scripts.{Succeeds, generate_schema_script-Succeeds}
use surql_go.Schema.Registry.Listing.{
  Call, a_table, clears, run_call, run_calls, HasLists, run_calls-HasLists,
}
use surql_go.Schema.Drift.{
  normalize_expression, sorted_slice_equal, walk, compare_named, severity_error,
}
use surql_go.Schema.Drift.Definitions.{
  result, diff_field, diff_fields, diff_index, diff_indexes, diff_events,
}
use surql_go.Schema.Drift.Comparison.{diff_table, compare_schemas}
use surql_go.Schema.Drift.Spaces.{IsUnbroken, IsWord, FieldsLaws}
use surql_go.Schema.Drift.Sameness.{IsSameTable, IsSameEdge}
use surql_go.Schema.Drift.Whole.{compare_schemas-nil}

program : Unit {0}
unfolding str_eq str_ltb contains split is_identifier lookup insert keys sort_by insert_by join
    digits format_nat format_int permission_statements field_surql field_clauses new_index
    index_surql plain_clauses table_surql child_statements table_statements edge_surql
    edge_statements validate_bucket bucket_surql permissions_clause index_by new_schema_registry
    register_table register_edge register_bucket clear_schemas sorted_names element in_name_order
    table_names list_tables list_edges list_buckets trim_newlines standard_analyzer new_analyzer
    with_tokenizer with_filter with_filters filter_surql validate_analyzer analyzer_surql
    generate_analyzer_sql analyzer_lines schema_sql_with_analyzers generate_bucket_sql bucket_lines
    table_lines edge_lines generate_schema_script generate_schema_sql run_call run_calls
    normalize_expression sorted_slice_equal walk compare_named diff_field diff_fields diff_index
    diff_indexes diff_events diff_table compare_schemas
program = tt

-- Texts that have no white space, in capitals
abbrev plain_texts : Texts
plain_texts = record { trim_space = λ s. s; to_upper = λ s. s; to_lower = λ s. s }

abbrev one_word : Str → List Str
one_word s = s ∷ []

abbrev user : TableDefinition
user = record zero_table {
  name = bytes "user";
  mode = bytes "SCHEMAFULL";
  fields = record zero_field { name = bytes "age"; type = bytes "int" } ∷ [];
}

abbrev account : TableDefinition
account = record zero_table { name = bytes "account"; mode = bytes "SCHEMALESS" }

abbrev half_edge : EdgeDefinition
half_edge = record zero_edge { name = bytes "knows"; mode = edge_relation }

abbrev calls : List Call
calls =
    a_table user
    ∷ a_table (record account { name = [] })
    ∷ clears
    ∷ a_table user
    ∷ a_table account
    ∷ []

calls_names :
    table_names (run_calls calls new_schema_registry) ≡ bytes "account" ∷ bytes "user" ∷ []
unfolding program
calls_names = refl

calls_script :
    generate_schema_sql plain_texts false (some (run_calls calls new_schema_registry))
    ≡ ok (
        bytes
          "DEFINE TABLE account SCHEMALESS;\n\nDEFINE TABLE user SCHEMAFULL;\nDEFINE FIELD age ON TABLE user TYPE int;")
unfolding program
calls_script = refl

half_refused :
    generate_schema_script plain_texts false [] [] (user ∷ []) (half_edge ∷ [])
    ≡ err (wrap validation (new validation))
unfolding program
half_refused = refl

run_calls-HasLists_example : HasLists (run_calls calls new_schema_registry)
run_calls-HasLists_example = run_calls-HasLists calls

abbrev english : AnalyzerDefinition
unfolding standard_analyzer new_analyzer with_tokenizer with_filters with_filter
english = standard_analyzer (bytes "english") (with_filter (snowball (bytes "english")) ∷ [])

english_script :
    schema_sql_with_analyzers plain_texts false (english ∷ []) [] []
    ≡ ok (
        bytes "DEFINE ANALYZER english TOKENIZERS class FILTERS lowercase,ascii,snowball(english);")
unfolding program
english_script = refl

nameless_refused :
    schema_sql_with_analyzers plain_texts false (record english { name = [] } ∷ []) [] []
    ≡ err (wrap validation (new validation))
unfolding program
nameless_refused = refl

generate_schema_script-Succeeds_example :
    Succeeds
      (generate_schema_script plain_texts true [] (english ∷ []) (user ∷ []) (half_edge ∷ []))
    ↔ (Every (λ b. validate_bucket plain_texts b ≡ none) []
        × Every (λ a. a.name ≢ []) (english ∷ [])
        × Every (λ e. lacks_ends e ≡ false) (half_edge ∷ []))
generate_schema_script-Succeeds_example =
    generate_schema_script-Succeeds plain_texts true [] (english ∷ []) (user ∷ []) (half_edge ∷ [])

mode_drift :
    compare_schemas one_word (user ∷ []) (record user { mode = bytes "DROP" } ∷ []) [] []
    ≡ result severity_error
        (bytes "user")
        []
        (bytes "Table mode mismatch")
        (bytes "SCHEMAFULL")
        (bytes "DROP")
      ∷ []
unfolding program
mode_drift = refl

abbrev near : IndexDefinition
unfolding new_index
near = record (new_index (bytes "near") (bytes "v" ∷ []) (bytes "DISKANN")) { dimension = pos 3 }

-- The parameters of a DISKANN index are not compared.
dimension_unseen :
    compare_schemas one_word
      (record user { indexes = near ∷ [] } ∷ [])
      (record user { indexes = record near { dimension = pos 4 } ∷ [] } ∷ [])
      []
      []
    ≡ []
unfolding program
dimension_unseen = refl

-- strings.Fields on texts whose only white space are spaces
abbrev spaced : Str → List Str
spaced s = select (λ w. not (is_empty w)) (split b' ' s)

split-IsUnbroken : (s : Str) → Every IsUnbroken (split b' ' s)
unfolding split
split-IsUnbroken [] = (tt, tt)
split-IsUnbroken (c ∷ s) = elim (Bool-cases (c == b' ')) [
  | inl blank ↦ rw (blank, split) (tt, split-IsUnbroken s)
  | inr other ↦
      let ne : c ≢ b' ' = λ e. ground (arith, e) in
      rw (other, split) (grown c (split b' ' s) ne (split-IsUnbroken s))
]
  where
    grown :
        (d : ℕ) (ws : List Str)
        → d ≢ b' '
        → Every IsUnbroken ws
        → Every IsUnbroken
            (elim ws as (λ x. List Str) [ [] ↦ (d ∷ []) ∷ [] | w ∷ rest ↦ (d ∷ w) ∷ rest ])
    grown d [] ne h = ((ne, tt), tt)
    grown d (w ∷ ws) ne h = ((ne, h.0), h.1)

select-IsWord :
    (ws : List Str) → Every IsUnbroken ws → Every IsWord (select (λ w. not (is_empty w)) ws)
select-IsWord [] h = tt
select-IsWord ([] ∷ ws) h = select-IsWord ws h.1
select-IsWord ((c ∷ w) ∷ ws) h = (((λ e. ground (arith, e)), h.0), select-IsWord ws h.1)

spaced-FieldsLaws : FieldsLaws spaced
spaced-FieldsLaws = record { all_words = λ s. select-IsWord (split b' ' s) (split-IsUnbroken s) }

compare_schemas-nil_example :
    (compare_schemas spaced (user ∷ []) (account ∷ []) (half_edge ∷ []) [] ≡ []) ↔ (
      SameBy (λ t. t.name) (IsSameTable spaced) (user ∷ []) (account ∷ [])
      × SameBy (λ e. e.name) (IsSameEdge spaced) (half_edge ∷ []) [])
compare_schemas-nil_example =
    compare_schemas-nil spaced spaced-FieldsLaws (user ∷ []) (account ∷ []) (half_edge ∷ []) []
