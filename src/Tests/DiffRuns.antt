-- ===== src/Tests/DiffRuns.antt =====
-- Two versions of one table, and the diffs of pkg/surql/migration/diff.go between them.
use surql_go.Prelude.{
  arith, map, ◌≡◌, ◌↔◌, refl, true, false, none, some, List, [], ◌∷◌, Str, bytes, str_eq, contains,
  is_identifier, lookup, insert, keys, sort_by, insert_by, join, has_prefix, has_suffix,
  has_substring,
}
use surql_go.Errors.{ok, err, Result, new, validation}
use surql_go.Schema.Clauses.{Texts}
use surql_go.Schema.Fields.{FieldDefinition, zero_field, field_surql, field_clauses}
use surql_go.Schema.Indexes.{IndexDefinition, new_index}
use surql_go.Schema.IndexClauses.{
  index_surql, mtree_clauses, hnsw_clauses, disk_ann_clauses, plain_clauses, first_column,
}
use surql_go.Schema.Tables.{TableDefinition, zero_table}
use surql_go.Schema.Buckets.{BucketDefinition, zero_bucket}
use surql_go.Migration.Diffs.{
  SchemaDiff, collect, index_by, added_dropped, common, value_at, modified, diff_named,
}
use surql_go.Migration.Diffs.Statements.{
  validate_event_expression, field_to_sql, index_to_sql, validate_default_value, safe_clause,
  is_safe_default, is_call, ends_call, is_number, is_unsigned, rest_of_number, some_digits,
  all_digits, is_quoted, ends_quote, is_parameter, is_constant,
}
use surql_go.Migration.Diffs.Generators.{
  generate_add_index_diff, generate_drop_index_diff, generate_add_field_diff, generate_table_diff,
}
use surql_go.Migration.Diffs.Tables.{
  diff_indexes, diff_fields, diff_tables, diff_both, diff_edges, diff_events, diff_permissions,
  permissions_equal, all_in, modify_field_pass, fields_equal, generate_add_table_diffs,
}
use surql_go.Migration.Diffs.Buckets.{generate_modify_bucket_diff, diff_buckets, diff_bucket_sets}
use surql_go.Migration.Diffs.Schemas.{Schemas, diff_schemas}
use surql_go.Migration.Diffs.Settled.{IsProper, SameSchemas}
use surql_go.Migration.Diffs.Whole.{diff_schemas-nil}
use surql_go.Migration.Diffs.Defaults.{TrimsBlanks, Harmless, field_to_sql_lem}
use surql_go.Migration.Diffs.Altered.{IsSilent, bare_statement_iff, lost_permissions}
use surql_go.Migration.Diffs.Undo.{Undone, diff_indexes-Undone}
use surql_go.Migration.Diffs.Separators.{separator_passes}

-- Texts without white space around them, in capitals
abbrev plain_texts : Texts
plain_texts = record { trim_space = λ s. s; to_upper = λ s. s; to_lower = λ s. s }

trims : TrimsBlanks plain_texts
trims s = refl

abbrev status : FieldDefinition
status = record zero_field { name = bytes "status"; type = bytes "string"; default = bytes "'new'" }

abbrev user : TableDefinition
user = record zero_table { name = bytes "user"; mode = bytes "SCHEMAFULL"; fields = status ∷ [] }

abbrev by_status : IndexDefinition
unfolding new_index
by_status = new_index (bytes "by_status") (bytes "status" ∷ []) (bytes "UNIQUE")

abbrev indexed_user : TableDefinition
indexed_user = record user { indexes = by_status ∷ [] }

program : Unit {0}
unfolding str_eq contains lookup insert keys sort_by insert_by join has_prefix has_suffix
    has_substring is_identifier new_index field_surql field_clauses collect index_by added_dropped
    common value_at modified diff_named is_safe_default is_call ends_call is_number is_unsigned
    rest_of_number some_digits all_digits is_quoted ends_quote is_parameter is_constant
    validate_event_expression validate_default_value safe_clause field_to_sql index_to_sql
    index_surql mtree_clauses hnsw_clauses disk_ann_clauses plain_clauses first_column
    generate_add_index_diff generate_drop_index_diff diff_indexes diff_fields
    generate_add_field_diff diff_tables diff_both diff_edges diff_bucket_sets diff_schemas
    diff_events diff_permissions permissions_equal all_in modify_field_pass fields_equal
    generate_table_diff generate_add_table_diffs
program = tt

abbrev listed : Result (List SchemaDiff) → List SchemaDiff
listed (ok ds) = ds
listed (err e) = []

abbrev added_index : List SchemaDiff
unfolding program
added_index = listed (diff_indexes user indexed_user)

index_added : diff_indexes user indexed_user ≡ ok added_index
unfolding program
index_added = refl

abbrev both_ways : SchemaDiff → Str × Str
both_ways d = (d.forward, d.backward)

-- One statement forth, and the one that takes it back
added_statements :
    map both_ways added_index
    ≡ (
      bytes "DEFINE INDEX by_status ON TABLE user COLUMNS status UNIQUE;",
      bytes "REMOVE INDEX by_status ON TABLE user;",
    )
      ∷ []
unfolding program
added_statements = refl

diff_indexes-Undone_example :
    (es : List SchemaDiff) × (diff_indexes indexed_user user ≡ ok es) × Undone added_index es
diff_indexes-Undone_example = diff_indexes-Undone user indexed_user added_index refl index_added

abbrev status_text : Str
status_text = bytes "DEFINE FIELD status ON TABLE user TYPE string DEFAULT 'new';"

status_defined : field_to_sql plain_texts (bytes "user") status ≡ ok status_text
unfolding program
status_defined = refl

-- A default that goes on with another statement
injection_refused :
    field_to_sql plain_texts
      (bytes "user")
      (record status { default = bytes "1; REMOVE TABLE user" })
    ≡ err (new validation)
unfolding program
injection_refused = refl

field_to_sql_lem_example :
    (status_text ≡ field_surql status (bytes "user") false)
    × Harmless plain_texts (bytes "'new'")
    × Harmless plain_texts []
field_to_sql_lem_example =
    field_to_sql_lem plain_texts (bytes "user") status_text status trims status_defined

abbrev files : BucketDefinition
files = record zero_bucket {
  name = bytes "files";
  backend = bytes "memory";
  permissions = (bytes "select", bytes "FULL") ∷ [];
  comment = bytes "uploads";
}

abbrev shut_files : BucketDefinition
shut_files = record files {
  backend = [];
  read_only = true;
  permissions = (bytes "select", bytes "NONE") ∷ [];
}

bare_statement_iff_example :
    ((generate_modify_bucket_diff plain_texts files shut_files).forward
      ≡ bytes "ALTER BUCKET files;")
    ↔ IsSilent plain_texts files shut_files
unfolding keys contains
bare_statement_iff_example = bare_statement_iff plain_texts files shut_files (refl, tt) (refl, tt)

lost_permissions_example :
    (d : SchemaDiff) × (diff_buckets plain_texts
        (some files)
        (some (record files { permissions = [] }))
      ≡ ok (d ∷ []))
    × (d.forward ≡ bytes "ALTER BUCKET files;")
lost_permissions_example = lost_permissions plain_texts files (λ e. absurd (ground (arith, e)))

separator_passes_example : validate_event_expression plain_texts (bytes "a;b") ≡ none
separator_passes_example = separator_passes plain_texts (bytes "a") [] b'b' refl refl refl

abbrev in_code : Schemas
in_code = record { tables = indexed_user ∷ []; edges = []; buckets = files ∷ [] }

abbrev in_database : Schemas
in_database = record { tables = user ∷ []; edges = []; buckets = files ∷ [] }

in_code-IsProper : IsProper in_code
unfolding keys contains
in_code-IsProper = record { tables = (tt, tt); edges = tt; buckets = ((refl, tt), tt) }

in_database-IsProper : IsProper in_database
unfolding keys contains
in_database-IsProper = record { tables = (tt, tt); edges = tt; buckets = ((refl, tt), tt) }

diff_schemas-nil_example :
    (diff_schemas plain_texts in_code in_database ≡ ok []) ↔ SameSchemas in_database in_code
diff_schemas-nil_example =
    diff_schemas-nil plain_texts in_code in_database in_code-IsProper in_database-IsProper
