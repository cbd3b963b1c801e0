-- ===== src/Schema/Drift/Definitions.antt =====
-- diffFields, diffIndexes and diffEvents of pkg/surql/schema/validator.go.
use surql_go.Prelude.{
  if◌then◌else◌, Bool, true, false, not, ◌&&◌, List, [], ◌++◌, Str, bytes, str_eq, join,
}
use surql_go.Prelude.Int.{ℤ, ltb_ℤ}
use surql_go.Types.Decimal.{format_int}
use surql_go.Schema.Fields.{FieldDefinition}
use surql_go.Schema.Indexes.{IndexDefinition, index_mtree, index_hnsw}
use surql_go.Schema.Events.{EventDefinition}
use surql_go.Schema.Drift.{
  ValidationSeverity, severity_error, severity_warning, severity_info, ValidationResult, unless,
  normalize_expression, sorted_slice_equal, compare_named,
}

abbrev pub result : ValidationSeverity → Str → Str → Str → Str → Str → ValidationResult
result severity table field message code_value db_value = record {
  severity = severity;
  table = table;
  field = field;
  message = message;
  code_value = code_value;
  db_value = db_value;
}

abbrev pub same_flag : Bool → Bool → Bool
same_flag true b = b
same_flag false b = not b

abbrev pub same_number : ℤ → ℤ → Bool
same_number a b = not (ltb_ℤ a b) && not (ltb_ℤ b a)

-- strconv.FormatBool
abbrev format_bool : Bool → Str
format_bool true = bytes "true"
format_bool false = bytes "false"

-- An element of a container on one side only
abbrev pub missing : Str → Str → Str → ValidationResult
missing table field message =
    result severity_error table field message (bytes "exists") (bytes "missing")

abbrev pub extra : Str → Str → Str → ValidationResult
extra table field message =
    result severity_warning table field message (bytes "missing") (bytes "exists")

module _ (words : Str → List Str) (container : Str) where
  abbrev same_expression : Str → Str → Bool
  same_expression a b = str_eq (normalize_expression words a) (normalize_expression words b)

  abbrev expression : Str → Str → Str → Str → List ValidationResult
  unfolding normalize_expression
  expression name message code db =
      unless (same_expression code db) (result severity_warning container name message code db)

  abbrev flag : Str → Str → Bool → Bool → List ValidationResult
  flag name message code db =
      unless (same_flag code db)
        (result severity_info container name message (format_bool code) (format_bool db))

  unfoldable pub diff_field : FieldDefinition → FieldDefinition → List ValidationResult
  unfolding normalize_expression str_eq
  diff_field code db =
      unless (str_eq code.type db.type)
        (result severity_error container code.name (bytes "Field type mismatch") code.type db.type)
      ++ (expression code.name (bytes "Field assertion mismatch") code.assertion db.assertion
          ++ (expression code.name (bytes "Field default value mismatch") code.default db.default
              ++ (expression code.name (bytes "Field computed value mismatch") code.value db.value
                  ++ (flag code.name (bytes "Field readonly flag mismatch") code.read_only
                        db.read_only
                      ++ flag code.name (bytes "Field flexible flag mismatch") code.flexible
                          db.flexible))))

  unfoldable pub diff_fields : List FieldDefinition → List FieldDefinition → List ValidationResult
  unfolding compare_named diff_field
  diff_fields =
      compare_named (λ f. f.name)
        (λ n. missing container n (bytes "Field defined in code but missing from database"))
        (λ n. extra container n (bytes "Field exists in database but not defined in code"))
        diff_field

module _ (container : Str) where
  abbrev text : ValidationSeverity → Str → Str → Str → Str → List ValidationResult
  unfolding str_eq
  text severity name message code db =
      unless (str_eq code db) (result severity container (bytes "index:" ++ name) message code db)

  abbrev number : ValidationSeverity → Str → Str → ℤ → ℤ → List ValidationResult
  unfolding format_int
  number severity name message code db =
      unless (same_number code db) (
        result severity container (bytes "index:" ++ name) message (format_int code)
          (format_int db))

  unfoldable pub diff_mtree_params : IndexDefinition → IndexDefinition → List ValidationResult
  unfolding str_eq format_int
  diff_mtree_params code db =
      number severity_error code.name (bytes "MTREE index dimension mismatch") code.dimension
        db.dimension
      ++ (text severity_warning code.name (bytes "MTREE index distance metric mismatch")
            code.distance db.distance
          ++ text severity_warning code.name (bytes "MTREE index vector type mismatch")
              code.vector_type db.vector_type)

  unfoldable pub diff_hnsw_params : IndexDefinition → IndexDefinition → List ValidationResult
  unfolding str_eq format_int
  diff_hnsw_params code db =
      number severity_error code.name (bytes "HNSW index dimension mismatch") code.dimension
        db.dimension
      ++ (text severity_warning code.name (bytes "HNSW index distance metric mismatch")
            code.hnsw_distance db.hnsw_distance
          ++ (text severity_warning code.name (bytes "HNSW index vector type mismatch")
                code.vector_type db.vector_type
              ++ (number severity_warning code.name (bytes "HNSW index EFC mismatch") code.efc
                    db.efc
                  ++ number severity_warning code.name (bytes "HNSW index M mismatch") code.m
                      db.m)))

  unfoldable pub diff_index : IndexDefinition → IndexDefinition → List ValidationResult
  unfolding sorted_slice_equal diff_mtree_params diff_hnsw_params str_eq join
  diff_index code db =
      text severity_error code.name (bytes "Index type mismatch") code.type db.type
      ++ (unless (sorted_slice_equal code.columns db.columns) (
            result severity_error container (bytes "index:" ++ code.name)
              (bytes "Index columns mismatch") (join code.columns (bytes ","))
              (join db.columns (bytes ",")))
          ++ ((if str_eq code.type index_mtree && str_eq db.type index_mtree
                then diff_mtree_params code db
                else [])
              ++ (if str_eq code.type index_hnsw && str_eq db.type index_hnsw
                  then diff_hnsw_params code db
                  else [])))

  unfoldable pub diff_indexes : List IndexDefinition → List IndexDefinition → List ValidationResult
  unfolding compare_named diff_index
  diff_indexes =
      compare_named (λ i. i.name)
        (λ n.
          missing container (bytes "index:" ++ n)
            (bytes "Index defined in code but missing from database"))
        (λ n.
          extra container (bytes "index:" ++ n)
            (bytes "Index exists in database but not defined in code"))
        diff_index

  -- Events are not compared further.
  unfoldable pub diff_events : List EventDefinition → List EventDefinition → List ValidationResult
  unfolding compare_named
  diff_events =
      compare_named (λ e. e.name)
        (λ n.
          missing container (bytes "event:" ++ n)
            (bytes "Event defined in code but missing from database"))
        (λ n.
          extra container (bytes "event:" ++ n)
            (bytes "Event exists in database but not defined in code"))
        (λ a b. [])
