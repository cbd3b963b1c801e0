-- ===== src/Migration/Diffs/Generators.antt =====
-- The generate functions of diff.go: one SchemaDiff for each change, with its two directions.
use surql_go.Prelude.{
  if◌then◌else◌, Option, none, some, List, [], ◌∷◌, ◌++◌, Str, bytes, is_empty, str_eq, join, GoMap,
}
use surql_go.Errors.{GoError, Result, ok, err, ◌>>=◌}
use surql_go.Schema.Clauses.{Texts, clause, permission_statements}
use surql_go.Schema.Fields.{FieldDefinition}
use surql_go.Schema.Indexes.{IndexDefinition}
use surql_go.Schema.Events.{EventDefinition}
use surql_go.Schema.Tables.{TableDefinition, mode_schemafull}
use surql_go.Schema.Edges.{EdgeDefinition, edge_relation, edge_schemafull, edge_schemaless}
use surql_go.Migration.Diffs.{
  DiffOperation, add_table, drop_table, add_field, drop_field, modify_field, add_index, drop_index,
  add_event, drop_event, modify_permissions, SchemaDiff,
}
use surql_go.Migration.Diffs.Statements.{
  validate_event_expression, validate_default_value, field_to_sql, index_to_sql,
}

abbrev pub base_diff : DiffOperation → Str → Str → Str → Str → SchemaDiff
base_diff operation table description forward backward = record {
  operation = operation;
  table = table;
  field = [];
  index = [];
  event = [];
  bucket = [];
  description = description;
  forward = forward;
  backward = backward;
  details = [];
}

-- fmt.Sprintf of texts around two names
abbrev text2 : Str → Str → Str → Str → Str → Str
text2 a name b table c = a ++ (name ++ (b ++ (table ++ c)))

abbrev one {ℓ} : {A : Type ℓ} → A → List A
one a = a ∷ []

abbrev remove_table : Str → Str
remove_table name = bytes "REMOVE TABLE " ++ (name ++ bytes ";")

abbrev remove_field : Str → Str → Str
remove_field name table = text2 (bytes "REMOVE FIELD ") name (bytes " ON TABLE ") table (bytes ";")

abbrev remove_index : Str → Str → Str
remove_index name table = text2 (bytes "REMOVE INDEX ") name (bytes " ON TABLE ") table (bytes ";")

abbrev remove_event : Str → Str → Str
remove_event name table = text2 (bytes "REMOVE EVENT ") name (bytes " ON TABLE ") table (bytes ";")

abbrev define_event : EventDefinition → Str → Str
define_event e table =
    text2 (bytes "DEFINE EVENT ") e.name (bytes " ON TABLE ") table
      (text2 (bytes " WHEN ") e.condition (bytes " THEN { ") e.action (bytes " };"))

module _ (x : Texts) where
  unfoldable pub generate_add_field_diff : Str → FieldDefinition → Result SchemaDiff
  unfolding field_to_sql validate_default_value
  generate_add_field_diff table f = field_to_sql x table f >>= λ sql.
      (if is_empty f.default then ok sql else elim (validate_default_value x f.default) [
        | some e ↦ err e
        | none ↦ ok (
            sql
            ++ text2 (bytes "\nUPDATE ") table (bytes " SET ") f.name
                (text2 (bytes " = ") f.default (bytes " WHERE ") f.name (bytes " IS NONE;")))
      ])
      >>= λ forward.
          ok
            (record (base_diff add_field table
              (text2 (bytes "Add field ") f.name (bytes " to ") table []) forward
              (remove_field f.name table)) { field = f.name; details = one (bytes "type", f.type) })

  unfoldable pub generate_drop_field_diff : Str → FieldDefinition → Result SchemaDiff
  unfolding field_to_sql
  generate_drop_field_diff table f = field_to_sql x table f >>= λ backward.
      ok
        (record (base_diff drop_field table
          (text2 (bytes "Drop field ") f.name (bytes " from ") table []) (remove_field f.name table)
          backward) { field = f.name })

  unfoldable pub generate_modify_field_diff :
      Str → FieldDefinition → FieldDefinition → Result SchemaDiff
  unfolding field_to_sql
  generate_modify_field_diff table old_f new_f = field_to_sql x table new_f >>= λ forward.
      field_to_sql x table old_f >>= λ backward.
      ok
        (record (base_diff modify_field table
          (text2 (bytes "Modify field ") new_f.name (bytes " in ") table []) forward backward) {
            field = new_f.name;
            details = (bytes "old_type", old_f.type) ∷ (bytes "new_type", new_f.type) ∷ [];
          })

  -- The two checks that both event functions begin with
  unfoldable pub check_event : EventDefinition → Option GoError
  unfolding validate_event_expression
  check_event e = elim (validate_event_expression x e.condition) [
    | some bad ↦ some bad
    | none ↦ validate_event_expression x e.action
  ]

  unfoldable pub generate_add_event_diff : Str → EventDefinition → Result SchemaDiff
  unfolding check_event
  generate_add_event_diff table e = elim (check_event e) [
    | some bad ↦ err bad
    | none ↦
        ok
          (record (base_diff add_event table
            (text2 (bytes "Add event ") e.name (bytes " to ") table []) (define_event e table)
            (remove_event e.name table)) { event = e.name })
  ]

  unfoldable pub generate_drop_event_diff : Str → EventDefinition → Result SchemaDiff
  unfolding check_event
  generate_drop_event_diff table e = elim (check_event e) [
    | some bad ↦ err bad
    | none ↦
        ok
          (record (base_diff drop_event table
            (text2 (bytes "Drop event ") e.name (bytes " from ") table [])
            (remove_event e.name table) (define_event e table)) { event = e.name })
  ]

  unfoldable pub permissions_to_sql : Str → GoMap Str → Str
  unfolding permission_statements join
  permissions_to_sql table perms = join (permission_statements x table perms) (bytes " ")

  unfoldable pub generate_modify_permissions_diff : Str → GoMap Str → GoMap Str → SchemaDiff
  unfolding permissions_to_sql
  generate_modify_permissions_diff table perms old_perms =
      base_diff modify_permissions table (bytes "Modify permissions for " ++ table)
        (permissions_to_sql table perms) (permissions_to_sql table old_perms)

unfoldable pub generate_add_index_diff : Str → IndexDefinition → Result SchemaDiff
unfolding index_to_sql
generate_add_index_diff table i = index_to_sql table i >>= λ forward.
    ok
      (record (base_diff add_index table (text2 (bytes "Add index ") i.name (bytes " to ") table [])
        forward (remove_index i.name table)) { index = i.name })

unfoldable pub generate_drop_index_diff : Str → IndexDefinition → Result SchemaDiff
unfolding index_to_sql
generate_drop_index_diff table i = index_to_sql table i >>= λ backward.
    ok
      (record (base_diff drop_index table
        (text2 (bytes "Drop index ") i.name (bytes " from ") table []) (remove_index i.name table)
        backward) { index = i.name })

-- if mode == "" { mode = SCHEMAFULL }
abbrev define_table : TableDefinition → Str
define_table t =
    text2 (bytes "DEFINE TABLE ") t.name (bytes " ")
      (if is_empty t.mode then mode_schemafull else t.mode) (bytes ";")

unfoldable pub generate_drop_table_diff : TableDefinition → SchemaDiff
generate_drop_table_diff t =
    base_diff drop_table t.name (bytes "Drop table " ++ t.name) (remove_table t.name)
      (define_table t)

-- The first element of the diffs of a new table
unfoldable pub generate_table_diff : TableDefinition → SchemaDiff
generate_table_diff t =
    base_diff add_table t.name (bytes "Add table " ++ t.name) (define_table t) (remove_table t.name)

unfoldable pub define_edge : EdgeDefinition → Str
unfolding str_eq
define_edge e =
    bytes "DEFINE TABLE "
    ++ (e.name
        ++ (if str_eq e.mode edge_relation
            then bytes " TYPE RELATION"
              ++ (clause (bytes " FROM ") e.from_table
                  ++ (clause (bytes " TO ") e.to_table ++ bytes ";"))
            else if str_eq e.mode edge_schemafull
            then bytes " SCHEMAFULL;"
            else if str_eq e.mode edge_schemaless
            then bytes " SCHEMALESS;"
            else bytes " TYPE RELATION;"))

-- The first element of the diffs of a new edge
unfoldable pub generate_edge_diff : EdgeDefinition → SchemaDiff
unfolding define_edge
generate_edge_diff e =
    base_diff add_table e.name (bytes "Add edge " ++ e.name) (define_edge e) (remove_table e.name)

unfoldable pub generate_drop_edge_diff : EdgeDefinition → SchemaDiff
generate_drop_edge_diff e =
    base_diff drop_table e.name (bytes "Drop edge " ++ e.name) (remove_table e.name) []
