-- ===== src/Schema/Tables.antt =====
-- pkg/surql/schema/table.go: table definitions, their checks and their statements.
use surql_go.Prelude.{
  if◌then◌else◌, Bool, false, not, Option, none, some, List, [], ◌∷◌, ◌++◌, Str, bytes, is_empty,
  contains, map, GoMap,
}
use surql_go.Errors.{GoError}
use surql_go.Schema.Clauses.{Texts, invalid, if_not_exists, check_each, permission_statements}
use surql_go.Schema.Fields.{FieldDefinition, field_surql, validate_field, apply_options}
use surql_go.Schema.Indexes.{IndexDefinition, validate_index}
use surql_go.Schema.IndexClauses.{index_surql}
use surql_go.Schema.Events.{EventDefinition, event_surql, validate_event}

abbrev pub mode_schemafull : Str
mode_schemafull = bytes "SCHEMAFULL"

abbrev pub table_modes : List Str
table_modes = mode_schemafull ∷ bytes "SCHEMALESS" ∷ bytes "DROP" ∷ []

pub record TableDefinition : Type 0 where
  pub name : Str
  pub mode : Str
  pub fields : List FieldDefinition
  pub indexes : List IndexDefinition
  pub events : List EventDefinition
  pub permissions : GoMap Str
  pub drop : Bool

abbrev pub zero_table : TableDefinition
zero_table = record {
  name = [];
  mode = [];
  fields = [];
  indexes = [];
  events = [];
  permissions = [];
  drop = false;
}

abbrev pub TableOption : Type 0
TableOption = TableDefinition → TableDefinition

unfoldable pub with_mode : Str → TableOption
with_mode mode t = record t { mode = mode }

unfoldable pub with_fields : List FieldDefinition → TableOption
with_fields fields t = record t { fields = t.fields ++ fields }

unfoldable pub with_indexes : List IndexDefinition → TableOption
with_indexes indexes t = record t { indexes = t.indexes ++ indexes }

unfoldable pub with_events : List EventDefinition → TableOption
with_events events t = record t { events = t.events ++ events }

unfoldable pub with_table_permissions : GoMap Str → TableOption
with_table_permissions perms t = record t { permissions = perms }

unfoldable pub with_drop : Bool → TableOption
with_drop drop t = record t { drop = drop }

unfoldable pub new_table : Str → List TableOption → TableDefinition
new_table name opts = apply_options opts (record zero_table { name = name; mode = mode_schemafull })

-- The loops over the children that the checks of a table and of an edge end with
unfoldable pub validate_children :
    List FieldDefinition → List IndexDefinition → List EventDefinition → Option GoError
unfolding check_each validate_field validate_index validate_event
validate_children fields indexes events = elim (check_each validate_field fields) [
  | some e ↦ some e
  | none ↦ elim (check_each validate_index indexes) [
    | some e ↦ some e
    | none ↦ check_each validate_event events
  ]
]

unfoldable pub validate_table : TableDefinition → Option GoError
unfolding validate_children contains
validate_table t =
    if is_empty t.name
    then invalid
    else if not (contains t.mode table_modes)
    then invalid
    else validate_children t.fields t.indexes t.events

unfoldable pub table_surql : TableDefinition → Bool → Str
table_surql t guarded =
    bytes "DEFINE TABLE"
    ++ (if_not_exists guarded ++ (bytes " " ++ (t.name ++ (bytes " " ++ (t.mode ++ bytes ";")))))

-- The statements of the children of a table or of an edge
unfoldable pub child_statements :
    Str → Bool → List FieldDefinition → List IndexDefinition → List EventDefinition → List Str
unfolding field_surql index_surql event_surql
child_statements table guarded fields indexes events =
    map (λ f. field_surql f table guarded) fields
    ++ (map (λ i. index_surql i table guarded) indexes
        ++ map (λ e. event_surql e table guarded) events)

unfoldable pub table_statements : Texts → TableDefinition → Bool → List Str
unfolding table_surql child_statements permission_statements
table_statements x t guarded =
    table_surql t guarded
    ∷ (child_statements t.name guarded t.fields t.indexes t.events
        ++ permission_statements x t.name t.permissions)
