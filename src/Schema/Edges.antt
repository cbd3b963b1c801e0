-- ===== src/Schema/Edges.antt =====
-- pkg/surql/schema/edge.go: edge definitions, their checks and their statements.
use surql_go.Prelude.{
  if◌then◌else◌, Bool, not, ◌&&◌, ◌||◌, Option, List, [], ◌∷◌, ◌++◌, Str, bytes, is_empty, contains,
  str_eq, GoMap,
}
use surql_go.Errors.{GoError, Result, ok, err, new, validation}
use surql_go.Schema.Clauses.{Texts, invalid, clause, if_not_exists, permission_statements}
use surql_go.Schema.Fields.{FieldDefinition, apply_options}
use surql_go.Schema.Indexes.{IndexDefinition}
use surql_go.Schema.Events.{EventDefinition}
use surql_go.Schema.Tables.{validate_children, child_statements}

abbrev pub edge_relation : Str
edge_relation = bytes "RELATION"

abbrev pub edge_schemafull : Str
edge_schemafull = bytes "SCHEMAFULL"

abbrev pub edge_schemaless : Str
edge_schemaless = bytes "SCHEMALESS"

abbrev pub edge_modes : List Str
edge_modes = edge_relation ∷ edge_schemafull ∷ edge_schemaless ∷ []

pub record EdgeDefinition : Type 0 where
  pub name : Str
  pub mode : Str
  pub from_table : Str
  pub to_table : Str
  pub fields : List FieldDefinition
  pub indexes : List IndexDefinition
  pub events : List EventDefinition
  pub permissions : GoMap Str

abbrev pub zero_edge : EdgeDefinition
zero_edge = record {
  name = [];
  mode = [];
  from_table = [];
  to_table = [];
  fields = [];
  indexes = [];
  events = [];
  permissions = [];
}

abbrev pub EdgeOption : Type 0
EdgeOption = EdgeDefinition → EdgeDefinition

unfoldable pub with_edge_mode : Str → EdgeOption
with_edge_mode mode e = record e { mode = mode }

unfoldable pub with_from_table : Str → EdgeOption
with_from_table table e = record e { from_table = table }

unfoldable pub with_to_table : Str → EdgeOption
with_to_table table e = record e { to_table = table }

unfoldable pub with_edge_fields : List FieldDefinition → EdgeOption
with_edge_fields fields e = record e { fields = e.fields ++ fields }

unfoldable pub with_edge_indexes : List IndexDefinition → EdgeOption
with_edge_indexes indexes e = record e { indexes = e.indexes ++ indexes }

unfoldable pub with_edge_events : List EventDefinition → EdgeOption
with_edge_events events e = record e { events = e.events ++ events }

unfoldable pub with_edge_permissions : GoMap Str → EdgeOption
with_edge_permissions perms e = record e { permissions = perms }

unfoldable pub new_edge : Str → List EdgeOption → EdgeDefinition
new_edge name opts = apply_options opts (record zero_edge { name = name; mode = edge_relation })

unfoldable pub typed_edge : Str → Str → Str → List EdgeOption → EdgeDefinition
unfolding new_edge with_from_table with_to_table
typed_edge name from to opts = new_edge name (with_from_table from ∷ with_to_table to ∷ opts)

unfoldable pub bidirectional_edge : Str → Str → List EdgeOption → EdgeDefinition
unfolding new_edge with_from_table with_to_table
bidirectional_edge name table opts =
    new_edge name (with_from_table table ∷ with_to_table table ∷ opts)

-- A RELATION without one of its tables
abbrev pub lacks_ends : EdgeDefinition → Bool
unfolding str_eq
lacks_ends e = str_eq e.mode edge_relation && (is_empty e.from_table || is_empty e.to_table)

unfoldable pub validate_edge : EdgeDefinition → Option GoError
unfolding validate_children contains
validate_edge e =
    if is_empty e.name
    then invalid
    else if not (contains e.mode edge_modes)
    then invalid
    else if lacks_ends e
    then invalid
    else validate_children e.fields e.indexes e.events

unfoldable pub edge_surql : EdgeDefinition → Bool → Str
unfolding str_eq
edge_surql e guarded =
    bytes "DEFINE TABLE"
    ++ (if_not_exists guarded
        ++ (bytes " "
            ++ (e.name
                ++ ((if str_eq e.mode edge_relation
                      then bytes " TYPE RELATION"
                        ++ (clause (bytes " FROM ") e.from_table
                            ++ clause (bytes " TO ") e.to_table)
                      else if str_eq e.mode edge_schemafull
                      then bytes " SCHEMAFULL"
                      else if str_eq e.mode edge_schemaless
                      then bytes " SCHEMALESS"
                      else [])
                    ++ bytes ";"))))

unfoldable pub edge_statements : Texts → EdgeDefinition → Bool → Result (List Str)
unfolding edge_surql child_statements permission_statements
edge_statements x e guarded =
    if lacks_ends e
    then err (new validation)
    else ok (
        edge_surql e guarded
        ∷ (child_statements e.name guarded e.fields e.indexes e.events
            ++ permission_statements x e.name e.permissions))
