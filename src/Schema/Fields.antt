-- ===== src/Schema/Fields.antt =====
-- pkg/surql/schema/fields.go: field definitions, their checks and their SurrealQL.
use surql_go.Prelude.{
  if◌then◌else◌, Bool, true, false, not, Option, none, some, List, [], ◌∷◌, ◌++◌, Str, bytes,
  is_empty, contains, split, is_identifier, GoMap,
}
use surql_go.Errors.{GoError}
use surql_go.Schema.Clauses.{invalid, clause, flag_clause, if_not_exists, check_each}

-- The type FieldType is a string in the source.
abbrev pub FieldType : Type 0
FieldType = Str

abbrev pub object_type : FieldType
object_type = bytes "object"

abbrev pub field_types : List FieldType
field_types =
    bytes "string"
    ∷ bytes "int"
    ∷ bytes "float"
    ∷ bytes "bool"
    ∷ bytes "datetime"
    ∷ bytes "duration"
    ∷ bytes "decimal"
    ∷ bytes "number"
    ∷ object_type
    ∷ bytes "array"
    ∷ bytes "record"
    ∷ bytes "geometry"
    ∷ bytes "any"
    ∷ bytes "file"
    ∷ bytes "bytes"
    ∷ []

unfoldable pub is_field_type : FieldType → Bool
unfolding contains
is_field_type f = contains f field_types

pub record FieldDefinition : Type 0 where
  pub name : Str
  pub type : FieldType
  pub assertion : Str
  pub default : Str
  pub value : Str
  pub permissions : GoMap Str
  pub read_only : Bool
  pub flexible : Bool

abbrev pub zero_field : FieldDefinition
zero_field = record {
  name = [];
  type = [];
  assertion = [];
  default = [];
  value = [];
  permissions = [];
  read_only = false;
  flexible = false;
}

-- A FieldOption changes a definition; the options of a call are applied in order.
abbrev pub FieldOption : Type 0
FieldOption = FieldDefinition → FieldDefinition

unfoldable pub with_assertion : Str → FieldOption
with_assertion expr f = record f { assertion = expr }

unfoldable pub with_default : Str → FieldOption
with_default expr f = record f { default = expr }

unfoldable pub with_value : Str → FieldOption
with_value expr f = record f { value = expr }

unfoldable pub with_field_permissions : GoMap Str → FieldOption
with_field_permissions perms f = record f { permissions = perms }

unfoldable pub with_read_only : Bool → FieldOption
with_read_only b f = record f { read_only = b }

unfoldable pub with_flexible : Bool → FieldOption
with_flexible b f = record f { flexible = b }

module _ {ℓ} {D : Type ℓ} where
  -- for _, opt := range opts { opt(&d) }
  abbrev pub apply_options : List (D → D) → D → D
  apply_options [] d = d
  apply_options (o ∷ os) d = apply_options os (o d)

unfoldable pub new_field : Str → FieldType → List FieldOption → FieldDefinition
new_field name ft opts = apply_options opts (record zero_field { name = name; type = ft })

unfoldable pub object_field : Str → List FieldOption → FieldDefinition
object_field name opts =
    apply_options opts (record zero_field { name = name; type = object_type; flexible = true })

unfoldable pub computed_field : Str → Str → FieldType → List FieldOption → FieldDefinition
unfolding new_field
computed_field name expr ft opts = record (new_field name ft opts) {
  value = expr;
  read_only = true;
}

-- The two tests on a segment of a name; the pattern rejects an empty segment as well.
unfoldable pub check_segment : Str → Option GoError
unfolding is_identifier
check_segment part =
    if is_empty part then invalid else if not (is_identifier part) then invalid else none

unfoldable pub validate_field_name : Str → Option GoError
unfolding check_segment check_each split
validate_field_name name =
    if is_empty name then invalid else check_each check_segment (split b'.' name)

unfoldable pub validate_field : FieldDefinition → Option GoError
unfolding validate_field_name is_field_type
validate_field f = elim (validate_field_name f.name) [
  | some e ↦ some e
  | none ↦ if not (is_field_type f.type) then invalid else none
]

-- The clauses after the type, with the semicolon
unfoldable pub field_clauses : FieldDefinition → Str
field_clauses f =
    clause (bytes " ASSERT ") f.assertion
    ++ (clause (bytes " DEFAULT ") f.default
        ++ (clause (bytes " VALUE ") f.value
            ++ (flag_clause (bytes " READONLY") f.read_only
                ++ (flag_clause (bytes " FLEXIBLE") f.flexible ++ bytes ";"))))

unfoldable pub field_surql : FieldDefinition → Str → Bool → Str
unfolding field_clauses
field_surql f table guarded =
    bytes "DEFINE FIELD"
    ++ (if_not_exists guarded
        ++ (bytes " "
            ++ (f.name
                ++ (bytes " ON TABLE "
                    ++ (table ++ (bytes " TYPE " ++ (f.type ++ field_clauses f)))))))
