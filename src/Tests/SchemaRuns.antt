-- ===== src/Tests/SchemaRuns.antt =====
-- Definitions of pkg/surql/schema that Validate accepts, and what it makes of others.
use surql_go.Prelude.{
  ◌++◌, Str, ◌≡◌, ◌≢◌, ◌↔◌, refl, true, false, none, [], ◌∷◌, bytes, str_eq, contains, split,
  is_identifier,
}
use surql_go.Prelude.Int.{pos}
use surql_go.Types.Decimal.{digits, format_nat, format_int}
use surql_go.Schema.IndexClauses.{index_surql, disk_ann_clauses, first_column}
use surql_go.Schema.Constructors.{record_assertion, record_field, disk_ann_built}
use surql_go.Schema.Clauses.{invalid, check_each}
use surql_go.Schema.Fields.{
  FieldDefinition, zero_field, with_assertion, new_field, is_field_type, check_segment,
  validate_field_name, validate_field,
}
use surql_go.Schema.Indexes.{new_index, validate_index}
use surql_go.Schema.Events.{EventDefinition, validate_event}
use surql_go.Schema.Tables.{validate_children}
use surql_go.Schema.Edges.{
  EdgeDefinition, zero_edge, edge_relation, edge_modes, lacks_ends, validate_edge,
}
use surql_go.Schema.Accepted.{AreChildren, validate_edge_lem}

program : Unit {0}
unfolding str_eq contains split is_identifier check_each check_segment validate_field_name
    validate_field is_field_type validate_index validate_event validate_children validate_edge
program = tt

abbrev city : FieldDefinition
city = record zero_field { name = bytes "address.city"; type = bytes "string" }

abbrev noted : EventDefinition
noted = record { name = bytes "noted"; condition = bytes "true"; action = bytes "RETURN 1" }

abbrev knows : EdgeDefinition
knows = record zero_edge {
  name = bytes "knows";
  mode = edge_relation;
  from_table = bytes "person";
  to_table = bytes "person";
  fields = city ∷ [];
  events = noted ∷ [];
}

city_accepted : validate_field city ≡ none
unfolding program
city_accepted = refl

knows_accepted : validate_edge knows ≡ none
unfolding program
knows_accepted = refl

-- A relation without one of its tables
half_refused : validate_edge (record knows { to_table = [] }) ≡ invalid
unfolding program
half_refused = refl

dashed_refused : validate_field (record city { name = bytes "address.zip-code" }) ≡ invalid
unfolding program
dashed_refused = refl

validate_edge_lem_example : (validate_edge knows ≡ none) ↔ (
    (bytes "knows" ≢ [])
    × (contains edge_relation edge_modes ≡ true)
    × (lacks_ends knows ≡ false)
    × AreChildren (city ∷ []) [] (noted ∷ []))
unfolding program
validate_edge_lem_example = validate_edge_lem knows

abbrev as_one : Str → Str
as_one s = bytes "\"" ++ (s ++ bytes "\"")

owner_assertion :
    (record_field as_one
      (bytes "owner")
      (bytes "user")
      (with_assertion (bytes "$value != NONE") ∷ [])).assertion
    ≡ bytes "($value.table = \"user\") AND ($value != NONE)"
unfolding record_field record_assertion new_field with_assertion
owner_assertion = refl

-- The statement of a DISKANN index spells the defaults that its constructor has filled in.
near_statement :
    index_surql
      (disk_ann_built (bytes "near") (bytes "v") (pos 3) (record {
        distance = [];
        vector_type = [];
        degree = pos 0;
        l_build = pos 0;
        alpha = [];
        hashed_vector = false;
      }))
      (bytes "doc")
      false
    ≡ bytes
        "DEFINE INDEX near ON TABLE doc COLUMNS v DISKANN DIMENSION 3 DIST EUCLIDEAN TYPE F32 DEGREE 64 L_BUILD 100 ALPHA 1.2;"
unfolding program disk_ann_built new_index index_surql disk_ann_clauses first_column format_int
    format_nat digits
near_statement = refl
