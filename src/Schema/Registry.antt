-- ===== src/Schema/Registry.antt =====
-- pkg/surql/schema/registry.go. A call takes the registry and returns the new one; locks are left out.
pub mod Script
pub mod Scripts
pub mod Listing
use surql_go.Prelude.{
  ℕ, if◌then◌else◌, Option, none, some, List, [], ◌∷◌, Str, is_empty, str_ltb, map, length, GoMap,
  keys, lookup, insert, sort_by,
}
use surql_go.Errors.{GoError, new, validation}
use surql_go.Schema.Tables.{TableDefinition, zero_table}
use surql_go.Schema.Edges.{EdgeDefinition, zero_edge}
use surql_go.Schema.Buckets.{BucketDefinition, zero_bucket}

pub record SchemaRegistry : Type 0 where
  pub tables : GoMap TableDefinition
  pub edges : GoMap EdgeDefinition
  pub buckets : GoMap BucketDefinition

unfoldable pub new_schema_registry : SchemaRegistry
new_schema_registry = record { tables = []; edges = []; buckets = [] }

unfoldable pub register_table : TableDefinition → SchemaRegistry → Option GoError × SchemaRegistry
unfolding insert
register_table t r =
    if is_empty t.name
    then (some (new validation), r)
    else (none, record r { tables = insert t.name t r.tables })

unfoldable pub register_edge : EdgeDefinition → SchemaRegistry → Option GoError × SchemaRegistry
unfolding insert
register_edge e r =
    if is_empty e.name
    then (some (new validation), r)
    else (none, record r { edges = insert e.name e r.edges })

unfoldable pub register_bucket : BucketDefinition → SchemaRegistry → Option GoError × SchemaRegistry
unfolding insert
register_bucket b r =
    if is_empty b.name
    then (some (new validation), r)
    else (none, record r { buckets = insert b.name b r.buckets })

unfoldable pub get_table : Str → SchemaRegistry → Option TableDefinition
unfolding lookup
get_table name r = lookup name r.tables

unfoldable pub get_edge : Str → SchemaRegistry → Option EdgeDefinition
unfolding lookup
get_edge name r = lookup name r.edges

unfoldable pub get_bucket : Str → SchemaRegistry → Option BucketDefinition
unfolding lookup
get_bucket name r = lookup name r.buckets

module _ {ℓ} {A : Type ℓ} where
  -- m[name], with the zero value for a missing name
  unfoldable pub element : A → GoMap A → Str → A
  unfolding lookup
  element zero_value m name = elim (lookup name m) [ none ↦ zero_value | some a ↦ a ]

  unfoldable pub sorted_names : GoMap A → List Str
  unfolding keys sort_by
  sorted_names m = sort_by str_ltb (keys m)

  unfoldable pub in_name_order : A → GoMap A → List A
  unfolding element sorted_names
  in_name_order zero_value m = map (element zero_value m) (sorted_names m)

unfoldable pub list_tables : SchemaRegistry → List TableDefinition
unfolding in_name_order
list_tables r = in_name_order zero_table r.tables

unfoldable pub list_edges : SchemaRegistry → List EdgeDefinition
unfolding in_name_order
list_edges r = in_name_order zero_edge r.edges

unfoldable pub list_buckets : SchemaRegistry → List BucketDefinition
unfolding in_name_order
list_buckets r = in_name_order zero_bucket r.buckets

unfoldable pub table_names : SchemaRegistry → List Str
unfolding sorted_names
table_names r = sorted_names r.tables

unfoldable pub edge_names : SchemaRegistry → List Str
unfolding sorted_names
edge_names r = sorted_names r.edges

unfoldable pub bucket_names : SchemaRegistry → List Str
unfolding sorted_names
bucket_names r = sorted_names r.buckets

unfoldable pub table_count : SchemaRegistry → ℕ
table_count r = length r.tables

unfoldable pub edge_count : SchemaRegistry → ℕ
edge_count r = length r.edges

unfoldable pub bucket_count : SchemaRegistry → ℕ
bucket_count r = length r.buckets

unfoldable pub clear_schemas : SchemaRegistry → SchemaRegistry
clear_schemas r = record { tables = []; edges = []; buckets = [] }
