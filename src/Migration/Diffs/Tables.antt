-- ===== src/Migration/Diffs/Tables.antt =====
-- DiffFields, DiffIndexes, DiffEvents, DiffPermissions, DiffTables and DiffEdges of diff.go.
use surql_go.Prelude.{
  if◌then◌else◌, Bool, true, false, ◌==◌, ◌&&◌, Option, none, some, List, [], ◌∷◌, ◌++◌, Str,
  length, str_eq, GoMap, lookup,
}
use surql_go.Errors.{Result, ok, ◌>>=◌}
use surql_go.Schema.Clauses.{Texts}
use surql_go.Schema.Fields.{FieldDefinition, zero_field}
use surql_go.Schema.Indexes.{IndexDefinition}
use surql_go.Schema.Events.{EventDefinition}
use surql_go.Schema.Tables.{TableDefinition, zero_table}
use surql_go.Schema.Edges.{EdgeDefinition}
use surql_go.Migration.Diffs.{SchemaDiff, collect, added_dropped, diff_named}
use surql_go.Migration.Diffs.Generators.{
  generate_add_field_diff, generate_drop_field_diff, generate_modify_field_diff,
  generate_add_index_diff, generate_drop_index_diff, generate_add_event_diff,
  generate_drop_event_diff, generate_modify_permissions_diff, generate_table_diff,
  generate_drop_table_diff, generate_edge_diff, generate_drop_edge_diff,
}

abbrev pub bool_eq : Bool → Bool → Bool
bool_eq true b = b
bool_eq false true = false
bool_eq false false = true

unfoldable pub fields_equal : FieldDefinition → FieldDefinition → Bool
unfolding str_eq
fields_equal a b =
    str_eq a.name b.name
    && str_eq a.type b.type
    && str_eq a.assertion b.assertion
    && str_eq a.default b.default
    && str_eq a.value b.value
    && bool_eq a.read_only b.read_only
    && bool_eq a.flexible b.flexible

-- The loop of permissionsEqual
unfoldable pub all_in : GoMap Str → GoMap Str → Bool
unfolding lookup str_eq
all_in [] b = true
all_in ((k, v) ∷ a) b = elim (lookup k b) [ none ↦ false | some w ↦ str_eq w v ] && all_in a b

unfoldable pub permissions_equal : GoMap Str → GoMap Str → Bool
unfolding all_in
permissions_equal a b = length a == length b && all_in a b

-- A result of one diff as the list that the loops append
abbrev pub single : Result SchemaDiff → Result (List SchemaDiff)
single r = do d ← r; ok (d ∷ [])

-- A loop over all elements
abbrev pub collect_all {ℓ} :
    {A : Type ℓ} → (A → Result (List SchemaDiff)) → List A → Result (List SchemaDiff)
unfolding collect
collect_all = collect (λ a. false)

module _ (x : Texts) where
  unfoldable pub modify_field_pass :
      Str → FieldDefinition → FieldDefinition → Result (List SchemaDiff)
  unfolding fields_equal generate_modify_field_diff
  modify_field_pass table a b =
      if fields_equal a b then ok [] else single (generate_modify_field_diff x table a b)

  unfoldable pub diff_fields : TableDefinition → TableDefinition → Result (List SchemaDiff)
  unfolding diff_named modify_field_pass generate_add_field_diff generate_drop_field_diff
  diff_fields old_table new_table =
      diff_named (λ f. f.name) zero_field (λ f. single (generate_add_field_diff x new_table.name f))
        (λ f. single (generate_drop_field_diff x new_table.name f))
        (modify_field_pass new_table.name) old_table.fields new_table.fields

  unfoldable pub diff_events : TableDefinition → TableDefinition → Result (List SchemaDiff)
  unfolding added_dropped generate_add_event_diff generate_drop_event_diff
  diff_events old_table new_table =
      added_dropped (λ e. e.name) (λ e. single (generate_add_event_diff x new_table.name e))
        (λ e. single (generate_drop_event_diff x new_table.name e)) old_table.events
        new_table.events

  unfoldable pub diff_permissions : TableDefinition → TableDefinition → List SchemaDiff
  unfolding permissions_equal generate_modify_permissions_diff
  diff_permissions old_table new_table =
      if permissions_equal old_table.permissions new_table.permissions
      then []
      else generate_modify_permissions_diff x new_table.name new_table.permissions
          old_table.permissions
        ∷ []

unfoldable pub diff_indexes : TableDefinition → TableDefinition → Result (List SchemaDiff)
unfolding added_dropped generate_add_index_diff generate_drop_index_diff
diff_indexes old_table new_table =
    added_dropped (λ i. i.name) (λ i. single (generate_add_index_diff new_table.name i))
      (λ i. single (generate_drop_index_diff new_table.name i)) old_table.indexes new_table.indexes

unfoldable pub edge_to_table_proxy : EdgeDefinition → TableDefinition
edge_to_table_proxy e = record zero_table {
  name = e.name;
  fields = e.fields;
  indexes = e.indexes;
  events = e.events;
  permissions = e.permissions;
}

module _ (x : Texts) where
  -- The children of a new table or edge
  unfoldable pub add_children :
      Str
      → List FieldDefinition
      → List IndexDefinition
      → List EventDefinition
      → Result (List SchemaDiff)
  unfolding collect generate_add_field_diff generate_add_index_diff generate_add_event_diff
  add_children table fields indexes events = do
    f ← collect_all (λ a. single (generate_add_field_diff x table a)) fields
    i ← collect_all (λ a. single (generate_add_index_diff table a)) indexes
    e ← collect_all (λ a. single (generate_add_event_diff x table a)) events
    ok (f ++ (i ++ e))

  unfoldable pub generate_add_table_diffs : TableDefinition → Result (List SchemaDiff)
  unfolding add_children generate_table_diff generate_modify_permissions_diff
  generate_add_table_diffs t = do
    children ← add_children t.name t.fields t.indexes t.events
    ok (
        generate_table_diff t
        ∷ (children ++ elim t.permissions [
          | [] ↦ []
          | p ∷ ps ↦ generate_modify_permissions_diff x t.name (p ∷ ps) [] ∷ []
        ]))

  -- The passes over two tables that are both there
  unfoldable pub diff_both : TableDefinition → TableDefinition → Result (List SchemaDiff)
  unfolding diff_fields diff_indexes diff_events diff_permissions
  diff_both old_table new_table = do
    fields ← diff_fields x old_table new_table
    indexes ← diff_indexes old_table new_table
    events ← diff_events x old_table new_table
    ok (fields ++ (indexes ++ (events ++ diff_permissions x old_table new_table)))

  unfoldable pub diff_tables :
      Option TableDefinition → Option TableDefinition → Result (List SchemaDiff)
  unfolding generate_add_table_diffs generate_drop_table_diff diff_both
  diff_tables none none = ok []
  diff_tables none (some t) = generate_add_table_diffs t
  diff_tables (some t) none = ok (generate_drop_table_diff t ∷ [])
  diff_tables (some a) (some b) = diff_both a b

  unfoldable pub generate_add_edge_diffs : EdgeDefinition → Result (List SchemaDiff)
  unfolding add_children generate_edge_diff
  generate_add_edge_diffs e = do
    children ← add_children e.name e.fields e.indexes e.events
    ok (generate_edge_diff e ∷ children)

  unfoldable pub diff_edges :
      Option EdgeDefinition → Option EdgeDefinition → Result (List SchemaDiff)
  unfolding generate_add_edge_diffs generate_drop_edge_diff diff_both edge_to_table_proxy
  diff_edges none none = ok []
  diff_edges none (some e) = generate_add_edge_diffs e
  diff_edges (some e) none = ok (generate_drop_edge_diff e ∷ [])
  diff_edges (some a) (some b) = diff_both (edge_to_table_proxy a) (edge_to_table_proxy b)
