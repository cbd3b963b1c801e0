-- ===== src/Query/Rendering.antt =====
-- ToSurql of pkg/surql/query/builder.go and the functions that it calls.
use surql_go.Prelude.{
  if◌then◌else◌, Bool, true, false, not, ◌||◌, Option, none, some, List, [], ◌∷◌, ◌++◌, Str, bytes,
  is_empty, str_ltb, join, map, GoMap, keys, lookup, sort_by,
}
use surql_go.Errors.{Result, ok, ◌>>=◌}
use surql_go.Types.Quoting.{Value, nil, quote_value}
use surql_go.Query.Hints.{QueryHint, render_hints}
use surql_go.Query.Builder.{
  Query, unset, select_op, insert_op, update_op, upsert_op, delete_op, relate_op, other_operation,
  refuse,
}
use surql_go.Query.Selection.{in_parentheses, when, some_texts, build_select}

abbrev or_nil : Option Value → Value
or_nil none = nil
or_nil (some v) = v

-- One part of renderDataObject (": " after the key) and of buildUpdate (" = ")
unfoldable pub data_part : Str → GoMap Value → Str → Str
unfolding lookup quote_value
data_part sep m k = k ++ (sep ++ quote_value (or_nil (lookup k m)))

unfoldable pub sorted_keys : GoMap Value → List Str
unfolding keys sort_by
sorted_keys m = sort_by str_ltb (keys m)

unfoldable pub render_data_object : GoMap Value → Str
unfolding data_part sorted_keys join
render_data_object m =
    bytes "{" ++ (join (map (data_part (bytes ": ") m) (sorted_keys m)) (bytes ", ") ++ bytes "}")

unfoldable pub join_conditions : List Str → Str
unfolding join
join_conditions conds = join (map in_parentheses conds) (bytes " AND ")

abbrev pub some_data : GoMap Value → Bool
some_data [] = false
some_data (x ∷ xs) = true

abbrev return_part : Query → List Str
return_part q = when (not (is_empty (q.return_format))) (bytes "RETURN " ++ q.return_format)

unfoldable pub build_insert : Query → Result Str
unfolding render_data_object join
build_insert q =
    if is_empty (q.table_name)
    then refuse
    else if not (some_data (q.insert_data))
    then refuse
    else ok (
        join
          ((bytes "CREATE "
              ++ (q.table_name ++ (bytes " CONTENT " ++ render_data_object (q.insert_data))))
            ∷ return_part q)
          (bytes " "))

abbrev conditions_part : Query → List Str
unfolding join_conditions
conditions_part q =
    when (some_texts (q.conditions)) (bytes "WHERE " ++ join_conditions (q.conditions))

unfoldable pub build_update : Query → Result Str
unfolding data_part sorted_keys join join_conditions
build_update q =
    if is_empty (q.table_name)
    then refuse
    else if not (some_data (q.update_data))
    then refuse
    else ok (
        join
          ((bytes "UPDATE "
              ++ (q.table_name
                  ++ (bytes " SET "
                      ++ join
                          (map (data_part (bytes " = ") (q.update_data))
                            (sorted_keys (q.update_data)))
                          (bytes ", "))))
            ∷ (conditions_part q ++ return_part q))
          (bytes " "))

unfoldable pub build_upsert : Query → Result Str
unfolding render_data_object join join_conditions
build_upsert q =
    if is_empty (q.table_name)
    then refuse
    else if not (some_data (q.update_data))
    then refuse
    else ok (
        join
          ((bytes "UPSERT "
              ++ (q.table_name ++ (bytes " CONTENT " ++ render_data_object (q.update_data))))
            ∷ (conditions_part q ++ return_part q))
          (bytes " "))

unfoldable pub build_delete : Query → Result Str
unfolding join join_conditions
build_delete q =
    if is_empty (q.table_name)
    then refuse
    else ok (
        join ((bytes "DELETE " ++ q.table_name) ∷ (conditions_part q ++ return_part q)) (bytes " "))

unfoldable pub build_relate : Query → Result Str
unfolding render_data_object join
build_relate q =
    if is_empty (q.table_name)
    then refuse
    else if is_empty (q.relate_from) || is_empty (q.relate_to)
    then refuse
    else ok (
        join
          ((bytes "RELATE "
              ++ (q.relate_from ++ (bytes "->" ++ (q.table_name ++ (bytes "->" ++ q.relate_to)))))
            ∷ (when (some_data (q.relate_data))
                  (bytes "CONTENT " ++ render_data_object (q.relate_data))
                ++ return_part q))
          (bytes " "))

-- The switch of ToSurql
unfoldable pub build_base : Query → Result Str
unfolding build_select build_insert build_update build_upsert build_delete build_relate
build_base q = elim (q.operation) [
  | unset ↦ refuse
  | select_op ↦ build_select q
  | insert_op ↦ build_insert q
  | update_op ↦ build_update q
  | upsert_op ↦ build_upsert q
  | delete_op ↦ build_delete q
  | relate_op ↦ build_relate q
  | other_operation ↦ refuse
]

abbrev with_comments : List QueryHint → Str → Str
with_comments [] base = base
with_comments (h ∷ hs) base = render_hints (h ∷ hs) ++ (bytes "\n" ++ base)

unfoldable pub query_to_surql : Query → Result Str
unfolding build_base render_hints
query_to_surql q = do base ← build_base q; ok (with_comments (q.hints) base)
