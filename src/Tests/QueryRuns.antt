-- ===== src/Tests/QueryRuns.antt =====
-- Chains of calls on a query of pkg/surql/query and the statements that they render to.
use surql_go.Prelude.{
  ◌≡◌, refl, true, false, none, some, List, [], ◌∷◌, ◌++◌, Str, bytes, str_eq, str_ltb,
  is_identifier, lookup, keys, sort_by, insert_by, join,
}
use surql_go.Prelude.Int.{pos}
use surql_go.Errors.{Result, ok, err, new, validation}
use surql_go.Types.Decimal.{digits, format_nat, format_int}
use surql_go.Types.Quoting.{
  text, integer, replace_all, quote_string, quote_value, quote_values, render_list,
}
use surql_go.Types.Quoting.RoundTrip.{read_literal, read_literal-quote_string}
use surql_go.Types.Operators.{gt, to_surql}
use surql_go.Query.Hints.{
  QueryHint, timeout_hint, explain_hint, hint_type, same_type, put_hint, merge_loop, merge_hints,
  hint_surql, fetch_surql, parallel_surql, render_hints, HintType,
}
use surql_go.Query.Hints.Merging.{AreDistinct, first_of, last_of, merge_hints_lem}
use surql_go.Query.Builder.{
  Query, new_query, valid_identifier, split_table_part, select, from_table, operator, where_,
  order_by, limit,
}
use surql_go.Query.Mutations.{
  valid_keys, write_query, update, delete_query, text_endpoint, relate_endpoint, relate,
}
use surql_go.Query.Searches.{
  hint, explain_query, vector_search, vector_search_indexed, render_vector_literal,
}
use surql_go.Query.Selection.{
  vector_operator, vector_part, fulltext_part, where_parts, select_parts, build_select,
}
use surql_go.Query.Rendering.{
  data_part, sorted_keys, render_data_object, join_conditions, build_update, build_delete,
  build_relate, build_base, query_to_surql,
}
use surql_go.Query.Chains.{
  Call, selects, from_tables, wheres, orders, limits, updates, deletes, relates, explains, run_call,
  run_calls,
}
use surql_go.Query.Chains.Sound.{IsSound}
use surql_go.Query.Chains.Soundness.{run_calls-IsSound}
use surql_go.Query.Chains.Completeness.{is_ok, is_complete, run_calls-renders}

program : Unit {0}
unfolding str_eq str_ltb is_identifier lookup keys sort_by insert_by join digits format_nat
    format_int replace_all quote_string quote_value quote_values render_list to_surql hint_type
    same_type put_hint merge_loop merge_hints hint_surql fetch_surql parallel_surql render_hints
    new_query valid_identifier split_table_part select from_table where_ order_by limit valid_keys
    write_query update delete_query relate_endpoint relate hint explain_query vector_search
    vector_search_indexed render_vector_literal data_part sorted_keys render_data_object
    join_conditions vector_operator vector_part fulltext_part where_parts select_parts build_select
    build_update build_delete build_relate build_base query_to_surql run_call run_calls
program = tt

-- Texts that are in capitals already
abbrev as_is : Str → Str
as_is s = s

abbrev query_of : Result Query → Query
unfolding new_query
query_of (ok q) = q
query_of (err e) = new_query

abbrev adults : List Call
adults =
    selects (bytes "name" ∷ [])
    ∷ from_tables (bytes "person")
    ∷ wheres (operator (gt (bytes "age") (integer (pos 17))))
    ∷ orders (bytes "name") (bytes "ASC")
    ∷ limits (pos 10)
    ∷ explains false
    ∷ []

abbrev adults_query : Query
unfolding program
adults_query = query_of (run_calls as_is as_is adults new_query)

adults_built : run_calls as_is as_is adults new_query ≡ ok adults_query
unfolding program
adults_built = refl

adults_text :
    query_to_surql adults_query
    ≡ ok
        (bytes "/* EXPLAIN */\nSELECT name FROM person WHERE (age > 17) ORDER BY name ASC LIMIT 10")
unfolding program
adults_text = refl

update_text :
    query_to_surql (
      query_of (
        run_calls as_is as_is
          (updates
              (bytes "person:1")
              ((bytes "b", text (bytes "it's")) ∷ (bytes "a", integer (pos 1)) ∷ [])
            ∷ [])
          new_query))
    ≡ ok (bytes "UPDATE person:1 SET a = 1, b = 'it\\'s'")
unfolding program
update_text = refl

-- A table that is not an identifier ends the chain.
injected_table :
    run_calls as_is as_is (deletes (bytes "person WHERE true") ∷ selects [] ∷ []) new_query
    ≡ err (new validation)
unfolding program
injected_table = refl

abbrev knows : List Call
knows =
    relates (bytes "knows") (text_endpoint (bytes "person:1")) (text_endpoint (bytes "person:2")) []
    ∷ []

abbrev knows_query : Query
unfolding program
knows_query = query_of (run_calls as_is as_is knows new_query)

knows_built : run_calls as_is as_is knows new_query ≡ ok knows_query
unfolding program
knows_built = refl

knows_text : query_to_surql knows_query ≡ ok (bytes "RELATE person:1->knows->person:2")
unfolding program
knows_text = refl

run_calls-IsSound_example : IsSound knows_query
run_calls-IsSound_example = run_calls-IsSound as_is as_is knows knows_query knows_built

run_calls-renders_example : is_ok (query_to_surql adults_query) ≡ is_complete adults_query
run_calls-renders_example = run_calls-renders as_is as_is adults adults_query adults_built

abbrev vector : List Str
vector = bytes "0.5" ∷ bytes "1" ∷ []

abbrev indexed : Query
unfolding program
indexed = query_of (vector_search_indexed (bytes "embedding") vector (pos 5) (pos 40) adults_query)

abbrev searched : Query
unfolding program
searched = query_of (vector_search (bytes "embedding") vector (pos 5) (bytes "COSINE") none indexed)

abbrev again : Query
unfolding program
again = query_of (vector_search_indexed (bytes "embedding") vector (pos 5) (pos 80) indexed)

-- The distance is lost.
searched_operator : vector_operator searched (pos 5) ≡ bytes "<|5,40|>"
unfolding program
searched_operator = refl

read_literal-quote_string_example :
    (b : Str) × (quote_string (bytes "it's") ++ bytes " AND true" ≡ b'\'' ∷ b)
    × (read_literal false b ≡ some (bytes "it's", bytes " AND true"))
read_literal-quote_string_example = read_literal-quote_string (bytes "it's") (bytes " AND true")

abbrev two_timeouts : List QueryHint
two_timeouts = timeout_hint (bytes "1") ∷ explain_hint true ∷ timeout_hint (bytes "2") ∷ []

two_timeouts_text : render_hints two_timeouts ≡ bytes "/* TIMEOUT 2s */ /* EXPLAIN FULL */"
unfolding program
two_timeouts_text = refl

merge_hints_lem_example :
    AreDistinct (merge_hints two_timeouts)
    × ((t : HintType) → first_of t (merge_hints two_timeouts) ≡ last_of t two_timeouts)
merge_hints_lem_example = merge_hints_lem two_timeouts
