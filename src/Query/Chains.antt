-- ===== src/Query/Chains.antt =====
-- Chains of the methods of pkg/surql/query/builder.go, from New to the query that is rendered.
pub mod Sound
pub mod Soundness
pub mod Completeness
use surql_go.Prelude.{
  ℕ, ◌==◌, if◌then◌else◌, ◌≡◌, refl, Bool, true, false, not, ◌&&◌, ◌||◌, Bool-cases, inl, inr,
  Option, none, some, List, [], ◌∷◌, ◌++◌, arith, Str, bytes, is_empty, is_word, is_alpha, all_word,
  is_identifier, str_eq, GoMap,
}
use surql_go.Prelude.Int.{ℤ, pos, negsuc, ltb_ℤ}
use surql_go.Errors.{Result, ok, err, new, validation, ◌>>=◌, Result-cases}
use surql_go.Types.Quoting.{Value}
use surql_go.Types.Operators.{Operator}
use surql_go.Query.Hints.{
  QueryHint, FetchStrategy, eager, lazy, batch, other_strategy, parallel_with_workers,
  fetch_batch_hint,
}
use surql_go.Query.Builder.{
  Query, Operation, unset, select_op, insert_op, update_op, upsert_op, delete_op, relate_op,
  other_operation, new_query, valid_identifier, split_table_part, select, select_expr,
  select_aliased, from_table, Condition, raw_text, operator, nil_condition, other_condition, where_,
  order_by, group_by, group_all, limit, offset,
}
use surql_go.Query.Mutations.{
  valid_keys, insert_query, write_query, update, upsert, delete_query, Endpoint, text_endpoint,
  record_endpoint, shown_endpoint, nil_endpoint, other_endpoint, relate_endpoint, relate,
}
use surql_go.Query.Searches.{
  traverse, join_clause, vector_search, vector_search_indexed, similarity_score, full_text_search,
  search_score, with_return_format, hint, with_hints, force_index, use_index, with_timeout,
  parallel_query, with_fetch, explain_query,
}

-- The calls, with their arguments
pub data Call : Type 0 where
  selects : List Str → Call
  select_exprs : List Operator → Call
  select_aliases : GoMap Operator → Call
  from_tables : Str → Call
  wheres : Condition → Call
  orders : Str → Str → Call
  groups : List Str → Call
  group_alls : Call
  limits offsets : ℤ → Call
  inserts updates upserts : Str → GoMap Value → Call
  deletes : Str → Call
  relates : Str → Endpoint → Endpoint → GoMap Value → Call
  traverses joins : Str → Call
  vector_searches : Str → List Str → ℤ → Str → Option Str → Call
  indexed_searches : Str → List Str → ℤ → ℤ → Call
  scores : Str → List Str → Str → Str → Call
  text_searches : Str → ℤ → Str → Call
  search_scores : ℤ → Str → Call
  returns : Str → Call
  one_hint : QueryHint → Call
  more_hints : List QueryHint → Call
  forces uses : Str → Call
  timeouts : Option Str → Call
  parallels : Option ℕ → Call
  fetches : FetchStrategy → Option ℕ → Call
  explains : Bool → Call

module _ (to_upper to_lower : Str → Str) where
  unfoldable pub run_call : Call → Query → Result Query
  run_call (selects fs) q = ok (select fs q)
  run_call (select_exprs es) q = ok (select_expr es q)
  run_call (select_aliases m) q = ok (select_aliased m q)
  run_call (from_tables t) q = from_table t q
  run_call (wheres c) q = where_ c q
  run_call (orders f d) q = order_by to_upper f d q
  run_call (groups fs) q = ok (group_by fs q)
  run_call group_alls q = ok (group_all q)
  run_call (limits n) q = limit n q
  run_call (offsets n) q = offset n q
  run_call (inserts t m) q = insert_query t m q
  run_call (updates t m) q = update t m q
  run_call (upserts t m) q = upsert t m q
  run_call (deletes t) q = delete_query t q
  run_call (relates e a b m) q = relate e a b m q
  run_call (traverses p) q = ok (traverse p q)
  run_call (joins c) q = ok (join_clause c q)
  run_call (vector_searches f v k d t) q = vector_search f v k d t q
  run_call (indexed_searches f v k ef) q = vector_search_indexed f v k ef q
  run_call (scores f v m a) q = ok (similarity_score to_lower f v m a q)
  run_call (text_searches f r w) q = full_text_search f r w q
  run_call (search_scores r a) q = ok (search_score r a q)
  run_call (returns f) q = ok (with_return_format f q)
  run_call (one_hint h) q = ok (hint h q)
  run_call (more_hints hs) q = ok (with_hints hs q)
  run_call (forces i) q = force_index i q
  run_call (uses i) q = use_index i q
  run_call (timeouts s) q = with_timeout s q
  run_call (parallels n) q = parallel_query n q
  run_call (fetches s n) q = with_fetch s n q
  run_call (explains f) q = ok (explain_query f q)

  -- The chain ends at the first error.
  unfoldable pub run_calls : List Call → Query → Result Query
  unfolding run_call
  run_calls [] q = ok q
  run_calls (c ∷ cs) q = do next ← run_call c q; run_calls cs next
