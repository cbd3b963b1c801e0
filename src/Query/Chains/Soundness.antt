-- ===== src/Query/Chains/Soundness.antt =====
-- Every call of a method of pkg/surql/query/builder.go keeps a query sound.
use surql_go.Prelude.{
  ℕ, ◌≡◌, true, not, ◌||◌, inl, inr, ap, Option, none, some, List, [], ◌∷◌, arith, Str, bytes,
  is_empty, str_eq, GoMap,
}
use surql_go.Prelude.Int.{ℤ, pos, ltb_ℤ}
use mathlib.Core.Path.{subst}
use surql_go.Errors.{ok, Result-cases}
use surql_go.Types.Quoting.{Value}
use surql_go.Query.Hints.{
  FetchStrategy, eager, lazy, batch, other_strategy, parallel_with_workers, fetch_batch_hint,
}
use surql_go.Query.Builder.{
  Query, Operation, insert_op, update_op, upsert_op, delete_op, relate_op, new_query,
  valid_identifier, select, select_expr, select_aliased, from_table, Condition, raw_text, operator,
  nil_condition, other_condition, where_, order_by, group_by, group_all, limit, offset,
}
use surql_go.Query.Mutations.{
  valid_keys, insert_query, write_query, update, upsert, delete_query, Endpoint, relate_endpoint,
  relate,
}
use surql_go.Query.Searches.{
  no_items, traverse, join_clause, vector_search, vector_search_indexed, similarity_score,
  full_text_search, search_score, with_return_format, hint, with_hints, force_index, use_index,
  with_timeout, parallel_query, with_fetch, explain_query,
}
use surql_go.Query.Chains.{
  Call, selects, select_exprs, select_aliases, from_tables, wheres, orders, groups, group_alls,
  limits, offsets, inserts, updates, upserts, deletes, relates, traverses, joins, vector_searches,
  indexed_searches, scores, text_searches, search_scores, returns, one_hint, more_hints, forces,
  uses, timeouts, parallels, fetches, explains, run_call, run_calls,
}
use surql_go.Query.Chains.Sound.{
  is_target, is_started, IsSound, new_query-IsSound, GivesSound, refused, accepted, bound,
  not-false, identifier_target, selected, are_directions-append, retarget, on_target,
}

write_query-IsSound :
    (o : Operation) (t : Str) (m : GoMap Value) (q : Query)
    → ((u : Str) → is_target u ≡ true → is_started o u q.relate_from q.relate_to ≡ true)
    → IsSound q
    → GivesSound (write_query o t m q)
unfolding write_query
write_query-IsSound o t m q starts s = refused (not (is_target t)) _ (λ named.
    refused (not (valid_keys m)) _ (λ keyed. (
      on_target o t q.relate_from q.relate_to (not-false (is_target t) named)
          (starts t (not-false (is_target t) named)),
      record {
        inserted = s.1.inserted;
        updated = not-false (valid_keys m) keyed;
        related = s.1.related;
      },
      s.2,
    )))

insert_query-IsSound :
    (t : Str) (m : GoMap Value) (q : Query) → IsSound q → GivesSound (insert_query t m q)
unfolding insert_query
insert_query-IsSound t m q s = refused (not (valid_identifier t)) _ (λ named.
    refused (not (valid_keys m)) _ (λ keyed.
      let goal = identifier_target t (not-false (valid_identifier t) named) in
      (
        on_target insert_op t q.relate_from q.relate_to goal goal,
        record {
          inserted = not-false (valid_keys m) keyed;
          updated = s.1.updated;
          related = s.1.related;
        },
        s.2,
      )))

relate-IsSound :
    (e : Str) (a b : Endpoint) (m : GoMap Value) (q : Query)
    → IsSound q
    → GivesSound (relate e a b m q)
unfolding relate
relate-IsSound e a b m q s = refused (not (valid_identifier e)) _ (λ named.
    bound (relate_endpoint a) _ (λ start. bound (relate_endpoint b) _ (λ end.
      refused (not (is_target start)) _ (λ from. refused (not (is_target end)) _ (λ to.
        refused (not (valid_keys m)) _ (λ keyed.
          let goal = identifier_target e (not-false (valid_identifier e) named) in
          (
            on_target relate_op e start end goal (ground (arith, goal, from, to)),
            record {
              inserted = s.1.inserted;
              updated = s.1.updated;
              related = not-false (valid_keys m) keyed;
            },
            s.2,
          )))))))

from_table-IsSound : (t : Str) (q : Query) → IsSound q → GivesSound (from_table t q)
unfolding from_table
from_table-IsSound t q s = accepted (is_target t) _ (λ named. (
  on_target q.operation t q.relate_from q.relate_to named
      (retarget q.operation q.table_name t q.relate_from q.relate_to s.0.started named),
  s.1,
  s.2,
))

order_by-IsSound :
    (to_upper : Str → Str) (f d : Str) (q : Query)
    → IsSound q
    → GivesSound (order_by to_upper f d q)
unfolding order_by
order_by-IsSound to_upper f d q s =
    accepted (str_eq (to_upper d) (bytes "ASC") || str_eq (to_upper d) (bytes "DESC")) _ (λ known. (
      s.0,
      s.1,
      record {
        limited = s.2.limited;
        skipped = s.2.skipped;
        ordered = are_directions-append q.order_fields f (to_upper d) s.2.ordered known;
      },
    ))

limit-IsSound : (n : ℤ) (q : Query) → IsSound q → GivesSound (limit n q)
unfolding limit
limit-IsSound n q s = refused (ltb_ℤ n (pos 0)) _ (λ above.
    (s.0, s.1, record { limited = ap not above; skipped = s.2.skipped; ordered = s.2.ordered }))

offset-IsSound : (n : ℤ) (q : Query) → IsSound q → GivesSound (offset n q)
unfolding offset
offset-IsSound n q s = refused (ltb_ℤ n (pos 0)) _ (λ above.
    (s.0, s.1, record { limited = s.2.limited; skipped = ap not above; ordered = s.2.ordered }))

where-IsSound : (c : Condition) (q : Query) → IsSound q → GivesSound (where_ c q)
unfolding where_
where-IsSound (raw_text c) q s = s
where-IsSound (operator o) q s = s
where-IsSound nil_condition q s = tt
where-IsSound other_condition q s = tt

with_timeout-IsSound : (t : Option Str) (q : Query) → IsSound q → GivesSound (with_timeout t q)
unfolding with_timeout hint
with_timeout-IsSound none q s = tt
with_timeout-IsSound (some t) q s = s

parallel_query-IsSound : (n : Option ℕ) (q : Query) → IsSound q → GivesSound (parallel_query n q)
unfolding parallel_query hint
parallel_query-IsSound none q s = s
parallel_query-IsSound (some n) q s = bound (parallel_with_workers n) _ (λ h. s)

with_fetch-IsSound :
    (f : FetchStrategy) (n : Option ℕ) (q : Query) → IsSound q → GivesSound (with_fetch f n q)
unfolding with_fetch hint
with_fetch-IsSound eager n q s = s
with_fetch-IsSound lazy n q s = s
with_fetch-IsSound batch none q s = tt
with_fetch-IsSound batch (some n) q s = bound (fetch_batch_hint n) _ (λ h. s)
with_fetch-IsSound (other_strategy f) n q s = tt

module _ (to_upper to_lower : Str → Str) where
  run_call-IsSound :
      (c : Call) (q : Query) → IsSound q → GivesSound (run_call to_upper to_lower c q)
  unfolding run_call select select_expr select_aliased group_by group_all update upsert delete_query
      traverse join_clause vector_search vector_search_indexed similarity_score full_text_search
      search_score with_return_format hint with_hints force_index use_index explain_query
  run_call-IsSound (selects fs) q s = selected q s
  run_call-IsSound (select_exprs es) q s = selected q s
  run_call-IsSound (select_aliases m) q s = selected q s
  run_call-IsSound (from_tables t) q s = from_table-IsSound t q s
  run_call-IsSound (wheres c) q s = where-IsSound c q s
  run_call-IsSound (orders f d) q s = order_by-IsSound to_upper f d q s
  run_call-IsSound (groups fs) q s = s
  run_call-IsSound group_alls q s = s
  run_call-IsSound (limits n) q s = limit-IsSound n q s
  run_call-IsSound (offsets n) q s = offset-IsSound n q s
  run_call-IsSound (inserts t m) q s = insert_query-IsSound t m q s
  run_call-IsSound (updates t m) q s = write_query-IsSound update_op t m q (λ u h. h) s
  run_call-IsSound (upserts t m) q s = write_query-IsSound upsert_op t m q (λ u h. h) s
  run_call-IsSound (deletes t) q s =
      accepted (is_target t) _
        (λ named. (on_target delete_op t q.relate_from q.relate_to named named, s.1, s.2))
  run_call-IsSound (relates e a b m) q s = relate-IsSound e a b m q s
  run_call-IsSound (traverses p) q s = s
  run_call-IsSound (joins c) q s = s
  run_call-IsSound (vector_searches f v k d t) q s =
      refused (ltb_ℤ k (pos 1)) _ (λ a. refused (no_items v) _ (λ b. s))
  run_call-IsSound (indexed_searches f v k ef) q s =
      refused (ltb_ℤ k (pos 1)) _
        (λ a. refused (ltb_ℤ ef (pos 1)) _ (λ b. refused (no_items v) _ (λ c. s)))
  run_call-IsSound (scores f v m a) q s = s
  run_call-IsSound (text_searches f r w) q s =
      refused (is_empty f) _ (λ a. refused (is_empty w) _ (λ b. s))
  run_call-IsSound (search_scores r a) q s = s
  run_call-IsSound (returns f) q s = s
  run_call-IsSound (one_hint h) q s = s
  run_call-IsSound (more_hints hs) q s = s
  run_call-IsSound (forces i) q s = refused (is_empty (q.table_name)) _ (λ a. s)
  run_call-IsSound (uses i) q s = refused (is_empty (q.table_name)) _ (λ a. s)
  run_call-IsSound (timeouts t) q s = with_timeout-IsSound t q s
  run_call-IsSound (parallels n) q s = parallel_query-IsSound n q s
  run_call-IsSound (fetches f n) q s = with_fetch-IsSound f n q s
  run_call-IsSound (explains f) q s = s

  run_calls-GivesSound :
      (cs : List Call) (q : Query) → IsSound q → GivesSound (run_calls to_upper to_lower cs q)
  unfolding run_calls
  run_calls-GivesSound [] q s = s
  run_calls-GivesSound (c ∷ cs) q s = elim (Result-cases (run_call to_upper to_lower c q)) [
    | inl (r, fine) ↦
        rw fine (run_calls-GivesSound cs r (subst GivesSound fine (run_call-IsSound c q s)))
    | inr (e, bad) ↦ rw bad tt
  ]

  -- Every query that a chain of calls on an empty query gives has a table that is empty or an
  -- identifier, with or without a record after it, data under identifiers only, a limit and an
  -- offset that are not negative, directions that are ASC or DESC, and, once it has an operation
  -- that writes, a table, and both ends for RELATE.
  pub run_calls-IsSound :
      (cs : List Call) (q : Query) → run_calls to_upper to_lower cs new_query ≡ ok q → IsSound q
  run_calls-IsSound cs q h =
      subst GivesSound h (run_calls-GivesSound cs new_query new_query-IsSound)
