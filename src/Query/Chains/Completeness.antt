-- ===== src/Query/Chains/Completeness.antt =====
-- Which chains of calls of pkg/surql/query/builder.go give a query that ToSurql renders.
use surql_go.Prelude.{
  ◌≡◌, refl, Bool, true, false, not, ◌∙◌, List, [], ◌∷◌, arith, Str, is_empty, is_identifier,
}
use surql_go.Errors.{Result, ok, err, ◌>>=◌}
use surql_go.Query.Builder.{
  Query, Operation, unset, select_op, insert_op, update_op, upsert_op, delete_op, relate_op,
  other_operation, new_query, valid_identifier, split_table_part,
}
use surql_go.Query.Selection.{build_select}
use surql_go.Query.Rendering.{query_to_surql, build_base, build_delete, build_relate}
use surql_go.Query.Chains.{Call, run_calls}
use surql_go.Query.Rendering.{build_insert, build_update, build_upsert, some_data}
use surql_go.Query.Chains.Sound.{is_target, is_started}
use surql_go.Query.Chains.Soundness.{run_calls-IsSound}

abbrev pub is_ok {ℓ} : {A : Type ℓ} → Result A → Bool
is_ok (ok a) = true
is_ok (err e) = false

-- What a statement needs beyond what the methods check
abbrev pub is_complete : Query → Bool
is_complete q = elim q.operation [
  | unset ↦ false
  | select_op ↦ not (is_empty q.table_name)
  | insert_op ↦ some_data q.insert_data
  | update_op ↦ some_data q.update_data
  | upsert_op ↦ some_data q.update_data
  | delete_op ↦ true
  | relate_op ↦ true
  | other_operation ↦ false
]

is_ok-bind : {A B : Type 0} (r : Result A) (f : A → B) → is_ok (r >>= λ a. ok (f a)) ≡ is_ok r
is_ok-bind (ok a) f = refl
is_ok-bind (err e) f = refl

target-is_empty : (t : Str) → is_target t ≡ true → is_empty t ≡ false
unfolding valid_identifier is_identifier split_table_part
target-is_empty [] h = absurd (ground (arith, h))
target-is_empty (c ∷ t) h = refl

base_complete :
    (o : Operation) (q : Query)
    → q.operation ≡ o
    → is_started o q.table_name q.relate_from q.relate_to ≡ true
    → is_ok (build_base q) ≡ is_complete q
unfolding build_base build_select build_insert build_update build_upsert build_delete build_relate
base_complete unset q e h = rw e refl
base_complete select_op q e h = rw e (ground arith)
base_complete insert_op q e h = rw (e, target-is_empty q.table_name h) (ground arith)
base_complete update_op q e h = rw (e, target-is_empty q.table_name h) (ground arith)
base_complete upsert_op q e h = rw (e, target-is_empty q.table_name h) (ground arith)
base_complete delete_op q e h = rw (e, target-is_empty q.table_name h) refl
base_complete relate_op q e h =
    rw
      (
        e,
        target-is_empty q.table_name (ground (arith, h)),
        target-is_empty q.relate_from (ground (arith, h)),
        target-is_empty q.relate_to (ground (arith, h)),
      )
      refl
base_complete other_operation q e h = absurd (ground (arith, h))

-- A query that a chain of calls on an empty query gives renders exactly if it has an operation and
-- what that still needs: a table for SELECT, data for CREATE, UPDATE and UPSERT, and nothing for
-- DELETE and RELATE.
pub run_calls-renders :
    (to_upper to_lower : Str → Str) (cs : List Call) (q : Query)
    → run_calls to_upper to_lower cs new_query ≡ ok q
    → is_ok (query_to_surql q) ≡ is_complete q
unfolding query_to_surql
run_calls-renders to_upper to_lower cs q h =
    is_ok-bind (build_base q) _
    ∙ base_complete q.operation q refl (run_calls-IsSound to_upper to_lower cs q h).0.started
