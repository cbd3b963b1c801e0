-- ===== src/Query/Searches.antt =====
-- The methods of pkg/surql/query/builder.go for searches, return formats and hints.
pub mod Exploration
use surql_go.Prelude.{
  ℕ, if◌then◌else◌, Bool, true, false, Option, none, some, List, [], ◌∷◌, ◌++◌, Str, bytes,
  is_empty, join,
}
use surql_go.Prelude.Int.{ℤ, pos}
use surql_go.Errors.{Result, ok, ◌>>=◌}
use surql_go.Query.Hints.{
  QueryHint, index_hint, parallel_hint, timeout_hint, fetch_hint, explain_hint, FetchStrategy,
  eager, lazy, batch, other_strategy, parallel_with_workers, fetch_batch_hint,
}
use surql_go.Types.Decimal.{format_int}
use surql_go.Query.Builder.{Query, refuse, below}

unfoldable pub traverse : Str → Query → Query
traverse path q = record q { graph_traversal = path }

unfoldable pub join_clause : Str → Query → Query
join_clause clause q = record q { join_clauses = q.join_clauses ++ clause ∷ [] }

-- renderVectorLiteral, whose floats are their texts
unfoldable pub render_vector_literal : List Str → Str
unfolding join
render_vector_literal vector = bytes "[" ++ (join vector (bytes ", ") ++ bytes "]")

abbrev pub given : Option Str → Option Str → Option Str
given none old = old
given (some t) old = some t

abbrev pub no_items : List Str → Bool
no_items [] = true
no_items (x ∷ xs) = false

unfoldable pub vector_search : Str → List Str → ℤ → Str → Option Str → Query → Result Query
vector_search field vector k distance threshold q =
    if below k (pos 1)
    then refuse
    else if no_items vector
    then refuse
    else ok (record q {
      vector_field = field;
      vector_value = vector;
      vector_k = some k;
      vector_distance = distance;
      vector_threshold = given threshold q.vector_threshold;
    })

unfoldable pub vector_search_indexed : Str → List Str → ℤ → ℤ → Query → Result Query
vector_search_indexed field vector k ef q =
    if below k (pos 1)
    then refuse
    else if below ef (pos 1)
    then refuse
    else if no_items vector
    then refuse
    else ok (record q {
      vector_field = field;
      vector_value = vector;
      vector_k = some k;
      vector_ef = some ef;
      vector_distance = [];
      vector_threshold = none;
    })

-- The metric goes through strings.ToLower.
unfoldable pub similarity_score : (Str → Str) → Str → List Str → Str → Str → Query → Query
unfolding render_vector_literal
similarity_score to_lower field vector metric alias_name q = record q {
  fields =
      q.fields
      ++ (bytes "vector::similarity::"
          ++ (to_lower metric
              ++ (bytes "("
                  ++ (field
                      ++ (bytes ", "
                          ++ (render_vector_literal vector
                              ++ (bytes ") AS "
                                  ++ (if is_empty alias_name
                                      then bytes "similarity"
                                      else alias_name))))))))
        ∷ [];
}

unfoldable pub full_text_search : Str → ℤ → Str → Query → Result Query
full_text_search field reference words q =
    if is_empty field
    then refuse
    else if is_empty words
    then refuse
    else ok (record q {
      fulltext_field = field;
      fulltext_reference = reference;
      fulltext_query = words;
      fulltext_set = true;
    })

unfoldable pub search_score : ℤ → Str → Query → Query
unfolding format_int
search_score reference alias_name q = record q {
  fields =
      q.fields
      ++ (bytes "search::score(" ++ (format_int reference ++ (bytes ") AS " ++ alias_name))) ∷ [];
}

unfoldable pub with_return_format : Str → Query → Query
with_return_format f q = record q { return_format = f }

unfoldable pub hint : QueryHint → Query → Query
hint h q = record q { hints = q.hints ++ h ∷ [] }

unfoldable pub with_hints : List QueryHint → Query → Query
with_hints hs q = record q { hints = q.hints ++ hs }

unfoldable pub force_index : Str → Query → Result Query
unfolding hint
force_index name q =
    if is_empty (q.table_name) then refuse else ok (hint (index_hint (q.table_name) name true) q)

unfoldable pub use_index : Str → Query → Result Query
unfolding hint
use_index name q =
    if is_empty (q.table_name) then refuse else ok (hint (index_hint (q.table_name) name false) q)

-- NewTimeoutHint: the argument is the text of the seconds, if they are a number above zero.
unfoldable pub with_timeout : Option Str → Query → Result Query
unfolding hint
with_timeout none q = refuse
with_timeout (some seconds) q = ok (hint (timeout_hint seconds) q)

unfoldable pub parallel_query : Option ℕ → Query → Result Query
unfolding hint parallel_with_workers
parallel_query none q = ok (hint (parallel_hint true none) q)
parallel_query (some n) q = do h ← parallel_with_workers n; ok (hint h q)

unfoldable pub with_fetch : FetchStrategy → Option ℕ → Query → Result Query
unfolding hint fetch_batch_hint
with_fetch eager n q = ok (hint (fetch_hint eager none) q)
with_fetch lazy n q = ok (hint (fetch_hint lazy none) q)
with_fetch batch none q = refuse
with_fetch batch (some n) q = do h ← fetch_batch_hint n; ok (hint h q)
with_fetch (other_strategy s) n q = refuse

unfoldable pub explain_query : Bool → Query → Query
unfolding hint
explain_query full q = hint (explain_hint full) q
