-- ===== src/Query/Hints.antt =====
-- pkg/surql/query/hints.go: optimisation hints, their merging and their comments.
pub mod Merging
use surql_go.Prelude.{
  not, is_empty, str_eq, ℕ, ◌==◌, ltb, leb, if◌then◌else◌, Bool, true, false, ◌&&◌, ◌||◌, Option,
  none, some, List, [], ◌∷◌, ◌++◌, Str, bytes, join, map,
}
use surql_go.Errors.{GoError, Result, ok, err, new, validation}
use surql_go.Types.Decimal.{format_nat}

pub data HintType : Type 0 where
  index parallel timeout fetch explain : HintType

-- The type is a string in the source: `other_strategy` is any value but the three constants.
pub data FetchStrategy : Type 0 where
  eager lazy batch : FetchStrategy
  other_strategy : Str → FetchStrategy

-- The implementations of the interface; a timeout is the text of its seconds, which are positive.
pub data QueryHint : Type 0 where
  index_hint : Str → Str → Bool → QueryHint
  parallel_hint : Bool → Option ℕ → QueryHint
  timeout_hint : Str → QueryHint
  fetch_hint : FetchStrategy → Option ℕ → QueryHint
  explain_hint : Bool → QueryHint

unfoldable pub hint_type : QueryHint → HintType
hint_type (index_hint t i f) = index
hint_type (parallel_hint e n) = parallel
hint_type (timeout_hint s) = timeout
hint_type (fetch_hint s n) = fetch
hint_type (explain_hint f) = explain

unfoldable pub parallel_with_workers : ℕ → Result QueryHint
parallel_with_workers n =
    if ltb n 1 || ltb 32 n then err (new validation) else ok (parallel_hint true (some n))

unfoldable pub fetch_batch_hint : ℕ → Result QueryHint
fetch_batch_hint n =
    if ltb n 1 || ltb 10000 n then err (new validation) else ok (fetch_hint batch (some n))

abbrev pub comment : Str → Str
comment s = bytes "/* " ++ (s ++ bytes " */")

unfoldable pub fetch_surql : FetchStrategy → Option ℕ → Str
unfolding format_nat
fetch_surql batch (some n) = comment (bytes "FETCH BATCH " ++ format_nat n)
fetch_surql batch none = comment (bytes "FETCH BATCH")
fetch_surql eager n = comment (bytes "FETCH EAGER")
fetch_surql lazy n = comment (bytes "FETCH LAZY")
fetch_surql (other_strategy s) n = comment (bytes "FETCH")

unfoldable pub parallel_surql : Bool → Option ℕ → Str
unfolding format_nat
parallel_surql false n = comment (bytes "PARALLEL OFF")
parallel_surql true none = comment (bytes "PARALLEL ON")
parallel_surql true (some n) = comment (bytes "PARALLEL " ++ format_nat n)

unfoldable pub hint_surql : QueryHint → Str
unfolding fetch_surql parallel_surql
hint_surql (index_hint t i force) =
    comment (
      (if force then bytes "FORCE" else bytes "USE")
      ++ (bytes " INDEX " ++ (t ++ (bytes "." ++ i))))
hint_surql (parallel_hint e n) = parallel_surql e n
hint_surql (timeout_hint s) = comment (bytes "TIMEOUT " ++ (s ++ bytes "s"))
hint_surql (fetch_hint s n) = fetch_surql s n
hint_surql (explain_hint true) = comment (bytes "EXPLAIN FULL")
hint_surql (explain_hint false) = comment (bytes "EXPLAIN")

abbrev pub type_code : HintType → ℕ
type_code index = 0
type_code parallel = 1
type_code timeout = 2
type_code fetch = 3
type_code explain = 4

unfoldable pub same_type : HintType → HintType → Bool
same_type a b = type_code a == type_code b

-- A hint takes the place of the one of its type, or goes to the end.
unfoldable pub put_hint : QueryHint → List QueryHint → List QueryHint
unfolding hint_type same_type
put_hint h [] = h ∷ []
put_hint h (g ∷ out) = if same_type (hint_type g) (hint_type h) then h ∷ out else g ∷ put_hint h out

-- The loop of MergeHints
unfoldable pub merge_loop : List QueryHint → List QueryHint → List QueryHint
unfolding put_hint
merge_loop out [] = out
merge_loop out (h ∷ hs) = merge_loop (put_hint h out) hs

unfoldable pub merge_hints : List QueryHint → List QueryHint
unfolding merge_loop
merge_hints hs = merge_loop [] hs

unfoldable pub render_hints : List QueryHint → Str
unfolding merge_hints hint_surql join
render_hints hs = join (map hint_surql (merge_hints hs)) (bytes " ")

-- FetchHint.Validate
unfoldable pub validate_fetch : FetchStrategy → Option ℕ → Option GoError
validate_fetch batch none = some (new validation)
validate_fetch batch (some n) = none
validate_fetch eager n = none
validate_fetch lazy n = none
validate_fetch (other_strategy s) n = none

-- The verb %q of package fmt is a parameter.
unfoldable pub validate_hint : (Str → Str) → QueryHint → Str → List Str
unfolding str_eq
validate_hint quote (index_hint t i force) table =
    if not (is_empty table) && not (str_eq t table)
    then (bytes "Index hint table "
        ++ (quote t ++ (bytes " does not match query table " ++ quote table)))
      ∷ []
    else []
validate_hint quote (parallel_hint e n) table = []
validate_hint quote (timeout_hint s) table = []
validate_hint quote (fetch_hint s n) table = []
validate_hint quote (explain_hint f) table = []
