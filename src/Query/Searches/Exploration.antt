-- ===== src/Query/Searches/Exploration.antt =====
-- The two vector searches of pkg/surql/query/builder.go, one after the other.
use surql_go.Prelude.{Option, none, some, [], ◌++◌, Str, bytes}
use surql_go.Prelude.Int.{ℤ}
use surql_go.Errors.{Result, ok, err}
use surql_go.Query.Builder.{Query}
use surql_go.Query.Searches.{no_items, no_items}
use surql_go.Query.Selection.{vector_operator}
use surql_go.Types.Decimal.{format_int}

-- <|k,ef|>
abbrev pub indexed_operator : ℤ → ℤ → Str
indexed_operator k ef = bytes "<|" ++ (format_int k ++ (bytes "," ++ (format_int ef ++ bytes "|>")))

-- <|k,DISTANCE|> and <|k,DISTANCE,threshold|>
abbrev pub exhaustive_operator : ℤ → Str → Option Str → Str
exhaustive_operator k d none = bytes "<|" ++ (format_int k ++ (bytes "," ++ (d ++ bytes "|>")))
exhaustive_operator k d (some t) =
    bytes "<|" ++ (format_int k ++ (bytes "," ++ (d ++ (bytes "," ++ (t ++ bytes "|>")))))

abbrev pub later {ℓ} : {A : Type ℓ} → Option A → Option A → Option A
later none old = old
later (some t) old = some t

operator_of : Query → ℤ → Result Query → Str
operator_of q k (ok a) = vector_operator a k
operator_of q k (err e) = []
