-- ===== src/Schema/Analyzers.antt =====
-- pkg/surql/schema/analyzer.go: tokenizers, token filters and DEFINE ANALYZER.
use surql_go.Prelude.{
  ◌||◌, if◌then◌else◌, Bool, Option, none, List, [], ◌∷◌, ◌++◌, Str, bytes, is_empty, str_eq, join,
  map,
}
use surql_go.Prelude.Int.{ℤ, pos}
use surql_go.Errors.{GoError}
use surql_go.Types.Decimal.{format_int}
use surql_go.Schema.Clauses.{invalid, flag_clause}

-- A Tokenizer is a string in the source.
abbrev pub Tokenizer : Type 0
Tokenizer = Str

unfoldable pub tokenizer_is_valid : Tokenizer → Bool
unfolding str_eq
tokenizer_is_valid t =
    str_eq t (bytes "blank")
    || str_eq t (bytes "camel")
    || str_eq t (bytes "class")
    || str_eq t (bytes "punct")

-- The kind is a string in the source.
pub record TokenFilter : Type 0 where
  pub kind : Str
  pub min : ℤ
  pub max : ℤ
  pub language : Str

abbrev pub plain_filter : Str → TokenFilter
plain_filter kind = record { kind = kind; min = pos 0; max = pos 0; language = [] }

abbrev pub ascii : TokenFilter
ascii = plain_filter (bytes "ascii")

abbrev pub lowercase : TokenFilter
lowercase = plain_filter (bytes "lowercase")

abbrev pub uppercase : TokenFilter
uppercase = plain_filter (bytes "uppercase")

abbrev pub edge_ngram : ℤ → ℤ → TokenFilter
edge_ngram lo hi = record (plain_filter (bytes "edgengram")) { min = lo; max = hi }

abbrev pub ngram : ℤ → ℤ → TokenFilter
ngram lo hi = record (plain_filter (bytes "ngram")) { min = lo; max = hi }

abbrev pub snowball : Str → TokenFilter
snowball language = record (plain_filter (bytes "snowball")) { language = language }

ranged : Str → TokenFilter → Str
unfolding format_int
ranged name f =
    name ++ (bytes "(" ++ (format_int f.min ++ (bytes "," ++ (format_int f.max ++ bytes ")"))))

-- The kinds without arguments and all other kinds render as they are.
unfoldable pub filter_surql : TokenFilter → Str
unfolding str_eq ranged
filter_surql f =
    if str_eq f.kind (bytes "edgengram")
    then ranged (bytes "edgengram") f
    else if str_eq f.kind (bytes "ngram")
    then ranged (bytes "ngram") f
    else if str_eq f.kind (bytes "snowball")
    then bytes "snowball(" ++ (f.language ++ bytes ")")
    else f.kind

pub record AnalyzerDefinition : Type 0 where
  pub name : Str
  pub tokenizers : List Tokenizer
  pub filters : List TokenFilter

abbrev pub AnalyzerOption : Type 0
AnalyzerOption = AnalyzerDefinition → AnalyzerDefinition

unfoldable pub with_tokenizer : Tokenizer → AnalyzerOption
with_tokenizer t a = record a { tokenizers = a.tokenizers ++ t ∷ [] }

unfoldable pub with_tokenizers : List Tokenizer → AnalyzerOption
with_tokenizers ts a = record a { tokenizers = a.tokenizers ++ ts }

unfoldable pub with_filter : TokenFilter → AnalyzerOption
with_filter f a = record a { filters = a.filters ++ f ∷ [] }

unfoldable pub with_filters : List TokenFilter → AnalyzerOption
with_filters fs a = record a { filters = a.filters ++ fs }

abbrev apply_all : List AnalyzerOption → AnalyzerOption
apply_all [] a = a
apply_all (opt ∷ opts) a = apply_all opts (opt a)

unfoldable pub new_analyzer : Str → List AnalyzerOption → AnalyzerDefinition
new_analyzer name opts = apply_all opts (record { name = name; tokenizers = []; filters = [] })

unfoldable pub standard_analyzer : Str → List AnalyzerOption → AnalyzerDefinition
unfolding new_analyzer with_tokenizer with_filters
standard_analyzer name opts =
    new_analyzer name
      (with_tokenizer (bytes "class") ∷ with_filters (lowercase ∷ ascii ∷ []) ∷ opts)

unfoldable pub validate_analyzer : AnalyzerDefinition → Option GoError
validate_analyzer a = if is_empty a.name then invalid else none

-- A clause with a list, which is left out if the list is empty
abbrev listed : Str → List Str → Str
unfolding join
listed keyword [] = []
listed keyword (x ∷ xs) = keyword ++ join (x ∷ xs) (bytes ",")

unfoldable pub analyzer_surql : AnalyzerDefinition → Bool → Str
unfolding filter_surql join
analyzer_surql a if_not_exists =
    bytes "DEFINE ANALYZER"
    ++ (flag_clause (bytes " IF NOT EXISTS") if_not_exists
        ++ (bytes " "
            ++ (a.name
                ++ (listed (bytes " TOKENIZERS ") a.tokenizers
                    ++ (listed (bytes " FILTERS ") (map filter_surql a.filters) ++ bytes ";")))))
