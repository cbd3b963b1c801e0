-- ===== src/Types/Quoting.antt =====
-- quoteValue of pkg/surql/types/operators.go: values as SurrealQL literals.
pub mod RoundTrip
use surql_go.Prelude.{
  ℕ, ◌==◌, if◌then◌else◌, Bool, true, false, List, [], ◌∷◌, ◌++◌, Str, bytes, join,
}
use surql_go.Prelude.Int.{ℤ}
use surql_go.Types.Decimal.{format_int}

-- A Go value by the case of the type switch that it meets. A float is the text that
-- strconv.FormatFloat gives, a raw value is what its ToSurql gives, and any other value is its text,
-- of String() or of fmt.Sprint.
mutual
  pub data Value : Type 0 where
    nil : Value
    boolean : Bool → Value
    integer : ℤ → Value
    float : Str → Value
    text : Str → Value
    raw : Str → Value
    list : Values → Value
    shown : Str → Value

  pub data Values : Type 0 where
    end : Values
    item : Value → Values → Values

-- strings.ReplaceAll(s, string(c), by) at a text of one byte
unfoldable pub replace_all : ℕ → Str → Str → Str
replace_all c by [] = []
replace_all c by (x ∷ s) = let rest = replace_all c by s in if x == c then by ++ rest else x ∷ rest

unfoldable pub quote_string : Str → Str
unfolding replace_all
quote_string s =
    b'\'' ∷ (replace_all b'\'' (bytes "\\'") (replace_all b'\\' (bytes "\\\\") s) ++ bytes "'")

unfoldable mutual
  unfolding quote_string format_int

  pub quote_value : Value → Str
  quote_value nil = bytes "NULL"
  quote_value (boolean true) = bytes "true"
  quote_value (boolean false) = bytes "false"
  quote_value (integer n) = format_int n
  quote_value (float s) = s
  quote_value (text s) = quote_string s
  quote_value (raw s) = s
  quote_value (list vs) = bytes "[" ++ (join (quote_values vs) (bytes ", ") ++ bytes "]")
  quote_value (shown s) = quote_string s

  pub quote_values : Values → List Str
  quote_values end = []
  quote_values (item v vs) = quote_value v ∷ quote_values vs

unfoldable pub render_list : Values → Str
unfolding quote_values
render_list vs = bytes "[" ++ (join (quote_values vs) (bytes ", ") ++ bytes "]")
