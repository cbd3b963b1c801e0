-- ===== src/Types/Operators.antt =====
-- pkg/surql/types/operators.go: operators and the SurrealQL that they render to.
use surql_go.Prelude.{◌++◌, Str, bytes}
use surql_go.Types.Quoting.{Value, Values, quote_value, render_list}

-- The last constructor is any other implementation of the interface, by what its ToSurql gives.
pub data Operator : Type 0 where
  eq ne gt gte lt lte contains_op contains_not : Str → Value → Operator
  contains_all contains_any inside not_inside : Str → Values → Operator
  is_null is_not_null : Str → Operator
  and_op or_op : Operator → Operator → Operator
  not_op : Operator → Operator
  rendered : Str → Operator

-- fmt.Sprintf("%s op %s", field, value)
abbrev compare_text : Str → Str → Str → Str
compare_text field op value = field ++ (op ++ value)

abbrev in_brackets : Str → Str
in_brackets s = bytes "(" ++ (s ++ bytes ")")

unfoldable pub to_surql : Operator → Str
unfolding quote_value render_list
to_surql (eq f v) = compare_text f (bytes " = ") (quote_value v)
to_surql (ne f v) = compare_text f (bytes " != ") (quote_value v)
to_surql (gt f v) = compare_text f (bytes " > ") (quote_value v)
to_surql (gte f v) = compare_text f (bytes " >= ") (quote_value v)
to_surql (lt f v) = compare_text f (bytes " < ") (quote_value v)
to_surql (lte f v) = compare_text f (bytes " <= ") (quote_value v)
to_surql (contains_op f v) = compare_text f (bytes " CONTAINS ") (quote_value v)
to_surql (contains_not f v) = compare_text f (bytes " CONTAINSNOT ") (quote_value v)
to_surql (contains_all f vs) = compare_text f (bytes " CONTAINSALL ") (render_list vs)
to_surql (contains_any f vs) = compare_text f (bytes " CONTAINSANY ") (render_list vs)
to_surql (inside f vs) = compare_text f (bytes " INSIDE ") (render_list vs)
to_surql (not_inside f vs) = compare_text f (bytes " NOTINSIDE ") (render_list vs)
to_surql (is_null f) = f ++ bytes " IS NULL"
to_surql (is_not_null f) = f ++ bytes " IS NOT NULL"
to_surql (and_op a b) = in_brackets (to_surql a) ++ (bytes " AND " ++ in_brackets (to_surql b))
to_surql (or_op a b) = in_brackets (to_surql a) ++ (bytes " OR " ++ in_brackets (to_surql b))
to_surql (not_op a) = bytes "NOT " ++ in_brackets (to_surql a)
to_surql (rendered s) = s
