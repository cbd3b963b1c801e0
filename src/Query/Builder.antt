-- ===== src/Query/Builder.antt =====
-- Query of pkg/surql/query/builder.go and its methods. A query is a value, as the methods copy what
-- they change.
use surql_go.Prelude.{
  ◌==◌, if◌then◌else◌, Bool, true, false, not, ◌&&◌, ◌||◌, Option, none, some, List, [], ◌∷◌, ◌++◌,
  Str, bytes, is_empty, is_identifier, str_eq, str_ltb, map, GoMap, keys, lookup, sort_by,
}
use surql_go.Prelude.Int.{ℤ, pos, ltb_ℤ}
use surql_go.Errors.{Result, ok, err, new, validation}
use surql_go.Types.Quoting.{Value}
use surql_go.Types.Operators.{Operator, to_surql}
use surql_go.Query.Hints.{QueryHint}

-- The type is a string in the source.
pub data Operation : Type 0 where
  unset select_op insert_op update_op upsert_op delete_op relate_op other_operation : Operation

-- Floats are their texts.
pub record Query : Type 0 where
  pub operation : Operation
  pub table_name : Str
  pub fields : List Str
  pub conditions : List Str
  pub order_fields : List (Str × Str)
  pub group_fields : List Str
  pub group_all_flag : Bool
  pub limit_value : Option ℤ
  pub offset_value : Option ℤ
  pub insert_data : GoMap Value
  pub update_data : GoMap Value
  pub relate_from : Str
  pub relate_to : Str
  pub relate_data : GoMap Value
  pub join_clauses : List Str
  pub graph_traversal : Str
  pub return_format : Str
  pub vector_field : Str
  pub vector_value : List Str
  pub vector_k : Option ℤ
  pub vector_distance : Str
  pub vector_threshold : Option Str
  pub vector_ef : Option ℤ
  pub fulltext_field : Str
  pub fulltext_reference : ℤ
  pub fulltext_query : Str
  pub fulltext_set : Bool
  pub hints : List QueryHint

unfoldable pub new_query : Query
new_query = record {
  operation = unset;
  table_name = [];
  fields = [];
  conditions = [];
  order_fields = [];
  group_fields = [];
  group_all_flag = false;
  limit_value = none;
  offset_value = none;
  insert_data = [];
  update_data = [];
  relate_from = [];
  relate_to = [];
  relate_data = [];
  join_clauses = [];
  graph_traversal = [];
  return_format = [];
  vector_field = [];
  vector_value = [];
  vector_k = none;
  vector_distance = [];
  vector_threshold = none;
  vector_ef = none;
  fulltext_field = [];
  fulltext_reference = pos 0;
  fulltext_query = [];
  fulltext_set = false;
  hints = [];
}

abbrev pub refuse {ℓ} : {A : Type ℓ} → Result A
refuse = err (new validation)

-- validateIdentifier of helpers.go, true where it returns no error
unfoldable pub valid_identifier : Str → Bool
unfolding is_identifier
valid_identifier name = not (is_empty name) && is_identifier name

unfoldable pub split_table_part : Str → Str
split_table_part [] = []
split_table_part (c ∷ s) = let rest = split_table_part s in if c == b':' then [] else c ∷ rest

abbrev projection : List Str → List Str
projection [] = bytes "*" ∷ []
projection (f ∷ fs) = f ∷ fs

unfoldable pub select : List Str → Query → Query
select fields q = record q { operation = select_op; fields = projection fields }

unfoldable pub select_expr : List Operator → Query → Query
unfolding to_surql
select_expr exprs q = record q { operation = select_op; fields = projection (map to_surql exprs) }

unfoldable pub aliased : GoMap Operator → Str → Str
unfolding lookup to_surql
aliased fields k = elim (lookup k fields) [ none ↦ [] | some e ↦ to_surql e ] ++ (bytes " AS " ++ k)

unfoldable pub select_aliased : GoMap Operator → Query → Query
unfolding aliased keys sort_by
select_aliased fields q = record q {
  operation = select_op;
  fields = projection (map (aliased fields) (sort_by str_ltb (keys fields)));
}

unfoldable pub from_table : Str → Query → Result Query
unfolding valid_identifier split_table_part
from_table table q =
    if valid_identifier (split_table_part table)
    then ok (record q { table_name = table })
    else refuse

-- The argument of Where, by its dynamic type
pub data Condition : Type 0 where
  raw_text : Str → Condition
  operator : Operator → Condition
  nil_condition other_condition : Condition

unfoldable pub where_ : Condition → Query → Result Query
unfolding to_surql
where_ (raw_text s) q = ok (record q { conditions = q.conditions ++ s ∷ [] })
where_ (operator o) q = ok (record q { conditions = q.conditions ++ to_surql o ∷ [] })
where_ nil_condition q = refuse
where_ other_condition q = refuse

-- The direction has passed strings.ToUpper.
unfoldable pub order_by : (Str → Str) → Str → Str → Query → Result Query
unfolding str_eq
order_by to_upper field direction q =
    let dir = to_upper direction in
    if str_eq dir (bytes "ASC") || str_eq dir (bytes "DESC")
    then ok (record q { order_fields = q.order_fields ++ (field, dir) ∷ [] })
    else refuse

unfoldable pub group_by : List Str → Query → Query
group_by fields q = record q { group_fields = q.group_fields ++ fields }

unfoldable pub group_all : Query → Query
group_all q = record q { group_all_flag = true }

abbrev pub below : ℤ → ℤ → Bool
below n bound = ltb_ℤ n bound

unfoldable pub limit : ℤ → Query → Result Query
limit n q = if below n (pos 0) then refuse else ok (record q { limit_value = some n })

unfoldable pub offset : ℤ → Query → Result Query
offset n q = if below n (pos 0) then refuse else ok (record q { offset_value = some n })
