-- ===== src/Query/Selection.antt =====
-- buildSelect of pkg/surql/query/builder.go.
use surql_go.Prelude.{
  if◌then◌else◌, Bool, true, false, not, ◌&&◌, ◌||◌, Option, none, some, List, [], ◌∷◌, ◌++◌, Str,
  bytes, is_empty, join, map,
}
use surql_go.Prelude.Int.{ℤ}
use surql_go.Errors.{Result, ok}
use surql_go.Types.Quoting.{text, quote_value}
use surql_go.Types.Decimal.{format_int}
use surql_go.Query.Builder.{Query, refuse}
use surql_go.Query.Searches.{render_vector_literal}

abbrev pub in_parentheses : Str → Str
in_parentheses c = bytes "(" ++ (c ++ bytes ")")

-- The parts that one if statement appends
abbrev pub when : Bool → Str → List Str
when true part = part ∷ []
when false part = []

abbrev pub some_texts : List Str → Bool
some_texts [] = false
some_texts (x ∷ xs) = true

unfoldable pub vector_operator : Query → ℤ → Str
unfolding format_int
vector_operator q k = elim (q.vector_ef) [
  | some ef ↦ bytes "<|" ++ (format_int k ++ (bytes "," ++ (format_int ef ++ bytes "|>")))
  | none ↦ elim (q.vector_threshold) [
    | some t ↦
        bytes "<|"
        ++ (format_int k ++ (bytes "," ++ (q.vector_distance ++ (bytes "," ++ (t ++ bytes "|>")))))
    | none ↦ bytes "<|" ++ (format_int k ++ (bytes "," ++ (q.vector_distance ++ bytes "|>")))
  ]
]

abbrev is_some : Option ℤ → Bool
is_some none = false
is_some (some n) = true

unfoldable pub vector_part : Query → List Str
unfolding vector_operator render_vector_literal
vector_part q = elim (q.vector_k) [
  | none ↦ []
  | some k ↦
      when
        (not (is_empty (q.vector_field))
          && (some_texts (q.vector_value)
              && (not (is_empty (q.vector_distance)) || is_some (q.vector_ef))))
        (q.vector_field
          ++ (bytes " "
              ++ (vector_operator q k ++ (bytes " " ++ render_vector_literal (q.vector_value)))))
]

unfoldable pub fulltext_part : Query → List Str
unfolding format_int quote_value
fulltext_part q =
    when
      (q.fulltext_set && (not (is_empty (q.fulltext_field)) && not (is_empty (q.fulltext_query))))
      (q.fulltext_field
        ++ (bytes " @"
            ++ (format_int (q.fulltext_reference)
                ++ (bytes "@ " ++ quote_value (text (q.fulltext_query))))))

unfoldable pub where_parts : Query → List Str
unfolding vector_part fulltext_part
where_parts q = vector_part q ++ (fulltext_part q ++ map in_parentheses (q.conditions))

abbrev order_text : Str × Str → Str
order_text (field, direction) = field ++ (bytes " " ++ direction)

abbrev numbered : Str → Option ℤ → List Str
numbered word none = []
numbered word (some n) = (word ++ format_int n) ∷ []

abbrev group_part : Query → List Str
group_part q =
    if q.group_all_flag
    then bytes "GROUP ALL" ∷ []
    else when (some_texts (q.group_fields))
        (bytes "GROUP BY " ++ join (q.group_fields) (bytes ", "))

abbrev order_part : List Str → List Str
order_part ordered = when (some_texts ordered) (bytes "ORDER BY " ++ join ordered (bytes ", "))

unfoldable pub select_parts : Query → List Str
unfolding where_parts join format_int
select_parts q =
    (bytes "SELECT "
      ++ ((if some_texts (q.fields) then join (q.fields) (bytes ", ") else bytes "*")
          ++ (bytes " FROM " ++ (q.table_name ++ q.graph_traversal))))
    ∷ (q.join_clauses
        ++ (when (some_texts (where_parts q))
              (bytes "WHERE " ++ join (where_parts q) (bytes " AND "))
            ++ (group_part q
                ++ (order_part (map order_text (q.order_fields))
                    ++ (numbered (bytes "LIMIT ") (q.limit_value)
                        ++ numbered (bytes "START ") (q.offset_value))))))

unfoldable pub build_select : Query → Result Str
unfolding select_parts join
build_select q = if is_empty (q.table_name) then refuse else ok (join (select_parts q) (bytes " "))
