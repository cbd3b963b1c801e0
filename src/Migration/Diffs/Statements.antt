-- ===== src/Migration/Diffs/Statements.antt =====
-- The SurrealQL of diff.go, and its guards on defaults and on event expressions.
use surql_go.Prelude.{
  ℕ, if◌then◌else◌, ◌==◌, leb, Bool, true, false, not, ◌&&◌, ◌||◌, Option, none, some, [], ◌∷◌,
  ◌++◌, Str, bytes, is_empty, is_alpha, is_word, is_identifier, str_eq, has_suffix, has_substring,
}
use surql_go.Errors.{GoError, Result, ok, err, new, validation, ◌>>=◌}
use surql_go.Schema.Clauses.{Texts, invalid, clause, flag_clause}
use surql_go.Schema.Fields.{FieldDefinition}
use surql_go.Schema.Indexes.{IndexDefinition, index_mtree, index_hnsw, index_disk_ann, positive}
use surql_go.Schema.IndexClauses.{index_surql}

-- Where the scan of a function call is: at the start of a name, in a name, after one colon.
pub data Place : Type 0 where
  at_name in_name at_colon : Place

-- [^;]*\) up to the end
unfoldable pub ends_call : Str → Bool
ends_call [] = false
ends_call (c ∷ []) = c == b')'
ends_call (c ∷ d ∷ s) = not (c == b';') && ends_call (d ∷ s)

-- [a-zA-Z_][a-zA-Z0-9_]*(?:::[a-zA-Z_][a-zA-Z0-9_]*)*\([^;]*\)
unfoldable pub is_call : Place → Str → Bool
unfolding ends_call
is_call place [] = false
is_call at_name (c ∷ s) = is_alpha c && is_call in_name s
is_call at_colon (c ∷ s) = c == b':' && is_call at_name s
is_call in_name (c ∷ s) =
    let more = is_call in_name s in
    let next = is_call at_colon s in
    if is_word c then more else if c == b':' then next else if c == b'(' then ends_call s else false

abbrev is_digit : ℕ → Bool
is_digit c = leb b'0' c && leb c b'9'

unfoldable pub all_digits : Str → Bool
all_digits [] = true
all_digits (c ∷ s) = is_digit c && all_digits s

-- \d+
unfoldable pub some_digits : Str → Bool
unfolding all_digits
some_digits [] = false
some_digits (c ∷ s) = is_digit c && all_digits s

-- \d*(?:\.\d+)?
unfoldable pub rest_of_number : Str → Bool
unfolding some_digits
rest_of_number [] = true
rest_of_number (c ∷ s) = if is_digit c then rest_of_number s else c == b'.' && some_digits s

unfoldable pub is_unsigned : Str → Bool
unfolding rest_of_number
is_unsigned [] = false
is_unsigned (c ∷ s) = is_digit c && rest_of_number s

-- -?\d+(?:\.\d+)?
unfoldable pub is_number : Str → Bool
unfolding is_unsigned
is_number [] = false
is_number (c ∷ s) = if c == b'-' then is_unsigned s else is_unsigned (c ∷ s)

-- (?:[^'\\]|\\.)*' up to the end; the flag tells that a backslash stands before.
unfoldable pub ends_quote : Bool → Str → Bool
ends_quote escaped [] = false
ends_quote true (c ∷ s) = not (c == b'\n') && ends_quote false s
ends_quote false (c ∷ s) =
    let inside = ends_quote (c == b'\\') s in if c == b'\'' then is_empty s else inside

unfoldable pub is_quoted : Str → Bool
unfolding ends_quote
is_quoted [] = false
is_quoted (c ∷ s) = c == b'\'' && ends_quote false s

-- \$[a-zA-Z_][a-zA-Z0-9_]*
unfoldable pub is_parameter : Str → Bool
unfolding is_identifier
is_parameter [] = false
is_parameter (c ∷ s) = c == b'$' && is_identifier s

unfoldable pub is_constant : Str → Bool
unfolding str_eq
is_constant s =
    str_eq s (bytes "true")
    || str_eq s (bytes "false")
    || str_eq s (bytes "NONE")
    || str_eq s (bytes "NULL")

-- safeDefaultPattern
unfoldable pub is_safe_default : Str → Bool
unfolding is_call is_number is_constant is_quoted is_parameter
is_safe_default s =
    is_call at_name s || is_number s || is_constant s || is_quoted s || is_parameter s

module _ (x : Texts) where
  unfoldable pub validate_event_expression : Str → Option GoError
  unfolding has_substring has_suffix
  validate_event_expression expr =
      let stripped = x.trim_space expr in
      if has_substring stripped (bytes "; ")
        || has_substring stripped (bytes ";--")
        || has_suffix stripped (bytes ";")
      then invalid
      else if has_substring stripped (bytes "--")
      then invalid
      else none

  unfoldable pub validate_default_value : Str → Option GoError
  unfolding is_safe_default
  validate_default_value expr = if not (is_safe_default (x.trim_space expr)) then invalid else none

  -- An optional clause whose value is checked
  unfoldable pub safe_clause : Str → Str → Result Str
  unfolding validate_default_value
  safe_clause keyword value =
      if is_empty value
      then ok []
      else elim (validate_default_value value) [ some e ↦ err e | none ↦ ok (keyword ++ value) ]

  unfoldable pub field_to_sql : Str → FieldDefinition → Result Str
  unfolding safe_clause
  field_to_sql table f = do
    default ← safe_clause (bytes " DEFAULT ") f.default
    value ← safe_clause (bytes " VALUE ") f.value
    ok (
        bytes "DEFINE FIELD "
        ++ (f.name
            ++ (bytes " ON TABLE "
                ++ (table
                    ++ (bytes " TYPE "
                        ++ (f.type
                            ++ (clause (bytes " ASSERT ") f.assertion
                                ++ (default
                                    ++ (value
                                        ++ (flag_clause (bytes " READONLY") f.read_only
                                            ++ (flag_clause (bytes " FLEXIBLE") f.flexible
                                                ++ bytes ";")))))))))))

-- The texts of mtreeIndexToSQL and hnswIndexToSQL are those of table.go.
unfoldable pub index_to_sql : Str → IndexDefinition → Result Str
unfolding index_surql
index_to_sql table i =
    if (str_eq i.type index_mtree || str_eq i.type index_hnsw || str_eq i.type index_disk_ann)
      && not (positive i.dimension)
    then err (new validation)
    else ok (index_surql i table false)
