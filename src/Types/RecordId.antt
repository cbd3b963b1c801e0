-- ===== src/Types/RecordId.antt =====
-- pkg/surql/types/record_id.go: record ids, built, printed and parsed. strings.TrimSpace is a
-- parameter; encoding/json is left out.
pub mod RoundTrip
use surql_go.Prelude.{
  ℕ, ◌==◌, Bool, true, false, ◌&&◌, ◌||◌, not, leb, if◌then◌else◌, Option, none, some, List, [],
  ◌∷◌, ◌++◌, Str, bytes,
}
use surql_go.Prelude.Int.{ℤ}
use surql_go.Errors.{GoError, new, validation, Result, ok, err}
use surql_go.Types.Decimal.{is_digit, format_int, parse_int}

-- `absent` is the zero value, which is not present.
pub data RecordIdValue : Type 0 where
  absent : RecordIdValue
  -- StringID and IntID
  string_id : Str → RecordIdValue
  int_id : ℤ → RecordIdValue

pub record RecordId : Type 0 where
  pub table : Str
  pub id : RecordIdValue

-- [A-Za-z_], and [A-Za-z0-9_]
abbrev pub is_letter : ℕ → Bool
is_letter c = ((leb 65 c && leb c 90) || (leb 97 c && leb c 122)) || c == 95

abbrev pub is_word : ℕ → Bool
is_word c = is_letter c || is_digit c

abbrev pub all_word : Str → Bool
all_word [] = true
all_word (c ∷ s) = if is_word c then all_word s else false

-- tablePattern.MatchString
unfoldable pub is_table : Str → Bool
is_table [] = false
is_table (c ∷ s) = if is_letter c then all_word s else false

-- simpleIDPattern.MatchString
unfoldable pub is_simple : Str → Bool
is_simple [] = false
is_simple (c ∷ s) = all_word (c ∷ s)

-- validateTable
unfoldable pub validate_table : Str → Option GoError
unfolding is_table
validate_table table = if is_table table then none else some (new validation)

-- NewRecordID, NewStringRecordID and NewIntRecordID
unfoldable pub new_record_id : Str → RecordIdValue → Result RecordId
unfolding validate_table
new_record_id table id = elim (validate_table table) [
  | some e ↦ err e
  | none ↦ elim id [
    | absent ↦ err (new validation)
    | string_id s ↦ ok (record { table = table; id = string_id s })
    | int_id n ↦ ok (record { table = table; id = int_id n })
  ]
]

-- (RecordIDValue).String
unfoldable pub value_string : RecordIdValue → Str
unfolding format_int
value_string absent = []
value_string (string_id s) = s
value_string (int_id n) = format_int n

unfoldable pub needs_angle_brackets : RecordIdValue → Bool
unfolding is_simple
needs_angle_brackets (int_id n) = false
needs_angle_brackets (string_id s) = not (is_simple s)
needs_angle_brackets absent = true

-- (RecordID).String, and ToSurql
unfoldable pub record_string : RecordId → Str
unfolding value_string needs_angle_brackets
record_string r =
    if needs_angle_brackets r.id
    then r.table ++ 58 ∷ 60 ∷ (value_string r.id ++ 62 ∷ [])
    else r.table ++ 58 ∷ value_string r.id

-- The parts before and after the first colon
unfoldable pub split_colon : Str → Option (Str × Str)
split_colon [] = none
split_colon (c ∷ s) =
    let rest = split_colon s in
    if c == 58
    then some ([], s)
    else elim rest [ none ↦ none | some (before, after) ↦ some (c ∷ before, after) ]

-- The text without its last byte, if that is `>`
unfoldable pub before_gt : Str → Option Str
before_gt [] = none
before_gt (c ∷ []) = if c == 62 then some [] else none
before_gt (c ∷ d ∷ s) = elim (before_gt (d ∷ s)) [ none ↦ none | some t ↦ some (c ∷ t) ]

unfoldable pub strip_brackets : Str → Str
unfolding before_gt
strip_brackets [] = []
strip_brackets (c ∷ s) = if c == 60 then elim (before_gt s) [ none ↦ c ∷ s | some t ↦ t ] else c ∷ s

unfoldable pub record_of : Str → Str → Result RecordId
unfolding new_record_id parse_int
record_of table id = elim (parse_int id) [
  | some n ↦ new_record_id table (int_id n)
  | none ↦ new_record_id table (string_id id)
]

unfoldable pub is_empty : Str → Bool
is_empty [] = true
is_empty (_ ∷ _) = false

unfoldable pub parse_parts : Str → Str → Result RecordId
unfolding record_of strip_brackets is_empty
parse_parts table id =
    if is_empty table || is_empty id
    then err (new validation)
    else record_of table (strip_brackets id)

-- ParseRecordID
unfoldable pub parse_record_id : (Str → Str) → Str → Result RecordId
unfolding split_colon parse_parts
parse_record_id trim_space input = elim (split_colon input) [
  | none ↦ err (new validation)
  | some (before, after) ↦ parse_parts (trim_space before) (trim_space after)
]
