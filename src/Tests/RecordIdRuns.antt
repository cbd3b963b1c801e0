-- ===== src/Tests/RecordIdRuns.antt =====
-- Record ids of pkg/surql/types/record_id.go, printed and parsed.
use surql_go.Prelude.{◌≡◌, ◌≢◌, refl, none, some, Str, bytes}
use surql_go.Prelude.Int.{pos, negsuc}
use surql_go.Errors.{ok}
use surql_go.Types.Decimal.{format_int, parse_int}
use surql_go.Types.RecordId.{
  RecordId, string_id, int_id, new_record_id, validate_table, record_string, value_string,
  needs_angle_brackets, parse_record_id,
}
use surql_go.Types.RecordId.RoundTrip.{KeepsText, parse-record_string, parse-numeric_string}

abbrev keep : Str → Str
keep s = s

keep-KeepsText : KeepsText keep
keep-KeepsText s h = refl

abbrev alice : RecordId
alice = record { table = bytes "user"; id = string_id (bytes "alice <b>: x") }

program : Unit {0}
unfolding new_record_id validate_table record_string value_string needs_angle_brackets parse_int
    format_int
program = tt

built : new_record_id (bytes "user") (string_id (bytes "alice <b>: x")) ≡ ok alice
unfolding program
built = refl

printed_form : record_string alice ≡ bytes "user:<alice <b>: x>"
unfolding program
printed_form = refl

no_number : parse_int (bytes "alice <b>: x") ≡ none
unfolding program
no_number = refl

parse-record_string_example : parse_record_id keep (record_string alice) ≡ ok alice
parse-record_string_example =
    parse-record_string keep (bytes "user") (string_id (bytes "alice <b>: x")) alice keep-KeepsText
      built no_number

negative : (format_int (negsuc 41) ≡ bytes "-42") × (parse_int (bytes "-42") ≡ some (negsuc 41))
unfolding program
negative = (refl, refl)

abbrev forty_two : RecordId
forty_two = record { table = bytes "user"; id = string_id (bytes "42") }

built_42 : new_record_id (bytes "user") (string_id (bytes "42")) ≡ ok forty_two
unfolding program
built_42 = refl

number_42 : parse_int (bytes "42") ≡ some (pos 42)
unfolding program
number_42 = refl

parse-numeric_string_example :
    (parse_record_id keep (record_string forty_two)
      ≡ ok (record { table = bytes "user"; id = int_id (pos 42) }))
    × (record { table = bytes "user"; id = int_id (pos 42) } ≢ forty_two)
parse-numeric_string_example =
    parse-numeric_string keep (bytes "user") (bytes "42") (pos 42) forty_two keep-KeepsText built_42
      number_42
