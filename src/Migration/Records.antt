-- ===== src/Migration/Records.antt =====
-- The decoding half of pkg/surql/migration/history.go: records out of query results, and history
-- entries out of records.
pub mod RoundTrip
use surql_go.Prelude.{
  ℕ, ◌==◌, Bool, true, false, if◌then◌else◌, Option, none, some, List, [], ◌∷◌, ◌++◌, Str, bytes,
  str_eq,
}
use surql_go.Connection.Values.{
  Value, Values, Fields, nil, boolean, text, number, time, array, object, no_values, value,
  no_fields, field,
}
use surql_go.Connection.Client.{Log}
use surql_go.Migration.Models.{MigrationHistory}

-- Package time: the clock, the time that a migration took, and the texts of times.
pub record Clock : Type 0 where
  pub now : Log → ℕ
  pub elapsed_ms : Log → ℕ
  -- t.UTC().Format(time.RFC3339Nano)
  pub format : ℕ → Str
  -- time.Parse, with RFC3339Nano and then with RFC3339
  pub parse : Str → Option ℕ

-- v, ok := rec[key]
unfoldable pub lookup_field : Str → Fields → Option Value
lookup_field k no_fields = none
lookup_field k (field j v fs) = if str_eq j k then some v else lookup_field k fs

records_in : Values → List Fields
records_in no_values = []
records_in (value (object fs) vs) = fs ∷ records_in vs
records_in (value _ vs) = records_in vs

-- appendResultValues: what a `result` adds to the records
unfoldable pub result_values : Value → List Fields
unfolding records_in
result_values (array vs) = records_in vs
result_values (object fs) = fs ∷ []
result_values _ = []

envelope_records : Fields → Option Value → List Fields
unfolding result_values
envelope_records envelope none = envelope ∷ []
envelope_records envelope (some raw) = result_values raw

extract_entries : Values → List Fields
unfolding envelope_records lookup_field
extract_entries no_values = []
extract_entries (value (object fs) vs) =
    envelope_records fs (lookup_field (bytes "result") fs) ++ extract_entries vs
extract_entries (value _ vs) = extract_entries vs

-- extractRecords
unfoldable pub extract_records : Value → List Fields
unfolding extract_entries
extract_records (array vs) = extract_entries vs
extract_records _ = []

-- `s, _ := v.(string)`
abbrev pub text_or_empty : Option Value → Str
text_or_empty (some (text s)) = s
text_or_empty _ = []

-- parseHistoryDatetime
unfoldable pub parse_history_datetime : Clock → Option Value → ℕ
parse_history_datetime f (some (time t)) = t
parse_history_datetime f (some (text s)) = elim (f.parse s) [ none ↦ 0 | some t ↦ t ]
parse_history_datetime f _ = 0

-- coerceInt64, with the integer types as numbers; floats are not among the values
unfoldable pub coerce_int64 : Option Value → Option ℕ
coerce_int64 (some (number n)) = some n
coerce_int64 _ = none

is_empty : Str → Bool
is_empty [] = true
is_empty (_ ∷ _) = false

-- decodeHistoryRecord
unfoldable pub decode_history_record : Clock → Fields → Option MigrationHistory
unfolding lookup_field parse_history_datetime coerce_int64 is_empty
decode_history_record f rec =
    let version = text_or_empty (lookup_field (bytes "version") rec) in
    if is_empty version
    then none
    else some (record {
      version = version;
      description = text_or_empty (lookup_field (bytes "description") rec);
      applied_at = parse_history_datetime f (lookup_field (bytes "applied_at") rec);
      checksum = text_or_empty (lookup_field (bytes "checksum") rec);
      execution_time_ms = coerce_int64 (lookup_field (bytes "execution_time_ms") rec);
    })

-- The loop of GetAppliedMigrations: records that do not decode are skipped.
unfoldable pub decode_records : Clock → List Fields → List MigrationHistory
unfolding decode_history_record
decode_records f [] = []
decode_records f (rec ∷ recs) = elim (decode_history_record f rec) [
  | none ↦ decode_records f recs
  | some entry ↦ entry ∷ decode_records f recs
]
