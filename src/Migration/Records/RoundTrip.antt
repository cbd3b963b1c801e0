-- ===== src/Migration/Records/RoundTrip.antt =====
-- What the client wraps, the history functions unwrap; a stored entry is read back.
use surql_go.Prelude.{
  ℕ, ◌≡◌, ◌≢◌, refl, ap, Option, none, some, List, [], ◌∷◌, ◌++◌, arith, Str, bytes, str_eq,
}
use surql_go.Connection.Values.{Value, Fields, text, number, time, array, no_fields, field}
use surql_go.Connection.Client.{QueryResult, envelopes, query_results_to_envelopes}
use surql_go.Migration.Models.{MigrationHistory}
use surql_go.Migration.Records.{
  Clock, result_values, extract_entries, extract_records, parse_history_datetime, coerce_int64,
  decode_history_record,
}

abbrev pub results_of : List QueryResult → List Fields
results_of [] = []
results_of (r ∷ rs) = result_values r.result ++ results_of rs

extract_entries-envelopes : (rs : List QueryResult) → extract_entries (envelopes rs) ≡ results_of rs
unfolding extract_entries envelopes str_eq
extract_entries-envelopes [] = refl
extract_entries-envelopes (r ∷ rs) =
    ap (λ l. result_values r.result ++ l) (extract_entries-envelopes rs)

-- The records that are read from the envelopes of a query's results are those of the results, in
-- order; an absent answer has none.
pub extract_records-envelopes :
    (rs : List QueryResult)
    → (extract_records (array (query_results_to_envelopes (some rs))) ≡ results_of rs)
      × (extract_records (array (query_results_to_envelopes none)) ≡ [])
unfolding extract_records query_results_to_envelopes
extract_records-envelopes rs = (extract_entries-envelopes rs, refl)

execution_field : Option ℕ → Fields
execution_field none = no_fields
execution_field (some ms) = field (bytes "execution_time_ms") (number ms) no_fields

-- The record of an entry, with its time as the database returns it: a text or a time.
unfoldable pub stored_record : MigrationHistory → Value → Fields
unfolding execution_field
stored_record entry at = field (bytes "version") (text entry.version) (
    field (bytes "description") (text entry.description) (
      field (bytes "applied_at") at
        (field (bytes "checksum") (text entry.checksum) (execution_field entry.execution_time_ms))))

abbrev entry_of : Str → Str → ℕ → Str → Option ℕ → MigrationHistory
entry_of v d t c ms = record {
  version = v;
  description = d;
  applied_at = t;
  checksum = c;
  execution_time_ms = ms;
}

stored_entry :
    (f : Clock) (v d : Str) (t : ℕ) (c : Str) (ms : Option ℕ)
    → v ≢ []
    → f.parse (f.format t) ≡ some t
    → (decode_history_record f (stored_record (entry_of v d t c ms) (time t))
        ≡ some (entry_of v d t c ms))
      × (decode_history_record f (stored_record (entry_of v d t c ms) (text (f.format t)))
          ≡ some (entry_of v d t c ms))
unfolding decode_history_record stored_record str_eq parse_history_datetime coerce_int64
stored_entry f [] d t c ms named reads = absurd (named refl)
stored_entry f (x ∷ v) d t c none named reads = ground (arith, reads)
stored_entry f (x ∷ v) d t c (some ms) named reads = ground (arith, reads)

-- The record of an entry with a version decodes to the entry, whether its time comes back as a time
-- or as the text that was written, provided that package time reads its own texts.
pub decode-stored_record :
    (f : Clock) (entry : MigrationHistory)
    → entry.version ≢ []
    → ((t : ℕ) → f.parse (f.format t) ≡ some t)
    → (decode_history_record f (stored_record entry (time entry.applied_at)) ≡ some entry)
      × (decode_history_record f (stored_record entry (text (f.format entry.applied_at)))
          ≡ some entry)
decode-stored_record f entry named reads =
    stored_entry f entry.version entry.description entry.applied_at entry.checksum
      entry.execution_time_ms named (reads entry.applied_at)
