-- ===== src/Tests/MigrationRuns.antt =====
-- Migrations of pkg/surql/migration run against a small database: it refuses the statement BAD,
-- accepts everything else, and its history holds version 1.
use surql_go.Prelude.{
  ℕ, ◌≤◌, ◌≡◌, ◌≢◌, ◌↔◌, refl, true, if◌then◌else◌, Option, none, some, List, [], ◌∷◌, ◌++◌, arith,
  Str, bytes, str_eq, length, select, has_prefix, Perm, IsSortedBy, lookup, insert,
}
use surql_go.Errors.{wrap, foreign, migration_execution, ok, err}
use surql_go.Connection.Values.{
  text, time, number, array, object, no_values, value, no_fields, field,
}
use surql_go.Connection.Client.{
  begin_event, tx_query_event, commit_event, cancel_event, query_event, Database, DatabaseClient,
  QueryResult, map_query_error, query_with_vars,
}
use surql_go.Migration.Models.{Migration, MigrationHistory, up, is_valid}
use surql_go.Connection.Transactions.{begin, commit, execute}
use surql_go.Migration.Records.{Clock, decode_records, decode_history_record, extract_records}
use surql_go.Migration.History.{get_applied_migrations, record_migration, has_version, define_table}
use surql_go.Migration.Executor.{
  ExecuteOptions, failed_status, applied_status, statements_of, execute_migration, execute_all,
}
use surql_go.Migration.Executor.Atomic.{sent, accepted, refused_statement}
use surql_go.Migration.Validation.{validate_migration_set}
use surql_go.Migration.Validation.Complete.{times, sound_within, validate_migration_set-none}
use surql_go.Migration.Runs.{by_version, pending_migrations, migrate_up}
use surql_go.Migration.Runs.Stops.{Stops, execute_all-Stops}
use surql_go.Migration.Runs.Pending.{unapplied, pending_migrations_lem}
use surql_go.Migration.Runs.Limits.{IsRead, dry_run-IsRead, length-migrate_up}

abbrev pub migration_of : Str → Str → Migration
migration_of v stmt = record {
  version = v;
  description = bytes "d";
  path = bytes "p";
  up_statements = bytes "A" ∷ stmt ∷ bytes "C" ∷ [];
  down_statements = bytes "D" ∷ [];
  checksum = bytes "c";
  depends_on = [];
}

abbrev pub good : Migration
good = migration_of (bytes "1") (bytes "B")

abbrev pub next_one : Migration
next_one = migration_of (bytes "2") (bytes "B")

abbrev pub bad : Migration
bad = migration_of (bytes "3") (bytes "BAD")

abbrev pub entry_1 : MigrationHistory
entry_1 = record {
  version = bytes "1";
  description = bytes "d";
  applied_at = 5;
  checksum = bytes "c";
  execution_time_ms = some 4;
}

-- A text of length t stands for the time t.
abbrev pub text_of : ℕ → Str
text_of t = t ∷ []

abbrev pub time_of : Str → Option ℕ
time_of [] = none
time_of (t ∷ _) = some t

abbrev pub clock : Clock
clock = record { now = λ log. 9; elapsed_ms = λ log. 2; format = text_of; parse = time_of }

abbrev pub client : DatabaseClient
client = record { connected = true }

abbrev pub history_answer : QueryResult
history_answer = record {
  status = bytes "OK";
  elapsed = bytes "1ms";
  result = array (
      value
        (object (
          field (bytes "version") (text (bytes "1")) (
            field (bytes "description") (text (bytes "d")) (
              field (bytes "applied_at") (time 5) (
                field (bytes "checksum") (text (bytes "c"))
                  (field (bytes "execution_time_ms") (number 4) no_fields))))))
        no_values);
}

abbrev pub db : Database
db log begin_event = ok none
db log (tx_query_event s) = if str_eq s (bytes "BAD") then err (foreign 1) else ok none
db log commit_event = ok none
db log cancel_event = ok none
db log (query_event s vars) =
    if has_prefix s (bytes "SELECT") then ok (some (history_answer ∷ [])) else ok none

program : Unit {0}
unfolding str_eq has_prefix get_applied_migrations define_table query_with_vars extract_records
    decode_history_record has_version execute_migration execute_all lookup insert
    validate_migration_set migrate_up decode_records begin commit execute statements_of
    record_migration
program = tt

pub history_read : (get_applied_migrations clock db (some client) []).0 ≡ ok (entry_1 ∷ [])
unfolding program
history_read = refl

refused :
    db (sent (bytes "A" ∷ []) (begin_event ∷ [])) (tx_query_event (bytes "BAD")) ≡ err (foreign 1)
unfolding program
refused = refl

A_accepted : accepted db (bytes "A" ∷ []) (begin_event ∷ []) ≡ true
unfolding program
A_accepted = refl

up_valid : is_valid up ≡ true
unfolding is_valid
up_valid = refl

bad_statements : statements_of up bad ≡ (bytes "A" ∷ []) ++ bytes "BAD" ∷ (bytes "C" ∷ [])
unfolding statements_of
bad_statements = refl

refused_statement_example : execute_migration clock db (some client) bad up [] ≡ (
  (failed_status bad, some (wrap migration_execution (map_query_error (foreign 1)))),
  cancel_event ∷ tx_query_event (bytes "BAD") ∷ sent (bytes "A" ∷ []) (begin_event ∷ []),
)
refused_statement_example =
    refused_statement clock db client bad up [] (bytes "A" ∷ []) (bytes "BAD") (bytes "C" ∷ [])
      (foreign 1) refl up_valid bad_statements refl A_accepted refused

good_runs : (execute_migration clock db (some client) good up []).0 ≡ (applied_status good 9, none)
unfolding program
good_runs = refl

execute_all-Stops_example :
    Stops clock db client up
      (good ∷ bad ∷ next_one ∷ [])
      []
      (execute_all clock db client up (good ∷ bad ∷ next_one ∷ []) [])
execute_all-Stops_example = execute_all-Stops clock db client up (good ∷ bad ∷ next_one ∷ []) []

stops_early :
    (execute_all clock db client up (good ∷ bad ∷ next_one ∷ []) []).0.0
    ≡ applied_status good 9 ∷ failed_status bad ∷ []
unfolding program
stops_early = refl

pending_migrations_lem_example :
    (p : List Migration) × ((pending_migrations clock db
        (some client)
        (bad ∷ good ∷ next_one ∷ [])
        []).0
      ≡ ok p)
    × Perm p (select (unapplied (entry_1 ∷ [])) (bad ∷ good ∷ next_one ∷ []))
    × IsSortedBy by_version p
pending_migrations_lem_example =
    pending_migrations_lem clock db (some client) (bad ∷ good ∷ next_one ∷ []) [] (entry_1 ∷ [])
      history_read

abbrev pub dry : ExecuteOptions
dry = record { steps = 1; dry_run = true; fail_on_validation = true }

dry_run-IsRead_example :
    IsRead [] (migrate_up clock db (some client) (ok (good ∷ next_one ∷ [])) dry []).1
dry_run-IsRead_example = dry_run-IsRead clock db client (ok (good ∷ next_one ∷ [])) dry [] refl

length-migrate_up_example :
    length (migrate_up clock db (some client) (ok (good ∷ next_one ∷ bad ∷ [])) dry []).0.0 ≤ 1
length-migrate_up_example =
    length-migrate_up clock db (some client) (ok (good ∷ next_one ∷ bad ∷ [])) dry [] (omega arith)

validate_migration_set-none_example : (validate_migration_set (good ∷ next_one ∷ []) ≡ []) ↔ (
    ((v : Str) → times v (good ∷ next_one ∷ []) ≤ 1)
    × (sound_within (good ∷ next_one ∷ []) (good ∷ next_one ∷ []) ≡ true))
validate_migration_set-none_example = validate_migration_set-none (good ∷ next_one ∷ [])

version_named : entry_1.version ≢ []
version_named p = ground (arith, p)
