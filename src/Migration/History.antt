-- ===== src/Migration/History.antt =====
-- pkg/surql/migration/history.go: the history table, written and read through the client.
use surql_go.Prelude.{
  is_empty, ℕ, ◌==◌, Bool, true, false, if◌then◌else◌, Option, none, some, List, [], ◌∷◌, ◌++◌, Str,
  bytes, str_eq, GoMap,
}
use surql_go.Errors.{GoError, new, wrap, validation, migration_history, Result, ok, err}
use surql_go.Connection.Values.{Value, text, number}
use surql_go.Connection.Client.{Log, Database, DatabaseClient, query_with_vars}
use surql_go.Migration.Models.{MigrationHistory}
use surql_go.Migration.Records.{Clock, extract_records, decode_records}

-- What a function of this package returns that only fails or not.
abbrev pub Outcome : Type 0
Outcome = Option GoError

abbrev table_name : Str
table_name = bytes "_migration_history"

abbrev define_field : Str → Str → Str
define_field name rest =
    bytes "DEFINE FIELD IF NOT EXISTS " ++ name ++ bytes " ON TABLE " ++ table_name ++ rest

-- The statements of CreateMigrationTable.
abbrev pub table_statements : List Str
table_statements =
    (bytes "DEFINE TABLE IF NOT EXISTS " ++ table_name ++ bytes " SCHEMAFULL;")
    ∷ define_field (bytes "version") (bytes " TYPE string;")
    ∷ define_field (bytes "description") (bytes " TYPE string;")
    ∷ define_field (bytes "applied_at") (bytes " TYPE datetime;")
    ∷ define_field (bytes "checksum") (bytes " TYPE string;")
    ∷ define_field (bytes "execution_time_ms") (bytes " TYPE option<int>;")
    ∷ (bytes "DEFINE INDEX IF NOT EXISTS version_idx ON TABLE "
        ++ table_name
        ++ bytes " COLUMNS version UNIQUE;")
    ∷ []

abbrev failure : Result Value → Option GoError
failure (ok _) = none
failure (err e) = some e

-- The loop of CreateMigrationTable.
unfoldable pub define_table : Database → DatabaseClient → List Str → Log → Outcome × Log
define_table db client [] log = (none, log)
define_table db client (stmt ∷ rest) log =
    let (answer, log') = query_with_vars db client stmt [] log in
    let after = define_table db client rest log' in
    elim (failure answer) [ none ↦ after | some e ↦ (some (wrap migration_history e), log') ]

-- CreateMigrationTable and EnsureMigrationTable
unfoldable pub ensure_migration_table : Database → Option DatabaseClient → Log → Outcome × Log
unfolding define_table
ensure_migration_table db none log = (some (new validation), log)
ensure_migration_table db (some client) log = define_table db client table_statements log

wrap_failure : Result Value → Outcome
wrap_failure (ok _) = none
wrap_failure (err e) = some (wrap migration_history e)

abbrev record_vars : Clock → ℕ → MigrationHistory → GoMap Value
record_vars f applied_at entry =
    (bytes "version", text entry.version)
    ∷ (bytes "description", text entry.description)
    ∷ (bytes "applied_at", text (f.format applied_at))
    ∷ (bytes "checksum", text entry.checksum)
    ∷ elim entry.execution_time_ms [
      | none ↦ []
      | some ms ↦ (bytes "execution_time_ms", number ms) ∷ []
    ]

abbrev record_sql : MigrationHistory → Str
record_sql entry =
    bytes "CREATE "
    ++ table_name
    ++ bytes " SET "
    ++ bytes "version = $version, "
    ++ bytes "description = $description, "
    ++ bytes "applied_at = <datetime> $applied_at, "
    ++ bytes "checksum = $checksum"
    ++ (elim entry.execution_time_ms [
      | none ↦ []
      | some _ ↦ bytes ", execution_time_ms = $execution_time_ms"
    ])
    ++ bytes ";"

-- RecordMigration; the clock is read if the entry has no time.
unfoldable pub record_migration :
    Clock → Database → Option DatabaseClient → MigrationHistory → Log → Outcome × Log
unfolding ensure_migration_table wrap_failure
record_migration f db none entry log = (some (new validation), log)
record_migration f db (some client) entry log =
    if is_empty entry.version
    then (some (new validation), log)
    else (let (ensured, log') = ensure_migration_table db (some client) log in
        elim ensured [
          | some e ↦ (some e, log')
          | none ↦
              let applied_at = if entry.applied_at == 0 then f.now log' else entry.applied_at in
              let (answer, log2) =
                query_with_vars db client (record_sql entry) (record_vars f applied_at entry)
                  log' in
              (wrap_failure answer, log2)
        ])

-- RemoveMigrationRecord
unfoldable pub remove_migration_record :
    Database → Option DatabaseClient → Str → Log → Outcome × Log
unfolding ensure_migration_table wrap_failure
remove_migration_record db none version log = (some (new validation), log)
remove_migration_record db (some client) version log =
    if is_empty version
    then (some (new validation), log)
    else (let (ensured, log') = ensure_migration_table db (some client) log in
        elim ensured [
          | some e ↦ (some e, log')
          | none ↦
              let (answer, log2) =
                query_with_vars db client
                  (bytes "DELETE " ++ table_name ++ bytes " WHERE version = $version;")
                  ((bytes "version", text version) ∷ []) log' in
              (wrap_failure answer, log2)
        ])

decode_answer : Clock → Result Value → Result (List MigrationHistory)
decode_answer f (err e) = err (wrap migration_history e)
decode_answer f (ok v) = ok (decode_records f (extract_records v))

abbrev pub select_statement : Str
select_statement = bytes "SELECT * FROM " ++ table_name ++ bytes " ORDER BY applied_at ASC;"

-- GetAppliedMigrations
unfoldable pub get_applied_migrations :
    Clock → Database → Option DatabaseClient → Log → Result (List MigrationHistory) × Log
unfolding ensure_migration_table decode_answer
get_applied_migrations f db none log = (err (new validation), log)
get_applied_migrations f db (some client) log =
    let (ensured, log') = ensure_migration_table db (some client) log in
    elim ensured [
      | some e ↦ (err e, log')
      | none ↦
          let (answer, log2) = query_with_vars db client select_statement [] log' in
          (decode_answer f answer, log2)
    ]

unfoldable pub has_version : Str → List MigrationHistory → Bool
has_version version [] = false
has_version version (m ∷ ms) = if str_eq m.version version then true else has_version version ms

found_answer : Str → Result (List MigrationHistory) → Result Bool
unfolding has_version
found_answer version (err e) = err e
found_answer version (ok ms) = ok (has_version version ms)

-- IsMigrationApplied
unfoldable pub is_migration_applied :
    Clock → Database → Option DatabaseClient → Str → Log → Result Bool × Log
unfolding get_applied_migrations found_answer
is_migration_applied f db none version log = (err (new validation), log)
is_migration_applied f db (some client) version log =
    if is_empty version
    then (err (new validation), log)
    else (let (applied, log') = get_applied_migrations f db (some client) log in
        (found_answer version applied, log'))
