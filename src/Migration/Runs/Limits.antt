-- ===== src/Migration/Runs/Limits.antt =====
-- The options of MigrateUp: what a dry run sends, and that Steps bounds a run.
use mathlib.Core.Path.{subst}
use mathlib.Core.List.{append_assoc}
use surql_go.Prelude.{
  ℕ, ◌≤◌, ◌<◌, ◌≡◌, refl, sym, true, Bool-cases, Option-cases, inl, inr, Option, none, some, List,
  [], ◌∷◌, ◌++◌, arith, Str, str_eq, contains, Every, length, length-take, length-map,
}
use surql_go.Errors.{ok, err, Result-cases}
use surql_go.Connection.Client.{
  Event, begin_event, tx_query_event, commit_event, cancel_event, query_event, Log, Database,
  DatabaseClient, query_with_vars,
}
use surql_go.Migration.Models.{Migration, MigrationDirection, up}
use surql_go.Migration.Records.{Clock}
use surql_go.Migration.History.{
  table_statements, define_table, ensure_migration_table, select_statement, get_applied_migrations,
}
use surql_go.Migration.Executor.{ExecuteOptions, execute_migration, execute_all}
use surql_go.Migration.Runs.{
  Discovered, pending_migrations, limit_steps, run_up, pending_status, validation_failure,
  migrate_discovered, migrate_up,
}

-- What is sent to read the history: the statements that define its table, and a SELECT
abbrev pub history_requests : List Str
history_requests = select_statement ∷ table_statements

abbrev pub IsHistoryRequest : Event → Type 0
IsHistoryRequest (query_event surql vars) = (contains surql history_requests ≡ true) × (vars ≡ [])
IsHistoryRequest begin_event = ⊥
IsHistoryRequest (tx_query_event surql) = ⊥
IsHistoryRequest commit_event = ⊥
IsHistoryRequest cancel_event = ⊥

-- Between two logs nothing was sent but requests that read the history.
abbrev pub IsRead : Log → Log → Type 0
IsRead log log' = (sent : Log) × (log' ≡ sent ++ log) × Every IsHistoryRequest sent

IsRead-refl : (log : Log) → IsRead log log
IsRead-refl log = ([], refl, tt)

Every-append :
    (sent later : Log)
    → Every IsHistoryRequest later
    → Every IsHistoryRequest sent
    → Every IsHistoryRequest (later ++ sent)
Every-append sent [] h k = k
Every-append sent (e ∷ later) h k = (h.0, Every-append sent later h.1 k)

IsRead-trans : (a b c : Log) → IsRead a b → IsRead b c → IsRead a c
IsRead-trans a b c (sent, p, h) (later, q, k) =
    (later ++ sent, rw (q, p) (sym (append_assoc later sent a)), Every-append sent later k h)

query-IsRead :
    (db : Database) (client : DatabaseClient) (surql : Str) (log : Log)
    → contains surql history_requests ≡ true
    → IsRead log (query_with_vars db client surql [] log).1
unfolding query_with_vars
query-IsRead db client surql log h = elim (Bool-cases client.connected) [
  | inl up_now ↦ rw (up_now, query_with_vars) (query_event surql [] ∷ [], refl, ((h, refl), tt))
  | inr down_now ↦ rw (down_now, query_with_vars) (IsRead-refl log)
]

define_table-IsRead :
    (db : Database) (client : DatabaseClient) (stmts : List Str) (log : Log)
    → Every (λ s. contains s history_requests ≡ true) stmts
    → IsRead log (define_table db client stmts log).1
unfolding define_table
define_table-IsRead db client [] log h = IsRead-refl log
define_table-IsRead db client (stmt ∷ rest) log h =
    let first = query-IsRead db client stmt log h.0 in
    elim (Result-cases (query_with_vars db client stmt [] log).0) [
      | inl (v, p) ↦
          rw (p, define_table) (IsRead-trans _ _ _ first (define_table-IsRead db client rest _ h.1))
      | inr (e, p) ↦ rw (p, define_table) first
    ]

table_statements-among : Every (λ s. contains s history_requests ≡ true) table_statements
unfolding contains str_eq
table_statements-among = (refl, (refl, (refl, (refl, (refl, (refl, (refl, tt)))))))

select_statement-among : contains select_statement history_requests ≡ true
unfolding contains str_eq
select_statement-among = refl

applied-IsRead :
    (f : Clock) (db : Database) (client : DatabaseClient) (log : Log)
    → IsRead log (get_applied_migrations f db (some client) log).1
unfolding get_applied_migrations ensure_migration_table
applied-IsRead f db client log =
    let defined = define_table-IsRead db client table_statements log table_statements-among in
    elim (Option-cases (define_table db client table_statements log).0) [
      | inr (e, p) ↦ rw (p, get_applied_migrations) defined
      | inl p ↦
          rw (p, get_applied_migrations)
            (IsRead-trans _ _ _ defined
              (query-IsRead db client select_statement _ select_statement-among))
    ]

pending-log :
    (f : Clock) (db : Database) (client : Option DatabaseClient) (ms : List Migration) (log : Log)
    → (pending_migrations f db client ms log).1 ≡ (get_applied_migrations f db client log).1
unfolding pending_migrations
pending-log f db client ms log = refl

run_up-dry :
    (f : Clock) (db : Database) (client : DatabaseClient) (o : ExecuteOptions) (ms : List Migration)
    (log : Log)
    → o.dry_run ≡ true
    → (run_up f db client o ms log).1 ≡ log
unfolding run_up
run_up-dry f db client o ms log dry = rw (dry, run_up) refl

length-execute_all :
    (f : Clock) (db : Database) (client : DatabaseClient) (dir : MigrationDirection)
    (ms : List Migration) (log : Log)
    → length (execute_all f db client dir ms log).0.0 ≤ length ms
unfolding execute_all
length-execute_all f db client dir [] log = omega arith
length-execute_all f db client dir (m ∷ ms) log = ground (
  arith,
  length-execute_all f db client dir ms (execute_migration f db (some client) m dir log).1,
)

length-run_up :
    (f : Clock) (db : Database) (client : DatabaseClient) (o : ExecuteOptions) (ms : List Migration)
    (log : Log)
    → length (run_up f db client o ms log).0.0 ≤ length ms
unfolding run_up
length-run_up f db client o ms log =
    ground (arith, length-map ms pending_status, length-execute_all f db client up ms log)

length-limit_steps : (n : ℕ) (ms : List Migration) → 0 < n → length (limit_steps n ms) ≤ n
unfolding limit_steps
length-limit_steps n ms h = ground (arith, length-take n ms)

-- A dry run sends nothing of a migration and begins no transaction: all requests that it adds to the
-- log are statements that define the history table, or the SELECT that reads it.
pub dry_run-IsRead :
    (f : Clock) (db : Database) (client : DatabaseClient) (found : Discovered) (o : ExecuteOptions)
    (log : Log)
    → o.dry_run ≡ true
    → IsRead log (migrate_up f db (some client) found o log).1
unfolding migrate_up migrate_discovered
dry_run-IsRead f db client (err e) o log dry = IsRead-refl log
dry_run-IsRead f db client (ok ms) o log dry =
    let read : IsRead log (pending_migrations f db (some client) ms log).1 =
      rw (pending-log f db (some client) ms log) (applied-IsRead f db client log) in
    elim (Option-cases (validation_failure o ms)) [
      | inr (e, p) ↦ rw (p, migrate_discovered) (IsRead-refl log)
      | inl p ↦ elim (Result-cases (pending_migrations f db (some client) ms log).0) [
        | inr (e, q) ↦ rw (p, q, migrate_discovered) read
        | inl (rest, q) ↦
            rw (p, q, migrate_discovered)
              (subst (IsRead log) (sym (run_up-dry f db client o _ _ dry)) read)
      ]
    ]

-- A run with a positive Steps reports on at most that many migrations.
pub length-migrate_up :
    (f : Clock) (db : Database) (client : Option DatabaseClient) (found : Discovered)
    (o : ExecuteOptions) (log : Log)
    → 0 < o.steps
    → length (migrate_up f db client found o log).0.0 ≤ o.steps
unfolding migrate_up migrate_discovered
length-migrate_up f db none found o log h = omega arith
length-migrate_up f db (some client) (err e) o log h = omega arith
length-migrate_up f db (some client) (ok ms) o log h =
    elim (Option-cases (validation_failure o ms)) [
      | inr (e, p) ↦ rw (p, migrate_discovered) (omega arith)
      | inl p ↦ elim (Result-cases (pending_migrations f db (some client) ms log).0) [
        | inr (e, q) ↦ rw (p, q, migrate_discovered) (omega arith)
        | inl (rest, q) ↦
            let long =
              length-run_up f db client o (limit_steps o.steps rest)
                (pending_migrations f db (some client) ms log).1 in
            let short = length-limit_steps o.steps rest h in
            rw (p, q, migrate_discovered) (omega arith)
      ]
    ]
