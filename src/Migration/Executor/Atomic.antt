-- ===== src/Migration/Executor/Atomic.antt =====
-- A migration is all or nothing: what ExecuteMigration sends, and when it succeeds.
use surql_go.Prelude.{
  ℕ, ◌≡◌, refl, ◌∙◌, ◌↔◌, Bool, true, false, if◌then◌else◌, none, some, List, [], ◌∷◌, ◌++◌, arith,
  Str,
}
use surql_go.Errors.{GoError, wrap, migration_execution, Result, ok, err}
use surql_go.Connection.Client.{
  begin_event, tx_query_event, commit_event, cancel_event, Log, Database, DatabaseClient,
  query_answer, map_query_error,
}
use surql_go.Connection.Transactions.{
  Transaction, active, begin, begin_answer, is_active, finalise, commit, rollback, execute,
}
use surql_go.Migration.Models.{MigrationDirection, up, down, other_direction, is_valid, Migration}
use surql_go.Migration.Records.{Clock}
use surql_go.Migration.History.{Outcome}
use surql_go.Migration.Executor.{
  statements_of, run_statements, failed_status, write_history, history_answer, finish_migration,
  run_migration, execute_migration,
}

-- The log once the statements have been sent
abbrev pub sent : List Str → Log → Log
sent [] log = log
sent (s ∷ ss) log = sent ss (tx_query_event s ∷ log)

abbrev pub is_ok {ℓ} : {A : Type ℓ} → Result A → Bool
is_ok (ok _) = true
is_ok (err _) = false

-- The database accepts every statement, each after those before it.
abbrev pub accepted : Database → List Str → Log → Bool
accepted db [] log = true
accepted db (s ∷ ss) log =
    if is_ok (db log (tx_query_event s)) then accepted db ss (tx_query_event s ∷ log) else false

abbrev open_tx : Transaction
open_tx = record { state = active }

-- The log at the end of the statements and after the commit
abbrev pub statements_log : Migration → MigrationDirection → Log → Log
statements_log m dir log = sent (statements_of dir m) (begin_event ∷ log)

abbrev pub committed_log : Migration → MigrationDirection → Log → Log
committed_log m dir log = commit_event ∷ statements_log m dir log

-- The transaction is begun, every statement accepted, and the commit too.
abbrev pub IsCommitted : Database → Migration → MigrationDirection → Log → Type 0
IsCommitted db m dir log =
    (is_ok (db log begin_event) ≡ true)
    × (accepted db (statements_of dir m) (begin_event ∷ log) ≡ true)
    × (is_ok (db (statements_log m dir log) commit_event) ≡ true)

abbrev pub history_written :
    Clock → Database → DatabaseClient → Migration → MigrationDirection → Log → Outcome × Log
history_written f db client m dir log =
    write_history f db client m dir (f.elapsed_ms (committed_log m dir log))
      (f.now (committed_log m dir log)) (committed_log m dir log)

run_statements-accepted :
    (db : Database) (ss : List Str) (log : Log)
    → accepted db ss log ≡ true
    → run_statements db open_tx ss log ≡ (none, sent ss log)
unfolding run_statements execute is_active query_answer
run_statements-accepted db [] log h = refl
run_statements-accepted db (s ∷ ss) log h =
    ground (arith, run_statements-accepted db ss (tx_query_event s ∷ log))

run_statements-refused :
    (db : Database) (done : List Str) (stmt : Str) (rest : List Str) (e : GoError) (log : Log)
    → accepted db done log ≡ true
    → db (sent done log) (tx_query_event stmt) ≡ err e
    → run_statements db open_tx (done ++ stmt ∷ rest) log
      ≡ (some (map_query_error e), cancel_event ∷ tx_query_event stmt ∷ sent done log)
unfolding run_statements execute rollback is_active query_answer
run_statements-refused db [] stmt rest e log h r = ground (arith, r)
run_statements-refused db (s ∷ ss) stmt rest e log h r =
    ground (arith, run_statements-refused db ss stmt rest e (tx_query_event s ∷ log))

begun-runs :
    (f : Clock) (db : Database) (client : DatabaseClient) (m : Migration) (dir : MigrationDirection)
    (log : Log)
    → client.connected ≡ true
    → is_valid dir ≡ true
    → is_ok (db log begin_event) ≡ true
    → execute_migration f db (some client) m dir log
      ≡ run_migration f db client m dir open_tx (begin_event ∷ log)
unfolding execute_migration begin begin_answer is_valid
begun-runs f db client m up log c v h = ground arith
begun-runs f db client m down log c v h = ground arith
begun-runs f db client m (other_direction d) log c v h = ground arith

not_begun-fails :
    (f : Clock) (db : Database) (client : DatabaseClient) (m : Migration) (dir : MigrationDirection)
    (log : Log)
    → client.connected ≡ true
    → (execute_migration f db (some client) m dir log).0.1 ≡ none
    → is_ok (db log begin_event) ≡ true
unfolding execute_migration begin begin_answer is_valid
not_begun-fails f db client m up log c h = ground arith
not_begun-fails f db client m down log c h = ground arith
not_begun-fails f db client m (other_direction d) log c h = ground arith

-- Through a connected client and in a valid direction, once the transaction is begun, the first
-- statement that the database refuses ends the migration: those before it were sent, then the
-- transaction is cancelled, the rest of the statements, the commit and the history are never sent,
-- and the status is a failure that wraps the database's error.
pub refused_statement :
    (f : Clock) (db : Database) (client : DatabaseClient) (m : Migration) (dir : MigrationDirection)
    (log : Log) (done : List Str) (stmt : Str) (rest : List Str) (e : GoError)
    → client.connected ≡ true
    → is_valid dir ≡ true
    → statements_of dir m ≡ done ++ stmt ∷ rest
    → is_ok (db log begin_event) ≡ true
    → accepted db done (begin_event ∷ log) ≡ true
    → db (sent done (begin_event ∷ log)) (tx_query_event stmt) ≡ err e
    → execute_migration f db (some client) m dir log ≡ (
      (failed_status m, some (wrap migration_execution (map_query_error e))),
      cancel_event ∷ tx_query_event stmt ∷ sent done (begin_event ∷ log),
    )
unfolding run_migration
refused_statement f db client m dir log done stmt rest e connected valid split begun before
      refused =
    begun-runs f db client m dir log connected valid begun
    ∙ ground (arith, run_statements-refused db done stmt rest e (begin_event ∷ log) before refused)

finish-committed :
    (f : Clock) (db : Database) (client : DatabaseClient) (m : Migration) (dir : MigrationDirection)
    (log : Log)
    → is_ok (db log commit_event) ≡ true
    → finish_migration f db client m dir open_tx log ≡ (
      history_answer m
          (f.now (commit_event ∷ log))
          (write_history f db client m dir
            (f.elapsed_ms (commit_event ∷ log))
            (f.now (commit_event ∷ log))
            (commit_event ∷ log)).0,
      (write_history f db client m dir
          (f.elapsed_ms (commit_event ∷ log))
          (f.now (commit_event ∷ log))
          (commit_event ∷ log)).1,
    )
unfolding finish_migration commit is_active finalise
finish-committed f db client m dir log h = ground arith

-- Once the transaction is committed, the outcome is that of writing the history.
pub execute_migration-committed :
    (f : Clock) (db : Database) (client : DatabaseClient) (m : Migration) (dir : MigrationDirection)
    (log : Log)
    → client.connected ≡ true
    → is_valid dir ≡ true
    → IsCommitted db m dir log
    → execute_migration f db (some client) m dir log ≡ (
      history_answer m (f.now (committed_log m dir log)) (history_written f db client m dir log).0,
      (history_written f db client m dir log).1,
    )
unfolding run_migration
execute_migration-committed f db client m dir log connected valid (b, s, c) =
    begun-runs f db client m dir log connected valid b
    ∙ ground (
      arith,
      run_statements-accepted db (statements_of dir m) (begin_event ∷ log) s,
      finish-committed f db client m dir (statements_log m dir log) c,
    )

run_statements-none :
    (db : Database) (ss : List Str) (log : Log)
    → (run_statements db open_tx ss log).0 ≡ none
    → accepted db ss log ≡ true
unfolding run_statements execute is_active query_answer
run_statements-none db [] log h = refl
run_statements-none db (s ∷ ss) log h =
    ground (arith, run_statements-none db ss (tx_query_event s ∷ log))

finish-none :
    (f : Clock) (db : Database) (client : DatabaseClient) (m : Migration) (dir : MigrationDirection)
    (log : Log)
    → (finish_migration f db client m dir open_tx log).0.1 ≡ none
    → is_ok (db log commit_event) ≡ true
unfolding finish_migration commit is_active finalise
finish-none f db client m dir log h = ground arith

pub none-IsCommitted :
    (f : Clock) (db : Database) (client : DatabaseClient) (m : Migration) (dir : MigrationDirection)
    (log : Log)
    → client.connected ≡ true
    → is_valid dir ≡ true
    → (execute_migration f db (some client) m dir log).0.1 ≡ none
    → IsCommitted db m dir log
unfolding run_migration
none-IsCommitted f db client m dir log connected valid h =
    let begun = not_begun-fails f db client m dir log connected h in
    ground (
      arith,
      begun-runs f db client m dir log connected valid begun,
      run_statements-none db (statements_of dir m) (begin_event ∷ log),
      run_statements-accepted db (statements_of dir m) (begin_event ∷ log),
      finish-none f db client m dir (statements_log m dir log),
    )

pub history_answer-none :
    (m : Migration) (at : ℕ) (o : Outcome) → ((history_answer m at o).1 ≡ none) ↔ (o ≡ none)
unfolding history_answer
history_answer-none m at none = (λ _. refl, λ _. refl)
history_answer-none m at (some e) = (λ p. ground (arith, p), λ p. ground (arith, p))
