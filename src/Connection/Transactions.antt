-- ===== src/Connection/Transactions.antt =====
-- pkg/surql/connection/transaction.go: the life cycle of an interactive transaction. The lock of a
-- transaction is left out: a method is one step.
pub mod Lifecycle
use surql_go.Prelude.{
  Bool, true, false, if◌then◌else◌, Option, none, some, List, [], ◌∷◌, Str, bytes,
}
use surql_go.Errors.{GoError, new, wrap, transaction, connection, Result, ok, err}
use surql_go.Connection.Values.{Value}
use surql_go.Connection.Client.{
  Event, begin_event, tx_query_event, commit_event, cancel_event, Log, Database, DatabaseClient,
  query_answer, QueryResult,
}

pub data TransactionState : Type 0 where
  active committed rolled_back failed : TransactionState

unfoldable pub state_string : TransactionState → Str
state_string active = bytes "active"
state_string committed = bytes "committed"
state_string rolled_back = bytes "rolled_back"
state_string failed = bytes "failed"

pub record Transaction : Type 0 where
  pub state : TransactionState

unfoldable pub begin_answer : Result (Option (List QueryResult)) → Result Transaction
begin_answer (err e) = err (wrap transaction e)
begin_answer (ok _) = ok (record { state = active })

-- (*DatabaseClient).Begin
unfoldable pub begin : Database → DatabaseClient → Log → Result Transaction × Log
unfolding begin_answer
begin db client log =
    if client.connected
    then (begin_answer (db log begin_event), begin_event ∷ log)
    else (err (wrap transaction (new connection)), log)

abbrev pub is_active_state : TransactionState → Bool
is_active_state active = true
is_active_state _ = false

unfoldable pub is_active : Transaction → Bool
is_active t = is_active_state t.state

-- A finaliser: the error or nil, and the state that it leaves
unfoldable pub finalise :
    TransactionState → Result (Option (List QueryResult)) → Option GoError × Transaction
finalise done (err e) = (some (wrap transaction e), record { state = failed })
finalise done (ok _) = (none, record { state = done })

-- (*Transaction).Commit
unfoldable pub commit : Database → Transaction → Log → (Option GoError × Transaction) × Log
unfolding is_active finalise
commit db t log =
    if is_active t
    then (finalise committed (db log commit_event), commit_event ∷ log)
    else ((some (new transaction), t), log)

-- (*Transaction).Rollback
unfoldable pub rollback : Database → Transaction → Log → (Option GoError × Transaction) × Log
unfolding is_active finalise
rollback db t log =
    if is_active t
    then (finalise rolled_back (db log cancel_event), cancel_event ∷ log)
    else ((some (new transaction), t), log)

-- (*Transaction).Execute
unfoldable pub execute : Database → Transaction → Str → Log → Result Value × Log
unfolding is_active
execute db t surql log =
    if is_active t
    then (query_answer (db log (tx_query_event surql)), tx_query_event surql ∷ log)
    else (err (new transaction), log)
