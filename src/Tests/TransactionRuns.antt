-- ===== src/Tests/TransactionRuns.antt =====
-- Transactions of pkg/surql/connection/transaction.go against a database that accepts everything.
use surql_go.Prelude.{◌+◌, ◌≡◌, ◌≢◌, refl, none, [], ◌∷◌, arith, bytes}
use surql_go.Errors.{ok}
use surql_go.Connection.Client.{begin_event, tx_query_event, commit_event, Log, Database}
use surql_go.Connection.Transactions.{
  Transaction, active, committed, commit, rollback, execute, is_active, finalise,
}
use surql_go.Connection.Transactions.Lifecycle.{
  Steps, here, next, commit_step, rollback_step, execute_step, finals, budget, finalised_once,
}

abbrev agreeable : Database
agreeable log event = ok none

abbrev open_tx : Transaction
open_tx = record { state = active }

abbrev closed_tx : Transaction
closed_tx = record { state = committed }

-- Execute, Commit, and a Rollback that is refused
abbrev start_log : Log
start_log = begin_event ∷ []

abbrev end_log : Log
end_log = commit_event ∷ tx_query_event (bytes "A") ∷ begin_event ∷ []

run-Steps : Steps agreeable (open_tx, start_log) (closed_tx, end_log)
unfolding commit rollback execute is_active finalise
run-Steps =
    next
      (next (next here (execute_step open_tx start_log (bytes "A")))
        (commit_step open_tx (tx_query_event (bytes "A") ∷ start_log)))
      (rollback_step closed_tx end_log)

finalised_once_example : finals end_log ≡ finals start_log + budget committed
finalised_once_example = finalised_once agreeable refl run-Steps

closed-Steps : Steps agreeable (closed_tx, end_log) (closed_tx, end_log)
unfolding commit rollback is_active
closed-Steps = next (next here (commit_step closed_tx end_log)) (rollback_step closed_tx end_log)

committed_closed : committed ≢ active
committed_closed p = ground (arith, p)
