-- ===== src/Connection/Transactions/Lifecycle.antt =====
-- A transaction is finalised at most once, whatever its owner calls and the database answers.
use surql_go.Prelude.{
  ℕ, suc, ◌+◌, ◌≡◌, ◌≢◌, refl, sym, ap, ◌∙◌, Bool, true, false, if◌then◌else◌, [], ◌∷◌, arith, Str,
}
use surql_go.Connection.Client.{
  Event, begin_event, tx_query_event, commit_event, cancel_event, query_event, Log, Database,
}
use surql_go.Connection.Transactions.{
  TransactionState, active, committed, rolled_back, failed, Transaction, commit, rollback, execute,
}

-- The methods that a client may call.
pub data Step (db : Database) : Transaction × Log → Transaction × Log → Type 0 where
  commit_step :
      (t : Transaction) (log : Log) → Step db (t, log) ((commit db t log).0.1, (commit db t log).1)
  rollback_step :
      (t : Transaction) (log : Log)
      → Step db (t, log) ((rollback db t log).0.1, (rollback db t log).1)
  execute_step :
      (t : Transaction) (log : Log) (surql : Str) → Step db (t, log) (t, (execute db t surql log).1)

pub data Steps (db : Database) (s : Transaction × Log) : Transaction × Log → Type 0 where
  here : Steps db s s
  next : {t u : Transaction × Log} → Steps db s t → Step db t u → Steps db s u

is_final : Event → Bool
is_final commit_event = true
is_final cancel_event = true
is_final begin_event = false
is_final (tx_query_event _) = false
is_final (query_event _ _) = false

-- How many COMMITs and CANCELs were sent.
unfoldable pub finals : Log → ℕ
unfolding is_final
finals [] = 0
finals (e ∷ log) = if is_final e then suc (finals log) else finals log

-- An active transaction has sent none; a finalised one has sent one.
abbrev pub budget : TransactionState → ℕ
budget active = 0
budget committed = 1
budget rolled_back = 1
budget failed = 1

balanced-Step :
    (db : Database) {s u : Transaction × Log} (n : ℕ)
    → Step db s u
    → finals s.1 ≡ n + budget s.0.state
    → finals u.1 ≡ n + budget u.0.state
unfolding commit rollback execute finals
balanced-Step db n (commit_step t log) h = ground arith
balanced-Step db n (rollback_step t log) h = ground arith
balanced-Step db n (execute_step t log surql) h = ground arith

balanced :
    (db : Database) {s u : Transaction × Log} (n : ℕ)
    → Steps db s u
    → finals s.1 ≡ n + budget s.0.state
    → finals u.1 ≡ n + budget u.0.state
balanced db n here h = h
balanced db n (next r step) h = balanced-Step db n step (balanced db n r h)

-- From an active transaction on, whatever is called and answered: no COMMIT or CANCEL is sent
-- while it stays active, and exactly one has been sent once it has left that state.
pub finalised_once :
    (db : Database) {t : Transaction} {log : Log} {t' : Transaction} {log' : Log}
    → t.state ≡ active
    → Steps db (t, log) (t', log')
    → finals log' ≡ finals log + budget t'.state
finalised_once db {log} h s = balanced db (finals log) s (ground arith)

closed-Step :
    (db : Database) {s u : Transaction × Log}
    → Step db s u
    → s.0.state ≢ active
    → (u.0 ≡ s.0) × (u.1 ≡ s.1)
unfolding commit rollback execute
closed-Step db (commit_step t log) h = ground arith
closed-Step db (rollback_step t log) h = ground arith
closed-Step db (execute_step t log surql) h = ground arith

-- Once a transaction is not active, no sequence of calls changes it or sends anything.
pub closed_stays :
    (db : Database) {s u : Transaction × Log}
    → Steps db s u
    → s.0.state ≢ active
    → (u.0 ≡ s.0) × (u.1 ≡ s.1)
closed_stays db here h = (refl, refl)
closed_stays db (next r step) h =
    let (same, log) = closed_stays db r h in
    let (same', log') = closed-Step db step (λ e. h (ap (λ t. t.state) (sym same) ∙ e)) in
    (same' ∙ same, log' ∙ log)
