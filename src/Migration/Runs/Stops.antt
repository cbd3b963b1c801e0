-- ===== src/Migration/Runs/Stops.antt =====
-- How a run over several migrations ends.
use mathlib.Core.Path.{ap₂}
use surql_go.Prelude.{
  ℕ, ◌≡◌, refl, ap, inl, inr, Bool-cases, Option-cases, Bool, true, false, ◌&&◌, Option, none, some,
  List, [], ◌∷◌, arith, map, length, take,
}
use surql_go.Connection.Client.{Log, Database, DatabaseClient}
use surql_go.Migration.Models.{
  MigrationDirection, is_valid, Migration, applied, failed, pending, MigrationStatus,
}
use surql_go.Migration.Records.{Clock}
use surql_go.Migration.History.{Outcome}
use surql_go.Migration.Runs.{Report}
use surql_go.Errors.{Result-cases}
use surql_go.Connection.Transactions.{Transaction, begin, commit}
use surql_go.Migration.Executor.{
  statements_of, run_statements, run_migration, finish_migration, history_answer, execute_migration,
  execute_all,
}

abbrev pub is_applied : MigrationStatus → Bool
is_applied s = elim s.state [ applied ↦ true | pending ↦ false | failed ↦ false ]

abbrev pub is_failed : MigrationStatus → Bool
is_failed s = elim s.state [ applied ↦ false | pending ↦ false | failed ↦ true ]

-- A status is `applied` if it comes without an error, and `failed` if it comes with one.
abbrev pub fits : MigrationStatus × Outcome → Bool
fits (s, none) = is_applied s
fits (s, some e) = is_failed s

history_answer-fits :
    (m : Migration) (at : ℕ) (o : Outcome)
    → (fits (history_answer m at o) ≡ true) × ((history_answer m at o).0.migration ≡ m)
unfolding history_answer
history_answer-fits m at none = (refl, refl)
history_answer-fits m at (some e) = (refl, refl)

finish-fits :
    (f : Clock) (db : Database) (client : DatabaseClient) (m : Migration) (dir : MigrationDirection)
    (tx : Transaction) (log : Log)
    → (fits (finish_migration f db client m dir tx log).0 ≡ true)
      × ((finish_migration f db client m dir tx log).0.0.migration ≡ m)
unfolding finish_migration
finish-fits f db client m dir tx log = elim (Option-cases (commit db tx log).0.0) [
  | inl p ↦ rw (p, finish_migration) (history_answer-fits m _ _)
  | inr (e, p) ↦ rw (p, finish_migration) (refl, refl)
]

run-fits :
    (f : Clock) (db : Database) (client : DatabaseClient) (m : Migration) (dir : MigrationDirection)
    (tx : Transaction) (log : Log)
    → (fits (run_migration f db client m dir tx log).0 ≡ true)
      × ((run_migration f db client m dir tx log).0.0.migration ≡ m)
unfolding run_migration
run-fits f db client m dir tx log =
    elim (Option-cases (run_statements db tx (statements_of dir m) log).0) [
      | inl p ↦ rw (p, run_migration) (finish-fits f db client m dir tx _)
      | inr (e, p) ↦ rw (p, run_migration) (refl, refl)
    ]

pub execute_migration-fits :
    (f : Clock) (db : Database) (client : Option DatabaseClient) (m : Migration)
    (dir : MigrationDirection) (log : Log)
    → (fits (execute_migration f db client m dir log).0 ≡ true)
      × ((execute_migration f db client m dir log).0.0.migration ≡ m)
unfolding execute_migration
execute_migration-fits f db none m dir log = (refl, refl)
execute_migration-fits f db (some client) m dir log = elim (Bool-cases (is_valid dir)) [
  | inr p ↦ rw (p, execute_migration) (refl, refl)
  | inl p ↦ elim (Result-cases (begin db client log).0) [
    | inl (tx, q) ↦ rw (p, q, execute_migration) (run-fits f db client m dir tx _)
    | inr (e, q) ↦ rw (p, q, execute_migration) (refl, refl)
  ]
]

-- All statuses are `applied`.
abbrev pub all_applied : List MigrationStatus → Bool
all_applied [] = true
all_applied (s ∷ ss) = is_applied s && all_applied ss

-- The last status is `failed`, those before it `applied`.
abbrev pub fails_at_end : List MigrationStatus → Bool
fails_at_end [] = false
fails_at_end (s ∷ []) = is_failed s
fails_at_end (s ∷ t ∷ ss) = is_applied s && fails_at_end (t ∷ ss)

-- The log once some migrations have been executed, one after another
abbrev pub executed :
    Clock → Database → DatabaseClient → MigrationDirection → List Migration → Log → Log
executed f db client dir [] log = log
executed f db client dir (m ∷ ms) log =
    executed f db client dir ms (execute_migration f db (some client) m dir log).1

-- What a run reports
abbrev pub Reports : List Migration → Report → Type 0
Reports ms (statuses, none) = (map (λ s. s.migration) statuses ≡ ms) × (all_applied statuses ≡ true)
Reports ms (statuses, some e) =
    (map (λ s. s.migration) statuses ≡ take (length statuses) ms) × (fails_at_end statuses ≡ true)

module _ (f : Clock) (db : Database) (client : DatabaseClient) (dir : MigrationDirection) where
  -- What a run reports, and that it sent the requests of the migrations it reports on and no others
  abbrev pub Stops : List Migration → Log → Report × Log → Type 0
  Stops ms log (r, log') =
      Reports ms r × (log' ≡ executed f db client dir (take (length r.0) ms) log)

  Reports-cons :
      (m : Migration) (ms : List Migration) (s : MigrationStatus) (r : Report)
      → s.migration ≡ m
      → is_applied s ≡ true
      → Reports ms r
      → Reports (m ∷ ms) (s ∷ r.0, r.1)
  Reports-cons m ms s (ss, none) p q (k, h) = (ap₂ (λ a b. a ∷ b) p k, ground arith)
  Reports-cons m ms s ([], some e) p q (k, h) = absurd (ground arith)
  Reports-cons m ms s (t ∷ ss, some e) p q (k, h) = (ap₂ (λ a b. a ∷ b) p k, ground arith)

  fits-Stops :
      (m : Migration) (ms : List Migration) (s : MigrationStatus) (o : Outcome) (r : Report)
      (log log2 : Log)
      → fits (s, o) ≡ true
      → s.migration ≡ m
      → Stops ms (execute_migration f db (some client) m dir log).1 (r, log2)
      → Stops (m ∷ ms) log (elim o as (λ x. Report × Log) [
        | some e ↦ ((s ∷ [], some e), (execute_migration f db (some client) m dir log).1)
        | none ↦ ((s ∷ r.0, r.1), log2)
      ])
  fits-Stops m ms s none r log log2 fit same (rest, sent) =
      (Reports-cons m ms s r same fit rest, sent)
  fits-Stops m ms s (some e) r log log2 fit same rest = ((ap (λ a. a ∷ []) same, fit), refl)

  -- A run stops at the first migration that fails: the statuses are those of the migrations that
  -- were run, in their order; without an error all of them were run and are applied, with an error
  -- the last one failed and those before it are applied. The log has what these migrations send,
  -- executed one after another, and nothing of those after them.
  pub execute_all-Stops :
      (ms : List Migration) (log : Log) → Stops ms log (execute_all f db client dir ms log)
  unfolding execute_all
  execute_all-Stops [] log = ((refl, refl), refl)
  execute_all-Stops (m ∷ ms) log =
      let (fit, same) = execute_migration-fits f db (some client) m dir log in
      fits-Stops m ms _ _ _ log _ fit same
        (execute_all-Stops ms (execute_migration f db (some client) m dir log).1)
