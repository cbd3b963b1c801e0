-- ===== src/Migration/Rollback/Versions.antt =====
-- Which migrations MigrateDown runs.
use surql_go.Prelude.{
  ℕ, ◌-◌, ◌<◌, ◌≡◌, refl, ◌∙◌, ap, ◌==◌, true, false, ltb, Bool-cases, Option-cases, inl, inr, none,
  some, List, [], ◌∷◌, ◌++◌, arith, map, length, take, drop, reverse, take-append-drop, length-drop,
  Str, str_eq_iff, GoMap, lookup, insert, lookup-insert, lookup-empty,
}
use Prim.Native.Nat.{min}
use mathlib.Core.Path.{ap₂}
use mathlib.Core.List.{reverse-reverse}
use surql_go.Errors.{ok}
use surql_go.Connection.Client.{Log, Database, DatabaseClient}
use surql_go.Migration.Models.{down, Migration, MigrationHistory, MigrationStatus}
use surql_go.Migration.Records.{Clock}
use surql_go.Migration.History.{Outcome}
use surql_go.Migration.Executor.{execute_migration}
use surql_go.Migration.Runs.{Report}
use surql_go.Migration.Runs.Stops.{execute_migration-fits, is_applied, fits, all_applied}
use surql_go.Migration.Rollback.{
  get_applied_migrations_ordered, migrate_down, index_by_version, roll_back, rollback_targets,
}

-- Every migration of an index stands under its own version.
abbrev pub IsIndex : GoMap Migration → Type 0
IsIndex disk = (v : Str) (m : Migration) → lookup v disk ≡ some m → m.version ≡ v

index_by_version-IsIndex :
    (ms : List Migration) (disk : GoMap Migration)
    → IsIndex disk
    → IsIndex (index_by_version ms disk)
unfolding index_by_version
index_by_version-IsIndex [] disk h = h
index_by_version-IsIndex (m ∷ ms) disk h =
    index_by_version-IsIndex ms (insert m.version m disk)
      (λ v n p. ground (arith, lookup-insert m.version v m disk, str_eq_iff m.version v, h v n))

-- The statuses of a rollback are about the target entries' versions, from the first on; without an
-- error they are about all of them, and all applied.
abbrev pub RollsBack : List MigrationHistory → Report → Type 0
RollsBack targets (statuses, none) =
    (map (λ s. s.migration.version) statuses ≡ map (λ h. h.version) targets)
    × (all_applied statuses ≡ true)
RollsBack targets (statuses, some e) =
    map (λ s. s.migration.version) statuses ≡ take (length statuses) (map (λ h. h.version) targets)

RollsBack-cons :
    (entry : MigrationHistory) (targets : List MigrationHistory) (s : MigrationStatus) (r : Report)
    → s.migration.version ≡ entry.version
    → is_applied s ≡ true
    → RollsBack targets r
    → RollsBack (entry ∷ targets) (s ∷ r.0, r.1)
RollsBack-cons entry targets s (ss, none) p q (k, h) = (ap₂ (λ a b. a ∷ b) p k, ground arith)
RollsBack-cons entry targets s (ss, some e) p q k = ap₂ (λ a b. a ∷ b) p k

fits-RollsBack :
    (entry : MigrationHistory) (targets : List MigrationHistory) (s : MigrationStatus) (o : Outcome)
    (r : Report) (log1 log2 : Log)
    → fits (s, o) ≡ true
    → s.migration.version ≡ entry.version
    → RollsBack targets r
    → RollsBack
        (entry ∷ targets)
        (elim o as (λ x. Report × Log) [
          | some e ↦ ((s ∷ [], some e), log1)
          | none ↦ ((s ∷ r.0, r.1), log2)
        ]).0
fits-RollsBack entry targets s none r log1 log2 fit same rest =
    RollsBack-cons entry targets s r same fit rest
fits-RollsBack entry targets s (some e) r log1 log2 fit same rest = ap (λ a. a ∷ []) same

roll_back-RollsBack :
    (f : Clock) (db : Database) (client : DatabaseClient) (disk : GoMap Migration)
    (targets : List MigrationHistory) (log : Log)
    → IsIndex disk
    → RollsBack targets (roll_back f db client disk targets log).0
unfolding roll_back
roll_back-RollsBack f db client disk [] log h = (refl, refl)
roll_back-RollsBack f db client disk (entry ∷ targets) log h =
    elim (Option-cases (lookup entry.version disk)) [
      | inl p ↦ rw (p, roll_back) refl
      | inr (m, p) ↦
          let (fit, same) = execute_migration-fits f db (some client) m down log in
          rw (p, roll_back)
            (fits-RollsBack entry targets _ _ _ _ _ fit
              (ap (λ m. m.version) same ∙ h entry.version m p)
              (roll_back-RollsBack f db client disk targets
                (execute_migration f db (some client) m down log).1 h))
    ]

take_zero {ℓ} : {A : Type ℓ} (xs : List A) → take 0 xs ≡ []
take_zero [] = refl
take_zero (x ∷ xs) = refl

rollback_targets_lem :
    (steps : ℕ) (hs : List MigrationHistory)
    → (take (length hs - steps) hs ++ reverse (rollback_targets steps hs) ≡ hs)
      × (length (reverse (rollback_targets steps hs)) ≡ min steps (length hs))
unfolding rollback_targets
rollback_targets_lem steps hs = elim (Bool-cases (ltb steps (length hs))) [
  | inl p ↦
      let n = length-drop (length hs - steps) hs in
      rw (p, rollback_targets, reverse-reverse (drop (length hs - steps) hs))
        (take-append-drop (length hs - steps) hs, ground arith)
  | inr p ↦
      let none_left : length hs - steps ≡ 0 = ground arith in
      rw (p, rollback_targets, reverse-reverse hs, none_left)
        (ap (λ l. l ++ hs) (take_zero hs), ground arith)
]

-- With the history read, MigrateDown works on its last entries, as many as wanted or as there are,
-- newest first: the statuses are about the migrations of their versions in this order, all of
-- them and applied if there is no error, and a first part of them otherwise.
pub migrate_down-RollsBack :
    (f : Clock) (db : Database) (client : DatabaseClient) (ms : List Migration) (steps : ℕ)
    (log : Log) (hs : List MigrationHistory)
    → 0 < steps
    → (get_applied_migrations_ordered f db (some client) log).0 ≡ ok hs
    → (targets : List MigrationHistory) × (take (length hs - steps) hs ++ reverse targets ≡ hs)
      × (length (reverse targets) ≡ min steps (length hs))
      × RollsBack targets (migrate_down f db (some client) (ok ms) steps log).0
unfolding migrate_down
migrate_down-RollsBack f db client ms steps log hs positive read =
    let (suffix, many) = rollback_targets_lem steps hs in
    let zero_no : (steps == 0) ≡ false = ground arith in
    let disk = index_by_version ms [] in
    (
      rollback_targets steps hs,
      suffix,
      many,
      rw (zero_no, read, migrate_down)
          (roll_back-RollsBack f db client disk (rollback_targets steps hs) _ (
            index_by_version-IsIndex ms []
              (λ v m p. absurd (ground (arith, p, lookup-empty {V = Migration} v))))),
    )
