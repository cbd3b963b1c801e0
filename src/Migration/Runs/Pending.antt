-- ===== src/Migration/Runs/Pending.antt =====
-- What is pending, and what a dry run does.
use surql_go.Prelude.{
  ◌+◌, ◌-◌, ◌≡◌, refl, ◌∙◌, Bool, true, not, if◌then◌else◌, Option, some, List, [], ◌∷◌, arith,
  length, Str, GoMap, lookup, insert, lookup-insert, lookup-empty, select, sort_by, Perm,
  IsSortedBy, sort_by-Perm, sort_by-IsSortedBy, by_key-IsWeakOrder,
}
use surql_go.Errors.{ok}
use surql_go.Connection.Client.{Log, Database, DatabaseClient}
use surql_go.Migration.Models.{Migration, MigrationHistory}
use surql_go.Migration.Records.{Clock}
use surql_go.Migration.History.{get_applied_migrations, has_version}
use surql_go.Migration.Runs.{
  applied_set, in_set, not_applied, by_version, pending_answer, pending_migrations, count_applied,
  status_answer, get_migration_status, MigrationStatusReport,
}

lookup-applied_set :
    (v : Str) (hs : List MigrationHistory) (set : GoMap Bool)
    → lookup v (applied_set hs set) ≡ (if has_version v hs then some true else lookup v set)
unfolding applied_set has_version
lookup-applied_set v [] set = refl
lookup-applied_set v (h ∷ hs) set =
    lookup-applied_set v hs (insert h.version true set)
    ∙ ground (arith, lookup-insert h.version v true set)

in_set-applied_set :
    (v : Str) (hs : List MigrationHistory) → in_set v (applied_set hs []) ≡ has_version v hs
unfolding in_set
in_set-applied_set v hs = ground (arith, lookup-applied_set v hs [], lookup-empty {V = Bool} v)

-- The history has no entry of the migration's version.
abbrev pub unapplied : List MigrationHistory → Migration → Bool
unapplied hs m = not (has_version m.version hs)

not_applied-select :
    (hs : List MigrationHistory) (ms : List Migration)
    → not_applied (applied_set hs []) ms ≡ select (unapplied hs) ms
unfolding not_applied
not_applied-select hs [] = refl
not_applied-select hs (m ∷ ms) =
    ground (arith, in_set-applied_set m.version hs, not_applied-select hs ms)

-- If the history is read, the pending migrations are those whose version is not in it, no more and
-- no less, by version.
pub pending_migrations_lem :
    (f : Clock) (db : Database) (client : Option DatabaseClient) (ms : List Migration) (log : Log)
    (hs : List MigrationHistory)
    → (get_applied_migrations f db client log).0 ≡ ok hs
    → (p : List Migration) × ((pending_migrations f db client ms log).0 ≡ ok p)
      × Perm p (select (unapplied hs) ms)
      × IsSortedBy by_version p
unfolding pending_migrations pending_answer
pending_migrations_lem f db client ms log hs read = (
  sort_by by_version (not_applied (applied_set hs []) ms),
  rw (read, pending_answer) refl,
  rw (not_applied-select hs ms) (sort_by-Perm by_version _),
  sort_by-IsSortedBy by_version (by_key-IsWeakOrder (λ m. m.version))
      (not_applied (applied_set hs []) ms),
)

count_applied_lem :
    (hs : List MigrationHistory) (ms : List Migration)
    → count_applied (applied_set hs []) ms + length (select (unapplied hs) ms) ≡ length ms
unfolding count_applied
count_applied_lem hs [] = refl
count_applied_lem hs (m ∷ ms) =
    ground (arith, in_set-applied_set m.version hs, count_applied_lem hs ms)

-- If the history is read, the report counts every migration once: as pending those whose version is not in the history, as
-- applied the others.
pub get_migration_status_lem :
    (f : Clock) (db : Database) (client : DatabaseClient) (ms : List Migration) (log : Log)
    (hs : List MigrationHistory)
    → (get_applied_migrations f db (some client) log).0 ≡ ok hs
    → (r : MigrationStatusReport) × ((get_migration_status f db (some client) (ok ms) log).0 ≡ ok r)
      × (r.pending ≡ length (select (unapplied hs) ms))
      × (r.applied + r.pending ≡ length ms)
      × (r.total ≡ length ms)
unfolding get_migration_status status_answer
get_migration_status_lem f db client ms log hs read =
    let h = count_applied_lem hs ms in
    (
      record {
        total = length ms;
        applied = count_applied (applied_set hs []) ms;
        pending = length ms - count_applied (applied_set hs []) ms;
      },
      rw (read, status_answer) refl,
      omega arith,
      omega arith,
      refl,
    )
