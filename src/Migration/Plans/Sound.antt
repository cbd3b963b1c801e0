-- ===== src/Migration/Plans/Sound.antt =====
-- What CreateRollbackPlan puts into a plan.
use surql_go.Prelude.{
  ℕ, ◌≤◌, ◌≡◌, refl, sym, ap, true, not, ltb, if◌then◌else◌, Bool-cases, Option-cases, inl, inr,
  Option, none, some, List, [], ◌∷◌, ◌++◌, arith, Str, select, sort_by, Perm, IsSortedBy,
  sort_by-Perm, sort_by-IsSortedBy, IsWeakOrder, str_lt_asym, str_not_lt_trans,
}
use mathlib.Core.Path.{subst}
use surql_go.Errors.{Result, ok, err}
use surql_go.Connection.Client.{Log, Database, DatabaseClient}
use surql_go.Migration.Models.{Migration, MigrationHistory}
use surql_go.Migration.Records.{Clock}
use surql_go.Migration.Safety.{
  RollbackSafety, safe, warning, danger, other_safety, rank, RollbackIssue, RollbackPlan,
  is_safe_level, has_data_loss, Matchers, loses_data,
}
use surql_go.Migration.Rollback.{get_applied_migrations_ordered}
use surql_go.Migration.Plans.{
  version_exists, analyze_all, worst, between, newest_first, to_roll_back, last_entry, build_plan,
  plan_of_history, create_rollback_plan,
}

-- The highest rank among the issues, and at least n
abbrev pub max_rank : ℕ → List RollbackIssue → ℕ
max_rank n [] = n
max_rank n (i ∷ is) = max_rank (if ltb n (rank i.safety) then rank i.safety else n) is

rank-worst :
    (o : RollbackSafety) (is : List RollbackIssue) → rank (worst o is) ≡ max_rank (rank o) is
unfolding worst
rank-worst o [] = refl
rank-worst o (i ∷ is) = elim (Bool-cases (ltb (rank o) (rank i.safety))) [
  | inl p ↦ rw (p, worst) (rank-worst i.safety is)
  | inr p ↦ rw (p, worst) (rank-worst o is)
]

max_rank-le : (n : ℕ) (is : List RollbackIssue) → n ≤ max_rank n is
max_rank-le n [] = omega arith
max_rank-le n (i ∷ is) = ground (arith, max_rank-le n is, max_rank-le (rank i.safety) is)

ranked_loss : (s : RollbackSafety) → 1 ≤ rank s → not (is_safe_level s) ≡ loses_data s
ranked_loss safe h = refl
ranked_loss warning h = refl
ranked_loss danger h = refl
ranked_loss (other_safety s) h = absurd (omega arith)

newest_first-IsWeakOrder : IsWeakOrder newest_first
newest_first-IsWeakOrder = record {
  asym = λ a b h. str_lt_asym b.version a.version h;
  trans = λ a b c p q. str_not_lt_trans c.version b.version a.version q p;
}

-- A plan down to a target version, for the migrations of a directory
pub record IsPlan (re : Matchers) (ms : List Migration) (target : Str) (p : RollbackPlan)
    : Type 0 where
  pub on_disk : version_exists ms target ≡ true
  pub to_target : p.to_version ≡ target
  pub chosen : Perm p.migrations (select (between target p.from_version) ms)
  pub newest : IsSortedBy newest_first p.migrations
  pub all_issues : p.issues ≡ analyze_all re p.migrations
  pub severity : rank p.overall_safety ≡ max_rank (rank safe) p.issues
  pub approval : p.requires_approval ≡ has_data_loss p

build_plan-IsPlan :
    (re : Matchers) (ms : List Migration) (target current : Str)
    → version_exists ms target ≡ true
    → IsPlan re ms target (build_plan re ms target current)
unfolding build_plan to_roll_back has_data_loss
build_plan-IsPlan re ms target current h =
    let chosen = select (between target current) ms in
    let ranks = rank-worst safe (analyze_all re (sort_by newest_first chosen)) in
    record {
      on_disk = h;
      to_target = refl;
      chosen = sort_by-Perm newest_first chosen;
      newest = sort_by-IsSortedBy newest_first newest_first-IsWeakOrder chosen;
      all_issues = refl;
      severity = ranks;
      approval =
          ranked_loss _ (rw ranks (max_rank-le 1 (analyze_all re (sort_by newest_first chosen))));
    }

last_entry-append :
    (hs : List MigrationHistory) (l : MigrationHistory)
    → last_entry hs ≡ some l
    → (earlier : List MigrationHistory) × (hs ≡ earlier ++ l ∷ [])
unfolding last_entry
last_entry-append [] l h = absurd (ground (arith, h))
last_entry-append (x ∷ hs) l h = elim (Option-cases (last_entry hs)) [
  | inl p ↦ ([], ground arith)
  | inr (k, p) ↦
      let same : k ≡ l = ground arith in
      let (earlier, split) = last_entry-append hs k p in
      (x ∷ earlier, rw (← same) (ap (λ t. x ∷ t) split))
]

-- The plan starts at the version of the last entry of the history that was read.
abbrev pub StartsAtLast : Result (List MigrationHistory) → RollbackPlan → Type 0
StartsAtLast answer p =
    (earlier : List MigrationHistory) × (l : MigrationHistory) × (answer ≡ ok (earlier ++ l ∷ []))
    × (p.from_version ≡ l.version)

plan_of_history-ok :
    (re : Matchers) (ms : List Migration) (target : Str) (history : Result (List MigrationHistory))
    (p : RollbackPlan)
    → plan_of_history re ms target history ≡ ok p
    → (l : MigrationHistory) × (build_plan re ms target l.version ≡ p)
      × (earlier : List MigrationHistory) × (history ≡ ok (earlier ++ l ∷ []))
unfolding plan_of_history
plan_of_history-ok re ms target (err e) p h = absurd (ground arith)
plan_of_history-ok re ms target (ok hs) p h = elim (Option-cases (last_entry hs)) [
  | inl q ↦ absurd (ground arith)
  | inr (l, q) ↦
      let (earlier, split) = last_entry-append hs l q in (l, ground arith, earlier, ap ok split)
]

create_rollback_plan-ok :
    (re : Matchers) (f : Clock) (db : Database) (client : DatabaseClient) (ms : List Migration)
    (c : ℕ) (cs : Str) (log : Log) (p : RollbackPlan)
    → (create_rollback_plan re f db (some client) (ok ms) (c ∷ cs) log).0 ≡ ok p
    → (version_exists ms (c ∷ cs) ≡ true)
      × (plan_of_history re ms (c ∷ cs) (get_applied_migrations_ordered f db (some client) log).0
          ≡ ok p)
unfolding create_rollback_plan
create_rollback_plan-ok re f db client ms c cs log p h = ground arith

-- A plan that is returned starts at the current version, that of the last entry of the history that
-- was read, and takes the migrations of the directory that are newer than the target and not newer
-- than the current version, all of them, newest first; its level is the most severe among its
-- issues, which are those of its migrations, and it wants approval exactly if data may be lost.
pub create_rollback_plan-IsPlan :
    (re : Matchers) (f : Clock) (db : Database) (client : Option DatabaseClient)
    (ms : List Migration) (target : Str) (log : Log) (p : RollbackPlan)
    → (create_rollback_plan re f db client (ok ms) target log).0 ≡ ok p
    → IsPlan re ms target p × StartsAtLast (get_applied_migrations_ordered f db client log).0 p
unfolding create_rollback_plan plan_of_history build_plan
create_rollback_plan-IsPlan re f db none ms target log p h = absurd (ground arith)
create_rollback_plan-IsPlan re f db (some client) ms [] log p h = absurd (ground arith)
create_rollback_plan-IsPlan re f db (some client) ms (c ∷ cs) log p h =
    let (exists, planned) = create_rollback_plan-ok re f db client ms c cs log p h in
    let (l, same, earlier, read) =
      plan_of_history-ok re ms (c ∷ cs) (get_applied_migrations_ordered f db (some client) log).0 p
        planned in
    (
      subst (IsPlan re ms (c ∷ cs)) same (build_plan-IsPlan re ms (c ∷ cs) l.version exists),
      (earlier, l, read, ap (λ q. q.from_version) (sym same)),
    )
