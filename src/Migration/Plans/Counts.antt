-- ===== src/Migration/Plans/Counts.antt =====
-- What ExecuteRollback reports.
use surql_go.Prelude.{ℕ, ◌+◌, ◌≤◌, ◌<◌, ◌≡◌, Bool, true, false, none, some}
use surql_go.Migration.Models.{Migration}
use surql_go.Migration.History.{Outcome}
use surql_go.Migration.Safety.{RollbackPlan, RollbackResult, completed_all, migration_count}

-- How far a count may have come over a number of migrations: to the end without an error, not as
-- far with one.
abbrev pub CountFits : ℕ → ℕ → ℕ × Outcome → Type 0
CountFits from many (count, none) = count ≡ from + many
CountFits from many (count, some e) = (from ≤ count) × (count < from + many)

-- A result and its error, for a plan
pub record IsReport (p : RollbackPlan) (r : RollbackResult) (o : Outcome) : Type 0 where
  pub for_plan : r.plan ≡ p
  pub completes : r.success ≡ completed_all r
  pub succeeds : r.success ≡ (elim o as (λ x. Bool) [ none ↦ true | some e ↦ false ])
  pub at_most : r.rolled_back_count ≤ migration_count p
