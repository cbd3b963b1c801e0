-- ===== src/Migration/Versions/WellFormed.antt =====
-- The invariant of a version graph: nodes are stored under their own, non-empty versions, parents
-- and children name one another, children are strictly sorted, and parents come first in the map,
-- so that no version is its own ancestor.
use surql_go.Prelude.{contains, ◌<◌, ◌≡◌, ◌≢◌, true, some, [], lookup, Str}
use surql_go.Migration.Versions.{VersionNode, VersionGraph}
use surql_go.Migration.Versions.Slices.{IsSorted}
use surql_go.Migration.Versions.Positions.{position}

pub record WellFormed {ℓ} {S : Type ℓ} (g : VersionGraph S) : Type ℓ where
  pub named : (k : Str) (n : VersionNode S) → lookup k g.nodes ≡ some n → (n.version ≡ k) × (k ≢ [])
  pub parented :
      (k : Str) (n : VersionNode S)
      → lookup k g.nodes ≡ some n
      → n.parent ≢ []
      → (p : VersionNode S) × (lookup n.parent g.nodes ≡ some p) × (contains k p.children ≡ true)
  pub fathered :
      (k c : Str) (n : VersionNode S)
      → lookup k g.nodes ≡ some n
      → contains c n.children ≡ true
      → (m : VersionNode S) × (lookup c g.nodes ≡ some m) × (m.parent ≡ k)
  pub sorted : (k : Str) (n : VersionNode S) → lookup k g.nodes ≡ some n → IsSorted n.children
  pub ordered :
      (k : Str) (n : VersionNode S)
      → lookup k g.nodes ≡ some n
      → n.parent ≢ []
      → position n.parent g.nodes < position k g.nodes
