-- ===== src/Migration/Versions/Paths.antt =====
-- Path of versioning.go: a breadth-first search along children and parents.
pub mod Scanning
pub mod Search
use surql_go.Prelude.{
  contains, ℕ, zero, suc, if◌then◌else◌, Bool, true, false, Option, none, some, List, [], ◌∷◌, ◌++◌,
  length, Str, str_eq, GoMap, lookup,
}
use surql_go.Migration.Versions.{VersionNode, VersionGraph}

-- `state`
pub record PathState : Type 0 where
  pub version : Str
  pub path : List Str

-- How the loop over the neighbours ends: at the target, or with a queue and what has been visited.
pub data Scan : Type 0 where
  reached : List Str → Scan
  waiting : List PathState → List Str → Scan

unfoldable pub scan : Str → List Str → List Str → List PathState → List Str → Scan
unfolding contains str_eq
scan to path [] queue visited = waiting queue visited
scan to path (n ∷ ns) queue visited = elim (contains n visited) [
  | true ↦ scan to path ns queue visited
  | false ↦ elim (str_eq n to) [
    | true ↦ reached (path ++ n ∷ [])
    | false ↦
        scan to path ns (queue ++ record { version = n; path = path ++ n ∷ [] } ∷ []) (n ∷ visited)
  ]
]

module _ {ℓ} {S : Type ℓ} where
  unfoldable pub neighbours : VersionNode S → List Str
  neighbours n = n.children ++ elim n.parent [ [] ↦ [] | c ∷ cs ↦ (c ∷ cs) ∷ [] ]

  -- The outer loop: `none` is a missing node or the end of the fuel, `some none` a nil path.
  unfoldable pub path_loop :
      ℕ → GoMap (VersionNode S) → Str → List PathState → List Str → Option (Option (List Str))
  unfolding scan neighbours
  path_loop zero nodes to queue visited = none
  path_loop (suc fuel) nodes to [] visited = some none
  path_loop (suc fuel) nodes to (cur ∷ queue) visited = elim (lookup cur.version nodes) [
    | none ↦ none
    | some n ↦ elim (scan to cur.path (neighbours n) queue visited) [
      | reached p ↦ some (some p)
      | waiting q v ↦ path_loop fuel nodes to q v
    ]
  ]

  unfoldable pub find_path : Str → Str → VersionGraph S → Option (Option (List Str))
  unfolding path_loop
  find_path from to g = elim (lookup from g.nodes) [
    | none ↦ some none
    | some a ↦ elim (lookup to g.nodes) [
      | none ↦ some none
      | some b ↦
          if str_eq from to
          then some (some (from ∷ []))
          else path_loop (suc (length g.nodes)) g.nodes to
              (record { version = from; path = from ∷ [] } ∷ []) (from ∷ [])
    ]
  ]
