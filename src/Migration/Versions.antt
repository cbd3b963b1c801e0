-- ===== src/Migration/Versions.antt =====
-- VersionGraph of pkg/surql/migration/versioning.go: snapshots keyed by version, each with its
-- parent and its sorted children. The lock is left out: a method is one step.
pub mod Slices
pub mod Positions
pub mod WellFormed
pub mod Extends
pub mod Adding
pub mod Moves
pub mod Detaching
pub mod Removing
pub mod Removed
pub mod Ancestry
pub mod Visiting
pub mod Descent
pub mod Paths
use surql_go.Prelude.{
  contains, ℕ, zero, suc, if◌then◌else◌, Bool, true, false, Option, none, some, List, [], ◌∷◌, ◌++◌,
  length, Str, str_eq, str_ltb, GoMap, lookup, insert, delete, keys,
}
use surql_go.Errors.{GoError, new, validation, Result, ok, err}

-- What a snapshot holds besides its version is of no concern to the graph.
pub record SchemaSnapshot {ℓ} (S : Type ℓ) : Type ℓ where
  pub version : Str
  pub contents : S

pub record VersionNode {ℓ} (S : Type ℓ) : Type ℓ where
  pub version : Str
  pub parent : Str
  pub snapshot : SchemaSnapshot S
  pub children : List Str

pub record VersionGraph {ℓ} (S : Type ℓ) : Type ℓ where
  pub nodes : GoMap (VersionNode S)
  pub root : Str

abbrev pub empty_str : Str
empty_str = []

abbrev pub is_empty : Str → Bool
is_empty [] = true
is_empty (_ ∷ _) = false

-- insertSorted: sort.SearchStrings finds the first element that is not below the value.
unfoldable pub insert_sorted : List Str → Str → List Str
insert_sorted [] v = v ∷ []
insert_sorted (x ∷ xs) v =
    if str_ltb x v then x ∷ insert_sorted xs v else if str_eq x v then x ∷ xs else v ∷ x ∷ xs

-- removeFromSlice
unfoldable pub remove_from_slice : List Str → Str → List Str
remove_from_slice [] v = []
remove_from_slice (x ∷ xs) v = if str_eq x v then xs else x ∷ remove_from_slice xs v

-- A membership test of a set of strings.
-- The body of the inner loop of Path and of Descendants: what of a list is new joins the queue.
unfoldable pub unseen : List Str → List Str → List Str
unseen visited [] = []
unseen visited (c ∷ cs) = elim (contains c visited) [
  | true ↦ unseen visited cs
  | false ↦ c ∷ unseen (c ∷ visited) cs
]

-- sort.Strings
unfoldable pub insert_string : Str → List Str → List Str
insert_string k [] = k ∷ []
insert_string k (x ∷ xs) = if str_ltb x k then x ∷ insert_string k xs else k ∷ x ∷ xs

unfoldable pub sort_strings : List Str → List Str
unfolding insert_string
sort_strings [] = []
sort_strings (k ∷ ks) = insert_string k (sort_strings ks)

unfoldable pub new_version_graph {ℓ} : {S : Type ℓ} → VersionGraph S
new_version_graph = record { nodes = []; root = [] }

module _ {ℓ} {S : Type ℓ} where
  -- parentNode.Children = insertSorted(parentNode.Children, child), if the parent is there
  unfoldable pub attach : Str → Str → GoMap (VersionNode S) → GoMap (VersionNode S)
  unfolding insert_sorted
  attach parent child nodes = elim (lookup parent nodes) [
    | none ↦ nodes
    | some p ↦ insert parent (record p { children = insert_sorted p.children child }) nodes
  ]

  unfoldable pub add : SchemaSnapshot S → Str → VersionGraph S → Result (VersionGraph S)
  unfolding attach
  add snapshot parent g =
      if is_empty snapshot.version
      then err (new validation)
      else elim (lookup snapshot.version g.nodes) [
        | some _ ↦ err (new validation)
        | none ↦
            let node : VersionNode S = record {
              version = snapshot.version;
              parent = parent;
              snapshot = snapshot;
              children = [];
            } in
            let nodes = insert snapshot.version node g.nodes in
            if is_empty parent
            then ok (record g {
              nodes = nodes;
              root = if is_empty g.root then snapshot.version else g.root;
            })
            else elim (lookup parent g.nodes) [
              | none ↦ err (new validation)
              | some _ ↦ ok (record g { nodes = attach parent snapshot.version nodes })
            ]
      ]

  -- Remove: the node leaves its parent's children ...
  unfoldable pub detach : Str → Str → GoMap (VersionNode S) → GoMap (VersionNode S)
  unfolding remove_from_slice
  detach parent version nodes = if is_empty parent then nodes else elim (lookup parent nodes) [
    | none ↦ nodes
    | some p ↦ insert parent (record p { children = remove_from_slice p.children version }) nodes
  ]

  -- ... its children go to its parent, one by one ...
  unfoldable pub reparent : Str → Str → GoMap (VersionNode S) → GoMap (VersionNode S)
  unfolding attach
  reparent parent child nodes = elim (lookup child nodes) [
    | none ↦ nodes
    | some n ↦
        let nodes' = insert child (record n { parent = parent }) nodes in
        if is_empty parent then nodes' else attach parent child nodes'
  ]

  unfoldable pub reparent_all : Str → List Str → GoMap (VersionNode S) → GoMap (VersionNode S)
  unfolding reparent
  reparent_all parent [] nodes = nodes
  reparent_all parent (c ∷ cs) nodes = reparent_all parent cs (reparent parent c nodes)

  -- ... and if it was the root, the first root that the map's iteration meets takes its place. The
  -- order of iteration is the runtime's choice, here a list of keys.
  unfoldable pub first_root : List Str → GoMap (VersionNode S) → Str
  first_root [] nodes = []
  first_root (v ∷ vs) nodes = elim (lookup v nodes) [
    | none ↦ first_root vs nodes
    | some n ↦ let rest = first_root vs nodes in if is_empty n.parent then v else rest
  ]

  unfoldable pub remove : List Str → Str → VersionGraph S → Result (VersionGraph S)
  unfolding detach reparent_all first_root
  remove iteration version g = elim (lookup version g.nodes) [
    | none ↦ err (new validation)
    | some node ↦
        let nodes =
          delete version
            (reparent_all node.parent node.children (detach node.parent version g.nodes)) in
        ok (record {
          nodes = nodes;
          root = if str_eq g.root version then first_root iteration nodes else g.root;
        })
  ]

  unfoldable pub get : Str → VersionGraph S → Option (VersionNode S)
  get version g = lookup version g.nodes

  unfoldable pub has : Str → VersionGraph S → Bool
  has version g = elim (lookup version g.nodes) [ none ↦ false | some _ ↦ true ]

  unfoldable pub len : VersionGraph S → ℕ
  len g = length g.nodes

  -- Versions: sort.Strings of the keys
  unfoldable pub versions : VersionGraph S → List Str
  unfolding keys sort_strings
  versions g = sort_strings (keys g.nodes)

  -- The loop of Ancestors; `none` means that the fuel ran out.
  unfoldable pub ancestors_loop : ℕ → GoMap (VersionNode S) → Str → List Str → Option (List Str)
  ancestors_loop zero nodes current found = none
  ancestors_loop (suc fuel) nodes current found = elim (lookup current nodes) [
    | none ↦ some found
    | some n ↦
        let rest = ancestors_loop fuel nodes n.parent (n.parent ∷ found) in
        if is_empty n.parent then some found else rest
  ]

  unfoldable pub ancestors : Str → VersionGraph S → Option (List Str)
  unfolding ancestors_loop
  ancestors version g = elim (lookup version g.nodes) [
    | none ↦ some []
    | some _ ↦ ancestors_loop (length g.nodes) g.nodes version []
  ]

  unfoldable pub descendants_loop :
      ℕ → GoMap (VersionNode S) → List Str → List Str → List Str → Option (List Str)
  unfolding unseen contains
  descendants_loop zero nodes queue visited found = none
  descendants_loop (suc fuel) nodes [] visited found = some found
  descendants_loop (suc fuel) nodes (cur ∷ queue) visited found = elim (lookup cur nodes) [
    | none ↦ descendants_loop fuel nodes queue visited (found ++ cur ∷ [])
    | some n ↦
        let more = unseen visited n.children in
        descendants_loop fuel nodes (queue ++ more) (more ++ visited) (found ++ cur ∷ [])
  ]

  -- Descendants; each round takes a version out of the queue.
  unfoldable pub descendants : Str → VersionGraph S → Option (List Str)
  unfolding descendants_loop
  descendants version g = elim (lookup version g.nodes) [
    | none ↦ some []
    | some n ↦ descendants_loop (suc (length g.nodes)) g.nodes n.children n.children []
  ]
