-- ===== src/Migration/Versions/Paths/Search.antt =====
-- Path of versioning.go: the invariant of its search on a well-formed graph.
use surql_go.Prelude.{
  contains, ℕ, zero, suc, ◌+◌, ◌<◌, ◌≡◌, ◌≢◌, refl, true, false, ◌||◌, Bool-cases, ◌⊎◌, inl, inr,
  Option, none, some, List, [], ◌∷◌, ◌++◌, arith, length, Str, str_eq, str_eq_iff, str_eq_refl,
  GoMap, lookup,
}
use mathlib.Core.Path.{subst}
use surql_go.Migration.Versions.{VersionNode, VersionGraph}
use surql_go.Migration.Versions.WellFormed.{WellFormed}
use surql_go.Migration.Versions.Visiting.{NoRepeats, contains-append, length-keys-le}
use surql_go.Migration.Versions.Paths.{
  PathState, Scan, reached, waiting, scan, neighbours, path_loop, find_path,
}
use surql_go.Migration.Versions.Paths.Scanning.{
  queued, ScanFits, Chain, start, extend, Chains, Scanned, scan-fits,
}

Scan-cases :
    (r : Scan)
    → ((p : List Str) × (r ≡ reached p))
      ⊎ ((q : List PathState) × (v : List Str) × (r ≡ waiting q v))
Scan-cases (reached p) = inl (p, refl)
Scan-cases (waiting q v) = inr (q, v, refl)

module _ {ℓ} {S : Type ℓ} (nodes : GoMap (VersionNode S)) (from to : Str) where
  -- A path to the target, or none where there is none
  abbrev pub PathFits : Option (List Str) → Type ℓ
  PathFits (some p) = Chain nodes from p to
  PathFits none = (p : List Str) → ¬ Chain nodes from p to

  -- A search under way: what has been visited is done or waits in the queue.
  record Search (fuel : ℕ) (queue : List PathState) (visited done : List Str) : Type ℓ where
    enough : length queue + length nodes < fuel + length visited
    once : NoRepeats visited
    known : (c : Str) → contains c visited ≡ true → (n : VersionNode S) × (lookup c nodes ≡ some n)
    split : (c : Str) → contains c visited ≡ (contains c done || queued c queue)
    rooted : contains from visited ≡ true
    chains : Chains nodes from queue
    apart : contains to visited ≡ false
    closed :
        (x c : Str) (n : VersionNode S)
        → contains x done ≡ true
        → lookup x nodes ≡ some n
        → contains c (neighbours n) ≡ true
        → contains c visited ≡ true

  -- Whatever is reached has been visited, once the queue is empty.
  covered :
      (fuel : ℕ) (visited done : List Str)
      → Search fuel [] visited done
      → (p : List Str) (y : Str) → Chain nodes from p y
      → contains y visited ≡ true
  covered fuel visited done s _ _ start = s.rooted
  covered fuel visited done s _ y (extend p x _ n along at edge) =
      let before = covered fuel visited done s p x along in
      s.closed x y n (ground (arith, s.split x)) at edge

  module _
      (joined : (x c : Str) (n : VersionNode S)
        → lookup x nodes ≡ some n
        → contains c (neighbours n) ≡ true
        → (m : VersionNode S) × (lookup c nodes ≡ some m)) where
    advance :
        (fuel : ℕ) (cur : PathState) (queue : List PathState) (visited done : List Str)
        (n : VersionNode S) (q : List PathState) (v : List Str)
        → lookup cur.version nodes ≡ some n
        → Search (suc fuel) (cur ∷ queue) visited done
        → Scanned nodes from to (neighbours n) queue visited q v
        → Search fuel q v (done ++ cur.version ∷ [])
    unfolding contains
    advance fuel cur queue visited done n q v at s f = record {
      enough = let small = s.enough in let many = f.count in omega arith;
      once = f.once;
      known = λ c m. elim (Bool-cases (contains c visited)) [
        | inl old ↦ s.known c old
        | inr new ↦ joined cur.version c n at (ground (arith, f.seen c))
      ];
      split = λ c.
          ground (arith, s.split c, f.seen c, f.now c, contains-append c done (cur.version ∷ []));
      rooted = ground (arith, f.seen from, s.rooted);
      chains = f.chains;
      apart = f.apart;
      closed = λ x c m within hit edge. elim (Bool-cases (contains x done)) [
        | inl old ↦ let before = s.closed x c m old hit edge in ground (arith, f.seen c)
        | inr new ↦
            ground
              (arith, contains-append x done (cur.version ∷ []), str_eq_iff cur.version x, f.seen c)
      ];
    }

    search :
        (fuel : ℕ) (queue : List PathState) (visited done : List Str)
        → Search fuel queue visited done
        → (r : Option (List Str)) × (path_loop fuel nodes to queue visited ≡ some r) × PathFits r
    unfolding path_loop contains
    search zero queue visited done s =
        let bound = length-keys-le visited nodes s.once s.known in
        let small = s.enough in absurd (omega arith)
    search (suc fuel) [] visited done s = (
      none,
      refl,
      λ p along. absurd (ground (arith, covered (suc fuel) visited done s p to along, s.apart)),
    )
    search (suc fuel) (cur ∷ queue) visited done s =
        let there : contains cur.version visited ≡ true =
          ground (arith, s.split cur.version, str_eq_refl cur.version) in
        let (n, at) = s.known cur.version there in
        let fits : ScanFits nodes from to (neighbours n) queue visited
            (scan to cur.path (neighbours n) queue visited) =
          scan-fits nodes from to cur.path cur.version n s.chains.0 at (neighbours n) queue visited
            (λ c m. m) s.once s.chains.1 s.apart in
        elim (Scan-cases (scan to cur.path (neighbours n) queue visited)) [
          | inl (p, ends) ↦ (
            some p,
            rw (at, ends, path_loop) refl,
            subst (ScanFits nodes from to (neighbours n) queue visited) ends fits,
          )
          | inr (q, v, goes) ↦
              let (r, runs, answer) = search fuel q v (done ++ cur.version ∷ []) (
                advance fuel cur queue visited done n q v at s
                  (subst (ScanFits nodes from to (neighbours n) queue visited) goes fits)) in
              (r, rw (at, goes, path_loop) runs, answer)
        ]

from-parent :
    (c : Str) (p : Str)
    → contains c (elim p [ [] ↦ [] | x ∷ xs ↦ (x ∷ xs) ∷ [] ]) ≡ true
    → (p ≡ c) × (p ≢ [])
unfolding contains
from-parent c [] m = absurd (ground (arith, m))
from-parent c (x ∷ xs) m = ((str_eq_iff (x ∷ xs) c).0 (ground (arith, m)), λ e. ground (arith, e))

module _ {ℓ} {S : Type ℓ} where
  parent-neighbour :
      (c : Str) (n : VersionNode S)
      → contains c n.children ≡ false
      → contains c (neighbours n) ≡ true
      → (n.parent ≡ c) × (n.parent ≢ [])
  unfolding neighbours
  parent-neighbour c n other edge = from-parent c n.parent (
      ground
        (arith, contains-append c n.children (elim n.parent [ [] ↦ [] | x ∷ xs ↦ (x ∷ xs) ∷ [] ])))

module _ {ℓ} {S : Type ℓ} (g : VersionGraph S) (w : WellFormed g) where
  neighbour-known :
      (x c : Str) (n : VersionNode S)
      → lookup x g.nodes ≡ some n
      → contains c (neighbours n) ≡ true
      → (m : VersionNode S) × (lookup c g.nodes ≡ some m)
  unfolding neighbours contains
  neighbour-known x c n at edge = elim (Bool-cases (contains c n.children)) [
    | inl child ↦ let (m, there, up) = w.fathered x c n at child in (m, there)
    | inr other ↦
        let (same, some_parent) = parent-neighbour c n other edge in
        let (m, there, down) = w.parented x n at some_parent in
        (m, subst (λ k. lookup k g.nodes ≡ some m) same there)
  ]

  -- Path between two known versions of a well-formed graph ends, with a path along the edges from the
  -- first to the second, or with nil when there is none.
  pub find_path_lem :
      (from to : Str) (a b : VersionNode S)
      → lookup from g.nodes ≡ some a
      → lookup to g.nodes ≡ some b
      → (r : Option (List Str)) × (find_path from to g ≡ some r) × PathFits g.nodes from to r
  unfolding find_path contains
  find_path_lem from to a b at there = elim (Bool-cases (str_eq from to)) [
    | inl same ↦ (
      some (from ∷ []),
      rw (find_path, at, there, same) refl,
      subst (Chain g.nodes from (from ∷ [])) ((str_eq_iff from to).0 same) start,
    )
    | inr apart ↦
        let (r, runs, answer) =
          search g.nodes from to neighbour-known (suc (length g.nodes))
            (record { version = from; path = from ∷ [] } ∷ []) (from ∷ []) []
            record {
              enough = omega arith;
              once = (refl, tt);
              known = λ c m. (a, ground (arith, str_eq_iff from c));
              split = λ c. ground arith;
              rooted = ground (arith, str_eq_refl from);
              chains = (start, tt);
              apart = ground arith;
              closed = λ x c n old. absurd (ground (arith, old));
            } in
        (r, rw (find_path, at, there, apart) runs, answer)
  ]
