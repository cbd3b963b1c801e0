-- ===== src/Migration/Versions/Descent.antt =====
-- Descendants of versioning.go on a well-formed graph: the search ends, and finds every descendant
-- and nothing else.
use surql_go.Prelude.{
  contains, ℕ, zero, suc, ◌+◌, ◌<◌, ◌≡◌, refl, ◌↔◌, true, false, ◌||◌, Bool-cases, inl, inr, some,
  List, [], ◌∷◌, ◌++◌, arith, length, length-append, Str, str_eq_iff, str_eq_refl, str_lt_irrefl,
  GoMap, lookup,
}
use surql_go.Migration.Versions.{VersionNode, VersionGraph, unseen, descendants_loop, descendants}
use surql_go.Migration.Versions.Slices.{Above, IsSorted}
use surql_go.Migration.Versions.Visiting.{
  NoRepeats, contains-append, contains-unseen, unseen-NoRepeats, length-keys-le,
}
use surql_go.Migration.Versions.WellFormed.{WellFormed}

Above-absent : (v : Str) (xs : List Str) → Above v xs → contains v xs ≡ false
unfolding contains
Above-absent v [] a = refl
Above-absent v (x ∷ xs) (p, a) =
    ground (arith, str_eq_iff x v, str_lt_irrefl v, Above-absent v xs a)

sorted-NoRepeats : (xs : List Str) → IsSorted xs → NoRepeats xs
sorted-NoRepeats [] s = tt
sorted-NoRepeats (x ∷ xs) s = (Above-absent x xs s.0, sorted-NoRepeats xs s.1)

among_children :
    (c : Str) (visited cs : List Str)
    → contains c (unseen visited cs ++ visited) ≡ true
    → contains c visited ≡ false
    → contains c cs ≡ true
among_children c visited cs m new =
    ground (arith, contains-append c (unseen visited cs) visited, contains-unseen c visited cs)

module _ {ℓ} {S : Type ℓ} where
  -- A child, or a child of a descendant.
  pub data Descendant (nodes : GoMap (VersionNode S)) (k : Str) : Str → Type ℓ where
    child :
        (c : Str) (n : VersionNode S)
        → lookup k nodes ≡ some n
        → contains c n.children ≡ true
        → Descendant nodes k c
    further :
        (x c : Str) (n : VersionNode S)
        → Descendant nodes k x
        → lookup x nodes ≡ some n
        → contains c n.children ≡ true
        → Descendant nodes k c

  module _ (nodes : GoMap (VersionNode S)) (k : Str) where
    -- The children of what has been found have been visited.
    abbrev Closed : List Str → List Str → Type ℓ
    Closed found visited =
        (x c : Str) (n : VersionNode S)
        → contains x found ≡ true
        → lookup x nodes ≡ some n
        → contains c n.children ≡ true
        → contains c visited ≡ true

    -- A search under way: what has been visited is found or waits in the queue.
    record Search (fuel : ℕ) (queue visited found : List Str) : Type ℓ where
      enough : length queue + length nodes < fuel + length visited
      once : NoRepeats visited
      known :
          (c : Str) → contains c visited ≡ true → (n : VersionNode S) × (lookup c nodes ≡ some n)
      split : (c : Str) → contains c visited ≡ (contains c found || contains c queue)
      sound : (c : Str) → contains c visited ≡ true → Descendant nodes k c
      closed : Closed found visited

    -- What a search returns
    record Outcome (visited ds : List Str) : Type ℓ where
      covers : (c : Str) → contains c visited ≡ true → contains c ds ≡ true
      only : (c : Str) → contains c ds ≡ true → Descendant nodes k c
      complete : Closed ds ds

    module _
        (fathered : (x c : Str) (n : VersionNode S)
          → lookup x nodes ≡ some n
          → contains c n.children ≡ true
          → (m : VersionNode S) × (lookup c nodes ≡ some m)) where
      advance :
          (fuel : ℕ) (cur : Str) (queue visited found : List Str) (n : VersionNode S)
          → lookup cur nodes ≡ some n
          → Search (suc fuel) (cur ∷ queue) visited found
          → Search fuel
              (queue ++ unseen visited n.children)
              (unseen visited n.children ++ visited)
              (found ++ cur ∷ [])
      unfolding contains
      advance fuel cur queue visited found n at s =
          let more = unseen visited n.children in
          let there : contains cur visited ≡ true = ground (arith, s.split cur, str_eq_refl cur) in
          record {
            enough =
                let small = s.enough in
                omega (arith, length-append queue more, length-append more visited);
            once = unseen-NoRepeats visited visited n.children s.once (λ c m. m);
            known = λ c m. elim (Bool-cases (contains c visited)) [
              | inl old ↦ s.known c old
              | inr new ↦ fathered cur c n at (among_children c visited n.children m new)
            ];
            split = λ c. ground (
              arith,
              s.split c,
              contains-append c more visited,
              contains-append c found (cur ∷ []),
              contains-append c queue more,
            );
            sound = λ c m. elim (Bool-cases (contains c visited)) [
              | inl old ↦ s.sound c old
              | inr new ↦
                  further cur c n (s.sound cur there) at (among_children c visited n.children m new)
            ];
            closed = λ x c p m hit within. elim (Bool-cases (contains x found)) [
              | inl old ↦
                  let v = s.closed x c p old hit within in
                  ground (arith, contains-append c more visited)
              | inr new ↦ ground (
                arith,
                contains-append x found (cur ∷ []),
                str_eq_iff cur x,
                contains-append c more visited,
                contains-unseen c visited n.children,
              )
            ];
          }

      -- The search ends, within the fuel.
      search :
          (fuel : ℕ) (queue visited found : List Str)
          → Search fuel queue visited found
          → (ds : List Str) × (descendants_loop fuel nodes queue visited found ≡ some ds)
            × Outcome visited ds
      unfolding descendants_loop contains
      search zero queue visited found s =
          let bound = length-keys-le visited nodes s.once s.known in
          let small = s.enough in absurd (omega arith)
      search (suc fuel) [] visited found s = (
        found,
        refl,
        record {
          covers = λ c m. ground (arith, s.split c);
          only = λ c m. s.sound c (ground (arith, s.split c));
          complete = λ x c n m hit within.
              let v = s.closed x c n m hit within in ground (arith, s.split c);
        },
      )
      search (suc fuel) (cur ∷ queue) visited found s =
          let there : contains cur visited ≡ true = ground (arith, s.split cur, str_eq_refl cur) in
          let (n, at) = s.known cur there in
          let more = unseen visited n.children in
          let (ds, runs, out) =
            search fuel (queue ++ more) (more ++ visited) (found ++ cur ∷ [])
              (advance fuel cur queue visited found n at s) in
          (
            ds,
            rw (at, descendants_loop) runs,
            record {
              covers = λ c m. out.covers c (ground (arith, contains-append c more visited));
              only = out.only;
              complete = out.complete;
            },
          )

    finds :
        (n : VersionNode S) (ds : List Str)
        → lookup k nodes ≡ some n
        → Outcome n.children ds
        → (c : Str) → Descendant nodes k c
        → contains c ds ≡ true
    finds n ds at out c (child _ m hit within) = out.covers c (ground arith)
    finds n ds at out c (further x _ m above hit within) =
        out.complete x c m (finds n ds at out x above) hit within

  known_child :
      (g : VersionGraph S)
      → WellFormed g
      → (x c : Str) (n : VersionNode S) → lookup x g.nodes ≡ some n
      → contains c n.children ≡ true
      → (m : VersionNode S) × (lookup c g.nodes ≡ some m)
  known_child g w x c n hit within = let (m, is, above) = w.fathered x c n hit within in (m, is)

  -- Descendants of a known version of a well-formed graph: the search ends within one round more than
  -- there are versions, and lists every descendant and nothing else.
  pub descendants_lem :
      (g : VersionGraph S) (k : Str) (n : VersionNode S)
      → WellFormed g
      → lookup k g.nodes ≡ some n
      → (ds : List Str) × (descendants k g ≡ some ds)
        × ((c : Str) → (contains c ds ≡ true) ↔ Descendant g.nodes k c)
  unfolding descendants contains
  descendants_lem g k n w at =
      let (ds, runs, out) =
        search g.nodes k (known_child g w) (suc (length g.nodes)) n.children n.children [] (record {
          enough = omega arith;
          once = sorted-NoRepeats n.children (w.sorted k n at);
          known = λ c m. known_child g w k c n at m;
          split = λ c. refl;
          sound = λ c m. child c n at m;
          closed = λ x c m impossible hit within. absurd (ground (arith, impossible));
        }) in
      (ds, rw (at, descendants) runs, λ c. (out.only c, finds g.nodes k n ds at out c))
