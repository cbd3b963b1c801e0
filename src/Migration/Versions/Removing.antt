-- ===== src/Migration/Versions/Removing.antt =====
-- What Remove of versioning.go does to every other version of a well-formed graph.
use mathlib.Core.Path.{subst}
use surql_go.Prelude.{
  contains, ◌<◌, ◌≡◌, ◌≢◌, refl, sym, ◌∙◌, ◌⊎◌, inl, inr, if◌then◌else◌, true, false, some, none,
  [], arith, Str, str_eq, str_eq_iff, Bool-cases, Option-cases, GoMap, lookup, delete,
  lookup-delete,
}
use surql_go.Migration.Versions.{VersionNode, VersionGraph, is_empty, detach, reparent_all}
use surql_go.Migration.Versions.Slices.{IsSorted, is_empty-true, is_empty-false}
use surql_go.Migration.Versions.Positions.{position, position-delete}
use surql_go.Migration.Versions.Moves.{Moved}
use surql_go.Migration.Versions.Detaching.{Detached, Detached-detach, Moved-reparent_all}
use surql_go.Migration.Versions.WellFormed.{WellFormed}

module _ {ℓ} {S : Type ℓ} (g : VersionGraph S) (w : WellFormed g) (version : Str)
    (node : VersionNode S) (found : lookup version g.nodes ≡ some node) where
  nameless : lookup [] g.nodes ≡ none
  nameless = elim (Option-cases (lookup [] g.nodes)) [
    | inl miss ↦ miss
    | inr (n, hit) ↦ absurd ((w.named [] n hit).1 refl)
  ]

  parent_present :
      (node.parent ≡ []) ⊎ ((p : VersionNode S) × (lookup node.parent g.nodes ≡ some p))
  parent_present = elim (Bool-cases (is_empty node.parent)) [
    | inl root ↦ inl (is_empty-true node.parent root)
    | inr child ↦
        let (p, above, _) = w.parented version node found (is_empty-false node.parent child) in
        inr (p, above)
  ]

  -- A child of the removed node is in the graph, after it.
  pub child_after :
      (c : Str)
      → contains c node.children ≡ true
      → (m : VersionNode S) × (lookup c g.nodes ≡ some m)
        × (m.parent ≡ version)
        × (position version g.nodes < position c g.nodes)
  child_after c h =
      let (m, at, above) = w.fathered version c node found h in
      (
        m,
        at,
        above,
        rw (← above) (w.ordered c m at (λ e. (w.named version node found).1 (sym above ∙ e))),
      )

  parent_not_child : contains node.parent node.children ≡ false
  parent_not_child = elim (Bool-cases (contains node.parent node.children)) [
    | inr no_child ↦ no_child
    | inl child ↦
        let (m, at, above, after) = child_after node.parent child in
        absurd (omega (arith, w.ordered version node found (w.named node.parent m at).1))
  ]

  abbrev cut : GoMap (VersionNode S)
  cut = detach node.parent version g.nodes

  abbrev moved : GoMap (VersionNode S)
  moved = reparent_all node.parent node.children cut

  abbrev pub left : GoMap (VersionNode S)
  left = delete version moved

  detached : Detached node.parent version g.nodes cut
  detached = Detached-detach node.parent version g.nodes nameless w.sorted parent_present

  parent_in_cut : (node.parent ≡ []) ⊎ ((p : VersionNode S) × (lookup node.parent cut ≡ some p))
  parent_in_cut = elim parent_present [
    | inl root ↦ inl root
    | inr (p, above) ↦ let (p', is, _) = detached.kept node.parent p above in inr (p', is)
  ]

  all_moved : Moved node.parent node.children cut moved
  all_moved =
      Moved-reparent_all node.parent node.children cut parent_not_child
        (λ c h.
          let (m, at, _, _) = child_after c h in let (m', is, _) = detached.kept c m at in (m', is))
        (detached.gone [] nameless) parent_in_cut

  -- Another node before and after the removal of `version`.
  pub record Survivor (j : Str) (q q' : VersionNode S) : Type ℓ where
    pub same_version : q'.version ≡ q.version
    pub above : q'.parent ≡ (if contains j node.children then node.parent else q.parent)
    pub sorted : IsSorted q'.children
    pub inside :
        (c : Str)
        → contains c q'.children ≡ (
            if str_eq node.parent j
            then (if (if str_eq version c then false else contains c q.children)
                then true
                else contains c node.children)
            else contains c q.children)

  pub survives :
      (j : Str) (q : VersionNode S)
      → j ≢ version
      → lookup j g.nodes ≡ some q
      → (q' : VersionNode S) × (lookup j left ≡ some q') × Survivor j q q'
  survives j q apart h =
      let (q1, at1, x) = detached.kept j q h in
      let (q2, at2, y) = all_moved.kept j q1 at1 in
      (
        q2,
        ground (arith, lookup-delete version j moved, str_eq_iff version j),
        record {
          same_version = y.version ∙ x.same_version;
          above = ground (arith, y.above, x.same_parent);
          sorted = y.sorted x.sorted;
          inside = λ c. ground (arith, y.inside c, x.inside c);
        },
      )

  pub survivor :
      (j : Str) (q' : VersionNode S)
      → lookup j left ≡ some q'
      → (q : VersionNode S) × (j ≢ version) × (lookup j g.nodes ≡ some q) × Survivor j q q'
  survivor j q' h =
      let apart : j ≢ version =
        λ e. ground (arith, lookup-delete version j moved, str_eq_iff version j) in
      elim (Option-cases (lookup j g.nodes)) [
        | inl miss ↦
            absurd (
              ground
                (arith, lookup-delete version j moved, all_moved.gone j (detached.gone j miss)))
        | inr (q, hit) ↦
            let (q2, at, r) = survives j q apart hit in
            let same : q2 ≡ q' = ground arith in (q, apart, hit, subst (Survivor j q) same r)
      ]

  pub placed :
      (i j : Str)
      → i ≢ version
      → j ≢ version
      → position i g.nodes < position j g.nodes
      → position i left < position j left
  placed i j p q h =
      position-delete i j version moved p q
        (rw (all_moved.placed i, all_moved.placed j, detached.placed i, detached.placed j) h)
