-- ===== src/Migration/Versions/Removed.antt =====
-- Remove of versioning.go keeps the graph well formed.
use surql_go.Prelude.{
  contains, ◌<◌, ◌≡◌, ◌≢◌, ◌∙◌, inl, inr, if◌then◌else◌, true, false, some, none, List, [], arith,
  Str, str_eq, str_eq_iff, str_eq_refl, Bool-cases, GoMap, lookup, lookup-delete,
}
use surql_go.Errors.{ok}
use surql_go.Migration.Versions.{
  VersionNode, VersionGraph, detach, reparent_all, first_root, remove,
}
use surql_go.Migration.Versions.Positions.{position}
use surql_go.Migration.Versions.Removing.{left, survives, survivor, placed, child_after}
use surql_go.Migration.Versions.WellFormed.{WellFormed}

module _ {ℓ} {S : Type ℓ} (g : VersionGraph S) (w : WellFormed g) (version : Str)
    (node : VersionNode S) (found : lookup version g.nodes ≡ some node) where
  abbrev rest : GoMap (VersionNode S)
  rest = left g w version node found

  parent_apart : node.parent ≢ [] → node.parent ≢ version
  parent_apart has_parent e =
      let before = w.ordered version node found has_parent in absurd (ground arith)

  -- Whoever stays below its parent was no child of the removed version.
  not_version :
      (k : Str) (q : VersionNode S)
      → lookup k g.nodes ≡ some q
      → contains k node.children ≡ false
      → q.parent ≢ []
      → q.parent ≢ version
  not_version k q hit stays has_parent e =
      let (p, above, within) = w.parented k q hit has_parent in ground arith

  rest_parented :
      (k : Str) (n' : VersionNode S)
      → lookup k rest ≡ some n'
      → n'.parent ≢ []
      → (p : VersionNode S) × (lookup n'.parent rest ≡ some p) × (contains k p.children ≡ true)
  rest_parented k n' h has_parent =
      let (q, apart, hit, r) = survivor g w version node found k n' h in
      elim (Bool-cases (contains k node.children)) [
        | inl child ↦
            let moved : n'.parent ≡ node.parent = ground (arith, r.above) in
            let (p, above, _) = w.parented version node found (rw moved at has_parent) in
            let (p', is, rp) =
              survives g w version node found node.parent p (parent_apart (rw moved at has_parent))
                above in
            (p', rw moved is, ground (arith, rp.inside k, str_eq_refl node.parent))
        | inr stays ↦
            let same : n'.parent ≡ q.parent = ground (arith, r.above) in
            let (p, above, within) = w.parented k q hit (rw same at has_parent) in
            let (p', is, rp) =
              survives g w version node found q.parent p
                (not_version k q hit stays (rw same at has_parent)) above in
            (p', rw same is, ground (arith, rp.inside k, str_eq_iff version k))
      ]

  rest_ordered :
      (k : Str) (n' : VersionNode S)
      → lookup k rest ≡ some n'
      → n'.parent ≢ []
      → position n'.parent rest < position k rest
  rest_ordered k n' h has_parent =
      let (q, apart, hit, r) = survivor g w version node found k n' h in
      elim (Bool-cases (contains k node.children)) [
        | inl child ↦
            let moved : n'.parent ≡ node.parent = ground (arith, r.above) in
            let (m, at, above, after) = child_after g w version node found k child in
            rw moved (
              placed g w version node found node.parent k (parent_apart (rw moved at has_parent))
                apart (omega (arith, w.ordered version node found (rw moved at has_parent))))
        | inr stays ↦
            let same : n'.parent ≡ q.parent = ground (arith, r.above) in
            rw same (
              placed g w version node found q.parent k
                (not_version k q hit stays (rw same at has_parent)) apart
                (w.ordered k q hit (rw same at has_parent)))
      ]

  -- A child of the removed version now stands below that version's parent.
  adopted :
      (k c : Str)
      → contains c node.children ≡ true
      → node.parent ≡ k
      → (m : VersionNode S) × (lookup c rest ≡ some m) × (m.parent ≡ k)
  adopted k c child at_parent =
      let (m, at, above, after) = child_after g w version node found c child in
      let apart : c ≢ version = λ e. absurd (ground arith) in
      let (m', is, x) = survives g w version node found c m apart at in
      (m', is, ground (arith, x.above))

  -- No child of another version is a child of the removed one.
  other_child :
      (k c : Str) (q : VersionNode S)
      → k ≢ version
      → lookup k g.nodes ≡ some q
      → contains c q.children ≡ true
      → contains c node.children ≡ false
  other_child k c q apart hit within = elim (Bool-cases (contains c node.children)) [
    | inr no_child ↦ no_child
    | inl child ↦
        let (m, at, above) = w.fathered k c q hit within in
        let (m2, at2, above2) = w.fathered version c node found child in absurd (ground arith)
  ]

  kept_child :
      (k c : Str) (q : VersionNode S)
      → k ≢ version
      → lookup k g.nodes ≡ some q
      → contains c q.children ≡ true
      → c ≢ version
      → (m : VersionNode S) × (lookup c rest ≡ some m) × (m.parent ≡ k)
  kept_child k c q apart hit within other =
      let (m, at, above) = w.fathered k c q hit within in
      let (m', is, x) = survives g w version node found c m other at in
      (m', is, ground (arith, x.above, other_child k c q apart hit within))

  -- A child of a survivor: it was one before, or it was a child of the removed version.
  rest_fathered :
      (k c : Str) (n' : VersionNode S)
      → lookup k rest ≡ some n'
      → contains c n'.children ≡ true
      → (m : VersionNode S) × (lookup c rest ≡ some m) × (m.parent ≡ k)
  rest_fathered k c n' h is_child =
      let (q, apart, hit, x) = survivor g w version node found k n' h in
      elim (Bool-cases (str_eq node.parent k)) [
        | inl here ↦ elim (Bool-cases (contains c node.children)) [
          | inl child ↦ adopted k c child ((str_eq_iff node.parent k).0 here)
          | inr old ↦
              kept_child k c q apart hit (ground (arith, x.inside c))
                (λ e. ground (arith, x.inside c, str_eq_iff version c))
        ]
        | inr elsewhere ↦
            let within : contains c q.children ≡ true = ground (arith, x.inside c) in
            kept_child k c q apart hit within (λ e.
              let (m, at, above) = w.fathered k c q hit within in
              ground (arith, str_eq_iff node.parent k))
      ]

  rest-WellFormed : (r : Str) → WellFormed (record { nodes = rest; root = r })
  rest-WellFormed r = record {
    named = λ k n h.
        let (q, apart, hit, x) = survivor g w version node found k n h in
        (x.same_version ∙ (w.named k q hit).0, (w.named k q hit).1);
    parented = rest_parented;
    fathered = rest_fathered;
    sorted = λ k n h. let (q, apart, hit, x) = survivor g w version node found k n h in x.sorted;
    ordered = rest_ordered;
  }

-- Remove of a known version of a well-formed graph, in whatever order the map is walked: the version
-- goes, its children stand below its parent, every other version keeps its parent, and the graph
-- stays well formed.
pub remove_lem {ℓ} :
    {S : Type ℓ} (iteration : List Str) (version : Str) (g : VersionGraph S) (node : VersionNode S)
    → WellFormed g
    → lookup version g.nodes ≡ some node
    → (g' : VersionGraph S) × (remove iteration version g ≡ ok g')
      × WellFormed g'
      × (lookup version g'.nodes ≡ none)
      × ((j : Str) (q : VersionNode S)
          → j ≢ version
          → lookup j g.nodes ≡ some q
          → (q' : VersionNode S) × (lookup j g'.nodes ≡ some q')
            × (q'.parent ≡ (if contains j node.children then node.parent else q.parent)))
unfolding remove
remove_lem iteration version g node w found =
    let nodes = left g w version node found in
    let r = if str_eq g.root version then first_root iteration nodes else g.root in
    (
      record { nodes = nodes; root = r },
      ground arith,
      rest-WellFormed g w version node found r,
      ground (
        arith,
        lookup-delete version version
            (reparent_all node.parent node.children (detach node.parent version g.nodes)),
        str_eq_refl version,
      ),
      (λ j q apart h.
          let (q', is, x) = survives g w version node found j q apart h in (q', is, x.above)),
    )
