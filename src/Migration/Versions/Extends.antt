-- ===== src/Migration/Versions/Extends.antt =====
-- A map of version nodes with one node more: what Add of versioning.go does to it, for a root and
-- for a child, and that this keeps the graph well formed.
use surql_go.Prelude.{
  contains, ◌<◌, ◌≡◌, ◌≢◌, refl, sym, ap, ◌∙◌, ◌⊎◌, inl, inr, if◌then◌else◌, true, false, none,
  some, [], arith, length, Str, str_eq, str_eq_iff, str_eq_refl, Bool-cases, GoMap, lookup, insert,
  lookup-insert,
}
use mathlib.Core.Path.{subst}
use surql_go.Migration.Versions.{VersionNode, VersionGraph, insert_sorted}
use surql_go.Migration.Versions.Slices.{IsSorted, insert_sorted-IsSorted, contains-insert_sorted}
use surql_go.Migration.Versions.Positions.{
  position, position-lt, position-insert_hit, position-insert_miss, position-insert_self,
}
use surql_go.Migration.Versions.WellFormed.{WellFormed}

module _ {ℓ} {S : Type ℓ} where
  -- What a new node does to the map: it comes last, its parent gains a child, all else stays.
  pub record Extends (nodes nodes' : GoMap (VersionNode S)) (v : Str) (node : VersionNode S)
      : Type ℓ where
    pub there : lookup v nodes' ≡ some node
    grown :
        (j : Str) (q : VersionNode S)
        → lookup j nodes ≡ some q
        → (q' : VersionNode S) × (lookup j nodes' ≡ some q')
          × (q'.parent ≡ q.parent)
          × ((c : Str) → contains c q.children ≡ true → contains c q'.children ≡ true)
    origin :
        (j : Str) (q' : VersionNode S)
        → lookup j nodes' ≡ some q'
        → (j ≡ v) × (q' ≡ node)
          ⊎ ((q : VersionNode S) × (lookup j nodes ≡ some q)
              × (q'.version ≡ q.version)
              × (q'.parent ≡ q.parent)
              × (IsSorted q.children → IsSorted q'.children)
              × ((c : Str)
                  → contains c q'.children ≡ true
                  → (contains c q.children ≡ true) ⊎ ((c ≡ v) × (j ≡ node.parent))))
    kept :
        (j : Str) (q : VersionNode S)
        → lookup j nodes ≡ some q
        → position j nodes' ≡ position j nodes
    last : position v nodes' ≡ length nodes
    adopted :
        node.parent ≢ []
        → (p : VersionNode S) × (lookup node.parent nodes ≡ some p)
          × (p' : VersionNode S) × (lookup node.parent nodes' ≡ some p')
          × (contains v p'.children ≡ true)

  module _ (g : VersionGraph S) (w : WellFormed g) (nodes' : GoMap (VersionNode S)) (v r : Str)
      (node : VersionNode S) (x : Extends g.nodes nodes' v node) (named : node.version ≡ v)
      (some_name : v ≢ []) (childless : node.children ≡ []) where
    extended-named :
        (k : Str) (n : VersionNode S) → lookup k nodes' ≡ some n → (n.version ≡ k) × (k ≢ [])
    extended-named k n h = elim (x.origin k n h) [
      | inl (here, is_new) ↦ (rw is_new (named ∙ sym here), λ e. some_name (sym here ∙ e))
      | inr (q, old, version, _, _, _) ↦ (version ∙ (w.named k q old).0, (w.named k q old).1)
    ]

    extended-parented :
        (k : Str) (n : VersionNode S)
        → lookup k nodes' ≡ some n
        → n.parent ≢ []
        → (p : VersionNode S) × (lookup n.parent nodes' ≡ some p) × (contains k p.children ≡ true)
    extended-parented k n h has_parent = elim (x.origin k n h) [
      | inl (here, is_new) ↦
          let (_, _, p', there, child) = x.adopted (rw is_new at has_parent) in
          (p', rw is_new there, rw here child)
      | inr (q, old, _, parent, _, _) ↦
          let (p, above, child) = w.parented k q old (rw parent at has_parent) in
          let (p', there, _, more) = x.grown q.parent p above in (p', rw parent there, more k child)
    ]

    extended-fathered :
        (k c : Str) (n : VersionNode S)
        → lookup k nodes' ≡ some n
        → contains c n.children ≡ true
        → (m : VersionNode S) × (lookup c nodes' ≡ some m) × (m.parent ≡ k)
    unfolding contains
    extended-fathered k c n h is_child = elim (x.origin k n h) [
      | inl (here, is_new) ↦
          let none_left : n.children ≡ [] = ap (λ m. m.children) is_new ∙ childless in
          cc (rw none_left at is_child)
      | inr (q, old, _, _, _, less) ↦ elim (less c is_child) [
        | inl was ↦
            let (m, below, parent) = w.fathered k c q old was in
            let (m', there, same, _) = x.grown c m below in (m', there, same ∙ parent)
        | inr (is_v, is_parent) ↦ (node, rw is_v x.there, sym is_parent)
      ]
    ]

    extended-ordered :
        (k : Str) (n : VersionNode S)
        → lookup k nodes' ≡ some n
        → n.parent ≢ []
        → position n.parent nodes' < position k nodes'
    extended-ordered k n h has_parent = elim (x.origin k n h) [
      | inl (here, is_new) ↦
          let (p, above, _, _, _) = x.adopted (rw is_new at has_parent) in
          rw (here, is_new, x.last, x.kept node.parent p above)
            (position-lt node.parent g.nodes above)
      | inr (q, old, _, parent, _, _) ↦
          let (p, above, _) = w.parented k q old (rw parent at has_parent) in
          rw (parent, x.kept q.parent p above, x.kept k q old)
            (w.ordered k q old (rw parent at has_parent))
    ]

    pub extended-WellFormed : WellFormed (record { nodes = nodes'; root = r })
    extended-WellFormed = record {
      named = extended-named;
      parented = extended-parented;
      fathered = extended-fathered;
      sorted = λ k n h. elim (x.origin k n h) [
        | inl (here, is_new) ↦ subst IsSorted (sym (ap (λ m. m.children) is_new ∙ childless)) tt
        | inr (q, old, _, _, sorted, _) ↦ sorted (w.sorted k q old)
      ];
      ordered = extended-ordered;
    }

  module _ (nodes : GoMap (VersionNode S)) (v : Str) (node : VersionNode S)
      (absent : lookup v nodes ≡ none) where
    pub root_Extends : node.parent ≡ [] → Extends nodes (insert v node nodes) v node
    root_Extends rootless = record {
      there = ground (arith, lookup-insert v v node nodes, str_eq_refl v);
      grown = λ j q h.
          (q, ground (arith, lookup-insert v j node nodes, str_eq_iff v j), refl, λ c m. m);
      origin = λ j q' h. elim (Bool-cases (str_eq v j)) [
        | inl here ↦
            inl (sym ((str_eq_iff v j).0 here), ground (arith, lookup-insert v j node nodes))
        | inr other ↦
            inr (
              q',
              ground (arith, lookup-insert v j node nodes),
              refl,
              refl,
              (λ s. s),
              (λ c m. inl m),
            )
      ];
      kept = λ j q h. position-insert_miss j v node nodes h;
      last = position-insert_self v node nodes absent;
      adopted = λ h. absurd (h rootless);
    }

    module _ (p : VersionNode S) (above : lookup node.parent nodes ≡ some p) where
      abbrev pub father : VersionNode S
      father = record p { children = insert_sorted p.children v }

      abbrev pub grafted : GoMap (VersionNode S)
      grafted = insert node.parent father (insert v node nodes)

      pub lookup-grafted :
          (j : Str)
          → lookup j grafted ≡ (
              if str_eq node.parent j
              then some father
              else if str_eq v j
              then some node
              else lookup j nodes)
      lookup-grafted j = rw lookup-insert (rw lookup-insert refl)

      other_than_parent : str_eq node.parent v ≡ false
      other_than_parent = ground (arith, str_eq_iff node.parent v)

      in_father :
          (c : Str)
          → contains c father.children ≡ (if str_eq v c then true else contains c p.children)
      in_father c = contains-insert_sorted c v p.children

      pub still_above : lookup node.parent (insert v node nodes) ≡ some p
      still_above = ground (arith, lookup-insert v node.parent node nodes, str_eq_iff v node.parent)

      pub child_Extends : Extends nodes grafted v node
      child_Extends = record {
        there = ground (arith, lookup-grafted v, other_than_parent, str_eq_refl v);
        grown = λ j q h. elim (Bool-cases (str_eq node.parent j)) [
          | inl here ↦ (
            father,
            ground (arith, lookup-grafted j),
            ground (arith, str_eq_iff node.parent j),
            λ c m. ground (arith, in_father c, str_eq_iff node.parent j),
          )
          | inr other ↦ (q, ground (arith, lookup-grafted j, str_eq_iff v j), refl, λ c m. m)
        ];
        origin = λ j q' h. elim (Bool-cases (str_eq node.parent j)) [
          | inl here ↦
              let at_parent : j ≡ node.parent = sym ((str_eq_iff node.parent j).0 here) in
              let is_father : q' ≡ father = ground (arith, lookup-grafted j) in
              inr (
                p,
                rw at_parent above,
                ap (λ m. m.version) is_father,
                ap (λ m. m.parent) is_father,
                (λ s. rw is_father (insert_sorted-IsSorted v p.children s)),
                (λ c m. elim (Bool-cases (str_eq v c)) [
                  | inl same ↦ inr (sym ((str_eq_iff v c).0 same), at_parent)
                  | inr apart ↦ inl (ground (arith, in_father c, rw is_father at m))
                ]),
              )
          | inr other ↦ elim (Bool-cases (str_eq v j)) [
            | inl new_one ↦ inl (sym ((str_eq_iff v j).0 new_one), ground (arith, lookup-grafted j))
            | inr old_one ↦
                inr (q', ground (arith, lookup-grafted j), refl, refl, (λ s. s), (λ c m. inl m))
          ]
        ];
        kept = λ j q h.
            position-insert_hit j node.parent father (insert v node nodes) still_above
            ∙ position-insert_miss j v node nodes h;
        last =
            position-insert_hit v node.parent father (insert v node nodes) still_above
            ∙ position-insert_self v node nodes absent;
        adopted = λ h. (
          p,
          above,
          father,
          ground (arith, lookup-grafted node.parent, str_eq_refl node.parent),
          ground (arith, in_father v, str_eq_refl v),
        );
      }
