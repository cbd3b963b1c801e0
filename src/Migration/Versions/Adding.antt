-- ===== src/Migration/Versions/Adding.antt =====
-- Add of versioning.go: when it succeeds, what it stores, and that it keeps the graph well formed.
use surql_go.Prelude.{
  ◌≡◌, ◌≢◌, refl, ap, ◌⊎◌, inl, inr, if◌then◌else◌, true, none, some, [], arith, Str, str_eq,
  str_eq_iff, str_eq_refl, contains, Bool-cases, Option-cases, lookup, insert, lookup-insert,
}
use surql_go.Errors.{new, validation, ok, err}
use surql_go.Migration.Versions.{SchemaSnapshot, VersionNode, VersionGraph, is_empty, attach, add}
use surql_go.Migration.Versions.Slices.{
  contains-insert_sorted, is_empty_of_ne, is_empty-true, is_empty-false,
}
use surql_go.Migration.Versions.Extends.{
  root_Extends, child_Extends, father, extended-WellFormed, grafted, still_above, lookup-grafted,
}
use surql_go.Migration.Versions.WellFormed.{WellFormed}

module _ {ℓ} {S : Type ℓ} (snapshot : SchemaSnapshot S) (parent : Str) (g : VersionGraph S) where
  abbrev pub fresh_node : VersionNode S
  fresh_node = record {
    version = snapshot.version;
    parent = parent;
    snapshot = snapshot;
    children = [];
  }

  -- What Add requires: a version, not yet in the graph, and a parent that is in it, if one is given.
  abbrev pub CanAdd : Type ℓ
  CanAdd =
      (snapshot.version ≢ [])
      × (lookup snapshot.version g.nodes ≡ none)
      × ((parent ≡ []) ⊎ ((p : VersionNode S) × (lookup parent g.nodes ≡ some p)))

  -- Add refuses whatever lacks one of its requirements, with a validation error.
  pub add_refuses : ¬ CanAdd → add snapshot parent g ≡ err (new validation)
  unfolding add
  add_refuses h = elim (Bool-cases (is_empty snapshot.version)) [
    | inl nameless ↦ rw (nameless, add)
    | inr named ↦ elim (Option-cases (lookup snapshot.version g.nodes)) [
      | inr (n, taken) ↦ rw (named, taken, add)
      | inl free ↦ elim (Bool-cases (is_empty parent)) [
        | inl rootless ↦
            absurd (h (is_empty-false _ named, free, inl (is_empty-true parent rootless)))
        | inr child ↦ elim (Option-cases (lookup parent g.nodes)) [
          | inl missing ↦ rw (named, free, child, missing, add)
          | inr (p, above) ↦ absurd (h (is_empty-false _ named, free, inr (p, above)))
        ]
      ]
    ]
  ]

  -- What Add stores, and what it leaves as it was
  pub record IsAdded (g' : VersionGraph S) : Type ℓ where
    pub stored : lookup snapshot.version g'.nodes ≡ some fresh_node
    pub others :
        (j : Str) → j ≢ snapshot.version → j ≢ parent → lookup j g'.nodes ≡ lookup j g.nodes
    pub adopts :
        (p : VersionNode S)
        → lookup parent g.nodes ≡ some p
        → (p' : VersionNode S) × (lookup parent g'.nodes ≡ some p')
          × (p'.version ≡ p.version)
          × (p'.parent ≡ p.parent)
          × (p'.snapshot ≡ p.snapshot)
          × ((c : Str)
              → contains c p'.children
                ≡ (if str_eq snapshot.version c then true else contains c p.children))
    pub first_root : parent ≡ [] → g.root ≡ [] → g'.root ≡ snapshot.version
    pub same_root : (parent ≢ []) ⊎ (g.root ≢ []) → g'.root ≡ g.root

  -- Add of what it requires to a well-formed graph stores the node, without children, and leaves the
  -- graph well formed. Of the parent it changes nothing but that the node joins its children, and
  -- other nodes not at all; the root changes only if there is none and the node has no parent, which
  -- makes it the root.
  pub add_lem :
      WellFormed g
      → CanAdd
      → (g' : VersionGraph S) × (add snapshot parent g ≡ ok g') × WellFormed g' × IsAdded g'
  unfolding add attach
  add_lem w (named, free, inl rootless) =
      let x = root_Extends g.nodes snapshot.version fresh_node free rootless in
      (
        record g {
          nodes = insert snapshot.version fresh_node g.nodes;
          root = if is_empty g.root then snapshot.version else g.root;
        },
        ground (arith, is_empty_of_ne snapshot.version named),
        extended-WellFormed g w _ snapshot.version _ fresh_node x refl named refl,
        record {
          stored = x.there;
          others = λ j p q. ground (
            arith,
            lookup-insert snapshot.version j fresh_node g.nodes,
            str_eq_iff snapshot.version j,
          );
          adopts = λ p above. absurd ((w.named parent p above).1 rootless);
          first_root = λ h e. rw e refl;
          same_root = λ h. elim h [
            | inl child ↦ absurd (child rootless)
            | inr some_root ↦ rw (is_empty_of_ne g.root some_root) refl
          ];
        },
      )
  add_lem w (named, free, inr (p, above)) =
      let x = child_Extends g.nodes snapshot.version fresh_node free p above in
      (
        record g { nodes = grafted g.nodes snapshot.version fresh_node free p above },
        ground (
          arith,
          is_empty_of_ne snapshot.version named,
          is_empty_of_ne parent (w.named parent p above).1,
          still_above g.nodes snapshot.version fresh_node free p above,
        ),
        extended-WellFormed g w _ snapshot.version _ fresh_node x refl named refl,
        record {
          stored = x.there;
          others = λ j q r. ground (
            arith,
            lookup-grafted g.nodes snapshot.version fresh_node free p above j,
            str_eq_iff snapshot.version j,
            str_eq_iff parent j,
          );
          adopts = λ q there.
              let same : p ≡ q = ground arith in
              (
                father g.nodes snapshot.version fresh_node free p above,
                ground (
                  arith,
                  lookup-grafted g.nodes snapshot.version fresh_node free p above parent,
                  str_eq_refl parent,
                ),
                ap (λ n. n.version) same,
                ap (λ n. n.parent) same,
                ap (λ n. n.snapshot) same,
                λ c. rw (← same) (contains-insert_sorted c snapshot.version p.children),
              );
          first_root = λ h e. absurd ((w.named parent p above).1 h);
          same_root = λ h. refl;
        },
      )
