-- ===== src/Migration/Versions/Moves.antt =====
-- What Remove of versioning.go does to the other nodes, step by step: the children of the removed
-- node are reparented one at a time, each joining the children of their new parent.
use surql_go.Prelude.{
  contains, ◌≡◌, ◌≢◌, refl, sym, ap, ◌∙◌, ◌⊎◌, inl, inr, if◌then◌else◌, true, false, none, some,
  List, [], ◌∷◌, arith, Str, str_eq, str_eq_iff, Bool-cases, GoMap, lookup, insert, lookup-insert,
}
use mathlib.Core.Path.{subst}
use surql_go.Migration.Versions.{VersionNode, is_empty, insert_sorted, attach, reparent}
use surql_go.Migration.Versions.Slices.{
  IsSorted, insert_sorted-IsSorted, contains-insert_sorted, is_empty_of_ne,
}
use surql_go.Migration.Versions.Positions.{position, position-insert_hit}

module _ {ℓ} {S : Type ℓ} (parent : Str) where
  -- A node after the children `cs` have moved below `parent`.
  pub record Related (cs : List Str) (j : Str) (q q' : VersionNode S) : Type ℓ where
    pub version : q'.version ≡ q.version
    pub above : q'.parent ≡ (if contains j cs then parent else q.parent)
    pub sorted : IsSorted q.children → IsSorted q'.children
    pub inside :
        (c : Str)
        → contains c q'.children ≡ (
            if str_eq parent j
            then (if contains c q.children then true else contains c cs)
            else contains c q.children)

  pub record Moved (cs : List Str) (m m' : GoMap (VersionNode S)) : Type ℓ where
    pub kept :
        (j : Str) (q : VersionNode S)
        → lookup j m ≡ some q
        → (q' : VersionNode S) × (lookup j m' ≡ some q') × Related cs j q q'
    pub gone : (j : Str) → lookup j m ≡ none → lookup j m' ≡ none
    pub placed : (j : Str) → position j m' ≡ position j m

  pub Related-nil : (j : Str) (q : VersionNode S) → Related [] j q q
  unfolding contains
  Related-nil j q = record {
    version = refl;
    above = refl;
    sorted = λ s. s;
    inside = λ c. ground arith;
  }

  Related-cons :
      (c : Str) (cs : List Str) (j : Str) (q q1 q2 : VersionNode S)
      → Related (c ∷ []) j q q1
      → Related cs j q1 q2
      → Related (c ∷ cs) j q q2
  unfolding contains
  Related-cons c cs j q q1 q2 r s = record {
    version = s.version ∙ r.version;
    above = ground (arith, r.above, s.above);
    sorted = λ x. s.sorted (r.sorted x);
    inside = λ d. ground (arith, r.inside d, s.inside d);
  }

  pub Moved-cons :
      (c : Str) (cs : List Str) (m m1 m2 : GoMap (VersionNode S))
      → Moved (c ∷ []) m m1
      → Moved cs m1 m2
      → Moved (c ∷ cs) m m2
  Moved-cons c cs m m1 m2 x y = record {
    kept = λ j q h.
        let (q1, at1, r) = x.kept j q h in
        let (q2, at2, s) = y.kept j q1 at1 in (q2, at2, Related-cons c cs j q q1 q2 r s);
    gone = λ j h. y.gone j (x.gone j h);
    placed = λ j. y.placed j ∙ x.placed j;
  }

  -- One child moves.
  module _ (c : Str) (m : GoMap (VersionNode S)) (n : VersionNode S) (child : lookup c m ≡ some n)
      (apart : parent ≢ c) (nameless : lookup [] m ≡ none) where
    abbrev moved_child : GoMap (VersionNode S)
    moved_child = insert c (record n { parent = parent }) m

    lookup-moved_child :
        (j : Str)
        → lookup j moved_child
          ≡ (if str_eq c j then some (record n { parent = parent }) else lookup j m)
    lookup-moved_child j = lookup-insert c j (record n { parent = parent }) m

    not_parent :
        (j : Str) (q : VersionNode S) → lookup j m ≡ some q → parent ≡ [] → str_eq parent j ≡ false
    not_parent j q h root = elim (Bool-cases (str_eq parent j)) [
      | inl same ↦ absurd (ground (arith, str_eq_iff parent j))
      | inr other ↦ other
    ]

    -- The child itself: only its parent changes.
    Related-child :
        (j : Str) (q : VersionNode S)
        → lookup j m ≡ some q
        → str_eq c j ≡ true
        → str_eq parent j ≡ false
        → Related (c ∷ []) j q (record n { parent = parent })
    unfolding contains
    Related-child j q h here other =
        let at : c ≡ j = (str_eq_iff c j).0 here in
        let same : n ≡ q = ground arith in
        record {
          version = ap (λ x. x.version) same;
          above = rw here;
          sorted = λ s. subst (λ x. IsSorted x.children) (sym same) s;
          inside = λ d. rw (other, same);
        }

    -- A node that is neither the child nor the new parent: nothing changes.
    Related-other :
        (j : Str) (q : VersionNode S)
        → str_eq c j ≡ false
        → str_eq parent j ≡ false
        → Related (c ∷ []) j q q
    unfolding contains
    Related-other j q apart_c other = record {
      version = refl;
      above = rw apart_c;
      sorted = λ s. s;
      inside = λ d. rw other;
    }

    Moved-root : parent ≡ [] → Moved (c ∷ []) m moved_child
    Moved-root root = record {
      kept = λ j q h. elim (Bool-cases (str_eq c j)) [
        | inl here ↦ (
          record n { parent = parent },
          ground (arith, lookup-moved_child j),
          Related-child j q h here (not_parent j q h root),
        )
        | inr other ↦ (
          q,
          ground (arith, lookup-moved_child j),
          Related-other j q other (not_parent j q h root),
        )
      ];
      gone = λ j h. ground (arith, lookup-moved_child j, str_eq_iff c j);
      placed = λ j. position-insert_hit j c (record n { parent = parent }) m child;
    }

    module _ (p : VersionNode S) (above : lookup parent m ≡ some p) where
      abbrev joined : VersionNode S
      joined = record p { children = insert_sorted p.children c }

      abbrev moved_both : GoMap (VersionNode S)
      moved_both = insert parent joined moved_child

      still_above : lookup parent moved_child ≡ some p
      still_above = ground (arith, lookup-moved_child parent, str_eq_iff c parent)

      lookup-moved_both :
          (j : Str)
          → lookup j moved_both ≡ (if str_eq parent j then some joined else lookup j moved_child)
      lookup-moved_both j = lookup-insert parent j joined moved_child

      Related-parent :
          (j : Str) (q : VersionNode S)
          → lookup j m ≡ some q
          → str_eq parent j ≡ true
          → Related (c ∷ []) j q joined
      unfolding contains
      Related-parent j q h here =
          let at : parent ≡ j = (str_eq_iff parent j).0 here in
          let same : p ≡ q = ground arith in
          record {
            version = ap (λ x. x.version) same;
            above = ground (arith, ap (λ x. x.parent) same, str_eq_iff c j);
            sorted = λ s.
                insert_sorted-IsSorted c p.children (subst (λ x. IsSorted x.children) (sym same) s);
            inside = λ d. ground (
              arith,
              contains-insert_sorted d c p.children,
              ap (λ x. contains d x.children) same,
            );
          }

      Moved-child : Moved (c ∷ []) m moved_both
      Moved-child = record {
        kept = λ j q h. elim (Bool-cases (str_eq parent j)) [
          | inl here ↦ (joined, ground (arith, lookup-moved_both j), Related-parent j q h here)
          | inr other ↦ elim (Bool-cases (str_eq c j)) [
            | inl at_child ↦ (
              record n { parent = parent },
              ground (arith, lookup-moved_both j, lookup-moved_child j),
              Related-child j q h at_child other,
            )
            | inr apart_c ↦ (
              q,
              ground (arith, lookup-moved_both j, lookup-moved_child j),
              Related-other j q apart_c other,
            )
          ]
        ];
        gone = λ j h.
            ground (
              arith,
              lookup-moved_both j,
              lookup-moved_child j,
              str_eq_iff c j,
              str_eq_iff parent j,
            );
        placed = λ j.
            position-insert_hit j parent joined moved_child still_above
            ∙ position-insert_hit j c (record n { parent = parent }) m child;
      }

    -- The parent is absent (the child becomes a root), or it is in the map.
    pub Moved-reparent :
        (parent ≡ []) ⊎ ((p : VersionNode S) × (lookup parent m ≡ some p))
        → Moved (c ∷ []) m (reparent parent c m)
    unfolding reparent attach
    Moved-reparent (inl root) =
        let step : reparent parent c m ≡ moved_child = ground (arith, ap is_empty root) in
        subst (Moved (c ∷ []) m) (sym step) (Moved-root root)
    Moved-reparent (inr (p, above)) =
        let named : parent ≢ [] = λ e. ground arith in
        let step : reparent parent c m ≡ moved_both p above =
          ground (arith, is_empty_of_ne parent named, still_above p above) in
        subst (Moved (c ∷ []) m) (sym step) (Moved-child p above)
