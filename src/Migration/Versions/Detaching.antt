-- ===== src/Migration/Versions/Detaching.antt =====
-- The first two steps of Remove of versioning.go: the node leaves its parent's children, and all
-- its children move to that parent.
use mathlib.Core.Path.{subst}
use surql_go.Prelude.{
  contains, ◌≡◌, ◌≢◌, refl, sym, ap, ◌⊎◌, inl, inr, if◌then◌else◌, true, false, some, none, List,
  [], ◌∷◌, arith, Str, str_eq, str_eq_iff, str_eq_refl, Bool-cases, GoMap, lookup, insert,
  lookup-insert,
}
use surql_go.Migration.Versions.{
  VersionNode, is_empty, remove_from_slice, detach, reparent, reparent_all,
}
use surql_go.Migration.Versions.Slices.{IsSorted, remove-IsSorted, contains-remove, is_empty_of_ne}
use surql_go.Migration.Versions.Positions.{position, position-insert_hit}
use surql_go.Migration.Versions.Moves.{Moved, Related-nil, Moved-cons, Moved-reparent}

module _ {ℓ} {S : Type ℓ} (parent : Str) where
  Moved-nil : (m : GoMap (VersionNode S)) → Moved parent [] m m
  Moved-nil m = record {
    kept = λ j q h. (q, h, Related-nil parent j q);
    gone = λ j h. h;
    placed = λ j. refl;
  }

  -- All children move.
  pub Moved-reparent_all :
      (cs : List Str) (m : GoMap (VersionNode S))
      → contains parent cs ≡ false
      → ((c : Str) → contains c cs ≡ true → (n : VersionNode S) × (lookup c m ≡ some n))
      → lookup [] m ≡ none
      → (parent ≡ []) ⊎ ((p : VersionNode S) × (lookup parent m ≡ some p))
      → Moved parent cs m (reparent_all parent cs m)
  unfolding reparent_all contains
  Moved-reparent_all [] m apart present nameless at = Moved-nil m
  Moved-reparent_all (c ∷ cs) m apart present nameless at =
      let (n, here) = present c (ground (arith, str_eq_refl c)) in
      let other : parent ≢ c = λ e. ground (arith, str_eq_iff c parent) in
      let x = Moved-reparent parent c m n here other nameless at in
      Moved-cons parent c cs m (reparent parent c m) (reparent_all parent cs (reparent parent c m))
        x
        (Moved-reparent_all cs (reparent parent c m) (ground arith)
          (λ d within.
            let (q, was) = present d (ground arith) in let (q', is, _) = x.kept d q was in (q', is))
          (x.gone [] nameless) (still_there x at))
    where
      still_there :
          {m' : GoMap (VersionNode S)}
          → Moved parent (c ∷ []) m m'
          → (parent ≡ []) ⊎ ((p : VersionNode S) × (lookup parent m ≡ some p))
          → (parent ≡ []) ⊎ ((p : VersionNode S) × (lookup parent m' ≡ some p))
      still_there x (inl root) = inl root
      still_there x (inr (p, was)) = let (p', is, _) = x.kept parent p was in inr (p', is)

  -- A node after its child `version` has left it.
  pub record Cut (version j : Str) (q q' : VersionNode S) : Type ℓ where
    pub same_version : q'.version ≡ q.version
    pub same_parent : q'.parent ≡ q.parent
    pub sorted : IsSorted q'.children
    pub inside :
        (c : Str)
        → contains c q'.children ≡ (
            if str_eq parent j
            then (if str_eq version c then false else contains c q.children)
            else contains c q.children)

  pub record Detached (version : Str) (m m' : GoMap (VersionNode S)) : Type ℓ where
    pub kept :
        (j : Str) (q : VersionNode S)
        → lookup j m ≡ some q
        → (q' : VersionNode S) × (lookup j m' ≡ some q') × Cut version j q q'
    pub gone : (j : Str) → lookup j m ≡ none → lookup j m' ≡ none
    pub placed : (j : Str) → position j m' ≡ position j m

  module _ (version : Str) (m : GoMap (VersionNode S)) (nameless : lookup [] m ≡ none)
      (sorted : (j : Str) (q : VersionNode S) → lookup j m ≡ some q → IsSorted q.children) where
    Cut-other :
        (j : Str) (q : VersionNode S)
        → lookup j m ≡ some q
        → str_eq parent j ≡ false
        → Cut version j q q
    Cut-other j q h other = record {
      same_version = refl;
      same_parent = refl;
      sorted = sorted j q h;
      inside = λ c. rw other;
    }

    Detached-root : parent ≡ [] → Detached version m m
    Detached-root root = record {
      kept = λ j q h. (q, h, Cut-other j q h (elsewhere j q h));
      gone = λ j h. h;
      placed = λ j. refl;
    }
      where
        elsewhere : (j : Str) (q : VersionNode S) → lookup j m ≡ some q → str_eq parent j ≡ false
        elsewhere j q h = elim (Bool-cases (str_eq parent j)) [
          | inl same ↦ absurd (ground (arith, str_eq_iff parent j))
          | inr other ↦ other
        ]

    module _ (p : VersionNode S) (above : lookup parent m ≡ some p) where
      abbrev bereft : VersionNode S
      bereft = record p { children = remove_from_slice p.children version }

      lookup-bereft :
          (j : Str)
          → lookup j (insert parent bereft m)
            ≡ (if str_eq parent j then some bereft else lookup j m)
      lookup-bereft j = lookup-insert parent j bereft m

      Cut-parent :
          (j : Str) (q : VersionNode S)
          → lookup j m ≡ some q
          → str_eq parent j ≡ true
          → Cut version j q bereft
      Cut-parent j q h here =
          let at : parent ≡ j = (str_eq_iff parent j).0 here in
          let same : p ≡ q = ground arith in
          record {
            same_version = ap (λ x. x.version) same;
            same_parent = ap (λ x. x.parent) same;
            sorted = remove-IsSorted version p.children (sorted parent p above);
            inside = λ c. ground (
              arith,
              contains-remove c version p.children (sorted parent p above),
              ap (λ x. contains c x.children) same,
            );
          }

      Detached-child : Detached version m (insert parent bereft m)
      Detached-child = record {
        kept = λ j q h. elim (Bool-cases (str_eq parent j)) [
          | inl here ↦ (bereft, ground (arith, lookup-bereft j), Cut-parent j q h here)
          | inr other ↦ (q, ground (arith, lookup-bereft j), Cut-other j q h other)
        ];
        gone = λ j h. ground (arith, lookup-bereft j, str_eq_iff parent j);
        placed = λ j. position-insert_hit j parent bereft m above;
      }

    pub Detached-detach :
        (parent ≡ []) ⊎ ((p : VersionNode S) × (lookup parent m ≡ some p))
        → Detached version m (detach parent version m)
    unfolding detach
    Detached-detach (inl root) =
        let step : detach parent version m ≡ m = ground (arith, ap is_empty root) in
        subst (Detached version m) (sym step) (Detached-root root)
    Detached-detach (inr (p, above)) =
        let named : parent ≢ [] = λ e. ground arith in
        let step : detach parent version m ≡ insert parent (bereft p above) m =
          ground (arith, is_empty_of_ne parent named) in
        subst (Detached version m) (sym step) (Detached-child p above)
