-- ===== src/Migration/Versions/Ancestry.antt =====
-- Ancestors of versioning.go on a well-formed graph: the loop ends, and lists the chain of parents
-- from a root down, in which no version stands above itself.
use mathlib.Core.List.{reverse, reverse-append, append-nil, append_assoc}
use surql_go.Prelude.{
  contains, ℕ, zero, suc, ◌<◌, ◌≡◌, ◌≢◌, refl, sym, ap, ◌∙◌, inl, inr, Bool-cases, some, List, [],
  ◌∷◌, ◌++◌, arith, length, Str, str_eq, str_eq_iff, true, false, GoMap, lookup,
}
use surql_go.Migration.Versions.{VersionNode, VersionGraph, is_empty, ancestors_loop, ancestors}
use surql_go.Migration.Versions.Slices.{is_empty-true, is_empty-false}
use surql_go.Migration.Versions.Positions.{position, position-lt}
use surql_go.Migration.Versions.WellFormed.{WellFormed}

reverse-cons-append {ℓ} :
    {A : Type ℓ} (x : A) (xs ys : List A) → reverse (x ∷ xs) ++ ys ≡ reverse xs ++ x ∷ ys
reverse-cons-append x xs ys =
    rw (reverse-append (x ∷ []) xs) (append_assoc (reverse xs) (x ∷ []) ys)

module _ {ℓ} {S : Type ℓ} where
  -- The parents of a version, the nearest first, up to a root.
  pub data Lineage (nodes : GoMap (VersionNode S)) : Str → List Str → Type ℓ where
    top :
        (k : Str) (n : VersionNode S) → lookup k nodes ≡ some n → n.parent ≡ [] → Lineage nodes k []
    up :
        (k p : Str) (n : VersionNode S) (ps : List Str)
        → lookup k nodes ≡ some n
        → n.parent ≡ p
        → p ≢ []
        → Lineage nodes p ps
        → Lineage nodes k (p ∷ ps)

  module _ (g : VersionGraph S) (w : WellFormed g) where
    -- The loop ends within as much fuel as there are nodes.
    ancestors_loop-Lineage :
        (fuel : ℕ) (k : Str) (n : VersionNode S) (found : List Str)
        → lookup k g.nodes ≡ some n
        → position k g.nodes < fuel
        → (ps : List Str) × Lineage g.nodes k ps
          × (ancestors_loop fuel g.nodes k found ≡ some (reverse ps ++ found))
    unfolding ancestors_loop
    ancestors_loop-Lineage zero k n found h lt = elim lt [ ]
    ancestors_loop-Lineage (suc fuel) k n found h lt = elim (Bool-cases (is_empty n.parent)) [
      | inl root ↦ ([], top k n h (is_empty-true n.parent root), rw (h, root, ancestors_loop))
      | inr child ↦
          let has_parent = is_empty-false n.parent child in
          let (p, above, _) = w.parented k n h has_parent in
          let (ps, line, runs) =
            ancestors_loop-Lineage fuel n.parent p (n.parent ∷ found) above
              (omega (arith, w.ordered k n h has_parent)) in
          (
            n.parent ∷ ps,
            up k n.parent n ps h refl has_parent line,
            rw (h, child, ancestors_loop)
                (runs ∙ ap some (sym (reverse-cons-append n.parent ps found))),
          )
    ]

    -- Every parent in a lineage stands before the version, so none of them is the version itself.
    Lineage-below :
        (k a : Str) (ps : List Str)
        → Lineage g.nodes k ps
        → contains a ps ≡ true
        → position a g.nodes < position k g.nodes
    unfolding contains
    Lineage-below k a ps (top _ n h root) m = cc
    Lineage-below k a ps (up _ p n qs h is_parent has_parent line) m =
        elim (Bool-cases (str_eq p a)) [
          | inl here ↦
              rw (← (str_eq_iff p a).0 here, ← is_parent)
                (w.ordered k n h (rw is_parent has_parent))
          | inr above ↦
              let below : position p g.nodes < position k g.nodes =
                rw (← is_parent) (w.ordered k n h (rw is_parent has_parent)) in
              omega (arith, Lineage-below p a qs line (ground arith))
        ]

    -- Ancestors of a known version: the loop ends within as many rounds as there are versions, and
    -- lists the version's parents from a root down to the immediate parent. None of them is the
    -- version itself.
    pub ancestors_lem :
        (k : Str) (n : VersionNode S)
        → lookup k g.nodes ≡ some n
        → (ps : List Str) × (ancestors k g ≡ some (reverse ps))
          × Lineage g.nodes k ps
          × (contains k ps ≡ false)
    unfolding ancestors
    ancestors_lem k n h =
        let (ps, line, runs) =
          ancestors_loop-Lineage (length g.nodes) k n [] h (position-lt k g.nodes h) in
        (
          ps,
          rw (h, ancestors) (runs ∙ ap some (append-nil (reverse ps))),
          line,
          elim (Bool-cases (contains k ps)) [
            | inl within ↦ absurd (omega (arith, Lineage-below k k ps line within))
            | inr without ↦ without
          ],
        )
