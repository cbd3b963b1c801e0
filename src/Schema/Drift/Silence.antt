-- ===== src/Schema/Drift/Silence.antt =====
-- When the loops of pkg/surql/schema/validator.go find nothing.
use surql_go.Prelude.{
  ◌≡◌, ◌↔◌, refl, Bool, true, false, Option, none, some, List, [], ◌∷◌, ◌++◌, arith, Str, str_ltb,
  has_key, lookup, keys, sort_by, contains, contains-sort_by, contains-keys, Every, Every-contains,
  Every-of_contains,
}
use surql_go.Migration.Diffs.{index_by}
use surql_go.Migration.Diffs.Named.{append-nil_inv, last_named, lookup-last, found, has_key-last}
use surql_go.Migration.Diffs.Agreement.{Agree}
use surql_go.Migration.Diffs.Settled.{SameBy}
use surql_go.Schema.Drift.{ValidationResult, unless, walk, compare_both, compare_named}

pub append-nil {ℓ} : {A : Type ℓ} (xs ys : List A) → (xs ++ ys ≡ []) ↔ ((xs ≡ []) × (ys ≡ []))
append-nil [] ys = (λ h. (refl, h), λ h. h.1)
append-nil (x ∷ xs) ys = (append-nil_inv (x ∷ xs) ys, λ h. absurd (ground (arith, h.0)))

pub unless-nil : (b : Bool) (r : ValidationResult) → (unless b r ≡ []) ↔ (b ≡ true)
unless-nil true r = (λ h. refl, λ h. refl)
unless-nil false r = (λ h. absurd (ground (arith, h)), λ h. absurd (ground (arith, h)))

walk-nil :
    (f : Str → List ValidationResult) (ns : List Str) → (walk f ns ≡ []) ↔ Every (λ n. f n ≡ []) ns
unfolding walk
walk-nil f [] = (λ h. tt, λ h. refl)
walk-nil f (n ∷ ns) =
    let both = append-nil (f n) (walk f ns) in
    (λ h. ((both.0 h).0, (walk-nil f ns).0 (both.0 h).1), λ h. both.1 (h.0, (walk-nil f ns).1 h.1))

module _ {ℓ} {A : Type ℓ} (name : A → Str) where
  abbrev names : List A → List Str
  names xs = sort_by str_ltb (keys (index_by name [] xs))

  contains-names : (n : Str) (xs : List A) → contains n (names xs) ≡ found (last_named name n xs)
  contains-names n xs = ground (
    arith,
    contains-sort_by str_ltb n (keys (index_by name [] xs)),
    contains-keys n (index_by name [] xs),
    has_key-last name n xs,
  )

  walk-names-nil :
      (f : Str → List ValidationResult) (xs : List A)
      → (walk f (names xs) ≡ []) ↔ ((n : Str) → found (last_named name n xs) ≡ true → f n ≡ [])
  walk-names-nil f xs = (
    λ h n there.
        Every-contains (λ k. f k ≡ []) n (names xs) ((walk-nil f (names xs)).0 h)
          (ground (arith, contains-names n xs, there)),
    λ h. (walk-nil f (names xs)).1 (
        Every-of_contains (λ k. f k ≡ []) (names xs)
          (λ n m. h n (ground (arith, contains-names n xs, m)))),
  )

module _ {ℓ} {A : Type ℓ} (compare : A → A → List ValidationResult)
    (missing extra : ValidationResult) where
  -- What the three loops find at one name
  abbrev AtName : Option A → Option A → Type 0
  AtName a b =
      (found a ≡ true → unless (found b) missing ≡ [])
      × (found b ≡ true → unless (found a) extra ≡ [])
      × (found a ≡ true → compare_both compare a b ≡ [])

  AtName-Agree : (a b : Option A) → AtName a b ↔ Agree (λ x y. compare x y ≡ []) a b
  AtName-Agree none none = (
    λ h. tt,
    λ h. (
      λ f. absurd (ground (arith, f)),
      λ f. absurd (ground (arith, f)),
      λ f. absurd (ground (arith, f)),
    ),
  )
  AtName-Agree none (some y) =
      (λ h. absurd (ground (arith, (unless-nil false extra).0 (h.1 refl))), λ h. absurd h)
  AtName-Agree (some x) none =
      (λ h. absurd (ground (arith, (unless-nil false missing).0 (h.0 refl))), λ h. absurd h)
  AtName-Agree (some x) (some y) = (λ h. h.2 refl, λ h. (λ f. refl, λ f. refl, λ f. h))

module _ {ℓ} {A : Type ℓ} (name : A → Str) (missing extra : Str → ValidationResult)
    (compare : A → A → List ValidationResult) where
  -- The loops are silent exactly if both sides have the same names, and the comparison is silent on
  -- the elements that count.
  pub compare_named-nil :
      (code db : List A)
      → (compare_named name missing extra compare code db ≡ [])
        ↔ SameBy name (λ a b. compare a b ≡ []) code db
  unfolding compare_named
  compare_named-nil code db =
      let codes = index_by name [] code in
      let dbs = index_by name [] db in
      let first = walk-names-nil name (λ n. unless (has_key n dbs) (missing n)) code in
      let second = walk-names-nil name (λ n. unless (has_key n codes) (extra n)) db in
      let third =
        walk-names-nil name (λ n. compare_both compare (lookup n codes) (lookup n dbs)) code in
      let outer = append-nil (walk (λ n. unless (has_key n dbs) (missing n)) (names name code)) _ in
      let inner = append-nil (walk (λ n. unless (has_key n codes) (extra n)) (names name db)) _ in
      (
        λ h n.
            let rest = inner.0 (outer.0 h).1 in
            (AtName-Agree compare (missing n) (extra n) (last_named name n code)
                (last_named name n db)).0
              (
                λ there. rw (← has_key-last name n db) (first.0 (outer.0 h).0 n there),
                λ there. rw (← has_key-last name n code) (second.0 rest.0 n there),
                λ there.
                    rw (← lookup-last name n code, ← lookup-last name n db)
                      (third.0 rest.1 n there),
              ),
        λ h.
            let at = λ (n : Str).
              (AtName-Agree compare (missing n) (extra n) (last_named name n code)
                  (last_named name n db)).1
                (h n) in
            outer.1 (
              first.1 (λ n there. rw (has_key-last name n db) ((at n).0 there)),
              inner.1 (
                second.1 (λ n there. rw (has_key-last name n code) ((at n).1 there)),
                third.1 (λ n there.
                    rw (lookup-last name n code, lookup-last name n db) ((at n).2 there)),
              ),
            ),
      )
