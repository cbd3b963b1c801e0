-- ===== src/Migration/Diffs/Named.antt =====
-- The loops of diff.go that skip and append, and the maps by name that they look into.
use surql_go.Prelude.{
  if◌then◌else◌, ◌≡◌, ◌↔◌, ◌⊎◌, inl, inr, refl, Bool, true, false, ◌&&◌, Bool-cases, Option-cases,
  Option, none, some, List, [], ◌∷◌, ◌++◌, arith, Str, str_eq, str_eq_iff, str_eq_refl, str_ltb,
  GoMap, lookup, has_key, insert, keys, lookup-insert, select, contains, Every, Every-map,
  contains-select, contains-sort_by, contains-keys,
}
use surql_go.Errors.{Result, ok, err, ◌>>=◌}
use surql_go.Migration.Diffs.{SchemaDiff, collect, index_by, common}

pub append-nil_inv {ℓ} : {A : Type ℓ} (xs ys : List A) → xs ++ ys ≡ [] → (xs ≡ []) × (ys ≡ [])
append-nil_inv [] ys e = (refl, e)
append-nil_inv (x ∷ xs) ys e = absurd (ground (arith, e))

pub >>=-nil :
    (a b : Result (List SchemaDiff))
    → ((a >>= λ xs. b >>= λ ys. ok (xs ++ ys)) ≡ ok []) ↔ ((a ≡ ok []) × (b ≡ ok []))
>>=-nil (err e) b = (λ h. absurd (ground (arith, h)), λ h. absurd (ground (arith, h.0)))
>>=-nil (ok xs) (err e) = (λ h. absurd (ground (arith, h)), λ h. absurd (ground (arith, h.1)))
>>=-nil (ok []) (ok ys) = (λ h. (refl, h), λ h. h.1)
>>=-nil (ok (x ∷ xs)) (ok ys) = (λ h. absurd (ground (arith, h)), λ h. absurd (ground (arith, h.0)))

module _ {ℓ} {A : Type ℓ} (skip : A → Bool) (make : A → Result (List SchemaDiff)) where
  -- An element that adds nothing
  abbrev pub Silent : A → Type 0
  Silent a = (skip a ≡ true) ⊎ (make a ≡ ok [])

  pub collect-nil : (xs : List A) → (collect skip make xs ≡ ok []) ↔ Every Silent xs
  unfolding collect
  collect-nil [] = (λ h. tt, λ h. refl)
  collect-nil (x ∷ xs) = elim (Bool-cases (skip x)) [
    | inl skipped ↦
        rw (skipped, collect) (λ h. (inl refl, (collect-nil xs).0 h), λ h. (collect-nil xs).1 h.1)
    | inr kept ↦
        rw (kept, collect)
          (
            λ h.
                let both = (>>=-nil (make x) (collect skip make xs)).0 h in
                (inr both.0, (collect-nil xs).0 both.1),
            λ h. (>>=-nil (make x) (collect skip make xs)).1 (
              elim h.0 [ inl s ↦ absurd (ground (arith, s)) | inr m ↦ m ],
              (collect-nil xs).1 h.1,
            ),
          )
  ]

abbrev pub found {ℓ} : {A : Type ℓ} → Option A → Bool
found none = false
found (some a) = true

module _ {ℓ} {A : Type ℓ} (name : A → Str) where
  -- The last element of a name, which is the one that a map keeps
  abbrev pub last_named : Str → List A → Option A
  last_named n [] = none
  last_named n (x ∷ xs) = elim (last_named n xs) [
    | some y ↦ some y
    | none ↦ if str_eq (name x) n then some x else none
  ]

  lookup-index_by :
      (n : Str) (m : GoMap A) (xs : List A)
      → lookup n (index_by name m xs)
        ≡ elim (last_named n xs) [ some y ↦ some y | none ↦ lookup n m ]
  unfolding index_by
  lookup-index_by n m [] = refl
  lookup-index_by n m (x ∷ xs) =
      ground (arith, lookup-index_by n (insert (name x) x m) xs, lookup-insert (name x) n x m)

  pub lookup-last : (n : Str) (xs : List A) → lookup n (index_by name [] xs) ≡ last_named n xs
  unfolding lookup
  lookup-last n xs = ground (arith, lookup-index_by n [] xs)

  pub has_key-last :
      (n : Str) (xs : List A) → has_key n (index_by name [] xs) ≡ found (last_named n xs)
  has_key-last n xs = ground (arith, lookup-last n xs)

  named_head :
      (x a : A) (n : Str)
      → (if str_eq (name x) n then some x else none) ≡ some a
      → (x ≡ a) × (name x ≡ n)
  named_head x a n e = ground (arith, str_eq_iff (name x) n)

  -- What every element satisfies, the last of a name does, and it has the name.
  pub Every-last :
      (P : A → Type 0) (n : Str) (xs : List A) (a : A)
      → Every P xs
      → last_named n xs ≡ some a
      → P a × (name a ≡ n)
  Every-last P n [] a ps e = absurd (ground (arith, e))
  Every-last P n (x ∷ xs) a ps e = elim (Option-cases (last_named n xs)) [
    | inr (y, later) ↦ Every-last P n xs a ps.1 (ground (arith, later, e))
    | inl never ↦
        let (same, named) = named_head x a n (ground (arith, never, e)) in rw (← same) (ps.0, named)
  ]

  -- Every element of a list has a last one of its name.
  pub Every-found : (xs : List A) → Every (λ x. found (last_named (name x) xs) ≡ true) xs
  Every-found [] = tt
  Every-found (x ∷ xs) = (
    ground (arith, str_eq_refl (name x)),
    Every-map (λ y. found (last_named (name y) xs) ≡ true)
        (λ y. found (last_named (name y) (x ∷ xs)) ≡ true) (λ y h. ground (arith, h)) xs
        (Every-found xs),
  )

  pub contains-common :
      (k : Str) (olds news : List A)
      → contains k (common name (index_by name [] olds) (index_by name [] news))
        ≡ (found (last_named k olds) && found (last_named k news))
  unfolding common
  contains-common k olds news = ground (
    arith,
    contains-sort_by str_ltb k
        (select (λ j. has_key j (index_by name [] news)) (keys (index_by name [] olds))),
    contains-select k (λ j. has_key j (index_by name [] news)) (keys (index_by name [] olds)),
    contains-keys k (index_by name [] olds),
    has_key-last k olds,
    has_key-last k news,
  )
