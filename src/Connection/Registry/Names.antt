-- ===== src/Connection/Registry/Names.antt =====
-- firstName of registry.go: the name that takes over as the default.
use surql_go.Prelude.{
  Every, Every-map, ◌≡◌, ◌≢◌, refl, Bool, true, false, Bool-cases, inl, inr, none, some, List, [],
  ◌∷◌, arith, Str, str_eq_refl, str_ltb, GoMap, lookup, keys, insert_by, sort_by,
}
use surql_go.Connection.Registry.{first, first_name}

abbrev pub has {ℓ} : {A : Type ℓ} → Str → GoMap A → Bool
has k m = elim (lookup k m) [ none ↦ false | some _ ↦ true ]

first-insert_by {ℓ} :
    (P : Str → Type ℓ) (x : Str) (l : List Str)
    → P x
    → (l ≢ [] → P (first l))
    → P (first (insert_by str_ltb x l))
unfolding first insert_by
first-insert_by P x [] p ps = p
first-insert_by P x (y ∷ ys) p ps = elim (Bool-cases (str_ltb y x)) [
  | inl below ↦ rw (below, insert_by) (ps (λ e. ground (arith, e)))
  | inr above ↦ rw (above, insert_by) p
]

first-sort_by {ℓ} :
    (P : Str → Type ℓ) (l : List Str) → Every P l → l ≢ [] → P (first (sort_by str_ltb l))
unfolding sort_by
first-sort_by P [] ps some_name = absurd (some_name refl)
first-sort_by P (x ∷ []) ps some_name = first-insert_by P x [] ps.0 (λ e. absurd (e refl))
first-sort_by P (x ∷ y ∷ ys) ps some_name =
    first-insert_by P x (sort_by str_ltb (y ∷ ys)) ps.0
      (λ e. first-sort_by P (y ∷ ys) ps.1 (λ e. ground (arith, e)))

module _ {ℓ} {A : Type ℓ} where
  keys-has : (m : GoMap A) → Every (λ k. has k m ≡ true) (keys m)
  unfolding keys lookup
  keys-has [] = tt
  keys-has ((j, v) ∷ m) = (
    ground (arith, str_eq_refl j),
    Every-map (λ k. has k m ≡ true) (λ k. has k ((j, v) ∷ m) ≡ true) (λ k h. ground (arith, h))
        (keys m) (keys-has m),
  )

  pub has-first_name : (m : GoMap A) → m ≢ [] → has (first_name m) m ≡ true
  unfolding first_name keys
  has-first_name [] some_name = absurd (some_name refl)
  has-first_name ((j, v) ∷ m) some_name =
      first-sort_by (λ k. has k ((j, v) ∷ m) ≡ true) (keys ((j, v) ∷ m)) (keys-has ((j, v) ∷ m))
        (λ e. ground (arith, e))
