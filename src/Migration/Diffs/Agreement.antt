-- ===== src/Migration/Diffs/Agreement.antt =====
-- When the shared loops of diff.go find nothing: both lists agree on every name.
use surql_go.Prelude.{
  ◌≡◌, ◌≢◌, ◌↔◌, inl, inr, refl, true, false, Option-cases, Option, none, some, List, [], arith,
  Str, has_key, Every, Every-map, Every-contains, Every-of_contains, contains,
}
use surql_go.Errors.{Result, ok}
use surql_go.Migration.Diffs.{
  SchemaDiff, collect, index_by, added_dropped, common, value_at, modified, diff_named,
}
use surql_go.Migration.Diffs.Named.{
  >>=-nil, Silent, collect-nil, last_named, lookup-last, found, has_key-last, Every-last,
  Every-found, contains-common,
}

-- Both are absent, or both are there and related.
abbrev pub Agree {ℓ} : {A : Type ℓ} → (A → A → Type 0) → Option A → Option A → Type 0
Agree R none none = Unit
Agree R none (some b) = ⊥
Agree R (some a) none = ⊥
Agree R (some a) (some b) = R a b

module _ {ℓ} {A : Type ℓ} (name : A → Str) (add drop : A → Result (List SchemaDiff))
    (adds : (a : A) → add a ≢ ok []) (drops : (a : A) → drop a ≢ ok []) (olds news : List A) where
  -- No element of one list lacks in the other.
  lacks_none :
      (make : A → Result (List SchemaDiff)) (xs ys : List A) (n : Str)
      → ((a : A) → make a ≢ ok [])
      → Every (Silent (λ a. has_key (name a) (index_by name [] xs)) make) ys
      → found (last_named name n ys) ≡ true
      → found (last_named name n xs) ≡ true
  lacks_none make xs ys n makes all there = elim (Option-cases (last_named name n ys)) [
    | inl never ↦ absurd (ground (arith, never, there))
    | inr (y, e) ↦
        let (silent, named) =
          Every-last name (Silent (λ a. has_key (name a) (index_by name [] xs)) make) n ys y all
            e in
        elim silent [
          | inl present ↦ rw (← named) (ground (arith, present, has_key-last name (name y) xs))
          | inr nothing ↦ absurd (makes y nothing)
        ]
  ]

  Silent-if :
      (make : A → Result (List SchemaDiff)) (xs ys : List A)
      → ((n : Str) → found (last_named name n ys) ≡ true → found (last_named name n xs) ≡ true)
      → Every (Silent (λ a. has_key (name a) (index_by name [] xs)) make) ys
  Silent-if make xs ys h =
      Every-map (λ y. found (last_named name (name y) ys) ≡ true)
        (Silent (λ a. has_key (name a) (index_by name [] xs)) make)
        (λ y there. inl (ground (arith, has_key-last name (name y) xs, h (name y) there))) ys
        (Every-found name ys)

  pub added_dropped-nil :
      (added_dropped name add drop olds news ≡ ok [])
      ↔ ((n : Str) → found (last_named name n olds) ≡ found (last_named name n news))
  unfolding added_dropped
  added_dropped-nil =
      let split =
        >>=-nil (collect (λ a. has_key (name a) (index_by name [] olds)) add news)
          (collect (λ a. has_key (name a) (index_by name [] news)) drop olds) in
      (
        λ h n.
            let both = split.0 h in
            ground (
              arith,
              lacks_none add olds news n adds ((collect-nil _ _ news).0 both.0),
              lacks_none drop news olds n drops ((collect-nil _ _ olds).0 both.1),
            ),
        λ h. split.1 (
          (collect-nil _ _ news).1 (Silent-if add olds news (λ n there. ground (arith, h n))),
          (collect-nil _ _ olds).1 (Silent-if drop news olds (λ n there. ground (arith, h n))),
        ),
      )

module _ {ℓ} {A : Type ℓ} (name : A → Str) (zero_value : A)
    (modify : A → A → Result (List SchemaDiff)) (olds news : List A) where
  value_at-last :
      (k : Str) (xs : List A) (a : A)
      → last_named name k xs ≡ some a
      → value_at name zero_value (index_by name [] xs) k ≡ a
  unfolding value_at
  value_at-last k xs a e = ground (arith, lookup-last name k xs, e)

  abbrev pair_of : Str → Result (List SchemaDiff)
  pair_of k =
      modify (value_at name zero_value (index_by name [] olds) k)
        (value_at name zero_value (index_by name [] news) k)

  silent_at :
      (k : Str)
      → contains k (common name (index_by name [] olds) (index_by name [] news)) ≡ true
      → ((n : Str) (a b : A)
          → last_named name n olds ≡ some a
          → last_named name n news ≡ some b
          → modify a b ≡ ok [])
      → pair_of k ≡ ok []
  silent_at k m h = elim (Option-cases (last_named name k olds)) [
    | inl never ↦ absurd (ground (arith, contains-common name k olds news, m, never))
    | inr (a, at_old) ↦ elim (Option-cases (last_named name k news)) [
      | inl never ↦ absurd (ground (arith, contains-common name k olds news, m, never))
      | inr (b, at_new) ↦
          rw (value_at-last k olds a at_old, value_at-last k news b at_new) (h k a b at_old at_new)
    ]
  ]

  abbrev shared : List Str
  shared = common name (index_by name [] olds) (index_by name [] news)

  pub modified-nil : (modified name zero_value modify olds news ≡ ok []) ↔ (
      (n : Str) (a b : A)
      → last_named name n olds ≡ some a
      → last_named name n news ≡ some b
      → modify a b ≡ ok [])
  unfolding modified
  modified-nil = (
    λ h n a b at_old at_new.
        let all = (collect-nil (λ k. false) pair_of shared).0 h in
        let at_n =
          Every-contains (Silent (λ k. false) pair_of) n shared all
            (ground (arith, contains-common name n olds news, at_old, at_new)) in
        elim at_n [
          | inl never ↦ absurd (ground (arith, never))
          | inr silent ↦
              rw (← value_at-last n olds a at_old) (rw (← value_at-last n news b at_new) silent)
        ],
    λ h.
        (collect-nil (λ k. false) pair_of shared).1
          (Every-of_contains (Silent (λ k. false) pair_of) shared (λ k m. inr (silent_at k m h))),
  )

module _ {ℓ} {A : Type ℓ} (name : A → Str) (zero_value : A)
    (add drop : A → Result (List SchemaDiff)) (modify : A → A → Result (List SchemaDiff))
    (adds : (a : A) → add a ≢ ok []) (drops : (a : A) → drop a ≢ ok []) (olds news : List A) where
  Agree-at :
      (a b : Option A)
      → found a ≡ found b
      → ((x y : A) → a ≡ some x → b ≡ some y → modify x y ≡ ok [])
      → Agree (λ x y. modify x y ≡ ok []) a b
  Agree-at none none same h = tt
  Agree-at none (some y) same h = absurd (ground (arith, same))
  Agree-at (some x) none same h = absurd (ground (arith, same))
  Agree-at (some x) (some y) same h = h x y refl refl

  found_at : (a b : Option A) → Agree (λ x y. modify x y ≡ ok []) a b → found a ≡ found b
  found_at none none h = refl
  found_at none (some y) h = absurd h
  found_at (some x) none h = absurd h
  found_at (some x) (some y) h = refl

  silent_at_both :
      (a b : Option A) (x y : A)
      → Agree (λ x y. modify x y ≡ ok []) a b
      → a ≡ some x
      → b ≡ some y
      → modify x y ≡ ok []
  silent_at_both a b x y h at_old at_new = rw (at_old, at_new) at h

  pub diff_named-nil : (diff_named name zero_value add drop modify olds news ≡ ok []) ↔ (
      (n : Str)
      → Agree (λ a b. modify a b ≡ ok []) (last_named name n olds) (last_named name n news))
  unfolding diff_named
  diff_named-nil =
      let split =
        >>=-nil (added_dropped name add drop olds news)
          (modified name zero_value modify olds news) in
      let names = added_dropped-nil name add drop adds drops olds news in
      let pairs = modified-nil name zero_value modify olds news in
      (
        λ h n.
            let both = split.0 h in
            Agree-at (last_named name n olds) (last_named name n news) (names.0 both.0 n)
              (pairs.0 both.1 n),
        λ h. split.1 (
          names.1 (λ n. found_at _ _ (h n)),
          pairs.1 (λ n a b at_old at_new. silent_at_both _ _ a b (h n) at_old at_new),
        ),
      )
