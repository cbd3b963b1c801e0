-- ===== src/Prelude/Members.antt =====
-- Members of lists: a predicate of every element, and the membership test of lists of strings under
-- the operations that select and sort.
use mathlib.Core.Path.{◌≡◌, refl}
use mathlib.Core.Logic.{inl, inr}
use mathlib.Core.Bool.{Bool, true, ◌&&◌, ◌||◌}
use mathlib.Core.List.{List, [], ◌∷◌}
use native.Mathlib.Omega.{arith}
use surql_go.Prelude.Tests.{Bool-cases}
use surql_go.Prelude.Lists.{select}
use surql_go.Prelude.Text.{Str, str_eq, str_eq_iff, str_eq_refl, contains}
use surql_go.Prelude.Maps.{GoMap, lookup, keys, has_key}
use surql_go.Prelude.Sorting.{insert_by, sort_by}

abbrev pub Every {ℓ κ} : {A : Type ℓ} → (A → Type κ) → List A → Type κ
Every P [] = Unit
Every P (x ∷ xs) = P x × Every P xs

pub Every-map {ℓ κ} :
    {A : Type ℓ} (P Q : A → Type κ)
    → ((a : A) → P a → Q a)
    → (xs : List A) → Every P xs
    → Every Q xs
Every-map P Q f [] ps = tt
Every-map P Q f (x ∷ xs) ps = (f x ps.0, Every-map P Q f xs ps.1)

pub Every-contains {κ} :
    (P : Str → Type κ) (k : Str) (ks : List Str) → Every P ks → contains k ks ≡ true → P k
unfolding contains
Every-contains P k [] ps m = absurd (ground (arith, m))
Every-contains P k (x ∷ ks) ps m = elim (Bool-cases (str_eq x k)) [
  | inl same ↦ rw (← (str_eq_iff x k).0 same) ps.0
  | inr other ↦ Every-contains P k ks ps.1 (ground arith)
]

pub Every-of_contains {κ} :
    (P : Str → Type κ) (ks : List Str) → ((k : Str) → contains k ks ≡ true → P k) → Every P ks
unfolding contains
Every-of_contains P [] f = tt
Every-of_contains P (x ∷ ks) f =
    (f x (ground (arith, str_eq_refl x)), Every-of_contains P ks (λ k m. f k (ground (arith, m))))

pub contains-select :
    (k : Str) (f : Str → Bool) (ks : List Str) → contains k (select f ks) ≡ (contains k ks && f k)
unfolding contains
contains-select k f [] = refl
contains-select k f (x ∷ ks) = elim (Bool-cases (str_eq x k)) [
  | inl same ↦
      rw (← (str_eq_iff x k).0 same) (ground (arith, str_eq_refl x, contains-select x f ks))
  | inr other ↦ ground (arith, contains-select k f ks)
]

contains-insert_by :
    (less : Str → Str → Bool) (k x : Str) (ks : List Str)
    → contains k (insert_by less x ks) ≡ (str_eq x k || contains k ks)
unfolding contains insert_by
contains-insert_by less k x [] = ground arith
contains-insert_by less k x (y ∷ ks) = ground (arith, contains-insert_by less k x ks)

pub contains-sort_by :
    (less : Str → Str → Bool) (k : Str) (ks : List Str)
    → contains k (sort_by less ks) ≡ contains k ks
unfolding contains sort_by
contains-sort_by less k [] = refl
contains-sort_by less k (x ∷ ks) =
    ground (arith, contains-insert_by less k x (sort_by less ks), contains-sort_by less k ks)

pub contains-keys {ℓ} : {V : Type ℓ} (k : Str) (m : GoMap V) → contains k (keys m) ≡ has_key k m
unfolding contains keys lookup
contains-keys k [] = refl
contains-keys k ((j, v) ∷ m) = ground (arith, contains-keys k m)
