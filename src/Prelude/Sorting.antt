-- ===== src/Prelude/Sorting.antt =====
-- sort.SliceStable and sort.Strings: a stable sort by a strict order, by insertion.
use mathlib.Core.Path.{◌≡◌, refl}
use mathlib.Core.Logic.{◌≢◌, inl, inr}
use mathlib.Core.Bool.{Bool, true, false}
use mathlib.Core.List.{List, [], ◌∷◌, Perm}
use mathlib.Core.List.Perm
use native.Mathlib.Omega.{arith}
use surql_go.Prelude.Tests.{if◌then◌else◌, Bool-cases}
use surql_go.Prelude.Text.{Str, str_ltb, str_lt_asym, str_not_lt_trans}

module _ {ℓ} {A : Type ℓ} (less : A → A → Bool) where
  unfoldable pub insert_by : A → List A → List A
  insert_by x [] = x ∷ []
  insert_by x (y ∷ ys) = if less y x then y ∷ insert_by x ys else x ∷ y ∷ ys

  unfoldable pub sort_by : List A → List A
  unfolding insert_by
  sort_by [] = []
  sort_by (x ∷ xs) = insert_by x (sort_by xs)

  -- A strict order whose negation is transitive
  pub record IsWeakOrder : Type ℓ where
    pub asym : (a b : A) → less a b ≡ true → less b a ≡ false
    pub trans : (a b c : A) → less b a ≡ false → less c b ≡ false → less c a ≡ false

  -- No element is below x.
  abbrev pub NoneBelow : A → List A → Type 0
  NoneBelow x [] = Unit
  NoneBelow x (y ∷ ys) = (less y x ≡ false) × NoneBelow x ys

  abbrev pub IsSortedBy : List A → Type 0
  IsSortedBy [] = Unit
  IsSortedBy (x ∷ xs) = NoneBelow x xs × IsSortedBy xs

  insert_by-Perm : (x : A) (l : List A) → Perm (insert_by x l) (x ∷ l)
  unfolding insert_by
  insert_by-Perm x [] = Perm.refl _
  insert_by-Perm x (y ∷ ys) = elim (Bool-cases (less y x)) [
    | inl p ↦ rw p (Perm.trans (Perm.cons y (insert_by-Perm x ys)) (Perm.swap x y ys))
    | inr p ↦ rw p (Perm.refl _)
  ]

  pub sort_by-Perm : (l : List A) → Perm (sort_by l) l
  unfolding sort_by
  sort_by-Perm [] = Perm.refl _
  sort_by-Perm (x ∷ xs) = Perm.trans (insert_by-Perm x (sort_by xs)) (Perm.cons x (sort_by-Perm xs))

  NoneBelow-insert_by :
      (a x : A) (l : List A) → less x a ≡ false → NoneBelow a l → NoneBelow a (insert_by x l)
  unfolding insert_by
  NoneBelow-insert_by a x [] h n = (h, tt)
  NoneBelow-insert_by a x (y ∷ ys) h n = elim (Bool-cases (less y x)) [
    | inl p ↦ rw p (n.0, NoneBelow-insert_by a x ys h n.1)
    | inr p ↦ rw p (h, n)
  ]

  NoneBelow-trans :
      IsWeakOrder → (a b : A) (l : List A) → less b a ≡ false → NoneBelow b l → NoneBelow a l
  NoneBelow-trans w a b [] h n = tt
  NoneBelow-trans w a b (y ∷ ys) h n = (w.trans a b y h n.0, NoneBelow-trans w a b ys h n.1)

  insert_by-IsSortedBy :
      IsWeakOrder → (x : A) (l : List A) → IsSortedBy l → IsSortedBy (insert_by x l)
  unfolding insert_by
  insert_by-IsSortedBy w x [] s = (tt, tt)
  insert_by-IsSortedBy w x (y ∷ ys) s = elim (Bool-cases (less y x)) [
    | inl p ↦ rw p (NoneBelow-insert_by y x ys (w.asym y x p) s.0, insert_by-IsSortedBy w x ys s.1)
    | inr p ↦ rw p ((p, NoneBelow-trans w x y ys p s.0), s)
  ]

  pub sort_by-IsSortedBy : IsWeakOrder → (l : List A) → IsSortedBy (sort_by l)
  unfolding sort_by
  sort_by-IsSortedBy w [] = tt
  sort_by-IsSortedBy w (x ∷ xs) = insert_by-IsSortedBy w x (sort_by xs) (sort_by-IsSortedBy w xs)

  insert_by-cons : (x : A) (l : List A) → insert_by x l ≢ []
  unfolding insert_by
  insert_by-cons x [] = λ h. ground (arith, h)
  insert_by-cons x (y ∷ ys) = λ h. ground (arith, h)

  pub sort_by-nil : (l : List A) → sort_by l ≡ [] → l ≡ []
  unfolding sort_by
  sort_by-nil [] h = refl
  sort_by-nil (x ∷ xs) h = absurd (insert_by-cons x (sort_by xs) h)

-- Strings order what has a string for a key.
pub by_key-IsWeakOrder {ℓ} :
    {A : Type ℓ} (key : A → Str) → IsWeakOrder (λ a b. str_ltb (key a) (key b))
by_key-IsWeakOrder key = record {
  asym = λ a b h. str_lt_asym (key a) (key b) h;
  trans = λ a b c p q. str_not_lt_trans (key a) (key b) (key c) p q;
}
