-- ===== src/Migration/Versions/Slices.antt =====
-- insertSorted and removeFromSlice of versioning.go on strictly sorted slices.
use surql_go.Prelude.{
  contains, ◌≡◌, ◌≢◌, refl, if◌then◌else◌, inl, inr, true, false, List, [], ◌∷◌, arith, Bool-cases,
  Str, str_eq, str_ltb, str_eq_iff, str_lt_irrefl, str_lt_trans, str_lt_connected,
}
use surql_go.Migration.Versions.{is_empty, insert_sorted, remove_from_slice}

-- Every element of a slice is above a string.
abbrev pub Above : Str → List Str → Type 0
Above v [] = Unit
Above v (x ∷ xs) = (str_ltb v x ≡ true) × Above v xs

abbrev pub IsSorted : List Str → Type 0
IsSorted [] = Unit
IsSorted (x ∷ xs) = Above x xs × IsSorted xs

pub contains-insert_sorted :
    (c v : Str) (l : List Str)
    → contains c (insert_sorted l v) ≡ (if str_eq v c then true else contains c l)
unfolding contains insert_sorted
contains-insert_sorted c v [] = refl
contains-insert_sorted c v (x ∷ xs) =
    ground (arith, str_eq_iff x v, str_eq_iff x c, str_eq_iff v c, contains-insert_sorted c v xs)

Above-insert_sorted :
    (u v : Str) (l : List Str) → str_ltb u v ≡ true → Above u l → Above u (insert_sorted l v)
unfolding insert_sorted
Above-insert_sorted u v [] p a = (p, tt)
Above-insert_sorted u v (x ∷ xs) p a = elim (Bool-cases (str_ltb x v)) [
  | inl below ↦ rw below (a.0, Above-insert_sorted u v xs p a.1)
  | inr not_below ↦ elim (Bool-cases (str_eq x v)) [
    | inl same ↦ rw (not_below, same) a
    | inr apart ↦ rw (not_below, apart) (p, a)
  ]
]

Above-trans : (u v : Str) (l : List Str) → str_ltb u v ≡ true → Above v l → Above u l
Above-trans u v [] p a = tt
Above-trans u v (x ∷ xs) p a = (str_lt_trans u v x p a.0, Above-trans u v xs p a.1)

lt_of_not_lt : (v x : Str) → str_ltb x v ≡ false → str_eq x v ≡ false → str_ltb v x ≡ true
lt_of_not_lt v x p q = elim (Bool-cases (str_ltb v x)) [
  | inl above ↦ above
  | inr not_above ↦ absurd (ground (arith, str_eq_iff x v, str_lt_connected x v p not_above))
]

-- insertSorted keeps a slice strictly sorted, so it keeps its elements unique.
pub insert_sorted-IsSorted : (v : Str) (l : List Str) → IsSorted l → IsSorted (insert_sorted l v)
unfolding insert_sorted
insert_sorted-IsSorted v [] s = (tt, tt)
insert_sorted-IsSorted v (x ∷ xs) s = elim (Bool-cases (str_ltb x v)) [
  | inl below ↦ rw below (Above-insert_sorted x v xs below s.0, insert_sorted-IsSorted v xs s.1)
  | inr not_below ↦ elim (Bool-cases (str_eq x v)) [
    | inl same ↦ rw (not_below, same) s
    | inr apart ↦
        let above = lt_of_not_lt v x not_below apart in
        rw (not_below, apart) ((above, Above-trans v x xs above s.0), s)
  ]
]

contains-eq-false_of_Above : (v : Str) (l : List Str) → Above v l → contains v l ≡ false
unfolding contains
contains-eq-false_of_Above v [] a = refl
contains-eq-false_of_Above v (x ∷ xs) a =
    ground (arith, str_eq_iff x v, str_lt_irrefl v, contains-eq-false_of_Above v xs)

Above-remove : (u v : Str) (l : List Str) → Above u l → Above u (remove_from_slice l v)
unfolding remove_from_slice
Above-remove u v [] a = tt
Above-remove u v (x ∷ xs) a = elim (Bool-cases (str_eq x v)) [
  | inl same ↦ rw same a.1
  | inr apart ↦ rw apart (a.0, Above-remove u v xs a.1)
]

pub remove-IsSorted : (v : Str) (l : List Str) → IsSorted l → IsSorted (remove_from_slice l v)
unfolding remove_from_slice
remove-IsSorted v [] s = tt
remove-IsSorted v (x ∷ xs) s = elim (Bool-cases (str_eq x v)) [
  | inl same ↦ rw same s.1
  | inr apart ↦ rw apart (Above-remove x v xs s.0, remove-IsSorted v xs s.1)
]

pub contains-remove :
    (c v : Str) (l : List Str)
    → IsSorted l
    → contains c (remove_from_slice l v) ≡ (if str_eq v c then false else contains c l)
unfolding contains remove_from_slice
contains-remove c v [] s = ground arith
contains-remove c v (x ∷ xs) s = ground (
  arith,
  str_eq_iff x v,
  str_eq_iff x c,
  str_eq_iff v c,
  contains-remove c v xs,
  contains-eq-false_of_Above x xs,
)

pub is_empty-true : (s : Str) → is_empty s ≡ true → s ≡ []
is_empty-true [] h = refl
is_empty-true (x ∷ s) h = cc

pub is_empty-false : (s : Str) → is_empty s ≡ false → s ≢ []
is_empty-false [] h = cc
is_empty-false (x ∷ s) h = λ p. cc

pub is_empty_of_ne : (s : Str) → s ≢ [] → is_empty s ≡ false
is_empty_of_ne [] h = absurd (h refl)
is_empty_of_ne (x ∷ s) h = refl
