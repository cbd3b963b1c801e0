-- ===== src/Schema/Drift/Columns.antt =====
-- When sortedSliceEqual of pkg/surql/schema/validator.go holds, without the sort.
use surql_go.Prelude.{
  ℕ, suc, ◌≤◌, ◌≡◌, ◌↔◌, refl, sym, ap, ◌∙◌, true, false, if◌then◌else◌, Bool-cases, inl, inr, List,
  [], ◌∷◌, arith, length, Str, str_eq, str_ltb, str_eq_iff, str_eq_refl, str_lt_asym, str_lt_irrefl,
  str_lt_connected, str_not_lt_trans, insert_by, sort_by, NoneBelow, IsSortedBy, IsWeakOrder,
  sort_by-IsSortedBy,
}
use surql_go.Schema.Drift.{equal_texts, sorted_slice_equal}

-- How often a text stands in a list
abbrev pub occurrences : Str → List Str → ℕ
occurrences c [] = 0
occurrences c (x ∷ xs) = if str_eq x c then suc (occurrences c xs) else occurrences c xs

-- Two lists hold the same texts, each as often, in any order.
abbrev pub AreRearranged : List Str → List Str → Type 0
AreRearranged xs ys = (c : Str) → occurrences c xs ≡ occurrences c ys

occurrences-insert_by :
    (c x : Str) (l : List Str) → occurrences c (insert_by str_ltb x l) ≡ occurrences c (x ∷ l)
unfolding insert_by
occurrences-insert_by c x [] = refl
occurrences-insert_by c x (y ∷ ys) = ground (arith, occurrences-insert_by c x ys)

occurrences-sort_by : (c : Str) (l : List Str) → occurrences c (sort_by str_ltb l) ≡ occurrences c l
unfolding sort_by
occurrences-sort_by c [] = refl
occurrences-sort_by c (x ∷ xs) =
    ground (arith, occurrences-insert_by c x (sort_by str_ltb xs), occurrences-sort_by c xs)

str_ltb-IsWeakOrder : IsWeakOrder str_ltb
str_ltb-IsWeakOrder = record { asym = str_lt_asym; trans = str_not_lt_trans }

sorted_texts : (l : List Str) → IsSortedBy str_ltb (sort_by str_ltb l)
sorted_texts l = sort_by-IsSortedBy str_ltb str_ltb-IsWeakOrder l

-- A text that occurs is not below one that none is below.
not_below :
    (x c : Str) (l : List Str) → NoneBelow str_ltb x l → 1 ≤ occurrences c l → str_ltb c x ≡ false
not_below x c [] n h = absurd (omega arith)
not_below x c (y ∷ ys) n h = elim (Bool-cases (str_eq y c)) [
  | inl p ↦ rw (← (str_eq_iff y c).0 p) n.0
  | inr p ↦ not_below x c ys n.1 (ground arith)
]

-- The first of a sorted list is not above what occurs in it.
head_least :
    (x c : Str) (xs : List Str)
    → IsSortedBy str_ltb (x ∷ xs)
    → 1 ≤ occurrences c (x ∷ xs)
    → str_ltb c x ≡ false
head_least x c xs s h = elim (Bool-cases (str_eq x c)) [
  | inl p ↦ rw (← (str_eq_iff x c).0 p) (str_lt_irrefl x)
  | inr p ↦ not_below x c xs s.0 (ground arith)
]

sorted_unique :
    (xs ys : List Str)
    → IsSortedBy str_ltb xs
    → IsSortedBy str_ltb ys
    → AreRearranged xs ys
    → xs ≡ ys
sorted_unique [] [] s t h = refl
sorted_unique [] (y ∷ ys) s t h = absurd (ground (arith, h y, str_eq_refl y))
sorted_unique (x ∷ xs) [] s t h = absurd (ground (arith, h x, str_eq_refl x))
sorted_unique (x ∷ xs) (y ∷ ys) s t h =
    let y_there : 1 ≤ occurrences y (x ∷ xs) = ground (arith, h y, str_eq_refl y) in
    let x_there : 1 ≤ occurrences x (y ∷ ys) = ground (arith, h x, str_eq_refl x) in
    let same : x ≡ y =
      str_lt_connected x y (head_least y x ys t x_there) (head_least x y xs s y_there) in
    let rest = sorted_unique xs ys s.1 t.1 (λ c. ground (arith, h c)) in rw (same, rest) refl

equal_texts_iff : (xs ys : List Str) → (equal_texts xs ys ≡ true) ↔ (xs ≡ ys)
equal_texts_iff [] [] = (λ h. refl, λ h. refl)
equal_texts_iff [] (y ∷ ys) = (λ h. absurd (ground (arith, h)), λ h. absurd (ground (arith, h)))
equal_texts_iff (x ∷ xs) [] = (λ h. absurd (ground (arith, h)), λ h. absurd (ground (arith, h)))
equal_texts_iff (x ∷ xs) (y ∷ ys) = ground (arith, str_eq_iff x y, equal_texts_iff xs ys)

length-insert_by : (x : Str) (l : List Str) → length (insert_by str_ltb x l) ≡ suc (length l)
unfolding insert_by
length-insert_by x [] = refl
length-insert_by x (y ∷ ys) = ground (arith, length-insert_by x ys)

length-sort_by : (l : List Str) → length (sort_by str_ltb l) ≡ length l
unfolding sort_by
length-sort_by [] = refl
length-sort_by (x ∷ xs) = length-insert_by x (sort_by str_ltb xs) ∙ ap suc (length-sort_by xs)

-- sortedSliceEqual holds exactly between rearranged slices.
pub sorted_slice_equal_iff : (a b : List Str) → (sorted_slice_equal a b ≡ true) ↔ AreRearranged a b
unfolding sorted_slice_equal
sorted_slice_equal_iff a b =
    let sorts = equal_texts_iff (sort_by str_ltb a) (sort_by str_ltb b) in
    (
      λ h c.
          let same : sort_by str_ltb a ≡ sort_by str_ltb b = ground arith in
          sym (occurrences-sort_by c a) ∙ ap (occurrences c) same ∙ occurrences-sort_by c b,
      λ h.
          let same : sort_by str_ltb a ≡ sort_by str_ltb b =
            sorted_unique _ _ (sorted_texts a) (sorted_texts b)
              (λ c. occurrences-sort_by c a ∙ h c ∙ sym (occurrences-sort_by c b)) in
          let long : length a ≡ length b =
            sym (length-sort_by a) ∙ ap length same ∙ length-sort_by b in
          ground arith,
    )
