-- ===== src/Query/Hints/Merging.antt =====
-- MergeHints of hints.go: one hint of each type.
use surql_go.Prelude.{
  ℕ, ◌==◌, if◌then◌else◌, ◌≡◌, refl, sym, ◌∙◌, ap, ==_iff, inl, inr, true, false, Bool-cases,
  Option, none, some, List, [], ◌∷◌, arith,
}
use surql_go.Query.Hints.{
  HintType, index, parallel, timeout, fetch, explain, QueryHint, hint_type, type_code, same_type,
  put_hint, merge_loop, merge_hints,
}

decode : ℕ → HintType
decode n =
    if n == 0
    then index
    else if n == 1
    then parallel
    else if n == 2
    then timeout
    else if n == 3
    then fetch
    else explain

decode-type_code : (t : HintType) → decode (type_code t) ≡ t
unfolding decode
decode-type_code index = refl
decode-type_code parallel = refl
decode-type_code timeout = refl
decode-type_code fetch = refl
decode-type_code explain = refl

same_type_eq : (a b : HintType) → same_type a b ≡ true → a ≡ b
unfolding same_type
same_type_eq a b h =
    sym (decode-type_code a)
    ∙ (ap decode ((==_iff (type_code a) (type_code b)).0 h) ∙ decode-type_code b)

same_type_refl : (a : HintType) → same_type a a ≡ true
unfolding same_type
same_type_refl a = (==_iff (type_code a) (type_code a)).1 refl

-- The first and the last hint of a type
abbrev pub first_of : HintType → List QueryHint → Option QueryHint
first_of t [] = none
first_of t (h ∷ hs) = if same_type (hint_type h) t then some h else first_of t hs

abbrev pub last_of : HintType → List QueryHint → Option QueryHint
last_of t [] = none
last_of t (h ∷ hs) = elim (last_of t hs) [
  | some g ↦ some g
  | none ↦ if same_type (hint_type h) t then some h else none
]

-- No two hints of one type
abbrev pub AreDistinct : List QueryHint → Type 0
AreDistinct [] = Unit
AreDistinct (h ∷ hs) = (first_of (hint_type h) hs ≡ none) × AreDistinct hs

-- What is of one type is not of another.
differ : (a b t : HintType) → same_type a b ≡ false → same_type a t ≡ true → same_type b t ≡ false
differ a b t other is_a = elim (Bool-cases (same_type b t)) [
  | inr no_b ↦ no_b
  | inl is_b ↦
      absurd (ground (arith, other, same_type_refl b, same_type_eq a t is_a, same_type_eq b t is_b))
]

first_of-put_hint :
    (t : HintType) (h : QueryHint) (out : List QueryHint)
    → first_of t (put_hint h out) ≡ (if same_type (hint_type h) t then some h else first_of t out)
unfolding put_hint
first_of-put_hint t h [] = refl
first_of-put_hint t h (g ∷ out) = elim (Bool-cases (same_type (hint_type g) (hint_type h))) [
  | inl same ↦
      let e = same_type_eq (hint_type g) (hint_type h) same in
      rw (same, put_hint) (rw e (ground arith))
  | inr other ↦
      rw (other, put_hint)
        (elim (Bool-cases (same_type (hint_type g) t)) [
          | inr no_g ↦ rw no_g (first_of-put_hint t h out)
          | inl is_g ↦
              let apart : same_type (hint_type h) t ≡ false =
                differ (hint_type g) (hint_type h) t other is_g in
              rw (is_g, apart) refl
        ])
]

put_hint-AreDistinct :
    (h : QueryHint) (out : List QueryHint) → AreDistinct out → AreDistinct (put_hint h out)
unfolding put_hint
put_hint-AreDistinct h [] d = (refl, tt)
put_hint-AreDistinct h (g ∷ out) d = elim (Bool-cases (same_type (hint_type g) (hint_type h))) [
  | inl same ↦ rw (same, put_hint) (rw (← same_type_eq (hint_type g) (hint_type h) same) d.0, d.1)
  | inr other ↦
      rw (other, put_hint)
        (
          ground (
            arith,
            first_of-put_hint (hint_type g) h out,
            d.0,
            differ (hint_type g) (hint_type h) (hint_type g) other (same_type_refl (hint_type g)),
          ),
          put_hint-AreDistinct h out d.1,
        )
]

first_of-merge_loop :
    (t : HintType) (out hs : List QueryHint)
    → first_of t (merge_loop out hs)
      ≡ elim (last_of t hs) [ some g ↦ some g | none ↦ first_of t out ]
unfolding merge_loop
first_of-merge_loop t out [] = refl
first_of-merge_loop t out (h ∷ hs) =
    ground (arith, first_of-merge_loop t (put_hint h out) hs, first_of-put_hint t h out)

merge_loop-AreDistinct :
    (out hs : List QueryHint) → AreDistinct out → AreDistinct (merge_loop out hs)
unfolding merge_loop
merge_loop-AreDistinct out [] d = d
merge_loop-AreDistinct out (h ∷ hs) d =
    merge_loop-AreDistinct (put_hint h out) hs (put_hint-AreDistinct h out d)

-- MergeHints keeps at most one hint of each type, the last one of that type if there is one.
pub merge_hints_lem :
    (hs : List QueryHint)
    → AreDistinct (merge_hints hs) × ((t : HintType) → first_of t (merge_hints hs) ≡ last_of t hs)
unfolding merge_hints
merge_hints_lem hs =
    (merge_loop-AreDistinct [] hs tt, λ t. ground (arith, first_of-merge_loop t [] hs))
