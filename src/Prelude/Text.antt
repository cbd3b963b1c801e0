-- ===== src/Prelude/Text.antt =====
-- Go strings as sequences of bytes: equality, the byte order of `<`, prefixes and joins.
use Prim.Native.Char.{code}
use Prim.Native.Nat.{ℕ, compare, Ordering}
use Prim.Native.String.{String}
use mathlib.Core.Path.{◌≡◌, refl}
use mathlib.Core.Logic.{◌↔◌, inl, inr}
use mathlib.Core.Bool.{Bool, true, false, ◌&&◌, ◌||◌}
use mathlib.Core.List.{List, [], ◌∷◌, ◌++◌}
use native.Mathlib.Omega.{arith}
use surql_go.Prelude.Tests.{◌==◌, leb, if◌then◌else◌, Bool-cases}

abbrev pub Str : Type 0
Str = List ℕ

-- The bytes of a literal (all literals of the model are ASCII).
abbrev pub bytes : String → Str
bytes String.[] = []
bytes (String.◌∷◌ c s) = code c ∷ bytes s

unfoldable pub str_eq : Str → Str → Bool
str_eq [] [] = true
str_eq [] (y ∷ ys) = false
str_eq (x ∷ xs) [] = false
str_eq (x ∷ xs) (y ∷ ys) = x == y && str_eq xs ys

pub str_eq_iff : (s t : Str) → (str_eq s t ≡ true) ↔ (s ≡ t)
unfolding str_eq
str_eq_iff [] [] = ground arith
str_eq_iff [] (y ∷ ys) = ground arith
str_eq_iff (x ∷ xs) [] = ground arith
str_eq_iff (x ∷ xs) (y ∷ ys) = ground (arith, str_eq_iff xs ys)

pub str_eq_refl : (s : Str) → str_eq s s ≡ true
str_eq_refl s = (str_eq_iff s s).1 refl

pub str_eq_sym : (s t : Str) → str_eq s t ≡ str_eq t s
unfolding str_eq
str_eq_sym [] [] = refl
str_eq_sym [] (y ∷ ys) = refl
str_eq_sym (x ∷ xs) [] = refl
str_eq_sym (x ∷ xs) (y ∷ ys) = ground (arith, str_eq_sym xs ys)

-- Go's `s < t`: lexicographic on bytes.
unfoldable pub str_ltb : Str → Str → Bool
str_ltb [] [] = false
str_ltb [] (y ∷ ys) = true
str_ltb (x ∷ xs) [] = false
str_ltb (x ∷ xs) (y ∷ ys) = elim (compare x y) [
  | Ordering.lt ↦ true
  | Ordering.eq ↦ str_ltb xs ys
  | Ordering.gt ↦ false
]

pub str_lt_irrefl : (s : Str) → str_ltb s s ≡ false
unfolding str_ltb
str_lt_irrefl [] = refl
str_lt_irrefl (x ∷ xs) = ground (arith, str_lt_irrefl xs)

pub str_lt_trans : (s t u : Str) → str_ltb s t ≡ true → str_ltb t u ≡ true → str_ltb s u ≡ true
unfolding str_ltb
str_lt_trans [] [] u p q = ground arith
str_lt_trans [] (y ∷ ys) [] p q = ground arith
str_lt_trans [] (y ∷ ys) (z ∷ zs) p q = refl
str_lt_trans (x ∷ xs) [] u p q = ground arith
str_lt_trans (x ∷ xs) (y ∷ ys) [] p q = ground arith
str_lt_trans (x ∷ xs) (y ∷ ys) (z ∷ zs) p q = ground (arith, str_lt_trans xs ys zs)

pub str_lt_asym : (s t : Str) → str_ltb s t ≡ true → str_ltb t s ≡ false
unfolding str_ltb
str_lt_asym [] [] p = refl
str_lt_asym [] (y ∷ ys) p = refl
str_lt_asym (x ∷ xs) [] p = ground arith
str_lt_asym (x ∷ xs) (y ∷ ys) p = ground (arith, str_lt_asym xs ys)

-- Two strings of which neither is below the other are equal.
pub str_lt_connected : (s t : Str) → str_ltb s t ≡ false → str_ltb t s ≡ false → s ≡ t
unfolding str_ltb
str_lt_connected [] [] p q = refl
str_lt_connected [] (y ∷ ys) p q = ground arith
str_lt_connected (x ∷ xs) [] p q = ground arith
str_lt_connected (x ∷ xs) (y ∷ ys) p q = ground (arith, str_lt_connected xs ys)

-- strings.HasPrefix(s, p)
unfoldable pub has_prefix : Str → Str → Bool
has_prefix s [] = true
has_prefix [] (y ∷ p) = false
has_prefix (x ∷ s) (y ∷ p) = x == y && has_prefix s p

pub has_prefix-append : (p s : Str) → has_prefix (p ++ s) p ≡ true
unfolding has_prefix
has_prefix-append [] [] = refl
has_prefix-append [] (x ∷ s) = refl
has_prefix-append (x ∷ p) s = ground (arith, has_prefix-append p s)

-- strings.Join(parts, sep)
unfoldable pub join : List Str → Str → Str
join [] sep = []
join (x ∷ []) sep = x
join (x ∷ y ∷ ys) sep = x ++ (sep ++ join (y ∷ ys) sep)

pub str_not_lt_trans :
    (s t u : Str) → str_ltb t s ≡ false → str_ltb u t ≡ false → str_ltb u s ≡ false
str_not_lt_trans s t u p q = elim (Bool-cases (str_ltb u s)) [
  | inr r ↦ r
  | inl r ↦ elim (Bool-cases (str_ltb s t)) [
    | inl l ↦ absurd (ground (arith, str_lt_trans u s t r l))
    | inr l ↦ ground (arith, str_lt_connected s t l p)
  ]
]

abbrev pub is_empty : Str → Bool
is_empty [] = true
is_empty (c ∷ s) = false

unfoldable pub contains : Str → List Str → Bool
contains k [] = false
contains k (x ∷ xs) = if str_eq x k then true else contains k xs

-- strings.HasSuffix(s, p)
unfoldable pub has_suffix : Str → Str → Bool
unfolding str_eq
has_suffix [] p = str_eq [] p
has_suffix (c ∷ s) p = str_eq (c ∷ s) p || has_suffix s p

-- strings.Contains(s, p)
unfoldable pub has_substring : Str → Str → Bool
unfolding has_prefix
has_substring [] p = has_prefix [] p
has_substring (c ∷ s) p = has_prefix (c ∷ s) p || has_substring s p

-- strings.Split(s, string(sep)) at a separator of one byte
unfoldable pub split : ℕ → Str → List Str
split sep [] = [] ∷ []
split sep (c ∷ s) =
    if c == sep
    then [] ∷ split sep s
    else elim (split sep s) [ [] ↦ (c ∷ []) ∷ [] | w ∷ ws ↦ (c ∷ w) ∷ ws ]

abbrev pub is_alpha : ℕ → Bool
is_alpha c = (leb b'a' c && leb c b'z') || (leb b'A' c && leb c b'Z') || c == b'_'

abbrev pub is_word : ℕ → Bool
is_word c = is_alpha c || (leb b'0' c && leb c b'9')

abbrev pub all_word : Str → Bool
all_word [] = true
all_word (c ∷ s) = is_word c && all_word s

-- ^[a-zA-Z_][a-zA-Z0-9_]*$
unfoldable pub is_identifier : Str → Bool
is_identifier [] = false
is_identifier (c ∷ s) = is_alpha c && all_word s
