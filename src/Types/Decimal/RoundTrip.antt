-- ===== src/Types/Decimal/RoundTrip.antt =====
-- A number that is printed is read back.
use surql_go.Prelude.{
  ℕ, zero, suc, ◌+◌, ◌-◌, ◌*◌, ◌/◌, ◌%◌, ◌≤◌, ◌<◌, ◌≡◌, refl, sym, ◌∙◌, ap, Bool, true, false, ltb,
  if◌then◌else◌, Bool-cases, inl, inr, some, [], ◌∷◌, ◌++◌, arith, Str,
}
use surql_go.Prelude.Int.{ℤ, pos, negsuc}
use surql_go.Types.Decimal.{
  int64_limit, digits, format_nat, format_int, is_digit, read_digits, read_nat, within, parse_int,
}

abbrev pub all_digits : Str → Bool
all_digits [] = true
all_digits (c ∷ s) = if is_digit c then all_digits s else false

all_digits-append :
    (s : Str) (d : ℕ) → all_digits s ≡ true → is_digit d ≡ true → all_digits (s ++ d ∷ []) ≡ true
all_digits-append [] d h i = ground arith
all_digits-append (c ∷ s) d h i = ground (arith, all_digits-append s d)

read_digits-append :
    (s : Str) (d acc v : ℕ)
    → read_digits s acc ≡ some v
    → d < 10
    → read_digits (s ++ (48 + d) ∷ []) acc ≡ some (v * 10 + d)
unfolding read_digits
read_digits-append [] d acc v h lt = ground arith
read_digits-append (c ∷ s) d acc v h lt =
    ground (arith, read_digits-append s d (acc * 10 + (c - 48)) v)

digits-read : (fuel n : ℕ) → n < fuel → read_digits (digits fuel n) 0 ≡ some n
unfolding digits read_digits
digits-read zero n h = absurd (omega arith)
digits-read (suc fuel) n h = elim (Bool-cases (ltb n 10)) [
  | inl p ↦ ground arith
  | inr p ↦
      let big : 10 ≤ n = ground arith in
      let shorter = digits-read fuel (n / 10) (omega arith) in
      let whole : n / 10 * 10 + n % 10 ≡ n = omega arith in
      rw (p, digits)
        (read_digits-append (digits fuel (n / 10)) (n % 10) 0 (n / 10) shorter (omega arith)
          ∙ ap some whole)
]

digits-all_digits : (fuel n : ℕ) → all_digits (digits fuel n) ≡ true
unfolding digits
digits-all_digits zero n = refl
digits-all_digits (suc fuel) n =
    let small : n % 10 < 10 = omega arith in
    let digit : is_digit (48 + n % 10) ≡ true = ground arith in
    ground (
      arith,
      all_digits-append (digits fuel (n / 10)) (48 + n % 10) (digits-all_digits fuel (n / 10))
          digit,
    )

-- A text of digits is not empty, if there is fuel.
append-cons : (s : Str) (d : ℕ) → (c : ℕ) × (t : Str) × (s ++ d ∷ [] ≡ c ∷ t)
append-cons [] d = (d, [], refl)
append-cons (x ∷ s) d = (x, s ++ d ∷ [], refl)

digits-cons : (fuel n : ℕ) → (c : ℕ) × (t : Str) × (digits (suc fuel) n ≡ c ∷ t)
unfolding digits
digits-cons fuel n = elim (Bool-cases (ltb n 10)) [
  | inl p ↦ (48 + n, [], rw (p, digits) refl)
  | inr p ↦ rw (p, digits) (append-cons (digits fuel (n / 10)) (48 + n % 10))
]

cons-digits :
    (s : Str) (c : ℕ) (t : Str)
    → s ≡ c ∷ t
    → all_digits s ≡ true
    → (is_digit c ≡ true) × (all_digits t ≡ true)
cons-digits [] c t p h = absurd (ground (arith, p))
cons-digits (x ∷ s) c t p h = ground arith

cons-read :
    (s : Str) (c : ℕ) (t : Str) (n : ℕ)
    → s ≡ c ∷ t
    → read_digits s 0 ≡ some n
    → read_nat (c ∷ t) ≡ some n
unfolding read_nat
cons-read s c t n p h = ap (λ l. read_digits l 0) (sym p) ∙ h

-- The text of a number: a digit first, then digits, and it is read as the number.
pub format_nat-cons :
    (n : ℕ)
    → (c : ℕ) × (t : Str) × (format_nat n ≡ c ∷ t)
      × (is_digit c ≡ true)
      × (all_digits t ≡ true)
      × (read_nat (c ∷ t) ≡ some n)
unfolding format_nat
format_nat-cons n =
    let (c, t, shape) = digits-cons n n in
    let (first, rest) = cons-digits (digits (suc n) n) c t shape (digits-all_digits (suc n) n) in
    (
      c,
      t,
      shape,
      first,
      rest,
      cons-read (digits (suc n) n) c t n shape (digits-read (suc n) n (omega arith)),
    )

-- An int64
abbrev pub IsInt64 : ℤ → Type 0
IsInt64 (pos n) = n < int64_limit
IsInt64 (negsuc n) = n < int64_limit

pub parse_int-format_int : (z : ℤ) → IsInt64 z → parse_int (format_int z) ≡ some z
unfolding format_int parse_int within
parse_int-format_int (pos n) h =
    let (c, t, shape, digit, _, reads) = format_nat-cons n in rw shape (ground (arith, reads))
parse_int-format_int (negsuc n) h =
    let (c, t, shape, digit, _, reads) = format_nat-cons (suc n) in rw shape (ground (arith, reads))
