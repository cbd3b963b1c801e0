-- ===== src/Types/Decimal.antt =====
-- strconv.FormatInt and strconv.ParseInt in base 10 at 64 bits, as record_id.go uses them.
pub mod RoundTrip
use surql_go.Prelude.{
  ℕ, zero, suc, ◌+◌, ◌-◌, ◌*◌, ◌/◌, ◌%◌, ◌==◌, Bool, true, false, ◌&&◌, ltb, leb, if◌then◌else◌,
  Option, none, some, List, [], ◌∷◌, ◌++◌, Str,
}
use surql_go.Prelude.Int.{ℤ, pos, negsuc}

-- 2^63
abbrev pub int64_limit : ℕ
int64_limit = 9223372036854775808

-- The digits of a number, on fuel
unfoldable pub digits : ℕ → ℕ → Str
digits zero n = []
digits (suc fuel) n =
    let rest = digits fuel (n / 10) in
    if ltb n 10 then (48 + n) ∷ [] else rest ++ (48 + n % 10) ∷ []

unfoldable pub format_nat : ℕ → Str
unfolding digits
format_nat n = digits (suc n) n

-- strconv.FormatInt(n, 10)
unfoldable pub format_int : ℤ → Str
unfolding format_nat
format_int (pos n) = format_nat n
format_int (negsuc n) = 45 ∷ format_nat (suc n)

abbrev pub is_digit : ℕ → Bool
is_digit c = leb 48 c && leb c 57

-- The value of a text of digits, after a value read so far
unfoldable pub read_digits : Str → ℕ → Option ℕ
read_digits [] acc = some acc
read_digits (c ∷ s) acc =
    let rest = read_digits s (acc * 10 + (c - 48)) in if is_digit c then rest else none

unfoldable pub read_nat : Str → Option ℕ
unfolding read_digits
read_nat [] = none
read_nat (c ∷ s) = read_digits (c ∷ s) 0

unfoldable pub within : Bool → Option ℕ → Option ℤ
within negative none = none
within false (some n) = if ltb n int64_limit then some (pos n) else none
within true (some zero) = some (pos 0)
within true (some (suc n)) = if ltb n int64_limit then some (negsuc n) else none

-- strconv.ParseInt(s, 10, 64): `none` is an error, of the syntax or of the range.
unfoldable pub parse_int : Str → Option ℤ
unfolding read_nat within
parse_int [] = none
parse_int (c ∷ s) =
    if c == 45
    then within true (read_nat s)
    else if c == 43
    then within false (read_nat s)
    else within false (read_nat (c ∷ s))
