-- ===== src/Types/Quoting/RoundTrip.antt =====
-- Quoted texts read back.
use surql_go.Prelude.{
  ◌==◌, if◌then◌else◌, ◌≡◌, refl, ap, inl, inr, Bool, true, false, Bool-cases, Option, none, some,
  [], ◌∷◌, ◌++◌, arith, Str, bytes,
}
use mathlib.Core.List.{append_assoc}
use surql_go.Types.Quoting.{replace_all, quote_string}

-- A single-quoted literal after its opening quote, read up to its closing one: a backslash makes the
-- next byte stand for itself. The result is the text and what follows.
unfoldable pub read_literal : Bool → Str → Option (Str × Str)
read_literal escaped [] = none
read_literal true (c ∷ s) = elim (read_literal false s) [
  | none ↦ none
  | some (t, rest) ↦ some (c ∷ t, rest)
]
read_literal false (c ∷ s) =
    let plain = read_literal false s in
    let next = read_literal true s in
    if c == b'\''
    then some ([], s)
    else if c == b'\\'
    then next
    else elim plain [ none ↦ none | some (t, rest) ↦ some (c ∷ t, rest) ]

abbrev escape : Str → Str
escape s = replace_all b'\'' (bytes "\\'") (replace_all b'\\' (bytes "\\\\") s)

escape_lem : (s rest : Str) → read_literal false (escape s ++ (bytes "'" ++ rest)) ≡ some (s, rest)
unfolding read_literal replace_all
escape_lem [] rest = refl
escape_lem (c ∷ s) rest = elim (Bool-cases (c == b'\'')) [
  | inl quote ↦ ground (arith, quote, escape_lem s rest)
  | inr other ↦ elim (Bool-cases (c == b'\\')) [
    | inl slash ↦ ground (arith, slash, other, escape_lem s rest)
    | inr plain ↦ ground (arith, plain, other, escape_lem s rest)
  ]
]

-- A text that quoteString has quoted reads back as itself, whatever follows it.
pub read_literal-quote_string :
    (s rest : Str)
    → (b : Str) × (quote_string s ++ rest ≡ b'\'' ∷ b) × (read_literal false b ≡ some (s, rest))
unfolding quote_string
read_literal-quote_string s rest = (
  escape s ++ (bytes "'" ++ rest),
  ap (λ t. b'\'' ∷ t) (append_assoc (escape s) (bytes "'") rest),
  escape_lem s rest,
)
