-- ===== src/Types/RecordId/RoundTrip.antt =====
-- A record id that is printed parses to the record id, but for strings that read as numbers.
use surql_go.Prelude.{
  ℕ, suc, ◌≡◌, ◌≢◌, refl, ◌∙◌, Bool, true, false, ◌&&◌, leb, Bool-cases, inl, inr, none, some, [],
  ◌∷◌, ◌++◌, arith, Str,
}
use surql_go.Prelude.Int.{ℤ, pos, negsuc}
use surql_go.Errors.{ok}
use surql_go.Types.Decimal.{is_digit, format_int, parse_int}
use surql_go.Types.Decimal.RoundTrip.{all_digits, format_nat-cons, IsInt64, parse_int-format_int}
use surql_go.Types.RecordId.{
  RecordIdValue, absent, string_id, int_id, RecordId, is_word, all_word, is_table, is_simple,
  validate_table, new_record_id, value_string, needs_angle_brackets, record_string, is_empty,
  split_colon, before_gt, strip_brackets, record_of, parse_parts, parse_record_id,
}

-- Printable ASCII but the space
abbrev pub is_graphic : ℕ → Bool
is_graphic c = leb 33 c && leb c 126

abbrev pub last_of : ℕ → Str → ℕ
last_of c [] = c
last_of c (d ∷ s) = last_of d s

abbrev pub has_edges : Str → Bool
has_edges [] = false
has_edges (c ∷ s) = is_graphic c && is_graphic (last_of c s)

-- strings.TrimSpace leaves a text alone whose first and last bytes are printable ASCII.
abbrev pub KeepsText : (Str → Str) → Type 0
KeepsText trim_space = (s : Str) → has_edges s ≡ true → trim_space s ≡ s

split_colon-table :
    (t rest : Str) → all_word t ≡ true → split_colon (t ++ 58 ∷ rest) ≡ some (t, rest)
unfolding split_colon
split_colon-table [] rest h = ground arith
split_colon-table (c ∷ t) rest h = ground (arith, split_colon-table t rest)

word_last :
    (c : ℕ) (s : Str) → is_word c ≡ true → all_word s ≡ true → is_graphic (last_of c s) ≡ true
word_last c [] h k = ground arith
word_last c (d ∷ s) h k = word_last d s (ground arith) (ground arith)

words-edges : (c : ℕ) (s : Str) → all_word (c ∷ s) ≡ true → has_edges (c ∷ s) ≡ true
words-edges c s h =
    let first : is_word c ≡ true = ground arith in
    let last = word_last c s first (ground arith) in ground arith

table-words : (t : Str) → is_table t ≡ true → all_word t ≡ true
unfolding is_table
table-words [] h = refl
table-words (c ∷ t) h = ground arith

last_of-gt : (c : ℕ) (s : Str) → last_of c (s ++ 62 ∷ []) ≡ 62
last_of-gt c [] = refl
last_of-gt c (d ∷ s) = last_of-gt d s

before_gt-append : (s : Str) → before_gt (s ++ 62 ∷ []) ≡ some s
unfolding before_gt
before_gt-append [] = refl
before_gt-append (c ∷ []) = refl
before_gt-append (c ∷ d ∷ s) = ground (arith, before_gt-append (d ∷ s))

digits-words : (s : Str) → all_digits s ≡ true → all_word s ≡ true
digits-words [] h = refl
digits-words (c ∷ s) h = ground (arith, digits-words s)

-- What parsing needs of the text of an id: it has edges, and without brackets it is the id's text.
abbrev Reads : Str → Str → Type 0
Reads body text = (has_edges body ≡ true) × (strip_brackets body ≡ text)

simple-Reads : (s : Str) → is_simple s ≡ true → Reads s s
unfolding is_simple strip_brackets
simple-Reads [] h = absurd (ground arith)
simple-Reads (c ∷ s) h = (words-edges c s h, ground arith)

bracketed-Reads : (s : Str) → Reads (60 ∷ (s ++ 62 ∷ [])) s
unfolding strip_brackets
bracketed-Reads s = (ground (arith, last_of-gt 60 s), ground (arith, before_gt-append s))

digits_first : (c : ℕ) (t : Str) → is_digit c ≡ true → all_digits t ≡ true → all_word (c ∷ t) ≡ true
digits_first c t h k = ground (arith, digits-words t k)

format_int-Reads : (z : ℤ) → Reads (format_int z) (format_int z)
unfolding format_int strip_brackets
format_int-Reads (pos n) =
    let (c, t, shape, digit, rest, _) = format_nat-cons n in
    rw shape (words-edges c t (digits_first c t digit rest), ground arith)
format_int-Reads (negsuc n) =
    let (c, t, shape, digit, rest, _) = format_nat-cons (suc n) in
    let first : is_word c ≡ true = ground arith in
    let last = word_last c t first (digits-words t rest) in rw shape (ground arith, refl)

edges_nonempty : (s : Str) → has_edges s ≡ true → is_empty s ≡ false
unfolding is_empty
edges_nonempty [] h = absurd (ground arith)
edges_nonempty (c ∷ s) h = refl

table-edges : (t : Str) → is_table t ≡ true → has_edges t ≡ true
unfolding is_table
table-edges [] h = absurd (ground arith)
table-edges (c ∷ t) h = words-edges c t (table-words (c ∷ t) h)

parse_text :
    (trim_space : Str → Str) (table body text : Str)
    → KeepsText trim_space
    → is_table table ≡ true
    → Reads body text
    → parse_record_id trim_space (table ++ 58 ∷ body) ≡ record_of table text
unfolding parse_record_id parse_parts
parse_text trim_space table body text keeps named (edges, stripped) =
    let t = table-edges table named in
    ground (
      arith,
      split_colon-table table body (table-words table named),
      keeps table t,
      keeps body edges,
      edges_nonempty table t,
      edges_nonempty body edges,
    )

-- What parsing a printed record id builds
printed :
    (trim_space : Str → Str) (table : Str) (id : RecordIdValue)
    → KeepsText trim_space
    → is_table table ≡ true
    → id ≢ absent
    → parse_record_id trim_space (record_string (record { table = table; id = id }))
      ≡ record_of table (value_string id)
unfolding record_string value_string needs_angle_brackets
printed trim_space table absent keeps named there = absurd (there refl)
printed trim_space table (int_id n) keeps named there =
    parse_text trim_space table (format_int n) (format_int n) keeps named (format_int-Reads n)
printed trim_space table (string_id s) keeps named there = elim (Bool-cases (is_simple s)) [
  | inl p ↦ rw (p, record_string) (parse_text trim_space table s s keeps named (simple-Reads s p))
  | inr p ↦
      rw (p, record_string)
        (parse_text trim_space table (60 ∷ (s ++ 62 ∷ [])) s keeps named (bracketed-Reads s))
]

-- An integer id is an int64, and a string id does not read as one.
abbrev pub ReadsBack : RecordIdValue → Type 0
ReadsBack absent = Unit
ReadsBack (string_id s) = parse_int s ≡ none
ReadsBack (int_id n) = IsInt64 n

new-is_table :
    (table : Str) (id : RecordIdValue) (r : RecordId)
    → new_record_id table id ≡ ok r
    → (is_table table ≡ true) × (id ≢ absent) × (record { table = table; id = id } ≡ r)
unfolding new_record_id validate_table
new-is_table table absent r h = absurd (ground arith)
new-is_table table (string_id s) r h = (ground arith, λ p. ground (arith, p), ground arith)
new-is_table table (int_id n) r h = (ground arith, λ p. ground (arith, p), ground arith)

record_of-ReadsBack :
    (table : Str) (id : RecordIdValue)
    → is_table table ≡ true
    → id ≢ absent
    → ReadsBack id
    → record_of table (value_string id) ≡ ok (record { table = table; id = id })
unfolding record_of value_string new_record_id validate_table
record_of-ReadsBack table absent named there reads = absurd (there refl)
record_of-ReadsBack table (string_id s) named there reads = ground arith
record_of-ReadsBack table (int_id n) named there reads =
    ground (arith, parse_int-format_int n reads)

-- A record id that is built, printed and parsed is the same record id, if its integer id is an
-- int64 or its string id does not read as one, whatever else the string holds.
pub parse-record_string :
    (trim_space : Str → Str) (table : Str) (id : RecordIdValue) (r : RecordId)
    → KeepsText trim_space
    → new_record_id table id ≡ ok r
    → ReadsBack id
    → parse_record_id trim_space (record_string r) ≡ ok r
parse-record_string trim_space table id r keeps built reads =
    let (named, there, same) = new-is_table table id r built in
    rw (← same) (
      printed trim_space table id keeps named there
      ∙ record_of-ReadsBack table id named there reads)

-- A string id that reads as an int64 comes back as an integer id, a different record id.
pub parse-numeric_string :
    (trim_space : Str → Str) (table s : Str) (n : ℤ) (r : RecordId)
    → KeepsText trim_space
    → new_record_id table (string_id s) ≡ ok r
    → parse_int s ≡ some n
    → (parse_record_id trim_space (record_string r) ≡ ok (record { table = table; id = int_id n }))
      × (record { table = table; id = int_id n } ≢ r)
unfolding record_of value_string new_record_id validate_table
parse-numeric_string trim_space table s n r keeps built numeric =
    let (named, there, same) = new-is_table table (string_id s) r built in
    (
      rw (← same) (printed trim_space table (string_id s) keeps named there ∙ ground arith),
      λ p. ground (arith, p, same),
    )
