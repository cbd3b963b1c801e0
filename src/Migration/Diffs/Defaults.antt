-- ===== src/Migration/Diffs/Defaults.antt =====
-- The guard on defaults of diff.go, and the field statements that it lets through.
use surql_go.Prelude.{
  ◌==◌, ◌≡◌, ◌⊎◌, inl, inr, refl, sym, ◌∙◌, Bool, true, false, ◌||◌, Bool-cases, [], ◌∷◌, arith,
  Str, bytes, all_word, is_identifier, str_eq, str_eq_iff,
}
use surql_go.Errors.{Result-cases, ok}
use surql_go.Schema.Clauses.{Texts, clause}
use surql_go.Schema.Fields.{FieldDefinition, field_surql, field_clauses}
use surql_go.Migration.Diffs.Statements.{
  Place, at_name, in_name, at_colon, ends_call, is_call, all_digits, some_digits, rest_of_number,
  is_unsigned, is_number, is_constant, is_quoted, is_parameter, is_safe_default,
  validate_default_value, safe_clause, field_to_sql,
}

-- A semicolon in a text
unfoldable pub has_semicolon : Str → Bool
has_semicolon [] = false
has_semicolon (c ∷ s) = c == b';' || has_semicolon s

ends_call_lem : (s : Str) → ends_call s ≡ true → has_semicolon s ≡ false
unfolding ends_call has_semicolon
ends_call_lem [] h = refl
ends_call_lem (c ∷ []) h = ground arith
ends_call_lem (c ∷ d ∷ s) h = ground (arith, ends_call_lem (d ∷ s))

is_call_lem : (p : Place) (s : Str) → is_call p s ≡ true → has_semicolon s ≡ false
unfolding is_call has_semicolon
is_call_lem p [] h = refl
is_call_lem at_name (c ∷ s) h = ground (arith, is_call_lem in_name s)
is_call_lem at_colon (c ∷ s) h = ground (arith, is_call_lem at_name s)
is_call_lem in_name (c ∷ s) h =
    ground (arith, is_call_lem in_name s, is_call_lem at_colon s, ends_call_lem s)

all_digits_lem : (s : Str) → all_digits s ≡ true → has_semicolon s ≡ false
unfolding all_digits has_semicolon
all_digits_lem [] h = refl
all_digits_lem (c ∷ s) h = ground (arith, all_digits_lem s)

rest_of_number_lem : (s : Str) → rest_of_number s ≡ true → has_semicolon s ≡ false
unfolding rest_of_number some_digits has_semicolon
rest_of_number_lem [] h = refl
rest_of_number_lem (c ∷ []) h = ground arith
rest_of_number_lem (c ∷ d ∷ s) h = ground (arith, rest_of_number_lem (d ∷ s), all_digits_lem s)

is_number_lem : (s : Str) → is_number s ≡ true → has_semicolon s ≡ false
unfolding is_number is_unsigned has_semicolon
is_number_lem [] h = refl
is_number_lem (c ∷ []) h = ground arith
is_number_lem (c ∷ d ∷ s) h = ground (arith, rest_of_number_lem s, rest_of_number_lem (d ∷ s))

all_word_lem : (s : Str) → all_word s ≡ true → has_semicolon s ≡ false
unfolding has_semicolon
all_word_lem [] h = refl
all_word_lem (c ∷ s) h = ground (arith, all_word_lem s)

is_parameter_lem : (s : Str) → is_parameter s ≡ true → has_semicolon s ≡ false
unfolding is_parameter is_identifier has_semicolon
is_parameter_lem [] h = refl
is_parameter_lem (c ∷ []) h = ground arith
is_parameter_lem (c ∷ d ∷ s) h = ground (arith, all_word_lem s)

is_constant_lem : (s : Str) → is_constant s ≡ true → has_semicolon s ≡ false
unfolding is_constant has_semicolon
is_constant_lem s h = elim (Bool-cases (str_eq s (bytes "true"))) [
  | inl e ↦ rw ((str_eq_iff s (bytes "true")).0 e)
  | inr a ↦ elim (Bool-cases (str_eq s (bytes "false"))) [
    | inl e ↦ rw ((str_eq_iff s (bytes "false")).0 e)
    | inr b ↦ elim (Bool-cases (str_eq s (bytes "NONE"))) [
      | inl e ↦ rw ((str_eq_iff s (bytes "NONE")).0 e)
      | inr c ↦ rw ((str_eq_iff s (bytes "NULL")).0 (ground (arith, h, a, b, c)))
    ]
  ]
]

is_safe_default_lem :
    (s : Str) → is_safe_default s ≡ true → (has_semicolon s ≡ false) ⊎ (is_quoted s ≡ true)
unfolding is_safe_default
is_safe_default_lem s h = elim (Bool-cases (is_quoted s)) [
  | inl q ↦ inr q
  | inr q ↦ inl (
      ground (arith, is_call_lem at_name s, is_number_lem s, is_constant_lem s, is_parameter_lem s))
]

module _ (x : Texts) where
  -- White space has no semicolons.
  abbrev pub TrimsBlanks : Type 0
  TrimsBlanks = (s : Str) → has_semicolon (x.trim_space s) ≡ has_semicolon s

  -- Nothing that ends a statement, outside of a quoted text
  abbrev pub Harmless : Str → Type 0
  Harmless s = (has_semicolon s ≡ false) ⊎ (is_quoted (x.trim_space s) ≡ true)

  safe_clause_lem :
      (keyword value text : Str)
      → TrimsBlanks
      → safe_clause x keyword value ≡ ok text
      → (text ≡ clause keyword value) × Harmless value
  unfolding safe_clause validate_default_value has_semicolon
  safe_clause_lem keyword [] text trims h = (ground (arith, h), inl refl)
  safe_clause_lem keyword (c ∷ s) text trims h =
      elim (Bool-cases (is_safe_default (x.trim_space (c ∷ s)))) [
        | inr bad ↦ absurd (ground (arith, h, bad))
        | inl good ↦ (
          ground (arith, h, good),
          elim (is_safe_default_lem (x.trim_space (c ∷ s)) good) [
            | inl clean ↦ inl (sym (trims (c ∷ s)) ∙ clean)
            | inr quoted ↦ inr quoted
          ],
        )
      ]

  -- fieldToSQL refuses, or renders what FieldDefinition.ToSurql renders, with a default and a value
  -- that hold no semicolon or are one quoted text, if TrimSpace removes no semicolon.
  pub field_to_sql_lem :
      (table sql : Str) (f : FieldDefinition)
      → TrimsBlanks
      → field_to_sql x table f ≡ ok sql
      → (sql ≡ field_surql f table false) × Harmless f.default × Harmless f.value
  unfolding field_to_sql field_surql field_clauses
  field_to_sql_lem table sql f trims h =
      elim (Result-cases (safe_clause x (bytes " DEFAULT ") f.default)) [
        | inr (e, bad) ↦ absurd (ground (arith, h, bad))
        | inl (d, first) ↦ elim (Result-cases (safe_clause x (bytes " VALUE ") f.value)) [
          | inr (e, bad) ↦ absurd (ground (arith, h, first, bad))
          | inl (v, second) ↦
              let (d_text, d_good) = safe_clause_lem (bytes " DEFAULT ") f.default d trims first in
              let (v_text, v_good) = safe_clause_lem (bytes " VALUE ") f.value v trims second in
              (cc (h, first, second, d_text, v_text), d_good, v_good)
        ]
      ]
