-- ===== src/Schema/Accepted.antt =====
-- What Validate of a field, of a table and of an edge lets through.
use surql_go.Prelude.{
  ℕ, Every-map, ◌==◌, if◌then◌else◌, ◌≡◌, ◌≢◌, ◌↔◌, refl, inl, inr, Bool, true, false, ◌&&◌, ◌||◌,
  Bool-cases, Option-cases, Option, none, List, [], ◌∷◌, arith, Str, is_word, all_word,
  is_identifier, split, contains, Every,
}
use mathlib.Core.Path.{subst}
use surql_go.Errors.{GoError}
use surql_go.Schema.Clauses.{check_each}
use surql_go.Schema.Fields.{
  FieldDefinition, field_types, is_field_type, check_segment, validate_field_name, validate_field,
}
use surql_go.Schema.Indexes.{IndexDefinition, validate_index}
use surql_go.Schema.Events.{EventDefinition, validate_event}
use surql_go.Schema.Tables.{TableDefinition, table_modes, validate_children, validate_table}
use surql_go.Schema.Edges.{EdgeDefinition, edge_modes, lacks_ends, validate_edge}

pub check_each-none {ℓ} :
    {A : Type ℓ} (check : A → Option GoError) (xs : List A)
    → (check_each check xs ≡ none) ↔ Every (λ a. check a ≡ none) xs
unfolding check_each
check_each-none check [] = (λ h. tt, λ h. refl)
check_each-none check (x ∷ xs) = elim (Option-cases (check x)) [
  | inl fine ↦
      rw (fine, check_each)
        (λ h. (refl, (check_each-none check xs).0 h), λ h. (check_each-none check xs).1 h.1)
  | inr (e, bad) ↦
      rw (bad, check_each) (λ h. absurd (ground (arith, h)), λ h. absurd (ground (arith, h.0)))
]

-- Letters, digits, underscores and dots
abbrev pub all_dotted : Str → Bool
all_dotted [] = true
all_dotted (c ∷ s) = (is_word c || c == b'.') && all_dotted s

-- Identifiers joined by dots
abbrev pub IsFieldName : Str → Type 0
IsFieldName name = Every (λ part. is_identifier part ≡ true) (split b'.' name)

is_identifier-all_word : (s : Str) → is_identifier s ≡ true → all_word s ≡ true
unfolding is_identifier
is_identifier-all_word [] h = refl
is_identifier-all_word (c ∷ s) h = ground arith

words_of :
    (c : ℕ) (parts : List Str)
    → Every (λ w. all_word w ≡ true) (elim parts [ [] ↦ (c ∷ []) ∷ [] | w ∷ ws ↦ (c ∷ w) ∷ ws ])
    → (is_word c ≡ true) × Every (λ w. all_word w ≡ true) parts
words_of c [] h = (ground (arith, h), tt)
words_of c (w ∷ ws) h = (ground (arith, h.0), (ground (arith, h.0), h.1))

dotted_of_words : (s : Str) → Every (λ w. all_word w ≡ true) (split b'.' s) → all_dotted s ≡ true
unfolding split
dotted_of_words [] h = refl
dotted_of_words (c ∷ s) h = elim (Bool-cases (c == b'.')) [
  | inl dot ↦
      let rest =
        subst
          (λ b.
            Every (λ w. all_word w ≡ true)
              (if b
                then [] ∷ split b'.' s
                else elim (split b'.' s) [ [] ↦ (c ∷ []) ∷ [] | w ∷ ws ↦ (c ∷ w) ∷ ws ]))
          dot h in
      ground (arith, dot, dotted_of_words s rest.1)
  | inr other ↦
      let parts =
        subst
          (λ b.
            Every (λ w. all_word w ≡ true)
              (if b
                then [] ∷ split b'.' s
                else elim (split b'.' s) [ [] ↦ (c ∷ []) ∷ [] | w ∷ ws ↦ (c ∷ w) ∷ ws ]))
          other h in
      let (word, rest) = words_of c (split b'.' s) parts in
      ground (arith, word, dotted_of_words s rest)
]

check_segment_lem : (part : Str) → (check_segment part ≡ none) ↔ (is_identifier part ≡ true)
unfolding check_segment is_identifier
check_segment_lem [] = (λ h. absurd (ground (arith, h)), λ h. absurd (ground (arith, h)))
check_segment_lem (c ∷ s) = (λ h. ground (arith, h), λ h. ground (arith, h))

name_parts : (name : Str) → (validate_field_name name ≡ none) ↔ IsFieldName name
unfolding validate_field_name split is_identifier
name_parts [] = (λ h. absurd (ground (arith, h)), λ h. absurd (ground (arith, h.0)))
name_parts (c ∷ s) = (
  λ h.
      Every-map (λ part. check_segment part ≡ none) (λ part. is_identifier part ≡ true)
        (λ part. (check_segment_lem part).0) (split b'.' (c ∷ s))
        ((check_each-none check_segment (split b'.' (c ∷ s))).0 h),
  λ h. (check_each-none check_segment (split b'.' (c ∷ s))).1 (
      Every-map (λ part. is_identifier part ≡ true) (λ part. check_segment part ≡ none)
        (λ part. (check_segment_lem part).1) (split b'.' (c ∷ s)) h),
)

pub record IsField (f : FieldDefinition) : Type 0 where
  pub name : IsFieldName f.name
  pub type : contains f.type field_types ≡ true

pub validate_field_lem : (f : FieldDefinition) → (validate_field f ≡ none) ↔ IsField f
unfolding validate_field is_field_type
validate_field_lem f = (
  λ h. record { name = (name_parts f.name).0 (ground (arith, h)); type = ground (arith, h) },
  λ v. ground (arith, (name_parts f.name).1 v.name, v.type),
)

-- The name of a field that Validate accepts holds nothing but letters, digits, underscores and dots.
pub field_name-all_dotted :
    (f : FieldDefinition) → validate_field f ≡ none → all_dotted f.name ≡ true
field_name-all_dotted f h = dotted_of_words f.name (
    Every-map (λ part. is_identifier part ≡ true) (λ part. all_word part ≡ true)
      is_identifier-all_word (split b'.' f.name) ((validate_field_lem f).0 h).name)

abbrev pub AreChildren : List FieldDefinition → List IndexDefinition → List EventDefinition → Type 0
AreChildren fields indexes events =
    Every IsField fields
    × Every (λ i. validate_index i ≡ none) indexes
    × Every (λ e. validate_event e ≡ none) events

children_lem :
    (fields : List FieldDefinition) (indexes : List IndexDefinition) (events : List EventDefinition)
    → (validate_children fields indexes events ≡ none) ↔ AreChildren fields indexes events
unfolding validate_children
children_lem fields indexes events =
    let f = check_each-none validate_field fields in
    let i = check_each-none validate_index indexes in
    let e = check_each-none validate_event events in
    (
      λ h. (
        Every-map (λ a. validate_field a ≡ none) IsField (λ a. (validate_field_lem a).0) fields
            (f.0 (ground (arith, h))),
        i.0 (ground (arith, h)),
        e.0 (ground (arith, h)),
      ),
      λ v. ground (
        arith,
        f.1 (
            Every-map IsField (λ a. validate_field a ≡ none) (λ a. (validate_field_lem a).1) fields
              v.0),
        i.1 v.1,
        e.1 v.2,
      ),
    )

-- Validate accepts a table exactly if it has a name and a known mode, every field has identifiers
-- joined by dots as its name and a known type, and every index and event is accepted.
pub validate_table_lem :
    (t : TableDefinition)
    → (validate_table t ≡ none) ↔ (
        (t.name ≢ [])
        × (contains t.mode table_modes ≡ true)
        × AreChildren t.fields t.indexes t.events)
unfolding validate_table
validate_table_lem t =
    let c = children_lem t.fields t.indexes t.events in
    (
      λ h. (λ e. ground (arith, h, e), ground (arith, h), c.0 (ground (arith, h))),
      λ v. ground (arith, v.0, v.1, c.1 v.2),
    )

-- Validate accepts an edge exactly if it has a name and a known mode, both tables if that is
-- RELATION, every field has identifiers joined by dots as its name and a known type, and every index
-- and event is accepted.
pub validate_edge_lem :
    (e : EdgeDefinition)
    → (validate_edge e ≡ none) ↔ (
        (e.name ≢ [])
        × (contains e.mode edge_modes ≡ true)
        × (lacks_ends e ≡ false)
        × AreChildren e.fields e.indexes e.events)
unfolding validate_edge
validate_edge_lem e =
    let c = children_lem e.fields e.indexes e.events in
    (
      λ h. (
        λ n. ground (arith, h, n),
        ground (arith, h),
        ground (arith, h),
        c.0 (ground (arith, h)),
      ),
      λ v. ground (arith, v.0, v.1, v.2, c.1 v.3),
    )
