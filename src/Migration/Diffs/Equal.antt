-- ===== src/Migration/Diffs/Equal.antt =====
-- The equality tests of diff.go, on fields and on maps of permissions.
use surql_go.Prelude.{
  ◌≤◌, ◌≡◌, ◌↔◌, inl, inr, refl, Bool, true, false, Bool-cases, Option-cases, some, [], ◌∷◌, arith,
  length, Str, str_eq, str_eq_iff, str_eq_refl, GoMap, lookup, keys, contains, contains-keys,
}
use surql_go.Schema.Fields.{FieldDefinition}
use surql_go.Migration.Versions.Visiting.{NoRepeats, length-keys-le}
use surql_go.Migration.Diffs.Tables.{bool_eq, fields_equal, all_in, permissions_equal}

-- Equal up to the permissions
pub record SameField (f g : FieldDefinition) : Type 0 where
  pub name : f.name ≡ g.name
  pub type : f.type ≡ g.type
  pub assertion : f.assertion ≡ g.assertion
  pub default : f.default ≡ g.default
  pub value : f.value ≡ g.value
  pub read_only : f.read_only ≡ g.read_only
  pub flexible : f.flexible ≡ g.flexible

pub bool_eq_iff : (a b : Bool) → (bool_eq a b ≡ true) ↔ (a ≡ b)
bool_eq_iff true true = ground arith
bool_eq_iff true false = ground arith
bool_eq_iff false true = ground arith
bool_eq_iff false false = ground arith

pub fields_equal_iff : (f g : FieldDefinition) → (fields_equal f g ≡ true) ↔ SameField f g
unfolding fields_equal
fields_equal_iff f g = (
  λ h. ground (
    arith,
    str_eq_iff f.name g.name,
    str_eq_iff f.type g.type,
    str_eq_iff f.assertion g.assertion,
    str_eq_iff f.default g.default,
    str_eq_iff f.value g.value,
    bool_eq_iff f.read_only g.read_only,
    bool_eq_iff f.flexible g.flexible,
  ),
  λ s. ground (
    arith,
    str_eq_iff f.name g.name,
    str_eq_iff f.type g.type,
    str_eq_iff f.assertion g.assertion,
    str_eq_iff f.default g.default,
    str_eq_iff f.value g.value,
    bool_eq_iff f.read_only g.read_only,
    bool_eq_iff f.flexible g.flexible,
  ),
)

-- A Go map has each key once.
abbrev pub IsMap {ℓ} : {V : Type ℓ} → GoMap V → Type 0
IsMap m = NoRepeats (keys m)

abbrev pub SameMap : GoMap Str → GoMap Str → Type 0
SameMap a b = (k : Str) → lookup k a ≡ lookup k b

length-keys {ℓ} : {V : Type ℓ} (m : GoMap V) → length (keys m) ≡ length m
unfolding keys
length-keys [] = refl
length-keys ((k, v) ∷ m) = ground (arith, length-keys m)

-- What is in a is in b.
abbrev Within : GoMap Str → GoMap Str → Type 0
Within a b = (k v : Str) → lookup k a ≡ some v → lookup k b ≡ some v

all_in-Within : (a b : GoMap Str) → all_in a b ≡ true → Within a b
unfolding all_in lookup
all_in-Within [] b h k v e = absurd (ground (arith, e))
all_in-Within ((j, w) ∷ a) b h k v e = elim (Option-cases (lookup j b)) [
  | inl absent ↦ absurd (ground (arith, h, absent))
  | inr (u, there) ↦ ground (
    arith,
    h,
    there,
    e,
    str_eq_iff j k,
    str_eq_iff u w,
    all_in-Within a b (ground (arith, h)) k v,
  )
]

Within-all_in : (a b : GoMap Str) → IsMap a → Within a b → all_in a b ≡ true
unfolding all_in lookup keys
Within-all_in [] b m h = refl
Within-all_in ((j, w) ∷ a) b m h = ground (
  arith,
  h j w,
  str_eq_refl j,
  str_eq_refl w,
  Within-all_in a b m.1 (λ k v e. ground (arith, h k v, e, str_eq_iff j k, contains-keys k a, m.0)),
)

length-Within : (a b : GoMap Str) → IsMap a → Within a b → length a ≤ length b
length-Within a b m h = ground (
  arith,
  length-keys a,
  length-keys-le (keys a) b m (λ k c. elim (Option-cases (lookup k a)) [
    | inl absent ↦ absurd (ground (arith, contains-keys k a, c, absent))
    | inr (v, there) ↦ (v, h k v there)
  ]),
)

-- b holds nothing but what is in a, if it is no longer than a.
Within-sym : (a b : GoMap Str) → IsMap a → Within a b → length b ≤ length a → Within b a
unfolding contains
Within-sym a b m h small k v e = elim (Option-cases (lookup k a)) [
  | inr (u, there) ↦ ground (arith, h k u there, e, there)
  | inl absent ↦
      let many =
        length-keys-le (k ∷ keys a) b (ground (arith, contains-keys k a, absent), m)
          (λ j c. elim (Bool-cases (str_eq k j)) [
            | inl same ↦ (v, rw (← (str_eq_iff k j).0 same) e)
            | inr other ↦ elim (Option-cases (lookup j a)) [
              | inl gone ↦ absurd (ground (arith, contains-keys j a, c, gone))
              | inr (u, there) ↦ (u, h j u there)
            ]
          ]) in
      absurd (omega (arith, many, length-keys a))
]

pub permissions_equal_iff :
    (a b : GoMap Str) → IsMap a → IsMap b → (permissions_equal a b ≡ true) ↔ SameMap a b
unfolding permissions_equal
permissions_equal_iff a b ma mb = (
  λ h k.
      let forth = all_in-Within a b (ground (arith, h)) in
      let back = Within-sym a b ma forth (ground (arith, h)) in
      elim (Option-cases (lookup k a)) [
        | inr (v, there) ↦ ground (arith, forth k v there, there)
        | inl absent ↦ elim (Option-cases (lookup k b)) [
          | inl gone ↦ ground (arith, absent, gone)
          | inr (v, there) ↦ absurd (ground (arith, back k v there, absent))
        ]
      ],
  λ h. ground (
    arith,
    Within-all_in a b ma (λ k v e. ground (arith, h k, e)),
    length-Within a b ma (λ k v e. ground (arith, h k, e)),
    length-Within b a mb (λ k v e. ground (arith, h k, e)),
  ),
)
