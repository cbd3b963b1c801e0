-- ===== src/Migration/Diffs.antt =====
-- Schema diffs (SchemaDiff of pkg/surql/migration/models.go), and the three loops that the diff
-- functions of diff.go share: over what is added, over what is dropped, and over the common names.
pub mod Statements
pub mod Generators
pub mod Tables
pub mod Buckets
pub mod Schemas
pub mod Named
pub mod Agreement
pub mod Equal
pub mod Silence
pub mod Settled
pub mod Defaults
pub mod Altered
pub mod Undo
pub mod Separators
pub mod Whole
use surql_go.Prelude.{
  if◌then◌else◌, Bool, true, false, Option, none, some, List, [], ◌∷◌, ◌++◌, Str, str_ltb, GoMap,
  lookup, has_key, insert, keys, select, sort_by,
}
use surql_go.Errors.{Result, ok, err, ◌>>=◌}

pub data DiffOperation : Type 0 where
  add_table drop_table add_field drop_field modify_field : DiffOperation
  add_index drop_index add_event drop_event modify_permissions : DiffOperation
  add_bucket drop_bucket modify_bucket : DiffOperation

-- The values of the details are texts.
pub record SchemaDiff : Type 0 where
  pub operation : DiffOperation
  pub table : Str
  pub field : Str
  pub index : Str
  pub event : Str
  pub bucket : Str
  pub description : Str
  pub forward : Str
  pub backward : Str
  pub details : GoMap Str

module _ {ℓ} {A : Type ℓ} where
  -- A loop that appends what it makes of each element that is not skipped, up to the first error
  unfoldable pub collect :
      (A → Bool) → (A → Result (List SchemaDiff)) → List A → Result (List SchemaDiff)
  collect skip make [] = ok []
  collect skip make (a ∷ rest) =
      let later = collect skip make rest in
      if skip a then later else (do ds ← make a; es ← later; ok (ds ++ es))

module _ {ℓ} {A : Type ℓ} where
  module _ (name : A → Str) where
    -- for _, a := range list { m[a.Name] = a }
    unfoldable pub index_by : GoMap A → List A → GoMap A
    index_by m [] = m
    index_by m (a ∷ rest) = index_by (insert (name a) a m) rest

    -- The first two loops
    unfoldable pub added_dropped :
        (A → Result (List SchemaDiff))
        → (A → Result (List SchemaDiff))
        → List A
        → List A
        → Result (List SchemaDiff)
    unfolding collect index_by lookup
    added_dropped add drop olds news = do
      added ← collect (λ a. has_key (name a) (index_by [] olds)) add news
      dropped ← collect (λ a. has_key (name a) (index_by [] news)) drop olds
      ok (added ++ dropped)

    -- The names on both sides, sorted
    unfoldable pub common : GoMap A → GoMap A → List Str
    unfolding keys sort_by lookup
    common olds news = sort_by str_ltb (select (λ k. has_key k news) (keys olds))

    -- m[k], with the zero value for a missing key
    unfoldable pub value_at : A → GoMap A → Str → A
    unfolding lookup
    value_at zero_value m k = elim (lookup k m) [ none ↦ zero_value | some a ↦ a ]

    -- The third loop
    unfoldable pub modified :
        A → (A → A → Result (List SchemaDiff)) → List A → List A → Result (List SchemaDiff)
    unfolding collect index_by common value_at
    modified zero_value modify olds news =
        collect (λ k. false)
          (λ k.
            modify (value_at zero_value (index_by [] olds) k)
              (value_at zero_value (index_by [] news) k))
          (common (index_by [] olds) (index_by [] news))

    unfoldable pub diff_named :
        A
        → (A → Result (List SchemaDiff))
        → (A → Result (List SchemaDiff))
        → (A → A → Result (List SchemaDiff))
        → List A
        → List A
        → Result (List SchemaDiff)
    unfolding added_dropped modified
    diff_named zero_value add drop modify olds news = do
      first ← added_dropped add drop olds news
      changed ← modified zero_value modify olds news
      ok (first ++ changed)
