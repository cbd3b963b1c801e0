-- ===== src/Schema/Drift.antt =====
-- The results of pkg/surql/schema/validator.go, and the loops that its comparisons share.
pub mod Definitions
pub mod Comparison
pub mod Silence
pub mod Columns
pub mod Spaces
pub mod Sameness
pub mod Whole
use surql_go.Prelude.{
  ◌==◌, if◌then◌else◌, Bool, true, false, not, ◌&&◌, Option, none, some, List, [], ◌∷◌, ◌++◌, Str,
  bytes, str_eq, str_ltb, join, GoMap, keys, has_key, lookup, sort_by, length,
}
use surql_go.Migration.Diffs.{index_by}

-- The type is a string in the source.
pub data ValidationSeverity : Type 0 where
  severity_error severity_warning severity_info : ValidationSeverity

pub record ValidationResult : Type 0 where
  pub severity : ValidationSeverity
  pub table : Str
  pub field : Str
  pub message : Str
  pub code_value : Str
  pub db_value : Str

-- if code.X != db.X { results = append(results, r) }
abbrev pub unless : Bool → ValidationResult → List ValidationResult
unless true r = []
unless false r = r ∷ []

-- normalizeExpression, with strings.Fields as a parameter
unfoldable pub normalize_expression : (Str → List Str) → Str → Str
unfolding join
normalize_expression words expr = join (words expr) (bytes " ")

abbrev pub equal_texts : List Str → List Str → Bool
equal_texts [] [] = true
equal_texts [] (y ∷ ys) = false
equal_texts (x ∷ xs) [] = false
equal_texts (x ∷ xs) (y ∷ ys) = str_eq x y && equal_texts xs ys

unfoldable pub sorted_slice_equal : List Str → List Str → Bool
unfolding sort_by
sorted_slice_equal a b =
    if length a == length b then equal_texts (sort_by str_ltb a) (sort_by str_ltb b) else false

-- A loop over names that appends what it finds at each
unfoldable pub walk : (Str → List ValidationResult) → List Str → List ValidationResult
walk f [] = []
walk f (n ∷ ns) = f n ++ walk f ns

module _ {ℓ} {A : Type ℓ} (compare : A → A → List ValidationResult) where
  -- The body of the third loop
  abbrev pub compare_both : Option A → Option A → List ValidationResult
  compare_both none d = []
  compare_both (some a) none = []
  compare_both (some a) (some b) = compare a b

module _ {ℓ} {A : Type ℓ} (name : A → Str) (missing extra : Str → ValidationResult)
    (compare : A → A → List ValidationResult) where
  -- The three loops over the sorted names of both sides
  unfoldable pub compare_named : List A → List A → List ValidationResult
  unfolding walk index_by keys sort_by lookup
  compare_named code db =
      let codes = index_by name [] code in
      let dbs = index_by name [] db in
      walk (λ n. unless (has_key n dbs) (missing n)) (sort_by str_ltb (keys codes))
      ++ (walk (λ n. unless (has_key n codes) (extra n)) (sort_by str_ltb (keys dbs))
          ++ walk (λ n. compare_both compare (lookup n codes) (lookup n dbs))
              (sort_by str_ltb (keys codes)))
