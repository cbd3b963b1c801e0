-- ===== src/Errors.antt =====
-- The typed errors of pkg/surql/errors/errors.go. Message texts are left out: an error is its chain
-- of kinds, down to an error of the SDK or the runtime, which is known by a number only.
use surql_go.Prelude.{ℕ, Bool, false, ◌||◌, ◌==◌, ◌≡◌, refl, ◌⊎◌, inl, inr}

pub data ErrorKind : Type 0 where
  database connection query transaction context registry streaming validation : ErrorKind
  schema_parse migration_discovery migration_load migration_generation : ErrorKind
  migration_execution migration_history migration_squash orchestration serialization : ErrorKind

abbrev pub kind_code : ErrorKind → ℕ
kind_code database = 0
kind_code connection = 1
kind_code query = 2
kind_code transaction = 3
kind_code context = 4
kind_code registry = 5
kind_code streaming = 6
kind_code validation = 7
kind_code schema_parse = 8
kind_code migration_discovery = 9
kind_code migration_load = 10
kind_code migration_generation = 11
kind_code migration_execution = 12
kind_code migration_history = 13
kind_code migration_squash = 14
kind_code orchestration = 15
kind_code serialization = 16

pub data GoError : Type 0 where
  -- New and Newf
  new : ErrorKind → GoError
  -- Wrap and Wrapf
  wrap : ErrorKind → GoError → GoError
  foreign : ℕ → GoError

-- errors.Is(err, target), through (*SurqlError).Is
unfoldable pub is_error : GoError → ErrorKind → Bool
is_error (new k) target = kind_code k == kind_code target
is_error (wrap k e) target = kind_code k == kind_code target || is_error e target
is_error (foreign n) target = false

pub data Result {ℓ} (A : Type ℓ) : Type ℓ where
  ok : A → Result A
  err : GoError → Result A

pub Result-cases {ℓ} :
    {A : Type ℓ} (r : Result A) → ((a : A) × (r ≡ ok a)) ⊎ ((e : GoError) × (r ≡ err e))
Result-cases (ok a) = inl (a, refl)
Result-cases (err e) = inr (e, refl)

-- `if err != nil { return err }`; an `abbrev`, so that a bind of a value computes.
infixl 5 ◌>>=◌
abbrev pub ◌>>=◌ {ℓ κ} : {A : Type ℓ} {B : Type κ} → Result A → (A → Result B) → Result B
ok a >>= f = f a
err e >>= f = err e
