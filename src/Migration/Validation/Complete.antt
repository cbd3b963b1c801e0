-- ===== src/Migration/Validation/Complete.antt =====
-- What validateMigrationSet reports on.
use surql_go.Prelude.{
  ℕ, suc, ◌+◌, ◌≤◌, ◌≡◌, refl, sym, ◌∙◌, ◌↔◌, Bool, true, false, ◌&&◌, ltb, if◌then◌else◌,
  Bool-cases, inl, inr, Option, none, some, List, [], ◌∷◌, ◌++◌, arith, Str, str_eq, str_ltb,
  str_eq_iff, str_eq_sym, str_eq_refl, sort_by-nil, GoMap, lookup, insert, lookup-insert,
  lookup-empty, sort_by,
}
use surql_go.Migration.Models.{Migration}
use surql_go.Migration.Validation.{
  increment, count_versions, repeated, duplicate_issues, version_set, missing_issues, empty_issues,
  migration_issues, validate_migration_set,
}

-- How many migrations have a version
abbrev pub times : Str → List Migration → ℕ
times v [] = 0
times v (m ∷ ms) = if str_eq m.version v then suc (times v ms) else times v ms

abbrev pub among : Str → List Migration → Bool
among v [] = false
among v (m ∷ ms) = if str_eq m.version v then true else among v ms

-- Every dependency is among the versions.
abbrev pub all_among : List Str → List Migration → Bool
all_among [] ms = true
all_among (d ∷ ds) ms = among d ms && all_among ds ms

abbrev pub has_up : Migration → Bool
has_up m = elim m.up_statements [ [] ↦ false | s ∷ ss ↦ true ]

-- Each of the migrations has its dependencies among all of them, and up statements.
abbrev pub sound_within : List Migration → List Migration → Bool
sound_within [] all = true
sound_within (m ∷ ms) all = (all_among m.depends_on all && has_up m) && sound_within ms all

count_of : Option ℕ → ℕ
count_of none = 0
count_of (some n) = n

count_versions-times :
    (v : Str) (ms : List Migration) (counts : GoMap ℕ)
    → count_of (lookup v (count_versions ms counts)) ≡ count_of (lookup v counts) + times v ms
unfolding count_versions increment count_of
count_versions-times v [] counts = omega arith
count_versions-times v (m ∷ ms) counts =
    count_versions-times v ms (increment m.version counts)
    ∙ ground (
      arith,
      lookup-insert m.version v (elim (lookup m.version counts) [ none ↦ 1 | some n ↦ n + 1 ])
          counts,
      str_eq_iff m.version v,
    )

-- No key stands twice in a map.
abbrev Fresh {ℓ} : {V : Type ℓ} → Str → GoMap V → Type 0
Fresh k [] = Unit
Fresh k ((j, v) ∷ m) = (str_eq j k ≡ false) × Fresh k m

abbrev IsDistinct {ℓ} : {V : Type ℓ} → GoMap V → Type 0
IsDistinct [] = Unit
IsDistinct ((k, v) ∷ m) = Fresh k m × IsDistinct m

Fresh-insert :
    (k j : Str) (n : ℕ) (m : GoMap ℕ) → str_eq j k ≡ false → Fresh k m → Fresh k (insert j n m)
unfolding insert
Fresh-insert k j n [] h d = (h, tt)
Fresh-insert k j n ((i, w) ∷ m) h d = elim (Bool-cases (str_eq i j)) [
  | inl p ↦ rw (p, insert) d
  | inr p ↦ rw (p, insert) (d.0, Fresh-insert k j n m h d.1)
]

insert-IsDistinct : (k : Str) (n : ℕ) (m : GoMap ℕ) → IsDistinct m → IsDistinct (insert k n m)
unfolding insert
insert-IsDistinct k n [] d = (tt, tt)
insert-IsDistinct k n ((i, w) ∷ m) d = elim (Bool-cases (str_eq i k)) [
  | inl p ↦ rw (p, insert) d
  | inr p ↦
      rw (p, insert) (Fresh-insert i k n m (str_eq_sym k i ∙ p) d.0, insert-IsDistinct k n m d.1)
]

count_versions-IsDistinct :
    (ms : List Migration) (counts : GoMap ℕ)
    → IsDistinct counts
    → IsDistinct (count_versions ms counts)
unfolding count_versions increment
count_versions-IsDistinct [] counts d = d
count_versions-IsDistinct (m ∷ ms) counts d =
    count_versions-IsDistinct ms _ (insert-IsDistinct m.version _ counts d)

lookup-Fresh : (k : Str) (m : GoMap ℕ) → Fresh k m → lookup k m ≡ none
unfolding lookup
lookup-Fresh k [] d = refl
lookup-Fresh k ((j, v) ∷ m) d = ground (arith, lookup-Fresh k m)

repeated-empty :
    (counts : GoMap ℕ)
    → IsDistinct counts
    → repeated counts ≡ []
    → (v : Str) → count_of (lookup v counts) ≤ 1
unfolding repeated lookup count_of
repeated-empty [] d h v = omega arith
repeated-empty ((k, c) ∷ rest) d h v = elim (Bool-cases (ltb 1 c)) [
  | inl p ↦ absurd (ground arith)
  | inr p ↦
      let rest_empty : repeated rest ≡ [] = ground arith in
      let least = repeated-empty rest d.1 rest_empty v in ground arith
]

repeated-none :
    (counts : GoMap ℕ)
    → IsDistinct counts
    → ((v : Str) → count_of (lookup v counts) ≤ 1)
    → repeated counts ≡ []
unfolding repeated lookup count_of
repeated-none [] d h = refl
repeated-none ((k, c) ∷ rest) d h =
    let once : c ≤ 1 = ground (arith, h k, str_eq_refl k) in
    let others =
      repeated-none rest d.1 (λ v. ground (arith, h v, str_eq_iff k v, lookup-Fresh k rest d.0)) in
    ground arith

lookup-version_set :
    (v : Str) (ms : List Migration) (set : GoMap Bool)
    → lookup v (version_set ms set) ≡ (if among v ms then some true else lookup v set)
unfolding version_set
lookup-version_set v [] set = refl
lookup-version_set v (m ∷ ms) set =
    lookup-version_set v ms (insert m.version true set)
    ∙ ground (arith, lookup-insert m.version v true set)

counted : (v : Str) (ms : List Migration) → count_of (lookup v (count_versions ms [])) ≡ times v ms
unfolding lookup count_of
counted v ms = count_versions-times v ms [] ∙ omega arith

unique_iff :
    (ms : List Migration) → (repeated (count_versions ms []) ≡ []) ↔ ((v : Str) → times v ms ≤ 1)
unique_iff ms =
    let distinct = count_versions-IsDistinct ms [] tt in
    (
      λ h v. rw (sym (counted v ms)) (repeated-empty (count_versions ms []) distinct h v),
      λ h. repeated-none (count_versions ms []) distinct (λ v. rw (counted v ms) (h v)),
    )

append-nil : (xs ys : List Str) → (xs ++ ys ≡ []) ↔ ((xs ≡ []) × (ys ≡ []))
append-nil [] ys = (λ h. (refl, h), λ h. h.1)
append-nil (x ∷ xs) ys = (λ h. absurd (ground (arith, h)), λ h. absurd (ground (arith, h.0)))

missing-none :
    (ms : List Migration) (version : Str) (deps : List Str)
    → (missing_issues (version_set ms []) version deps ≡ []) ↔ (all_among deps ms ≡ true)
unfolding missing_issues
missing-none ms version [] = (λ h. refl, λ h. refl)
missing-none ms version (d ∷ ds) =
    ground
      (arith, lookup-version_set d ms [], lookup-empty {V = Bool} d, missing-none ms version ds)

empty-none : (m : Migration) → (empty_issues m ≡ []) ↔ (has_up m ≡ true)
unfolding empty_issues
empty-none m = ground arith

issues-none :
    (all ms : List Migration)
    → (migration_issues (version_set all []) ms ≡ []) ↔ (sound_within ms all ≡ true)
unfolding migration_issues
issues-none all [] = (λ h. refl, λ h. refl)
issues-none all (m ∷ ms) = ground (
  arith,
  append-nil (missing_issues (version_set all []) m.version m.depends_on)
      (empty_issues m ++ migration_issues (version_set all []) ms),
  append-nil (empty_issues m) (migration_issues (version_set all []) ms),
  missing-none all m.version m.depends_on,
  empty-none m,
  issues-none all ms,
)

duplicate-none : (vs : List Str) → (duplicate_issues vs ≡ []) ↔ (vs ≡ [])
unfolding duplicate_issues
duplicate-none [] = (λ h. refl, λ h. refl)
duplicate-none (v ∷ vs) = (λ h. absurd (ground (arith, h)), λ h. absurd (ground (arith, h)))

sorted-none : (l : List Str) → (sort_by str_ltb l ≡ []) ↔ (l ≡ [])
unfolding sort_by
sorted-none [] = (λ h. refl, λ h. refl)
sorted-none (x ∷ xs) = (λ h. sort_by-nil str_ltb (x ∷ xs) h, λ h. absurd (ground (arith, h)))

-- A set of migrations has no issues exactly if no version stands twice, and each migration has its
-- dependencies in the set and up statements; it may lack down statements.
pub validate_migration_set-none :
    (ms : List Migration)
    → (validate_migration_set ms ≡ [])
      ↔ (((v : Str) → times v ms ≤ 1) × (sound_within ms ms ≡ true))
unfolding validate_migration_set
validate_migration_set-none ms =
    let dup = duplicate_issues (repeated (count_versions ms [])) in
    let rest = migration_issues (version_set ms []) ms in
    (
      λ h.
          let (d, r) = (append-nil dup rest).0 ((sorted-none (dup ++ rest)).0 h) in
          ((unique_iff ms).0 ((duplicate-none _).0 d), (issues-none ms ms).0 r),
      λ (u, s). (sorted-none (dup ++ rest)).1 (
          (append-nil dup rest).1
            ((duplicate-none _).1 ((unique_iff ms).1 u), (issues-none ms ms).1 s)),
    )
