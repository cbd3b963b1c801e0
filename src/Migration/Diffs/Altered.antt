-- ===== src/Migration/Diffs/Altered.antt =====
-- When the ALTER BUCKET statement for a modified bucket of diff.go changes nothing.
use mathlib.Core.List.{append_cancel_left}
use surql_go.Prelude.{
  ℕ, if◌then◌else◌, ◌≡◌, ◌≢◌, ◌↔◌, ◌⊎◌, refl, ap, drop, str_eq, Option-cases, inl, inr, Bool, true,
  false, Bool-cases, none, some, [], ◌∷◌, ◌++◌, arith, Str, bytes, str_eq_iff, str_eq_refl, GoMap,
}
use surql_go.Errors.{ok}
use surql_go.Schema.Clauses.{Texts, clause}
use surql_go.Schema.Buckets.{
  BucketDefinition, alter_bucket_surql, alter_read_only, alter_text, alter_permissions, blanket,
  permission_list, permissions_clause,
}
use surql_go.Migration.Diffs.{SchemaDiff}
use surql_go.Migration.Diffs.Tables.{permissions_equal, bool_eq}
use surql_go.Migration.Diffs.Buckets.{
  buckets_equal, changed_text, cleared_text, bucket_alter_change, diff_buckets,
  generate_modify_bucket_diff,
}
use surql_go.Migration.Diffs.Equal.{IsMap, SameMap, permissions_equal_iff}
use surql_go.Migration.Diffs.Named.{append-nil_inv}

append-ne : (s t : Str) → t ≢ [] → s ++ t ≢ []
append-ne s t h e = h (append-nil_inv s t e).1

-- A text before another one, both together a semicolon
in_front : (s t : Str) → t ≢ [] → s ++ t ≡ bytes ";" → (s ≡ []) × (t ≡ bytes ";")
in_front [] t h e = (refl, e)
in_front (c ∷ s) t h e = absurd (append-ne s t h (ap (drop 1) e))

only_end :
    (a b c d : Str)
    → a ++ (b ++ (c ++ (d ++ bytes ";"))) ≡ bytes ";"
    → (a ≡ []) × (b ≡ []) × (c ≡ []) × (d ≡ [])
only_end a b c d e =
    let one : bytes ";" ≢ [] = λ h. ground (arith, h) in
    let two = append-ne d _ one in
    let three = append-ne c _ two in
    let (no_a, e1) = in_front a _ (append-ne b _ three) e in
    let (no_b, e2) = in_front b _ three e1 in
    let (no_c, e3) = in_front c _ two e2 in (no_a, no_b, no_c, (in_front d _ one e3).0)

alter_read_only-nil :
    (a b : Bool) → (alter_read_only (if bool_eq a b then none else some b) ≡ []) ↔ (a ≡ b)
unfolding alter_read_only
alter_read_only-nil true true = (λ h. refl, λ h. refl)
alter_read_only-nil true false = (λ h. absurd (ground (arith, h)), λ h. absurd (ground (arith, h)))
alter_read_only-nil false true = (λ h. absurd (ground (arith, h)), λ h. absurd (ground (arith, h)))
alter_read_only-nil false false = (λ h. refl, λ h. refl)

alter_text-nil :
    (k : ℕ) (keyword from to : Str)
    → (alter_text (k ∷ keyword) (cleared_text from to) (changed_text from to) ≡ []) ↔ (from ≡ to)
unfolding alter_text cleared_text changed_text
alter_text-nil k keyword from [] = elim (Bool-cases (str_eq from [])) [
  | inl p ↦ rw (p, alter_text) (λ h. (str_eq_iff from []).0 p, λ h. refl)
  | inr p ↦
      rw (p, alter_text)
        (λ h. absurd (ground (arith, h)), λ h. absurd (ground (arith, p, (str_eq_iff from []).1 h)))
]
alter_text-nil k keyword from (c ∷ to) = elim (Bool-cases (str_eq from (c ∷ to))) [
  | inl p ↦ rw (p, alter_text) (λ h. (str_eq_iff from (c ∷ to)).0 p, λ h. refl)
  | inr p ↦
      rw (p, alter_text)
        (
          λ h. absurd (ground (arith, h)),
          λ h. absurd (ground (arith, p, (str_eq_iff from (c ∷ to)).1 h)),
        )
]

module _ (x : Texts) where
  blanket-ne : (m : GoMap Str) (t : Str) → blanket x m ≡ some t → t ≢ []
  unfolding blanket
  blanket-ne [] t h e = ground (arith, h)
  blanket-ne (p ∷ q ∷ m) t h e = ground (arith, h)
  blanket-ne (p ∷ []) t h e = ground (arith, h, e)

  permissions_clause-ne : (p : Str × Str) (m : GoMap Str) → permissions_clause x (p ∷ m) ≢ []
  unfolding permissions_clause permission_list
  permissions_clause-ne p m e = elim (Option-cases (blanket x (p ∷ m))) [
    | inl q ↦ ground (arith, e, q)
    | inr (t, q) ↦ blanket-ne (p ∷ m) t q (ground (arith, e, q))
  ]

  alter_permissions-nil :
      (from to : GoMap Str)
      → IsMap from
      → IsMap to
      → (alter_permissions x (if permissions_equal from to then none else some to) ≡ [])
        ↔ (SameMap from to ⊎ (to ≡ []))
  unfolding alter_permissions permissions_clause
  alter_permissions-nil from [] mf mt = elim (Bool-cases (permissions_equal from [])) [
    | inl p ↦ rw p (λ h. inr refl, λ h. refl)
    | inr p ↦ rw p (λ h. inr refl, λ h. refl)
  ]
  alter_permissions-nil from (q ∷ to) mf mt =
      let same = permissions_equal_iff from (q ∷ to) mf mt in
      elim (Bool-cases (permissions_equal from (q ∷ to))) [
        | inl p ↦ rw p (λ h. inl (same.0 p), λ h. refl)
        | inr p ↦ rw p (
          λ h. absurd (permissions_clause-ne q to (shown _ h)),
          λ h. elim h [
            | inl agree ↦ absurd (ground (arith, p, same.1 agree))
            | inr empty ↦ absurd (ground (arith, empty))
          ],
        )
      ]
    where
      shown : (t : Str) → clause (bytes " ") t ≡ [] → t ≡ []
      shown [] h = refl
      shown (c ∷ t) h = absurd (ground (arith, h))

  -- What a statement without a clause leaves as it should be
  pub record IsSilent (from to : BucketDefinition) : Type 0 where
    pub backend : from.backend ≡ to.backend
    pub read_only : from.read_only ≡ to.read_only
    pub comment : from.comment ≡ to.comment
    pub permissions : SameMap from.permissions to.permissions ⊎ (to.permissions ≡ [])

  -- The ALTER BUCKET statement for a modified bucket has no clause exactly if nothing but the name is
  -- to be changed, or nothing but the name and permissions of which none are to be left; the
  -- permissions are Go maps. So the statement has a clause for every other change.
  pub bare_statement_iff :
      (from to : BucketDefinition)
      → IsMap from.permissions
      → IsMap to.permissions
      → ((generate_modify_bucket_diff x from to).forward
          ≡ bytes "ALTER BUCKET " ++ (to.name ++ bytes ";"))
        ↔ IsSilent from to
  unfolding generate_modify_bucket_diff alter_bucket_surql bucket_alter_change
  bare_statement_iff from to mf mt =
      let flag = alter_read_only-nil from.read_only to.read_only in
      let place = alter_text-nil b' ' (bytes "BACKEND") from.backend to.backend in
      let perms = alter_permissions-nil from.permissions to.permissions mf mt in
      let note = alter_text-nil b' ' (bytes "COMMENT") from.comment to.comment in
      (
        λ h.
            let (no_flag, no_place, no_perms, no_note) =
              only_end _ _ _ _ (append_cancel_left to.name _ _ (ap (drop 13) h)) in
            record {
              backend = place.0 no_place;
              read_only = flag.0 no_flag;
              comment = note.0 no_note;
              permissions = perms.0 no_perms;
            },
        λ s.
            rw (flag.1 s.read_only, place.1 s.backend, perms.1 s.permissions, note.1 s.comment)
              refl,
      )

bool_eq_refl : (b : Bool) → bool_eq b b ≡ true
bool_eq_refl true = refl
bool_eq_refl false = refl

lost-ne : (m : GoMap Str) → m ≢ [] → permissions_equal m [] ≡ false
unfolding permissions_equal
lost-ne [] some_left = absurd (some_left refl)
lost-ne (p ∷ m) some_left = ground arith

cleared_text-same : (s : Str) → cleared_text s s ≡ false
unfolding cleared_text
cleared_text-same s = ground (arith, str_eq_refl s)

changed_text-same : (s : Str) → changed_text s s ≡ none
unfolding changed_text
changed_text-same s = ground (arith, str_eq_refl s)

module _ (x : Texts) where
  -- DiffBuckets on a bucket that loses all of its permissions and stays the same otherwise finds a
  -- difference, and the statement for it changes nothing.
  pub lost_permissions :
      (b : BucketDefinition)
      → b.permissions ≢ []
      → (d : SchemaDiff) × (diff_buckets x (some b) (some (record b { permissions = [] }))
          ≡ ok (d ∷ []))
        × (d.forward ≡ bytes "ALTER BUCKET " ++ (b.name ++ bytes ";"))
  unfolding diff_buckets buckets_equal generate_modify_bucket_diff alter_bucket_surql
      bucket_alter_change permissions_clause
  lost_permissions b some_left = (
    generate_modify_bucket_diff x b (record b { permissions = [] }),
    ground (arith, lost-ne b.permissions some_left),
    rw
        (
          bool_eq_refl b.read_only,
          lost-ne b.permissions some_left,
          cleared_text-same b.backend,
          changed_text-same b.backend,
          cleared_text-same b.comment,
          changed_text-same b.comment,
        )
        refl,
  )
