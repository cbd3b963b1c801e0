-- ===== src/Migration/Diffs/Silence.antt =====
-- When the diff functions of diff.go find nothing to do.
use surql_go.Prelude.{
  ◌≡◌, ◌≢◌, ◌↔◌, inl, inr, Bool-cases, Option, none, some, List, [], ◌∷◌, ◌++◌, arith, Str,
}
use surql_go.Errors.{Result, ok, err, ◌>>=◌}
use surql_go.Schema.Clauses.{Texts}
use surql_go.Schema.Fields.{FieldDefinition, zero_field}
use surql_go.Schema.Tables.{TableDefinition}
use surql_go.Migration.Diffs.{SchemaDiff}
use surql_go.Migration.Diffs.Generators.{
  generate_add_field_diff, generate_drop_field_diff, generate_modify_field_diff,
  generate_add_index_diff, generate_drop_index_diff, generate_add_event_diff,
  generate_drop_event_diff,
}
use surql_go.Migration.Diffs.Tables.{
  single, fields_equal, permissions_equal, modify_field_pass, diff_fields, diff_events,
  diff_permissions, diff_indexes, diff_both,
}
use surql_go.Migration.Diffs.Named.{last_named, found}
use surql_go.Migration.Diffs.Agreement.{Agree, added_dropped-nil, diff_named-nil}
use surql_go.Migration.Diffs.Equal.{
  SameField, fields_equal_iff, IsMap, SameMap, permissions_equal_iff,
}

pub single-ne-nil : (r : Result SchemaDiff) → single r ≢ ok []
single-ne-nil (ok d) h = ground (arith, h)
single-ne-nil (err e) h = ground (arith, h)

pub Agree-iff {ℓ} :
    {A : Type ℓ} (R Q : A → A → Type 0)
    → ((a b : A) → R a b → Q a b)
    → (a b : Option A) → Agree R a b
    → Agree Q a b
Agree-iff R Q f none none h = tt
Agree-iff R Q f none (some b) h = h
Agree-iff R Q f (some a) none h = h
Agree-iff R Q f (some a) (some b) h = f a b h

-- The same fields under the same names, the last of a name being the one that counts
abbrev pub SameFields : List FieldDefinition → List FieldDefinition → Type 0
SameFields fs gs =
    (n : Str) → Agree SameField (last_named (λ f. f.name) n fs) (last_named (λ f. f.name) n gs)

abbrev pub SameNames {ℓ} : {A : Type ℓ} → (A → Str) → List A → List A → Type 0
SameNames name xs ys = (n : Str) → found (last_named name n xs) ≡ found (last_named name n ys)

module _ (x : Texts) where
  pass-nil :
      (table : Str) (f g : FieldDefinition)
      → (modify_field_pass x table f g ≡ ok []) ↔ SameField f g
  unfolding modify_field_pass
  pass-nil table f g = (
    λ h. elim (Bool-cases (fields_equal f g)) [
      | inl same ↦ (fields_equal_iff f g).0 same
      | inr other ↦
          absurd (single-ne-nil (generate_modify_field_diff x table f g) (ground (arith, h, other)))
    ],
    λ s. ground (arith, (fields_equal_iff f g).1 s),
  )

  -- DiffFields finds nothing exactly if both tables have the same fields, up to their permissions,
  -- under the same names.
  pub diff_fields-nil :
      (a b : TableDefinition) → (diff_fields x a b ≡ ok []) ↔ SameFields a.fields b.fields
  unfolding diff_fields
  diff_fields-nil a b =
      let lemma =
        diff_named-nil (λ f. f.name) zero_field (λ f. single (generate_add_field_diff x b.name f))
          (λ f. single (generate_drop_field_diff x b.name f)) (modify_field_pass x b.name)
          (λ f. single-ne-nil _) (λ f. single-ne-nil _) a.fields b.fields in
      (
        λ h n.
            Agree-iff (λ f g. modify_field_pass x b.name f g ≡ ok []) SameField
              (λ f g e. (pass-nil b.name f g).0 e) _ _ (lemma.0 h n),
        λ h. lemma.1 (λ n.
            Agree-iff SameField (λ f g. modify_field_pass x b.name f g ≡ ok [])
              (λ f g e. (pass-nil b.name f g).1 e) _ _ (h n)),
      )

  diff_events-nil :
      (a b : TableDefinition)
      → (diff_events x a b ≡ ok []) ↔ SameNames (λ e. e.name) a.events b.events
  unfolding diff_events
  diff_events-nil a b =
      added_dropped-nil (λ e. e.name) (λ e. single (generate_add_event_diff x b.name e))
        (λ e. single (generate_drop_event_diff x b.name e)) (λ e. single-ne-nil _)
        (λ e. single-ne-nil _) a.events b.events

diff_indexes-nil :
    (a b : TableDefinition)
    → (diff_indexes a b ≡ ok []) ↔ SameNames (λ i. i.name) a.indexes b.indexes
unfolding diff_indexes
diff_indexes-nil a b =
    added_dropped-nil (λ i. i.name) (λ i. single (generate_add_index_diff b.name i))
      (λ i. single (generate_drop_index_diff b.name i)) (λ i. single-ne-nil _)
      (λ i. single-ne-nil _) a.indexes b.indexes

-- What DiffTables looks at in two tables
pub record SameTable (a b : TableDefinition) : Type 0 where
  pub fields : SameFields a.fields b.fields
  pub indexes : SameNames (λ i. i.name) a.indexes b.indexes
  pub events : SameNames (λ e. e.name) a.events b.events
  pub permissions : SameMap a.permissions b.permissions

four-nil :
    (f i e : Result (List SchemaDiff)) (p : List SchemaDiff)
    → ((f >>= λ fs. i >>= λ is. e >>= λ es. ok (fs ++ (is ++ (es ++ p)))) ≡ ok [])
      ↔ ((f ≡ ok []) × (i ≡ ok []) × (e ≡ ok []) × (p ≡ []))
four-nil (err x) i e p = (λ h. absurd (ground (arith, h)), λ h. absurd (ground (arith, h)))
four-nil (ok f) (err x) e p = (λ h. absurd (ground (arith, h)), λ h. absurd (ground (arith, h)))
four-nil (ok f) (ok i) (err x) p =
    (λ h. absurd (ground (arith, h)), λ h. absurd (ground (arith, h)))
four-nil (ok []) (ok []) (ok []) p = (λ h. ground (arith, h), λ h. ground (arith, h))
four-nil (ok (d ∷ f)) (ok i) (ok e) p =
    (λ h. absurd (ground (arith, h)), λ h. absurd (ground (arith, h)))
four-nil (ok []) (ok (d ∷ i)) (ok e) p =
    (λ h. absurd (ground (arith, h)), λ h. absurd (ground (arith, h)))
four-nil (ok []) (ok []) (ok (d ∷ e)) p =
    (λ h. absurd (ground (arith, h)), λ h. absurd (ground (arith, h)))

module _ (x : Texts) where
  diff_permissions-nil :
      (a b : TableDefinition)
      → IsMap a.permissions
      → IsMap b.permissions
      → (diff_permissions x a b ≡ []) ↔ SameMap a.permissions b.permissions
  unfolding diff_permissions
  diff_permissions-nil a b ma mb =
      let same = permissions_equal_iff a.permissions b.permissions ma mb in
      (
        λ h. elim (Bool-cases (permissions_equal a.permissions b.permissions)) [
          | inl e ↦ same.0 e
          | inr e ↦ absurd (ground (arith, h, e))
        ],
        λ s. ground (arith, same.1 s),
      )

  -- The passes over two tables find nothing exactly if these have the same fields, up to their
  -- permissions, the same names of indexes and of events, and the same permissions.
  pub diff_both-nil :
      (a b : TableDefinition)
      → IsMap a.permissions
      → IsMap b.permissions
      → (diff_both x a b ≡ ok []) ↔ SameTable a b
  unfolding diff_both
  diff_both-nil a b ma mb =
      let parts =
        four-nil (diff_fields x a b) (diff_indexes a b) (diff_events x a b)
          (diff_permissions x a b) in
      (
        λ h.
            let (f, i, e, p) = parts.0 h in
            record {
              fields = (diff_fields-nil x a b).0 f;
              indexes = (diff_indexes-nil a b).0 i;
              events = (diff_events-nil x a b).0 e;
              permissions = (diff_permissions-nil a b ma mb).0 p;
            },
        λ s. parts.1 (
          (diff_fields-nil x a b).1 s.fields,
          (diff_indexes-nil a b).1 s.indexes,
          (diff_events-nil x a b).1 s.events,
          (diff_permissions-nil a b ma mb).1 s.permissions,
        ),
      )
