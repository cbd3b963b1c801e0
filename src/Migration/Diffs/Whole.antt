-- ===== src/Migration/Diffs/Whole.antt =====
-- DiffSchemas of diff.go on two whole schemas.
use surql_go.Prelude.{◌≡◌, ◌≢◌, ◌↔◌, none, some, List, [], ◌∷◌, ◌++◌, arith, Str, Every}
use surql_go.Errors.{Result, ok, err, ◌>>=◌}
use surql_go.Schema.Clauses.{Texts}
use surql_go.Schema.Tables.{TableDefinition, zero_table}
use surql_go.Schema.Edges.{EdgeDefinition, zero_edge}
use surql_go.Schema.Buckets.{BucketDefinition, zero_bucket}
use surql_go.Migration.Diffs.{SchemaDiff, diff_named}
use surql_go.Migration.Diffs.Generators.{generate_table_diff, generate_edge_diff}
use surql_go.Migration.Diffs.Tables.{
  diff_tables, diff_edges, add_children, generate_add_table_diffs, generate_add_edge_diffs,
}
use surql_go.Migration.Diffs.Buckets.{diff_buckets, diff_bucket_sets}
use surql_go.Migration.Diffs.Schemas.{Schemas, diff_schemas}
use surql_go.Migration.Diffs.Agreement.{diff_named-nil}
use surql_go.Migration.Diffs.Equal.{IsMap}
use surql_go.Migration.Diffs.Silence.{SameTable}
use surql_go.Migration.Diffs.Settled.{
  SameBy, SameBy-map, SameEdge, SameBucket, SameSchemas, IsProper, starts-ne-nil, diff_tables-nil,
  diff_edges-nil, diff_buckets-nil,
}

three-nil :
    (t e b : Result (List SchemaDiff))
    → ((t >>= λ ts. e >>= λ es. b >>= λ bs. ok (ts ++ (es ++ bs))) ≡ ok [])
      ↔ ((t ≡ ok []) × (e ≡ ok []) × (b ≡ ok []))
three-nil (err x) e b = (λ h. absurd (ground (arith, h)), λ h. absurd (ground (arith, h)))
three-nil (ok t) (err x) b = (λ h. absurd (ground (arith, h)), λ h. absurd (ground (arith, h)))
three-nil (ok t) (ok e) (err x) = (λ h. absurd (ground (arith, h)), λ h. absurd (ground (arith, h)))
three-nil (ok []) (ok []) (ok b) = (λ h. ground (arith, h), λ h. ground (arith, h))
three-nil (ok (d ∷ t)) (ok e) (ok b) =
    (λ h. absurd (ground (arith, h)), λ h. absurd (ground (arith, h)))
three-nil (ok []) (ok (d ∷ e)) (ok b) =
    (λ h. absurd (ground (arith, h)), λ h. absurd (ground (arith, h)))

-- Where the comparison of two elements is silent for a relation, so are the loops.
named-nil {ℓ} :
    {A : Type ℓ} (name : A → Str) (zero_value : A) (add drop : A → Result (List SchemaDiff))
    (modify : A → A → Result (List SchemaDiff)) (P : A → Type 0) (R : A → A → Type 0)
    → ((a : A) → add a ≢ ok [])
    → ((a : A) → drop a ≢ ok [])
    → ((a b : A) → P a → P b → (modify a b ≡ ok []) ↔ R a b)
    → (olds news : List A) → Every P olds
    → Every P news
    → (diff_named name zero_value add drop modify olds news ≡ ok []) ↔ SameBy name R olds news
named-nil name zero_value add drop modify P R adds drops silent olds news po pn =
    let lemma = diff_named-nil name zero_value add drop modify adds drops olds news in
    (
      λ h.
          SameBy-map name P (λ a b. modify a b ≡ ok []) R olds news po pn
            (λ a b pa pb. (silent a b pa pb).0) (lemma.0 h),
      λ h. lemma.1 (
          SameBy-map name P R (λ a b. modify a b ≡ ok []) olds news po pn
            (λ a b pa pb. (silent a b pa pb).1) h),
    )

module _ (x : Texts) where
  added-ne-nil : (t : TableDefinition) → diff_tables x none (some t) ≢ ok []
  unfolding diff_tables generate_add_table_diffs
  added-ne-nil t =
      starts-ne-nil (add_children x t.name t.fields t.indexes t.events) (generate_table_diff t) _

  added_edge-ne-nil : (e : EdgeDefinition) → diff_edges x none (some e) ≢ ok []
  unfolding diff_edges generate_add_edge_diffs
  added_edge-ne-nil e =
      starts-ne-nil (add_children x e.name e.fields e.indexes e.events) (generate_edge_diff e) _

  dropped-ne-nil : (t : TableDefinition) → diff_tables x (some t) none ≢ ok []
  unfolding diff_tables
  dropped-ne-nil t h = ground (arith, h)

  dropped_edge-ne-nil : (e : EdgeDefinition) → diff_edges x (some e) none ≢ ok []
  unfolding diff_edges
  dropped_edge-ne-nil e h = ground (arith, h)

  added_bucket-ne-nil : (b : BucketDefinition) → diff_buckets x none (some b) ≢ ok []
  unfolding diff_buckets
  added_bucket-ne-nil b h = ground (arith, h)

  dropped_bucket-ne-nil : (b : BucketDefinition) → diff_buckets x (some b) none ≢ ok []
  unfolding diff_buckets
  dropped_bucket-ne-nil b h = ground (arith, h)

  tables-nil :
      (db code : List TableDefinition)
      → Every (λ t. IsMap t.permissions) db
      → Every (λ t. IsMap t.permissions) code
      → (diff_named
            (λ t. t.name)
            zero_table
            (λ t. diff_tables x none (some t))
            (λ t. diff_tables x (some t) none)
            (λ a b. diff_tables x (some a) (some b))
            db
            code
          ≡ ok [])
        ↔ SameBy (λ t. t.name) SameTable db code
  tables-nil db code pd pc =
      named-nil (λ t. t.name) zero_table (λ t. diff_tables x none (some t))
        (λ t. diff_tables x (some t) none) (λ a b. diff_tables x (some a) (some b))
        (λ t. IsMap t.permissions) SameTable added-ne-nil dropped-ne-nil (diff_tables-nil x) db code
        pd pc

  edges-nil :
      (db code : List EdgeDefinition)
      → Every (λ e. IsMap e.permissions) db
      → Every (λ e. IsMap e.permissions) code
      → (diff_named
            (λ e. e.name)
            zero_edge
            (λ e. diff_edges x none (some e))
            (λ e. diff_edges x (some e) none)
            (λ a b. diff_edges x (some a) (some b))
            db
            code
          ≡ ok [])
        ↔ SameBy (λ e. e.name) SameEdge db code
  edges-nil db code pd pc =
      named-nil (λ e. e.name) zero_edge (λ e. diff_edges x none (some e))
        (λ e. diff_edges x (some e) none) (λ a b. diff_edges x (some a) (some b))
        (λ e. IsMap e.permissions) SameEdge added_edge-ne-nil dropped_edge-ne-nil (diff_edges-nil x)
        db code pd pc

  buckets-nil :
      (db code : List BucketDefinition)
      → Every (λ b. IsMap b.permissions) db
      → Every (λ b. IsMap b.permissions) code
      → (diff_bucket_sets x code db ≡ ok []) ↔ SameBy (λ b. b.name) SameBucket db code
  unfolding diff_bucket_sets
  buckets-nil db code pd pc =
      named-nil (λ b. b.name) zero_bucket (λ b. diff_buckets x none (some b))
        (λ b. diff_buckets x (some b) none) (λ a b. diff_buckets x (some a) (some b))
        (λ b. IsMap b.permissions) SameBucket added_bucket-ne-nil dropped_bucket-ne-nil
        (diff_buckets-nil x) db code pd pc

  -- DiffSchemas finds nothing to do exactly if both schemas hold, name by name, the same tables,
  -- edges and buckets, as far as it looks: fields up to their permissions, the names of indexes and
  -- of events, permissions, and all of a bucket; permissions are Go maps.
  pub diff_schemas-nil :
      (code db : Schemas)
      → IsProper code
      → IsProper db
      → (diff_schemas x code db ≡ ok []) ↔ SameSchemas db code
  unfolding diff_schemas
  diff_schemas-nil code db pc pd =
      let tables = tables-nil db.tables code.tables pd.tables pc.tables in
      let edges = edges-nil db.edges code.edges pd.edges pc.edges in
      let buckets = buckets-nil db.buckets code.buckets pd.buckets pc.buckets in
      (
        λ h.
            let (t, e, b) = (three-nil _ _ _).0 h in
            record { tables = tables.0 t; edges = edges.0 e; buckets = buckets.0 b },
        λ s. (three-nil _ _ _).1 (tables.1 s.tables, edges.1 s.edges, buckets.1 s.buckets),
      )
