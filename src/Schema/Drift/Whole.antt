-- ===== src/Schema/Drift/Whole.antt =====
-- When CompareSchemas of pkg/surql/schema/validator.go reports nothing.
use surql_go.Prelude.{
  if◌then◌else◌, ◌≡◌, ◌↔◌, refl, Bool, true, false, ◌&&◌, List, [], ◌++◌, arith, Str, str_eq,
  str_eq_iff,
}
use surql_go.Prelude.Int.{ℤ, eq_of_parts}
use surql_go.Schema.Fields.{FieldDefinition}
use surql_go.Schema.Indexes.{IndexDefinition, index_mtree, index_hnsw}
use surql_go.Schema.Events.{EventDefinition}
use surql_go.Schema.Tables.{TableDefinition}
use surql_go.Schema.Edges.{EdgeDefinition}
use surql_go.Migration.Diffs.Settled.{SameBy}
use surql_go.Migration.Diffs.Silence.{Agree-iff}
use surql_go.Schema.Drift.{ValidationResult, unless, normalize_expression, compare_named}
use surql_go.Schema.Drift.Definitions.{
  same_flag, same_number, diff_field, diff_fields, diff_index, diff_indexes, diff_events,
  diff_mtree_params, diff_hnsw_params,
}
use surql_go.Schema.Drift.Comparison.{diff_table, diff_edge, compare_schemas}
use surql_go.Schema.Drift.Silence.{append-nil, unless-nil, compare_named-nil}
use surql_go.Schema.Drift.Columns.{sorted_slice_equal_iff}
use surql_go.Schema.Drift.Spaces.{FieldsLaws, normalize_expression_iff}
use surql_go.Schema.Drift.Sameness.{
  IsSameField, HasSameMtree, HasSameHnsw, IsSameIndex, IsAny, AreSameChildren, IsSameTable,
  IsSameEdge,
}

same_flag_iff : (a b : Bool) → (same_flag a b ≡ true) ↔ (a ≡ b)
same_flag_iff true b = (λ h. ground (arith, h), λ h. ground (arith, h))
same_flag_iff false b = (λ h. ground (arith, h), λ h. ground (arith, h))

same_number_iff : (a b : ℤ) → (same_number a b ≡ true) ↔ (a ≡ b)
same_number_iff a b = (λ h. eq_of_parts a b (ground (arith, h)), λ e. rw e (ground arith))

alone : (b : Bool) (P : Type 0) (r : ValidationResult) → ((b ≡ true) ↔ P) → (unless b r ≡ []) ↔ P
alone b P r f = (λ h. f.0 ((unless-nil b r).0 h), λ p. (unless-nil b r).1 (f.1 p))

both :
    (P Q : Type 0) (xs ys : List ValidationResult)
    → ((xs ≡ []) ↔ P)
    → ((ys ≡ []) ↔ Q)
    → (xs ++ ys ≡ []) ↔ (P × Q)
both P Q xs ys f g = (
  λ h. let (x, y) = (append-nil xs ys).0 h in (f.0 x, g.0 y),
  λ pq. (append-nil xs ys).1 (f.1 pq.0, g.1 pq.1),
)

-- One comparison in front of others
next :
    (b : Bool) (P Q : Type 0) (r : ValidationResult) (rest : List ValidationResult)
    → ((b ≡ true) ↔ P)
    → ((rest ≡ []) ↔ Q)
    → (unless b r ++ rest ≡ []) ↔ (P × Q)
next b P Q r rest f g = both P Q (unless b r) rest (alone b P r f) g

guarded :
    (b c : Bool) (B C P : Type 0) (xs : List ValidationResult)
    → ((b ≡ true) ↔ B)
    → ((c ≡ true) ↔ C)
    → ((xs ≡ []) ↔ P)
    → ((if b && c then xs else []) ≡ []) ↔ (B × C → P)
guarded true true B C P xs f g k = (λ h bc. k.0 h, λ h. k.1 (h (f.0 refl, g.0 refl)))
guarded true false B C P xs f g k = (λ h bc. absurd (ground (arith, g.1 bc.1)), λ h. refl)
guarded false c B C P xs f g k = (λ h bc. absurd (ground (arith, f.1 bc.0)), λ h. refl)

expressions_iff :
    (words : Str → List Str) (a b : Str)
    → FieldsLaws words
    → (str_eq (normalize_expression words a) (normalize_expression words b) ≡ true)
      ↔ (words a ≡ words b)
expressions_iff words a b laws =
    let texts = str_eq_iff (normalize_expression words a) (normalize_expression words b) in
    let by_words = normalize_expression_iff words a b laws in
    (λ h. by_words.0 (texts.0 h), λ h. texts.1 (by_words.1 h))

diff_field-nil :
    (words : Str → List Str) (laws : FieldsLaws words) (container : Str) (a b : FieldDefinition)
    → (diff_field words container a b ≡ []) ↔ IsSameField words a b
unfolding diff_field
diff_field-nil words laws container a b = next _ _ _ _ _ (str_eq_iff a.type b.type) (
    next _ _ _ _ _ (expressions_iff words a.assertion b.assertion laws) (
      next _ _ _ _ _ (expressions_iff words a.default b.default laws) (
        next _ _ _ _ _ (expressions_iff words a.value b.value laws) (
          next _ _ _ _ _ (same_flag_iff a.read_only b.read_only)
            (alone _ _ _ (same_flag_iff a.flexible b.flexible))))))

mtree-nil :
    (container : Str) (a b : IndexDefinition)
    → (diff_mtree_params container a b ≡ []) ↔ HasSameMtree a b
unfolding diff_mtree_params
mtree-nil container a b = next _ _ _ _ _ (same_number_iff a.dimension b.dimension) (
    next _ _ _ _ _ (str_eq_iff a.distance b.distance)
      (alone _ _ _ (str_eq_iff a.vector_type b.vector_type)))

hnsw-nil :
    (container : Str) (a b : IndexDefinition)
    → (diff_hnsw_params container a b ≡ []) ↔ HasSameHnsw a b
unfolding diff_hnsw_params
hnsw-nil container a b = next _ _ _ _ _ (same_number_iff a.dimension b.dimension) (
    next _ _ _ _ _ (str_eq_iff a.hnsw_distance b.hnsw_distance) (
      next _ _ _ _ _ (str_eq_iff a.vector_type b.vector_type)
        (next _ _ _ _ _ (same_number_iff a.efc b.efc) (alone _ _ _ (same_number_iff a.m b.m)))))

diff_index-nil :
    (container : Str) (a b : IndexDefinition) → (diff_index container a b ≡ []) ↔ IsSameIndex a b
unfolding diff_index
diff_index-nil container a b = next _ _ _ _ _ (str_eq_iff a.type b.type) (
    next _ _ _ _ _ (sorted_slice_equal_iff a.columns b.columns) (
      both _ _ _ _
        (guarded _ _ _ _ _ _ (str_eq_iff a.type index_mtree) (str_eq_iff b.type index_mtree)
          (mtree-nil container a b))
        (guarded _ _ _ _ _ _ (str_eq_iff a.type index_hnsw) (str_eq_iff b.type index_hnsw)
          (hnsw-nil container a b))))

-- Where a comparison is silent exactly on related elements, so are the loops.
named {ℓ} :
    {A : Type ℓ} (name : A → Str) (lacks adds : Str → ValidationResult)
    (compare : A → A → List ValidationResult) (R : A → A → Type 0) (code db : List A)
    → ((a b : A) → (compare a b ≡ []) ↔ R a b)
    → (compare_named name lacks adds compare code db ≡ []) ↔ SameBy name R code db
named name lacks adds compare R code db silent =
    let lemma = compare_named-nil name lacks adds compare code db in
    (
      λ h n. Agree-iff (λ a b. compare a b ≡ []) R (λ a b. (silent a b).0) _ _ (lemma.0 h n),
      λ h. lemma.1 (λ n. Agree-iff R (λ a b. compare a b ≡ []) (λ a b. (silent a b).1) _ _ (h n)),
    )

module _ (words : Str → List Str) (laws : FieldsLaws words) where
  children-nil :
      (container : Str) (fa fb : List FieldDefinition) (ia ib : List IndexDefinition)
      (ea eb : List EventDefinition)
      → (diff_fields words container fa fb
            ++ (diff_indexes container ia ib ++ diff_events container ea eb)
          ≡ [])
        ↔ AreSameChildren words fa fb ia ib ea eb
  unfolding diff_fields diff_indexes diff_events
  children-nil container fa fb ia ib ea eb =
      both _ _ _ _
        (named (λ f. f.name) _ _ (diff_field words container) (IsSameField words) fa fb
          (diff_field-nil words laws container))
        (both _ _ _ _
          (named (λ i. i.name) _ _ (diff_index container) IsSameIndex ia ib
            (diff_index-nil container))
          (named (λ e. e.name) _ _ (λ a b. []) IsAny ea eb (λ a b. (λ h. tt, λ h. refl))))

  diff_table-nil : (a b : TableDefinition) → (diff_table words a b ≡ []) ↔ IsSameTable words a b
  unfolding diff_table
  diff_table-nil a b =
      next _ _ _ _ _ (str_eq_iff a.mode b.mode)
        (children-nil a.name a.fields b.fields a.indexes b.indexes a.events b.events)

  diff_edge-nil : (a b : EdgeDefinition) → (diff_edge words a b ≡ []) ↔ IsSameEdge words a b
  unfolding diff_edge
  diff_edge-nil a b = next _ _ _ _ _ (str_eq_iff a.mode b.mode) (
      next _ _ _ _ _ (str_eq_iff a.from_table b.from_table) (
        next _ _ _ _ _ (str_eq_iff a.to_table b.to_table)
          (children-nil a.name a.fields b.fields a.indexes b.indexes a.events b.events)))

  -- CompareSchemas reports nothing exactly if both schemas hold, name by name, the same tables and
  -- edges, as far as it looks: modes, ends of edges, fields up to permissions and to the white space
  -- between the words of an expression, names of events, and indexes up to the order of columns, each
  -- of which stands as often on both sides, and to parameters that are neither of an MTREE nor of an
  -- HNSW index. It is assumed that strings.Fields gives no empty words and none with a space.
  pub compare_schemas-nil :
      (code db : List TableDefinition) (code_edges db_edges : List EdgeDefinition)
      → (compare_schemas words code db code_edges db_edges ≡ []) ↔ (
          SameBy (λ t. t.name) (IsSameTable words) code db
          × SameBy (λ e. e.name) (IsSameEdge words) code_edges db_edges)
  unfolding compare_schemas
  compare_schemas-nil code db code_edges db_edges =
      both _ _ _ _
        (named (λ t. t.name) _ _ (diff_table words) (IsSameTable words) code db diff_table-nil)
        (named (λ e. e.name) _ _ (diff_edge words) (IsSameEdge words) code_edges db_edges
          diff_edge-nil)
