-- ===== src/Schema/Registry/Scripts.antt =====
-- When pkg/surql/schema/sql.go gives a script.
use surql_go.Prelude.{
  ◌≡◌, ◌≢◌, ◌↔◌, refl, inl, inr, Bool, true, false, is_empty, Option-cases, Bool-cases, none, List,
  [], ◌∷◌, arith, Str, Every,
}
use surql_go.Errors.{Result, ok, err, ◌>>=◌}
use surql_go.Schema.Clauses.{Texts}
use surql_go.Schema.Tables.{TableDefinition}
use surql_go.Schema.Edges.{EdgeDefinition, lacks_ends, edge_statements}
use surql_go.Schema.Buckets.{BucketDefinition, validate_bucket}
use surql_go.Schema.Analyzers.{AnalyzerDefinition, validate_analyzer}
use surql_go.Schema.Registry.Script.{
  wrapped, generate_bucket_sql, bucket_lines, generate_analyzer_sql, analyzer_lines, edge_lines,
  generate_schema_script,
}

-- A result that is not an error
abbrev pub Succeeds {ℓ} : {A : Type ℓ} → Result A → Type ℓ
Succeeds {A} r = (a : A) × (r ≡ ok a)

chain :
    (r rest : Result (List Str)) (f : List Str → List Str → List Str)
    → Succeeds (wrapped r >>= λ a. rest >>= λ b. ok (f a b)) ↔ (Succeeds r × Succeeds rest)
chain (err e) rest f = (λ h. absurd (ground (arith, h.1)), λ h. absurd (ground (arith, h.0.1)))
chain (ok a) (err e) f = (λ h. absurd (ground (arith, h.1)), λ h. absurd (ground (arith, h.1.1)))
chain (ok a) (ok b) f = (λ h. ((a, refl), (b, refl)), λ h. (f a b, refl))

joined :
    (q r rest : Result (List Str)) (f : List Str → List Str → List Str → Str)
    → Succeeds (q >>= λ a. r >>= λ b. rest >>= λ c. ok (f a b c))
      ↔ (Succeeds q × Succeeds r × Succeeds rest)
joined (err e) r rest f = (λ h. absurd (ground (arith, h.1)), λ h. absurd (ground (arith, h.0.1)))
joined (ok a) (err e) rest f =
    (λ h. absurd (ground (arith, h.1)), λ h. absurd (ground (arith, h.1.1)))
joined (ok a) (ok b) (err e) f =
    (λ h. absurd (ground (arith, h.1)), λ h. absurd (ground (arith, h.2.1)))
joined (ok a) (ok b) (ok c) f = (λ h. ((a, refl), (b, refl), (c, refl)), λ h. (f a b c, refl))

is_empty-eq : (s : Str) → is_empty s ≡ true → s ≡ []
is_empty-eq [] h = refl
is_empty-eq (c ∷ s) h = absurd (ground (arith, h))

module _ (x : Texts) (if_not_exists : Bool) where
  generate_bucket_sql-Succeeds :
      (b : BucketDefinition)
      → Succeeds (generate_bucket_sql x if_not_exists b) ↔ (validate_bucket x b ≡ none)
  unfolding generate_bucket_sql
  generate_bucket_sql-Succeeds b = elim (Option-cases (validate_bucket x b)) [
    | inl fine ↦ rw (fine, generate_bucket_sql) (λ h. refl, λ h. (_, refl))
    | inr (e, bad) ↦
        rw (bad, generate_bucket_sql)
          (λ h. absurd (ground (arith, h.1)), λ h. absurd (ground (arith, h)))
  ]

  generate_analyzer_sql-Succeeds :
      (a : AnalyzerDefinition) → Succeeds (generate_analyzer_sql x if_not_exists a) ↔ (a.name ≢ [])
  unfolding generate_analyzer_sql validate_analyzer
  generate_analyzer_sql-Succeeds a = elim (Bool-cases (is_empty a.name)) [
    | inl nameless ↦
        rw (nameless, generate_analyzer_sql)
          (λ h. absurd (ground (arith, h.1)), λ h. absurd (h (is_empty-eq a.name nameless)))
    | inr named ↦ rw (named, generate_analyzer_sql) (λ h e. ground (arith, e), λ h. (_, refl))
  ]

  edge_statements-Succeeds :
      (e : EdgeDefinition) → Succeeds (edge_statements x e if_not_exists) ↔ (lacks_ends e ≡ false)
  unfolding edge_statements
  edge_statements-Succeeds e = elim (Bool-cases (lacks_ends e)) [
    | inl lacks ↦ rw lacks (λ h. absurd (ground (arith, h.1)), λ h. absurd (ground (arith, h)))
    | inr fine ↦ rw fine (λ h. refl, λ h. (_, refl))
  ]

  bucket_lines-Succeeds :
      (bs : List BucketDefinition)
      → Succeeds (bucket_lines x if_not_exists bs) ↔ Every (λ b. validate_bucket x b ≡ none) bs
  unfolding bucket_lines
  bucket_lines-Succeeds [] = (λ h. tt, λ h. ([], refl))
  bucket_lines-Succeeds (b ∷ bs) =
      let here = generate_bucket_sql-Succeeds b in
      let later = bucket_lines-Succeeds bs in
      let step =
        chain (generate_bucket_sql x if_not_exists b) (bucket_lines x if_not_exists bs) _ in
      (λ h. (here.0 (step.0 h).0, later.0 (step.0 h).1), λ h. step.1 (here.1 h.0, later.1 h.1))

  analyzer_lines-Succeeds :
      (others : List AnalyzerDefinition)
      → Succeeds (analyzer_lines x if_not_exists others) ↔ Every (λ a. a.name ≢ []) others
  unfolding analyzer_lines
  analyzer_lines-Succeeds [] = (λ h. tt, λ h. ([], refl))
  analyzer_lines-Succeeds (a ∷ others) =
      let here = generate_analyzer_sql-Succeeds a in
      let later = analyzer_lines-Succeeds others in
      let step =
        chain (generate_analyzer_sql x if_not_exists a) (analyzer_lines x if_not_exists others) _ in
      (λ h. (here.0 (step.0 h).0, later.0 (step.0 h).1), λ h. step.1 (here.1 h.0, later.1 h.1))

  edge_lines-Succeeds :
      (es : List EdgeDefinition)
      → Succeeds (edge_lines x if_not_exists es) ↔ Every (λ e. lacks_ends e ≡ false) es
  unfolding edge_lines
  edge_lines-Succeeds [] = (λ h. tt, λ h. ([], refl))
  edge_lines-Succeeds (e ∷ es) =
      let here = edge_statements-Succeeds e in
      let later = edge_lines-Succeeds es in
      let step = chain (edge_statements x e if_not_exists) (edge_lines x if_not_exists es) _ in
      (λ h. (here.0 (step.0 h).0, later.0 (step.0 h).1), λ h. step.1 (here.1 h.0, later.1 h.1))

  -- A schema script is generated exactly if every bucket is accepted by Validate, every analyzer has
  -- a name, and no edge of mode RELATION lacks one of its tables; tables are not checked.
  pub generate_schema_script-Succeeds :
      (buckets : List BucketDefinition) (analyzers : List AnalyzerDefinition)
      (tables : List TableDefinition) (edges : List EdgeDefinition)
      → Succeeds (generate_schema_script x if_not_exists buckets analyzers tables edges) ↔ (
          Every (λ b. validate_bucket x b ≡ none) buckets
          × Every (λ a. a.name ≢ []) analyzers
          × Every (λ e. lacks_ends e ≡ false) edges)
  unfolding generate_schema_script
  generate_schema_script-Succeeds buckets analyzers tables edges =
      let first = bucket_lines-Succeeds buckets in
      let second = analyzer_lines-Succeeds analyzers in
      let last = edge_lines-Succeeds edges in
      let step =
        joined (bucket_lines x if_not_exists buckets) (analyzer_lines x if_not_exists analyzers)
          (edge_lines x if_not_exists edges) _ in
      (
        λ h. let (b, a, e) = step.0 h in (first.0 b, second.0 a, last.0 e),
        λ h. step.1 (first.1 h.0, second.1 h.1, last.1 h.2),
      )
