-- ===== src/Migration/Diffs/Settled.antt =====
-- When DiffSchemas of diff.go finds nothing to do.
use surql_go.Prelude.{
  ◌≡◌, ◌≢◌, ◌↔◌, inl, inr, refl, true, Bool-cases, Option, none, some, List, [], ◌∷◌, arith, Str,
  str_eq_iff, Every,
}
use surql_go.Errors.{Result, ok, err, ◌>>=◌}
use surql_go.Schema.Clauses.{Texts}
use surql_go.Schema.Tables.{TableDefinition}
use surql_go.Schema.Edges.{EdgeDefinition}
use surql_go.Schema.Buckets.{BucketDefinition}
use surql_go.Migration.Diffs.{SchemaDiff}
use surql_go.Migration.Diffs.Tables.{diff_tables, diff_edges, edge_to_table_proxy}
use surql_go.Migration.Diffs.Buckets.{buckets_equal, diff_buckets}
use surql_go.Migration.Diffs.Schemas.{Schemas}
use surql_go.Migration.Diffs.Named.{last_named, Every-last}
use surql_go.Migration.Diffs.Agreement.{Agree}
use surql_go.Migration.Diffs.Equal.{IsMap, SameMap, bool_eq_iff, permissions_equal_iff}
use surql_go.Migration.Diffs.Silence.{SameTable, diff_both-nil}

Agree-some {ℓ} :
    {A : Type ℓ} (P : A → Type 0) (R Q : A → A → Type 0) (o p : Option A)
    → ((a b : A) → P a → P b → R a b → Q a b)
    → ((a : A) → o ≡ some a → P a)
    → ((b : A) → p ≡ some b → P b)
    → Agree R o p
    → Agree Q o p
Agree-some P R Q none none f po pp h = tt
Agree-some P R Q none (some b) f po pp h = h
Agree-some P R Q (some a) none f po pp h = h
Agree-some P R Q (some a) (some b) f po pp h = f a b (po a refl) (pp b refl) h

-- Two lists relate name by name, the last element of a name being the one that counts.
abbrev pub SameBy {ℓ} : {A : Type ℓ} → (A → Str) → (A → A → Type 0) → List A → List A → Type 0
SameBy name R xs ys = (n : Str) → Agree R (last_named name n xs) (last_named name n ys)

pub SameBy-map {ℓ} :
    {A : Type ℓ} (name : A → Str) (P : A → Type 0) (R Q : A → A → Type 0) (xs ys : List A)
    → Every P xs
    → Every P ys
    → ((a b : A) → P a → P b → R a b → Q a b)
    → SameBy name R xs ys
    → SameBy name Q xs ys
SameBy-map name P R Q xs ys px py f h n =
    Agree-some P R Q (last_named name n xs) (last_named name n ys) f
      (λ a e. (Every-last name P n xs a px e).0) (λ b e. (Every-last name P n ys b py e).0) (h n)

pub starts-ne-nil :
    (r : Result (List SchemaDiff)) (d : SchemaDiff) (g : List SchemaDiff → List SchemaDiff)
    → (r >>= λ ds. ok (d ∷ g ds)) ≢ ok []
starts-ne-nil (ok ds) d g h = ground (arith, h)
starts-ne-nil (err e) d g h = ground (arith, h)

-- What DiffEdges looks at in two edges
abbrev pub SameEdge : EdgeDefinition → EdgeDefinition → Type 0
unfolding edge_to_table_proxy
SameEdge a b = SameTable (edge_to_table_proxy a) (edge_to_table_proxy b)

pub record SameBucket (a b : BucketDefinition) : Type 0 where
  pub name : a.name ≡ b.name
  pub backend : a.backend ≡ b.backend
  pub read_only : a.read_only ≡ b.read_only
  pub comment : a.comment ≡ b.comment
  pub permissions : SameMap a.permissions b.permissions

-- The maps of permissions are Go maps.
pub record IsProper (s : Schemas) : Type 0 where
  pub tables : Every (λ t. IsMap t.permissions) s.tables
  pub edges : Every (λ e. IsMap e.permissions) s.edges
  pub buckets : Every (λ b. IsMap b.permissions) s.buckets

pub record SameSchemas (db code : Schemas) : Type 0 where
  pub tables : SameBy (λ t. t.name) SameTable db.tables code.tables
  pub edges : SameBy (λ e. e.name) SameEdge db.edges code.edges
  pub buckets : SameBy (λ b. b.name) SameBucket db.buckets code.buckets

buckets_equal_iff :
    (a b : BucketDefinition)
    → IsMap a.permissions
    → IsMap b.permissions
    → (buckets_equal a b ≡ true) ↔ SameBucket a b
unfolding buckets_equal
buckets_equal_iff a b ma mb =
    let same = permissions_equal_iff a.permissions b.permissions ma mb in
    (
      λ h. record {
        name = ground (arith, h, str_eq_iff a.name b.name);
        backend = ground (arith, h, str_eq_iff a.backend b.backend);
        read_only = ground (arith, h, bool_eq_iff a.read_only b.read_only);
        comment = ground (arith, h, str_eq_iff a.comment b.comment);
        permissions = same.0 (ground (arith, h));
      },
      λ s. ground (
        arith,
        same.1 s.permissions,
        s.name,
        s.backend,
        s.read_only,
        s.comment,
        str_eq_iff a.name b.name,
        str_eq_iff a.backend b.backend,
        bool_eq_iff a.read_only b.read_only,
        str_eq_iff a.comment b.comment,
      ),
    )

module _ (x : Texts) where
  pub diff_buckets-nil :
      (a b : BucketDefinition)
      → IsMap a.permissions
      → IsMap b.permissions
      → (diff_buckets x (some a) (some b) ≡ ok []) ↔ SameBucket a b
  unfolding diff_buckets
  diff_buckets-nil a b ma mb =
      let same = buckets_equal_iff a b ma mb in
      (
        λ h. elim (Bool-cases (buckets_equal a b)) [
          | inl e ↦ same.0 e
          | inr e ↦ absurd (ground (arith, h, e))
        ],
        λ s. ground (arith, same.1 s),
      )

  pub diff_edges-nil :
      (a b : EdgeDefinition)
      → IsMap a.permissions
      → IsMap b.permissions
      → (diff_edges x (some a) (some b) ≡ ok []) ↔ SameEdge a b
  unfolding diff_edges edge_to_table_proxy
  diff_edges-nil a b ma mb = diff_both-nil x (edge_to_table_proxy a) (edge_to_table_proxy b) ma mb

  pub diff_tables-nil :
      (a b : TableDefinition)
      → IsMap a.permissions
      → IsMap b.permissions
      → (diff_tables x (some a) (some b) ≡ ok []) ↔ SameTable a b
  unfolding diff_tables
  diff_tables-nil a b ma mb = diff_both-nil x a b ma mb
