-- ===== src/Schema/Drift/Sameness.antt =====
-- What CompareSchemas of pkg/surql/schema/validator.go looks at in two definitions.
use surql_go.Prelude.{◌≡◌, List, Str}
use surql_go.Schema.Fields.{FieldDefinition}
use surql_go.Schema.Indexes.{IndexDefinition, index_mtree, index_hnsw}
use surql_go.Schema.Events.{EventDefinition}
use surql_go.Schema.Tables.{TableDefinition}
use surql_go.Schema.Edges.{EdgeDefinition}
use surql_go.Migration.Diffs.Settled.{SameBy}
use surql_go.Schema.Drift.Columns.{AreRearranged}

-- What CompareSchemas looks at in two fields; of expressions, the words that strings.Fields gives
abbrev pub IsSameField : (Str → List Str) → FieldDefinition → FieldDefinition → Type 0
IsSameField words a b =
    (a.type ≡ b.type)
    × ((words a.assertion ≡ words b.assertion)
        × ((words a.default ≡ words b.default)
            × ((words a.value ≡ words b.value)
                × ((a.read_only ≡ b.read_only) × (a.flexible ≡ b.flexible)))))

abbrev pub AreMtree : IndexDefinition → IndexDefinition → Type 0
AreMtree a b = (a.type ≡ index_mtree) × (b.type ≡ index_mtree)

abbrev pub AreHnsw : IndexDefinition → IndexDefinition → Type 0
AreHnsw a b = (a.type ≡ index_hnsw) × (b.type ≡ index_hnsw)

abbrev pub HasSameMtree : IndexDefinition → IndexDefinition → Type 0
HasSameMtree a b =
    (a.dimension ≡ b.dimension) × ((a.distance ≡ b.distance) × (a.vector_type ≡ b.vector_type))

abbrev pub HasSameHnsw : IndexDefinition → IndexDefinition → Type 0
HasSameHnsw a b =
    (a.dimension ≡ b.dimension)
    × ((a.hnsw_distance ≡ b.hnsw_distance)
        × ((a.vector_type ≡ b.vector_type) × ((a.efc ≡ b.efc) × (a.m ≡ b.m))))

-- Two indexes have the same type, the same columns in any order, and the same parameters if they are
-- MTREE or HNSW indexes.
abbrev pub IsSameIndex : IndexDefinition → IndexDefinition → Type 0
IsSameIndex a b =
    (a.type ≡ b.type)
    × (AreRearranged a.columns b.columns
        × ((AreMtree a b → HasSameMtree a b) × (AreHnsw a b → HasSameHnsw a b)))

abbrev pub IsAny : EventDefinition → EventDefinition → Type 0
IsAny a b = Unit

-- Fields, indexes and the names of events agree.
abbrev pub AreSameChildren :
    (Str → List Str)
    → List FieldDefinition
    → List FieldDefinition
    → List IndexDefinition
    → List IndexDefinition
    → List EventDefinition
    → List EventDefinition
    → Type 0
AreSameChildren words fa fb ia ib ea eb =
    SameBy (λ f. f.name) (IsSameField words) fa fb
    × (SameBy (λ i. i.name) IsSameIndex ia ib × SameBy (λ e. e.name) IsAny ea eb)

abbrev pub IsSameTable : (Str → List Str) → TableDefinition → TableDefinition → Type 0
IsSameTable words a b =
    (a.mode ≡ b.mode)
    × AreSameChildren words a.fields b.fields a.indexes b.indexes a.events b.events

abbrev pub IsSameEdge : (Str → List Str) → EdgeDefinition → EdgeDefinition → Type 0
IsSameEdge words a b =
    (a.mode ≡ b.mode)
    × ((a.from_table ≡ b.from_table)
        × ((a.to_table ≡ b.to_table)
            × AreSameChildren words a.fields b.fields a.indexes b.indexes a.events b.events))
