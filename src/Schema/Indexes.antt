-- ===== src/Schema/Indexes.antt =====
-- The indexes of pkg/surql/schema/table.go: definitions and their checks.
use surql_go.Prelude.{
  zero, suc, if◌then◌else◌, Bool, false, not, ◌&&◌, ◌||◌, Option, none, some, List, [], ◌∷◌, Str,
  bytes, is_empty, contains, str_eq,
}
use surql_go.Prelude.Int.{ℤ, pos, negsuc, ltb_ℤ}
use surql_go.Errors.{GoError}
use surql_go.Schema.Clauses.{invalid, check_each}

-- The types of constants are strings in the source.
abbrev pub index_standard : Str
index_standard = bytes "INDEX"

abbrev pub index_unique : Str
index_unique = bytes "UNIQUE"

abbrev pub index_search : Str
index_search = bytes "SEARCH"

abbrev pub index_mtree : Str
index_mtree = bytes "MTREE"

abbrev pub index_hnsw : Str
index_hnsw = bytes "HNSW"

abbrev pub index_disk_ann : Str
index_disk_ann = bytes "DISKANN"

abbrev pub index_types : List Str
index_types =
    index_standard ∷ index_unique ∷ index_search ∷ index_mtree ∷ index_hnsw ∷ index_disk_ann ∷ []

abbrev pub mtree_distances : List Str
mtree_distances = bytes "COSINE" ∷ bytes "EUCLIDEAN" ∷ bytes "MANHATTAN" ∷ bytes "MINKOWSKI" ∷ []

abbrev pub hnsw_distances : List Str
hnsw_distances =
    bytes "CHEBYSHEV"
    ∷ bytes "COSINE"
    ∷ bytes "EUCLIDEAN"
    ∷ bytes "HAMMING"
    ∷ bytes "JACCARD"
    ∷ bytes "MANHATTAN"
    ∷ bytes "MINKOWSKI"
    ∷ bytes "PEARSON"
    ∷ []

abbrev pub disk_ann_distances : List Str
disk_ann_distances =
    bytes "COSINE" ∷ bytes "COSINE_NORMALIZED" ∷ bytes "EUCLIDEAN" ∷ bytes "INNER_PRODUCT" ∷ []

abbrev pub vector_types : List Str
vector_types =
    bytes "F64"
    ∷ bytes "F32"
    ∷ bytes "F16"
    ∷ bytes "I64"
    ∷ bytes "I32"
    ∷ bytes "I16"
    ∷ bytes "I8"
    ∷ bytes "U8"
    ∷ []

abbrev pub mtree_vector_types : List Str
mtree_vector_types = bytes "F64" ∷ bytes "F32" ∷ bytes "I64" ∷ bytes "I32" ∷ bytes "I16" ∷ []

abbrev pub disk_ann_vector_types : List Str
disk_ann_vector_types = bytes "F32" ∷ bytes "F16" ∷ bytes "I8" ∷ bytes "U8" ∷ []

pub record IndexDefinition : Type 0 where
  pub name : Str
  pub columns : List Str
  pub type : Str
  pub dimension : ℤ
  pub vector_type : Str
  pub distance : Str
  pub hnsw_distance : Str
  pub efc : ℤ
  pub m : ℤ
  pub disk_ann_distance : Str
  pub degree : ℤ
  pub l_build : ℤ
  pub alpha : Str
  pub hashed_vector : Bool
  pub analyzer : Str
  pub bm25 : Bool
  pub highlights : Bool

unfoldable pub new_index : Str → List Str → Str → IndexDefinition
new_index name columns type = record {
  name = name;
  columns = columns;
  type = type;
  dimension = pos 0;
  vector_type = [];
  distance = [];
  hnsw_distance = [];
  efc = pos 0;
  m = pos 0;
  disk_ann_distance = [];
  degree = pos 0;
  l_build = pos 0;
  alpha = [];
  hashed_vector = false;
  analyzer = [];
  bm25 = false;
  highlights = false;
}

-- if s == "" { s = d }
abbrev pub or_default : Str → Str → Str
or_default d s = if is_empty s then d else s

-- if n == 0 { n = d }
abbrev pub or_number : ℤ → ℤ → ℤ
or_number d (pos zero) = d
or_number d (pos (suc n)) = pos (suc n)
or_number d (negsuc n) = negsuc n

abbrev pub positive : ℤ → Bool
positive n = ltb_ℤ (pos 0) n

unfoldable pub mtree_index : Str → Str → ℤ → Str → Str → IndexDefinition
unfolding new_index
mtree_index name column dimension distance vector_type =
    record (new_index name (column ∷ []) index_mtree) {
      dimension = dimension;
      distance = or_default (bytes "EUCLIDEAN") distance;
      vector_type = or_default (bytes "F64") vector_type;
    }

-- A text that is set must be one of those allowed.
abbrev pub outside : Str → List Str → Bool
unfolding contains
outside s allowed = not (is_empty s) && not (contains s allowed)

unfoldable pub check_column : Str → Option GoError
check_column col = if is_empty col then invalid else none

unfoldable pub check_mtree : IndexDefinition → Option GoError
check_mtree i =
    if not (positive i.dimension)
    then invalid
    else if outside i.distance mtree_distances
    then invalid
    else if outside i.vector_type vector_types
    then invalid
    else if outside i.vector_type mtree_vector_types
    then invalid
    else none

unfoldable pub check_hnsw : IndexDefinition → Option GoError
check_hnsw i =
    if not (positive i.dimension)
    then invalid
    else if outside i.hnsw_distance hnsw_distances
    then invalid
    else if outside i.vector_type vector_types
    then invalid
    else none

unfoldable pub check_disk_ann : IndexDefinition → Option GoError
check_disk_ann i =
    if not (positive i.dimension)
    then invalid
    else if outside i.disk_ann_distance disk_ann_distances
    then invalid
    else if outside i.vector_type vector_types
    then invalid
    else if outside i.vector_type disk_ann_vector_types
    then invalid
    else if not (is_empty i.distance) || not (is_empty i.hnsw_distance)
    then invalid
    else none

unfoldable pub validate_index : IndexDefinition → Option GoError
unfolding check_each check_column check_mtree check_hnsw check_disk_ann contains
validate_index i =
    if is_empty i.name
    then invalid
    else if not (contains i.type index_types)
    then invalid
    else elim i.columns [
      | [] ↦ invalid
      | c ∷ cs ↦ elim (check_each check_column (c ∷ cs)) [
        | some e ↦ some e
        | none ↦
            if str_eq i.type index_mtree
            then check_mtree i
            else if str_eq i.type index_hnsw
            then check_hnsw i
            else if str_eq i.type index_disk_ann
            then check_disk_ann i
            else none
      ]
    ]
