-- ===== src/Schema/Constructors.antt =====
-- The constructors of indexes (table.go), of buckets (bucket.go) and of record fields (fields.go).
use surql_go.Prelude.{if◌then◌else◌, Bool, true, List, [], ◌∷◌, ◌++◌, Str, bytes, is_empty, GoMap}
use surql_go.Prelude.Int.{ℤ, pos}
use surql_go.Schema.Fields.{FieldDefinition, FieldOption, apply_options, new_field}
use surql_go.Schema.Indexes.{
  IndexDefinition, new_index, index_unique, index_search, index_hnsw, index_disk_ann, or_default,
  or_number,
}
use surql_go.Schema.Buckets.{BucketDefinition, zero_bucket}

unfoldable pub unique_index : Str → List Str → IndexDefinition
unfolding new_index
unique_index name columns = new_index name columns index_unique

unfoldable pub search_index : Str → List Str → IndexDefinition
unfolding new_index
search_index name columns = new_index name columns index_search

unfoldable pub with_analyzer : Str → IndexDefinition → IndexDefinition
with_analyzer analyzer i = record i { analyzer = analyzer }

unfoldable pub with_bm25 : IndexDefinition → IndexDefinition
with_bm25 i = record i { bm25 = true }

unfoldable pub with_highlights : IndexDefinition → IndexDefinition
with_highlights i = record i { highlights = true }

unfoldable pub bm25_index : Str → List Str → Str → IndexDefinition
unfolding search_index with_analyzer with_bm25
bm25_index name columns analyzer = with_bm25 (with_analyzer analyzer (search_index name columns))

pub record HnswOptions : Type 0 where
  pub distance : Str
  pub vector_type : Str
  pub efc : ℤ
  pub m : ℤ

unfoldable pub hnsw_built : Str → Str → ℤ → HnswOptions → IndexDefinition
unfolding new_index
hnsw_built name column dimension opts = record (new_index name (column ∷ []) index_hnsw) {
  dimension = dimension;
  vector_type = or_default (bytes "F64") opts.vector_type;
  hnsw_distance = or_default (bytes "EUCLIDEAN") opts.distance;
  efc = opts.efc;
  m = opts.m;
}

pub record DiskAnnOptions : Type 0 where
  pub distance : Str
  pub vector_type : Str
  pub degree : ℤ
  pub l_build : ℤ
  pub alpha : Str
  pub hashed_vector : Bool

unfoldable pub disk_ann_built : Str → Str → ℤ → DiskAnnOptions → IndexDefinition
unfolding new_index
disk_ann_built name column dimension opts = record (new_index name (column ∷ []) index_disk_ann) {
  dimension = dimension;
  vector_type = or_default (bytes "F32") opts.vector_type;
  disk_ann_distance = or_default (bytes "EUCLIDEAN") opts.distance;
  degree = or_number (pos 64) opts.degree;
  l_build = or_number (pos 100) opts.l_build;
  alpha = or_default (bytes "1.2") opts.alpha;
  hashed_vector = opts.hashed_vector;
}

abbrev pub BucketOption : Type 0
BucketOption = BucketDefinition → BucketDefinition

unfoldable pub with_bucket_read_only : Bool → BucketOption
with_bucket_read_only read_only b = record b { read_only = read_only }

unfoldable pub with_bucket_permissions : GoMap Str → BucketOption
with_bucket_permissions perms b = record b { permissions = perms }

unfoldable pub with_bucket_comment : Str → BucketOption
with_bucket_comment comment b = record b { comment = comment }

unfoldable pub new_bucket : Str → Str → List BucketOption → BucketDefinition
new_bucket name backend opts =
    apply_options opts (record zero_bucket { name = name; backend = backend })

unfoldable pub memory_bucket : Str → List BucketOption → BucketDefinition
unfolding new_bucket
memory_bucket name opts = new_bucket name (bytes "memory") opts

unfoldable pub file_bucket : Str → Str → List BucketOption → BucketDefinition
unfolding new_bucket
file_bucket name path opts = new_bucket name (bytes "file:" ++ path) opts

unfoldable pub s3_bucket : Str → Str → List BucketOption → BucketDefinition
unfolding new_bucket
s3_bucket name location opts = new_bucket name (bytes "s3://" ++ location) opts

-- The assertion that RecordField makes of the one given, with the verb %q of package fmt as a parameter
unfoldable pub record_assertion : (Str → Str) → Str → Str → Str
record_assertion quote target given =
    let own = bytes "$value.table = " ++ quote target in
    if is_empty given then own else bytes "(" ++ (own ++ (bytes ") AND (" ++ (given ++ bytes ")")))

unfoldable pub record_field : (Str → Str) → Str → Str → List FieldOption → FieldDefinition
unfolding new_field record_assertion
record_field quote name target opts =
    let f = new_field name (bytes "record") opts in
    if is_empty target
    then f
    else record f { assertion = record_assertion quote target f.assertion }
