-- ===== src/Schema/IndexClauses.antt =====
-- The SurrealQL of the indexes of pkg/surql/schema/table.go.
use surql_go.Prelude.{if◌then◌else◌, Bool, List, [], ◌∷◌, ◌++◌, Str, bytes, join, str_eq}
use surql_go.Prelude.Int.{ℤ, pos}
use surql_go.Types.Decimal.{format_int}
use surql_go.Schema.Clauses.{clause, flag_clause, if_not_exists}
use surql_go.Schema.Indexes.{
  IndexDefinition, index_unique, index_search, index_mtree, index_hnsw, index_disk_ann, or_default,
  or_number, positive,
}

-- if len(i.Columns) > 0 { field = i.Columns[0] }
unfoldable pub first_column : List Str → Str
first_column [] = []
first_column (c ∷ cs) = c

abbrev number_clause : Str → ℤ → Str
number_clause keyword n = if positive n then keyword ++ format_int n else []

unfoldable pub mtree_clauses : IndexDefinition → Str
unfolding first_column
mtree_clauses i =
    bytes " COLUMNS "
    ++ (first_column i.columns
        ++ (bytes " MTREE DIMENSION "
            ++ (format_int i.dimension
                ++ (clause (bytes " DIST ") i.distance
                    ++ (clause (bytes " TYPE ") i.vector_type ++ bytes ";")))))

unfoldable pub hnsw_clauses : IndexDefinition → Str
unfolding first_column
hnsw_clauses i =
    bytes " COLUMNS "
    ++ (first_column i.columns
        ++ (bytes " HNSW DIMENSION "
            ++ (format_int i.dimension
                ++ (clause (bytes " DIST ") i.hnsw_distance
                    ++ (clause (bytes " TYPE ") i.vector_type
                        ++ (number_clause (bytes " EFC ") i.efc
                            ++ (number_clause (bytes " M ") i.m ++ bytes ";")))))))

unfoldable pub disk_ann_clauses : IndexDefinition → Str
unfolding first_column
disk_ann_clauses i =
    bytes " COLUMNS "
    ++ (first_column i.columns
        ++ (bytes " DISKANN DIMENSION "
            ++ (format_int i.dimension
                ++ (bytes " DIST "
                    ++ (or_default (bytes "EUCLIDEAN") i.disk_ann_distance
                        ++ (bytes " TYPE "
                            ++ (or_default (bytes "F32") i.vector_type
                                ++ (bytes " DEGREE "
                                    ++ (format_int (or_number (pos 64) i.degree)
                                        ++ (bytes " L_BUILD "
                                            ++ (format_int (or_number (pos 100) i.l_build)
                                                ++ (bytes " ALPHA "
                                                    ++ (or_default (bytes "1.2") i.alpha
                                                        ++ (flag_clause (bytes " HASHED_VECTOR")
                                                            i.hashed_vector
                                                            ++ bytes ";"))))))))))))))

unfoldable pub plain_clauses : IndexDefinition → Str
plain_clauses i =
    bytes " COLUMNS "
    ++ (join i.columns (bytes ", ")
        ++ ((if str_eq i.type index_unique
              then bytes " UNIQUE"
              else if str_eq i.type index_search
              then bytes " FULLTEXT ANALYZER "
                ++ (or_default (bytes "ascii") i.analyzer
                    ++ (flag_clause (bytes " BM25") i.bm25
                        ++ flag_clause (bytes " HIGHLIGHTS") i.highlights))
              else [])
            ++ bytes ";"))

unfoldable pub index_surql : IndexDefinition → Str → Bool → Str
unfolding mtree_clauses hnsw_clauses disk_ann_clauses plain_clauses
index_surql i table guarded =
    bytes "DEFINE INDEX"
    ++ (if_not_exists guarded
        ++ (bytes " "
            ++ (i.name
                ++ (bytes " ON TABLE "
                    ++ (table
                        ++ (if str_eq i.type index_mtree
                            then mtree_clauses i
                            else if str_eq i.type index_hnsw
                            then hnsw_clauses i
                            else if str_eq i.type index_disk_ann
                            then disk_ann_clauses i
                            else plain_clauses i))))))
