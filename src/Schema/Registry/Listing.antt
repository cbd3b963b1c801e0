-- ===== src/Schema/Registry/Listing.antt =====
-- The lists of pkg/surql/schema/registry.go, in whatever order definitions were registered.
use surql_go.Prelude.{
  ◌≡◌, refl, inl, inr, Bool, true, false, Bool-cases, Option-cases, Option, none, some, List, [],
  ◌∷◌, arith, Str, is_empty, str_eq, str_eq_iff, str_ltb, map, GoMap, lookup, keys, insert,
  lookup-insert, contains, contains-sort_by, contains-keys, Every, Every-of_contains,
}
use surql_go.Schema.Tables.{TableDefinition, zero_table}
use surql_go.Schema.Edges.{EdgeDefinition, zero_edge}
use surql_go.Schema.Buckets.{BucketDefinition, zero_bucket}
use surql_go.Schema.Registry.{
  SchemaRegistry, new_schema_registry, register_table, register_edge, register_bucket, get_table,
  get_edge, get_bucket, element, sorted_names, in_name_order, list_tables, list_edges, list_buckets,
  table_names, edge_names, bucket_names, clear_schemas,
}

-- The calls that change a registry
pub data Call : Type 0 where
  a_table : TableDefinition → Call
  an_edge : EdgeDefinition → Call
  a_bucket : BucketDefinition → Call
  clears : Call

unfoldable pub run_call : Call → SchemaRegistry → SchemaRegistry
unfolding register_table register_edge register_bucket clear_schemas
run_call (a_table t) r = (register_table t r).1
run_call (an_edge e) r = (register_edge e r).1
run_call (a_bucket b) r = (register_bucket b r).1
run_call clears r = clear_schemas r

unfoldable pub run_calls : List Call → SchemaRegistry → SchemaRegistry
unfolding run_call
run_calls [] r = r
run_calls (c ∷ cs) r = run_calls cs (run_call c r)

abbrev pub is_there {ℓ} : {A : Type ℓ} → Option A → Bool
is_there none = false
is_there (some a) = true

module _ {A : Type 0} (name : A → Str) (zero_value : A) where
  -- A definition stands under its name.
  abbrev IsKeyed : GoMap A → Type 0
  IsKeyed m = (k : Str) (a : A) → lookup k m ≡ some a → name a ≡ k

  insert-IsKeyed : (a : A) (m : GoMap A) → IsKeyed m → IsKeyed (insert (name a) a m)
  insert-IsKeyed a m keyed k b h = elim (Bool-cases (str_eq (name a) k)) [
    | inl same ↦ ground (arith, h, lookup-insert (name a) k a m, same, str_eq_iff (name a) k)
    | inr other ↦ keyed k b (ground (arith, h, lookup-insert (name a) k a m, other))
  ]

  empty-IsKeyed : IsKeyed []
  unfolding lookup
  empty-IsKeyed k a h = absurd (ground (arith, h))

  contains-sorted_names :
      (m : GoMap A) (n : Str) → contains n (sorted_names m) ≡ is_there (lookup n m)
  unfolding sorted_names
  contains-sorted_names m n = ground (arith, contains-sort_by str_ltb n (keys m), contains-keys n m)

  name-element :
      (m : GoMap A)
      → IsKeyed m
      → (n : Str) → contains n (sorted_names m) ≡ true
      → name (element zero_value m n) ≡ n
  unfolding element
  name-element m keyed n there = elim (Option-cases (lookup n m)) [
    | inl never ↦ absurd (ground (arith, contains-sorted_names m n, there, never))
    | inr (a, at) ↦ rw (at, element) (keyed n a at)
  ]

  map-names :
      (f : Str → A) (ns : List Str) → Every (λ n. name (f n) ≡ n) ns → map name (map f ns) ≡ ns
  map-names f [] h = refl
  map-names f (n ∷ ns) h = ground (arith, h.0, map-names f ns h.1)

  map-in_name_order :
      (m : GoMap A) → IsKeyed m → map name (in_name_order zero_value m) ≡ sorted_names m
  unfolding in_name_order
  map-in_name_order m keyed = map-names (element zero_value m) (sorted_names m) (
      Every-of_contains (λ n. name (element zero_value m n) ≡ n) (sorted_names m)
        (name-element m keyed))

record IsSound (r : SchemaRegistry) : Type 0 where
  tables : IsKeyed (λ t. t.name) zero_table r.tables
  edges : IsKeyed (λ e. e.name) zero_edge r.edges
  buckets : IsKeyed (λ b. b.name) zero_bucket r.buckets

run_call-IsSound : (c : Call) (r : SchemaRegistry) → IsSound r → IsSound (run_call c r)
unfolding run_call register_table register_edge register_bucket clear_schemas
run_call-IsSound (a_table t) r s = elim (Bool-cases (is_empty t.name)) [
  | inl nameless ↦ rw (nameless, run_call, register_table) s
  | inr named ↦
      rw (named, run_call, register_table)
        (record {
          tables = insert-IsKeyed (λ t. t.name) zero_table t r.tables s.tables;
          edges = s.edges;
          buckets = s.buckets;
        })
]
run_call-IsSound (an_edge e) r s = elim (Bool-cases (is_empty e.name)) [
  | inl nameless ↦ rw (nameless, run_call, register_edge) s
  | inr named ↦
      rw (named, run_call, register_edge)
        (record {
          tables = s.tables;
          edges = insert-IsKeyed (λ e. e.name) zero_edge e r.edges s.edges;
          buckets = s.buckets;
        })
]
run_call-IsSound (a_bucket b) r s = elim (Bool-cases (is_empty b.name)) [
  | inl nameless ↦ rw (nameless, run_call, register_bucket) s
  | inr named ↦
      rw (named, run_call, register_bucket)
        (record {
          tables = s.tables;
          edges = s.edges;
          buckets = insert-IsKeyed (λ b. b.name) zero_bucket b r.buckets s.buckets;
        })
]
run_call-IsSound clears r s = record {
  tables = empty-IsKeyed (λ t. t.name) zero_table;
  edges = empty-IsKeyed (λ e. e.name) zero_edge;
  buckets = empty-IsKeyed (λ b. b.name) zero_bucket;
}

run_calls-IsSound : (cs : List Call) (r : SchemaRegistry) → IsSound r → IsSound (run_calls cs r)
unfolding run_calls
run_calls-IsSound [] r s = s
run_calls-IsSound (c ∷ cs) r s = run_calls-IsSound cs (run_call c r) (run_call-IsSound c r s)

new-IsSound : IsSound new_schema_registry
unfolding new_schema_registry
new-IsSound = record {
  tables = empty-IsKeyed (λ t. t.name) zero_table;
  edges = empty-IsKeyed (λ e. e.name) zero_edge;
  buckets = empty-IsKeyed (λ b. b.name) zero_bucket;
}

abbrev pub HasLists : SchemaRegistry → Type 0
HasLists r =
    ((map (λ t. t.name) (list_tables r) ≡ table_names r)
      × ((n : Str) → contains n (table_names r) ≡ is_there (get_table n r)))
    × ((map (λ e. e.name) (list_edges r) ≡ edge_names r)
        × ((n : Str) → contains n (edge_names r) ≡ is_there (get_edge n r)))
    × ((map (λ b. b.name) (list_buckets r) ≡ bucket_names r)
        × ((n : Str) → contains n (bucket_names r) ≡ is_there (get_bucket n r)))

-- However definitions are registered and cleared, the names of the tables that Tables lists are those
-- of TableNames, in that order, and these are the names under which GetTable finds a table; edges and
-- buckets likewise.
pub run_calls-HasLists : (cs : List Call) → HasLists (run_calls cs new_schema_registry)
unfolding list_tables list_edges list_buckets table_names edge_names bucket_names get_table get_edge
    get_bucket
run_calls-HasLists cs =
    let r = run_calls cs new_schema_registry in
    let s = run_calls-IsSound cs new_schema_registry new-IsSound in
    (
      (
        map-in_name_order (λ t. t.name) zero_table r.tables s.tables,
        contains-sorted_names (λ t. t.name) zero_table r.tables,
      ),
      (
        map-in_name_order (λ e. e.name) zero_edge r.edges s.edges,
        contains-sorted_names (λ e. e.name) zero_edge r.edges,
      ),
      (
        map-in_name_order (λ b. b.name) zero_bucket r.buckets s.buckets,
        contains-sorted_names (λ b. b.name) zero_bucket r.buckets,
      ),
    )
