-- ===== src/Lib.antt =====
-- surql-go: a SurrealDB client library in Go with a query builder, schema definitions, migrations and
-- a query cache. This library models the parts that keep state and decide what is sent to a database.
--
-- Parts of the program and how they interact. The migration executor (pkg/surql/migration/executor.go)
-- runs each migration in an interactive transaction (pkg/surql/connection/transaction.go) of a client
-- (pkg/surql/connection/client.go), and keeps what was applied in a history table that it reads and
-- writes through the same client (pkg/surql/migration/history.go). Rollback plans
-- (pkg/surql/migration/rollback.go) choose migrations by that history and run them down. The version
-- graph (pkg/surql/migration/versioning.go) holds schema snapshots apart from the database. Schema
-- definitions (pkg/surql/schema) render to statements; the diffs of two schemas
-- (pkg/surql/migration/diff.go) are such statements, forward and backward, which become migrations. The
-- query builder (pkg/surql/query/builder.go) renders operators and values (pkg/surql/types/operators.go)
-- and hints (pkg/surql/query/hints.go). The query cache (pkg/surql/cache) and record ids
-- (pkg/surql/types/record_id.go) are independent of these.
--
-- Files:
--   Prelude        names of the libraries, lists, Go strings as lists of bytes, Go maps as association
--                  lists, signed integers, stable sorting
--   Errors         pkg/surql/errors/errors.go: an error is its chain of kinds; no message texts
--   Cache          pkg/surql/cache/stats.go and memory.go. Stats: the counters, bit patterns of an
--                  int64, which wrap around. Memory: the map from keys to elements of the linked list
--                  (an element has a number that stands for its address), Get, Set, Delete, Exists,
--                  Clear, ClearPattern. Its children hold the invariant (Valid), the abstract LRU cache
--                  (Lru), the refinements (Steps, Evict, Clears) and whole runs (Runs); Backend makes it
--                  a backend of the manager. Config: config.go. Manager: manager.go over the interface
--                  of backend.go (CacheBackend); its contract (Manager/Invalidation, BackendLaws) is
--                  what Manager/Tables uses and what Memory/Backend shows of the in-memory cache
--   Connection     Values: the dynamic values of the SDK. Client: QueryWithVars; the database is a
--                  function from all requests so far and the next request to an answer.
--                  Transactions: Begin, Commit, Rollback, Execute; Lifecycle: their sequences.
--                  Registry: the named connections of connection/registry.go
--   Migration      Models: the data. Records and History: the history table. Executor:
--                  ExecuteMigration and the loop over migrations. Validation: validateMigrationSet.
--                  Runs: MigrateUp, GetPendingMigrations, GetMigrationStatus, plans. Rollback:
--                  MigrateDown. Safety and Plans: rollback.go. Versions: VersionGraph. Diffs: the
--                  loops over two lists of named elements, which all diff functions share; Statements:
--                  the guards on defaults and events; Generators: one diff; Tables, Buckets, Schemas:
--                  the Diff functions. Its other children hold what the loops find (Named, Agreement,
--                  Silence, Settled, Whole), and what the diffs do (Defaults, Altered, Undo, Separators)
--   Schema         Clauses: what the renderers share. Fields, Indexes and IndexClauses, Events, Tables:
--                  schema/fields.go and table.go. Edges: edge.go. Buckets: bucket.go. Analyzers:
--                  analyzer.go.
--                  Constructors: of indexes, buckets and record fields. Accepted: Validate.
--                  Registry: registry.go, a value; Registry/Script: sql.go; Registry/Listing and
--                  Registry/Scripts: what these give. Drift: CompareSchemas of validator.go, with the
--                  loops that its comparisons share; Drift/Sameness and Drift/Whole: when it is silent;
--                  Drift/Columns and Drift/Spaces: when it takes columns and expressions to be the same
--   Query          Hints: query/hints.go. Builder, Mutations, Searches: the record Query of
--                  query/builder.go and its methods. Selection and Rendering: ToSurql. Chains: any
--                  sequence of these calls; Chains/Soundness and Chains/Completeness: what it reaches
--   Types          Decimal: strconv.FormatInt and ParseInt. RecordId: pkg/surql/types/record_id.go.
--                  Quoting and Operators: pkg/surql/types/operators.go
--   Tests          concrete runs
--
-- State and operations. A Go method on a pointer is a function from the state to the new state and
-- its results; a function that talks to the database takes the log of requests and returns the longer
-- log. Locks are left out: a method is one step. `none` as the result of a cache operation is a fault,
-- a pointer to an element that is not in the list. A nil client is `none`.
--
-- Fuel. The eviction loop of Set gets one round more than the list has elements, Ancestors as many
-- rounds as the graph has nodes, Descendants and Path one more, and the printing of a number one more
-- than its value; all are shown to be enough. All other loops are structural.
--
-- Parameters. The clock and the texts of times, path.Match, strings.TrimSpace, Fields, ToUpper and
-- ToLower, the verb %q of package fmt, the regular expressions of rollback.go, the answers of the
-- database, what DiscoverMigrations reads from a directory, and what the registry of connections calls
-- of its clients (making, connecting and disconnecting them). The order in which Go walks a map is a
-- list of keys that may be any, or is that of an association list where the result is sorted.
--
-- Floats, which the code only prints, are the texts that strconv gives. A pattern of diff.go or of a
-- validator that the code compiles itself is written out as a test on bytes.
--
-- Not modelled: connecting and authentication, sessions, streams and files, the Redis backend, the
-- discovery, generation and squashing of migrations, snapshot files, the schema parser, the
-- checks of one schema by the validator, accesses, expressions, batches and graphs, the
-- execution of built queries, orchestration, settings and the command line.
pub mod Cache
pub mod Connection
pub mod Errors
pub mod Migration
pub mod Prelude
pub mod Query
pub mod Schema
pub mod Tests
pub mod Types
