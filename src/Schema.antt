-- ===== src/Schema.antt =====
-- pkg/surql/schema: definitions of tables, edges, buckets and analyzers, their checks and their
-- SurrealQL, the registry of definitions, and their drift from a database.
pub mod Clauses
pub mod Fields
pub mod Indexes
pub mod IndexClauses
pub mod Events
pub mod Tables
pub mod Edges
pub mod Buckets
pub mod Analyzers
pub mod Constructors
pub mod Accepted
pub mod Drift
pub mod Registry
