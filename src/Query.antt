-- ===== src/Query.antt =====
-- pkg/surql/query: the query builder and its hints.
pub mod Hints
pub mod Builder
pub mod Mutations
pub mod Searches
pub mod Selection
pub mod Rendering
pub mod Chains
