-- ===== src/Cache.antt =====
-- pkg/surql/cache: the counters, the in-memory backend, the configuration and the manager.
pub mod Stats
pub mod Memory
pub mod Config
pub mod Manager
