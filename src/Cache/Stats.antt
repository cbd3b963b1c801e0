-- ===== src/Cache/Stats.antt =====
-- pkg/surql/cache/stats.go: the counters, as bit patterns of an int64.
use surql_go.Prelude.{ℕ, ◌+◌, ◌%◌}

-- The number of values of an int64; the pattern `int64_mod - 1` is -1.
abbrev pub int64_mod : ℕ
int64_mod = 18446744073709551616

abbrev pub minus_one : ℕ
minus_one = 18446744073709551615

pub record CacheStats : Type 0 where
  pub hits : ℕ
  pub misses : ℕ
  pub size : ℕ
  pub evictions : ℕ

abbrev pub new_stats : CacheStats
new_stats = record { hits = 0; misses = 0; size = 0; evictions = 0 }

unfoldable pub record_hit : CacheStats → CacheStats
record_hit s = record s { hits = (s.hits + 1) % int64_mod }

unfoldable pub record_miss : CacheStats → CacheStats
record_miss s = record s { misses = (s.misses + 1) % int64_mod }

unfoldable pub record_eviction : CacheStats → CacheStats
record_eviction s = record s { evictions = (s.evictions + 1) % int64_mod }

unfoldable pub set_size : ℕ → CacheStats → CacheStats
set_size n s = record s { size = n }

unfoldable pub add_size : ℕ → CacheStats → CacheStats
add_size delta s = record s { size = (s.size + delta) % int64_mod }

unfoldable pub reset : CacheStats → CacheStats
reset s = record { hits = 0; misses = 0; size = 0; evictions = 0 }
