-- ===== src/Tests/CacheRuns.antt =====
-- The in-memory cache of pkg/surql/cache at a cache of capacity 2 that holds two entries.
use surql_go.Prelude.{
  ℕ, ◌+◌, ◌≡◌, ◌≢◌, refl, none, some, [], ◌∷◌, arith, Str, bytes, str_eq, str_eq_iff, lookup,
  delete, insert,
}
use surql_go.Prelude.Int.{pos, negsuc}
use surql_go.Cache.Memory.{
  MemoryCache, element, back, unlink, new_memory_cache, positive_or, get, set, delete_key,
}
use surql_go.Cache.Memory.Elements.{find_key}
use surql_go.Cache.Memory.Valid.{IsValid}
use surql_go.Cache.Memory.Lru.{lru_get, lru_set, entries}
use surql_go.Cache.Memory.Steps.{get_refines}
use surql_go.Cache.Memory.Evict.{set_refines}
use surql_go.Cache.Memory.Runs.{get_call, set_call, delete_call, run, run-IsValid}

abbrev key_a : Str
key_a = bytes "a"

abbrev key_b : Str
key_b = bytes "b"

abbrev pub two : MemoryCache ℕ
two = record {
  capacity = 2;
  default_ttl = 100;
  items = (key_a, 0) ∷ (key_b, 1) ∷ [];
  order =
      record { id = 1; entry = record { key = key_b; value = 20; expires_at = 50 } }
      ∷ record { id = 0; entry = record { key = key_a; value = 10; expires_at = 90 } }
      ∷ [];
  next = 2;
  stats = record { hits = 0; misses = 0; size = 2; evictions = 0 };
}

keys_differ : key_a ≢ key_b
keys_differ p = ground arith

pub two-IsValid : IsValid two
unfolding lookup find_key str_eq
two-IsValid = record {
  linked = record {
    sized = refl;
    below = omega arith;
    fresh = (omega arith, (omega arith, tt));
    distinct = (((omega arith, λ p. keys_differ p), tt), (tt, tt));
    agree = λ k. ground (arith, str_eq_iff key_a k, str_eq_iff key_b k, keys_differ);
  };
  positive = omega arith;
  small = omega arith;
  bounded = omega arith;
}

program : Unit {0}
unfolding new_memory_cache get set delete_key lookup insert delete str_eq element back unlink run
program = tt

-- Set of a third key drops the least recently used one; Get then moves its entry to the front.
lru_run :
    (c : MemoryCache ℕ) × (run (set_call 10 (bytes "c") 30 (pos 5) ∷ get_call 11 key_b ∷ []) two
      ≡ some c)
    × (lookup key_a c.items ≡ none)
    × (c.stats.evictions ≡ 1)
    × (c.stats.hits ≡ 1)
unfolding program
lru_run = (_, refl, refl, refl, refl)

get_refines_example :
    (c : MemoryCache ℕ) × (get 60 key_b two ≡ some (c, (lru_get 60 key_b (entries two.order)).1))
    × IsValid c
    × (entries c.order ≡ (lru_get 60 key_b (entries two.order)).0)
get_refines_example = get_refines two 60 key_b two-IsValid

set_refines_example :
    (c : MemoryCache ℕ) × (set 7 (bytes "c") 30 (pos 5) two ≡ some c)
    × IsValid c
    × (entries c.order
        ≡ lru_set 2
            (record { key = bytes "c"; value = 30; expires_at = 7 + positive_or (pos 5) 100 })
            (entries two.order))
set_refines_example = set_refines two (bytes "c") 30 7 (pos 5) two-IsValid

run-IsValid_example :
    (c : MemoryCache ℕ) × (run (set_call 1 key_a 9 (negsuc 0) ∷ delete_call key_b ∷ []) two
      ≡ some c)
    × IsValid c
run-IsValid_example =
    run-IsValid (set_call 1 key_a 9 (negsuc 0) ∷ delete_call key_b ∷ []) two two-IsValid

abbrev roomy : MemoryCache ℕ
roomy = record two { capacity = 3 }

roomy-IsValid : IsValid roomy
roomy-IsValid = record {
  linked = record {
    sized = two-IsValid.linked.sized;
    below = two-IsValid.linked.below;
    fresh = two-IsValid.linked.fresh;
    distinct = two-IsValid.linked.distinct;
    agree = two-IsValid.linked.agree;
  };
  positive = omega arith;
  small = omega arith;
  bounded = omega arith;
}
