-- ===== src/Tests/ManagerRuns.antt =====
-- The manager of pkg/surql/cache/manager.go over the in-memory cache of the cache runs.
use surql_go.Prelude.{
  ℕ, ◌≡◌, ◌≢◌, refl, Bool, true, false, Option, none, some, List, [], ◌∷◌, Str, bytes, str_eq,
  has_prefix, join, lookup, insert, keys,
}
use surql_go.Prelude.Int.{pos}
use surql_go.Errors.{ok}
use surql_go.Cache.Stats.{new_stats}
use surql_go.Cache.Config.{default_config}
use surql_go.Cache.Memory.{MemoryCache}
use surql_go.Cache.Memory.Backend.{
  ValidCache, holds_entry, memory_backend, memory_backend-BackendLaws,
}
use surql_go.Cache.Manager.{
  CacheBackend, CacheManager, build_key, table_set, track_all, get, set, effective_ttl, delete_keys,
  invalidate_table,
}
use surql_go.Cache.Manager.Invalidation.{listed, BackendLaws}
use surql_go.Cache.Manager.Tables.{VisitsAll, invalidated_after_set}
use surql_go.Tests.CacheRuns.{two, two-IsValid}

abbrev no_match : Str → Str → Option Bool
no_match pattern key = some false

abbrev no_walk : MemoryCache ℕ → List Str
no_walk c = []

abbrev backend : CacheBackend (ValidCache ℕ) ℕ
backend = memory_backend no_match no_walk

abbrev in_order : List Str → List Str
in_order ks = ks

in_order-VisitsAll : VisitsAll in_order
in_order-VisitsAll k ks h = h

abbrev users : Str
users = bytes "users"

abbrev manager : CacheManager (ValidCache ℕ)
manager = record {
  config = default_config;
  backend = (two, two-IsValid);
  stats = new_stats;
  table_keys = (users, (bytes "a", true) ∷ (bytes "b", true) ∷ []) ∷ [];
}

program : Unit {0}
unfolding set invalidate_table delete_keys memory_backend track_all effective_ttl build_key
    table_set join has_prefix lookup insert keys str_eq
program = tt

prefixed : build_key default_config (bytes "a" ∷ bytes "b" ∷ []) ≡ bytes "surql:a:b"
unfolding program
prefixed = refl

dropped : (invalidate_table backend in_order users manager).0.1 ≡ none
unfolding program
dropped = refl

stored : (set backend 3 (bytes "c") 30 (pos 9) (users ∷ []) manager).0 ≡ none
unfolding program
stored = refl

dropped_later :
    (invalidate_table backend in_order users
      (set backend 3 (bytes "c") 30 (pos 9) (users ∷ []) manager).1).0.1
    ≡ none
unfolding program
dropped_later = refl

in_users : listed users (users ∷ []) ≡ true
unfolding program
in_users = refl

invalidated_after_set_example :
    (get backend 4
      (bytes "c")
      (invalidate_table backend in_order users
        (set backend 3 (bytes "c") 30 (pos 9) (users ∷ []) manager).1).1).0
    ≢ ok (some 30)
invalidated_after_set_example =
    invalidated_after_set backend holds_entry (memory_backend-BackendLaws no_match no_walk) in_order
      3 4 (bytes "c") 30 (pos 9) (users ∷ []) users manager 30 in_order-VisitsAll refl in_users
      stored dropped_later

memory_backend-BackendLaws_example : BackendLaws backend holds_entry
memory_backend-BackendLaws_example = memory_backend-BackendLaws no_match no_walk
