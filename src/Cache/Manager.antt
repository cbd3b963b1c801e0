-- ===== src/Cache/Manager.antt =====
-- pkg/surql/cache/manager.go over the interface of pkg/surql/cache/backend.go. The locks are left
-- out: a method is one step. The order in which Go walks a set of keys is a parameter.
pub mod Invalidation
pub mod Tables
use surql_go.Prelude.{
  ℕ, suc, Bool, true, false, if◌then◌else◌, Option, none, some, List, [], ◌∷◌, ◌++◌, map, Str,
  bytes, join, has_prefix, GoMap, lookup, insert, delete, keys,
}
use surql_go.Prelude.Int.{ℤ, pos, negsuc}
use surql_go.Errors.{GoError, Result, ok, err}
use surql_go.Cache.Stats.{CacheStats, new_stats, record_hit, record_miss, reset}
use surql_go.Cache.Config.{CacheConfig, not_positive, validate}

-- CacheBackend, with the state that its methods change; `now` is the time of the call.
pub record CacheBackend (B V : Type 0) : Type 0 where
  pub get : ℕ → Str → B → Result (Option V) × B
  pub set : ℕ → Str → V → ℤ → B → Option GoError × B
  pub delete_key : Str → B → Option GoError × B
  pub exists : ℕ → Str → B → Result Bool × B
  pub clear : B → Result ℤ × B
  -- the count, and the error
  pub clear_pattern : Str → B → (ℤ × Option GoError) × B
  pub stats : B → Result CacheStats × B

abbrev pub KeySet : Type 0
KeySet = GoMap Bool

pub record CacheManager (B : Type 0) : Type 0 where
  pub config : CacheConfig
  pub backend : B
  pub stats : CacheStats
  pub table_keys : GoMap KeySet

-- NewCacheManager with a backend that is given
unfoldable pub new_cache_manager : {B : Type 0} → CacheConfig → B → Result (CacheManager B)
unfolding validate
new_cache_manager cfg b = elim (validate cfg) [
  | some e ↦ err e
  | none ↦ ok (record { config = cfg; backend = b; stats = new_stats; table_keys = [] })
]

-- BuildKey
unfoldable pub build_key : CacheConfig → List Str → Str
unfolding join has_prefix
build_key cfg parts =
    let key = join parts (bytes ":") in
    elim cfg.key_prefix [
      | [] ↦ key
      | c ∷ cs ↦ if has_prefix key (c ∷ cs) then key else (c ∷ cs) ++ key
    ]

-- The set of a table, or an empty one
unfoldable pub table_set : Str → GoMap KeySet → KeySet
table_set t tables = elim (lookup t tables) [ none ↦ [] | some set ↦ set ]

-- The body of the loop of Set, and of TrackTable
unfoldable pub track : Str → Str → GoMap KeySet → GoMap KeySet
unfolding table_set
track key t tables = insert t (insert key true (table_set t tables)) tables

unfoldable pub track_all : Str → List Str → GoMap KeySet → GoMap KeySet
unfolding track
track_all key [] tables = tables
track_all key (t ∷ ts) tables = track_all key ts (track key t tables)

-- The loop of Delete: the key leaves the set of every table.
unfoldable pub untrack : Str → GoMap KeySet → GoMap KeySet
untrack key [] = []
untrack key ((t, set) ∷ tables) = (t, delete key set) ∷ untrack key tables

-- The count that Get keeps
unfoldable pub count_read : {V : Type 0} → Option V → CacheStats → CacheStats
unfolding record_hit record_miss
count_read (some v) s = record_hit s
count_read none s = record_miss s

module _ {B V : Type 0} (ops : CacheBackend B V) where
  counted : CacheManager B → Result (Option V) → B → Result (Option V) × CacheManager B
  unfolding count_read
  counted m (err e) b = (err e, record m { backend = b })
  counted m (ok v) b = (ok v, record m { backend = b; stats = count_read v m.stats })

  -- Get: a miss is `none`.
  unfoldable pub get : ℕ → Str → CacheManager B → Result (Option V) × CacheManager B
  unfolding counted build_key
  get now key m =
      if m.config.enabled
      then (let (found, b) = ops.get now (build_key m.config (key ∷ [])) m.backend in
          counted m found b)
      else (ok none, m)

  unfoldable pub effective_ttl : ℤ → CacheManager B → ℤ
  effective_ttl ttl m = if not_positive ttl then m.config.default_ttl else ttl

  unfoldable pub set : ℕ → Str → V → ℤ → List Str → CacheManager B → Option GoError × CacheManager B
  unfolding effective_ttl build_key track_all
  set now key value ttl tables m =
      if m.config.enabled
      then (let prefixed = build_key m.config (key ∷ []) in
          let (failed, b) = ops.set now prefixed value (effective_ttl ttl m) m.backend in
          elim failed [
            | some e ↦ (some e, record m { backend = b })
            | none ↦ (
              none,
              record m { backend = b; table_keys = track_all prefixed tables m.table_keys },
            )
          ])
      else (none, m)

  -- Delete, and InvalidateKey
  unfoldable pub delete_key : Str → CacheManager B → Option GoError × CacheManager B
  unfolding build_key untrack
  delete_key key m =
      if m.config.enabled
      then (let prefixed = build_key m.config (key ∷ []) in
          let (failed, b) = ops.delete_key prefixed m.backend in
          elim failed [
            | some e ↦ (some e, record m { backend = b })
            | none ↦ (none, record m { backend = b; table_keys = untrack prefixed m.table_keys })
          ])
      else (none, m)

  unfoldable pub exists : ℕ → Str → CacheManager B → Result Bool × CacheManager B
  unfolding build_key
  exists now key m =
      if m.config.enabled
      then (let (answer, b) = ops.exists now (build_key m.config (key ∷ [])) m.backend in
          (answer, record m { backend = b }))
      else (ok false, m)

  unfoldable pub clear : CacheManager B → Result ℤ × CacheManager B
  unfolding reset
  clear m =
      if m.config.enabled
      then (let (answer, b) = ops.clear m.backend in
          elim answer [
            | err e ↦ (err e, record m { backend = b })
            | ok n ↦ (ok n, record m { backend = b; table_keys = []; stats = reset m.stats })
          ])
      else (ok (pos 0), m)

  unfoldable pub backend_stats : CacheManager B → Result CacheStats × CacheManager B
  backend_stats m =
      if m.config.enabled
      then (let (answer, b) = ops.stats m.backend in (answer, record m { backend = b }))
      else (ok new_stats, m)

  -- The loop of InvalidateTable: how many keys were deleted, and the error that stopped it
  unfoldable pub delete_keys : List Str → ℕ → B → (ℕ × Option GoError) × B
  delete_keys [] count b = ((count, none), b)
  delete_keys (k ∷ ks) count b =
      let (failed, b') = ops.delete_key k b in
      let rest = delete_keys ks (suc count) b' in
      elim failed [ none ↦ rest | some e ↦ ((count, some e), b') ]

  -- InvalidateTable; `walk` puts the keys of the set into the order of the iteration.
  unfoldable pub invalidate_table :
      (List Str → List Str) → Str → CacheManager B → (ℕ × Option GoError) × CacheManager B
  unfolding delete_keys table_set
  invalidate_table walk t m =
      if m.config.enabled
      then (let (result, b) = delete_keys (walk (keys (table_set t m.table_keys))) 0 m.backend in
          (result, record m { backend = b; table_keys = insert t [] m.table_keys }))
      else ((0, none), m)

  unfoldable pub invalidate_pattern : Str → CacheManager B → (ℤ × Option GoError) × CacheManager B
  unfolding build_key
  invalidate_pattern pattern m =
      if m.config.enabled
      then (let (answer, b) = ops.clear_pattern (build_key m.config (pattern ∷ [])) m.backend in
          (answer, record m { backend = b }))
      else ((pos 0, none), m)

  unfoldable pub track_table : Str → Str → CacheManager B → CacheManager B
  unfolding track build_key
  track_table t key m = record m {
    table_keys = track (build_key m.config (key ∷ [])) t m.table_keys;
  }

  -- TableKeys, in the order of the association list
  unfoldable pub tracked_keys : Str → CacheManager B → List Str
  unfolding table_set keys
  tracked_keys t m = keys (table_set t m.table_keys)
