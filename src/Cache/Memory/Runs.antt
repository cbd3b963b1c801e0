-- ===== src/Cache/Memory/Runs.antt =====
-- Whole histories of a memory cache of memory.go, from its constructor on, and what a client reads
-- back.
use surql_go.Prelude.{
  ℕ, suc, ◌+◌, ◌-◌, ◌<◌, ◌≡◌, refl, ◌≢◌, ltb, if◌then◌else◌, Bool, Option, none, some, List, [],
  ◌∷◌, arith, length, take_of_length-le, Str, str_eq_iff, str_eq_refl, lookup-empty,
}
use surql_go.Prelude.Int.{ℤ, pos_part}
use surql_go.Cache.Memory.{
  MemoryEntry, MemoryCache, positive_or, new_memory_cache, get, set, delete_key, exists, clear,
  clear_pattern,
}
use surql_go.Cache.Memory.Elements.{find_key}
use surql_go.Cache.Memory.Valid.{IsValid}
use surql_go.Cache.Memory.Lru.{
  find_entry, without, lru_get, lru_set, entries, find_entry-without_ne, length-without-le,
  length-entries,
}
use surql_go.Cache.Memory.Steps.{get_refines}
use surql_go.Cache.Memory.Evict.{set_refines}
use surql_go.Cache.Memory.Clears.{delete_refines, exists_refines, clear_lem, clear_pattern_lem}

-- A call of a method, with the time that its clock reads.
pub data Call {ℓ} (V : Type ℓ) : Type ℓ where
  get_call : ℕ → Str → Call V
  set_call : ℕ → Str → V → ℤ → Call V
  delete_call : Str → Call V
  exists_call : ℕ → Str → Call V
  clear_call : Call V
  clear_pattern_call : (Str → Option Bool) → List Str → Call V

positive_or-pos : (ttl : ℤ) (fallback : ℕ) → 0 < fallback → 0 < positive_or ttl fallback
unfolding positive_or
positive_or-pos ttl fallback h = ground arith

module _ {ℓ} {V : Type ℓ} where
  -- The cache after a call, or a fault.
  unfoldable pub apply : Call V → MemoryCache V → Option (MemoryCache V)
  apply (get_call now k) c = elim (get now k c) [ none ↦ none | some r ↦ some r.0 ]
  apply (set_call now k v ttl) c = set now k v ttl c
  apply (delete_call k) c = delete_key k c
  apply (exists_call now k) c = elim (exists now k c) [ none ↦ none | some r ↦ some r.0 ]
  apply clear_call c = some (clear c).0
  apply (clear_pattern_call path_match ks) c = elim (clear_pattern path_match ks c 0) [
    | none ↦ none
    | some r ↦ some r.0
  ]

  unfoldable pub run : List (Call V) → MemoryCache V → Option (MemoryCache V)
  unfolding apply
  run [] c = some c
  run (call ∷ calls) c = elim (apply call c) [ none ↦ none | some c' ↦ run calls c' ]

  -- The constructor builds a valid cache, if the capacity is an int64, and whatever its sign and the
  -- default time to live.
  pub new_memory_cache-IsValid :
      (capacity default_ttl : ℤ)
      → pos_part capacity < 9223372036854775808
      → IsValid (new_memory_cache {V = V} capacity default_ttl)
  unfolding new_memory_cache find_key
  new_memory_cache-IsValid capacity default_ttl h = record {
    linked = record {
      sized = refl;
      below = omega arith;
      fresh = tt;
      distinct = tt;
      agree = λ k. lookup-empty k;
    };
    positive = ground arith;
    small = ground arith;
    bounded = omega arith;
  }

  apply-IsValid :
      (call : Call V) (c : MemoryCache V)
      → IsValid c
      → (c' : MemoryCache V) × (apply call c ≡ some c') × IsValid c'
  unfolding apply
  apply-IsValid (get_call now k) c v =
      let (c', runs, valid, _) = get_refines c now k v in (c', rw (runs, apply), valid)
  apply-IsValid (set_call now k x ttl) c v =
      let (c', runs, valid, _) = set_refines c k x now ttl v in (c', runs, valid)
  apply-IsValid (delete_call k) c v =
      let (c', runs, valid, _) = delete_refines c k v in (c', runs, valid)
  apply-IsValid (exists_call now k) c v =
      let (c', runs, valid, _) = exists_refines c now k v in (c', rw (runs, apply), valid)
  apply-IsValid clear_call c v = ((clear c).0, refl, (clear_lem c v).0)
  apply-IsValid (clear_pattern_call path_match ks) c v =
      let (c', count, fine, runs, valid, _) = clear_pattern_lem path_match ks c 0 v in
      (c', rw (runs, apply), valid)

  -- No history of calls on a valid cache faults, and the invariant holds at its end.
  pub run-IsValid :
      (calls : List (Call V)) (c : MemoryCache V)
      → IsValid c
      → (c' : MemoryCache V) × (run calls c ≡ some c') × IsValid c'
  unfolding run
  run-IsValid [] c v = (c, refl, v)
  run-IsValid (call ∷ calls) c v =
      let (c1, runs, valid) = apply-IsValid call c v in rw (runs, run) (run-IsValid calls c1 valid)

  lru_get-lru_set :
      (later : ℕ) (e : MemoryEntry V) (l : List (MemoryEntry V)) (capacity : ℕ)
      → 0 < capacity
      → 0 < e.expires_at
      → (lru_get later e.key (lru_set capacity e l)).1
        ≡ (if ltb later e.expires_at then some e.value else none)
  unfolding lru_get lru_set find_entry
  lru_get-lru_set later e l capacity pos h =
      let p : capacity ≡ suc (capacity - 1) = omega arith in
      rw p (ground (arith, str_eq_refl e.key))

  lru_get-lru_set_ne :
      (later : ℕ) (k : Str) (e : MemoryEntry V) (l : List (MemoryEntry V)) (capacity : ℕ)
      → e.key ≢ k
      → length l < capacity
      → (lru_get later k (lru_set capacity e l)).1 ≡ (lru_get later k l).1
  unfolding lru_get lru_set find_entry
  lru_get-lru_set_ne later k e l capacity other room =
      let fits =
        take_of_length-le capacity (e ∷ without e.key l)
          (omega (arith, length-without-le e.key l)) in
      rw fits (ground (arith, str_eq_iff e.key k, find_entry-without_ne k e.key l other))

  module _ (c : MemoryCache V) (k : Str) (x : V) (now later : ℕ) (ttl : ℤ) (v : IsValid c) where
    -- On a valid cache with a positive default time to live, a Get after a Set of the same key
    -- returns the value while the time to live lasts, which is the default one if the given one is
    -- not positive; from then on it misses.
    pub get_after_set :
        0 < c.default_ttl
        → (c1 : MemoryCache V) × (c2 : MemoryCache V) × (set now k x ttl c ≡ some c1)
          × (get later k c1
              ≡ some (c2, if ltb later (now + positive_or ttl c.default_ttl) then some x else none))
    get_after_set d =
        let (c1, sets, valid, holds) = set_refines c k x now ttl v in
        let (c2, gets, _, _) = get_refines c1 later k valid in
        let t = now + positive_or ttl c.default_ttl in
        let e : MemoryEntry V = record { key = k; value = x; expires_at = t } in
        let back =
          lru_get-lru_set later e (entries c.order) c.capacity v.positive
            (omega (arith, positive_or-pos ttl c.default_ttl d)) in
        (c1, c2, sets, rw (← back, ← holds) gets)

    -- On a valid cache, a Set of one key does not change what a Get of another returns, if there is
    -- room.
    pub get_after_set_ne :
        (j : Str)
        → k ≢ j
        → length c.order < c.capacity
        → (c1 : MemoryCache V) × (c2 : MemoryCache V) × (c3 : MemoryCache V) × (r : Option V) × (set
              now k x ttl c
            ≡ some c1)
          × (get later j c1 ≡ some (c2, r))
          × (get later j c ≡ some (c3, r))
    get_after_set_ne j other room =
        let (c1, sets, valid, holds) = set_refines c k x now ttl v in
        let (c2, gets, _, _) = get_refines c1 later j valid in
        let (c3, before, _, _) = get_refines c later j v in
        let e : MemoryEntry V = record {
          key = k;
          value = x;
          expires_at = now + positive_or ttl c.default_ttl;
        } in
        let same =
          lru_get-lru_set_ne later j e (entries c.order) c.capacity other
            (omega (arith, length-entries c.order)) in
        (c1, c2, c3, (lru_get later j (entries c.order)).1, sets, rw (← same, ← holds) gets, before)
