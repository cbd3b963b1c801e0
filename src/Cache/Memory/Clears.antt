-- ===== src/Cache/Memory/Clears.antt =====
-- Delete, Exists, Clear and ClearPattern of memory.go on a valid cache.
use surql_go.Prelude.{
  ℕ, ◌+◌, ◌≡◌, refl, sym, if◌then◌else◌, inl, inr, Bool, true, false, Option, none, some, List, [],
  ◌∷◌, arith, length, Str, Bool-cases, Option-cases, lookup-empty,
}
use surql_go.Cache.Memory.{
  MemoryEntry, MemoryCache, remove_element, expired, delete_key, exists, clear, clear_pattern,
}
use surql_go.Cache.Memory.Elements.{find_key, length-unlink}
use surql_go.Cache.Memory.Valid.{IsValid, linked_element, remove_element-IsValid}
use surql_go.Cache.Memory.Lru.{
  find_entry, without, entries, find_entry-entries, find_entry-entries_miss,
}
use surql_go.Cache.Memory.Steps.{after_remove}

module _ {ℓ} {V : Type ℓ} where
  -- Whether the abstract cache holds a live entry for the key.
  abbrev pub live_entry : ℕ → Option (MemoryEntry V) → Bool
  live_entry now none = false
  live_entry now (some e) = if expired now e then false else true

  -- Delete on a valid cache does not fault, leaves a valid cache, and drops the entry of the key,
  -- if there is one, and nothing else.
  pub delete_refines :
      (c : MemoryCache V) (key : Str)
      → IsValid c
      → (c' : MemoryCache V) × (delete_key key c ≡ some c')
        × IsValid c'
        × (entries c'.order ≡ without key (entries c.order))
  unfolding delete_key
  delete_refines c key v = elim (linked_element c key v) [
    | inl (miss, absent) ↦ (c, ground arith, v, sym (find_entry-entries_miss key c.order absent).1)
    | inr (e, hit, found, at, is_key) ↦ (
      remove_element e c,
      ground arith,
      remove_element-IsValid c e v at,
      ground (arith, after_remove c e v at),
    )
  ]

  -- Exists on a valid cache does not fault, leaves a valid cache, answers whether there is a live
  -- entry, and drops an expired one.
  pub exists_refines :
      (c : MemoryCache V) (now : ℕ) (key : Str)
      → IsValid c
      → (c' : MemoryCache V) × (exists now key c
          ≡ some (c', live_entry now (find_entry key (entries c.order))))
        × IsValid c'
        × (entries c'.order ≡ (
            if live_entry now (find_entry key (entries c.order))
            then entries c.order
            else without key (entries c.order)))
  unfolding exists
  exists_refines c now key v = elim (linked_element c key v) [
    | inl (miss, absent) ↦ (
      c,
      ground (arith, find_entry-entries_miss key c.order absent),
      v,
      ground (arith, find_entry-entries_miss key c.order absent),
    )
    | inr (e, hit, found, at, is_key) ↦ elim (Bool-cases (expired now e.entry)) [
      | inl dead ↦ (
        remove_element e c,
        ground (arith, find_entry-entries key c.order found),
        remove_element-IsValid c e v at,
        ground (arith, find_entry-entries key c.order found, after_remove c e v at),
      )
      | inr live ↦ (
        c,
        ground (arith, find_entry-entries key c.order found),
        v,
        ground (arith, find_entry-entries key c.order found),
      )
    ]
  ]

  -- Clear of a valid cache leaves a valid, empty cache of the same capacity, and returns how many entries it held.
  pub clear_lem :
      (c : MemoryCache V)
      → IsValid c
      → IsValid (clear c).0
        × ((clear c).0.order ≡ [])
        × ((clear c).0.capacity ≡ c.capacity)
        × ((clear c).1 ≡ length c.order)
  unfolding clear find_key
  clear_lem c v = (
    record {
      linked = record {
        sized = refl;
        below = omega arith;
        fresh = tt;
        distinct = tt;
        agree = λ k. lookup-empty k;
      };
      positive = v.positive;
      small = v.small;
      bounded = omega arith;
    },
    refl,
    refl,
    refl,
  )

  -- ClearPattern on a valid cache, in whatever order it visits the keys: it does not fault, keeps the invariant,
  -- and counts exactly the entries that it dropped, also when it stops at a bad pattern.
  pub clear_pattern_lem :
      (path_match : Str → Option Bool) (ks : List Str) (c : MemoryCache V) (removed : ℕ)
      → IsValid c
      → (c' : MemoryCache V) × (count : ℕ) × (fine : Bool) × (clear_pattern path_match ks c removed
          ≡ some (c', count, fine))
        × IsValid c'
        × (count + length c'.order ≡ removed + length c.order)
  unfolding clear_pattern
  clear_pattern_lem path_match [] c removed v = (c, removed, true, refl, v, refl)
  clear_pattern_lem path_match (k ∷ ks) c removed v = elim (linked_element c k v) [
    | inl (miss, absent) ↦ rw (miss, clear_pattern) (clear_pattern_lem path_match ks c removed v)
    | inr (e, hit, found, at, is_key) ↦ elim (Option-cases (path_match k)) [
      | inl bad ↦ (c, removed, false, ground arith, v, refl)
      | inr (true, m) ↦
          let (c', count, fine, runs, valid, counted) =
            clear_pattern_lem path_match ks (remove_element e c) (removed + 1)
              (remove_element-IsValid c e v at) in
          (
            c',
            count,
            fine,
            rw (hit, at, m, clear_pattern) runs,
            valid,
            omega (arith, counted, length-unlink c.order at),
          )
      | inr (false, m) ↦
          rw (hit, at, m, clear_pattern) (clear_pattern_lem path_match ks c removed v)
    ]
  ]
