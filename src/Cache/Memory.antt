-- ===== src/Cache/Memory.antt =====
-- pkg/surql/cache/memory.go: the LRU cache with a time to live for each entry. The map holds
-- pointers to elements of the linked list: an element has a number that stands for its address.
-- `none` is a fault, a pointer to an element that is not in the list or a loop without fuel.
pub mod Elements
pub mod Valid
pub mod Steps
pub mod Evict
pub mod Clears
pub mod Runs
pub mod Backend
pub mod Lru
use surql_go.Prelude.{
  ℕ, zero, suc, ◌+◌, ◌==◌, ltb, if◌then◌else◌, Bool, true, false, not, ◌&&◌, Option, none, some,
  List, [], ◌∷◌, length, Str, GoMap, lookup, insert, delete,
}
use surql_go.Prelude.Int.{ℤ, pos, negsuc}
use surql_go.Cache.Stats.{
  CacheStats, new_stats, record_hit, record_miss, record_eviction, add_size, set_size, minus_one,
}

-- config.go: DefaultMaxSize, and DefaultTTL in nanoseconds
abbrev pub default_max_size : ℕ
default_max_size = 1000

abbrev pub default_ttl_ns : ℕ
default_ttl_ns = 300000000000

-- A time is a number of nanoseconds, and the zero time is 0.
pub record MemoryEntry {ℓ} (V : Type ℓ) : Type ℓ where
  pub key : Str
  pub value : V
  pub expires_at : ℕ

-- *list.Element
pub record Element {ℓ} (V : Type ℓ) : Type ℓ where
  pub id : ℕ
  pub entry : MemoryEntry V

pub record MemoryCache {ℓ} (V : Type ℓ) : Type ℓ where
  pub capacity : ℕ
  pub default_ttl : ℕ
  pub items : GoMap ℕ
  pub order : List (Element V)
  -- the next fresh address
  pub next : ℕ
  pub stats : CacheStats

-- `if n <= 0 { n = fallback }`
unfoldable pub positive_or : ℤ → ℕ → ℕ
positive_or (pos n) fallback = if n == 0 then fallback else n
positive_or (negsuc n) fallback = fallback

module _ {ℓ} {V : Type ℓ} where
  unfoldable pub new_memory_cache : ℤ → ℤ → MemoryCache V
  unfolding positive_or
  new_memory_cache capacity default_ttl = record {
    capacity = positive_or capacity default_max_size;
    default_ttl = positive_or default_ttl default_ttl_ns;
    items = [];
    order = [];
    next = 0;
    stats = new_stats;
  }

  -- !entry.expiresAt.IsZero() && !m.now().Before(entry.expiresAt)
  abbrev pub expired : ℕ → MemoryEntry V → Bool
  expired now e = not (e.expires_at == 0) && not (ltb now e.expires_at)

  -- container/list: the element at an address, its removal, and the last element
  unfoldable pub element : ℕ → List (Element V) → Option (Element V)
  element i [] = none
  element i (e ∷ l) = if e.id == i then some e else element i l

  unfoldable pub unlink : ℕ → List (Element V) → List (Element V)
  unlink i [] = []
  unlink i (e ∷ l) = if e.id == i then l else e ∷ unlink i l

  unfoldable pub back : List (Element V) → Option (Element V)
  back [] = none
  back (e ∷ []) = some e
  back (e ∷ f ∷ l) = back (f ∷ l)

  -- (*MemoryCache).removeElement
  unfoldable pub remove_element : Element V → MemoryCache V → MemoryCache V
  unfolding add_size
  remove_element e c = record c {
    items = delete e.entry.key c.items;
    order = unlink e.id c.order;
    stats = add_size minus_one c.stats;
  }

  unfoldable pub size : MemoryCache V → ℕ
  size c = length c.order

  -- Get, with the element that the map points at
  get_element : ℕ → MemoryCache V → Element V → MemoryCache V × Option V
  get_element now c e =
      if expired now e.entry
      then (let c' = remove_element e c in (record c' { stats = record_miss c'.stats }, none))
      else (
        record c { order = e ∷ unlink e.id c.order; stats = record_hit c.stats },
        some e.entry.value,
      )

  unfoldable pub get : ℕ → Str → MemoryCache V → Option (MemoryCache V × Option V)
  unfolding get_element remove_element record_hit record_miss
  get now key c = elim (lookup key c.items) [
    | none ↦ some (record c { stats = record_miss c.stats }, none)
    | some i ↦ elim (element i c.order) [ none ↦ none | some e ↦ some (get_element now c e) ]
  ]

  -- The eviction loop of Set.
  unfoldable pub evict : ℕ → MemoryCache V → Option (MemoryCache V)
  unfolding remove_element record_eviction
  evict zero c = none
  evict (suc fuel) c =
      if ltb c.capacity (length c.order)
      then elim (back c.order) [
        | none ↦ some c
        | some oldest ↦
            let c' = remove_element oldest c in
            evict fuel (record c' { stats = record_eviction c'.stats })
      ]
      else some c

  set_new : ℕ → Str → V → MemoryCache V → Option (MemoryCache V)
  unfolding evict add_size
  set_new expires_at key value c =
      let e : Element V = record {
        id = c.next;
        entry = record { key = key; value = value; expires_at = expires_at };
      } in
      evict (suc (length (e ∷ c.order))) (record c {
        items = insert key c.next c.items;
        order = e ∷ c.order;
        next = suc c.next;
        stats = add_size 1 c.stats;
      })

  -- Set: the new cache
  unfoldable pub set : ℕ → Str → V → ℤ → MemoryCache V → Option (MemoryCache V)
  unfolding set_new positive_or
  set now key value ttl c =
      let expires_at = now + positive_or ttl c.default_ttl in
      elim (lookup key c.items) [
        | none ↦ set_new expires_at key value c
        | some i ↦ elim (element i c.order) [
          | none ↦ none
          | some e ↦
              let e' : Element V = record e {
                entry = record { key = e.entry.key; value = value; expires_at = expires_at };
              } in
              some (record c { order = e' ∷ unlink i c.order })
        ]
      ]

  unfoldable pub delete_key : Str → MemoryCache V → Option (MemoryCache V)
  unfolding remove_element
  delete_key key c = elim (lookup key c.items) [
    | none ↦ some c
    | some i ↦ elim (element i c.order) [ none ↦ none | some e ↦ some (remove_element e c) ]
  ]

  unfoldable pub exists : ℕ → Str → MemoryCache V → Option (MemoryCache V × Bool)
  unfolding remove_element
  exists now key c = elim (lookup key c.items) [
    | none ↦ some (c, false)
    | some i ↦ elim (element i c.order) [
      | none ↦ none
      | some e ↦ some (if expired now e.entry then (remove_element e c, false) else (c, true))
    ]
  ]

  unfoldable pub clear : MemoryCache V → MemoryCache V × ℕ
  unfolding set_size
  clear c = (record c { items = []; order = []; stats = set_size 0 c.stats }, length c.order)

  -- ClearPattern visits the map's entries in an order that the runtime chooses, here a list of
  -- keys. `path_match` is path.Match of the pattern: `none` is a malformed pattern.
  unfoldable pub clear_pattern :
      (Str → Option Bool) → List Str → MemoryCache V → ℕ → Option (MemoryCache V × ℕ × Bool)
  unfolding remove_element
  clear_pattern path_match [] c removed = some (c, removed, true)
  clear_pattern path_match (k ∷ ks) c removed = elim (lookup k c.items) [
    | none ↦ clear_pattern path_match ks c removed
    | some i ↦ elim (element i c.order) [
      | none ↦ none
      | some e ↦ elim (path_match k) [
        | none ↦ some (c, removed, false)
        | some false ↦ clear_pattern path_match ks c removed
        | some true ↦ clear_pattern path_match ks (remove_element e c) (removed + 1)
      ]
    ]
  ]

  -- Stats: the counters, with the size read off the list
  unfoldable pub stats : MemoryCache V → CacheStats
  unfolding size
  stats c = record c.stats { size = size c }
