-- ===== src/Cache/Memory/Valid.antt =====
-- The invariant of the in-memory cache: the map and the list of memory.go agree, the size counter
-- is the list's length, and the list fits. Removing an element keeps all but the bound.
use surql_go.Prelude.{
  ℕ, ◌≤◌, ◌<◌, ◌≡◌, ◌∙◌, ◌⊎◌, inl, inr, Option, none, some, arith, length, Str, lookup,
  lookup-delete, Option-cases,
}
use surql_go.Cache.Stats.{CacheStats, int64_mod}
use surql_go.Cache.Memory.{Element, MemoryCache, element, remove_element}
use surql_go.Cache.Memory.Elements.{
  All, Distinct, find_key, element_of_key, find_key-unlink, length-unlink, All-unlink,
  Distinct-unlink,
}

abbrev pub address {ℓ} : {V : Type ℓ} → Option (Element V) → Option ℕ
address none = none
address (some e) = some e.id

-- What links the map, the list and the counter, whatever the capacity.
pub record IsLinked {ℓ} {V : Type ℓ} (c : MemoryCache V) : Type ℓ where
  pub sized : c.stats.size ≡ length c.order
  pub below : length c.order < int64_mod
  pub fresh : All (λ e. e.id < c.next) c.order
  pub distinct : Distinct c.order
  pub agree : (k : Str) → lookup k c.items ≡ address (find_key k c.order)

-- The capacity is an int, hence below 2^63.
pub record IsValid {ℓ} {V : Type ℓ} (c : MemoryCache V) : Type ℓ where
  pub linked : IsLinked c
  pub positive : 0 < c.capacity
  pub small : c.capacity < 9223372036854775808
  pub bounded : length c.order ≤ c.capacity

module _ {ℓ} {V : Type ℓ} (c : MemoryCache V) where
  -- The element that the map points at for a key is the one that holds the key.
  element_of_lookup :
      (k : Str) {i : ℕ}
      → IsLinked c
      → lookup k c.items ≡ some i
      → (e : Element V) × (find_key k c.order ≡ some e)
        × (element i c.order ≡ some e)
        × (e.id ≡ i)
        × (e.entry.key ≡ k)
  element_of_lookup k {i} v h = elim (Option-cases (find_key k c.order)) [
    | inl miss ↦ absurd (ground (arith, v.agree k))
    | inr (e, hit) ↦
        let at = element_of_key k c.order v.distinct hit in
        (e, hit, ground (arith, v.agree k, at), ground (arith, v.agree k), at.1)
  ]

  miss_of_lookup : (k : Str) → IsLinked c → lookup k c.items ≡ none → find_key k c.order ≡ none
  miss_of_lookup k v h = elim (Option-cases (find_key k c.order)) [
    | inl miss ↦ miss
    | inr (e, hit) ↦ absurd (ground (arith, v.agree k))
  ]

  -- The element that a key of the map points at, all in terms of its own address and key.
  pub linked_element :
      (key : Str)
      → IsValid c
      → (lookup key c.items ≡ none) × (find_key key c.order ≡ none)
        ⊎ ((e : Element V) × (lookup key c.items ≡ some e.id)
            × (find_key key c.order ≡ some e)
            × (element e.id c.order ≡ some e)
            × (e.entry.key ≡ key))
  linked_element key v = elim (Option-cases (lookup key c.items)) [
    | inl miss ↦ inl (miss, miss_of_lookup key v.linked miss)
    | inr (i, hit) ↦
        let (e, found, at, same, is_key) = element_of_lookup key v.linked hit in
        inr (e, ground (arith, hit, same), found, ground (arith, at, same), is_key)
  ]

  pub remove_element-IsLinked :
      (e : Element V) → IsLinked c → element e.id c.order ≡ some e → IsLinked (remove_element e c)
  unfolding remove_element
  remove_element-IsLinked e v h = record {
    sized = omega (arith, length-unlink c.order h, v.sized, v.below);
    below = omega (arith, length-unlink c.order h, v.below);
    fresh = All-unlink (λ x. x.id < c.next) e.id c.order v.fresh;
    distinct = Distinct-unlink e.id c.order v.distinct;
    agree = λ k. ground (
      arith,
      lookup-delete e.entry.key k c.items,
      find_key-unlink k c.order v.distinct h,
      v.agree k,
    );
  }

  pub remove_element-IsValid :
      (e : Element V) → IsValid c → element e.id c.order ≡ some e → IsValid (remove_element e c)
  unfolding remove_element
  remove_element-IsValid e v h = record {
    linked = remove_element-IsLinked e v.linked h;
    positive = v.positive;
    small = v.small;
    bounded = omega (arith, length-unlink c.order h, v.bounded);
  }

  -- Counters other than the size are free.
  pub stats-IsValid :
      (s : CacheStats) → s.size ≡ c.stats.size → IsValid c → IsValid (record c { stats = s })
  stats-IsValid s p v = record {
    linked = record {
      sized = p ∙ v.linked.sized;
      below = v.linked.below;
      fresh = v.linked.fresh;
      distinct = v.linked.distinct;
      agree = v.linked.agree;
    };
    positive = v.positive;
    small = v.small;
    bounded = v.bounded;
  }
