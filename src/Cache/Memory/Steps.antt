-- ===== src/Cache/Memory/Steps.antt =====
-- Get and Set of memory.go on a valid cache: they do not fault, keep the invariant, and do to the
-- entries what the abstract cache does.
use surql_go.Prelude.{
  ℕ, ◌<◌, ◌≡◌, refl, ◌∙◌, inl, inr, some, ◌∷◌, arith, Str, str_eq_iff, Bool-cases, lookup,
}
use surql_go.Cache.Stats.{record_hit, record_miss}
use surql_go.Cache.Memory.{
  MemoryEntry, Element, MemoryCache, expired, element, unlink, remove_element, get,
}
use surql_go.Cache.Memory.Elements.{
  Differs, find_key, find_key-unlink, length-unlink, All-unlink, Distinct-unlink, Differs-unlink,
  All-element, All-weaken, key_of_element,
}
use surql_go.Cache.Memory.Valid.{IsValid, stats-IsValid, linked_element, remove_element-IsValid}
use surql_go.Cache.Memory.Lru.{
  without, lru_get, entries, find_entry-entries, find_entry-entries_miss, entries-unlink,
}

module _ {ℓ} {V : Type ℓ} (c : MemoryCache V) where
  -- The element moves to the front, with a new value and expiry, and the other counters may change.
  unfoldable pub touched : Element V → MemoryEntry V → MemoryCache V
  touched e x = record c { order = record e { entry = x } ∷ unlink e.id c.order }

  pub touched-IsValid :
      (e : Element V) (x : MemoryEntry V)
      → IsValid c
      → element e.id c.order ≡ some e
      → x.key ≡ e.entry.key
      → IsValid (touched e x)
  unfolding touched find_key
  touched-IsValid e x v h p = record {
    linked = record {
      sized = omega (arith, length-unlink c.order h, v.linked.sized);
      below = omega (arith, length-unlink c.order h, v.linked.below);
      fresh = (
        All-element (λ y. y.id < c.next) e.id c.order v.linked.fresh h,
        All-unlink (λ y. y.id < c.next) e.id c.order v.linked.fresh,
      );
      distinct = (
        All-weaken (Differs e) (Differs (record e { entry = x })) (unlink e.id c.order)
            (λ y q. (q.0, λ r. q.1 (r ∙ p))) (Differs-unlink c.order v.linked.distinct h),
        Distinct-unlink e.id c.order v.linked.distinct,
      );
      agree = λ k. ground (
        arith,
        str_eq_iff x.key k,
        str_eq_iff e.entry.key k,
        find_key-unlink k c.order v.linked.distinct h,
        key_of_element c.order v.linked.distinct h,
        v.linked.agree k,
      );
    };
    positive = v.positive;
    small = v.small;
    bounded = omega (arith, length-unlink c.order h, v.bounded);
  }

  module _ (e : Element V) (v : IsValid c) (at : element e.id c.order ≡ some e) where
    pub after_remove : entries (unlink e.id c.order) ≡ without e.entry.key (entries c.order)
    after_remove = entries-unlink c.order v.linked.distinct at

    get_hit :
        (now : ℕ) (key : Str)
        → lookup key c.items ≡ some e.id
        → find_key key c.order ≡ some e
        → e.entry.key ≡ key
        → (c' : MemoryCache V) × (get now key c ≡ some (c', (lru_get now key (entries c.order)).1))
          × IsValid c'
          × (entries c'.order ≡ (lru_get now key (entries c.order)).0)
    unfolding get lru_get entries touched
    get_hit now key hit found same = elim (Bool-cases (expired now e.entry)) [
      | inl dead ↦
          let c' = remove_element e c in
          (
            record c' { stats = record_miss c'.stats },
            ground (arith, find_entry-entries key c.order found),
            stats-IsValid c' (record_miss c'.stats) refl (remove_element-IsValid c e v at),
            ground (arith, find_entry-entries key c.order found, after_remove),
          )
      | inr live ↦ (
        record (touched e e.entry) { stats = record_hit c.stats },
        ground (arith, find_entry-entries key c.order found),
        stats-IsValid (touched e e.entry) (record_hit c.stats) refl
            (touched-IsValid e e.entry v at refl),
        ground (arith, find_entry-entries key c.order found, after_remove),
      )
    ]

  -- Get on a valid cache does not fault and leaves a valid cache: it finds what the abstract cache
  -- finds, and leaves what that leaves.
  pub get_refines :
      (now : ℕ) (key : Str)
      → IsValid c
      → (c' : MemoryCache V) × (get now key c ≡ some (c', (lru_get now key (entries c.order)).1))
        × IsValid c'
        × (entries c'.order ≡ (lru_get now key (entries c.order)).0)
  unfolding get lru_get
  get_refines now key v = elim (linked_element c key v) [
    | inl (miss, absent) ↦
        let gone = find_entry-entries_miss key c.order absent in
        (
          record c { stats = record_miss c.stats },
          ground (arith, gone.0),
          stats-IsValid c (record_miss c.stats) refl v,
          ground (arith, gone.0),
        )
    | inr (e, hit, found, at, is_key) ↦ get_hit e v at now key hit found is_key
  ]
