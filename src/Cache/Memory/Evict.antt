-- ===== src/Cache/Memory/Evict.antt =====
-- Set of memory.go, with its eviction loop, on a valid cache: it does not fault, keeps the
-- invariant, and does to the entries what the abstract cache does.
use surql_go.Prelude.{
  ℕ, suc, ◌+◌, ◌-◌, ◌≤◌, ◌<◌, ◌≡◌, refl, sym, ◌∙◌, inl, inr, none, some, ◌∷◌, arith, length, take,
  ap, Str, Bool-cases, lookup, insert, lookup-insert, ltb, take_of_length-le,
}
use mathlib.Core.Path.{ap₂}
use surql_go.Prelude.Int.{ℤ}
use surql_go.Cache.Stats.{add_size, record_eviction}
use surql_go.Cache.Memory.{
  MemoryEntry, Element, MemoryCache, element, remove_element, evict, set_new, set, positive_or,
}
use surql_go.Cache.Memory.Elements.{find_key, length-unlink, All-fresh, All-weaken, unlink-back}
use surql_go.Cache.Memory.Valid.{
  IsLinked, IsValid, linked_element, remove_element-IsLinked, stats-IsValid,
}
use surql_go.Cache.Memory.Lru.{
  lru_set, entries, find_entry-entries_miss, entries-take, length-entries,
}
use surql_go.Cache.Memory.Steps.{touched, touched-IsValid, after_remove}

module _ {ℓ} {V : Type ℓ} where
  -- One more element than fits: the loop drops the last one and stops.
  evict_full :
      (c : MemoryCache V) (fuel n : ℕ)
      → IsLinked c
      → c.capacity ≡ suc n
      → c.capacity < 9223372036854775808
      → length c.order ≡ suc c.capacity
      → (c' : MemoryCache V) × (evict (suc (suc fuel)) c ≡ some c')
        × IsValid c'
        × (entries c'.order ≡ take c.capacity (entries c.order))
  unfolding evict
  evict_full c fuel n v p small full =
      let (e, last, at, rest) = unlink-back c.capacity c.order v.distinct full in
      let c1 = remove_element e c in
      let c' = record c1 { stats = record_eviction c1.stats } in
      let valid : IsValid c1 = record {
        linked = remove_element-IsLinked c e v at;
        positive = omega arith;
        small = small;
        bounded = omega (arith, length-unlink c.order at);
      } in
      (
        c',
        ground (arith, length-unlink c.order at),
        stats-IsValid c1 (record_eviction c1.stats) refl valid,
        rw rest (entries-take c.capacity c.order),
      )

  evict_lem :
      (c : MemoryCache V) (fuel : ℕ)
      → IsLinked c
      → 0 < c.capacity
      → c.capacity < 9223372036854775808
      → length c.order ≤ suc c.capacity
      → (c' : MemoryCache V) × (evict (suc (suc fuel)) c ≡ some c')
        × IsValid c'
        × (entries c'.order ≡ take c.capacity (entries c.order))
  unfolding evict
  evict_lem c fuel v pos small fits = elim (Bool-cases (ltb c.capacity (length c.order))) [
    | inl more ↦ evict_full c fuel (c.capacity - 1) v (omega arith) small (ground arith)
    | inr done ↦ (
      c,
      ground arith,
      record { linked = v; positive = pos; small = small; bounded = ground arith },
      sym (take_of_length-le c.capacity (entries c.order) (ground (arith, length-entries c.order))),
    )
  ]

module _ {ℓ} {V : Type ℓ} (c : MemoryCache V) (key : Str) (value : V) where
  -- The entry that Set writes.
  abbrev stored : ℕ → MemoryEntry V
  stored expires_at = record { key = key; value = value; expires_at = expires_at }

  abbrev pushed : ℕ → MemoryCache V
  pushed expires_at =
      let e : Element V = record { id = c.next; entry = stored expires_at } in
      record c {
        items = insert key c.next c.items;
        order = e ∷ c.order;
        next = suc c.next;
        stats = add_size 1 c.stats;
      }

  pushed-IsLinked : (t : ℕ) → IsValid c → find_key key c.order ≡ none → IsLinked (pushed t)
  unfolding add_size find_key
  pushed-IsLinked t v miss = record {
    sized = omega (arith, v.linked.sized, v.bounded, v.small);
    below = omega (arith, v.bounded, v.small);
    fresh = (
      omega arith,
      All-weaken (λ x. x.id < c.next) (λ x. x.id < suc c.next) c.order (λ x h. omega arith)
          v.linked.fresh,
    );
    distinct = (
      All-fresh (record { id = c.next; entry = stored t }) c.next c.order v.linked.fresh miss refl,
      v.linked.distinct,
    );
    agree = λ k. ground (arith, lookup-insert key k c.next c.items, v.linked.agree k);
  }

  set_miss :
      (now : ℕ) (ttl : ℤ) (t : ℕ)
      → IsValid c
      → lookup key c.items ≡ none
      → find_key key c.order ≡ none
      → now + positive_or ttl c.default_ttl ≡ t
      → (c' : MemoryCache V) × (set now key value ttl c ≡ some c')
        × IsValid c'
        × (entries c'.order ≡ lru_set c.capacity (stored t) (entries c.order))
  unfolding set set_new lru_set entries
  set_miss now ttl t v miss absent p =
      let (c', runs, valid, same) =
        evict_lem (pushed t) (length c.order) (pushed-IsLinked t v absent) v.positive v.small
          (omega (arith, v.bounded)) in
      (c', ground (arith, runs), valid, rw (find_entry-entries_miss key c.order absent).1 same)

  set_hit :
      (now : ℕ) (ttl : ℤ) (t : ℕ) (e : Element V)
      → IsValid c
      → lookup key c.items ≡ some e.id
      → element e.id c.order ≡ some e
      → e.entry.key ≡ key
      → now + positive_or ttl c.default_ttl ≡ t
      → (c' : MemoryCache V) × (set now key value ttl c ≡ some c')
        × IsValid c'
        × (entries c'.order ≡ lru_set c.capacity (stored t) (entries c.order))
  unfolding set lru_set entries touched
  set_hit now ttl t e v hit at is_key p =
      let x : MemoryEntry V = record { key = e.entry.key; value = value; expires_at = t } in
      let fits = take_of_length-le c.capacity (entries (touched c e x).order) (
        omega (
          arith,
          length-entries (touched c e x).order,
          (touched-IsValid c e x v at refl).bounded,
        )) in
      (
        touched c e x,
        ground arith,
        touched-IsValid c e x v at refl,
        sym fits
            ∙ ap (take c.capacity) (ap₂ ◌∷◌ (ground arith) (rw (after_remove c e v at, is_key))),
      )

  -- Set on a valid cache does not fault and leaves a valid cache, whose entries are those of the
  -- abstract cache: the entry stands at the front, and the last one is dropped if there is one too
  -- many.
  pub set_refines :
      (now : ℕ) (ttl : ℤ)
      → IsValid c
      → (c' : MemoryCache V) × (set now key value ttl c ≡ some c')
        × IsValid c'
        × (entries c'.order
            ≡ lru_set c.capacity (stored (now + positive_or ttl c.default_ttl)) (entries c.order))
  set_refines now ttl v = elim (linked_element c key v) [
    | inl (miss, absent) ↦ set_miss now ttl _ v miss absent refl
    | inr (e, hit, found, at, is_key) ↦ set_hit now ttl _ e v hit at is_key refl
  ]
