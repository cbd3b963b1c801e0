-- ===== src/Cache/Memory/Lru.antt =====
-- What the cache of memory.go promises: a list of entries, the most recently used first, that never
-- holds more than the capacity. The list of elements refines it.
use surql_go.Prelude.{
  ℕ, zero, suc, ◌≡◌, refl, ◌≢◌, ◌≤◌, if◌then◌else◌, Option, none, some, List, [], ◌∷◌, arith,
  length, take, ap, Str, str_eq, str_eq_iff,
}
use surql_go.Cache.Memory.{MemoryEntry, Element, expired, element, unlink}
use surql_go.Cache.Memory.Elements.{Distinct, Differs, find_key, All-element}

module _ {ℓ} {V : Type ℓ} where
  unfoldable pub find_entry : Str → List (MemoryEntry V) → Option (MemoryEntry V)
  find_entry k [] = none
  find_entry k (e ∷ l) = if str_eq e.key k then some e else find_entry k l

  unfoldable pub without : Str → List (MemoryEntry V) → List (MemoryEntry V)
  without k [] = []
  without k (e ∷ l) = if str_eq e.key k then l else e ∷ without k l

  -- A live entry moves to the front, an expired one goes.
  unfoldable pub lru_get : ℕ → Str → List (MemoryEntry V) → List (MemoryEntry V) × Option V
  lru_get now k l = elim (find_entry k l) [
    | none ↦ (l, none)
    | some e ↦ if expired now e then (without k l, none) else (e ∷ without k l, some e.value)
  ]

  unfoldable pub lru_set : ℕ → MemoryEntry V → List (MemoryEntry V) → List (MemoryEntry V)
  lru_set capacity e l = take capacity (e ∷ without e.key l)

  unfoldable pub entries : List (Element V) → List (MemoryEntry V)
  entries [] = []
  entries (e ∷ l) = e.entry ∷ entries l

  pub find_entry-entries :
      (k : Str) (l : List (Element V)) {e : Element V}
      → find_key k l ≡ some e
      → find_entry k (entries l) ≡ some e.entry
  unfolding find_entry find_key entries
  find_entry-entries k [] h = ground arith
  find_entry-entries k (f ∷ l) {e} h = ground (arith, find_entry-entries k l {e = e})

  pub find_entry-entries_miss :
      (k : Str) (l : List (Element V))
      → find_key k l ≡ none
      → (find_entry k (entries l) ≡ none) × (without k (entries l) ≡ entries l)
  unfolding find_entry find_key entries without
  find_entry-entries_miss k [] h = (refl, refl)
  find_entry-entries_miss k (f ∷ l) h = ground (arith, find_entry-entries_miss k l)

  pub entries-unlink :
      (l : List (Element V)) {e : Element V}
      → Distinct l
      → element e.id l ≡ some e
      → entries (unlink e.id l) ≡ without e.entry.key (entries l)
  unfolding element unlink entries without
  entries-unlink [] d h = ground arith
  entries-unlink (f ∷ l) {e} d h = ground (
    arith,
    str_eq_iff f.entry.key e.entry.key,
    entries-unlink l {e = e},
    All-element (Differs f) e.id l {e = e},
  )

  pub entries-take : (n : ℕ) (l : List (Element V)) → entries (take n l) ≡ take n (entries l)
  unfolding entries
  entries-take zero l = refl
  entries-take (suc n) [] = refl
  entries-take (suc n) (e ∷ l) = ap (◌∷◌ e.entry) (entries-take n l)

  pub length-entries : (l : List (Element V)) → length (entries l) ≡ length l
  unfolding entries
  length-entries [] = refl
  length-entries (e ∷ l) = ap suc (length-entries l)

  pub find_entry-without_ne :
      (k j : Str) (l : List (MemoryEntry V)) → j ≢ k → find_entry k (without j l) ≡ find_entry k l
  unfolding find_entry without
  find_entry-without_ne k j [] h = refl
  find_entry-without_ne k j (e ∷ l) h =
      ground (arith, str_eq_iff e.key k, str_eq_iff e.key j, find_entry-without_ne k j l h)

  pub length-without-le : (k : Str) (l : List (MemoryEntry V)) → length (without k l) ≤ length l
  unfolding without
  length-without-le k [] = omega arith
  length-without-le k (e ∷ l) = ground (arith, length-without-le k l)
