-- ===== src/Cache/Memory/Backend.antt =====
-- The in-memory cache as a backend of the manager: every method of memory.go on a valid cache, and
-- the contract that invalidation relies on. path.Match, and the order in which Go walks the map, are
-- parameters.
use surql_go.Prelude.{
  ℕ, ◌≡◌, ◌≢◌, refl, ◌∙◌, ap, Bool, true, false, Bool-cases, Option-cases, inl, inr, Option, none,
  some, List, [], ◌∷◌, arith, Str, str_eq, str_eq_iff,
}
use surql_go.Prelude.Int.{pos}
use surql_go.Errors.{GoError, foreign, ok}
use surql_go.Cache.Memory.{Element, MemoryEntry, MemoryCache, clear, stats}
use surql_go.Cache.Memory.Elements.{All, Differs, Distinct}
use surql_go.Cache.Memory.Valid.{IsValid}
use surql_go.Cache.Memory.Lru.{find_entry, without, lru_get, entries, find_entry-without_ne}
use surql_go.Cache.Memory.Steps.{get_refines}
use surql_go.Cache.Memory.Evict.{set_refines}
use surql_go.Cache.Memory.Clears.{
  delete_refines, exists_refines, clear_lem, clear_pattern_lem, live_entry,
}
use surql_go.Cache.Manager.{CacheBackend}
use surql_go.Cache.Manager.Invalidation.{BackendLaws}

abbrev pub ValidCache : Type 0 → Type 0
ValidCache V = (c : MemoryCache V) × IsValid c

bad_pattern : Bool → Option GoError
bad_pattern true = none
bad_pattern false = some (foreign 0)

ok_inj {ℓ} : {A : Type ℓ} {a b : A} → ok a ≡ ok b → a ≡ b
ok_inj h = ground (arith, h)

module _ {V : Type 0} where
  abbrev is_some : Option (MemoryEntry V) → Bool
  is_some none = false
  is_some (some _) = true

  -- The cache has an entry of the key, live or expired.
  unfoldable pub holds_entry : Str → ValidCache V → Bool
  unfolding find_entry entries
  holds_entry k (c, v) = is_some (find_entry k (entries c.order))

  -- The methods do not fault on a valid cache, and leave a valid one: what they leave is taken from
  -- the proofs of that.
  unfoldable pub memory_backend :
      (Str → Str → Option Bool) → (MemoryCache V → List Str) → CacheBackend (ValidCache V) V
  unfolding bad_pattern
  memory_backend path_match walk = record {
    get = λ now k s.
        let (c', runs, v', same) = get_refines s.0 now k s.1 in
        (ok (lru_get now k (entries s.0.order)).1, (c', v'));
    set = λ now k x ttl s.
        let (c', runs, v', same) = set_refines s.0 k x now ttl s.1 in (none, (c', v'));
    delete_key = λ k s. let (c', runs, v', same) = delete_refines s.0 k s.1 in (none, (c', v'));
    exists = λ now k s.
        let (c', runs, v', same) = exists_refines s.0 now k s.1 in
        (ok (live_entry now (find_entry k (entries s.0.order))), (c', v'));
    clear = λ s. (ok (pos (clear s.0).1), ((clear s.0).0, (clear_lem s.0 s.1).0));
    clear_pattern = λ pattern s.
        let (c', count, fine, runs, v', counted) =
          clear_pattern_lem (path_match pattern) (walk s.0) s.0 0 s.1 in
        ((pos count, bad_pattern fine), (c', v'));
    stats = λ s. (ok (stats s.0), s);
  }

  find_entry-Differs :
      (f : Element V) (l : List (Element V))
      → All (Differs f) l
      → find_entry f.entry.key (entries l) ≡ none
  unfolding find_entry entries
  find_entry-Differs f [] a = refl
  find_entry-Differs f (g ∷ l) a =
      ground (arith, str_eq_iff g.entry.key f.entry.key, find_entry-Differs f l)

  find_entry-without_self :
      (k : Str) (l : List (Element V)) → Distinct l → find_entry k (without k (entries l)) ≡ none
  unfolding find_entry without entries
  find_entry-without_self k [] d = refl
  find_entry-without_self k (e ∷ l) d = elim (Bool-cases (str_eq e.entry.key k)) [
    | inl p ↦ rw (p, without) (rw (← (str_eq_iff e.entry.key k).0 p) (find_entry-Differs e l d.0))
    | inr p ↦ ground (arith, find_entry-without_self k l d.1)
  ]

  -- Whether an entry of a key is left after a key is deleted.
  left_after :
      (k j : Str) (l : List (Element V))
      → Distinct l
      → is_some (find_entry j (entries l)) ≡ false
      → is_some (find_entry j (without k (entries l))) ≡ false
  left_after k j l d absent = elim (Bool-cases (str_eq k j)) [
    | inl here ↦ ground (arith, str_eq_iff k j, find_entry-without_self j l d)
    | inr there ↦ ground (arith, str_eq_iff k j, find_entry-without_ne j k (entries l))
  ]

  miss_answer :
      (now : ℕ) (k : Str) (l : List (MemoryEntry V)) (x : V)
      → is_some (find_entry k l) ≡ false
      → (lru_get now k l).1 ≢ some x
  unfolding lru_get
  miss_answer now k l x absent = elim (Option-cases (find_entry k l)) [
    | inl p ↦ λ hit. ground arith
    | inr (e, p) ↦ absurd (ground arith)
  ]

  -- The in-memory cache keeps the contract of a backend: a key without an entry is not read, a
  -- deleted key has no entry, and a deletion brings none back.
  pub memory_backend-BackendLaws :
      (path_match : Str → Str → Option Bool) (walk : MemoryCache V → List Str)
      → BackendLaws (memory_backend path_match walk) holds_entry
  unfolding memory_backend holds_entry lru_get
  memory_backend-BackendLaws path_match walk = record {
    miss =
        λ now k (c, v) x absent. λ hit. miss_answer now k (entries c.order) x absent (ok_inj hit);
    deleted = λ k (c, v) done.
        ap (λ l. is_some (find_entry k l)) (delete_refines c k v).3
        ∙ ap is_some (find_entry-without_self k c.order v.linked.distinct);
    kept_out = λ k j (c, v) absent.
        ap (λ l. is_some (find_entry j l)) (delete_refines c k v).3
        ∙ left_after k j c.order v.linked.distinct absent;
  }
