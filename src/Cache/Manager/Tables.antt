-- ===== src/Cache/Manager/Tables.antt =====
-- Invalidating a table of the manager, over any backend that keeps the contract.
use surql_go.Prelude.{
  ℕ, ◌≡◌, ◌≢◌, refl, sym, ◌∙◌, ap, Bool, true, false, if◌then◌else◌, Bool-cases, inl, inr, none,
  some, List, [], ◌∷◌, arith, length, Str, str_eq, str_eq_iff, str_eq_refl, GoMap, lookup, insert,
  lookup-insert, keys,
}
use surql_go.Prelude.Int.{ℤ}
use surql_go.Errors.{ok, Result-cases}
use surql_go.Cache.Manager.{
  CacheBackend, CacheManager, KeySet, build_key, table_set, track, track_all, counted, get, set,
  delete_keys, invalidate_table,
}
use surql_go.Cache.Manager.Invalidation.{
  listed, BackendLaws, delete_keys-deleted, delete_keys-count,
}

-- The key is in the set of the table.
abbrev pub IsTracked : Str → Str → GoMap KeySet → Type 0
IsTracked key t tables = lookup key (table_set t tables) ≡ some true

listed-keys : (k : Str) (set : KeySet) → lookup k set ≡ some true → listed k (keys set) ≡ true
unfolding lookup keys
listed-keys k [] h = absurd (ground (arith, h))
listed-keys k ((j, v) ∷ set) h = ground (arith, listed-keys k set)

table_set-insert :
    (t u : Str) (set : KeySet) (tables : GoMap KeySet)
    → table_set u (insert t set tables) ≡ (if str_eq t u then set else table_set u tables)
unfolding table_set
table_set-insert t u set tables = ground (arith, lookup-insert t u set tables)

lookup-track :
    (key t u : Str) (tables : GoMap KeySet)
    → IsTracked key u tables
    → IsTracked key u (track key t tables)
unfolding track
lookup-track key t u tables h = ground (
  arith,
  table_set-insert t u (insert key true (table_set t tables)) tables,
  lookup-insert key key true (table_set t tables),
  str_eq_refl key,
)

track-IsTracked : (key t : Str) (tables : GoMap KeySet) → IsTracked key t (track key t tables)
unfolding track
track-IsTracked key t tables = ground (
  arith,
  table_set-insert t t (insert key true (table_set t tables)) tables,
  lookup-insert key key true (table_set t tables),
  str_eq_refl key,
  str_eq_refl t,
)

track_all-keeps :
    (key u : Str) (ts : List Str) (tables : GoMap KeySet)
    → IsTracked key u tables
    → IsTracked key u (track_all key ts tables)
unfolding track_all
track_all-keeps key u [] tables h = h
track_all-keeps key u (t ∷ ts) tables h =
    track_all-keeps key u ts (track key t tables) (lookup-track key t u tables h)

track_all-IsTracked :
    (key u : Str) (ts : List Str) (tables : GoMap KeySet)
    → listed u ts ≡ true
    → IsTracked key u (track_all key ts tables)
unfolding track_all
track_all-IsTracked key u [] tables m = absurd (ground (arith, m))
track_all-IsTracked key u (t ∷ ts) tables m = elim (Bool-cases (str_eq t u)) [
  | inl here ↦
      track_all-keeps key u ts (track key t tables)
        (rw (← (str_eq_iff t u).0 here) (track-IsTracked key t tables))
  | inr there ↦ track_all-IsTracked key u ts (track key t tables) (ground arith)
]

-- An iteration over a set of keys visits each of them.
abbrev pub VisitsAll : (List Str → List Str) → Type 0
VisitsAll walk = (k : Str) (ks : List Str) → listed k ks ≡ true → listed k (walk ks) ≡ true

module _ {B V : Type 0} (ops : CacheBackend B V) (holds : Str → B → Bool)
    (laws : BackendLaws ops holds) where
  -- InvalidateTable on an enabled manager, if it returns no error: the backend holds none of the
  -- table's keys any more, the table has no keys, and the count is that of the keys visited.
  pub invalidate_table_lem :
      (walk : List Str → List Str) (t : Str) (m : CacheManager B)
      → VisitsAll walk
      → m.config.enabled ≡ true
      → (invalidate_table ops walk t m).0.1 ≡ none
      → ((k : Str)
          → IsTracked k t m.table_keys
          → holds k (invalidate_table ops walk t m).1.backend ≡ false)
        × (table_set t (invalidate_table ops walk t m).1.table_keys ≡ [])
        × ((invalidate_table ops walk t m).0.0 ≡ length (walk (keys (table_set t m.table_keys))))
  unfolding invalidate_table
  invalidate_table_lem walk t m visits on fine =
      let ks = walk (keys (table_set t m.table_keys)) in
      let runs : (delete_keys ops ks 0 m.backend).0.1 ≡ none = ground arith in
      let count = delete_keys-count ops holds ks 0 m.backend runs in
      (
        λ k tracked.
            rw (on, invalidate_table)
              (delete_keys-deleted ops holds laws ks 0 m.backend k runs (
                visits k (keys (table_set t m.table_keys))
                  (listed-keys k (table_set t m.table_keys) tracked))),
        ground (arith, table_set-insert t t [] m.table_keys, str_eq_refl t),
        ground arith,
      )

  set-IsTracked :
      (now : ℕ) (key : Str) (value : V) (ttl : ℤ) (tables : List Str) (t : Str) (m : CacheManager B)
      → m.config.enabled ≡ true
      → (set ops now key value ttl tables m).0 ≡ none
      → listed t tables ≡ true
      → IsTracked
          (build_key m.config (key ∷ []))
          t
          (set ops now key value ttl tables m).1.table_keys
        × ((set ops now key value ttl tables m).1.config ≡ m.config)
  unfolding set
  set-IsTracked now key value ttl tables t m on fine within =
      ground (arith, track_all-IsTracked (build_key m.config (key ∷ [])) t tables m.table_keys)

  get-answer :
      (now : ℕ) (key : Str) (m : CacheManager B)
      → m.config.enabled ≡ true
      → (get ops now key m).0 ≡ (ops.get now (build_key m.config (key ∷ [])) m.backend).0
  unfolding get counted
  get-answer now key m on =
      elim (Result-cases (ops.get now (build_key m.config (key ∷ [])) m.backend).0) [
        | inl (v, p) ↦ rw (on, p, get) refl
        | inr (e, p) ↦ rw (on, p, get) refl
      ]

  invalidate_table-config :
      (walk : List Str → List Str) (t : Str) (m : CacheManager B)
      → (invalidate_table ops walk t m).1.config ≡ m.config
  unfolding invalidate_table
  invalidate_table-config walk t m = ground arith

  -- A value that Set has stored for a table is gone once the table is invalidated: if neither call
  -- returns an error, Get of the key at any later time returns no value.
  pub invalidated_after_set :
      (walk : List Str → List Str) (now later : ℕ) (key : Str) (value : V) (ttl : ℤ)
      (tables : List Str) (t : Str) (m : CacheManager B) (v : V)
      → VisitsAll walk
      → m.config.enabled ≡ true
      → listed t tables ≡ true
      → (set ops now key value ttl tables m).0 ≡ none
      → (invalidate_table ops walk t (set ops now key value ttl tables m).1).0.1 ≡ none
      → (get ops later key (invalidate_table ops walk t (set ops now key value ttl tables m).1).1).0
        ≢ ok (some v)
  invalidated_after_set walk now later key value ttl tables t m v visits on within stored dropped =
      let m1 = (set ops now key value ttl tables m).1 in
      let m2 = (invalidate_table ops walk t m1).1 in
      let (tracked, same1) = set-IsTracked now key value ttl tables t m on stored within in
      let same2 = invalidate_table-config walk t m1 ∙ same1 in
      let on1 : m1.config.enabled ≡ true = ap (λ c. c.enabled) same1 ∙ on in
      let on2 : m2.config.enabled ≡ true = ap (λ c. c.enabled) same2 ∙ on in
      let (gone, _, _) = invalidate_table_lem walk t m1 visits on1 dropped in
      let absent : holds (build_key m2.config (key ∷ [])) m2.backend ≡ false =
        rw same2 (gone (build_key m.config (key ∷ [])) tracked) in
      λ hit.
        laws.miss later (build_key m2.config (key ∷ [])) m2.backend v absent
          (sym (get-answer later key m2 on2) ∙ hit)
