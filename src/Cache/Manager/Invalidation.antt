-- ===== src/Cache/Manager/Invalidation.antt =====
-- The contract of a cache backend that invalidation relies on, and what invalidating a table does.
use surql_go.Prelude.{
  ℕ, suc, ◌+◌, ◌≡◌, ◌≢◌, refl, sym, ◌∙◌, ap, Bool, true, false, if◌then◌else◌, Bool-cases,
  Option-cases, inl, inr, none, some, List, [], ◌∷◌, ◌++◌, arith, length, Str, bytes, str_eq,
  str_eq_iff, has_prefix, has_prefix-append, join,
}
use surql_go.Errors.{ok}
use surql_go.Cache.Config.{CacheConfig}
use surql_go.Cache.Manager.{CacheBackend, build_key, delete_keys}

abbrev pub listed : Str → List Str → Bool
listed k [] = false
listed k (x ∷ xs) = if str_eq x k then true else listed k xs

abbrev with_prefix : Str → Str → Str
with_prefix [] key = key
with_prefix (c ∷ cs) key = if has_prefix key (c ∷ cs) then key else (c ∷ cs) ++ key

with_prefix_idem : (p key : Str) → with_prefix p (with_prefix p key) ≡ with_prefix p key
with_prefix_idem [] key = refl
with_prefix_idem (c ∷ cs) key = ground (arith, has_prefix-append (c ∷ cs) key)

build_key-with_prefix :
    (cfg : CacheConfig) (parts : List Str)
    → build_key cfg parts ≡ with_prefix cfg.key_prefix (join parts (bytes ":"))
unfolding build_key
build_key-with_prefix cfg parts = ground arith

-- A key that BuildKey has prefixed stays as it is when it is built again.
pub build_key_idem :
    (cfg : CacheConfig) (parts : List Str)
    → build_key cfg (build_key cfg parts ∷ []) ≡ build_key cfg parts
unfolding join
build_key_idem cfg parts =
    build_key-with_prefix cfg (build_key cfg parts ∷ [])
    ∙ ap (with_prefix cfg.key_prefix) (build_key-with_prefix cfg parts)
    ∙ with_prefix_idem cfg.key_prefix (join parts (bytes ":"))
    ∙ sym (build_key-with_prefix cfg parts)

module _ {B V : Type 0} (ops : CacheBackend B V) (holds : Str → B → Bool) where
  -- What the manager relies on: a key that is not held is not read, a deleted one is not held, and a
  -- deletion brings no key back.
  pub record BackendLaws : Type 0 where
    pub miss :
        (now : ℕ) (k : Str) (b : B) (v : V) → holds k b ≡ false → (ops.get now k b).0 ≢ ok (some v)
    pub deleted :
        (k : Str) (b : B) → (ops.delete_key k b).0 ≡ none → holds k (ops.delete_key k b).1 ≡ false
    pub kept_out : (k j : Str) (b : B) → holds j b ≡ false → holds j (ops.delete_key k b).1 ≡ false

  delete_keys-out :
      BackendLaws
      → (ks : List Str) (n : ℕ) (b : B) (j : Str) → holds j b ≡ false
      → holds j (delete_keys ops ks n b).1 ≡ false
  unfolding delete_keys
  delete_keys-out laws [] n b j h = h
  delete_keys-out laws (k ∷ ks) n b j h =
      let next = laws.kept_out k j b h in
      elim (Option-cases (ops.delete_key k b).0) [
        | inl p ↦
            rw (p, delete_keys) (delete_keys-out laws ks (suc n) (ops.delete_key k b).1 j next)
        | inr (e, p) ↦ rw (p, delete_keys) next
      ]

  pub delete_keys-deleted :
      BackendLaws
      → (ks : List Str) (n : ℕ) (b : B) (j : Str) → (delete_keys ops ks n b).0.1 ≡ none
      → listed j ks ≡ true
      → holds j (delete_keys ops ks n b).1 ≡ false
  unfolding delete_keys
  delete_keys-deleted laws [] n b j h m = absurd (ground (arith, m))
  delete_keys-deleted laws (k ∷ ks) n b j h m = elim (Option-cases (ops.delete_key k b).0) [
    | inr (e, p) ↦ absurd (ground arith)
    | inl p ↦ elim (Bool-cases (str_eq k j)) [
      | inl here ↦
          let gone = laws.deleted k b p in
          rw (p, delete_keys)
            (delete_keys-out laws ks (suc n) (ops.delete_key k b).1 j
              (rw (sym ((str_eq_iff k j).0 here)) gone))
      | inr there ↦
          rw (p, delete_keys)
            (delete_keys-deleted laws ks (suc n) (ops.delete_key k b).1 j (ground arith)
              (ground arith))
    ]
  ]

  pub delete_keys-count :
      (ks : List Str) (n : ℕ) (b : B)
      → (delete_keys ops ks n b).0.1 ≡ none
      → (delete_keys ops ks n b).0.0 ≡ n + length ks
  unfolding delete_keys
  delete_keys-count [] n b h = omega arith
  delete_keys-count (k ∷ ks) n b h =
      ground (arith, delete_keys-count ks (suc n) (ops.delete_key k b).1)
