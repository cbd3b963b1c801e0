-- ===== src/Connection/Registry/Valid.antt =====
-- The invariant of registry.go: no connection without a name, as many configurations as connections,
-- and a default unless there is no connection.
use surql_go.Prelude.{
  ◌≡◌, ◌≢◌, refl, Bool, true, false, ◌||◌, Bool-cases, Option-cases, sort_by, ◌⊎◌, inl, inr, Option,
  [], ◌∷◌, arith, Str, str_eq, str_eq_iff, str_eq_refl, GoMap, lookup, delete, keys, lookup-insert,
  lookup-delete,
}
use surql_go.Errors.{Result, ok, err}
use surql_go.Connection.Registry.{
  Clients, RegisterOptions, Registry, new_registry, set_default, store, drop_name, enter, register,
  unregister, first_name, first, is_empty, wants_connect, wants_default, dial,
}
use surql_go.Connection.Registry.Names.{has, has-first_name}

module _ {ℓ} {C : Type ℓ} where
  falls_back : (m : GoMap C) → ((m ≡ []) × (first_name m ≡ [])) ⊎ (has (first_name m) m ≡ true)
  unfolding first_name sort_by keys first
  falls_back [] = inl (refl, refl)
  falls_back (p ∷ m) = inr (has-first_name (p ∷ m) (λ e. ground (arith, e)))

module _ {ℓ} {C G : Type ℓ} where
  pub record IsValid (r : Registry C G) : Type ℓ where
    pub named : has [] r.connections ≡ false
    pub paired : (k : Str) → has k r.configs ≡ has k r.connections
    pub chosen :
        ((r.connections ≡ []) × (r.default_name ≡ [])) ⊎ (has r.default_name r.connections ≡ true)

  pub new-IsValid : IsValid new_registry
  unfolding new_registry lookup
  new-IsValid = record { named = refl; paired = λ k. refl; chosen = inl (refl, refl) }

  store-IsValid :
      (name : Str) (c : C) (cfg : G) (promote : Bool) (r : Registry C G)
      → name ≢ []
      → IsValid r
      → IsValid (store name c cfg promote r)
  unfolding store
  store-IsValid name c cfg promote r some_name v = record {
    named = ground (arith, lookup-insert name [] c r.connections, str_eq_iff name [], v.named);
    paired = λ k. ground (
      arith,
      lookup-insert name k c r.connections,
      lookup-insert name k cfg r.configs,
      v.paired k,
    );
    chosen = inr (elim (Bool-cases (promote || is_empty r.default_name)) [
      | inl promoted ↦
          rw promoted (ground (arith, lookup-insert name name c r.connections, str_eq_refl name))
      | inr kept ↦ rw kept (elim v.chosen [
        | inl (nobody, unset) ↦ absurd (ground (arith, kept, unset))
        | inr there ↦ ground (arith, lookup-insert name r.default_name c r.connections, there)
      ])
    ]);
  }

  next_default :
      (name : Str) (r : Registry C G)
      → IsValid r
      → ((delete name r.connections ≡ []) × ((drop_name name r).default_name ≡ []))
        ⊎ (has (drop_name name r).default_name (delete name r.connections) ≡ true)
  unfolding drop_name delete
  next_default name r v = elim (Bool-cases (str_eq r.default_name name)) [
    | inl same ↦ rw same (falls_back (delete name r.connections))
    | inr other ↦ rw other (elim v.chosen [
      | inl (nobody, unset) ↦ inl (rw (nobody, delete) refl, unset)
      | inr there ↦ inr (
          ground (
            arith,
            lookup-delete name r.default_name r.connections,
            str_eq_iff name r.default_name,
            str_eq_iff r.default_name name,
            there,
            other,
          ))
    ])
  ]

  drop-IsValid :
      (name : Str) (r : Registry C G)
      → has name r.connections ≡ true
      → IsValid r
      → IsValid (drop_name name r)
  unfolding drop_name
  drop-IsValid name r there v = record {
    named = ground (arith, lookup-delete name [] r.connections, v.named);
    paired = λ k.
        ground
          (arith, lookup-delete name k r.connections, lookup-delete name k r.configs, v.paired k);
    chosen = next_default name r v;
  }

  pub set_default-IsValid :
      (name : Str) (r : Registry C G) → IsValid r → IsValid (set_default name r).0
  unfolding set_default
  set_default-IsValid name r v = elim (Option-cases (lookup name r.connections)) [
    | inl absent ↦ rw (absent, set_default) v
    | inr (c, there) ↦
        rw (there, set_default)
          (record { named = v.named; paired = v.paired; chosen = inr (ground (arith, there)) })
  ]

  module _ {W : Type ℓ} (clients : Clients C G W) where
    enter-IsValid :
        (name : Str) (cfg : G) (connect promote : Bool) (made : W × Result C) (r : Registry C G)
        → name ≢ []
        → IsValid r
        → IsValid (enter clients name cfg connect promote made r).1
    unfolding enter
    enter-IsValid name cfg connect promote (w, err e) r some_name v = v
    enter-IsValid name cfg connect promote (w, ok c) r some_name v =
        elim (Option-cases (lookup name r.connections)) [
          | inl absent ↦ rw (absent, enter) (store-IsValid name c cfg promote r some_name v)
          | inr (old, there) ↦ rw (there, enter) v
        ]

    pub register-IsValid :
        (name : Str) (cfg : G) (opts : Option RegisterOptions) (w : W) (r : Registry C G)
        → IsValid r
        → IsValid (register clients name cfg opts w r).1
    unfolding register
    register-IsValid [] cfg opts w r v = v
    register-IsValid (c ∷ cs) cfg opts w r v =
        enter-IsValid (c ∷ cs) cfg (wants_connect opts) (wants_default opts)
          (dial clients (wants_connect opts) cfg w) r (λ e. ground (arith, e)) v

    pub unregister-IsValid :
        (name : Str) (disconnect : Bool) (w : W) (r : Registry C G)
        → IsValid r
        → IsValid (unregister clients name disconnect w r).1
    unfolding unregister
    unregister-IsValid name disconnect w r v = elim (Option-cases (lookup name r.connections)) [
      | inl absent ↦ rw (absent, unregister) v
      | inr (c, there) ↦ elim (Bool-cases disconnect) [
        | inl d ↦ rw (there, d, unregister) (drop-IsValid name r (ground (arith, there)) v)
        | inr d ↦ rw (there, d, unregister) (drop-IsValid name r (ground (arith, there)) v)
      ]
    ]
