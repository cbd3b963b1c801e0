-- ===== src/Connection/Registry/Runs.antt =====
-- The registries that registry.go can reach, and what its calls do.
use surql_go.Prelude.{
  ◌≡◌, ◌≢◌, refl, Bool, true, false, Option-cases, inl, inr, Option, List, [], ◌∷◌, arith, Str,
  str_eq_iff, str_eq_refl, GoMap, lookup, insert, lookup-insert,
}
use surql_go.Errors.{Result, ok, err}
use surql_go.Connection.Registry.{
  Clients, RegisterOptions, Registry, new_registry, find, get, get_config, set_default, store,
  enter, register, unregister, clear, wants_connect, wants_default, dial,
}
use surql_go.Connection.Registry.Names.{has}
use surql_go.Connection.Registry.Valid.{
  IsValid, new-IsValid, set_default-IsValid, register-IsValid, unregister-IsValid,
}

module _ {ℓ} {A : Type ℓ} where
  find-insert-same :
      (name d : Str) (a : A) (m : GoMap A) → name ≢ [] → find name d (insert name a m) ≡ ok a
  unfolding find
  find-insert-same [] d a m some_name = absurd (some_name refl)
  find-insert-same (c ∷ cs) d a m some_name =
      ground (arith, lookup-insert (c ∷ cs) (c ∷ cs) a m, str_eq_refl (c ∷ cs))

  find-insert-other :
      (name j d d' : Str) (a : A) (m : GoMap A)
      → j ≢ []
      → j ≢ name
      → find j d' (insert name a m) ≡ find j d m
  unfolding find
  find-insert-other name [] d d' a m some_name other = absurd (some_name refl)
  find-insert-other name (c ∷ cs) d d' a m some_name other =
      ground (arith, lookup-insert name (c ∷ cs) a m, str_eq_iff name (c ∷ cs))

  find-has :
      (d : Str) (m : GoMap A)
      → d ≢ []
      → has d m ≡ true
      → (a : A) × (find [] d m ≡ ok a) × (find d d m ≡ ok a)
  unfolding find
  find-has [] m some_name there = absurd (some_name refl)
  find-has (c ∷ cs) m some_name there = elim (Option-cases (lookup (c ∷ cs) m)) [
    | inl absent ↦ absurd (ground (arith, absent, there))
    | inr (a, found) ↦ (a, rw (found, find) refl, rw (found, find) refl)
  ]

module _ {ℓ} {C G W : Type ℓ} (clients : Clients C G W) where
  -- The calls that change a registry
  pub data Call : Registry C G → Registry C G → Type ℓ where
    registers :
        (name : Str) (cfg : G) (opts : Option RegisterOptions) (w : W) (r : Registry C G)
        → Call r (register clients name cfg opts w r).1
    unregisters :
        (name : Str) (disconnect : Bool) (w : W) (r : Registry C G)
        → Call r (unregister clients name disconnect w r).1
    sets_default : (name : Str) (r : Registry C G) → Call r (set_default name r).0
    clears : (cs : List C) (w : W) (r : Registry C G) → Call r (clear clients cs w r).1

  pub data Reached : Registry C G → Type ℓ where
    fresh : Reached new_registry
    called : {r r' : Registry C G} → Reached r → Call r r' → Reached r'

  Call-IsValid : {r r' : Registry C G} → Call r r' → IsValid r → IsValid r'
  unfolding clear
  Call-IsValid (registers name cfg opts w r) v = register-IsValid clients name cfg opts w r v
  Call-IsValid (unregisters name disconnect w r) v =
      unregister-IsValid clients name disconnect w r v
  Call-IsValid (sets_default name r) v = set_default-IsValid name r v
  Call-IsValid (clears cs w r) v = new-IsValid

  Reached-IsValid : {r : Registry C G} → Reached r → IsValid r
  Reached-IsValid fresh = new-IsValid
  Reached-IsValid (called before c) = Call-IsValid c (Reached-IsValid before)

  -- However a new registry is called, if it has a connection, then Get and GetConfig find one under
  -- the empty name, that of the default name.
  pub default_stays :
      (r : Registry C G) (k : Str)
      → Reached r
      → has k r.connections ≡ true
      → ((c : C) × (get [] r ≡ ok c) × (get r.default_name r ≡ ok c))
        × ((g : G) × (get_config [] r ≡ ok g) × (get_config r.default_name r ≡ ok g))
  unfolding get get_config lookup
  default_stays r k before there =
      let v = Reached-IsValid before in
      elim v.chosen [
        | inl (nobody, unset) ↦ absurd (ground (arith, nobody, there))
        | inr chosen ↦
            let some_name : r.default_name ≢ [] = λ e. ground (arith, e, v.named, chosen) in
            (
              find-has r.default_name r.connections some_name chosen,
              find-has r.default_name r.configs some_name
                  (ground (arith, v.paired r.default_name, chosen)),
            )
      ]

  -- What Register promises for its result
  pub RegisterFits : Str → G → Registry C G → Registry C G → Result C → Type ℓ
  RegisterFits name cfg r r' (err e) = r' ≡ r
  RegisterFits name cfg r r' (ok c) =
      (name ≢ [])
      × (has name r.connections ≡ false)
      × (get name r' ≡ ok c)
      × (get_config name r' ≡ ok cfg)
      × ((j : Str) → j ≢ [] → j ≢ name → get j r' ≡ get j r)

  enter-fits :
      (name : Str) (cfg : G) (connect promote : Bool) (made : W × Result C) (r : Registry C G)
      → name ≢ []
      → RegisterFits name cfg r
          (enter clients name cfg connect promote made r).1
          (enter clients name cfg connect promote made r).2
  unfolding enter store get get_config RegisterFits
  enter-fits name cfg connect promote (w, err e) r some_name = refl
  enter-fits name cfg connect promote (w, ok c) r some_name =
      elim (Option-cases (lookup name r.connections)) [
        | inl absent ↦
            rw (absent, enter)
              (
                some_name,
                ground (arith, absent),
                find-insert-same name _ c r.connections some_name,
                find-insert-same name _ cfg r.configs some_name,
                λ j named other. find-insert-other name j _ _ c r.connections named other,
              )
        | inr (old, there) ↦ rw (there, enter) refl
      ]

  -- Register refuses and leaves the registry as it is, or was given a new, non-empty name, under
  -- which Get and GetConfig then find the client and the configuration, and changes no other name's
  -- client.
  pub register_lem :
      (name : Str) (cfg : G) (opts : Option RegisterOptions) (w : W) (r : Registry C G)
      → RegisterFits name cfg r
          (register clients name cfg opts w r).1
          (register clients name cfg opts w r).2
  unfolding register RegisterFits
  register_lem [] cfg opts w r = refl
  register_lem (c ∷ cs) cfg opts w r =
      enter-fits (c ∷ cs) cfg (wants_connect opts) (wants_default opts)
        (dial clients (wants_connect opts) cfg w) r (λ e. ground (arith, e))
