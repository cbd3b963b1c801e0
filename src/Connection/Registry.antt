-- ===== src/Connection/Registry.antt =====
-- pkg/surql/connection/registry.go: the named connections and the default among them.
pub mod Names
pub mod Valid
pub mod Runs
use surql_go.Prelude.{
  is_empty, if◌then◌else◌, Bool, true, false, ◌&&◌, ◌||◌, Option, none, some, List, [], ◌∷◌, Str,
  str_eq, str_ltb, GoMap, lookup, insert, delete, keys, sort_by,
}
use surql_go.Errors.{GoError, Result, ok, err, new, validation, registry}

-- What the registry calls of DatabaseClient; `W` is the state that the clients share.
pub record Clients {ℓ} (C G W : Type ℓ) : Type ℓ where
  -- NewDatabaseClient
  pub new_client : G → W → W × Result C
  pub connect : C → W → W × Option GoError
  pub disconnect : C → W → W × Option GoError
  pub is_connected : C → W → Bool

pub record RegisterOptions : Type 0 where
  pub connect : Option Bool
  pub set_default : Option Bool

pub record Registry {ℓ} (C G : Type ℓ) : Type ℓ where
  pub connections : GoMap C
  pub configs : GoMap G
  pub default_name : Str

-- names[0] of a slice, and "" where the function returns it first
unfoldable pub first : List Str → Str
first [] = []
first (x ∷ xs) = x

unfoldable pub flag : Bool → Option Bool → Bool
flag otherwise none = otherwise
flag otherwise (some b) = b

unfoldable pub wants_connect : Option RegisterOptions → Bool
unfolding flag
wants_connect none = true
wants_connect (some o) = flag true o.connect

unfoldable pub wants_default : Option RegisterOptions → Bool
unfolding flag
wants_default none = false
wants_default (some o) = flag false o.set_default

module _ {ℓ} {A : Type ℓ} where
  unfoldable pub first_name : GoMap A → Str
  unfolding first sort_by keys
  first_name m = first (sort_by str_ltb (keys m))

  -- The lookup that Get and GetConfig share
  unfoldable pub find : Str → Str → GoMap A → Result A
  find name default_name m =
      if is_empty name && is_empty default_name
      then err (new registry)
      else elim (lookup (if is_empty name then default_name else name) m) [
        | none ↦ err (new registry)
        | some c ↦ ok c
      ]

module _ {ℓ} {C G : Type ℓ} where
  unfoldable pub new_registry : Registry C G
  new_registry = record { connections = []; configs = []; default_name = [] }

  unfoldable pub get : Str → Registry C G → Result C
  unfolding find
  get name r = find name r.default_name r.connections

  unfoldable pub get_config : Str → Registry C G → Result G
  unfolding find
  get_config name r = find name r.default_name r.configs

  unfoldable pub set_default : Str → Registry C G → Registry C G × Option GoError
  set_default name r = elim (lookup name r.connections) [
    | none ↦ (r, some (new registry))
    | some c ↦
        (record { connections = r.connections; configs = r.configs; default_name = name }, none)
  ]

  unfoldable pub names : Registry C G → List Str
  unfolding keys sort_by
  names r = sort_by str_ltb (keys r.connections)

  unfoldable pub store : Str → C → G → Bool → Registry C G → Registry C G
  store name c cfg promote r = record {
    connections = insert name c r.connections;
    configs = insert name cfg r.configs;
    default_name = if promote || is_empty r.default_name then name else r.default_name;
  }

  unfoldable pub drop_name : Str → Registry C G → Registry C G
  unfolding first_name
  drop_name name r = record {
    connections = delete name r.connections;
    configs = delete name r.configs;
    default_name =
        if str_eq r.default_name name
        then first_name (delete name r.connections)
        else r.default_name;
  }

  module _ {W : Type ℓ} (clients : Clients C G W) where
    unfoldable pub connect_client : C → W × Option GoError → W × Result C
    connect_client c (w, some e) = (w, err e)
    connect_client c (w, none) = (w, ok c)

    unfoldable pub make_client : Bool → W × Result C → W × Result C
    unfolding connect_client
    make_client connect (w, err e) = (w, err e)
    make_client false (w, ok c) = (w, ok c)
    make_client true (w, ok c) = connect_client c (clients.connect c w)

    -- The client that Register stores: new, and connected if that is wanted
    unfoldable pub dial : Bool → G → W → W × Result C
    unfolding make_client
    dial connect cfg w = make_client connect (clients.new_client cfg w)

    unfoldable pub enter :
        Str → G → Bool → Bool → W × Result C → Registry C G → W × Registry C G × Result C
    unfolding store
    enter name cfg connect promote (w, err e) r = (w, r, err e)
    enter name cfg connect promote (w, ok c) r = elim (lookup name r.connections) [
      | some old ↦ (if connect then (clients.disconnect c w).0 else w, r, err (new registry))
      | none ↦ (w, store name c cfg promote r, ok c)
    ]

    unfoldable pub register :
        Str → G → Option RegisterOptions → W → Registry C G → W × Registry C G × Result C
    unfolding dial enter wants_connect wants_default
    register name cfg opts w r =
        if is_empty name
        then (w, r, err (new validation))
        else enter name cfg (wants_connect opts) (wants_default opts)
            (dial (wants_connect opts) cfg w) r

    -- Register stores no nil client, so that the test for nil always succeeds.
    unfoldable pub unregister : Str → Bool → W → Registry C G → W × Registry C G × Option GoError
    unfolding drop_name
    unregister name disconnect w r = elim (lookup name r.connections) [
      | none ↦ (w, r, some (new registry))
      | some c ↦ elim disconnect [
        | false ↦ (w, drop_name name r, none)
        | true ↦ let (w1, e) = clients.disconnect c w in (w1, drop_name name r, e)
      ]
    ]

    -- The loop of DisconnectAll, over the clients in the order of the map's walk
    unfoldable pub disconnect_each : List C → W → Option GoError → W × Option GoError
    disconnect_each [] w first_err = (w, first_err)
    disconnect_each (c ∷ cs) w first_err = elim (clients.is_connected c w) [
      | false ↦ disconnect_each cs w first_err
      | true ↦
          let (w1, e) = clients.disconnect c w in
          disconnect_each cs w1 (elim first_err [ none ↦ e | some e0 ↦ some e0 ])
    ]

    unfoldable pub clear : List C → W → Registry C G → W × Registry C G × Option GoError
    unfolding disconnect_each new_registry
    clear cs w r = let (w1, e) = disconnect_each cs w none in (w1, new_registry, e)
