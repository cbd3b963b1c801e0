-- ===== src/Tests/RegistryRuns.antt =====
-- Two connections of pkg/surql/connection/registry.go, of which the default one goes.
use surql_go.Prelude.{
  ℕ, suc, ◌-◌, ◌≡◌, refl, true, none, [], ◌∷◌, Str, bytes, str_eq, str_ltb, lookup, insert, delete,
  keys, sort_by, insert_by,
}
use surql_go.Errors.{ok, err, new, registry}
use surql_go.Connection.Registry.{
  Clients, Registry, new_registry, find, get, get_config, store, enter, register, unregister, clear,
  wants_connect, wants_default, dial, make_client, connect_client, flag, drop_name, first_name,
  first, names, disconnect_each,
}
use surql_go.Connection.Registry.Names.{has}
use surql_go.Connection.Registry.Runs.{
  registers, unregisters, Reached, fresh, called, default_stays, RegisterFits, register_lem,
}

-- A world that counts the open connections
abbrev clients : Clients ℕ ℕ ℕ
clients = record {
  new_client = λ cfg w. (w, ok cfg);
  connect = λ c w. (suc w, none);
  disconnect = λ c w. (w - 1, none);
  is_connected = λ c w. true;
}

program : Unit {0}
unfolding register unregister dial make_client connect_client enter store wants_connect
    wants_default flag drop_name first_name first lookup insert delete keys sort_by insert_by str_eq
    new_registry find get get_config names disconnect_each clear str_ltb
program = tt

abbrev a_name : Str
a_name = bytes "a"

abbrev b_name : Str
b_name = bytes "b"

abbrev one : Registry ℕ ℕ
one = (register clients b_name 7 none 0 new_registry).1

abbrev two : Registry ℕ ℕ
two = (register clients a_name 8 none 1 one).1

abbrev left : Registry ℕ ℕ
left = (unregister clients b_name true 2 two).1

two-Reached : Reached clients two
two-Reached =
    called (called fresh (registers b_name 7 none 0 new_registry)) (registers a_name 8 none 1 one)

left-Reached : Reached clients left
left-Reached = called two-Reached (unregisters b_name true 2 two)

a_left : has a_name left.connections ≡ true
unfolding program
a_left = refl

default_stays_example :
    ((c : ℕ) × (get [] left ≡ ok c) × (get left.default_name left ≡ ok c))
    × ((g : ℕ) × (get_config [] left ≡ ok g) × (get_config left.default_name left ≡ ok g))
default_stays_example = default_stays clients left a_name left-Reached a_left

register_lem_example :
    RegisterFits clients a_name 8 one
      (register clients a_name 8 none 1 one).1
      (register clients a_name 8 none 1 one).2
register_lem_example = register_lem clients a_name 8 none 1 one

falls_to_first :
    (two.default_name ≡ b_name) × (left.default_name ≡ a_name) × (names two ≡ a_name ∷ b_name ∷ [])
unfolding program
falls_to_first = (refl, refl, refl)

refused_twice : register clients a_name 9 none 2 two ≡ (2, two, err (new registry))
unfolding program
refused_twice = refl

all_closed : clear clients (7 ∷ 8 ∷ []) 2 two ≡ (0, new_registry, none)
unfolding program
all_closed = refl
