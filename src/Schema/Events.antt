-- ===== src/Schema/Events.antt =====
-- The events of pkg/surql/schema/table.go.
use surql_go.Prelude.{if◌then◌else◌, Bool, Option, none, ◌++◌, Str, bytes, is_empty}
use surql_go.Errors.{GoError}
use surql_go.Schema.Clauses.{invalid, if_not_exists}

pub record EventDefinition : Type 0 where
  pub name : Str
  pub condition : Str
  pub action : Str

unfoldable pub validate_event : EventDefinition → Option GoError
validate_event e =
    if is_empty e.name
    then invalid
    else if is_empty e.condition
    then invalid
    else if is_empty e.action
    then invalid
    else none

unfoldable pub event_surql : EventDefinition → Str → Bool → Str
event_surql e table guarded =
    bytes "DEFINE EVENT"
    ++ (if_not_exists guarded
        ++ (bytes " "
            ++ (e.name
                ++ (bytes " ON TABLE "
                    ++ (table
                        ++ (bytes " WHEN "
                            ++ (e.condition ++ (bytes " THEN " ++ (e.action ++ bytes ";")))))))))
