-- ===== src/Connection/Client.antt =====
-- DatabaseClient of pkg/surql/connection/client.go, as far as queries go. The database answers each
-- request of the SDK; its answer may depend on all requests so far, which the log holds, the latest
-- first. A client that is nil is `none`.
use surql_go.Prelude.{Bool, if◌then◌else◌, Option, none, some, List, [], ◌∷◌, Str, bytes, GoMap}
use surql_go.Errors.{GoError, new, wrap, connection, query, Result, ok, err}
use surql_go.Connection.Values.{
  Value, Values, text, array, object, no_values, value, no_fields, field,
}

-- What the SDK sends: BEGIN, a query inside the transaction or outside, COMMIT and CANCEL.
pub data Event : Type 0 where
  begin_event : Event
  tx_query_event : Str → Event
  commit_event : Event
  cancel_event : Event
  query_event : Str → GoMap Value → Event

abbrev pub Log : Type 0
Log = List Event

-- surrealdb.QueryResult[any]
pub record QueryResult : Type 0 where
  pub status : Str
  pub elapsed : Str
  pub result : Value

-- `none` among the answers is a nil pointer to the results.
abbrev pub Database : Type 0
Database = Log → Event → Result (Option (List QueryResult))

pub record DatabaseClient : Type 0 where
  pub connected : Bool

unfoldable pub envelope : QueryResult → Value
envelope r = object (
    field (bytes "status") (text r.status)
      (field (bytes "time") (text r.elapsed) (field (bytes "result") r.result no_fields)))

unfoldable pub envelopes : List QueryResult → Values
unfolding envelope
envelopes [] = no_values
envelopes (r ∷ rs) = value (envelope r) (envelopes rs)

-- queryResultsToEnvelopes
unfoldable pub query_results_to_envelopes : Option (List QueryResult) → Values
unfolding envelopes
query_results_to_envelopes none = no_values
query_results_to_envelopes (some rs) = envelopes rs

-- mapQueryError: the context that it compares with is never cancelled
unfoldable pub map_query_error : GoError → GoError
map_query_error e = wrap query e

unfoldable pub query_answer : Result (Option (List QueryResult)) → Result Value
unfolding query_results_to_envelopes map_query_error
query_answer (err e) = err (map_query_error e)
query_answer (ok rs) = ok (array (query_results_to_envelopes rs))

-- QueryWithVars; the result, and the log
unfoldable pub query_with_vars :
    Database → DatabaseClient → Str → GoMap Value → Log → Result Value × Log
unfolding query_answer
query_with_vars db client surql vars log =
    if client.connected
    then (query_answer (db log (query_event surql vars)), query_event surql vars ∷ log)
    else (err (new connection), log)
