-- ===== src/Query/Mutations.antt =====
-- The methods of pkg/surql/query/builder.go that start a statement which writes.
use surql_go.Prelude.{if◌then◌else◌, Bool, true, not, ◌&&◌, [], ◌∷◌, Str, is_empty, GoMap}
use surql_go.Errors.{Result, ok, ◌>>=◌}
use surql_go.Types.Quoting.{Value}
use surql_go.Types.RecordId.{RecordId, record_string}
use surql_go.Query.Builder.{
  Query, Operation, insert_op, update_op, upsert_op, delete_op, relate_op, valid_identifier,
  split_table_part, refuse,
}

-- validateDataKeys, true where it returns no error; the order of the walk makes no difference.
unfoldable pub valid_keys : GoMap Value → Bool
unfolding valid_identifier
valid_keys [] = true
valid_keys ((k, v) ∷ m) = valid_identifier k && valid_keys m

unfoldable pub insert_query : Str → GoMap Value → Query → Result Query
unfolding valid_identifier valid_keys
insert_query table body q =
    if not (valid_identifier table)
    then refuse
    else if not (valid_keys body)
    then refuse
    else ok (record q { operation = insert_op; table_name = table; insert_data = body })

-- Update and Upsert differ in the operation.
unfoldable pub write_query : Operation → Str → GoMap Value → Query → Result Query
unfolding valid_identifier split_table_part valid_keys
write_query op target body q =
    if not (valid_identifier (split_table_part target))
    then refuse
    else if not (valid_keys body)
    then refuse
    else ok (record q { operation = op; table_name = target; update_data = body })

unfoldable pub update : Str → GoMap Value → Query → Result Query
unfolding write_query
update = write_query update_op

unfoldable pub upsert : Str → GoMap Value → Query → Result Query
unfolding write_query
upsert = write_query upsert_op

unfoldable pub delete_query : Str → Query → Result Query
unfolding valid_identifier split_table_part
delete_query target q =
    if valid_identifier (split_table_part target)
    then ok (record q { operation = delete_op; table_name = target })
    else refuse

-- The endpoints of Relate, by their dynamic type
pub data Endpoint : Type 0 where
  text_endpoint : Str → Endpoint
  record_endpoint : RecordId → Endpoint
  shown_endpoint : Str → Endpoint
  nil_endpoint other_endpoint : Endpoint

unfoldable pub relate_endpoint : Endpoint → Result Str
unfolding record_string
relate_endpoint (text_endpoint s) = if is_empty s then refuse else ok s
relate_endpoint (record_endpoint r) = ok (record_string r)
relate_endpoint (shown_endpoint s) = if is_empty s then refuse else ok s
relate_endpoint nil_endpoint = refuse
relate_endpoint other_endpoint = refuse

unfoldable pub relate : Str → Endpoint → Endpoint → GoMap Value → Query → Result Query
unfolding valid_identifier split_table_part valid_keys relate_endpoint
relate edge from to body q = if not (valid_identifier edge) then refuse else (do
  start ← relate_endpoint from
  end ← relate_endpoint to
  (if not (valid_identifier (split_table_part start))
      then refuse
      else if not (valid_identifier (split_table_part end))
      then refuse
      else if not (valid_keys body)
      then refuse
      else ok (record q {
        operation = relate_op;
        table_name = edge;
        relate_from = start;
        relate_to = end;
        relate_data = body;
      })))
