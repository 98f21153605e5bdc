-- ===== src/Relational/ErrorNames.antt =====
-- errors.ts, and the error class of proxy.ts: the names by which a caller tells errors apart.
use takyondb.Prelude.{
  Option, none, some, Error, table_exists, table_not_found, duplicate_primary_key,
  immutable_primary_key, backpressure, unsupported_statement, unsupported_select,
  unsupported_insert, unsupported_update, unsupported_delete, unsupported_create, unsupported_join,
  unterminated_string, bad_literal, count_mismatch, bad_assignment, empty_set, bad_column_def,
  unknown_column_type, no_columns, join_mismatch,
}
use takyondb.Js.Text.{Text, codes}

-- The classes that set a `name` of their own.
pub data ErrorClass : Type 0 where
  table_exists_error table_not_found_error constraint_error query_error : ErrorClass
  backpressure_error : ErrorClass

unfoldable pub class_name : ErrorClass → Text
class_name table_exists_error = codes "TableExistsError"
class_name table_not_found_error = codes "TableNotFoundError"
class_name constraint_error = codes "ConstraintError"
class_name query_error = codes "QueryError"
class_name backpressure_error = codes "BackpressureError"

-- The class that a `throw` names; `none` is a plain `Error`, or one of the platform.
unfoldable pub error_class : Error → Option ErrorClass
error_class table_exists = some table_exists_error
error_class table_not_found = some table_not_found_error
error_class duplicate_primary_key = some constraint_error
error_class immutable_primary_key = some constraint_error
error_class backpressure = some backpressure_error
error_class unsupported_statement = some query_error
error_class unsupported_select = some query_error
error_class unsupported_insert = some query_error
error_class unsupported_update = some query_error
error_class unsupported_delete = some query_error
error_class unsupported_create = some query_error
error_class unsupported_join = some query_error
error_class unterminated_string = some query_error
error_class bad_literal = some query_error
error_class count_mismatch = some query_error
error_class bad_assignment = some query_error
error_class empty_set = some query_error
error_class bad_column_def = some query_error
error_class unknown_column_type = some query_error
error_class no_columns = some query_error
error_class join_mismatch = some query_error
error_class _ = none
