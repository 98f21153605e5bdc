-- ===== src/Relational/Executor/Refused.antt =====
-- executor.ts: a text that does not parse.
use takyondb.Prelude.{◌≡◌, refl, true, false, some, Error, err, ok}
use takyondb.Js.Text.{Text}
use takyondb.Js.Value.{JsNumber}
use takyondb.Relational.Database.{RelationalDatabase}
use takyondb.Relational.ErrorNames.{error_class, query_error}
use takyondb.Relational.Sql.{classify_statement, StatementKind, parse_select, parse_join}
use takyondb.Relational.Sql.Writes.{parse_insert, parse_update, parse_delete}
use takyondb.Relational.Sql.Create.{parse_create_table}
use takyondb.Relational.Sql.Refusals.{
  OnlyQueryErrors-err, classify_statement-OnlyQueryErrors, parse_select-OnlyQueryErrors,
  parse_join-OnlyQueryErrors, parse_insert-OnlyQueryErrors, parse_update-OnlyQueryErrors,
  parse_delete-OnlyQueryErrors, parse_create_table-OnlyQueryErrors,
}
use takyondb.Relational.Selection.{execute_select, execute_join}
use takyondb.Relational.Executor.{has_join, execute_sql, execute_kind, or_throw, reads}

-- The statement is of no kind, or its parser throws the error.
pub data IsUnparsed (N : Type 0) ⦃js : JsNumber N⦄ (sql : Text) (e : Error) : Type 0 where
  unclassified : classify_statement sql ≡ err e → IsUnparsed N sql e
  no_select :
      classify_statement sql ≡ ok StatementKind.select
      → has_join sql ≡ false
      → parse_select {N = N} sql ≡ err e
      → IsUnparsed N sql e
  no_join :
      classify_statement sql ≡ ok StatementKind.select
      → has_join sql ≡ true
      → parse_join {N = N} sql ≡ err e
      → IsUnparsed N sql e
  no_insert :
      classify_statement sql ≡ ok StatementKind.insert
      → parse_insert {N = N} sql ≡ err e
      → IsUnparsed N sql e
  no_update :
      classify_statement sql ≡ ok StatementKind.update
      → parse_update {N = N} sql ≡ err e
      → IsUnparsed N sql e
  no_delete :
      classify_statement sql ≡ ok StatementKind.delete
      → parse_delete {N = N} sql ≡ err e
      → IsUnparsed N sql e
  no_create :
      classify_statement sql ≡ ok StatementKind.create
      → parse_create_table {N = N} sql ≡ err e
      → IsUnparsed N sql e

module _ {N : Type 0} ⦃js : JsNumber N⦄ where
  -- A statement of no known kind, or one whose parser throws, throws that error and leaves the
  -- database as it was; the error is a QueryError, whatever part of the text is refused.
  pub execute_sql-IsUnparsed :
      (db : RelationalDatabase N) (sql : Text) (e : Error)
      → IsUnparsed N sql e
      → (execute_sql db sql ≡ (db, err e)) × (error_class e ≡ some query_error)
  unfolding execute_sql execute_kind or_throw execute_select execute_join reads
  execute_sql-IsUnparsed db sql e (unclassified h) =
      (rw h refl, OnlyQueryErrors-err (classify_statement-OnlyQueryErrors sql) h)
  execute_sql-IsUnparsed db sql e (no_select kind alone h) =
      (rw kind (rw alone (rw h refl)), OnlyQueryErrors-err (parse_select-OnlyQueryErrors sql) h)
  execute_sql-IsUnparsed db sql e (no_join kind joined h) =
      (rw kind (rw joined (rw h refl)), OnlyQueryErrors-err (parse_join-OnlyQueryErrors sql) h)
  execute_sql-IsUnparsed db sql e (no_insert kind h) =
      (rw kind (rw h refl), OnlyQueryErrors-err (parse_insert-OnlyQueryErrors sql) h)
  execute_sql-IsUnparsed db sql e (no_update kind h) =
      (rw kind (rw h refl), OnlyQueryErrors-err (parse_update-OnlyQueryErrors sql) h)
  execute_sql-IsUnparsed db sql e (no_delete kind h) =
      (rw kind (rw h refl), OnlyQueryErrors-err (parse_delete-OnlyQueryErrors sql) h)
  execute_sql-IsUnparsed db sql e (no_create kind h) =
      (rw kind (rw h refl), OnlyQueryErrors-err (parse_create_table-OnlyQueryErrors sql) h)
