-- ===== src/Relational/Executor.antt =====
-- executor.ts: the statements of the SQL subset run against a database.
pub mod Delete
pub mod Loops
pub mod Invariant
pub mod Insert
pub mod Update
pub mod Refused
use takyondb.Prelude.{
  ℕ, zero, ◌+◌, Bool, true, false, not, List, [], ◌∷◌, map, Option, none, some, take, Result, ok,
  err, ◌>>=◌, if◌then◌else◌,
}
use mathlib.Core.Option.{get_or}
use takyondb.Js.Text.{Text, codes, text_beq}
use takyondb.Js.Strings.{to_upper}
use takyondb.Js.Dict.{put, spread}
use takyondb.Js.Regex.{word, test_word}
use takyondb.Js.Value.{Value, Row, JsNumber, num, undefined, field}
use takyondb.Js.Order.{pos}
use takyondb.Relational.Filter.{Where, Condition, cond, matches_where}
use takyondb.Relational.Table.{RelationalTable, scan, insert, update, delete_row, filter_rows}
use takyondb.Relational.Database.{RelationalDatabase, table, with_table, create_table}
use takyondb.Relational.Query.{
  QueryBuilder, Direction, asc, new_query, with_where, select, order_by, limit, all, count_rows,
  copy_columns,
}
use takyondb.Relational.Join.{JoinRow, hash_join}
use takyondb.Relational.Selection.{single_where, execute_select, execute_join}
use takyondb.Relational.Sql.{
  StatementKind, classify_statement, Columns, star, listed, is_count_star, ParsedSelect, ParsedJoin,
  parse_select, parse_join,
}
use takyondb.Relational.Sql.Writes.{
  Assignment, ParsedInsert, ParsedUpdate, ParsedDelete, parse_insert, parse_update, parse_delete,
}
use takyondb.Relational.Sql.Create.{ParsedCreate, parse_create_table}

-- What one statement did.
pub data SqlResult (N : Type 0) : Type 0 where
  selected joined : List (Row N) → SqlResult N
  inserted updated deleted : ℕ → SqlResult N
  created : Text → SqlResult N

unfoldable pub count_if : Bool → ℕ → ℕ
count_if true n = n + 1
count_if false n = n

-- `if (table.update(...)) updated++`: a merged row is an object, and `null` is none.
unfoldable pub is_found {ℓ} : {A : Type ℓ} → Option A → Bool
is_found none = false
is_found (some a) = true

unfoldable pub has_join : Text → Bool
has_join sql = test_word (word (codes "JOIN")) false sql

module _ {N : Type 0} ⦃js : JsNumber N⦄ where
  -- `plan.columns.forEach((c, i) => { row[c] = plan.values[i]; })`; the two lists have one length.
  unfoldable pub build_row : Row N → List Text → List (Value N) → Row N
  build_row row [] values = row
  build_row row (c ∷ columns) [] = build_row (put c undefined row) columns []
  build_row row (c ∷ columns) (v ∷ values) = build_row (put c v row) columns values

  unfoldable pub build_patch : Row N → List (Assignment N) → Row N
  build_patch patch [] = patch
  build_patch patch (s ∷ sets) = build_patch (put s.column s.value patch) sets

  -- The loops over the scanned rows. An error ends the loop, and the writes before it stay.
  unfoldable pub update_rows :
      RelationalTable N → Text → Row N → List (Row N) → ℕ → RelationalTable N × Result ℕ
  unfolding count_if is_found
  update_rows t pk_col patch [] n = (t, ok n)
  update_rows t pk_col patch (r ∷ rows) n = elim (update t (field r pk_col) patch) [
    | err e ↦ (t, err e)
    | ok (t', result) ↦ update_rows t' pk_col patch rows (count_if (is_found result) n)
  ]

  unfoldable pub delete_rows :
      RelationalTable N → Text → List (Row N) → ℕ → RelationalTable N × Result ℕ
  unfolding count_if
  delete_rows t pk_col [] n = (t, ok n)
  delete_rows t pk_col (r ∷ rows) n = elim (delete_row t (field r pk_col)) [
    | err e ↦ (t, err e)
    | ok (t', done) ↦ delete_rows t' pk_col rows (count_if done n)
  ]

  -- A read leaves the database as it is.
  unfoldable pub reads :
      RelationalDatabase N
      → (List (Row N) → SqlResult N)
      → Result (List (Row N))
      → RelationalDatabase N × Result (SqlResult N)
  reads db tag (ok rows) = (db, ok (tag rows))
  reads db tag (err e) = (db, err e)

  -- The count of a write, tagged, with the database that holds the written table.
  unfoldable pub writes :
      RelationalDatabase N
      → Text
      → (ℕ → SqlResult N)
      → RelationalTable N × Result ℕ
      → RelationalDatabase N × Result (SqlResult N)
  writes db name tag (t, ok n) = (with_table db name t, ok (tag n))
  writes db name tag (t, err e) = (with_table db name t, err e)

  unfoldable pub run_create :
      RelationalDatabase N → ParsedCreate N → RelationalDatabase N × Result (SqlResult N)
  run_create db plan = elim (create_table db plan.table plan.columns) [
    | err e ↦ (db, err e)
    | ok (db', t) ↦ (db', ok (created plan.table))
  ]

  unfoldable pub run_insert :
      RelationalDatabase N
      → ParsedInsert N
      → RelationalTable N
      → RelationalDatabase N × Result (SqlResult N)
  unfolding build_row
  run_insert db plan t = elim (insert t (build_row [] plan.columns plan.values)) [
    | err e ↦ (db, err e)
    | ok (t', row) ↦ (with_table db plan.table t', ok (inserted 1))
  ]

  unfoldable pub run_update :
      RelationalDatabase N
      → ParsedUpdate N
      → RelationalTable N
      → RelationalDatabase N × Result (SqlResult N)
  unfolding writes update_rows build_patch single_where
  run_update db plan t =
      let where_clause =
        single_where (some plan.where_col) (some plan.where_op) (some plan.where_val) in
      writes db plan.table updated
        (update_rows t t.schema.primary_key (build_patch [] plan.sets) (scan t where_clause) 0)

  unfoldable pub run_delete :
      RelationalDatabase N
      → ParsedDelete N
      → RelationalTable N
      → RelationalDatabase N × Result (SqlResult N)
  unfolding writes delete_rows single_where
  run_delete db plan t =
      let where_clause =
        single_where (some plan.where_col) (some plan.where_op) (some plan.where_val) in
      writes db plan.table deleted (delete_rows t t.schema.primary_key (scan t where_clause) 0)

  -- What is not returned throws, and leaves the database as it was.
  unfoldable pub or_throw {ℓ} :
      {A : Type ℓ}
      → RelationalDatabase N
      → Result A
      → (A → RelationalDatabase N × Result (SqlResult N))
      → RelationalDatabase N × Result (SqlResult N)
  or_throw db (err e) run = (db, err e)
  or_throw db (ok a) run = run a

  unfoldable pub execute_kind :
      RelationalDatabase N → Text → StatementKind → RelationalDatabase N × Result (SqlResult N)
  unfolding or_throw has_join
  execute_kind db sql StatementKind.select =
      if has_join sql
      then reads db joined (execute_join db sql)
      else reads db selected (execute_select db sql)
  execute_kind db sql StatementKind.create = or_throw db (parse_create_table sql) (run_create db)
  execute_kind db sql StatementKind.insert =
      or_throw db (parse_insert sql)
        (λ plan. or_throw db (table db plan.table) (run_insert db plan))
  execute_kind db sql StatementKind.update =
      or_throw db (parse_update sql)
        (λ plan. or_throw db (table db plan.table) (run_update db plan))
  execute_kind db sql StatementKind.delete =
      or_throw db (parse_delete sql)
        (λ plan. or_throw db (table db plan.table) (run_delete db plan))

  unfoldable pub execute_sql :
      RelationalDatabase N → Text → RelationalDatabase N × Result (SqlResult N)
  unfolding execute_kind
  execute_sql db sql = or_throw db (classify_statement sql) (execute_kind db sql)

  unfoldable pub execute_query : RelationalDatabase N → Text → Result (List (Row N))
  unfolding has_join
  execute_query db sql = if has_join sql then execute_join db sql else execute_select db sql
