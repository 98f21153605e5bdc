-- ===== src/Relational/Constraints/Checks.antt =====
-- constraints.ts, validator.ts and secondary_index.ts: what the checks and the lookup find.
use takyondb.Prelude.{
  ◌≡◌, ◌↔◌, ◌⊎◌, inl, inr, ap, not, Result, unique_violation, refl, Bool, true, false, List, [],
  ◌∷◌, map, none, some, ok, err, arith, All, if◌then◌else◌, foreign_key_violation, if_pos,
}
use takyondb.Js.Text.{Text, text_dec}
use takyondb.Js.Dict.{IsDistinct, values, get-put}
use takyondb.Js.Value.{Value, Row, JsNumber, field, strict_eq, to_text}
use takyondb.Relational.RowCheck.{is_defined}
use takyondb.Relational.Filter.{
  cond, matches_where, compile_per_column, close_columns, run_columns, run_checks, compile_clause,
  compile_condition, push,
}
use takyondb.Relational.Table
use takyondb.Relational.Table.{RelationalTable, scan, filter_rows, delete_row, find_by_pk}
use takyondb.Relational.Table.Reads.{insert_reads, delete_reads}
use takyondb.Relational.Database.{RelationalDatabase, table, require_table, with_table}
use takyondb.Relational.Constraints.{
  is_excluded, check_rows, assert_unique, assert_foreign_key, eq_condition, lookup_by_column,
}

by_tests :
    {P : Type 0} (x y : Bool) (rest : Result (Unit {0}))
    → (rest ≡ ok tt) ↔ P
    → ((if x then rest else if y then err unique_violation else rest) ≡ ok tt)
      ↔ (((x ≡ true) ⊎ (y ≡ false)) × P)
by_tests true y rest i = (λ h. (inl refl, i.0 h), λ p. i.1 p.1)
by_tests false true rest i = (λ h. cc, λ p. ground arith)
by_tests false false rest i = (λ h. (inr refl, i.0 h), λ p. i.1 p.1)

module _ {N : Type 0} ⦃js : JsNumber N⦄ where
  abbrev pub NoConflict : Text → Text → Value N → Value N → Row N → Type 0
  NoConflict primary_key column value exclude_pk r =
      (is_excluded primary_key exclude_pk r ≡ true) ⊎ (strict_eq (field r column) value ≡ false)

  check_rows_iff :
      (primary_key column : Text) (value exclude_pk : Value N) (rows : List (Row N))
      → (check_rows primary_key column value exclude_pk rows ≡ ok tt)
        ↔ All (NoConflict primary_key column value exclude_pk) rows
  unfolding check_rows
  check_rows_iff primary_key column value exclude_pk [] = (λ h. tt, λ h. refl)
  check_rows_iff primary_key column value exclude_pk (r ∷ rows) =
      by_tests (is_excluded primary_key exclude_pk r) (strict_eq (field r column) value) _
        (check_rows_iff primary_key column value exclude_pk rows)

  -- The check of a unique column passes exactly if every row of the table is the excluded one or
  -- has another value in the column.
  assert_unique_iff :
      (t : RelationalTable N) (column : Text) (value exclude_pk : Value N)
      → (assert_unique t column value exclude_pk ≡ ok tt)
        ↔ All (NoConflict t.schema.primary_key column value exclude_pk) (scan t none)
  unfolding assert_unique
  assert_unique_iff t column value exclude_pk =
      check_rows_iff t.schema.primary_key column value exclude_pk (scan t none)

  pub table-with_table :
      (db : RelationalDatabase N) (name : Text) (t : RelationalTable N)
      → table (with_table db name t) name ≡ ok t
  unfolding table with_table require_table
  table-with_table db name t =
      rw (get-put name name t db.tables) (rw (if_pos (text_dec name name) refl) refl)

  -- After an insert into a parent table the key of the inserted row passes the foreign key check.
  assert_foreign_key-insert :
      (db : RelationalDatabase N) (name : Text) (t : RelationalTable N) (row : Row N)
      {t' : RelationalTable N} {result : Row N}
      → Table.insert t row ≡ ok (t', result)
      → assert_foreign_key (with_table db name t') name (field row t.schema.primary_key) ≡ ok tt
  unfolding assert_foreign_key
  assert_foreign_key-insert db name t row {t'} h =
      rw (table-with_table db name t') (rw ((insert_reads t row h).1) refl)

  -- After a delete the key fails the check, whether the row was there or not.
  assert_foreign_key-delete_row :
      (db : RelationalDatabase N) (name : Text) (t : RelationalTable N) (pk_value : Value N)
      {t' : RelationalTable N} {result : Bool}
      → IsDistinct t.rows
      → delete_row t pk_value ≡ ok (t', result)
      → assert_foreign_key (with_table db name t') name pk_value ≡ err foreign_key_violation
  unfolding assert_foreign_key
  assert_foreign_key-delete_row db name t pk_value {t'} d h =
      rw (table-with_table db name t') (rw ((delete_reads t pk_value d h).0) refl)

  filter_rows-none : (rows : List (Row N)) → filter_rows rows none ≡ rows
  unfolding filter_rows matches_where
  filter_rows-none [] = refl
  filter_rows-none (r ∷ rows) = ap (◌∷◌ r) (filter_rows-none rows)

  -- The rows whose cell in the column is equal to the value.
  pub rows_with : Text → Value N → List (Row N) → List (Row N)
  rows_with column value [] = []
  rows_with column value (r ∷ rows) =
      let rest = rows_with column value rows in
      if strict_eq (field r column) value then r ∷ rest else rest

  matches_where-eq_condition :
      (column : Text) (value : Value N) (r : Row N)
      → is_defined value ≡ true
      → matches_where r (some ((column, cond (eq_condition value)) ∷ []))
        ≡ strict_eq (field r column) value
  unfolding matches_where compile_per_column close_columns run_columns run_checks compile_clause
      compile_condition push eq_condition
  matches_where-eq_condition column value r h = rw h (by_test (strict_eq (field r column) value))
    where
      by_test : (b : Bool) → (if not b then false else true) ≡ b
      by_test true = refl
      by_test false = refl

  filter_rows-eq_condition :
      (column : Text) (value : Value N) (rows : List (Row N))
      → is_defined value ≡ true
      → filter_rows rows (some ((column, cond (eq_condition value)) ∷ []))
        ≡ rows_with column value rows
  unfolding filter_rows rows_with
  filter_rows-eq_condition column value [] h = refl
  filter_rows-eq_condition column value (r ∷ rows) h =
      rw (matches_where-eq_condition column value r h)
        (rw (filter_rows-eq_condition column value rows h) refl)

  -- For a value that is not undefined, the lookup returns the primary keys, as texts and in the
  -- order of a scan, of exactly the rows whose cell in the column is equal to the value.
  lookup_by_column-rows_with :
      (t : RelationalTable N) (column : Text) (value : Value N)
      → is_defined value ≡ true
      → lookup_by_column t column value
        ≡ map (λ r. to_text (field r t.schema.primary_key)) (rows_with column value (scan t none))
  unfolding lookup_by_column scan
  lookup_by_column-rows_with t column value h =
      rw (filter_rows-eq_condition column value (values t.rows) h)
        (rw (filter_rows-none (values t.rows)) refl)
