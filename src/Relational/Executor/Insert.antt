-- ===== src/Relational/Executor/Insert.antt =====
-- executor.ts: an INSERT is seen by the SELECT behind it.
use mathlib.Core.List.{map-append}
use takyondb.Prelude.{
  ◌≡◌, ◌∙◌, refl, sym, ap, false, List, [], ◌∷◌, ◌++◌, Option, none, some, ok, err, if◌then◌else◌,
  arith, inl, inr, Result-cases,
}
use takyondb.Js.Text.{Text}
use takyondb.Js.Dict.{values, put_new}
use takyondb.Js.Value.{Row, JsNumber}
use takyondb.Relational.Filter.{Where, matches_where}
use takyondb.Relational.Table.{RelationalTable, scan, filter_rows, insert}
use takyondb.Relational.Table.Writes.{insert-inv}
use takyondb.Relational.Database.{RelationalDatabase, table, with_table}
use takyondb.Relational.Constraints.Checks.{table-with_table}
use takyondb.Relational.Query.{new_query, with_where, order, skip, cap, project, all}
use takyondb.Relational.Sql.{
  classify_statement, StatementKind, ParsedSelect, parse_select, star, is_count_star,
}
use takyondb.Relational.Sql.Writes.{ParsedInsert, parse_insert}
use takyondb.Relational.Selection.{
  single_where, apply_where, apply_columns, apply_order, apply_limit, run_select, execute_select,
}
use takyondb.Relational.Executor
use takyondb.Relational.Executor.{
  SqlResult, has_join, build_row, run_insert, execute_sql, execute_kind, or_throw, reads,
}

module _ {N : Type 0} ⦃js : JsNumber N⦄ where
  -- A SELECT of all columns, of one table, without an order and a limit.
  pub record IsPlain (sql : Text) (plan : ParsedSelect N) : Type 0 where
    pub kind : classify_statement sql ≡ ok StatementKind.select
    pub alone : has_join sql ≡ false
    pub parsed : parse_select sql ≡ ok plan
    pub whole : plan.columns ≡ star
    pub unordered : plan.order_col ≡ none
    pub unlimited : plan.limit ≡ none

  abbrev pub where_of : ParsedSelect N → Option (Where N)
  where_of plan = single_where plan.where_col plan.where_op plan.where_val

  all-apply_where :
      (t : RelationalTable N) (clause : Option (Where N))
      → all t (apply_where clause (new_query N)) ≡ scan t clause
  unfolding all apply_where with_where order skip cap project
  all-apply_where t none = refl
  all-apply_where t (some w) = refl

  run_select-plain :
      (sql : Text) (plan : ParsedSelect N) (t : RelationalTable N)
      → IsPlain sql plan
      → run_select t plan ≡ scan t (where_of plan)
  unfolding run_select apply_columns apply_order apply_limit is_count_star
  run_select-plain sql plan t plain =
      rw plain.whole (rw plain.unordered (rw plain.unlimited (all-apply_where t (where_of plan))))

  execute_sql-plain :
      (db : RelationalDatabase N) (sql : Text) (plan : ParsedSelect N) (t : RelationalTable N)
      → IsPlain sql plan
      → table db plan.table ≡ ok t
      → execute_sql db sql ≡ (db, ok (Executor.selected (scan t (where_of plan))))
  unfolding execute_sql execute_kind or_throw execute_select reads
  execute_sql-plain db sql plan t plain found = rw plain.kind (
      rw plain.alone (
        rw plain.parsed (
          rw found
            (ap (λ rows. (db, ok (Executor.selected rows))) (run_select-plain sql plan t plain)))))

  run_insert-inv :
      (db : RelationalDatabase N) (plan : ParsedInsert N) (t : RelationalTable N)
      {db' : RelationalDatabase N} {r : SqlResult N}
      → run_insert db plan t ≡ (db', ok r)
      → (t' : RelationalTable N) × (row : Row N) × (insert t (build_row [] plan.columns plan.values)
          ≡ ok (t', row))
        × (db' ≡ with_table db plan.table t')
        × (r ≡ Executor.inserted 1)
  unfolding run_insert
  run_insert-inv db plan t h =
      let row = build_row [] plan.columns plan.values in
      elim (Result-cases (insert t row)) [
        | inl (e, refused) ↦
            let thrown : (run_insert db plan t ≡ (db, err e)) = rw (refused, run_insert) refl in
            absurd (cc (ap (λ p. p.1) (sym thrown ∙ h)))
        | inr ((t', stored), inserts) ↦
            let returned : (run_insert db plan t
                ≡ (with_table db plan.table t', ok (Executor.inserted 1))) =
              rw (inserts, run_insert) refl in
            let both = sym returned ∙ h in
            (t', stored, inserts, sym (ap (λ p. p.0) both), cc (ap (λ p. p.1) both))
      ]

  execute_sql-run_insert :
      (db : RelationalDatabase N) (sql : Text) (plan : ParsedInsert N) (t : RelationalTable N)
      → classify_statement sql ≡ ok StatementKind.insert
      → parse_insert sql ≡ ok plan
      → table db plan.table ≡ ok t
      → execute_sql db sql ≡ run_insert db plan t
  unfolding execute_sql execute_kind or_throw
  execute_sql-run_insert db sql plan t kind parsed found = rw kind (rw parsed (rw found refl))

  filter_rows-snoc :
      (rows : List (Row N)) (row : Row N) (clause : Option (Where N))
      → filter_rows (rows ++ row ∷ []) clause
        ≡ filter_rows rows clause ++ (if matches_where row clause then row ∷ [] else [])
  unfolding filter_rows
  filter_rows-snoc [] row clause = refl
  filter_rows-snoc (r ∷ rows) row clause = ground (arith, filter_rows-snoc rows row clause)

  -- A scan behind an insert ends with the new row, if it matches.
  scan-insert :
      (t t' : RelationalTable N) (row result : Row N) (clause : Option (Where N))
      → insert t row ≡ ok (t', result)
      → scan t' clause ≡ scan t clause ++ (if matches_where row clause then row ∷ [] else [])
  unfolding scan
  scan-insert t t' row result clause h =
      let (pk, v, e, free, shape) = insert-inv t row h in
      ap (λ p. filter_rows (values p.0.rows) clause) shape
      ∙ ap (λ rows. filter_rows (values rows) clause) (put_new pk row t.rows free)
      ∙ ap (λ rows. filter_rows rows clause) (map-append (λ p. p.1) t.rows ((pk, row) ∷ []))
      ∙ filter_rows-snoc (values t.rows) row clause

  -- If an INSERT that parses, into a table that is there, returns, it reports one row; and a
  -- SELECT of all columns of that table, without a join, an order and a limit, returns what it
  -- returned before the INSERT, followed by the new row if its WHERE matches it.
  pub select-insert :
      (db : RelationalDatabase N) (sql query : Text) (plan : ParsedInsert N)
      (wanted : ParsedSelect N) (t : RelationalTable N) {db' : RelationalDatabase N}
      {r : SqlResult N}
      → classify_statement sql ≡ ok StatementKind.insert
      → parse_insert sql ≡ ok plan
      → table db plan.table ≡ ok t
      → IsPlain query wanted
      → wanted.table ≡ plan.table
      → execute_sql db sql ≡ (db', ok r)
      → let row = build_row [] plan.columns plan.values in
        (r ≡ Executor.inserted 1)
        × ((rows : List (Row N)) × (execute_sql db query ≡ (db, ok (Executor.selected rows)))
            × (execute_sql db' query ≡ (
              db',
              ok (
                  Executor.selected
                    (rows ++ (if matches_where row (where_of wanted) then row ∷ [] else []))),
            )))
  select-insert db sql query plan wanted t {db'} {r} kind parsed found plain same done =
      let row = build_row [] plan.columns plan.values in
      let ran = sym (execute_sql-run_insert db sql plan t kind parsed found) ∙ done in
      let (t', result, inserts, written, report) = run_insert-inv db plan t ran in
      let there = ap (table db) same ∙ found in
      let here : (table db' wanted.table ≡ ok t') =
        ap (λ d. table d wanted.table) written
        ∙ ap (table (with_table db plan.table t')) same
        ∙ table-with_table db plan.table t' in
      (
        report,
        (
          scan t (where_of wanted),
          execute_sql-plain db query wanted t plain there,
          execute_sql-plain db' query wanted t' plain here
              ∙ ap (λ rows. (db', ok (Executor.selected rows)))
                  (scan-insert t t' row result (where_of wanted) inserts),
        ),
      )
