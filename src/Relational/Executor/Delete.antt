-- ===== src/Relational/Executor/Delete.antt =====
-- executor.ts: what a DELETE leaves of its table.
use mathlib.Core.List.{append_assoc}
use takyondb.Prelude.{
  ℕ, suc, ◌+◌, ◌≡◌, ◌∙◌, refl, sym, ap, subst, true, List, [], ◌∷◌, ◌++◌, Option, some, length, ok,
  if◌then◌else◌, arith, inl, inr, Bool-cases,
}
use takyondb.Js.Text.{Text}
use takyondb.Js.Dict.{Dict, IsDistinct, get, delete, values, get_between, delete_between}
use takyondb.Js.Value.{Row, JsNumber, field}
use takyondb.Relational.Keys.{encode_pk}
use takyondb.Relational.Filter.{Where, matches_where}
use takyondb.Relational.Table.{RelationalTable, scan, filter_rows, delete_row, delete_found}
use takyondb.Relational.Table.Invariant.{IsConsistent, after_delete}
use takyondb.Relational.Table.Reachable.{deleted, Step-IsConsistent}
use takyondb.Relational.Database.{RelationalDatabase, with_table, table}
use takyondb.Relational.Sql.{classify_statement, StatementKind}
use takyondb.Relational.Sql.Writes.{ParsedDelete, parse_delete}
use takyondb.Relational.Executor
use takyondb.Relational.Selection.{single_where}
use takyondb.Relational.Executor.{
  delete_rows, count_if, run_delete, execute_sql, execute_kind, or_throw, writes,
}

module _ {N : Type 0} ⦃js : JsNumber N⦄ where
  -- The entries whose row the clause does not match.
  pub unmatched : Dict (Row N) → Option (Where N) → Dict (Row N)
  unmatched [] clause = []
  unmatched ((k, row) ∷ rows) clause =
      let rest = unmatched rows clause in if matches_where row clause then rest else (k, row) ∷ rest

  -- A delete by the key of a row that is there takes out that row.
  delete_row-there :
      (t : RelationalTable N) (k : Text) (row : Row N)
      → encode_pk (field row t.schema.primary_key) ≡ ok k
      → get k t.rows ≡ some row
      → delete_row t (field row t.schema.primary_key) ≡ ok (after_delete t k row, true)
  unfolding delete_row delete_found
  delete_row-there t k row e there = rw e (rw there refl)

  delete_rows-there :
      (t t' : RelationalTable N) (pk_col : Text) (row : Row N) (rows : List (Row N)) (n : ℕ)
      → delete_row t (field row pk_col) ≡ ok (t', true)
      → delete_rows t pk_col (row ∷ rows) n ≡ delete_rows t' pk_col rows (n + 1)
  unfolding delete_rows count_if
  delete_rows-there t t' pk_col row rows n e = rw (e, delete_rows) refl

  -- The loop over the matched rows behind those that were kept.
  delete_rows-unmatched :
      (t : RelationalTable N) (clause : Option (Where N)) (kept rows : Dict (Row N)) (n : ℕ)
      → IsConsistent t
      → t.rows ≡ kept ++ rows
      → (t' : RelationalTable N) × (delete_rows t t.schema.primary_key
            (filter_rows (values rows) clause)
            n
          ≡ (t', ok (n + length (filter_rows (values rows) clause))))
        × (t'.rows ≡ kept ++ unmatched rows clause)
        × IsConsistent t'
  unfolding filter_rows unmatched
  delete_rows-unmatched t clause kept [] n inv e =
      (t, unfold delete_rows in ap (λ k. (t, ok k)) (omega arith), e, inv)
  delete_rows-unmatched t clause kept ((k, row) ∷ rows) n inv e =
      elim (Bool-cases (matches_where row clause)) [
        | inr other ↦
            let (t', ran, left, inv') =
              delete_rows-unmatched t clause (kept ++ (k, row) ∷ []) rows n inv
                (e ∙ sym (append_assoc kept ((k, row) ∷ []) rows)) in
            rw other
              (t', ran, left ∙ append_assoc kept ((k, row) ∷ []) (unmatched rows clause), inv')
        | inl matched ↦
            let distinct = subst IsDistinct e inv.distinct in
            let there = ap (get k) e ∙ get_between k row kept rows distinct in
            let gone = delete_row-there t k row (inv.keyed k row there) there in
            let (t', ran, left, inv') =
              delete_rows-unmatched (after_delete t k row) clause kept rows (n + 1)
                (Step-IsConsistent (deleted (field row t.schema.primary_key) true gone) inv)
                (ap (delete k) e ∙ delete_between k row kept rows distinct) in
            let matched_rows = filter_rows (values rows) clause in
            let sum : (n + 1 + length matched_rows ≡ n + suc (length matched_rows)) = omega arith in
            rw matched (
              t',
              delete_rows-there t (after_delete t k row) t.schema.primary_key row matched_rows n
                    gone
                  ∙ ran
                  ∙ ap (λ c. (t', ok c)) sum,
              left,
              inv',
            )
      ]

  -- A DELETE that parses, of a table that is there and whose maps agree with its rows, never
  -- throws: it reports how many rows its WHERE matched, and leaves the rows that the WHERE does not
  -- match, under their keys and in their order, in a table whose maps agree with them.
  pub execute_sql-delete :
      (db : RelationalDatabase N) (sql : Text) (plan : ParsedDelete N) (t : RelationalTable N)
      → classify_statement sql ≡ ok StatementKind.delete
      → parse_delete sql ≡ ok plan
      → table db plan.table ≡ ok t
      → IsConsistent t
      → let clause =
          single_where (some plan.where_col) (some plan.where_op) (some plan.where_val) in
        (t' : RelationalTable N) × (execute_sql db sql
          ≡ (with_table db plan.table t', ok (Executor.deleted (length (scan t clause)))))
        × (t'.rows ≡ unmatched t.rows clause)
        × IsConsistent t'
  unfolding execute_sql execute_kind or_throw run_delete writes scan
  execute_sql-delete db sql plan t kind parsed found inv =
      let clause = single_where (some plan.where_col) (some plan.where_op) (some plan.where_val) in
      let (t', ran, left, inv') = delete_rows-unmatched t clause [] t.rows 0 inv refl in
      let zero_more : (0 + length (scan t clause) ≡ length (scan t clause)) = omega arith in
      (
        t',
        rw kind (
            rw parsed (
              rw found (
                rw ran
                  (ap (λ n. (with_table db plan.table t', ok (Executor.deleted n))) zero_more)))),
        left,
        inv',
      )
