-- ===== src/Relational/Selection.antt =====
-- executor.ts: the rows that SELECT returns, from one table or from two that are joined.
use takyondb.Prelude.{
  ℕ, List, [], ◌∷◌, map, Option, none, some, take, Result, ok, ◌>>=◌, if◌then◌else◌,
}
use mathlib.Core.Option.{get_or}
use takyondb.Js.Text.{Text, codes, text_beq}
use takyondb.Js.Dict.{spread}
use takyondb.Js.Value.{Value, Row, JsNumber, num, undefined}
use takyondb.Js.Order.{pos}
use takyondb.Relational.Filter.{Where, Condition, cond}
use takyondb.Relational.Table.{RelationalTable, filter_rows}
use takyondb.Relational.Database.{RelationalDatabase, table}
use takyondb.Relational.Query.{
  QueryBuilder, Direction, asc, new_query, with_where, select, order_by, limit, all, count_rows,
  copy_columns,
}
use takyondb.Relational.Join.{JoinRow, hash_join}
use takyondb.Relational.Sql.{
  Columns, star, listed, is_count_star, ParsedSelect, ParsedJoin, parse_select, parse_join,
}

module _ {N : Type 0} where
  abbrev pub no_operator : Condition N
  no_operator = record {
    eq = none;
    ne = none;
    gt = none;
    gte = none;
    lt = none;
    lte = none;
    one_of = none;
    like = none;
  }

  -- The `switch` on the operator: any other gives no clause.
  unfoldable pub operator_condition : Text → Value N → Option (Condition N)
  operator_condition op v =
      if text_beq op (codes "=")
      then some (record no_operator { eq = some v })
      else if text_beq op (codes "!=")
      then some (record no_operator { ne = some v })
      else if text_beq op (codes ">")
      then some (record no_operator { gt = some v })
      else if text_beq op (codes ">=")
      then some (record no_operator { gte = some v })
      else if text_beq op (codes "<")
      then some (record no_operator { lt = some v })
      else if text_beq op (codes "<=")
      then some (record no_operator { lte = some v })
      else none

  unfoldable pub clause_on : Text → Option (Condition N) → Option (Where N)
  clause_on col none = none
  clause_on col (some c) = some ((col, cond c) ∷ [])

  -- `if (!col || !op) return undefined`, where an empty text is false too
  unfoldable pub single_where : Option Text → Option Text → Option (Value N) → Option (Where N)
  unfolding operator_condition clause_on
  single_where (some (c ∷ col)) (some (o ∷ op)) val =
      clause_on (c ∷ col) (operator_condition (o ∷ op) (get_or val undefined))
  single_where _ _ val = none

  -- `if (where) q.where(where)` and the clauses behind it
  unfoldable pub apply_where : Option (Where N) → QueryBuilder N → QueryBuilder N
  unfolding with_where
  apply_where none q = q
  apply_where (some w) q = with_where q w

  unfoldable pub apply_columns : Columns → QueryBuilder N → QueryBuilder N
  unfolding select
  apply_columns star q = q
  apply_columns (listed cols) q = select q cols

  unfoldable pub apply_order : Option Text → Option Direction → QueryBuilder N → QueryBuilder N
  unfolding order_by
  apply_order (some (c ∷ col)) dir q = order_by q (c ∷ col) (get_or dir asc)
  apply_order _ dir q = q

  unfoldable pub apply_limit : Option ℕ → QueryBuilder N → QueryBuilder N
  unfolding limit
  apply_limit none q = q
  apply_limit (some n) q = limit q (pos n)

module _ {N : Type 0} ⦃js : JsNumber N⦄ where
  -- The builder that a SELECT sets up, and what it returns.
  unfoldable pub run_select : RelationalTable N → ParsedSelect N → List (Row N)
  unfolding apply_where apply_columns apply_order apply_limit single_where is_count_star
  run_select t plan =
      let q =
        apply_where (single_where plan.where_col plan.where_op plan.where_val) (new_query N) in
      let full =
        apply_limit plan.limit
          (apply_order plan.order_col plan.order_dir (apply_columns plan.columns q)) in
      let counted : Value N = num (js.of_ℕ (count_rows t q)) in
      if is_count_star plan.columns then ((codes "count", counted) ∷ []) ∷ [] else all t full

  unfoldable pub execute_select : RelationalDatabase N → Text → Result (List (Row N))
  execute_select db sql = do
    plan ← parse_select sql
    t ← table db plan.table
    ok (run_select t plan)

  -- `if (where) rows = rows.filter(...)`
  unfoldable pub filter_merged : Option (Where N) → List (Row N) → List (Row N)
  filter_merged none rows = rows
  filter_merged (some w) rows = filter_rows rows (some w)

  unfoldable pub project_merged : Columns → List (Row N) → List (Row N)
  project_merged star rows = rows
  project_merged (listed cols) rows = map (λ r. copy_columns [] r cols) rows

  unfoldable pub limit_merged : Option ℕ → List (Row N) → List (Row N)
  limit_merged none rows = rows
  limit_merged (some n) rows = take n rows

  unfoldable pub run_join : RelationalTable N → RelationalTable N → ParsedJoin N → List (Row N)
  unfolding filter_merged project_merged limit_merged single_where
  run_join left right plan =
      let merged =
        map (λ (p : JoinRow N). spread p.left p.right)
          (hash_join left right plan.left_key plan.right_key) in
      let where_clause = single_where plan.where_col plan.where_op plan.where_val in
      limit_merged plan.limit (project_merged plan.columns (filter_merged where_clause merged))

  unfoldable pub execute_join : RelationalDatabase N → Text → Result (List (Row N))
  execute_join db sql = do
    plan ← parse_join sql
    left ← table db plan.left
    right ← table db plan.right
    ok (run_join left right plan)
