-- ===== src/Relational/Query.antt =====
-- query.ts: the clauses of a query, and the rows, the count and the aggregate that it returns.
pub mod Rows
pub mod Ordered
use takyondb.Prelude.{
  ℕ, zero, Bool, true, false, List, [], ◌∷◌, map, Option, none, some, length, Result, if◌then◌else◌,
}
use takyondb.Js.Text.{Text}
use takyondb.Js.Dict.{put}
use takyondb.Js.Value.{Value, Row, JsNumber, field}
use takyondb.Js.Order.{ℤ, pos, Ordering, less, equal, greater, value_lt, sort, slice_from, slice_to}
use takyondb.Relational.Filter.{Where, matches_where}
use takyondb.Relational.Table.{RelationalTable, scan}
use takyondb.Relational.Aggregation.{AggFn, aggregate}

pub data Direction : Type 0 where
  asc desc : Direction

-- The fields of the builder. The table is passed along, since it is held by reference.
pub record QueryBuilder (N : Type 0) : Type 0 where
  pub where_clause : Option (Where N)
  pub select_cols : Option (List Text)
  pub order_col : Option Text
  pub order_dir : Direction
  pub limit_n : Option ℤ
  pub offset_n : ℤ

abbrev pub new_query : (N : Type 0) → QueryBuilder N
new_query N = record {
  where_clause = none;
  select_cols = none;
  order_col = none;
  order_dir = asc;
  limit_n = none;
  offset_n = pos 0;
}

module _ {N : Type 0} where
  unfoldable pub with_where : QueryBuilder N → Where N → QueryBuilder N
  with_where q w = record q { where_clause = some w }

  unfoldable pub select : QueryBuilder N → List Text → QueryBuilder N
  select q cols = record q { select_cols = some cols }

  unfoldable pub order_by : QueryBuilder N → Text → Direction → QueryBuilder N
  order_by q col dir = record q { order_col = some col; order_dir = dir }

  unfoldable pub limit : QueryBuilder N → ℤ → QueryBuilder N
  limit q n = record q { limit_n = some n }

  unfoldable pub offset : QueryBuilder N → ℤ → QueryBuilder N
  offset q n = record q { offset_n = n }

  -- The loop over the selected columns: `o[c] = r[c]`.
  unfoldable pub copy_columns : Row N → Row N → List Text → Row N
  copy_columns o r [] = o
  copy_columns o r (c ∷ cols) = copy_columns (put c (field r c) o) r cols

  -- `if (this.selectCols) { ... }`
  unfoldable pub project : Option (List Text) → List (Row N) → List (Row N)
  unfolding copy_columns
  project none rows = rows
  project (some cols) rows = map (λ r. copy_columns [] r cols) rows

  -- `if (this.limitN !== undefined) ...`
  unfoldable pub cap : Option ℤ → List (Row N) → List (Row N)
  cap none rows = rows
  cap (some n) rows = slice_to n rows

  -- `if (this.offsetN) ...`: zero is skipped.
  unfoldable pub skip : ℤ → List (Row N) → List (Row N)
  skip (pos zero) rows = rows
  skip n rows = slice_from n rows

module _ {N : Type 0} ⦃js : JsNumber N⦄ where
  -- The comparison function of `orderBy`.
  unfoldable pub compare_rows : Text → Direction → Row N → Row N → Ordering
  compare_rows col asc a b =
      if value_lt (field a col) (field b col)
      then less
      else if value_lt (field b col) (field a col)
      then greater
      else equal
  compare_rows col desc a b =
      if value_lt (field a col) (field b col)
      then greater
      else if value_lt (field b col) (field a col)
      then less
      else equal

  -- `if (this.orderCol) ...`: an empty name is no order.
  unfoldable pub order : Option Text → Direction → List (Row N) → List (Row N)
  unfolding compare_rows
  order none dir rows = rows
  order (some []) dir rows = rows
  order (some (c ∷ col)) dir rows = sort (compare_rows (c ∷ col) dir) rows

  unfoldable pub all : RelationalTable N → QueryBuilder N → List (Row N)
  unfolding order skip cap project
  all t q =
      let rows = order q.order_col q.order_dir (scan t q.where_clause) in
      project q.select_cols (cap q.limit_n (skip q.offset_n rows))

  unfoldable pub count_rows : RelationalTable N → QueryBuilder N → ℕ
  count_rows t q = length (scan t q.where_clause)

  unfoldable pub agg : RelationalTable N → QueryBuilder N → AggFn → Option Text → Result N
  agg t q fn column = aggregate (scan t q.where_clause) fn column

  unfoldable pub matches : QueryBuilder N → Row N → Bool
  matches q row = matches_where row q.where_clause
