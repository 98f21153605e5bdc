-- ===== src/Relational/Aggregation.antt =====
-- aggregation.ts: one pass over the rows, with the sum, the count and the extremes so far.
pub mod Pass
use takyondb.Prelude.{
  ℕ, ◌+◌, Bool, true, false, List, [], ◌∷◌, Option, none, some, length, Result, ok, err, ◌==◌,
  if◌then◌else◌, requires_column,
}
use takyondb.Js.Text.{Text}
use takyondb.Js.Value.{Value, Row, JsNumber, field, num}

pub data AggFn : Type 0 where
  count sum avg min max : AggFn

-- The local variables of the loop.
pub record Totals (N : Type 0) : Type 0 where
  pub sum : N
  pub count : ℕ
  pub min : N
  pub max : N
  pub seen : Bool

module _ {N : Type 0} ⦃js : JsNumber N⦄ where
  -- One numeric cell.
  unfoldable pub add_number : Totals N → N → Totals N
  add_number a v = record {
    sum = js.add a.sum v;
    count = a.count + 1;
    min = if a.seen then (if js.lt v a.min then v else a.min) else v;
    max = if a.seen then (if js.lt a.max v then v else a.max) else v;
    seen = true;
  }

  -- One round of the loop: a cell that is no number is skipped.
  unfoldable pub add_cell : Totals N → Value N → Totals N
  unfolding add_number
  add_cell a (num v) = add_number a v
  add_cell a _ = a

  unfoldable pub add_rows : Text → Totals N → List (Row N) → Totals N
  unfolding add_cell
  add_rows column a [] = a
  add_rows column a (row ∷ rows) = add_rows column (add_cell a (field row column)) rows

  unfoldable pub initial : Totals N
  initial = record { sum = js.of_ℕ 0; count = 0; min = js.of_ℕ 0; max = js.of_ℕ 0; seen = false }

  -- The `switch` at the end.
  unfoldable pub select_total : Totals N → AggFn → N
  select_total a count = js.of_ℕ a.count
  select_total a sum = a.sum
  select_total a avg = js.div a.sum (js.of_ℕ a.count)
  select_total a min = a.min
  select_total a max = a.max

  unfoldable pub total_of : Totals N → AggFn → N
  unfolding select_total
  total_of a fn = if a.count == 0 then js.of_ℕ 0 else select_total a fn

  unfoldable pub aggregate : List (Row N) → AggFn → Option Text → Result N
  unfolding add_rows initial total_of
  aggregate rows count column = ok (js.of_ℕ (length rows))
  aggregate rows fn none = err requires_column
  aggregate rows fn (some []) = err requires_column
  aggregate rows fn (some (c ∷ column)) = ok (total_of (add_rows (c ∷ column) initial rows) fn)
