-- ===== src/Relational/Pushdown/Agreement.antt =====
-- pushdown.ts and filter.ts: a filter that is pushed down takes the rows that the clause matches.
use takyondb.Prelude.{
  ℕ, ◌+◌, ◌≡◌, ◌∙◌, refl, false, List, [], ◌∷◌, Option, none, some, Result, Error, ok, err,
  if◌then◌else◌, ◌⊎◌, inl, inr, arith,
}
use takyondb.Js.Text.{Text}
use takyondb.Js.Value.{Value, Row, JsNumber, num, field, strict_eq}
use takyondb.Js.Order.{to_number}
use takyondb.Relational.Filter.{
  Condition, Where, cond, matches_where, compile_per_column, close_columns, run_checks,
  compile_clause, compile_condition, push, number_check,
}
use takyondb.Relational.Selection.{no_operator}
use takyondb.Relational.Pushdown.{
  PushOpName, JsExtremes, PushBindings, push_op, cmp_f64, fallback_filter_f64, push_filter_f64,
  attempt, caught, columnize, columnize_from, cell_number,
}

module _ {N : Type 0} ⦃js : JsNumber N⦄ where
  -- NaN is equal to no number, and no comparison with it holds.
  pub record NanLaws (extremes : JsExtremes N) : Type 0 where
    pub never_eq : (a : N) → js.eq extremes.nan a ≡ false
    pub never_lt : (a : N) → (js.lt extremes.nan a ≡ false) × (js.lt a extremes.nan ≡ false)
    pub never_le : (a : N) → (js.le extremes.nan a ≡ false) × (js.le a extremes.nan ≡ false)

  -- The clause that asks the same of a column.
  pub condition_of : PushOpName → Value N → Condition N
  condition_of PushOpName.eq v = record no_operator { eq = some v }
  condition_of PushOpName.ne v = record no_operator { ne = some v }
  condition_of PushOpName.gt v = record no_operator { gt = some v }
  condition_of PushOpName.gte v = record no_operator { gte = some v }
  condition_of PushOpName.lt v = record no_operator { lt = some v }
  condition_of PushOpName.lte v = record no_operator { lte = some v }

  abbrev pub clause_of : Text → PushOpName → N → Where N
  clause_of column op target = (column, cond (condition_of op (num target))) ∷ []

  -- The positions of the rows that the clause matches, from `i` on.
  pub matching_positions : ℕ → List (Row N) → Where N → List ℕ
  matching_positions i [] clause = []
  matching_positions i (r ∷ rows) clause =
      let rest = matching_positions (i + 1) rows clause in
      if matches_where r (some clause) then i ∷ rest else rest

  -- What is documented of the native filter: a call throws, or returns what the fallback does.
  unfoldable pub FilterAgrees : Option (List N → ℕ → N → Result (List ℕ)) → Type 0
  FilterAgrees none = Unit
  FilterAgrees (some fn) =
      (values : List N) (code : ℕ) (target : N)
      → ((e : Error) × (fn values code target ≡ err e))
        ⊎ (fn values code target ≡ ok (fallback_filter_f64 0 values code target))

  push_filter_f64-fallback :
      (bindings : PushBindings N) (values : List N) (op : PushOpName) (target : N)
      → FilterAgrees bindings.filter_f64
      → push_filter_f64 bindings values op target ≡ fallback_filter_f64 0 values (push_op op) target
  unfolding push_filter_f64 attempt caught FilterAgrees
  push_filter_f64-fallback bindings values op target h = by_kernel bindings.filter_f64 h
    where
      by_kernel :
          (kernel : Option (List N → ℕ → N → Result (List ℕ)))
          → FilterAgrees kernel
          → attempt kernel
              (λ fn. fn values (push_op op) target)
              (fallback_filter_f64 0 values (push_op op) target)
            ≡ fallback_filter_f64 0 values (push_op op) target
      by_kernel none h = refl
      by_kernel (some fn) h = elim (h values (push_op op) target) [
        | inl (e, threw) ↦ rw threw refl
        | inr same ↦ rw same refl
      ]

  module _ (extremes : JsExtremes N) (laws : NanLaws extremes) where
    cell-matches :
        (op : PushOpName) (v : Value N) (target : N)
        → run_checks (compile_condition (condition_of op (num target))) v
          ≡ cmp_f64 (cell_number extremes v) (push_op op) target
    unfolding run_checks compile_condition push condition_of strict_eq number_check to_number
        cmp_f64 cell_number push_op
    cell-matches PushOpName.eq (num a) target = ground arith
    cell-matches PushOpName.eq _ target = ground (arith, laws.never_eq target)
    cell-matches PushOpName.ne (num a) target = ground arith
    cell-matches PushOpName.ne _ target = ground (arith, laws.never_eq target)
    cell-matches PushOpName.gt (num a) target = ground arith
    cell-matches PushOpName.gt _ target = ground (arith, laws.never_lt target)
    cell-matches PushOpName.gte (num a) target = ground arith
    cell-matches PushOpName.gte _ target = ground (arith, laws.never_le target)
    cell-matches PushOpName.lt (num a) target = ground arith
    cell-matches PushOpName.lt _ target = ground (arith, laws.never_lt target)
    cell-matches PushOpName.lte (num a) target = ground arith
    cell-matches PushOpName.lte _ target = ground (arith, laws.never_le target)

    row-matches :
        (row : Row N) (column : Text) (op : PushOpName) (target : N)
        → matches_where row (some (clause_of column op target))
          ≡ cmp_f64 (cell_number extremes (field row column)) (push_op op) target
    unfolding matches_where compile_per_column close_columns compile_clause
    row-matches row column op target = cell-matches op (field row column) target

    filter_columnized :
        (i j : ℕ) (rows : List (Row N)) (column : Text) (op : PushOpName) (target : N)
        → fallback_filter_f64 i (columnize_from extremes j rows column).0 (push_op op) target
          ≡ matching_positions i rows (clause_of column op target)
    unfolding fallback_filter_f64 columnize_from matching_positions
    filter_columnized i j [] column op target = refl
    filter_columnized i j (r ∷ rows) column op target =
        rw (row-matches r column op target)
          (rw (filter_columnized (i + 1) (j + 1) rows column op target) refl)

    -- If NaN is in no equation and no order, and the native filter throws or does what the fallback
    -- does: for each operator and number, the pushed filter of a column that was made dense gives
    -- the positions, in ascending order, of exactly the rows that a `where` clause with this
    -- operator matches.
    pub push_filter_f64-columnize :
        (bindings : PushBindings N) (rows : List (Row N)) (column : Text) (op : PushOpName)
        (target : N)
        → FilterAgrees bindings.filter_f64
        → push_filter_f64 bindings (columnize extremes rows column).0 op target
          ≡ matching_positions 0 rows (clause_of column op target)
    unfolding columnize
    push_filter_f64-columnize bindings rows column op target h =
        push_filter_f64-fallback bindings (columnize_from extremes 0 rows column).0 op target h
        ∙ filter_columnized 0 0 rows column op target
