-- ===== src/Relational/Pushdown.antt =====
-- pushdown.ts: filters and aggregates over a column of numbers, by a native kernel where there is
-- one that does not throw.
pub mod Agreement
use takyondb.Prelude.{
  ℕ, ◌+◌, ◌-◌, ◌%◌, ◌^◌, Bool, true, false, not, List, [], ◌∷◌, Option, none, some, get_elem?,
  length, ltb, leb, ◌==◌, Result, ok, err, if◌then◌else◌,
}
use takyondb.Js.Text.{Text}
use takyondb.Js.Value.{Value, Row, JsNumber, num, field}
use takyondb.Js.Order.{ℤ, pos, negsuc}

pub data PushOpName : Type 0 where
  eq ne gt gte lt lte : PushOpName

-- `PUSH_OP`
unfoldable pub push_op : PushOpName → ℕ
push_op eq = 0
push_op ne = 1
push_op gt = 2
push_op gte = 3
push_op lt = 4
push_op lte = 5

-- The numbers of the language that are none of `JsNumber`: NaN and the two infinities.
pub record JsExtremes (N : Type 0) : Type 0 where
  pub nan : N
  pub positive_infinity : N
  pub negative_infinity : N

-- The kernels of the addon. Each may be missing, and a call may throw.
pub record PushBindings (N : Type 0) : Type 0 where
  pub filter_u32 : Option (List ℕ → ℕ → ℕ → Result (List ℕ))
  pub filter_f64 : Option (List N → ℕ → N → Result (List ℕ))
  pub agg_sum : Option (List N → Result N)
  pub agg_sum_selected : Option (List N → List ℕ → Result N)
  pub agg_min_selected : Option (List N → List ℕ → Result N)
  pub agg_max_selected : Option (List N → List ℕ → Result N)

unfoldable pub cmp_u32 : ℕ → ℕ → ℕ → Bool
cmp_u32 v op t =
    if op == 0
    then v == t
    else if op == 1
    then not (v == t)
    else if op == 2
    then ltb t v
    else if op == 3
    then leb t v
    else if op == 4
    then ltb v t
    else leb v t

-- The loop from the index `i` on.
unfoldable pub fallback_filter_u32 : ℕ → List ℕ → ℕ → ℕ → List ℕ
unfolding cmp_u32
fallback_filter_u32 i [] op target = []
fallback_filter_u32 i (v ∷ values) op target =
    let rest = fallback_filter_u32 (i + 1) values op target in
    if cmp_u32 v op target then i ∷ rest else rest

-- `target >>> 0` of a whole number
unfoldable pub to_uint32 : ℤ → ℕ
to_uint32 (pos n) = n % 2 ^ 32
to_uint32 (negsuc n) = 2 ^ 32 - 1 - n % 2 ^ 32

-- `try { return fn(...); } catch {}` and the fallback behind it
unfoldable pub caught {ℓ} : {A : Type ℓ} → Result A → A → A
caught (ok a) fallback = a
caught (err e) fallback = fallback

unfoldable pub attempt {ℓ κ} : {F : Type ℓ} {A : Type κ} → Option F → (F → Result A) → A → A
unfolding caught
attempt none call fallback = fallback
attempt (some fn) call fallback = caught (call fn) fallback

module _ {N : Type 0} where
  unfoldable pub push_filter_u32 : PushBindings N → List ℕ → PushOpName → ℤ → List ℕ
  unfolding attempt fallback_filter_u32 to_uint32 push_op
  push_filter_u32 bindings values op target =
      let code = push_op op in
      attempt bindings.filter_u32 (λ fn. fn values code (to_uint32 target))
        (fallback_filter_u32 0 values code (to_uint32 target))

module _ {N : Type 0} ⦃js : JsNumber N⦄ where
  unfoldable pub cmp_f64 : N → ℕ → N → Bool
  cmp_f64 v op t =
      if op == 0
      then js.eq v t
      else if op == 1
      then not (js.eq v t)
      else if op == 2
      then js.lt t v
      else if op == 3
      then js.le t v
      else if op == 4
      then js.lt v t
      else js.le v t

  unfoldable pub fallback_filter_f64 : ℕ → List N → ℕ → N → List ℕ
  unfolding cmp_f64
  fallback_filter_f64 i [] op target = []
  fallback_filter_f64 i (v ∷ values) op target =
      let rest = fallback_filter_f64 (i + 1) values op target in
      if cmp_f64 v op target then i ∷ rest else rest

  unfoldable pub push_filter_f64 : PushBindings N → List N → PushOpName → N → List ℕ
  unfolding attempt fallback_filter_f64 push_op
  push_filter_f64 bindings values op target =
      let code = push_op op in
      attempt bindings.filter_f64 (λ fn. fn values code target)
        (fallback_filter_f64 0 values code target)

  -- The loop of the compensated sum, with `sum` and `c`.
  unfoldable pub kahan_sum : N → N → List N → N
  kahan_sum sum c [] = sum
  kahan_sum sum c (v ∷ values) =
      let y = js.sub v c in let t = js.add sum y in kahan_sum t (js.sub (js.sub t sum) y) values

  unfoldable pub fallback_sum : List N → N
  unfolding kahan_sum
  fallback_sum values = kahan_sum (js.of_ℕ 0) (js.of_ℕ 0) values

  -- An index past the end stops the loop.
  unfoldable pub kahan_sum_selected : N → N → List N → List ℕ → N
  kahan_sum_selected sum c values [] = sum
  kahan_sum_selected sum c values (idx ∷ sel) = elim (get_elem? values idx) [
    | none ↦ sum
    | some v ↦
        let y = js.sub v c in
        let t = js.add sum y in kahan_sum_selected t (js.sub (js.sub t sum) y) values sel
  ]

  unfoldable pub fallback_sum_selected : List N → List ℕ → N
  unfolding kahan_sum_selected
  fallback_sum_selected values sel = kahan_sum_selected (js.of_ℕ 0) (js.of_ℕ 0) values sel

  unfoldable pub push_sum : PushBindings N → List N → N
  unfolding attempt fallback_sum
  push_sum bindings values = attempt bindings.agg_sum (λ fn. fn values) (fallback_sum values)

  unfoldable pub push_sum_selected : PushBindings N → List N → List ℕ → N
  unfolding attempt fallback_sum_selected
  push_sum_selected bindings values sel =
      attempt bindings.agg_sum_selected (λ fn. fn values sel) (fallback_sum_selected values sel)

  -- The loop with `m` and `seen`: a cell that is `better` replaces `m`.
  unfoldable pub best_selected : (N → N → Bool) → N → Bool → List N → List ℕ → N
  best_selected better m seen values [] = if seen then m else js.of_ℕ 0
  best_selected better m seen values (idx ∷ sel) = elim (get_elem? values idx) [
    | none ↦ if seen then m else js.of_ℕ 0
    | some v ↦ best_selected better (if better v m then v else m) true values sel
  ]

  -- `if (sel.length === 0) return 0;` before the loop
  unfoldable pub unless_empty : List ℕ → N → N
  unless_empty [] best = js.of_ℕ 0
  unless_empty (idx ∷ sel) best = best

  module _ (extremes : JsExtremes N) where
    unfoldable pub push_min_selected : PushBindings N → List N → List ℕ → N
    unfolding attempt unless_empty best_selected
    push_min_selected bindings values sel =
        attempt bindings.agg_min_selected (λ fn. fn values sel)
          (unless_empty sel (best_selected js.lt extremes.positive_infinity false values sel))

    unfoldable pub push_max_selected : PushBindings N → List N → List ℕ → N
    unfolding attempt unless_empty best_selected
    push_max_selected bindings values sel =
        attempt bindings.agg_max_selected (λ fn. fn values sel)
          (unless_empty sel
            (best_selected (λ v m. js.lt m v) extremes.negative_infinity false values sel))

    -- `typeof v === 'number' ? v : NaN`
    unfoldable pub cell_number : Value N → N
    cell_number (num a) = a
    cell_number _ = extremes.nan

    unfoldable pub is_number : Value N → Bool
    is_number (num a) = true
    is_number _ = false

    -- The loop from the index `i` on: the dense values, and the indices of the numbers.
    unfoldable pub columnize_from : ℕ → List (Row N) → Text → List N × List ℕ
    unfolding cell_number is_number
    columnize_from i [] column = ([], [])
    columnize_from i (r ∷ rows) column =
        let v = field r column in
        let (values, valid) = columnize_from (i + 1) rows column in
        (cell_number v ∷ values, if is_number v then i ∷ valid else valid)

    unfoldable pub columnize : List (Row N) → Text → List N × List ℕ
    unfolding columnize_from
    columnize = columnize_from 0
