-- ===== src/Relational/Filter.antt =====
-- filter.ts: the `where` predicate, compiled to checks and applied to a row.
pub mod Like
pub mod Membership
pub mod Compile
pub mod Cache
use takyondb.Prelude.{
  Bool, true, false, ◌&&◌, ◌||◌, not, List, [], ◌∷◌, ◌++◌, map, Option, none, some, leb, length,
  if◌then◌else◌,
}
use takyondb.Js.Text.{Text}
use takyondb.Js.Dict.{Dict}
use takyondb.Js.Value.{
  Value, Row, JsNumber, field, strict_eq, to_text, null, undefined, bool, num, str, bytes,
}
use takyondb.Js.Order.{to_number}
use takyondb.Relational.Filter.Like.{like_test}

-- The operands of one column. An operator that is left out is `none`.
pub record Condition (N : Type 0) : Type 0 where
  pub eq : Option (Value N)
  pub ne : Option (Value N)
  pub gt : Option (Value N)
  pub gte : Option (Value N)
  pub lt : Option (Value N)
  pub lte : Option (Value N)
  pub one_of : Option (List (Value N))
  pub like : Option (Value N)

-- A bare value is shorthand for `eq`.
pub data Clause (N : Type 0) : Type 0 where
  bare : Value N → Clause N
  cond : Condition N → Clause N

abbrev pub Where : Type 0 → Type 0
Where N = Dict (Clause N)

abbrev pub Check : Type 0 → Type 0
Check N = Value N → Bool

module _ {N : Type 0} ⦃js : JsNumber N⦄ where
  -- `typeof v === 'number' && test(v, t)`
  unfoldable pub number_check : (N → N → Bool) → Value N → Check N
  unfolding to_number
  number_check test t (num a) = test a (to_number t)
  number_check test t _ = false

  -- The equality of `Set.has` and `Array.includes`: `===`, but NaN is equal to itself.
  unfoldable pub same_value_zero : Value N → Value N → Bool
  unfolding strict_eq
  same_value_zero (num a) (num b) = js.eq a b || (not (js.eq a a) && not (js.eq b b))
  same_value_zero v w = strict_eq v w

  -- `arr.includes(v)`, and `set.has(v)` for the elements of a `Set`
  unfoldable pub includes : List (Value N) → Check N
  includes [] v = false
  includes (w ∷ ws) v = same_value_zero w v || includes ws v

  -- `new Set(arr)`: each element is added unless an equal one is there
  unfoldable pub make_set : List (Value N) → List (Value N) → List (Value N)
  unfolding includes
  make_set set [] = set
  make_set set (w ∷ ws) = make_set (if includes set w then set else set ++ w ∷ []) ws

  unfoldable pub in_check : List (Value N) → Check N
  in_check arr v = if leb 8 (length arr) then includes (make_set [] arr) v else includes arr v

  unfoldable pub like_check : Value N → Check N
  like_check pattern (str s) = like_test (to_text pattern) s
  like_check pattern _ = false

  -- `if (operand !== undefined) checks.push(check(operand))`, before the later pushes
  unfoldable pub push {ℓ} :
      {A : Type ℓ} → Option A → (A → Check N) → List (Check N) → List (Check N)
  push none check later = later
  push (some a) check later = check a ∷ later

  unfoldable pub compile_condition : Condition N → List (Check N)
  unfolding push
  compile_condition c =
      push c.eq (λ e v. strict_eq v e)
        (push c.ne (λ e v. not (strict_eq v e))
          (push c.gt (number_check (λ a t. js.lt t a)) (
            push c.gte (number_check (λ a t. js.le t a)) (
              push c.lt (number_check js.lt) (
                push c.lte (number_check js.le)
                  (push c.one_of in_check (push c.like like_check [])))))))

  unfoldable pub compile_clause : Clause N → List (Check N)
  unfolding compile_condition
  compile_clause (bare value) = (λ v. strict_eq v value) ∷ []
  compile_clause (cond c) = compile_condition c

  -- `for (...) if (!checks[i](v)) return false;`
  unfoldable pub run_checks : List (Check N) → Check N
  run_checks [] v = true
  run_checks (check ∷ checks) v =
      let rest = run_checks checks v in if not (check v) then false else rest

  -- The loop over the columns of a compiled clause.
  unfoldable pub run_columns : List (Text × List (Check N)) → Row N → Bool
  unfolding run_checks
  run_columns [] row = true
  run_columns ((col, checks) ∷ columns) row =
      let rest = run_columns columns row in
      if not (run_checks checks (field row col)) then false else rest

  -- A clause of one column gets a closure of its own.
  unfoldable pub close_columns : List (Text × List (Check N)) → Row N → Bool
  unfolding run_columns
  close_columns ((col, checks) ∷ []) row = run_checks checks (field row col)
  close_columns columns row = run_columns columns row

  unfoldable pub compile_per_column : Where N → Row N → Bool
  unfolding close_columns compile_clause
  compile_per_column clause = close_columns (map (λ e. (e.0, compile_clause e.1)) clause)

  -- A missing `where` matches every row.
  unfoldable pub matches_where : Row N → Option (Where N) → Bool
  unfolding compile_per_column
  matches_where row none = true
  matches_where row (some clause) = compile_per_column clause row
