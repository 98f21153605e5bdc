-- ===== src/Relational/Constraints.antt =====
-- constraints.ts, validator.ts and secondary_index.ts: the checks and the lookup by a full scan.
pub mod Checks
use takyondb.Prelude.{
  Bool, true, false, ◌&&◌, List, [], ◌∷◌, map, Option, none, some, Result, ok, err, throw_if, ◌>>=◌,
  ◌>>◌, if◌then◌else◌, unique_violation, foreign_key_violation,
}
use takyondb.Js.Text.{Text, text_beq}
use takyondb.Js.Value.{Value, Row, JsNumber, field, strict_eq, to_text}
use takyondb.Relational.RowCheck.{is_defined}
use takyondb.Relational.Filter.{Condition, cond}
use takyondb.Relational.Table.{RelationalTable, scan, find_by_pk}
use takyondb.Relational.Database.{RelationalDatabase, table}

module _ {N : Type 0} ⦃js : JsNumber N⦄ where
  -- `excludePk !== undefined && String(r[primaryKey]) === String(excludePk)`
  unfoldable pub is_excluded : Text → Value N → Row N → Bool
  is_excluded primary_key exclude_pk r =
      is_defined exclude_pk && text_beq (to_text (field r primary_key)) (to_text exclude_pk)

  -- The loop of `assertUnique`.
  unfoldable pub check_rows : Text → Text → Value N → Value N → List (Row N) → Result (Unit {0})
  unfolding is_excluded
  check_rows primary_key column value exclude_pk [] = ok tt
  check_rows primary_key column value exclude_pk (r ∷ rows) =
      let rest = check_rows primary_key column value exclude_pk rows in
      if is_excluded primary_key exclude_pk r
      then rest
      else if strict_eq (field r column) value
      then err unique_violation
      else rest

  unfoldable pub assert_unique : RelationalTable N → Text → Value N → Value N → Result (Unit {0})
  unfolding check_rows
  assert_unique t column value exclude_pk =
      check_rows t.schema.primary_key column value exclude_pk (scan t none)

  -- `if (!parent.findByPk(value)) throw ...`
  unfoldable pub require_row : Option (Row N) → Result (Unit {0})
  require_row none = err foreign_key_violation
  require_row (some row) = ok tt

  unfoldable pub assert_foreign_key : RelationalDatabase N → Text → Value N → Result (Unit {0})
  unfolding require_row
  assert_foreign_key db parent_table value = do
    parent ← table db parent_table
    found ← find_by_pk parent value
    require_row found

  -- `{ eq: value }`: an undefined value is no operand.
  unfoldable pub eq_condition : Value N → Condition N
  eq_condition value = record {
    eq = if is_defined value then some value else none;
    ne = none;
    gt = none;
    gte = none;
    lt = none;
    lte = none;
    one_of = none;
    like = none;
  }

  unfoldable pub lookup_by_column : RelationalTable N → Text → Value N → List Text
  unfolding eq_condition
  lookup_by_column t column value =
      map (λ r. to_text (field r t.schema.primary_key))
        (scan t (some ((column, cond (eq_condition value)) ∷ [])))
