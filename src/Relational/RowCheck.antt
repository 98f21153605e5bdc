-- ===== src/Relational/RowCheck.antt =====
-- codec.ts: the validator that every write calls.
use takyondb.Prelude.{
  ℕ, ◌-◌, ◌%◌, ◌^◌, ltb, Bool, true, false, ◌&&◌, not, List, [], ◌∷◌, Result, ok, throw_if, ◌>>◌,
  if◌then◌else◌, cannot_be_null, not_null, wrong_type, primary_key_required,
}
use takyondb.Js.Order.{ℤ, pos, negsuc}
use takyondb.Js.Value.{Value, Row, JsNumber, field, null, undefined, bool, num, str, bytes}
use takyondb.Relational.Column.{RelationalType}
use takyondb.Relational.Schema.{CompiledColumn, RelationalSchema}

-- `1 << (index % 32)`, a signed 32-bit integer: the bit of column 31 is the sign.
unfoldable pub null_bit : ℕ → ℤ
null_bit index =
    let mask = 2 ^ (index % 32) in
    if ltb mask (2 ^ 31) then pos mask else negsuc (2 ^ 32 - mask - 1)

module _ {N : Type 0} where
  -- `v === null || v === undefined`
  unfoldable pub is_nullish : Value N → Bool
  is_nullish null = true
  is_nullish undefined = true
  is_nullish _ = false

  -- `v !== undefined`
  unfoldable pub is_defined : Value N → Bool
  is_defined undefined = false
  is_defined _ = true

module _ {N : Type 0} ⦃js : JsNumber N⦄ where
  -- Whether a value is true in a test: not `null`, `undefined`, `false`, `''`, 0 or NaN.
  unfoldable pub truthy : Value N → Bool
  truthy null = false
  truthy undefined = false
  truthy (bool b) = b
  truthy (num a) = not (js.eq a (js.of_ℕ 0)) && js.eq a a
  truthy (str []) = false
  truthy (str (c ∷ s)) = true
  truthy (bytes _ _) = true

  -- The `switch` on the column's type.
  unfoldable pub has_type : RelationalType → Value N → Bool
  has_type RelationalType.bool (bool _) = true
  has_type RelationalType.bool _ = false
  has_type RelationalType.string (str _) = true
  has_type RelationalType.string _ = false
  has_type RelationalType.bytes (bytes _ _) = true
  has_type RelationalType.bytes _ = false
  has_type _ (num a) = js.is_finite a
  has_type _ _ = false

  -- One round of the loop.
  unfoldable pub validate_cell : CompiledColumn N → Value N → Result (Unit {0})
  unfolding is_nullish is_defined truthy has_type
  validate_cell col v =
      if is_nullish v
      then (do
        throw_if (not col.nullable && not (truthy col.default_value) && col.primary_key)
            cannot_be_null
        throw_if (not col.nullable && is_defined v) not_null
        ok tt)
      else throw_if (not (has_type col.type v)) wrong_type

  unfoldable pub validate_cells : List (CompiledColumn N) → Row N → Result (Unit {0})
  validate_cells [] row = ok tt
  validate_cells (col ∷ cols) row = do
    validate_cell col (field row col.name)
    validate_cells cols row

  -- `pk === null || pk === undefined || pk === ''`
  unfoldable pub is_missing_key : Value N → Bool
  is_missing_key null = true
  is_missing_key undefined = true
  is_missing_key (str []) = true
  is_missing_key _ = false

  unfoldable pub validate_row : RelationalSchema N → Row N → Result (Unit {0})
  unfolding validate_cells is_missing_key
  validate_row schema row = do
    validate_cells schema.columns row
    throw_if (is_missing_key (field row schema.primary_key)) primary_key_required
    ok tt
