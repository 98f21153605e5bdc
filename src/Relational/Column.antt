-- ===== src/Relational/Column.antt =====
-- types.ts and column.ts: the column types, their widths, and the check of one definition.
use takyondb.Prelude.{
  ℕ, Bool, true, false, ◌&&◌, ◌||◌, not, [], ◌∷◌, leb, ltb, ◌==◌, length, Result, ok, throw_if,
  ◌>>◌, invalid_column_name, column_name_too_long, nullable_primary_key,
}
use takyondb.Js.Text.{Text}
use takyondb.Js.Value.{Value}

pub data RelationalType : Type 0 where
  bool int8 int16 int32 int64 uint8 uint16 uint32 : RelationalType
  float32 float64 string bytes timestamp_ms : RelationalType

unfoldable pub relational_type_size : RelationalType → ℕ
relational_type_size bool = 1
relational_type_size int8 = 1
relational_type_size uint8 = 1
relational_type_size int16 = 2
relational_type_size uint16 = 2
relational_type_size int32 = 4
relational_type_size uint32 = 4
relational_type_size float32 = 4
relational_type_size int64 = 8
relational_type_size float64 = 8
relational_type_size timestamp_ms = 8
relational_type_size string = 8
relational_type_size bytes = 8

unfoldable pub is_variable_type : RelationalType → Bool
is_variable_type string = true
is_variable_type bytes = true
is_variable_type _ = false

-- A flag that the definition leaves out is `false`, and a missing default is `undefined`.
pub record ColumnDef (N : Type 0) : Type 0 where
  pub name : Text
  pub type : RelationalType
  pub nullable : Bool
  pub primary_key : Bool
  pub unique : Bool
  pub default_value : Value N

-- `[a-zA-Z_]` and `[a-zA-Z0-9_]`
unfoldable pub is_name_start : ℕ → Bool
is_name_start c = (leb b'a' c && leb c b'z') || (leb b'A' c && leb c b'Z') || c == b'_'

unfoldable pub is_name_char : ℕ → Bool
unfolding is_name_start
is_name_char c = is_name_start c || (leb b'0' c && leb c b'9')

unfoldable pub all_name_chars : Text → Bool
unfolding is_name_char
all_name_chars [] = true
all_name_chars (c ∷ s) = is_name_char c && all_name_chars s

-- `/^[a-zA-Z_][a-zA-Z0-9_]*$/.test(name)`
unfoldable pub is_name : Text → Bool
unfolding all_name_chars is_name_start
is_name [] = false
is_name (c ∷ s) = is_name_start c && all_name_chars s

module _ {N : Type 0} where
  unfoldable pub validate_column : ColumnDef N → Result (Unit {0})
  validate_column col = do
    throw_if (not (is_name col.name)) invalid_column_name
    throw_if (ltb 64 (length col.name)) column_name_too_long
    throw_if (col.primary_key && col.nullable) nullable_primary_key
    ok tt
