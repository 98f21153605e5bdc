-- ===== src/Relational/Sql/Create.antt =====
-- sql.ts: CREATE TABLE.
use takyondb.Prelude.{
  false, not, ◌&&◌, ◌||◌, List, [], ◌∷◌, Option, none, some, Result, ok, err, throw_if, ◌>>=◌, ◌>>◌,
  ◌==◌, length, unsupported_create, bad_column_def, unknown_column_type, no_columns,
}
use takyondb.Js.Text.{Text, codes}
use takyondb.Js.Dict.{Dict, get}
use takyondb.Js.Strings.{trim, to_upper, split_spaces, join_spaces}
use takyondb.Js.Regex.{Regex, match_whole, test_word, word, followed}
use takyondb.Js.Value.{undefined}
use takyondb.Relational.Column.{
  ColumnDef, RelationalType, bool, int8, int16, int32, int64, uint8, uint16, uint32, float32,
  float64, string, bytes, timestamp_ms,
}
use takyondb.Relational.Sql.{set_group, require_match}
use takyondb.Relational.Sql.Patterns.{create_pattern, spaces}
use takyondb.Relational.Sql.Literals.{split_list}
use takyondb.Relational.Sql.Writes.{map_result}

unfoldable pub column_types : Dict RelationalType
column_types =
    (codes "BOOL", bool)
    ∷ (codes "INT8", int8)
    ∷ (codes "INT16", int16)
    ∷ (codes "INT32", int32)
    ∷ (codes "INT64", int64)
    ∷ (codes "UINT8", uint8)
    ∷ (codes "UINT16", uint16)
    ∷ (codes "UINT32", uint32)
    ∷ (codes "FLOAT32", float32)
    ∷ (codes "FLOAT64", float64)
    ∷ (codes "STRING", string)
    ∷ (codes "BYTES", bytes)
    ∷ (codes "TIMESTAMP_MS", timestamp_ms)
    ∷ []

pub record ParsedCreate (N : Type 0) : Type 0 where
  pub table : Text
  pub columns : List (ColumnDef N)

-- `/\bFIRST\s+SECOND\b/`: the text tested is in upper case.
abbrev pub two_words : Text → Text → Regex
two_words first second = followed (word first) (followed spaces (word second))

unfoldable pub require_type : Option RelationalType → Result RelationalType
require_type none = err unknown_column_type
require_type (some type) = ok type

module _ {N : Type 0} where
  -- The words behind the name and the type give the flags.
  unfoldable pub flagged_column : Text → RelationalType → Text → ColumnDef N
  flagged_column name type rest =
      let primary_key = test_word (two_words (codes "PRIMARY") (codes "KEY")) false rest in
      let unique = test_word (word (codes "UNIQUE")) false rest || primary_key in
      let not_null = test_word (two_words (codes "NOT") (codes "NULL")) false rest in
      record {
        name = name;
        type = type;
        nullable = not primary_key && not not_null;
        primary_key = primary_key;
        unique = unique;
        default_value = undefined;
      }

  -- `parts.length < 2`
  unfoldable pub parse_column : List Text → Result (ColumnDef N)
  unfolding require_type flagged_column
  parse_column (name ∷ type_name ∷ flags) = do
    type ← require_type (get (to_upper type_name) column_types)
    ok (flagged_column name type (to_upper (join_spaces flags)))
  parse_column _ = err bad_column_def

  unfoldable pub parse_create_table : Text → Result (ParsedCreate N)
  unfolding require_match map_result parse_column
  parse_create_table sql = do
    m ← require_match (match_whole create_pattern (trim sql)) (err unsupported_create)
    items ← split_list (set_group 2 m)
    columns ← map_result (λ def. parse_column (split_spaces false (trim def))) items
    throw_if (length columns == 0) no_columns
    ok (record { table = set_group 1 m; columns = columns })
