-- ===== src/Relational/Sql/Writes.antt =====
-- sql.ts: INSERT, UPDATE and DELETE.
use takyondb.Prelude.{
  not, ◌||◌, List, [], ◌∷◌, map, Result, ok, err, throw_if, ◌>>=◌, ◌>>◌, ◌==◌, length,
  if◌then◌else◌, unsupported_insert, unsupported_update, unsupported_delete, count_mismatch,
  bad_assignment, empty_set,
}
use takyondb.Js.Text.{Text}
use takyondb.Js.Strings.{trim, split_on}
use takyondb.Js.Regex.{match_whole}
use takyondb.Js.Value.{Value, JsNumber, num, str}
use takyondb.Relational.Sql.{set_group, require_match}
use takyondb.Relational.Sql.Patterns.{insert_pattern, update_pattern, delete_pattern}
use takyondb.Relational.Sql.Literals.{
  split_list, parse_literal, starts_quoted, drop_last, inner, unescape,
}

pub record ParsedInsert (N : Type 0) : Type 0 where
  pub table : Text
  pub columns : List Text
  pub values : List (Value N)

pub record Assignment (N : Type 0) : Type 0 where
  pub column : Text
  pub value : Value N

pub record ParsedUpdate (N : Type 0) : Type 0 where
  pub table : Text
  pub sets : List (Assignment N)
  pub where_col : Text
  pub where_op : Text
  pub where_val : Value N

pub record ParsedDelete (N : Type 0) : Type 0 where
  pub table : Text
  pub where_col : Text
  pub where_op : Text
  pub where_val : Value N

-- `items.map(parse)`, where the first item that throws ends it
unfoldable pub map_result {ℓ κ} :
    {A : Type ℓ} {B : Type κ} → (A → Result B) → List A → Result (List B)
map_result parse [] = ok []
map_result parse (x ∷ xs) = do y ← parse x; ys ← map_result parse xs; ok (y ∷ ys)

module _ {N : Type 0} ⦃js : JsNumber N⦄ where
  -- The literal of the WHERE of a write: a doubled quote is one quote.
  unfoldable pub parse_write_value : Text → Value N
  unfolding starts_quoted drop_last unescape
  parse_write_value raw =
      if starts_quoted raw then str (unescape (inner raw)) else num (js.of_text raw)

  unfoldable pub parse_insert : Text → Result (ParsedInsert N)
  unfolding require_match map_result
  parse_insert sql = do
    m ← require_match (match_whole insert_pattern (trim sql)) (err unsupported_insert)
    columns ← split_list (set_group 2 m)
    items ← split_list (set_group 3 m)
    values ← map_result parse_literal items
    throw_if (length columns == 0 || not (length columns == length values)) count_mismatch
    ok (record { table = set_group 1 m; columns = map trim columns; values = values })

  -- `parts.length !== 2`
  unfoldable pub parse_assignment : List Text → Result (Assignment N)
  parse_assignment (name ∷ literal ∷ []) = do
    v ← parse_literal literal
    ok (record { column = trim name; value = v })
  parse_assignment _ = err bad_assignment

  unfoldable pub parse_update : Text → Result (ParsedUpdate N)
  unfolding require_match map_result parse_assignment parse_write_value
  parse_update sql = do
    m ← require_match (match_whole update_pattern (trim sql)) (err unsupported_update)
    items ← split_list (set_group 2 m)
    sets ← map_result (λ assign. parse_assignment (split_on b'=' assign)) items
    throw_if (length sets == 0) empty_set
    ok (record {
      table = set_group 1 m;
      sets = sets;
      where_col = set_group 3 m;
      where_op = set_group 4 m;
      where_val = parse_write_value (set_group 5 m);
    })

  unfoldable pub parse_delete : Text → Result (ParsedDelete N)
  unfolding require_match parse_write_value
  parse_delete sql = do
    m ← require_match (match_whole delete_pattern (trim sql)) (err unsupported_delete)
    ok (record {
      table = set_group 1 m;
      where_col = set_group 2 m;
      where_op = set_group 3 m;
      where_val = parse_write_value (set_group 4 m);
    })
