-- ===== src/Relational/Sql.antt =====
-- sql.ts: the statements of the SQL subset, from text to records. This file has the statement kinds
-- and the reads; the writes and the table definitions are in the children.
pub mod Patterns
pub mod Literals
pub mod Writes
pub mod Create
pub mod Refusals
use mathlib.Core.Option.{get_or}
use takyondb.Prelude.{
  ℕ, Bool, true, false, not, ◌||◌, List, [], ◌∷◌, map, Option, none, some, Result, ok, err,
  throw_if, ◌>>=◌, ◌>>◌, if◌then◌else◌, unsupported_statement, unsupported_select, unsupported_join,
  join_mismatch,
}
use takyondb.Js.Text.{Text, codes, text_beq}
use takyondb.Js.Strings.{trim, to_upper, to_lower, split_on, split_spaces}
use takyondb.Js.Regex.{Captures, capture, match_whole}
use takyondb.Js.Value.{Value, JsNumber, num, str}
use takyondb.Relational.Query.{Direction, asc, desc}
use takyondb.Relational.Sql.Patterns.{select_pattern, join_pattern}
use takyondb.Relational.Sql.Literals.{starts_quoted, drop_last, inner, digits_value}

pub data StatementKind : Type 0 where
  select insert update delete create : StatementKind

-- `parts[0] ?? ''`
unfoldable pub first_of : List Text → Text
first_of [] = []
first_of (p ∷ parts) = p

unfoldable pub classify_statement : Text → Result StatementKind
unfolding first_of
classify_statement sql =
    let head = to_upper (first_of (split_spaces false (trim sql))) in
    if text_beq head (codes "SELECT")
    then ok select
    else if text_beq head (codes "INSERT")
    then ok insert
    else if text_beq head (codes "UPDATE")
    then ok update
    else if text_beq head (codes "DELETE")
    then ok delete
    else if text_beq head (codes "CREATE")
    then ok create
    else err unsupported_statement

-- `string[] | '*'`
pub data Columns : Type 0 where
  star : Columns
  listed : List Text → Columns

unfoldable pub parse_columns : Text → Columns
parse_columns raw =
    let cols = trim raw in
    if text_beq cols (codes "*") then star else listed (map trim (split_on b',' cols))

unfoldable pub is_count_star : Columns → Bool
is_count_star (listed (c ∷ [])) = text_beq (to_upper c) (codes "COUNT(*)")
is_count_star _ = false

-- A group that the pattern always sets.
abbrev pub set_group : ℕ → Captures → Text
set_group i m = get_or (capture i m) []

-- `if (!m) throw ...`
unfoldable pub require_match : Option Captures → Result Captures → Result Captures
require_match none failed = failed
require_match (some m) failed = ok m

-- `Number(m[i])` of a group of digits, if the group is there
unfoldable pub parse_limit : Option Text → Option ℕ
parse_limit none = none
parse_limit (some digits) = some (digits_value 0 digits)

-- The direction: none without an ORDER BY, and ascending where the statement names none.
unfoldable pub parse_direction : Option Text → Option Text → Option Direction
parse_direction none none = none
parse_direction (some col) none = some asc
parse_direction order_col (some dir) =
    let named : Option Direction = some asc in
    if text_beq (to_lower dir) (codes "asc") then named else some desc

module _ {N : Type 0} ⦃js : JsNumber N⦄ where
  -- The literal of a WHERE in a SELECT: a doubled quote stays doubled.
  unfoldable pub parse_where_value : Option Text → Option (Value N)
  unfolding starts_quoted drop_last
  parse_where_value none = none
  parse_where_value (some raw) =
      let number : Option (Value N) = some (num (js.of_text raw)) in
      if starts_quoted raw then some (str (inner raw)) else number

pub record ParsedSelect (N : Type 0) : Type 0 where
  pub table : Text
  pub columns : Columns
  pub where_col : Option Text
  pub where_op : Option Text
  pub where_val : Option (Value N)
  pub order_col : Option Text
  pub order_dir : Option Direction
  pub limit : Option ℕ

pub record ParsedJoin (N : Type 0) : Type 0 where
  pub columns : Columns
  pub left : Text
  pub right : Text
  pub left_key : Text
  pub right_key : Text
  pub where_col : Option Text
  pub where_op : Option Text
  pub where_val : Option (Value N)
  pub limit : Option ℕ

module _ {N : Type 0} ⦃js : JsNumber N⦄ where
  unfoldable pub parse_select : Text → Result (ParsedSelect N)
  unfolding require_match
  parse_select sql = do
    m ← require_match (match_whole select_pattern (trim sql)) (err unsupported_select)
    ok (record {
      table = set_group 2 m;
      columns = parse_columns (set_group 1 m);
      where_col = capture 3 m;
      where_op = capture 4 m;
      where_val = parse_where_value (capture 5 m);
      order_col = capture 6 m;
      order_dir = parse_direction (capture 6 m) (capture 7 m);
      limit = parse_limit (capture 8 m);
    })

  -- The ON clause must name the two tables in the order of FROM and JOIN.
  unfoldable pub parse_join : Text → Result (ParsedJoin N)
  unfolding require_match
  parse_join sql = do
    m ← require_match (match_whole join_pattern (trim sql)) (err unsupported_join)
    throw_if
        (not (text_beq (to_lower (set_group 4 m)) (to_lower (set_group 2 m)))
          || not (text_beq (to_lower (set_group 6 m)) (to_lower (set_group 3 m))))
        join_mismatch
    ok (record {
      columns = parse_columns (set_group 1 m);
      left = set_group 2 m;
      right = set_group 3 m;
      left_key = set_group 5 m;
      right_key = set_group 7 m;
      where_col = capture 8 m;
      where_op = capture 9 m;
      where_val = parse_where_value (capture 10 m);
      limit = parse_limit (capture 11 m);
    })
