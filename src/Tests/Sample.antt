-- ===== src/Tests/Sample.antt =====
-- Natural numbers in place of the numbers of the language, and a table of users.
use takyondb.Prelude.{
  ℕ, ◌+◌, ◌-◌, ◌*◌, ◌/◌, ◌≡◌, refl, true, false, List, [], ◌∷◌, ok, ltb, leb, ◌==◌, ==_iff,
  Bool-cases, sym, ◌∙◌, some,
}
use takyondb.Js.Text.{Text, codes, text_dec}
use takyondb.Js.TextSet.{contains, add, remove}
use takyondb.Js.Dict.{Dict, get, has, put, delete, spread}
use takyondb.Js.Value.{Row, JsNumber, num, str, undefined, field, to_text, decimal_byte, strict_eq}
use takyondb.Relational.Column.{
  ColumnDef, uint32, string, relational_type_size, is_name_start, is_name_char, is_name,
  validate_column,
}
use takyondb.Relational.Schema.{
  CompiledColumn, RelationalSchema, compile_columns, find_primary_key, index_by_name,
  compile_schema,
}
use takyondb.Relational.Keys.{encode_pk}
use takyondb.Relational.RowCheck.{
  is_nullish, is_defined, has_type, validate_cell, validate_cells, is_missing_key, validate_row,
}
use takyondb.Relational.Filter.Membership.{EqLaws}
use takyondb.Relational.Table
use takyondb.Relational.Table.{
  RelationalTable, Secondary, index_entry, shrink, deindex_entry, index_row, deindex_row,
  make_secondary, new_table, check_same_key, update_row, update_found, update, delete_found,
  delete_row, find_by_pk,
}

-- The number of decimal digits.
abbrev decimal : ℕ → Text → ℕ
decimal n [] = n
decimal n (c ∷ digits) = decimal (10 * n + (c - 48)) digits

instance abbrev pub natural : JsNumber ℕ
natural = record {
  eq = ◌==◌;
  lt = ltb;
  le = leb;
  is_finite = λ _. true;
  add = ◌+◌;
  sub = ◌-◌;
  div = ◌/◌;
  of_ℕ = λ n. n;
  to_text = decimal_byte;
  of_text = decimal 0;
}

pub natural-EqLaws : EqLaws natural
natural-EqLaws = record {
  eq_sym = λ a b h. (==_iff b a).1 (sym ((==_iff a b).0 h));
  eq_trans = λ a b c h k. (==_iff a c).1 ((==_iff a b).0 h ∙ (==_iff b c).0 k);
}

unfoldable pub program : Unit {0}
unfolding Bool-cases text_dec contains add remove get has put delete spread field to_text
    decimal_byte strict_eq relational_type_size is_name_start is_name_char is_name validate_column
    compile_columns find_primary_key index_by_name compile_schema encode_pk is_nullish is_defined
    has_type validate_cell validate_cells is_missing_key validate_row index_entry shrink
    deindex_entry index_row deindex_row make_secondary new_table Table.insert check_same_key
    update_row update_found update delete_found delete_row find_by_pk
program = tt

abbrev pub id_column : ColumnDef ℕ
id_column = record {
  name = codes "id";
  type = uint32;
  nullable = false;
  primary_key = true;
  unique = false;
  default_value = undefined;
}

abbrev pub city_column : ColumnDef ℕ
city_column = record {
  name = codes "city";
  type = string;
  nullable = true;
  primary_key = false;
  unique = true;
  default_value = undefined;
}

abbrev pub users : Text
users = codes "users"

abbrev pub user_columns : List (ColumnDef ℕ)
user_columns = id_column ∷ city_column ∷ []

abbrev pub id : CompiledColumn ℕ
id = record { def = id_column; offset = 4; size = 4 }

abbrev pub city : CompiledColumn ℕ
city = record { def = city_column; offset = 8; size = 8 }

abbrev pub user_schema : RelationalSchema ℕ
user_schema = record {
  table_name = users;
  columns = id ∷ city ∷ [];
  total_size = 16;
  primary_key = codes "id";
  by_name = (codes "id", id) ∷ (codes "city", city) ∷ [];
}

pub user_schema-compiles : compile_schema users user_columns ≡ ok user_schema
unfolding program
user_schema-compiles = refl

-- The secondary maps of `id` and of `city`.
abbrev pub secondary_of : Secondary → Secondary → Dict Secondary
secondary_of ids cities = (codes "id", ids) ∷ (codes "city", cities) ∷ []

abbrev pub no_users : RelationalTable ℕ
no_users = record { schema = user_schema; rows = []; secondary = secondary_of [] [] }

pub no_users-new : new_table users user_columns ≡ ok no_users
unfolding program
no_users-new = refl

abbrev pub ada : Row ℕ
ada = (codes "id", num 7) ∷ (codes "city", str (codes "Paris")) ∷ []

abbrev pub one_user : RelationalTable ℕ
one_user = record no_users {
  rows = (codes "7", ada) ∷ [];
  secondary =
      secondary_of ((codes "7", codes "7" ∷ []) ∷ []) ((codes "Paris", codes "7" ∷ []) ∷ []);
}

pub ada_inserted : Table.insert no_users ada ≡ ok (one_user, ada)
unfolding program
ada_inserted = refl

abbrev pub move : Row ℕ
move = (codes "city", str (codes "Lyon")) ∷ []

abbrev pub moved : Row ℕ
moved = (codes "id", num 7) ∷ (codes "city", str (codes "Lyon")) ∷ []

abbrev pub moved_user : RelationalTable ℕ
moved_user = record no_users {
  rows = (codes "7", moved) ∷ [];
  secondary = secondary_of ((codes "7", codes "7" ∷ []) ∷ []) ((codes "Lyon", codes "7" ∷ []) ∷ []);
}

pub ada_moved : update one_user (num 7) move ≡ ok (moved_user, some moved)
unfolding program
ada_moved = refl

pub ada_deleted : delete_row moved_user (num 7) ≡ ok (no_users, true)
unfolding program
ada_deleted = refl
