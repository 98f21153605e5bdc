-- ===== src/Tests/Inserts.antt =====
-- The theorems on INSERT and SELECT, and on a text that does not parse, at the table of users.
use takyondb.Prelude.{
  ℕ, ◌≡◌, refl, List, [], ◌∷◌, ◌++◌, none, some, ok, err, Result, count_mismatch, if◌then◌else◌,
}
use takyondb.Js.Text.{Text, codes, text_dec}
use takyondb.Js.Dict.{get}
use takyondb.Js.Value.{Row, num, str}
use takyondb.Js.Strings.{
  trim, trim_start, trim_end, is_space, to_upper, upper_unit, split_spaces, onto_first,
}
use takyondb.Js.Regex.{
  match_whole, match_regex, match_many, match_few, match_one, or_else, at_end, capture, word,
  same_letter, is_word, is_digit, test_word,
}
use takyondb.Relational.Filter.{matches_where}
use takyondb.Relational.Filter.Like.{is_line_terminator}
use takyondb.Relational.Database.{RelationalDatabase, table, require_table, with_table}
use takyondb.Relational.Sql.{
  StatementKind, classify_statement, first_of, require_match, ParsedSelect, parse_select, star,
  parse_columns, parse_where_value, parse_direction, parse_limit,
}
use takyondb.Relational.Sql.Patterns.{insert_pattern, select_pattern}
use takyondb.Relational.Sql.Literals.{split_list, parse_literal, starts_quoted, drop_last, unescape}
use takyondb.Relational.Sql.Writes.{ParsedInsert, parse_insert, map_result}
use takyondb.Relational.Executor
use takyondb.Relational.Executor.{
  SqlResult, execute_sql, execute_kind, or_throw, run_insert, build_row, has_join,
}
use takyondb.Relational.Executor.Refused.{no_insert, execute_sql-IsUnparsed}
use takyondb.Relational.ErrorNames.{error_class, query_error}
use takyondb.Relational.Executor.Insert.{IsPlain, where_of, select-insert}
use takyondb.Tests.Sample.{natural, program, users, one_user}
use takyondb.Tests.Statements.{one_table}

abbrev insert_bob : Text
insert_bob = codes "INSERT INTO users (id, city) VALUES (9, 'Oslo');"

abbrev insert_plan : ParsedInsert ℕ
insert_plan = record {
  table = users;
  columns = codes "id" ∷ codes "city" ∷ [];
  values = num 9 ∷ str (codes "Oslo") ∷ [];
}

abbrev in_oslo : Text
in_oslo = codes "SELECT * FROM users WHERE city = 'Oslo'"

abbrev oslo_plan : ParsedSelect ℕ
oslo_plan = record {
  table = users;
  columns = star;
  where_col = some (codes "city");
  where_op = some (codes "=");
  where_val = some (str (codes "Oslo"));
  order_col = none;
  order_dir = none;
  limit = none;
}

insert_bob-kind : classify_statement insert_bob ≡ ok StatementKind.insert
unfolding classify_statement first_of trim trim_start trim_end is_space to_upper upper_unit
    split_spaces onto_first text_dec program
insert_bob-kind = refl

insert_bob-plan : parse_insert insert_bob ≡ ok insert_plan
unfolding parse_insert map_result require_match insert_pattern trim trim_start trim_end is_space
    match_whole match_regex match_many match_few match_one or_else at_end capture word same_letter
    is_word is_digit split_list parse_literal starts_quoted drop_last unescape is_line_terminator
    text_dec program to_upper
insert_bob-plan = refl

in_oslo-IsPlain : IsPlain in_oslo oslo_plan
unfolding classify_statement first_of trim trim_start trim_end is_space to_upper upper_unit
    split_spaces onto_first text_dec program has_join test_word parse_select require_match
    select_pattern match_whole match_regex match_many match_few match_one or_else at_end capture
    word same_letter is_word is_digit is_line_terminator parse_columns parse_where_value
    parse_direction parse_limit starts_quoted drop_last unescape
in_oslo-IsPlain = record {
  kind = refl;
  alone = refl;
  parsed = refl;
  whole = refl;
  unordered = refl;
  unlimited = refl;
}

abbrev with_bob : RelationalDatabase ℕ × Result (SqlResult ℕ)
with_bob = execute_sql one_table insert_bob

with_bob-returns : with_bob ≡ (with_bob.0, ok (Executor.inserted 1))
unfolding execute_sql execute_kind or_throw run_insert build_row table require_table with_table
    parse_insert map_result require_match insert_pattern trim trim_start trim_end is_space
    match_whole match_regex match_many match_few match_one or_else at_end capture word same_letter
    is_word is_digit split_list parse_literal starts_quoted drop_last unescape is_line_terminator
    to_upper classify_statement first_of upper_unit split_spaces onto_first text_dec program
with_bob-returns = refl

select-insert_example :
    (◌≡◌ {A = SqlResult ℕ} (Executor.inserted 1) (Executor.inserted 1))
    × ((rows : List (Row ℕ)) × (execute_sql one_table in_oslo
          ≡ (one_table, ok (Executor.selected rows)))
        × (execute_sql with_bob.0 in_oslo ≡ (
          with_bob.0,
          ok (
              Executor.selected (
                rows
                ++ (if matches_where
                      (build_row [] insert_plan.columns insert_plan.values)
                      (where_of oslo_plan)
                    then build_row [] insert_plan.columns insert_plan.values ∷ []
                    else []))),
        )))
unfolding table require_table get text_dec program
select-insert_example =
    select-insert one_table insert_bob in_oslo insert_plan oslo_plan one_user insert_bob-kind
      insert_bob-plan refl in_oslo-IsPlain refl with_bob-returns

abbrev too_many : Text
too_many = codes "INSERT INTO users (id) VALUES (9, 'Oslo')"

too_many-kind : classify_statement too_many ≡ ok StatementKind.insert
unfolding classify_statement first_of trim trim_start trim_end is_space to_upper upper_unit
    split_spaces onto_first text_dec program
too_many-kind = refl

too_many-refused : parse_insert {N = ℕ} too_many ≡ err count_mismatch
unfolding parse_insert map_result require_match insert_pattern trim trim_start trim_end is_space
    match_whole match_regex match_many match_few match_one or_else at_end capture word same_letter
    is_word is_digit split_list parse_literal starts_quoted drop_last unescape is_line_terminator
    text_dec program to_upper
too_many-refused = refl

execute_sql-IsUnparsed_example :
    (execute_sql one_table too_many ≡ (one_table, err count_mismatch))
    × (error_class count_mismatch ≡ some query_error)
execute_sql-IsUnparsed_example =
    execute_sql-IsUnparsed one_table too_many count_mismatch
      (no_insert too_many-kind too_many-refused)
