-- ===== src/Tests/Updates.antt =====
-- The theorem on UPDATE at the table of users.
use takyondb.Prelude.{ℕ, ◌≡◌, refl, [], ◌∷◌, ok, Result}
use takyondb.Js.Text.{Text, codes, text_dec}
use takyondb.Js.Dict.{get}
use takyondb.Js.Value.{str}
use takyondb.Js.Strings.{
  trim, trim_start, trim_end, is_space, to_upper, upper_unit, split_spaces, onto_first, split_on,
}
use takyondb.Js.Regex.{
  match_whole, match_regex, match_many, match_few, match_one, or_else, at_end, capture, word,
  same_letter, is_word, is_digit,
}
use takyondb.Relational.Filter.Like.{is_line_terminator}
use takyondb.Relational.Table.{RelationalTable}
use takyondb.Relational.Database.{table, require_table}
use takyondb.Relational.Sql.{StatementKind, classify_statement, first_of, require_match}
use takyondb.Relational.Sql.Patterns.{update_pattern}
use takyondb.Relational.Sql.Literals.{split_list, parse_literal, starts_quoted, drop_last, unescape}
use takyondb.Relational.Sql.Writes.{
  ParsedUpdate, parse_update, parse_write_value, parse_assignment, map_result,
}
use takyondb.Relational.Executor
use takyondb.Relational.Executor.{execute_sql, writes, build_patch}
use takyondb.Relational.Executor.Update.{UpdateOutcome, execute_sql-update}
use takyondb.Tests.Sample.{natural, program, users, one_user}
use takyondb.Tests.Statements.{one_table, paris_clause, one_user-IsConsistent}

abbrev update_paris : Text
update_paris = codes "UPDATE users SET city = 'Lyon' WHERE city = 'Paris';"

abbrev update_plan : ParsedUpdate ℕ
update_plan = record {
  table = users;
  sets = record { column = codes "city"; value = str (codes "Lyon") } ∷ [];
  where_col = codes "city";
  where_op = codes "=";
  where_val = str (codes "Paris");
}

update_paris-kind : classify_statement update_paris ≡ ok StatementKind.update
unfolding classify_statement first_of trim trim_start trim_end is_space to_upper upper_unit
    split_spaces onto_first text_dec program
update_paris-kind = refl

update_paris-plan : parse_update update_paris ≡ ok update_plan
unfolding parse_update parse_write_value parse_assignment map_result require_match update_pattern
    trim trim_start trim_end is_space match_whole match_regex match_many match_few match_one or_else
    at_end capture word same_letter is_word is_digit split_list parse_literal starts_quoted
    drop_last unescape is_line_terminator split_on
update_paris-plan = refl

execute_sql-update_example :
    (out : RelationalTable ℕ × Result ℕ) × (execute_sql one_table update_paris
      ≡ writes one_table users Executor.updated out)
    × UpdateOutcome paris_clause (build_patch [] update_plan.sets) [] one_user.rows 0 out
unfolding table require_table get text_dec program
execute_sql-update_example =
    execute_sql-update one_table update_paris update_plan one_user update_paris-kind
      update_paris-plan refl one_user-IsConsistent
