-- ===== src/Tests/Statements.antt =====
-- The theorems on SQL statements at the table of users.
use takyondb.Prelude.{
  ℕ, ◌≡◌, refl, List, [], ◌∷◌, map, ok, length, some, ◌>>=◌, Option, subst, arith,
}
use takyondb.Js.Text.{Text, codes, text_dec}
use takyondb.Js.Dict.{get}
use takyondb.Js.Strings.{
  trim, trim_start, trim_end, is_space, to_upper, upper_unit, split_spaces, onto_first,
}
use takyondb.Js.Regex.{
  match_whole, match_regex, match_many, match_few, match_one, or_else, at_end, capture, word,
  same_letter, is_word, is_digit,
}
use takyondb.Js.Value.{str}
use takyondb.Relational.Table.{RelationalTable, scan}
use takyondb.Relational.Table.Invariant.{IsConsistent}
use takyondb.Relational.Table.Reachable.{here, next, inserted, Reach-IsConsistent}
use takyondb.Relational.Database.{RelationalDatabase, table, require_table, with_table}
use takyondb.Relational.Filter.{Where}
use takyondb.Relational.Sql.{StatementKind, classify_statement, first_of, require_match}
use takyondb.Relational.Sql.Patterns.{delete_pattern}
use takyondb.Relational.Sql.Literals.{split_list, parse_literal, starts_quoted, drop_last, unescape}
use takyondb.Relational.Sql.Literals.Quoted.{value_list, parse_literals-value_list}
use takyondb.Relational.Sql.Writes.{ParsedDelete, parse_delete, parse_write_value, map_result}
use takyondb.Relational.Executor
use takyondb.Relational.Selection.{single_where}
use takyondb.Relational.Executor.{execute_sql}
use takyondb.Relational.Executor.Delete.{unmatched, execute_sql-delete}
use takyondb.Relational.Executor.Invariant.{AllConsistent, execute_sql-AllConsistent}
use takyondb.Tests.Sample.{
  natural, program, users, user_columns, no_users-new, ada, one_user, ada_inserted,
}

abbrev pub one_table : RelationalDatabase ℕ
one_table = record { tables = (users, one_user) ∷ [] }

abbrev delete_paris : Text
delete_paris = codes "DELETE FROM users WHERE city = 'Paris';"

abbrev delete_plan : ParsedDelete ℕ
delete_plan = record {
  table = users;
  where_col = codes "city";
  where_op = codes "=";
  where_val = str (codes "Paris");
}

delete_paris-kind : classify_statement delete_paris ≡ ok StatementKind.delete
unfolding classify_statement first_of trim trim_start trim_end is_space to_upper upper_unit
    split_spaces onto_first text_dec program
delete_paris-kind = refl

delete_paris-plan : parse_delete delete_paris ≡ ok delete_plan
unfolding parse_delete parse_write_value require_match delete_pattern trim trim_start trim_end
    is_space match_whole match_regex match_many match_few match_one or_else at_end capture word
    same_letter is_word is_digit starts_quoted drop_last unescape
delete_paris-plan = refl

pub one_user-IsConsistent : IsConsistent one_user
one_user-IsConsistent =
    Reach-IsConsistent users user_columns no_users-new (next here (inserted ada ada ada_inserted))

abbrev pub paris_clause : Option (Where ℕ)
paris_clause = single_where (some (codes "city")) (some (codes "=")) (some (str (codes "Paris")))

execute_sql-delete_example :
    (t' : RelationalTable ℕ) × (execute_sql one_table delete_paris ≡ (
      with_table one_table users t',
      ok (Executor.deleted (length (scan one_user paris_clause))),
    ))
    × (t'.rows ≡ unmatched one_user.rows paris_clause)
    × IsConsistent t'
unfolding table require_table get text_dec program
execute_sql-delete_example =
    execute_sql-delete one_table delete_paris delete_plan one_user delete_paris-kind
      delete_paris-plan refl one_user-IsConsistent

one_table-AllConsistent : AllConsistent one_table
unfolding get
one_table-AllConsistent name t h = subst IsConsistent (ground arith) one_user-IsConsistent

execute_sql-AllConsistent_example : AllConsistent (execute_sql one_table delete_paris).0
execute_sql-AllConsistent_example =
    execute_sql-AllConsistent one_table one_table-AllConsistent delete_paris

abbrev texts : List Text
texts = codes "it's, well" ∷ [] ∷ codes "a'" ∷ []

parse_literals-value_list_example :
    (split_list (value_list texts) >>= map_result (parse_literal {N = ℕ})) ≡ ok (map str texts)
parse_literals-value_list_example = parse_literals-value_list texts
