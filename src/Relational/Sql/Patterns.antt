-- ===== src/Relational/Sql/Patterns.antt =====
-- sql.ts: the regular expressions of the statements.
use takyondb.Prelude.{ℕ, Bool, not, List, [], ◌∷◌, ◌==◌}
use takyondb.Js.Text.{codes}
use takyondb.Js.Strings.{is_space}
use takyondb.Js.Regex.{
  Regex, nothing, one, many, few, followed, either, maybe, group, is_word, word,
}
use takyondb.Relational.Filter.Like.{is_line_terminator}
use takyondb.Relational.Sql.Literals.{digits, decimal, quote}

abbrev pub in_order : List Regex → Regex
in_order [] = nothing
in_order (r ∷ rs) = followed r (in_order rs)

abbrev char : ℕ → Regex
char u = one (λ c. c == u)

-- `\s+`, `\s*` and `\s*;?`
abbrev pub spaces : Regex
spaces = followed (one is_space) (many is_space)

abbrev gap : Regex
gap = many is_space

abbrev closing : Regex
closing = followed gap (maybe (char b';'))

-- `(\w+)`
abbrev name_group : ℕ → Regex
name_group i = group i (followed (one is_word) (many is_word))

-- `(.+?)`
abbrev lazy_group : ℕ → Regex
lazy_group i =
    let dot : ℕ → Bool = λ c. not (is_line_terminator c) in group i (followed (one dot) (few dot))

-- `([^)]+)`
abbrev paren_group : ℕ → Regex
paren_group i =
    let body : ℕ → Bool = λ c. not (c == b')') in group i (followed (one body) (many body))

-- `(=|!=|>=|<=|>|<)`
abbrev operator_group : ℕ → Regex
operator_group i = group i (
    either (char b'=') (
      either (followed (char b'!') (char b'=')) (
        either (followed (char b'>') (char b'='))
          (either (followed (char b'<') (char b'=')) (either (char b'>') (char b'<'))))))

-- `('[^']*'|\d+(?:\.\d+)?)`
abbrev literal_group : ℕ → Regex
literal_group i =
    group i
      (either (in_order (char quote ∷ many (λ c. not (c == quote)) ∷ char quote ∷ [])) decimal)

-- `\s+WHERE\s+(\w+)\s*(op)\s*(literal)` with the groups from `i` on
abbrev where_part : ℕ → ℕ → ℕ → Regex
where_part i j k = in_order (
    spaces
    ∷ word (codes "WHERE")
    ∷ spaces
    ∷ name_group i
    ∷ gap
    ∷ operator_group j
    ∷ gap
    ∷ literal_group k
    ∷ [])

abbrev limit_part : ℕ → Regex
limit_part i = in_order (spaces ∷ word (codes "LIMIT") ∷ spaces ∷ group i digits ∷ [])

abbrev order_part : Regex
order_part = in_order (
    spaces
    ∷ word (codes "ORDER")
    ∷ spaces
    ∷ word (codes "BY")
    ∷ spaces
    ∷ name_group 6
    ∷ maybe (followed spaces (group 7 (either (word (codes "ASC")) (word (codes "DESC")))))
    ∷ [])

unfoldable pub select_pattern : Regex
select_pattern = in_order (
    word (codes "SELECT")
    ∷ spaces
    ∷ lazy_group 1
    ∷ spaces
    ∷ word (codes "FROM")
    ∷ spaces
    ∷ name_group 2
    ∷ maybe (where_part 3 4 5)
    ∷ maybe order_part
    ∷ maybe (limit_part 8)
    ∷ closing
    ∷ [])

unfoldable pub insert_pattern : Regex
insert_pattern = in_order (
    word (codes "INSERT")
    ∷ spaces
    ∷ word (codes "INTO")
    ∷ spaces
    ∷ name_group 1
    ∷ gap
    ∷ char b'('
    ∷ paren_group 2
    ∷ char b')'
    ∷ spaces
    ∷ word (codes "VALUES")
    ∷ gap
    ∷ char b'('
    ∷ paren_group 3
    ∷ char b')'
    ∷ closing
    ∷ [])

unfoldable pub update_pattern : Regex
update_pattern = in_order (
    word (codes "UPDATE")
    ∷ spaces
    ∷ name_group 1
    ∷ spaces
    ∷ word (codes "SET")
    ∷ spaces
    ∷ lazy_group 2
    ∷ where_part 3 4 5
    ∷ closing
    ∷ [])

unfoldable pub delete_pattern : Regex
delete_pattern = in_order (
    word (codes "DELETE")
    ∷ spaces
    ∷ word (codes "FROM")
    ∷ spaces
    ∷ name_group 1
    ∷ where_part 2 3 4
    ∷ closing
    ∷ [])

unfoldable pub create_pattern : Regex
create_pattern = in_order (
    word (codes "CREATE")
    ∷ spaces
    ∷ word (codes "TABLE")
    ∷ spaces
    ∷ name_group 1
    ∷ gap
    ∷ char b'('
    ∷ paren_group 2
    ∷ char b')'
    ∷ closing
    ∷ [])

unfoldable pub join_pattern : Regex
join_pattern = in_order (
    word (codes "SELECT")
    ∷ spaces
    ∷ lazy_group 1
    ∷ spaces
    ∷ word (codes "FROM")
    ∷ spaces
    ∷ name_group 2
    ∷ spaces
    ∷ word (codes "JOIN")
    ∷ spaces
    ∷ name_group 3
    ∷ spaces
    ∷ word (codes "ON")
    ∷ spaces
    ∷ name_group 4
    ∷ char b'.'
    ∷ name_group 5
    ∷ gap
    ∷ char b'='
    ∷ gap
    ∷ name_group 6
    ∷ char b'.'
    ∷ name_group 7
    ∷ maybe (where_part 8 9 10)
    ∷ maybe (limit_part 11)
    ∷ closing
    ∷ [])
