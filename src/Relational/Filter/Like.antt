-- ===== src/Relational/Filter/Like.antt =====
-- filter.ts, `likeToRegExp`: a LIKE pattern as an anchored regular expression, and what the
-- expressions that it builds match.
pub mod Escape
pub mod Matches
pub mod Sql
use takyondb.Prelude.{
  ℕ, Bool, true, false, ◌&&◌, ◌||◌, not, List, [], ◌∷◌, ◌++◌, Option, none, some, ◌==◌,
  if◌then◌else◌,
}
use mathlib.Core.Option
use takyondb.Js.Text.{Text}

-- `/[.*+?^${}()|[\]\\]/`
unfoldable pub is_meta : ℕ → Bool
is_meta c =
    c == b'.'
    || c == b'*'
    || c == b'+'
    || c == b'?'
    || c == b'^'
    || c == b'$'
    || c == b'{'
    || c == b'}'
    || c == b'('
    || c == b')'
    || c == b'|'
    || c == b'['
    || c == b']'
    || c == 92

-- What one character of the pattern adds to `out`.
unfoldable pub like_piece : ℕ → Text
unfolding is_meta
like_piece c =
    if c == b'%'
    then b'.' ∷ b'*' ∷ []
    else if c == b'_'
    then b'.' ∷ []
    else if is_meta c
    then 92 ∷ c ∷ []
    else c ∷ []

-- The text between `^` and `$`.
unfoldable pub like_source : Text → Text
unfolding like_piece
like_source [] = []
like_source (c ∷ pattern) = like_piece c ++ like_source pattern

-- The terms of an expression that the language reads in such a text.
pub data Token : Type 0 where
  -- `.*`, `.`, and a character that stands for itself
  any_run : Token
  any_one : Token
  literal : ℕ → Token

-- How the language reads the terms. `none` is a use of another construct.
unfoldable pub read_tokens : Text → Option (List Token)
unfolding is_meta
read_tokens [] = some []
read_tokens (c ∷ []) =
    if c == b'.' then some (any_one ∷ []) else if is_meta c then none else some (literal c ∷ [])
read_tokens (c ∷ d ∷ s) =
    let one = read_tokens (d ∷ s) in
    let two = read_tokens s in
    if c == b'.'
    then (if d == b'*'
        then Option.map (λ ts. any_run ∷ ts) two
        else Option.map (λ ts. any_one ∷ ts) one)
    else if c == 92
    then Option.map (λ ts. literal d ∷ ts) two
    else if is_meta c
    then none
    else Option.map (λ ts. literal c ∷ ts) one

-- `.` matches any code unit but a line terminator.
unfoldable pub is_line_terminator : ℕ → Bool
is_line_terminator c = c == 10 || c == 13 || c == 0x2028 || c == 0x2029

-- Some suffix of the text, reached over characters that `.` matches, passes the test.
unfoldable pub after_run : (Text → Bool) → Text → Bool
unfolding is_line_terminator
after_run rest [] = rest []
after_run rest (c ∷ s) = rest (c ∷ s) || (not (is_line_terminator c) && after_run rest s)

-- `re.test(s)` for the anchored expression with these terms.
unfoldable pub test_tokens : List Token → Text → Bool
unfolding after_run
test_tokens [] [] = true
test_tokens [] (c ∷ s) = false
test_tokens (any_run ∷ ts) s = after_run (test_tokens ts) s
test_tokens (any_one ∷ ts) [] = false
test_tokens (any_one ∷ ts) (c ∷ s) = not (is_line_terminator c) && test_tokens ts s
test_tokens (literal d ∷ ts) [] = false
test_tokens (literal d ∷ ts) (c ∷ s) = c == d && test_tokens ts s

unfoldable pub test_read : Option (List Token) → Text → Bool
unfolding test_tokens
test_read none s = false
test_read (some ts) s = test_tokens ts s

-- The predicate that a `like` operand compiles to, on a text cell.
unfoldable pub like_test : Text → Text → Bool
unfolding like_source read_tokens test_read
like_test pattern s = test_read (read_tokens (like_source pattern)) s
