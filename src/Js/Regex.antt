-- ===== src/Js/Regex.antt =====
-- The part of the language's regular expressions that the SQL parser uses: a backtracking matcher
-- with captures. Repetition is of one character class, greedy or lazy.
use takyondb.Prelude.{
  ℕ, ◌+◌, ◌-◌, Bool, true, false, not, ◌&&◌, ◌||◌, List, [], ◌∷◌, Option, none, some, leb, ◌==◌,
  length, take, if◌then◌else◌,
}
use takyondb.Js.Text.{Text}

pub data Regex : Type 0 where
  nothing : Regex
  one : (ℕ → Bool) → Regex
  -- `[..]*` and `[..]*?`
  many few : (ℕ → Bool) → Regex
  followed : Regex → Regex → Regex
  either : Regex → Regex → Regex
  -- `(..)?`
  maybe : Regex → Regex
  -- The group of this number.
  group : ℕ → Regex → Regex

abbrev pub Captures : Type 0
Captures = List (ℕ × Text)

-- The last capture of a group; `none` is `undefined`.
unfoldable pub capture : ℕ → Captures → Option Text
capture i [] = none
capture i ((j, t) ∷ m) = let rest = capture i m in if j == i then some t else rest

abbrev pub Goal : Type 0
Goal = Text → Captures → Option Captures

-- The second way, where the first does not lead to a match.
unfoldable pub or_else : Option Captures → Option Captures → Option Captures
or_else (some m) other = some m
or_else none other = other

unfoldable pub match_many : (ℕ → Bool) → Goal → Goal
unfolding or_else
match_many p goal [] m = goal [] m
match_many p goal (c ∷ s) m =
    let longer = match_many p goal s m in
    if p c then or_else longer (goal (c ∷ s) m) else goal (c ∷ s) m

unfoldable pub match_few : (ℕ → Bool) → Goal → Goal
unfolding or_else
match_few p goal [] m = goal [] m
match_few p goal (c ∷ s) m =
    let longer = match_few p goal s m in or_else (goal (c ∷ s) m) (if p c then longer else none)

unfoldable pub match_one : (ℕ → Bool) → Goal → Goal
match_one p goal [] m = none
match_one p goal (c ∷ s) m = if p c then goal s m else none

unfoldable pub match_regex : Regex → Goal → Goal
unfolding match_many match_few match_one or_else
match_regex nothing goal s m = goal s m
match_regex (one p) goal s m = match_one p goal s m
match_regex (many p) goal s m = match_many p goal s m
match_regex (few p) goal s m = match_few p goal s m
match_regex (followed r t) goal s m = match_regex r (match_regex t goal) s m
match_regex (either r t) goal s m = or_else (match_regex r goal s m) (match_regex t goal s m)
match_regex (maybe r) goal s m = or_else (match_regex r goal s m) (goal s m)
match_regex (group i r) goal s m =
    match_regex r (λ rest m'. goal rest ((i, take (length s - length rest) s) ∷ m')) s m

-- `$`
unfoldable pub at_end : Goal
at_end [] m = some m
at_end (c ∷ s) m = none

-- `s.match(/^r$/)`
unfoldable pub match_whole : Regex → Text → Option Captures
unfolding match_regex at_end
match_whole r s = match_regex r at_end s []

-- `\w` and `\d`
unfoldable pub is_digit : ℕ → Bool
is_digit c = leb b'0' c && leb c b'9'

unfoldable pub is_word : ℕ → Bool
unfolding is_digit
is_word c = (leb b'a' c && leb c b'z') || (leb b'A' c && leb c b'Z') || is_digit c || c == b'_'

-- A character without regard to the case of ASCII letters, given in upper case.
unfoldable pub same_letter : ℕ → ℕ → Bool
same_letter u c = c == u || (leb b'A' u && leb u b'Z' && c == u + 32)

-- A word under the flag `i`.
unfoldable pub word : Text → Regex
unfolding same_letter
word [] = nothing
word (u ∷ us) = followed (one (same_letter u)) (word us)

-- `\b` at the end of a word: the next character is none of a word.
unfoldable pub word_ends : Goal
unfolding is_word
word_ends [] m = some m
word_ends (c ∷ s) m = if is_word c then none else some m

unfoldable pub is_some_match : Option Captures → Bool
is_some_match none = false
is_some_match (some m) = true

-- `/\b..\b/.test(s)` for an expression that starts and ends with a word character; `inside` says
-- that the character before is one.
unfoldable pub test_word : Regex → Bool → Text → Bool
unfolding match_regex word_ends is_some_match is_word
test_word r inside [] = false
test_word r inside (c ∷ s) =
    let rest = test_word r (is_word c) s in
    (not inside && is_some_match (match_regex r word_ends (c ∷ s) [])) || rest
