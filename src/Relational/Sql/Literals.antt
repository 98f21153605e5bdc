-- ===== src/Relational/Sql/Literals.antt =====
-- sql.ts: lists and literals inside a statement.
pub mod Quoted
use takyondb.Prelude.{
  ℕ, ◌+◌, ◌*◌, ◌-◌, Bool, true, false, not, ◌&&◌, List, [], ◌∷◌, ◌++◌, ltb, ◌==◌, length, drop,
  Result, ok, err, ◌>>=◌, if◌then◌else◌, unterminated_string, bad_literal,
}
use takyondb.Js.Text.{Text, codes, text_beq}
use takyondb.Js.Strings.{trim, to_upper}
use takyondb.Js.Regex.{Regex, one, many, followed, maybe, match_whole, is_some_match, is_digit}
use takyondb.Js.Value.{Value, JsNumber, null, bool, num, str}

abbrev pub quote : ℕ
quote = 39

-- `'` inside a string toggles nothing if another one follows: the pair is copied.
unfoldable pub is_pair : Bool → Text → Bool
is_pair in_str [] = false
is_pair in_str (d ∷ s) = in_str && d == quote

-- The loop of `splitList`, with the current part and whether a string is open. The flag `skip` is
-- the `i++` behind a doubled quote, whose second half is copied already.
unfoldable pub split_loop : Bool → Bool → Text → Text → Result (List Text)
unfolding is_pair
split_loop skip in_str cur [] = if in_str then err unterminated_string else ok (trim cur ∷ [])
split_loop true in_str cur (c ∷ s) = split_loop false in_str cur s
split_loop false in_str cur (c ∷ s) = elim (c == quote) [
  | true ↦ elim (is_pair in_str s) [
    | true ↦ split_loop true in_str (cur ++ quote ∷ quote ∷ []) s
    | false ↦ split_loop false (not in_str) (cur ++ c ∷ []) s
  ]
  | false ↦ elim (c == b',' && not in_str) [
    | true ↦ split_loop false in_str [] s >>= λ parts. ok (trim cur ∷ parts)
    | false ↦ split_loop false in_str (cur ++ c ∷ []) s
  ]
]

-- `parts.filter((p) => p.length > 0)`
unfoldable pub non_empty : List Text → List Text
non_empty [] = []
non_empty ([] ∷ parts) = non_empty parts
non_empty ((c ∷ p) ∷ parts) = (c ∷ p) ∷ non_empty parts

unfoldable pub split_list : Text → Result (List Text)
unfolding split_loop non_empty
split_list raw = split_loop false false [] raw >>= λ parts. ok (non_empty parts)

-- `t.startsWith("'")` and `t.endsWith("'")`
unfoldable pub starts_quoted : Text → Bool
starts_quoted [] = false
starts_quoted (c ∷ s) = c == quote

unfoldable pub ends_quoted : Text → Bool
ends_quoted [] = false
ends_quoted (c ∷ []) = c == quote
ends_quoted (c ∷ d ∷ s) = ends_quoted (d ∷ s)

unfoldable pub drop_last : Text → Text
drop_last [] = []
drop_last (c ∷ []) = []
drop_last (c ∷ d ∷ s) = c ∷ drop_last (d ∷ s)

-- `t.slice(1, -1)`
abbrev pub inner : Text → Text
inner t = drop_last (drop 1 t)

-- `t.replace(/''/g, "'")`
unfoldable pub unescape : Text → Text
unescape [] = []
unescape (c ∷ []) = c ∷ []
unescape (c ∷ d ∷ s) =
    let pair = unescape s in
    let other = unescape (d ∷ s) in if c == quote && d == quote then quote ∷ pair else c ∷ other

-- `\d+` and `\d+(\.\d+)?`
abbrev pub digits : Regex
digits = followed (one is_digit) (many is_digit)

abbrev pub decimal : Regex
decimal = followed digits (maybe (followed (one (λ c. c == b'.')) digits))

-- `/^-?\d+(\.\d+)?$/.test(t)`
unfoldable pub is_number_text : Text → Bool
unfolding match_whole is_some_match is_digit
is_number_text t = is_some_match (match_whole (followed (maybe (one (λ c. c == b'-'))) decimal) t)

module _ {N : Type 0} ⦃js : JsNumber N⦄ where
  -- `Number(t)` of a text in digits is the number that the language reads.
  unfoldable pub parse_literal : Text → Result (Value N)
  unfolding starts_quoted ends_quoted drop_last unescape is_number_text
  parse_literal raw =
      let t = trim raw in
      let up = to_upper t in
      let truth : Bool → Result (Value N) = λ b. ok (bool b) in
      if ltb 1 (length t) && (starts_quoted t && ends_quoted t)
      then ok (str (unescape (inner t)))
      else if text_beq up (codes "NULL")
      then ok null
      else if text_beq up (codes "TRUE")
      then truth true
      else if text_beq up (codes "FALSE")
      then truth false
      else if is_number_text t
      then ok (num (js.of_text t))
      else err bad_literal

-- `Number(t)` of a text of digits, where a whole number is wanted.
unfoldable pub digits_value : ℕ → Text → ℕ
digits_value n [] = n
digits_value n (c ∷ s) = digits_value (10 * n + (c - b'0')) s
