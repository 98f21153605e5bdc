-- ===== src/Js/Strings.antt =====
-- `trim`, `toUpperCase`, `split` and the other methods of a text that the client calls.
use takyondb.Prelude.{
  ℕ, ◌+◌, ◌-◌, Bool, true, false, ◌&&◌, ◌||◌, List, [], ◌∷◌, ◌++◌, leb, ◌==◌, if◌then◌else◌,
}
use takyondb.Js.Text.{Text}

-- White space and line ends, which `trim` and `\s` take alike.
unfoldable pub is_space : ℕ → Bool
is_space c =
    c == 32
    || (leb 9 c && leb c 13)
    || c == 0xa0
    || c == 0x1680
    || (leb 0x2000 c && leb c 0x200a)
    || c == 0x2028
    || c == 0x2029
    || c == 0x202f
    || c == 0x205f
    || c == 0x3000
    || c == 0xfeff

unfoldable pub trim_start : Text → Text
unfolding is_space
trim_start [] = []
trim_start (c ∷ s) = let rest = trim_start s in if is_space c then rest else c ∷ s

unfoldable pub trim_end : Text → Text
unfolding is_space
trim_end [] = []
trim_end (c ∷ s) = elim (trim_end s) [
  | [] ↦ if is_space c then [] else c ∷ []
  | ◌∷◌ d rest ↦ c ∷ d ∷ rest
]

-- `s.trim()`
unfoldable pub trim : Text → Text
unfolding trim_start trim_end
trim s = trim_end (trim_start s)

-- The upper case of one unit, as far as it holds a letter of ASCII. A unit whose upper case holds
-- none is left as it is: the client only looks for ASCII words in the result.
unfoldable pub upper_unit : ℕ → Text
upper_unit c =
    if leb b'a' c && leb c b'z'
    then (c - 32) ∷ []
    else if c == 0xdf
    then b'S' ∷ b'S' ∷ []
    else if c == 0x131
    then b'I' ∷ []
    else if c == 0x149
    then 0x2bc ∷ b'N' ∷ []
    else if c == 0x17f
    then b'S' ∷ []
    else if c == 0x1f0
    then b'J' ∷ 0x30c ∷ []
    else if c == 0x1e96
    then b'H' ∷ 0x331 ∷ []
    else if c == 0x1e97
    then b'T' ∷ 0x308 ∷ []
    else if c == 0x1e98
    then b'W' ∷ 0x30a ∷ []
    else if c == 0x1e99
    then b'Y' ∷ 0x30a ∷ []
    else if c == 0x1e9a
    then b'A' ∷ 0x2be ∷ []
    else if c == 0xfb00
    then b'F' ∷ b'F' ∷ []
    else if c == 0xfb01
    then b'F' ∷ b'I' ∷ []
    else if c == 0xfb02
    then b'F' ∷ b'L' ∷ []
    else if c == 0xfb03
    then b'F' ∷ b'F' ∷ b'I' ∷ []
    else if c == 0xfb04
    then b'F' ∷ b'F' ∷ b'L' ∷ []
    else if c == 0xfb05 || c == 0xfb06
    then b'S' ∷ b'T' ∷ []
    else c ∷ []

-- `s.toUpperCase()`
unfoldable pub to_upper : Text → Text
unfolding upper_unit
to_upper [] = []
to_upper (c ∷ s) = upper_unit c ++ to_upper s

-- `s.toLowerCase()` of a text of word characters
unfoldable pub to_lower : Text → Text
to_lower [] = []
to_lower (c ∷ s) = (if leb b'A' c && leb c b'Z' then c + 32 else c) ∷ to_lower s

-- Puts a character before the first part.
unfoldable pub onto_first : ℕ → List Text → List Text
onto_first c [] = (c ∷ []) ∷ []
onto_first c (p ∷ parts) = (c ∷ p) ∷ parts

-- `s.split(d)` for a delimiter of one character
unfoldable pub split_on : ℕ → Text → List Text
unfolding onto_first
split_on d [] = [] ∷ []
split_on d (c ∷ s) = let rest = split_on d s in if c == d then [] ∷ rest else onto_first c rest

-- `s.split(/\s+/)`: `gap` says that the character before was a space.
unfoldable pub split_spaces : Bool → Text → List Text
unfolding onto_first is_space
split_spaces gap [] = [] ∷ []
split_spaces gap (c ∷ s) =
    let within = split_spaces true s in
    let outside = split_spaces false s in
    if is_space c then (if gap then within else [] ∷ within) else onto_first c outside

-- `parts.join(' ')`
unfoldable pub join_spaces : List Text → Text
join_spaces [] = []
join_spaces (p ∷ []) = p
join_spaces (p ∷ q ∷ parts) = p ++ (32 ∷ join_spaces (q ∷ parts))
