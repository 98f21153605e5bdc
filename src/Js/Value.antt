-- ===== src/Js/Value.antt =====
-- The cells of a row (`RowValue` in codec.ts), and what the language does with them: `===`,
-- `typeof`, and `String(v)`.
use takyondb.Prelude.{
  ℕ, ◌+◌, ◌/◌, ◌%◌, Bool, true, false, not, List, [], ◌∷◌, ◌++◌, none, some, ltb, ◌==◌,
  if◌then◌else◌,
}
use takyondb.Js.Text.{Text, codes, text_beq}
use takyondb.Js.Dict.{Dict, get}

-- The numbers of the language: the operations that the client calls on them.
pub record JsNumber (N : Type 0) : Type 0 where
  -- `a === b`, `a < b` and `a <= b`
  pub eq : N → N → Bool
  pub lt : N → N → Bool
  pub le : N → N → Bool
  -- `Number.isFinite(a)`
  pub is_finite : N → Bool
  -- `a + b`, `a - b` and `a / b`
  pub add : N → N → N
  pub sub : N → N → N
  pub div : N → N → N
  -- a count as a number
  pub of_ℕ : ℕ → N
  -- `String(a)`, and the number that a text stands for in a comparison (NaN if none)
  pub to_text : N → Text
  pub of_text : Text → N

-- A `Uint8Array` is an object: an identity, by which `===` compares, and its bytes.
pub data Value (N : Type 0) : Type 0 where
  null undefined : Value N
  bool : Bool → Value N
  num : N → Value N
  str : Text → Value N
  bytes : ℕ → List ℕ → Value N

abbrev pub Row : Type 0 → Type 0
Row N = Dict (Value N)

module _ {N : Type 0} where
  -- `row[column]`
  unfoldable pub field : Row N → Text → Value N
  unfolding get
  field row column = elim (get column row) [ none ↦ undefined | some v ↦ v ]

-- A byte in decimal and in hexadecimal.
unfoldable pub decimal_byte : ℕ → Text
decimal_byte b =
    if ltb b 10
    then (48 + b) ∷ []
    else if ltb b 100
    then (48 + b / 10) ∷ (48 + b % 10) ∷ []
    else (48 + b / 100) ∷ (48 + b / 10 % 10) ∷ (48 + b % 10) ∷ []

unfoldable pub hex_digit : ℕ → ℕ
hex_digit d = if ltb d 10 then 48 + d else 87 + d

unfoldable pub hex : List ℕ → Text
unfolding hex_digit
hex [] = []
hex (b ∷ bs) = hex_digit (b / 16) ∷ hex_digit (b % 16) ∷ hex bs

-- `String(bytes)`: the elements in decimal, joined by commas
unfoldable pub join_bytes : List ℕ → Text
unfolding decimal_byte
join_bytes [] = []
join_bytes (b ∷ []) = decimal_byte b
join_bytes (b ∷ c ∷ bs) = decimal_byte b ++ (44 ∷ join_bytes (c ∷ bs))

module _ {N : Type 0} ⦃js : JsNumber N⦄ where
  -- `a === b`
  unfoldable pub strict_eq : Value N → Value N → Bool
  strict_eq null null = true
  strict_eq undefined undefined = true
  strict_eq (bool true) (bool b) = b
  strict_eq (bool false) (bool b) = not b
  strict_eq (num a) (num b) = js.eq a b
  strict_eq (str s) (str t) = text_beq s t
  strict_eq (bytes i _) (bytes j _) = i == j
  strict_eq _ _ = false

  -- `String(v)`
  unfoldable pub to_text : Value N → Text
  unfolding join_bytes
  to_text null = codes "null"
  to_text undefined = codes "undefined"
  to_text (bool true) = codes "true"
  to_text (bool false) = codes "false"
  to_text (num a) = js.to_text a
  to_text (str s) = s
  to_text (bytes _ bs) = join_bytes bs
