-- ===== src/Js/Json.antt =====
-- What `JSON.parse` returns, and the two calls of the platform as a parameter. A `Uint8Array` from
-- hexadecimal digits, as `Buffer.from(digits, 'hex')` makes it.
use takyondb.Prelude.{
  ℕ, ◌+◌, ◌-◌, ◌*◌, Bool, ◌&&◌, List, [], ◌∷◌, Option, none, some, leb, if◌then◌else◌, ite,
}
use takyondb.Js.Text.{Text, text_dec}

mutual
  pub data Json (N : Type 0) : Type 0 where
    null : Json N
    bool : Bool → Json N
    num : N → Json N
    str : Text → Json N
    array : Elements N → Json N
    object : Members N → Json N

  pub data Elements (N : Type 0) : Type 0 where
    no_element : Elements N
    element : Json N → Elements N → Elements N

  pub data Members (N : Type 0) : Type 0 where
    no_member : Members N
    member : Text → Json N → Members N → Members N

-- `JSON.stringify(value, null, 2)` and `JSON.parse(text)`; `none` stands for its SyntaxError.
pub record JsonText (N : Type 0) : Type 0 where
  pub stringify : Json N → Text
  pub parse : Text → Option (Json N)

module _ {N : Type 0} where
  unfoldable pub find_member : Text → Members N → Option (Json N)
  find_member k no_member = none
  find_member k (member j v rest) = ite (text_dec j k) (some v) (find_member k rest)

  -- `value[k]`, `none` for `undefined`, where `value` is neither `null` nor `undefined`
  unfoldable pub property : Text → Json N → Option (Json N)
  unfolding find_member
  property k (object members) = find_member k members
  property k _ = none

  unfoldable pub array_of : List (Json N) → Elements N
  array_of [] = no_element
  array_of (v ∷ vs) = element v (array_of vs)

unfoldable pub digit_value : ℕ → Option ℕ
digit_value c =
    if leb 48 c && leb c 57
    then some (c - 48)
    else if leb 97 c && leb c 102
    then some (c - 87)
    else if leb 65 c && leb c 70
    then some (c - 55)
    else none

-- Two digits and the bytes of the rest; it ends before the first pair that is not two digits.
unfoldable pub add_byte : Option ℕ → Option ℕ → List ℕ → List ℕ
add_byte (some h) (some l) bs = (16 * h + l) ∷ bs
add_byte (some h) none bs = []
add_byte none l bs = []

unfoldable pub unhex : Text → List ℕ
unfolding digit_value add_byte
unhex [] = []
unhex (c ∷ []) = []
unhex (c ∷ d ∷ digits) = let rest = unhex digits in add_byte (digit_value c) (digit_value d) rest
