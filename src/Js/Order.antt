-- ===== src/Js/Order.antt =====
-- `<` between cells, `Array.prototype.sort` and `Array.prototype.slice`.
use takyondb.Prelude.{
  ℕ, ◌+◌, ◌-◌, Bool, true, false, List, [], ◌∷◌, ltb, ◌==◌, length, take, drop, if◌then◌else◌,
}
use takyondb.Js.Text.{Text}
use takyondb.Js.Value.{Value, JsNumber, join_bytes, to_text, null, bool, num, str, bytes}

-- An index or a count that may be negative.
pub data ℤ : Type 0 where
  pos negsuc : ℕ → ℤ

-- Texts in the order of their UTF-16 units, and bytes in the order of their lists.
unfoldable pub text_lt : Text → Text → Bool
text_lt [] [] = false
text_lt [] (b ∷ t) = true
text_lt (a ∷ s) [] = false
text_lt (a ∷ s) (b ∷ t) = let rest = text_lt s t in if a == b then rest else ltb a b

module _ {N : Type 0} ⦃js : JsNumber N⦄ where
  -- The number that a cell stands for beside a number in a comparison.
  unfoldable pub to_number : Value N → N
  to_number null = js.of_ℕ 0
  to_number (bool true) = js.of_ℕ 1
  to_number (bool false) = js.of_ℕ 0
  to_number (num a) = a
  to_number v = js.of_text (to_text v)

  -- `a < b`: two texts in their order, a `Uint8Array` as its text, anything else as numbers.
  unfoldable pub value_lt : Value N → Value N → Bool
  unfolding text_lt to_number
  value_lt (str s) (str t) = text_lt s t
  value_lt (str s) (bytes i t) = text_lt s (join_bytes t)
  value_lt (bytes i s) (str t) = text_lt (join_bytes s) t
  value_lt (bytes i s) (bytes j t) = text_lt (join_bytes s) (join_bytes t)
  value_lt v w = js.lt (to_number v) (to_number w)

-- What a comparison function returns: a negative number, zero, or a positive one.
pub data Ordering : Type 0 where
  less equal greater : Ordering

module _ {ℓ} {A : Type ℓ} where
  -- Puts an element before the first one that does not have to come earlier.
  unfoldable pub place : (A → A → Ordering) → A → List A → List A
  place compare x [] = x ∷ []
  place compare x (y ∷ ys) =
      let rest = place compare x ys in
      elim (compare x y) [ greater ↦ y ∷ rest | less ↦ x ∷ y ∷ ys | equal ↦ x ∷ y ∷ ys ]

  -- `[...xs].sort(compare)`, which is stable.
  unfoldable pub sort : (A → A → Ordering) → List A → List A
  unfolding place
  sort compare [] = []
  sort compare (x ∷ xs) = place compare x (sort compare xs)

  -- `xs.slice(start)`: a negative start counts from the end.
  unfoldable pub slice_from : ℤ → List A → List A
  slice_from (pos n) xs = drop n xs
  slice_from (negsuc n) xs = drop (length xs - (n + 1)) xs

  -- `xs.slice(0, end)`
  unfoldable pub slice_to : ℤ → List A → List A
  slice_to (pos n) xs = take n xs
  slice_to (negsuc n) xs = take (length xs - (n + 1)) xs
