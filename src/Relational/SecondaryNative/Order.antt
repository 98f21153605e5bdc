-- ===== src/Relational/SecondaryNative/Order.antt =====
-- secondary_native.ts: the padded texts of numbers, in the order of the numbers.
use takyondb.Prelude.{
  ℕ, zero, suc, ◌/◌, ◌%◌, ◌≤◌, ◌<◌, ◌≡◌, ◌∙◌, refl, sym, [], ◌∷◌, ◌++◌, some, ltb, length,
  length-append, ◌||◌, ◌&&◌, not, ok, arith,
}
use takyondb.Js.Text.{Text}
use takyondb.Js.Order.{ℤ, pos, negsuc, text_lt}
use takyondb.Relational.SecondaryNative.{hex_digit, pad_hex, pad_i64_hex16, biased, absolute, ℤ_gt}

pub length-pad_hex : (w n : ℕ) → length (pad_hex w n) ≡ w
unfolding pad_hex
length-pad_hex zero n = refl
length-pad_hex (suc w) n =
    omega (
      arith,
      length-append (pad_hex w (n / 16)) (hex_digit (n % 16) ∷ []),
      length-pad_hex w (n / 16),
    )

-- Texts that begin with parts of one length.
pub text_lt-append :
    (s t x y : Text)
    → length s ≡ length t
    → text_lt (s ++ x) (t ++ y) ≡ (text_lt s t || (not (text_lt t s) && text_lt x y))
unfolding text_lt
text_lt-append [] [] x y h = refl
text_lt-append [] (d ∷ t) x y h = absurd (omega arith)
text_lt-append (c ∷ s) [] x y h = absurd (omega arith)
text_lt-append (c ∷ s) (d ∷ t) x y h = ground (arith, text_lt-append s t x y (omega arith))

-- A number that has no more than so many digits.
abbrev pub Fits : ℕ → ℕ → Type 0
Fits zero n = n ≡ 0
Fits (suc w) n = Fits w (n / 16)

text_lt-hex_digit : (a b : ℕ) → a < 16 → b < 16 → ltb (hex_digit a) (hex_digit b) ≡ ltb a b
unfolding hex_digit
text_lt-hex_digit a b h k = ground arith

pub text_lt-pad_hex :
    (w a b : ℕ) → Fits w a → Fits w b → text_lt (pad_hex w a) (pad_hex w b) ≡ ltb a b
unfolding pad_hex text_lt
text_lt-pad_hex zero a b h k = ground arith
text_lt-pad_hex (suc w) a b h k = ground (
  arith,
  text_lt-append (pad_hex w (a / 16)) (pad_hex w (b / 16)) (hex_digit (a % 16) ∷ [])
      (hex_digit (b % 16) ∷ []) (length-pad_hex w (a / 16) ∙ sym (length-pad_hex w (b / 16))),
  text_lt-pad_hex w (a / 16) (b / 16) h k,
  text_lt-pad_hex w (b / 16) (a / 16) k h,
  text_lt-hex_digit (a % 16) (b % 16) (omega arith) (omega arith),
)

padded :
    (z : ℤ) {s : Text}
    → pad_i64_hex16 (some z) ≡ ok s
    → (absolute z ≤ 9007199254740991) × (pad_hex 16 (biased z) ≡ s)
unfolding pad_i64_hex16
padded z h = ground arith

biased-Fits : (z : ℤ) → absolute z ≤ 9007199254740991 → Fits 16 (biased z)
unfolding biased absolute
biased-Fits (pos n) h = omega arith
biased-Fits (negsuc n) h = omega arith

biased_order :
    (z w : ℤ)
    → absolute z ≤ 9007199254740991
    → absolute w ≤ 9007199254740991
    → ltb (biased z) (biased w) ≡ ℤ_gt w z
unfolding biased absolute ℤ_gt
biased_order (pos a) (pos b) h k = ground arith
biased_order (pos a) (negsuc b) h k = ground arith
biased_order (negsuc a) (pos b) h k = ground arith
biased_order (negsuc a) (negsuc b) h k = ground arith

-- The texts of the integers that JavaScript keeps exactly stand in the order of the integers.
pub pad_i64_hex16-order :
    (z w : ℤ) {s t : Text}
    → pad_i64_hex16 (some z) ≡ ok s
    → pad_i64_hex16 (some w) ≡ ok t
    → text_lt s t ≡ ℤ_gt w z
unfolding pad_i64_hex16
pad_i64_hex16-order z w {s} {t} h k =
    let (small, a) = padded z h in
    let (small', b) = padded w k in
    rw (← a) (
      rw (← b) (
        text_lt-pad_hex 16 (biased z) (biased w) (biased-Fits z small) (biased-Fits w small')
        ∙ biased_order z w small small'))
