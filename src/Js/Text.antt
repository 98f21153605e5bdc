-- ===== src/Js/Text.antt =====
-- JavaScript strings, as their UTF-16 code units.
use Prim.Native.Char.{code}
use Prim.Native.String.{String}
use takyondb.Prelude.{
  ℕ, ◌≡◌, ◌≢◌, refl, Bool, true, false, ◌&&◌, List, [], ◌∷◌, arith, ◌==◌, inl, inr, Bool-cases, ite,
}

abbrev pub Text : Type 0
Text = List ℕ

-- The code units of a literal that is all ASCII.
abbrev pub codes : String → Text
codes String.[] = []
codes (String.◌∷◌ c s) = code c ∷ codes s

pub text_eq : Text → Text → Bool
text_eq [] [] = true
text_eq [] (b ∷ t) = false
text_eq (a ∷ s) [] = false
text_eq (a ∷ s) (b ∷ t) = a == b && text_eq s t

pub text_eq→eq : (s t : Text) → text_eq s t ≡ true → s ≡ t
unfolding text_eq
text_eq→eq [] [] h = refl
text_eq→eq [] (b ∷ t) h = cc
text_eq→eq (a ∷ s) [] h = cc
text_eq→eq (a ∷ s) (b ∷ t) h = ground (arith, text_eq→eq s t)

text_eq_refl : (s : Text) → text_eq s s ≡ true
unfolding text_eq
text_eq_refl [] = refl
text_eq_refl (a ∷ s) = ground (arith, text_eq_refl s)

pub ne_of_text_eq : (s t : Text) → text_eq s t ≡ false → s ≢ t
ne_of_text_eq s t h e = cc (text_eq_refl s, h, e)

-- `===` on two strings, as a decision.
unfoldable pub text_dec : Discrete Text
unfolding text_eq
text_dec s t = elim (Bool-cases (text_eq s t)) [
  | inl h ↦ yes (text_eq→eq s t h)
  | inr h ↦ no (ne_of_text_eq s t h)
]

-- `===` on two strings, as a Boolean.
abbrev pub text_beq : Text → Text → Bool
text_beq s t = ite (text_dec s t) true false
