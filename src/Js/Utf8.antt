-- ===== src/Js/Utf8.antt =====
-- `TextEncoder` and `TextDecoder` of the platform, as a parameter. The native addon takes the UTF-8
-- bytes of a key from the platform in the same way.
use takyondb.Prelude.{ℕ, ◌<◌, ◌≡◌, ◌≢◌, ◌∙◌, refl, ap, sym, List, [], ◌∷◌, ◌++◌, All}
use takyondb.Js.Text.{Text}

pub record Utf8 : Type 0 where
  pub encode : Text → List ℕ
  pub decode : List ℕ → Text

-- A text that the platform's decoder gives back from the bytes of its encoder.
abbrev pub Survives : Utf8 → Text → Type 0
Survives utf8 text = utf8.decode (utf8.encode text) ≡ text

-- Two texts that the decoder gives back have different bytes. A lone surrogate is not given back, and
-- any two of them have the same bytes.
pub encode-apart :
    (utf8 : Utf8) (s t : Text)
    → Survives utf8 s
    → Survives utf8 t
    → s ≢ t
    → utf8.encode s ≢ utf8.encode t
encode-apart utf8 s t kept kept' ne e = ne (sym kept ∙ ap utf8.decode e ∙ kept')

-- Documented behaviour of the encoder: an ASCII character is one byte, its own code.
pub record AsciiLaws (utf8 : Utf8) : Type 0 where
  pub encode_empty : utf8.encode [] ≡ []
  pub encode_ascii : (c : ℕ) (text : Text) → c < 128 → utf8.encode (c ∷ text) ≡ c ∷ utf8.encode text

pub encode-append_ascii :
    (utf8 : Utf8) (laws : AsciiLaws utf8) (s t : Text)
    → All (λ c. c < 128) s
    → utf8.encode (s ++ t) ≡ s ++ utf8.encode t
encode-append_ascii utf8 laws [] t h = refl
encode-append_ascii utf8 laws (c ∷ s) t h =
    laws.encode_ascii c (s ++ t) h.0 ∙ ap (◌∷◌ c) (encode-append_ascii utf8 laws s t h.1)
