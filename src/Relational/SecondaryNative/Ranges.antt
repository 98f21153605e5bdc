-- ===== src/Relational/SecondaryNative/Ranges.antt =====
-- secondary_native.ts, `lookupNumericRange`: which entries lie between the bounds that it passes.
use takyondb.Prelude.{
  ℕ, zero, suc, ◌/◌, ◌%◌, ◌<◌, ◌≤◌, ◌≡◌, ◌∙◌, refl, sym, ap, Bool, true, false, All, ◌==◌, not,
  ◌&&◌, ◌||◌, List, [], ◌∷◌, ◌++◌, some, ltb, leb, Result, ok, arith,
}
use takyondb.Js.Text.{Text}
use takyondb.Js.Order.{pos, text_lt}
use takyondb.Js.Utf8.{Utf8, AsciiLaws, encode-append_ascii}
use takyondb.Relational.Mirror.{TakyonBindings}
use takyondb.Relational.SecondaryNative.{
  NativeSecondaryIndex, hex_digit, pad_hex, pad_u32_hex, column_prefix, entry_key,
  lookup_numeric_range, is_inverted, ℤ_gt, secondary_sep, hi_sentinel,
}
use takyondb.Relational.SecondaryNative.Order.{
  Fits, length-pad_hex, text_lt-append, text_lt-pad_hex,
}

-- The part of an entry's key behind the prefix of its column.
abbrev pub entry_tail : Text → Text → Text
entry_tail value pk = value ++ (secondary_sep ∷ pk)

u32-Fits : (n : ℕ) → n ≤ 0xffffffff → Fits 8 n
u32-Fits n h = omega arith

tail-below :
    (a b : ℕ) (x y : Text)
    → a ≤ 0xffffffff
    → b ≤ 0xffffffff
    → text_lt (entry_tail (pad_hex 8 a) x) (entry_tail (pad_hex 8 b) y)
      ≡ (ltb a b || (not (ltb b a) && text_lt x y))
unfolding text_lt
tail-below a b x y h k = ground (
  arith,
  text_lt-append (pad_hex 8 a) (pad_hex 8 b) (secondary_sep ∷ x) (secondary_sep ∷ y)
      (length-pad_hex 8 a ∙ sym (length-pad_hex 8 b)),
  text_lt-pad_hex 8 a b (u32-Fits a h) (u32-Fits b k),
  text_lt-pad_hex 8 b a (u32-Fits b k) (u32-Fits a h),
)

is_inverted-le : (lo hi : ℕ) → lo ≤ hi → is_inverted (some (pos lo)) (some (pos hi)) ≡ false
unfolding is_inverted ℤ_gt
is_inverted-le lo hi h = ground arith

pad_u32_hex-fits : (n : ℕ) → n ≤ 0xffffffff → pad_u32_hex (some (pos n)) ≡ ok (pad_hex 8 n)
unfolding pad_u32_hex
pad_u32_hex-fits n h = ground arith

-- Not below the first bound, below the second one.
between :
    (lo v hi : ℕ) (before : Bool)
    → (not (ltb v lo || (not (ltb lo v) && false)) && (ltb v hi || (not (ltb hi v) && before)))
      ≡ (leb lo v && (ltb v hi || (v == hi && before)))
between lo v hi true = ground arith
between lo v hi false = ground arith

abbrev AllAscii : Text → Type 0
AllAscii = All (λ c. c < 128)

AllAscii-snoc : (s : Text) (c : ℕ) → AllAscii s → c < 128 → AllAscii (s ++ (c ∷ []))
AllAscii-snoc [] c h p = (p, tt)
AllAscii-snoc (d ∷ s) c h p = (h.0, AllAscii-snoc s c h.1 p)

hex_digit-ascii : (d : ℕ) → d < 16 → hex_digit d < 128
unfolding hex_digit
hex_digit-ascii d h = ground arith

pad_hex-ascii : (w n : ℕ) → AllAscii (pad_hex w n)
unfolding pad_hex
pad_hex-ascii zero n = tt
pad_hex-ascii (suc w) n =
    AllAscii-snoc (pad_hex w (n / 16)) (hex_digit (n % 16)) (pad_hex-ascii w (n / 16))
      (hex_digit-ascii (n % 16) (omega arith))

no_less : (pk : Text) → text_lt pk [] ≡ false
unfolding text_lt
no_less [] = refl
no_less (c ∷ pk) = refl

-- The bytes of a text behind the prefix are not below those of the first bound and below those of the
-- second one.
unfoldable pub is_between : Utf8 → Text → Text → Text → Bool
is_between utf8 from text until =
    not (text_lt (utf8.encode text) (utf8.encode from))
    && text_lt (utf8.encode text) (utf8.encode until)

-- A padded number and the separator are ASCII.
encode-entry_tail :
    (utf8 : Utf8) (laws : AsciiLaws utf8) (n : ℕ) (pk : Text)
    → utf8.encode (entry_tail (pad_hex 8 n) pk) ≡ entry_tail (pad_hex 8 n) (utf8.encode pk)
encode-entry_tail utf8 laws n pk =
    encode-append_ascii utf8 laws (pad_hex 8 n) (secondary_sep ∷ pk) (pad_hex-ascii 8 n)
    ∙ ap (λ t. pad_hex 8 n ++ t) (laws.encode_ascii secondary_sep pk (omega arith))

module _ {S : Type 0} (bindings : TakyonBindings S) where
  lookup_numeric_range-asks :
      (s : S) (index : NativeSecondaryIndex) (scan : S → Text → Text → Text → ℕ → Result (List ℕ))
      (lo hi max_results : ℕ)
      → bindings.scan_range ≡ some scan
      → lo ≤ hi
      → hi ≤ 0xffffffff
      → lookup_numeric_range bindings s index (some (pos lo)) (some (pos hi)) max_results
        ≡ scan s
            (column_prefix index.table index.column)
            (entry_tail (pad_hex 8 lo) [])
            (entry_tail (pad_hex 8 hi) (hi_sentinel ∷ []))
            max_results
  unfolding lookup_numeric_range
  lookup_numeric_range-asks s index scan lo hi max_results e h k =
      rw (lookup_numeric_range, e)
        (rw (is_inverted-le lo hi h, pad_u32_hex-fits lo (omega arith), pad_u32_hex-fits hi k) refl)

  module _ (utf8 : Utf8) (laws : AsciiLaws utf8) where
    -- In an addon with a range scan, for bounds `lo ≤ hi` of 32 bits: the lookup asks the scan for the
    -- keys of the column between two texts. In the order of their UTF-8 bytes, the entry of a 32-bit
    -- value and any primary key lies from the first text on and before the second one exactly if the
    -- value is from `lo` to below `hi`, or is `hi` and the bytes of the primary key come before those
    -- of U+FFFF.
    pub lookup_numeric_range-admits :
        (s : S) (index : NativeSecondaryIndex) (scan : S → Text → Text → Text → ℕ → Result (List ℕ))
        (lo hi max_results v : ℕ) (pk : Text)
        → bindings.scan_range ≡ some scan
        → lo ≤ hi
        → hi ≤ 0xffffffff
        → v ≤ 0xffffffff
        → (from : Text) × (until : Text) × (value : Text) × (lookup_numeric_range bindings s index
              (some (pos lo))
              (some (pos hi))
              max_results
            ≡ scan s (column_prefix index.table index.column) from until max_results)
          × (pad_u32_hex (some (pos v)) ≡ ok value)
          × (entry_key index.table index.column value pk
              ≡ column_prefix index.table index.column ++ entry_tail value pk)
          × (is_between utf8 from (entry_tail value pk) until ≡ (
              leb lo v
              && (ltb v hi
                  || (v == hi && text_lt (utf8.encode pk) (utf8.encode (hi_sentinel ∷ []))))))
    unfolding entry_key is_between
    lookup_numeric_range-admits s index scan lo hi max_results v pk e h k fits = (
      entry_tail (pad_hex 8 lo) [],
      entry_tail (pad_hex 8 hi) (hi_sentinel ∷ []),
      pad_hex 8 v,
      lookup_numeric_range-asks s index scan lo hi max_results e h k,
      pad_u32_hex-fits v fits,
      refl,
      rw
          (
            encode-entry_tail utf8 laws v pk,
            encode-entry_tail utf8 laws lo [],
            encode-entry_tail utf8 laws hi (hi_sentinel ∷ []),
            laws.encode_empty,
            tail-below v lo (utf8.encode pk) [] fits (omega arith),
            tail-below v hi (utf8.encode pk) (utf8.encode (hi_sentinel ∷ [])) fits k,
            no_less (utf8.encode pk),
          )
          (between lo v hi (text_lt (utf8.encode pk) (utf8.encode (hi_sentinel ∷ [])))),
    )
