-- ===== src/Tests/Ranged.antt =====
-- The theorem on numeric ranges, for prices from 5 to 9 in an index that holds nothing, and
-- a primary key beyond U+FFFF at the upper bound.
use takyondb.Prelude.{
  ℕ, ◌≡◌, refl, List, [], ◌∷◌, ◌++◌, some, none, ok, ◌&&◌, ◌||◌, false, leb, ltb, Result, arith,
  ◌+◌, ◌-◌, ◌*◌, ◌/◌, ◌%◌, ◌<◌, ◌==◌, if◌then◌else◌,
}
use takyondb.Js.Text.{Text, codes}
use takyondb.Js.Order.{pos, text_lt}
use takyondb.Js.Utf8.{Utf8, AsciiLaws}
use takyondb.Relational.Mirror.{TakyonBindings}
use takyondb.Relational.SecondaryNative.{
  NativeSecondaryIndex, pad_u32_hex, column_prefix, entry_key, lookup_numeric_range, hi_sentinel,
}
use takyondb.Relational.SecondaryNative.Ranges.{entry_tail, is_between, lookup_numeric_range-admits}

abbrev nothing : Unit {0} → Text → Text → Text → ℕ → Result (List ℕ)
nothing s prefix lo hi max_results = ok []

abbrev scanned : TakyonBindings (Unit {0})
scanned = record {
  insert_index = λ s key off. (s, ok (pos 0));
  search_index = λ s key. ok (pos 0);
  remove_index = λ s key. (s, ok (pos 0));
  scan_prefix = none;
  scan_range = some nothing;
}

abbrev prices : NativeSecondaryIndex
prices = record { table = codes "items"; column = codes "price"; unique = false }

-- The UTF-8 bytes of a unit that is in no pair: a lone surrogate becomes U+FFFD.
abbrev encode_unit : ℕ → List ℕ
encode_unit c =
    if ltb c 128
    then c ∷ []
    else if ltb c 2048
    then (192 + c / 64) ∷ (128 + c % 64) ∷ []
    else if leb 55296 c && ltb c 57344
    then 239 ∷ 191 ∷ 189 ∷ []
    else (224 + c / 4096) ∷ (128 + (c / 64) % 64) ∷ (128 + c % 64) ∷ []

abbrev encode_pair : ℕ → List ℕ
encode_pair p =
    (240 + p / 262144) ∷ (128 + (p / 4096) % 64) ∷ (128 + (p / 64) % 64) ∷ (128 + p % 64) ∷ []

unfoldable encode_text : Text → List ℕ
encode_text [] = []
encode_text (c ∷ []) = encode_unit c
encode_text (c ∷ d ∷ text) =
    let one = encode_text (d ∷ text) in
    let two = encode_text text in
    if leb 55296 c && ltb c 56320 && leb 56320 d && ltb d 57344
    then encode_pair (65536 + (c - 55296) * 1024 + (d - 56320)) ++ two
    else encode_unit c ++ one

-- Nothing is decoded here.
abbrev utf8 : Utf8
utf8 = record { encode = encode_text; decode = λ bs. bs }

encode_text-ascii : (c : ℕ) (text : Text) → c < 128 → encode_text (c ∷ text) ≡ c ∷ encode_text text
unfolding encode_text
encode_text-ascii c [] h = ground arith
encode_text-ascii c (d ∷ text) h = ground arith

utf8-AsciiLaws : AsciiLaws utf8
unfolding encode_text
utf8-AsciiLaws = record { encode_empty = refl; encode_ascii = encode_text-ascii }

-- U+1F600, as two units
abbrev smile : Text
smile = 55357 ∷ 56832 ∷ []

-- It is above U+FFFF in the order of the bytes, though not in that of the units.
smile-last : text_lt (utf8.encode smile) (utf8.encode (hi_sentinel ∷ [])) ≡ false
unfolding encode_text text_lt
smile-last = refl

lookup_numeric_range-admits_example :
    (from : Text) × (until : Text) × (value : Text) × (lookup_numeric_range scanned tt prices
        (some (pos 5))
        (some (pos 9))
        100
      ≡ nothing tt (column_prefix (codes "items") (codes "price")) from until 100)
    × (pad_u32_hex (some (pos 9)) ≡ ok value)
    × (entry_key (codes "items") (codes "price") value smile
        ≡ column_prefix (codes "items") (codes "price") ++ entry_tail value smile)
    × (is_between utf8 from (entry_tail value smile) until ≡ (
        leb 5 9
        && (ltb 9 9 || (9 == 9 && text_lt (utf8.encode smile) (utf8.encode (hi_sentinel ∷ []))))))
lookup_numeric_range-admits_example =
    lookup_numeric_range-admits scanned utf8 utf8-AsciiLaws tt prices nothing 5 9 100 9 smile refl
      (omega arith) (omega arith) (omega arith)
