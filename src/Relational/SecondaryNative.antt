-- ===== src/Relational/SecondaryNative.antt =====
-- secondary_native.ts: one secondary index over one column, as entries of the engine's index.
pub mod Order
pub mod Ranges
use takyondb.Prelude.{
  ℕ, zero, suc, ◌+◌, ◌-◌, ◌/◌, ◌%◌, ◌^◌, Bool, true, false, not, ◌||◌, ◌&&◌, List, [], ◌∷◌, ◌++◌,
  Option, none, some, ltb, leb, ◌==◌, length, Result, ok, err, throw_if, ◌>>=◌, ◌>>◌, if◌then◌else◌,
  out_of_u32, out_of_safe_range, unsupported_secondary, empty_secondary_name, bad_record_offset,
  unique_violation, index_failed, missing_scan, invalid_numeric_range,
}
use takyondb.Js.Text.{Text, codes}
use takyondb.Js.Value.{Value, JsNumber, null, undefined, bool, num, str, bytes, to_text}
use takyondb.Js.Order.{ℤ, pos, negsuc}
use takyondb.Relational.Mirror.{TakyonBindings}

-- U+001F and U+FFFF
abbrev pub secondary_sep : ℕ
secondary_sep = 31

abbrev pub hi_sentinel : ℕ
hi_sentinel = 65535

unfoldable pub hex_digit : ℕ → ℕ
hex_digit d = if ltb d 10 then 48 + d else 87 + d

-- The last `width` hexadecimal digits: `n.toString(16).padStart(width, '0')` for a number that has
-- no more.
unfoldable pub pad_hex : ℕ → ℕ → Text
unfolding hex_digit
pad_hex zero n = []
pad_hex (suc width) n = pad_hex width (n / 16) ++ (hex_digit (n % 16) ∷ [])

-- A number comes as the integer that it is, if it is one.
unfoldable pub pad_u32_hex : Option ℤ → Result Text
unfolding pad_hex
pad_u32_hex (some (pos n)) = if leb n 0xffffffff then ok (pad_hex 8 n) else err out_of_u32
pad_u32_hex _ = err out_of_u32

-- `BigInt(value) ^ 0x8000000000000000` on 64 bits: the sign bit is flipped.
unfoldable pub biased : ℤ → ℕ
biased (pos n) = 9223372036854775808 + n
biased (negsuc n) = 9223372036854775808 - (n + 1)

unfoldable pub absolute : ℤ → ℕ
absolute (pos n) = n
absolute (negsuc n) = n + 1

abbrev pub max_safe_integer : ℕ
max_safe_integer = 9007199254740991

unfoldable pub pad_i64_hex16 : Option ℤ → Result Text
unfolding pad_hex biased absolute
pad_i64_hex16 none = err out_of_safe_range
pad_i64_hex16 (some z) =
    if leb (absolute z) max_safe_integer then ok (pad_hex 16 (biased z)) else err out_of_safe_range

-- `lo > hi` on integers
unfoldable pub ℤ_gt : ℤ → ℤ → Bool
ℤ_gt (pos a) (pos b) = ltb b a
ℤ_gt (pos a) (negsuc b) = true
ℤ_gt (negsuc a) (pos b) = false
ℤ_gt (negsuc a) (negsuc b) = ltb a b

unfoldable pub is_inverted : Option ℤ → Option ℤ → Bool
unfolding ℤ_gt
is_inverted (some lo) (some hi) = ℤ_gt lo hi
is_inverted _ _ = true

-- `idx:<table>:<column>:`
unfoldable pub column_prefix : Text → Text → Text
column_prefix table column = codes "idx:" ++ (table ++ (codes ":" ++ (column ++ codes ":")))

unfoldable pub value_prefix : Text → Text → Text → Text
unfolding column_prefix
value_prefix table column value = column_prefix table column ++ (value ++ (secondary_sep ∷ []))

unfoldable pub entry_key : Text → Text → Text → Text → Text
unfolding column_prefix
entry_key table column value pk = column_prefix table column ++ (value ++ (secondary_sep ∷ pk))

pub record NativeSecondaryIndex : Type 0 where
  pub table : Text
  pub column : Text
  pub unique : Bool

-- The constructor.
unfoldable pub new_index : Text → Text → Bool → Result NativeSecondaryIndex
new_index table column unique = do
  throw_if (length table == 0 || length column == 0) empty_secondary_name
  ok (record { table = table; column = column; unique = unique })

-- A bound without a value is open.
unfoldable pub lo_bound : Text → Text
lo_bound [] = []
lo_bound (c ∷ v) = (c ∷ v) ++ (secondary_sep ∷ [])

unfoldable pub hi_bound : Text → Text
hi_bound [] = []
hi_bound (c ∷ v) = (c ∷ v) ++ (secondary_sep ∷ hi_sentinel ∷ [])

-- `if (rc !== 0) throw`
unfoldable pub check_added : {S : Type 0} → S × Result ℤ → S × Result (Unit {0})
check_added (s, ok (pos zero)) = (s, ok tt)
check_added (s, ok rc) = (s, err index_failed)
check_added (s, err e) = (s, err e)

unfoldable pub check_removed : {S : Type 0} → S × Result ℤ → S × Result Bool
check_removed (s, ok (pos zero)) = (s, ok false)
check_removed (s, ok (pos (suc zero))) = (s, ok true)
check_removed (s, ok rc) = (s, err index_failed)
check_removed (s, err e) = (s, err e)

module _ {S : Type 0} (bindings : TakyonBindings S) where
  -- A scan that an old build lacks.
  unfoldable pub scan_values : S → Text → ℕ → Result (List ℕ)
  scan_values s prefix max_results = elim bindings.scan_prefix [
    | none ↦ err missing_scan
    | some scan ↦ scan s prefix max_results
  ]

  unfoldable pub lookup_numeric_range :
      S → NativeSecondaryIndex → Option ℤ → Option ℤ → ℕ → Result (List ℕ)
  unfolding is_inverted pad_u32_hex column_prefix
  lookup_numeric_range s index lo hi max_results = elim bindings.scan_range [
    | none ↦ err missing_scan
    | some scan ↦ do
      throw_if (is_inverted lo hi) invalid_numeric_range
      from ← pad_u32_hex lo
      until ← pad_u32_hex hi
      scan s (column_prefix index.table index.column) (from ++ (secondary_sep ∷ []))
          (until ++ (secondary_sep ∷ hi_sentinel ∷ [])) max_results
  ]

  unfoldable pub cardinality : S → NativeSecondaryIndex → ℕ → Result ℕ
  unfolding scan_values column_prefix
  cardinality s index max_results = do
    found ← scan_values s (column_prefix index.table index.column) max_results
    ok (length found)

module _ {N : Type 0} ⦃js : JsNumber N⦄ where
  unfoldable pub encode_value : Value N → Result Text
  encode_value (str s) = ok s
  encode_value (num a) = ok (js.to_text a)
  encode_value (bool true) = ok (codes "true")
  encode_value (bool false) = ok (codes "false")
  encode_value _ = err unsupported_secondary

module _ {S N : Type 0} ⦃js : JsNumber N⦄ (bindings : TakyonBindings S) where
  unfoldable pub lookup : S → NativeSecondaryIndex → Value N → Result (List ℕ)
  unfolding encode_value value_prefix
  lookup s index value = elim bindings.scan_prefix [
    | none ↦ err missing_scan
    | some scan ↦ do v ← encode_value value; scan s (value_prefix index.table index.column v) 4096
  ]

  unfoldable pub lookup_range : S → NativeSecondaryIndex → Value N → Value N → ℕ → Result (List ℕ)
  unfolding encode_value lo_bound hi_bound column_prefix
  lookup_range s index lo hi max_results = elim bindings.scan_range [
    | none ↦ err missing_scan
    | some scan ↦ do
      from ← encode_value lo
      until ← encode_value hi
      scan s (column_prefix index.table index.column) (lo_bound from) (hi_bound until) max_results
  ]

  -- The check of a unique index, by a scan of the value's entries.
  unfoldable pub check_unique : S → NativeSecondaryIndex → Value N → Result (Unit {0})
  unfolding lookup
  check_unique s index value =
      if index.unique
      then (do found ← lookup s index value; throw_if (ltb 0 (length found)) unique_violation)
      else ok tt

  -- The key of the entry that is to be added.
  unfoldable pub new_entry : S → NativeSecondaryIndex → Value N → Value N → Result Text
  unfolding check_unique entry_key
  new_entry s index value pk = do
    v ← encode_value value
    check_unique s index value
    ok (entry_key index.table index.column v (to_text pk))

  unfoldable pub add : S → NativeSecondaryIndex → Value N → Value N → ℤ → S × Result (Unit {0})
  unfolding new_entry check_added
  add s index value pk (negsuc n) = (s, err bad_record_offset)
  add s index value pk (pos record_offset) = elim (new_entry s index value pk) [
    | err e ↦ (s, err e)
    | ok key ↦ check_added (bindings.insert_index s key record_offset)
  ]

  unfoldable pub remove : S → NativeSecondaryIndex → Value N → Value N → S × Result Bool
  unfolding encode_value entry_key check_removed
  remove s index value pk = elim (encode_value value) [
    | err e ↦ (s, err e)
    | ok v ↦
        check_removed (bindings.remove_index s (entry_key index.table index.column v (to_text pk)))
  ]
