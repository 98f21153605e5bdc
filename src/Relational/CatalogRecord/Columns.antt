-- ===== src/Relational/CatalogRecord/Columns.antt =====
-- catalog_record.ts: the columns of an encoded record are decoded to what was encoded.
use mathlib.Core.List.{append_assoc}
use takyondb.Prelude.{
  ℕ, zero, suc, ◌+◌, ◌-◌, ◌≤◌, ◌<◌, ◌≡◌, ◌∙◌, refl, sym, ap, Bool, true, false, ◌||◌, List, [], ◌∷◌,
  ◌++◌, map, ltb, ◌==◌, length, take, drop, replicate, ok, arith, length-append,
}
use takyondb.Js.Bytes.{byte_at}
use takyondb.Js.Blocks.{byte_at-append, drop-append, drop-length, take-length}
use takyondb.Relational.Column.{ColumnDef, RelationalType}
use takyondb.Js.Utf8.{Utf8}
use takyondb.Relational.CatalogRecord.{
  DecodedCatalogColumn, type_to_byte, byte_to_type, type_at, flag, flags_of, has_flag, all_padding,
  decode_column, decode_columns,
}
use takyondb.Relational.CatalogRecord.Blocks.{
  name_field, length-name_field, column_block, column_blocks, NamesFit, length-column_block,
}

type_at-type_to_byte : (type : RelationalType) → type_at byte_to_type (type_to_byte type) ≡ ok type
unfolding type_at type_to_byte
type_at-type_to_byte RelationalType.bool = refl
type_at-type_to_byte _ = refl

-- Each flag is read back, and no reserved bit is set.
has_flag-flags_of :
    (a b c : Bool)
    → (has_flag (flags_of a b c) 1 ≡ a)
      × (has_flag (flags_of a b c) 2 ≡ b)
      × (has_flag (flags_of a b c) 4 ≡ c)
      × (has_flag (flags_of a b c) 0xf8 ≡ false)
unfolding has_flag flags_of flag
has_flag-flags_of true true true = (refl, refl, refl, refl)
has_flag-flags_of true true false = (refl, refl, refl, refl)
has_flag-flags_of true false true = (refl, refl, refl, refl)
has_flag-flags_of true false false = (refl, refl, refl, refl)
has_flag-flags_of false true true = (refl, refl, refl, refl)
has_flag-flags_of false true false = (refl, refl, refl, refl)
has_flag-flags_of false false true = (refl, refl, refl, refl)
has_flag-flags_of false false false = (refl, refl, refl, refl)

all_padding-replicate : (n : ℕ) → all_padding (replicate n 0) ≡ true
unfolding all_padding
all_padding-replicate zero = refl
all_padding-replicate (suc n) = all_padding-replicate n

take-replicate : (n : ℕ) (rest : List ℕ) → take n (replicate n 0 ++ rest) ≡ replicate n 0
take-replicate zero rest = refl
take-replicate (suc n) rest = ap (λ l. 0 ∷ l) (take-replicate n rest)

module _ {N : Type 0} (utf8 : Utf8) where
  -- What is decoded of a column.
  abbrev pub stored_column : ColumnDef N → DecodedCatalogColumn
  stored_column c = record {
    name = utf8.decode (utf8.encode c.name);
    type = c.type;
    nullable = c.nullable;
    primary_key = c.primary_key;
    unique = c.unique;
  }

  decode_column-reads :
      (c : ColumnDef N) (off : ℕ) (buf : List ℕ)
      → let name = utf8.encode c.name in
        0 < length name
        → length name ≤ 64
        → byte_at buf off ≡ length name
        → all_padding (take (64 - length name) (drop (off + 1 + length name) buf)) ≡ true
        → byte_at buf (off + 65) ≡ type_to_byte c.type
        → byte_at buf (off + 66) ≡ flags_of c.nullable c.primary_key c.unique
        → take (length name) (drop (off + 1) buf) ≡ name
        → decode_column utf8 off buf ≡ ok (stored_column c)
  unfolding decode_column
  decode_column-reads c off buf some_name fits len padding type flags name =
      let (nullable, primary_key, unique, reserved) =
        has_flag-flags_of c.nullable c.primary_key c.unique in
      let named : ((length (utf8.encode c.name) == 0 || ltb 64 (length (utf8.encode c.name)))
          ≡ false) =
        ground arith in
      rw len (
        rw (named, padding)
          (rw type (
            rw (type_at-type_to_byte c.type)
              (rw flags (rw (reserved, nullable, primary_key, unique, name) refl)))))

  decode_column-block :
      (c : ColumnDef N) (done rest : List ℕ)
      → 0 < length (utf8.encode c.name)
      → length (utf8.encode c.name) ≤ 64
      → decode_column utf8 (length done) (done ++ (column_block utf8 c ++ rest))
        ≡ ok (stored_column c)
  unfolding byte_at
  decode_column-block c done rest some_name fits =
      let name = utf8.encode c.name in
      let n = length name in
      let d = length done in
      let type = type_to_byte c.type in
      let flags = flags_of c.nullable c.primary_key c.unique in
      let field : List ℕ = name_field name in
      let zeros : List ℕ = replicate (64 - n) 0 in
      let tail : List ℕ = type ∷ flags ∷ rest in
      let block : List ℕ = column_block utf8 c ++ rest in
      let flat : (block ≡ field ++ tail) = append_assoc field (type ∷ flags ∷ []) rest in
      let spelt : (block ≡ n ∷ (name ++ (zeros ++ tail))) =
        flat ∙ ap (λ l. n ∷ l) (append_assoc name zeros tail) in
      let start : (d ≡ d + 0) = omega arith in
      let behind : (d + 1 + n ≡ d + suc n) = omega arith in
      let at_type : (65 ≡ length field + 0) = omega (arith, length-name_field name fits) in
      let at_flags : (66 ≡ length field + 1) = omega (arith, length-name_field name fits) in
      decode_column-reads c d (done ++ block) some_name fits
        (ap (byte_at (done ++ block)) start ∙ byte_at-append done block 0)
        (ap (λ l. all_padding (take (64 - n) l))
            (ap (λ k. drop k (done ++ block)) behind
              ∙ drop-append done block (suc n)
              ∙ ap (drop (suc n)) spelt
              ∙ drop-length name (zeros ++ tail))
          ∙ ap all_padding (take-replicate (64 - n) tail)
          ∙ all_padding-replicate (64 - n))
        (byte_at-append done block 65
          ∙ ap (λ l. byte_at l 65) flat
          ∙ ap (byte_at (field ++ tail)) at_type
          ∙ byte_at-append field tail 0)
        (byte_at-append done block 66
          ∙ ap (λ l. byte_at l 66) flat
          ∙ ap (byte_at (field ++ tail)) at_flags
          ∙ byte_at-append field tail 1)
        (ap (take n) (drop-append done block 1 ∙ ap (drop 1) spelt)
          ∙ take-length name (zeros ++ tail))

  pub decode_columns-blocks :
      (columns : List (ColumnDef N)) (done rest : List ℕ)
      → NamesFit utf8 columns
      → decode_columns utf8
          (length columns)
          (length done)
          (done ++ (column_blocks utf8 columns ++ rest))
        ≡ ok (map stored_column columns)
  unfolding decode_columns column_blocks
  decode_columns-blocks [] done rest fit = refl
  decode_columns-blocks (c ∷ columns) done rest fit =
      let block : List ℕ = column_block utf8 c in
      let more : List ℕ = column_blocks utf8 columns ++ rest in
      let buf : List ℕ = done ++ ((block ++ column_blocks utf8 columns) ++ rest) in
      let split : (buf ≡ done ++ (block ++ more)) =
        ap (λ l. done ++ l) (append_assoc block (column_blocks utf8 columns) rest) in
      let behind : (length done + 67 ≡ length (done ++ block)) =
        omega (arith, length-append done block, length-column_block utf8 c fit.1) in
      let first : (decode_column utf8 (length done) buf ≡ ok (stored_column c)) =
        ap (decode_column utf8 (length done)) split ∙ decode_column-block c done more fit.0 fit.1 in
      let others : (decode_columns utf8 (length columns) (length done + 67) buf
          ≡ ok (map stored_column columns)) =
        ap (decode_columns utf8 (length columns) (length done + 67))
          (split ∙ sym (append_assoc done block more))
        ∙ ap (λ k. decode_columns utf8 (length columns) k ((done ++ block) ++ more)) behind
        ∙ decode_columns-blocks columns (done ++ block) rest fit.2 in
      rw first (rw others refl)
