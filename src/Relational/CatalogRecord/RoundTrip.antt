-- ===== src/Relational/CatalogRecord/RoundTrip.antt =====
-- catalog_record.ts: an encoded record is decoded to what was encoded.
use mathlib.Core.List.{append_assoc}
use takyondb.Prelude.{
  ℕ, ◌+◌, ◌-◌, ◌*◌, ◌/◌, ◌%◌, ◌≤◌, ◌<◌, ◌≡◌, ◌∙◌, refl, ap, false, ◌||◌, List, [], ◌∷◌, ◌++◌, map,
  ltb, ◌==◌, length, All, take, drop, replicate, ok, arith, length-append,
}
use takyondb.Js.Bytes.{byte_at, get_uint16, get_uint32}
use takyondb.Js.Blocks.{take-length}
use takyondb.Js.Text.{Text}
use takyondb.Relational.Column.{ColumnDef}
use takyondb.Js.Utf8.{Utf8, Survives}
use takyondb.Relational.CatalogRecord.{
  DecodedCatalogColumn, decode_columns, decode_catalog_record, encode_catalog_record,
  catalog_encoded_len,
}
use takyondb.Relational.CatalogRecord.Blocks.{
  name_field, length-name_field, column_block, column_blocks, NamesFit, head_block, record_blocks,
  Encodable, encode_catalog_record-blocks, length-column_block,
}
use takyondb.Relational.CatalogRecord.Columns.{stored_column, decode_columns-blocks}

module _ (utf8 : Utf8) where
  decode_catalog_record-reads :
      (count n : ℕ) (name buf : List ℕ) (columns : List DecodedCatalogColumn)
      → (0 < count) × (count ≤ 32)
      → (0 < n) × (n ≤ 64)
      → 73 + count * 67 ≤ length buf
      → get_uint32 buf 0 ≡ 0x54434154
      → get_uint16 buf 4 ≡ 1
      → get_uint16 buf 6 ≡ count
      → byte_at buf 8 ≡ n
      → take n (drop 9 buf) ≡ name
      → decode_columns utf8 count 73 buf ≡ ok columns
      → decode_catalog_record utf8 buf ≡ ok (record { table = utf8.decode name; columns = columns })
  unfolding decode_catalog_record catalog_encoded_len
  decode_catalog_record-reads count n name buf columns some_columns fits room magic version counted
        len table_name read =
      let long : (ltb (length buf) (8 + 65) ≡ false) = ground arith in
      let whole : (ltb (length buf) (8 + 65 + count * 67) ≡ false) = ground arith in
      let in_range : ((count == 0 || ltb 32 count) ≡ false) = ground arith in
      let named : ((n == 0 || ltb 64 n) ≡ false) = ground arith in
      rw (long, magic, version)
        (rw counted (rw (in_range, whole) (rw len (rw named (rw read (rw table_name refl))))))

module _ {N : Type 0} where
  -- What was encoded, as it is read back.
  abbrev pub decoded_column : ColumnDef N → DecodedCatalogColumn
  decoded_column c = record {
    name = c.name;
    type = c.type;
    nullable = c.nullable;
    primary_key = c.primary_key;
    unique = c.unique;
  }

module _ {N : Type 0} (utf8 : Utf8) where
  length-column_blocks :
      (columns : List (ColumnDef N))
      → NamesFit utf8 columns
      → length (column_blocks utf8 columns) ≡ length columns * 67
  unfolding column_blocks
  length-column_blocks [] fit = omega arith
  length-column_blocks (c ∷ columns) fit = omega (
    arith,
    length-append (column_block utf8 c) (column_blocks utf8 columns),
    length-column_block utf8 c fit.1,
    length-column_blocks columns fit.2,
  )

  stored-decoded :
      (columns : List (ColumnDef N))
      → All (λ c. Survives utf8 c.name) columns
      → map (stored_column utf8) columns ≡ map decoded_column columns
  stored-decoded [] s = refl
  stored-decoded (c ∷ columns) s =
      ap (λ name. record (decoded_column c) { name = name } ∷ map (stored_column utf8) columns) s.0
      ∙ ap (λ l. decoded_column c ∷ l) (stored-decoded columns s.1)

  -- The header of an encoded record.
  pub encode_catalog_record-header :
      (table : Text) (columns : List (ColumnDef N)) {buf : List ℕ}
      → Encodable utf8 table columns
      → encode_catalog_record utf8 table columns ≡ ok buf
      → (get_uint32 buf 0 ≡ 0x54434154)
        × (get_uint16 buf 4 ≡ 1)
        × (get_uint16 buf 6 ≡ length columns)
  unfolding get_uint32 get_uint16 byte_at
  encode_catalog_record-header table columns {buf} e h =
      let same : record_blocks utf8 table columns ≡ buf =
        cc (encode_catalog_record-blocks utf8 table columns e, h) in
      let count = length columns in
      let counted : (count % 256 + 256 * (count / 256 % 256) ≡ count) =
        omega (arith, e.some_columns) in
      rw (← same) (refl, refl, counted)

  -- A table name of 1 to 64 units that takes 1 to 64 bytes, and 1 to 32 columns whose names take 1
  -- to 64 bytes each, all of them texts that the platform's decoder gives back, are encoded into a
  -- record of the stated length. Decoded, whatever bytes stand behind it, it gives the name and the
  -- columns in their order, with their types and flags.
  pub decode-encode_catalog_record :
      (table : Text) (columns : List (ColumnDef N))
      → Encodable utf8 table columns
      → Survives utf8 table
      → All (λ c. Survives utf8 c.name) columns
      → (buf : List ℕ) × (encode_catalog_record utf8 table columns ≡ ok buf)
        × (length buf ≡ catalog_encoded_len (length columns))
        × ((rest : List ℕ)
            → decode_catalog_record utf8 (buf ++ rest)
              ≡ ok (record { table = table; columns = map decoded_column columns }))
  unfolding catalog_encoded_len get_uint32 get_uint16 byte_at
  decode-encode_catalog_record table columns e name_survives names_survive = (
    record_blocks utf8 table columns,
    encode_catalog_record-blocks utf8 table columns e,
    size,
    decoded,
  )
    where
      count : ℕ
      count = length columns

      name : List ℕ
      name = utf8.encode table

      blocks : List ℕ
      blocks = column_blocks utf8 columns

      before : List ℕ
      before = head_block count ++ name_field name

      size : length (before ++ blocks) ≡ catalog_encoded_len count
      size = omega (
        arith,
        length-name_field name e.table_fits.1,
        length-append (name_field name) blocks,
        length-column_blocks columns e.names_fit,
      )

      decoded :
          (rest : List ℕ)
          → decode_catalog_record utf8 ((before ++ blocks) ++ rest)
            ≡ ok (record { table = table; columns = map decoded_column columns })
      decoded rest =
          let buf : List ℕ = (before ++ blocks) ++ rest in
          let zeros : List ℕ = replicate (64 - length name) 0 in
          let start : (73 ≡ length before) = omega (arith, length-name_field name e.table_fits.1) in
          let room : (73 + count * 67 ≤ length buf) =
            omega (arith, size, length-append (before ++ blocks) rest) in
          let counted : (count % 256 + 256 * (count / 256 % 256) ≡ count) = omega arith in
          let taken : (take (length name) (drop 9 buf) ≡ name) =
            ap (take (length name)) (
              ap (λ l. l ++ rest) (append_assoc name zeros blocks)
              ∙ append_assoc name (zeros ++ blocks) rest)
            ∙ take-length name ((zeros ++ blocks) ++ rest) in
          let read : (decode_columns utf8 count 73 buf ≡ ok (map decoded_column columns)) =
            ap (decode_columns utf8 count 73) (append_assoc before blocks rest)
            ∙ ap (λ k. decode_columns utf8 count k (before ++ (blocks ++ rest))) start
            ∙ decode_columns-blocks utf8 columns before rest e.names_fit
            ∙ ap ok (stored-decoded columns names_survive) in
          decode_catalog_record-reads utf8 count (length name) name buf (map decoded_column columns)
            e.some_columns e.table_fits room refl refl counted refl taken read
          ∙ ap (λ t. ok (record { table = t; columns = map decoded_column columns })) name_survives
