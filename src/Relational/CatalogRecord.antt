-- ===== src/Relational/CatalogRecord.antt =====
-- catalog_record.ts: a table definition as a record of fixed width. A child has the store that keeps
-- such records in the arena.
pub mod Blocks
pub mod Columns
pub mod RoundTrip
pub mod Store
use takyondb.Prelude.{
  ℕ, zero, suc, ◌+◌, ◌-◌, ◌*◌, ◌%◌, bit_and, Bool, true, false, not, ◌||◌, List, [], ◌∷◌, ◌++◌, map,
  ltb, ◌==◌, length, take, drop, replicate, Result, ok, err, throw_if, ◌>>=◌, ◌>>◌, if◌then◌else◌,
  bad_table_name, bad_record_column_count, bad_record_column_name, outside_buffer,
  payload_too_short, bad_catalog_magic, bad_catalog_version, payload_truncated, padding_corrupt,
  bad_column_type, bad_flags,
}
use takyondb.Js.Text.{Text, codes}
use takyondb.Js.Bytes.{byte_at, get_uint16, get_uint32, set_byte, set_bytes, set_uint16, set_uint32}
use takyondb.Js.Utf8.{Utf8}
use takyondb.Relational.Column.{
  ColumnDef, RelationalType, bool, int8, int16, int32, int64, uint8, uint16, uint32, float32,
  float64, string, bytes, timestamp_ms,
}

abbrev pub catalog_rec_magic : ℕ
catalog_rec_magic = 0x54434154

abbrev pub catalog_rec_version : ℕ
catalog_rec_version = 1

abbrev pub header_len : ℕ
header_len = 8

abbrev pub table_field_len : ℕ
table_field_len = 65

abbrev pub column_rec_len : ℕ
column_rec_len = 67

unfoldable pub type_to_byte : RelationalType → ℕ
type_to_byte bool = 0
type_to_byte int8 = 1
type_to_byte int16 = 2
type_to_byte int32 = 3
type_to_byte int64 = 4
type_to_byte uint8 = 5
type_to_byte uint16 = 6
type_to_byte uint32 = 7
type_to_byte float32 = 8
type_to_byte float64 = 9
type_to_byte string = 10
type_to_byte bytes = 11
type_to_byte timestamp_ms = 12

abbrev pub byte_to_type : List RelationalType
byte_to_type =
    bool ∷ int8 ∷ int16 ∷ int32 ∷ int64 ∷ uint8 ∷ uint16 ∷ uint32 ∷ float32 ∷ float64 ∷ string
    ∷ bytes ∷ timestamp_ms ∷ []

-- `!table || table.length > 64`
unfoldable pub is_bad_name : Text → Bool
is_bad_name table = length table == 0 || ltb 64 (length table)

unfoldable pub catalog_record_key : Text → Result Text
unfolding is_bad_name
catalog_record_key table = do
  throw_if (is_bad_name table) bad_table_name
  ok (codes "__catalog__:" ++ table)

unfoldable pub catalog_encoded_len : ℕ → ℕ
catalog_encoded_len col_count = header_len + table_field_len + col_count * column_rec_len

unfoldable pub flag : Bool → ℕ → ℕ
flag true bit = bit
flag false bit = 0

-- The three bits do not overlap, so `|=` adds them.
unfoldable pub flags_of : Bool → Bool → Bool → ℕ
unfolding flag
flags_of nullable primary_key unique = flag nullable 1 + flag primary_key 2 + flag unique 4

module _ {N : Type 0} (utf8 : Utf8) where
  -- The loop over the columns, at the offset `off` of the buffer `out`.
  unfoldable pub encode_columns : ℕ → List (ColumnDef N) → List ℕ → Result (List ℕ)
  unfolding type_to_byte flags_of
  encode_columns off [] out = ok out
  encode_columns off (c ∷ columns) out = do
    let name = utf8.encode c.name
    throw_if (length name == 0 || ltb 64 (length name)) bad_record_column_name
    let named = set_bytes (set_byte out off (length name)) (off + 1) name
    let typed = set_byte named (off + 65) (type_to_byte c.type)
    let flagged = set_byte typed (off + 66) (flags_of c.nullable c.primary_key c.unique)
    encode_columns (off + column_rec_len) columns flagged

  -- `out.set` throws if the name does not fit, and the length byte keeps the low 8 bits.
  unfoldable pub encode_catalog_record : Text → List (ColumnDef N) → Result (List ℕ)
  unfolding is_bad_name catalog_encoded_len encode_columns
  encode_catalog_record table columns = do
    throw_if (is_bad_name table) bad_table_name
    throw_if (length columns == 0 || ltb 32 (length columns)) bad_record_column_count
    let size = catalog_encoded_len (length columns)
    let magic = set_uint32 (replicate size 0) 0 catalog_rec_magic
    let version = set_uint16 magic 4 catalog_rec_version
    let header = set_uint16 version 6 (length columns)
    let name = utf8.encode table
    throw_if (ltb size (9 + length name)) outside_buffer
    encode_columns (header_len + table_field_len) columns
        (set_bytes (set_byte header 8 (length name % 256)) 9 name)

pub record DecodedCatalogColumn : Type 0 where
  pub name : Text
  pub type : RelationalType
  pub nullable : Bool
  pub primary_key : Bool
  pub unique : Bool

pub record DecodedCatalog : Type 0 where
  pub table : Text
  pub columns : List DecodedCatalogColumn

-- `BYTE_TO_TYPE[tbyte]`, and `if (!type) throw`
unfoldable pub type_at : List RelationalType → ℕ → Result RelationalType
type_at [] i = err bad_column_type
type_at (type ∷ types) zero = ok type
type_at (type ∷ types) (suc i) = type_at types i

-- The loop over the bytes behind a name.
unfoldable pub all_padding : List ℕ → Bool
all_padding [] = true
all_padding (b ∷ bs) = let rest = all_padding bs in if b == 0 then rest else false

-- `(flags & bit) !== 0`
unfoldable pub has_flag : ℕ → ℕ → Bool
has_flag flags bit = not (bit_and flags bit == 0)

module _ (utf8 : Utf8) where
  unfoldable pub decode_column : ℕ → List ℕ → Result DecodedCatalogColumn
  unfolding type_at all_padding has_flag
  decode_column off buf = do
    let len = byte_at buf off
    throw_if (len == 0 || ltb 64 len) bad_record_column_name
    throw_if (not (all_padding (take (64 - len) (drop (off + 1 + len) buf)))) padding_corrupt
    type ← type_at byte_to_type (byte_at buf (off + 65))
    let flags = byte_at buf (off + 66)
    throw_if (has_flag flags 0xf8) bad_flags
    ok (record {
      name = utf8.decode (take len (drop (off + 1) buf));
      type = type;
      nullable = has_flag flags 1;
      primary_key = has_flag flags 2;
      unique = has_flag flags 4;
    })

  -- The loop over `count` columns from the offset `off` on.
  unfoldable pub decode_columns : ℕ → ℕ → List ℕ → Result (List DecodedCatalogColumn)
  unfolding decode_column
  decode_columns zero off buf = ok []
  decode_columns (suc count) off buf = do
    c ← decode_column off buf
    columns ← decode_columns count (off + column_rec_len) buf
    ok (c ∷ columns)

  unfoldable pub decode_catalog_record : List ℕ → Result DecodedCatalog
  unfolding catalog_encoded_len decode_columns
  decode_catalog_record buf = do
    throw_if (ltb (length buf) (header_len + table_field_len)) payload_too_short
    throw_if (not (get_uint32 buf 0 == catalog_rec_magic)) bad_catalog_magic
    throw_if (not (get_uint16 buf 4 == catalog_rec_version)) bad_catalog_version
    let count = get_uint16 buf 6
    throw_if (count == 0 || ltb 32 count) bad_record_column_count
    throw_if (ltb (length buf) (catalog_encoded_len count)) payload_truncated
    let len = byte_at buf 8
    throw_if (len == 0 || ltb 64 len) bad_table_name
    columns ← decode_columns count (header_len + table_field_len) buf
    ok (record { table = utf8.decode (take len (drop 9 buf)); columns = columns })
