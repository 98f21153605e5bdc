-- ===== src/Relational/CatalogRecord/Blocks.antt =====
-- catalog_record.ts: what an encoded record consists of, as concatenated blocks.
use mathlib.Core.List.{append_assoc}
use takyondb.Prelude.{
  ℕ, zero, suc, ◌+◌, ◌-◌, ◌*◌, ◌/◌, ◌%◌, ◌≤◌, ◌<◌, ◌≡◌, ◌∙◌, refl, sym, ap, false, ◌||◌, List, [],
  ◌∷◌, ◌++◌, ltb, ◌==◌, length, drop, replicate, ok, arith, length-append, length-replicate,
}
use takyondb.Js.Bytes.{set_byte, set_bytes, set_uint16, set_uint32}
use takyondb.Js.Blocks.{replicate_add, set_bytes-append, set_byte-append, set_bytes_behind}
use takyondb.Js.Text.{Text}
use takyondb.Relational.Column.{ColumnDef}
use takyondb.Js.Utf8.{Utf8}
use takyondb.Relational.CatalogRecord.{
  encode_columns, encode_catalog_record, type_to_byte, flags_of, is_bad_name, catalog_encoded_len,
}

-- A name in a field of 64 bytes behind its length.
abbrev pub name_field : List ℕ → List ℕ
name_field name = length name ∷ (name ++ replicate (64 - length name) 0)

pub length-name_field : (name : List ℕ) → length name ≤ 64 → length (name_field name) ≡ 65
length-name_field name h = omega (
  arith,
  length-append name (replicate (64 - length name) 0),
  length-replicate (64 - length name) zero,
)

drop_blank : (n : ℕ) (rest : List ℕ) → drop n (replicate n 0 ++ rest) ≡ rest
drop_blank zero rest = refl
drop_blank (suc n) rest = drop_blank n rest

-- A name written into a field of zeros.
set_bytes-field :
    (name rest : List ℕ)
    → length name ≤ 64
    → set_bytes (set_byte (replicate 65 0 ++ rest) 0 (length name)) 1 name ≡ name_field name ++ rest
unfolding set_byte
set_bytes-field name rest h =
    let n = length name in
    let split : (64 ≡ n + (64 - n)) = omega arith in
    let blank : (replicate 64 0 ++ rest ≡ replicate n 0 ++ (replicate (64 - n) 0 ++ rest)) =
      ap (λ k. replicate k 0 ++ rest) split
      ∙ ap (λ l. l ++ rest) (replicate_add n (64 - n) 0)
      ∙ append_assoc (replicate n 0) (replicate (64 - n) 0) rest in
    let room : (n ≤ length (replicate {A = ℕ} 64 0 ++ rest)) =
      omega (arith, length-append (replicate 64 zero) rest) in
    set_bytes-append (n ∷ []) (replicate 64 0 ++ rest) name room
    ∙ ap (λ l. n ∷ (name ++ l)) (ap (drop n) blank ∙ drop_blank n (replicate (64 - n) 0 ++ rest))
    ∙ ap (λ l. n ∷ l) (sym (append_assoc name (replicate (64 - n) 0) rest))

-- The header, the number of columns and the name of the table.
abbrev pub head_block : ℕ → List ℕ
head_block count = 0x54 ∷ 0x41 ∷ 0x43 ∷ 0x54 ∷ 1 ∷ 0 ∷ count % 256 ∷ count / 256 % 256 ∷ []

head_written : ℕ → ℕ → List ℕ → List ℕ
head_written count size name =
    let magic = set_uint32 (replicate size 0) 0 0x54434154 in
    let header = set_uint16 (set_uint16 magic 4 1) 6 count in
    set_bytes (set_byte header 8 (length name % 256)) 9 name

head_written-blocks :
    (count more : ℕ) (name : List ℕ)
    → length name ≤ 64
    → head_written count (73 + more) name
      ≡ (head_block count ++ name_field name) ++ replicate more 0
unfolding head_written set_uint32 set_uint16 set_byte
head_written-blocks count more name h =
    let n = length name in
    let low : (n % 256 ≡ n) = omega arith in
    let rest : List ℕ = replicate 65 0 ++ replicate more 0 in
    rw (replicate_add 73 more 0) (
      set_bytes_behind (head_block count) (set_byte rest 0 (n % 256)) 1 name
      ∙ ap (λ k. head_block count ++ set_bytes (set_byte rest 0 k) 1 name) low
      ∙ ap (λ l. head_block count ++ l) (set_bytes-field name (replicate more 0) h))

module _ {N : Type 0} (utf8 : Utf8) where
  -- A column: its name, its type and its flags.
  abbrev pub column_block : ColumnDef N → List ℕ
  column_block c =
      name_field (utf8.encode c.name)
      ++ type_to_byte c.type ∷ flags_of c.nullable c.primary_key c.unique ∷ []

  unfoldable pub column_blocks : List (ColumnDef N) → List ℕ
  column_blocks [] = []
  column_blocks (c ∷ columns) = column_block c ++ column_blocks columns

  abbrev pub NamesFit : List (ColumnDef N) → Type 0
  NamesFit [] = Unit {0}
  NamesFit (c ∷ columns) =
      (0 < length (utf8.encode c.name)) × (length (utf8.encode c.name) ≤ 64) × NamesFit columns

  abbrev flagged : ColumnDef N → ℕ → List ℕ → List ℕ
  flagged c off out =
      let name = utf8.encode c.name in
      let named = set_bytes (set_byte out off (length name)) (off + 1) name in
      let typed = set_byte named (off + 65) (type_to_byte c.type) in
      set_byte typed (off + 66) (flags_of c.nullable c.primary_key c.unique)

  -- The four writes of one round, behind what is written already.
  flagged-block :
      (c : ColumnDef N) (done rest : List ℕ)
      → length (utf8.encode c.name) ≤ 64
      → flagged c (length done) (done ++ (replicate 67 0 ++ rest))
        ≡ done ++ (column_block c ++ rest)
  unfolding set_byte
  flagged-block c done rest h =
      let name = utf8.encode c.name in
      let type = type_to_byte c.type in
      let flags = flags_of c.nullable c.primary_key c.unique in
      let d = length done in
      let out : List ℕ = replicate 67 0 ++ rest in
      let field : List ℕ = name_field name in
      let start : (d ≡ d + 0) = omega arith in
      let at_type : (65 ≡ length field + 0) = omega (arith, length-name_field name h) in
      let at_flags : (66 ≡ length field + 1) = omega (arith, length-name_field name h) in
      let typed : (set_byte (field ++ 0 ∷ 0 ∷ rest) 65 type ≡ field ++ type ∷ 0 ∷ rest) =
        ap (λ k. set_byte (field ++ 0 ∷ 0 ∷ rest) k type) at_type
        ∙ set_byte-append field (0 ∷ 0 ∷ rest) 0 type in
      let whole : (set_byte (field ++ type ∷ 0 ∷ rest) 66 flags ≡ field ++ type ∷ flags ∷ rest) =
        ap (λ k. set_byte (field ++ type ∷ 0 ∷ rest) k flags) at_flags
        ∙ set_byte-append field (type ∷ 0 ∷ rest) 1 flags in
      ap (λ b. set_byte (set_byte (set_bytes b (d + 1) name) (d + 65) type) (d + 66) flags)
        (ap (λ k. set_byte (done ++ out) k (length name)) start
          ∙ set_byte-append done out 0 (length name))
      ∙ ap (λ b. set_byte (set_byte b (d + 65) type) (d + 66) flags)
          (set_bytes_behind done (set_byte out 0 (length name)) 1 name
            ∙ ap (λ l. done ++ l) (set_bytes-field name (0 ∷ 0 ∷ rest) h))
      ∙ ap (λ b. set_byte b (d + 66) flags)
          (set_byte-append done (field ++ 0 ∷ 0 ∷ rest) 65 type ∙ ap (λ l. done ++ l) typed)
      ∙ set_byte-append done (field ++ type ∷ 0 ∷ rest) 66 flags
      ∙ ap (λ l. done ++ l) (whole ∙ sym (append_assoc field (type ∷ flags ∷ []) rest))

  pub length-column_block :
      (c : ColumnDef N) → length (utf8.encode c.name) ≤ 64 → length (column_block c) ≡ 67
  length-column_block c h =
      let type = type_to_byte c.type in
      let flags = flags_of c.nullable c.primary_key c.unique in
      let field : List ℕ = name_field (utf8.encode c.name) in
      omega
        (arith, length-append field (type ∷ flags ∷ []), length-name_field (utf8.encode c.name) h)

  -- The loop writes the blocks of the columns over the zeros behind what is written already.
  pub encode_columns-blocks :
      (columns : List (ColumnDef N)) (done : List ℕ)
      → NamesFit columns
      → encode_columns utf8 (length done) columns (done ++ replicate (length columns * 67) 0)
        ≡ ok (done ++ column_blocks columns)
  unfolding encode_columns column_blocks
  encode_columns-blocks [] done fit = refl
  encode_columns-blocks (c ∷ columns) done fit =
      let name = utf8.encode c.name in
      let size : (suc (length columns) * 67 ≡ 67 + length columns * 67) = omega arith in
      let blank : (replicate (suc (length columns) * 67) zero
          ≡ replicate 67 zero ++ replicate (length columns * 67) zero) =
        ap (λ k. replicate k zero) size ∙ replicate_add 67 (length columns * 67) zero in
      let fits : ((length name == 0 || ltb 64 (length name)) ≡ false) = ground arith in
      let behind : (length done + 67 ≡ length (done ++ column_block c)) =
        omega (arith, length-append done (column_block c), length-column_block c fit.1) in
      rw fits (
        ap (λ b. encode_columns utf8 (length done + 67) columns b)
          (ap (λ l. flagged c (length done) (done ++ l)) blank
            ∙ flagged-block c done (replicate (length columns * 67) 0) fit.1
            ∙ sym (append_assoc done (column_block c) (replicate (length columns * 67) 0)))
        ∙ ap
            (λ k.
              encode_columns utf8 k columns
                ((done ++ column_block c) ++ replicate (length columns * 67) 0))
            behind
        ∙ encode_columns-blocks columns (done ++ column_block c) fit.2
        ∙ ap ok (append_assoc done (column_block c) (column_blocks columns)))

  abbrev pub record_blocks : Text → List (ColumnDef N) → List ℕ
  record_blocks table columns =
      head_block (length columns) ++ (name_field (utf8.encode table) ++ column_blocks columns)

  -- What is asked of the arguments: lengths that the code checks, and one that it does not.
  pub record Encodable (table : Text) (columns : List (ColumnDef N)) : Type 0 where
    pub named : is_bad_name table ≡ false
    pub table_fits : (0 < length (utf8.encode table)) × (length (utf8.encode table) ≤ 64)
    pub some_columns : (0 < length columns) × (length columns ≤ 32)
    pub names_fit : NamesFit columns

  pub encode_catalog_record-blocks :
      (table : Text) (columns : List (ColumnDef N))
      → Encodable table columns
      → encode_catalog_record utf8 table columns ≡ ok (record_blocks table columns)
  unfolding encode_catalog_record catalog_encoded_len head_written
  encode_catalog_record-blocks table columns e =
      let name = utf8.encode table in
      let count = length columns in
      let counted : ((count == 0 || ltb 32 count) ≡ false) = ground arith in
      let size : (8 + 65 + count * 67 ≡ 73 + count * 67) = omega arith in
      let inside : (ltb (8 + 65 + count * 67) (9 + length name) ≡ false) = ground arith in
      let start : (73 ≡ length (head_block count ++ name_field name)) =
        omega (arith, length-name_field name e.table_fits.1) in
      rw e.named (
        rw counted (
          rw inside (
            ap (λ k. encode_columns utf8 73 columns (head_written count k name)) size
            ∙ ap (encode_columns utf8 73 columns)
                (head_written-blocks count (count * 67) name e.table_fits.1)
            ∙ ap
                (λ k.
                  encode_columns utf8 k columns
                    ((head_block count ++ name_field name) ++ replicate (count * 67) 0))
                start
            ∙ encode_columns-blocks columns (head_block count ++ name_field name) e.names_fit)))
