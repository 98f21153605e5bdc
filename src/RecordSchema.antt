-- ===== src/RecordSchema.antt =====
-- client/schema.ts: a field list compiled into the aligned byte offsets of an arena record.
pub mod Alignment
pub mod Named
use takyondb.Prelude.{
  ℕ, ◌+◌, ◌-◌, ◌*◌, ◌/◌, Bool, List, [], ◌∷◌, Result, ok, err, ◌>>=◌, empty_schema,
}
use takyondb.Js.Text.{Text}
use takyondb.Js.Dict.{Dict, put}

pub data FieldType : Type 0 where
  uint8 uint32 float64 string : FieldType

pub record FieldDefinition : Type 0 where
  pub type : FieldType
  pub offset : ℕ
  pub size : ℕ

abbrev pub record_alignment : ℕ
record_alignment = 8

-- `Math.ceil(value / align) * align`
unfoldable pub align_up : ℕ → ℕ → ℕ
align_up value align = (value + (align - 1)) / align * align

unfoldable pub field_size : FieldType → ℕ
field_size uint8 = 1
field_size uint32 = 4
field_size float64 = 8
field_size string = 8

unfoldable pub field_align : FieldType → ℕ
field_align uint8 = 1
field_align uint32 = 4
field_align float64 = 8
field_align string = 8

pub record TakyonSchema : Type 0 where
  pub fields : Dict FieldDefinition
  pub total_size : ℕ

-- The loop over `Object.entries(schemaDef)`: the fields in their order, and the final offset.
unfoldable pub compile_fields : ℕ → List (Text × FieldType) → List (Text × FieldDefinition) × ℕ
unfolding align_up field_size field_align
compile_fields current [] = ([], current)
compile_fields current ((key, type) ∷ def) =
    let offset = align_up current (field_align type) in
    let size = field_size type in
    let (rest, end) = compile_fields (offset + size) def in
    ((key, record { type = type; offset = offset; size = size }) ∷ rest, end)

-- the constructor of `TakyonSchema`
unfoldable pub compile_record : List (Text × FieldType) → Result TakyonSchema
unfolding compile_fields
compile_record [] = err empty_schema
compile_record (d ∷ def) =
    let (fields, end) = compile_fields 0 (d ∷ def) in
    ok (record { fields = fields; total_size = align_up end record_alignment })
