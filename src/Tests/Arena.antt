-- ===== src/Tests/Arena.antt =====
-- The arena's table of regions and the record schemas at concrete sizes.
use takyondb.Prelude.{ℕ, ◌↔◌, ◌≡◌, refl, List, [], ◌∷◌, ok, arith, length, replicate}
use takyondb.Js.Text.{Text, codes}
use takyondb.Layout.{
  Regions, validate_regions, header_bytes, read_regions, write_regions, ring_bytes,
}
use takyondb.Layout.Valid.{IsLayout, validate_regions_iff}
use takyondb.Layout.Header.{IsWords, read-write_regions}
use takyondb.RecordSchema.{
  FieldType, FieldDefinition, TakyonSchema, compile_record, compile_fields, align_up, field_size,
  field_align, uint8, float64,
}

abbrev small : Regions
small = record {
  arena_bytes = 4096;
  ring_capacity = 16;
  record_start = 2048;
  record_bytes = 1024;
  art_root = 3072;
  art_bytes = 512;
  string_start = 3584;
  string_bytes = 512;
}

abbrev fields : List (Text × FieldType)
fields = (codes "flag", uint8) ∷ (codes "price", float64) ∷ []

abbrev flag : Text × FieldDefinition
flag = (codes "flag", record { type = uint8; offset = 0; size = 1 })

abbrev price : Text × FieldDefinition
price = (codes "price", record { type = float64; offset = 8; size = 8 })

abbrev priced : TakyonSchema
priced = record { fields = flag ∷ price ∷ []; total_size = 16 }

program : Unit {0}
unfolding compile_record compile_fields align_up field_size field_align ring_bytes
program = tt

priced-compiles : compile_record fields ≡ ok priced
unfolding program
priced-compiles = refl

validate_regions_iff_example : (validate_regions small 4096 ≡ ok tt) ↔ IsLayout small 4096
validate_regions_iff_example = validate_regions_iff small 4096 (omega arith)

abbrev blank : List ℕ
blank = replicate header_bytes 0

small-IsWords : IsWords small
small-IsWords = record {
  arena_bytes = omega arith;
  ring_capacity = omega arith;
  record_start = omega arith;
  record_bytes = omega arith;
  art_root = omega arith;
  art_bytes = omega arith;
  string_start = omega arith;
  string_bytes = omega arith;
}

read-write_regions_example :
    (written : List ℕ) × (write_regions blank small ≡ ok written)
    × (length written ≡ length blank)
    × (read_regions written ≡ ok small)
read-write_regions_example = read-write_regions blank small (omega arith) small-IsWords
