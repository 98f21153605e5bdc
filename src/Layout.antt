-- ===== src/Layout.antt =====
-- client/layout.ts: the regions of the shared arena, and the header that holds their table.
pub mod Header
pub mod Valid
use takyondb.Js.Bytes.{get_uint32, set_uint32}
use takyondb.Prelude.{
  ℕ, ◌+◌, ◌-◌, ◌*◌, ◌/◌, ◌%◌, ◌^◌, bit_and, Bool, not, ◌||◌, List, [], ◌∷◌, ltb, leb, ◌==◌, length,
  Result, ok, err, throw_if, ◌>>=◌, ◌>>◌, if◌then◌else◌, arena_too_small, magic_mismatch,
  version_mismatch, bytes_mismatch, bad_ring_capacity, record_inside_ring, record_runs_into_index,
  root_misaligned, index_runs_into_strings, string_region_too_small, string_region_past_end,
}

abbrev pub ring_offset : ℕ
ring_offset = 1024

abbrev pub ring_default_capacity : ℕ
ring_default_capacity = 4096

abbrev pub delta_size : ℕ
delta_size = 64

abbrev pub ring_header_bytes : ℕ
ring_header_bytes = 192

abbrev pub ring_seq_bytes : ℕ
ring_seq_bytes = 8

abbrev pub layout_version : ℕ
layout_version = 4

abbrev pub layout_version_unaligned_records : ℕ
layout_version_unaligned_records = 3

abbrev pub arena_magic : ℕ
arena_magic = 0x54414b59

abbrev pub header_bytes : ℕ
header_bytes = 48

abbrev pub record_start_default : ℕ
record_start_default =
    ring_offset + ring_header_bytes + ring_default_capacity * (delta_size + ring_seq_bytes) + 8

abbrev pub art_root_offset : ℕ
art_root_offset = 2097152

abbrev pub string_arena_start : ℕ
string_arena_start = 10 * 1024 * 1024

abbrev pub min_arena_size : ℕ
min_arena_size = 16 * 1024 * 1024

unfoldable pub ring_bytes : ℕ → ℕ
ring_bytes capacity = ring_header_bytes + capacity * (delta_size + ring_seq_bytes)

unfoldable pub min_arena_for_capacity : ℕ → ℕ
unfolding ring_bytes
min_arena_for_capacity capacity = ring_offset + ring_bytes capacity + 1024

pub record Regions : Type 0 where
  pub arena_bytes : ℕ
  pub ring_capacity : ℕ
  pub record_start : ℕ
  pub record_bytes : ℕ
  pub art_root : ℕ
  pub art_bytes : ℕ
  pub string_start : ℕ
  pub string_bytes : ℕ

unfoldable pub record_bump_offset : Regions → ℕ
unfolding ring_bytes
record_bump_offset r = ring_offset + ring_bytes r.ring_capacity

unfoldable pub art_start : Regions → ℕ
art_start r = r.art_root + 8

unfoldable pub art_bump_offset : Regions → ℕ
art_bump_offset r = r.art_root + 4

unfoldable pub string_data_start : Regions → ℕ
string_data_start r = r.string_start + 8

-- `a & b`, which reads its operands as 32-bit words: zero or not.
unfoldable pub word_and : ℕ → ℕ → ℕ
word_and a b = bit_and (a % 2 ^ 32) (b % 2 ^ 32)

unfoldable pub validate_regions : Regions → ℕ → Result (Unit {0})
unfolding record_bump_offset word_and
validate_regions r mapped_bytes = do
  throw_if (ltb mapped_bytes header_bytes) arena_too_small
  throw_if (not (r.arena_bytes == mapped_bytes)) bytes_mismatch
  let cap = r.ring_capacity
  throw_if (ltb cap 16 || not (word_and cap (cap - 1) == 0)) bad_ring_capacity
  throw_if (ltb r.record_start (record_bump_offset r + 8)) record_inside_ring
  throw_if (ltb r.art_root (r.record_start + r.record_bytes)) record_runs_into_index
  throw_if (not (r.art_root % 8 == 0)) root_misaligned
  throw_if (ltb r.string_start (r.art_root + r.art_bytes)) index_runs_into_strings
  throw_if (ltb r.string_bytes 8) string_region_too_small
  throw_if (ltb r.arena_bytes (r.string_start + r.string_bytes)) string_region_past_end
  ok tt

unfoldable pub read_regions : List ℕ → Result Regions
read_regions buffer = do
  throw_if (ltb (length buffer) header_bytes) arena_too_small
  throw_if (not (get_uint32 buffer 0 == arena_magic)) magic_mismatch
  throw_if (leb (get_uint32 buffer 4) layout_version_unaligned_records) version_mismatch
  ok (record {
    arena_bytes = get_uint32 buffer 8;
    ring_capacity = get_uint32 buffer 12;
    record_start = get_uint32 buffer 16;
    record_bytes = get_uint32 buffer 20;
    art_root = get_uint32 buffer 24;
    art_bytes = get_uint32 buffer 28;
    string_start = get_uint32 buffer 32;
    string_bytes = get_uint32 buffer 36;
  })

unfoldable pub default_regions : ℕ → Regions
default_regions arena_bytes = record {
  arena_bytes = arena_bytes;
  ring_capacity = ring_default_capacity;
  record_start = record_start_default;
  record_bytes = art_root_offset - record_start_default;
  art_root = art_root_offset;
  art_bytes = string_arena_start - art_root_offset;
  string_start = string_arena_start;
  string_bytes = arena_bytes - string_arena_start;
}

-- The writes of the header, one after another.
unfoldable pub write_words : List ℕ → List (ℕ × ℕ) → List ℕ
write_words buffer [] = buffer
write_words buffer ((i, v) ∷ words) = write_words (set_uint32 buffer i v) words

unfoldable pub header_words : Regions → List (ℕ × ℕ)
header_words r =
    (0, arena_magic)
    ∷ (4, layout_version)
    ∷ (8, r.arena_bytes)
    ∷ (12, r.ring_capacity)
    ∷ (16, r.record_start)
    ∷ (20, r.record_bytes)
    ∷ (24, r.art_root)
    ∷ (28, r.art_bytes)
    ∷ (32, r.string_start)
    ∷ (36, r.string_bytes)
    ∷ []

unfoldable pub write_regions : List ℕ → Regions → Result (List ℕ)
unfolding write_words header_words
write_regions buffer r = do
  throw_if (ltb (length buffer) header_bytes) arena_too_small
  ok (write_words buffer (header_words r))
