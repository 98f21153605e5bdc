-- ===== src/Layout/Valid.antt =====
-- client/layout.ts: `validateRegions` accepts exactly the tables whose regions lie in order.
use takyondb.Prelude.{ℕ, ◌+◌, ◌-◌, ◌%◌, ◌^◌, ◌<◌, ◌≤◌, ◌≡◌, ◌↔◌, ◌∙◌, sym, refl, bit_and, ok, arith}
use takyondb.Prelude.Bits.{IsPowerOfTwo, IsPowerOfTwo-iff}
use takyondb.Layout.{
  Regions, ring_offset, ring_bytes, header_bytes, min_arena_size, word_and, validate_regions,
  default_regions,
}

-- The ring, the record bump word, the records, the index and the strings follow one another inside
-- a mapping of the size that the table names.
pub record IsLayout (r : Regions) (mapped_bytes : ℕ) : Type 0 where
  pub holds_header : header_bytes ≤ mapped_bytes
  pub mapped : r.arena_bytes ≡ mapped_bytes
  pub ring_slots : 16 ≤ r.ring_capacity
  pub ring_power : IsPowerOfTwo r.ring_capacity
  pub ring_before_records : ring_offset + ring_bytes r.ring_capacity + 8 ≤ r.record_start
  pub records_before_index : r.record_start + r.record_bytes ≤ r.art_root
  pub root_aligned : r.art_root % 8 ≡ 0
  pub index_before_strings : r.art_root + r.art_bytes ≤ r.string_start
  pub string_word : 8 ≤ r.string_bytes
  pub strings_inside : r.string_start + r.string_bytes ≤ r.arena_bytes

-- The same with the test that the code makes of the capacity.
record Passes (r : Regions) (mapped_bytes : ℕ) : Type 0 where
  holds_header : header_bytes ≤ mapped_bytes
  mapped : r.arena_bytes ≡ mapped_bytes
  ring_slots : 16 ≤ r.ring_capacity
  no_shared_bit : word_and r.ring_capacity (r.ring_capacity - 1) ≡ 0
  ring_before_records : ring_offset + ring_bytes r.ring_capacity + 8 ≤ r.record_start
  records_before_index : r.record_start + r.record_bytes ≤ r.art_root
  root_aligned : r.art_root % 8 ≡ 0
  index_before_strings : r.art_root + r.art_bytes ≤ r.string_start
  string_word : 8 ≤ r.string_bytes
  strings_inside : r.string_start + r.string_bytes ≤ r.arena_bytes

word_and-below : (a : ℕ) → a < 2 ^ 32 → word_and a (a - 1) ≡ bit_and a (a - 1)
unfolding word_and
word_and-below a h =
    let here : (a % 2 ^ 32 ≡ a) = omega arith in
    let before : ((a - 1) % 2 ^ 32 ≡ a - 1) = omega arith in rw here (rw before refl)

validate_regions-Passes :
    (r : Regions) (mapped_bytes : ℕ)
    → validate_regions r mapped_bytes ≡ ok tt
    → Passes r mapped_bytes
unfolding validate_regions
validate_regions-Passes r mapped_bytes h = ground arith

Passes-validate_regions :
    (r : Regions) (mapped_bytes : ℕ)
    → Passes r mapped_bytes
    → validate_regions r mapped_bytes ≡ ok tt
unfolding validate_regions
Passes-validate_regions r mapped_bytes p = ground arith

-- For a capacity that fits a 32-bit word, as one read from a header does, the check passes exactly
-- if the table was built for the size of the mapping, which holds a header; the ring has a power of
-- two of at least 16 slots; the ring, the record bump word, the records, the index and the strings
-- follow one another without an overlap inside the mapping; the root of the index is a multiple of
-- 8; and the strings have at least 8 bytes. Where the strings start is not asked to be a multiple.
pub validate_regions_iff :
    (r : Regions) (mapped_bytes : ℕ)
    → r.ring_capacity < 2 ^ 32
    → (validate_regions r mapped_bytes ≡ ok tt) ↔ IsLayout r mapped_bytes
validate_regions_iff r mapped_bytes fits = (
  λ h.
      let p = validate_regions-Passes r mapped_bytes h in
      record {
        holds_header = p.holds_header;
        mapped = p.mapped;
        ring_slots = p.ring_slots;
        ring_power =
            (IsPowerOfTwo-iff r.ring_capacity (omega (arith, p.ring_slots))).0
              (sym (word_and-below r.ring_capacity fits) ∙ p.no_shared_bit);
        ring_before_records = p.ring_before_records;
        records_before_index = p.records_before_index;
        root_aligned = p.root_aligned;
        index_before_strings = p.index_before_strings;
        string_word = p.string_word;
        strings_inside = p.strings_inside;
      },
  λ v. Passes-validate_regions r mapped_bytes (record {
    holds_header = v.holds_header;
    mapped = v.mapped;
    ring_slots = v.ring_slots;
    no_shared_bit =
        word_and-below r.ring_capacity fits
        ∙ (IsPowerOfTwo-iff r.ring_capacity (omega (arith, v.ring_slots))).1 v.ring_power;
    ring_before_records = v.ring_before_records;
    records_before_index = v.records_before_index;
    root_aligned = v.root_aligned;
    index_before_strings = v.index_before_strings;
    string_word = v.string_word;
    strings_inside = v.strings_inside;
  }),
)

-- The table of an arena of at least 16 MiB that no configuration changes passes the check.
default_regions-IsLayout :
    (arena_bytes : ℕ)
    → min_arena_size ≤ arena_bytes
    → validate_regions (default_regions arena_bytes) arena_bytes ≡ ok tt
unfolding validate_regions default_regions word_and
default_regions-IsLayout arena_bytes h = ground arith
