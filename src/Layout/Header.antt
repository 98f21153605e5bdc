-- ===== src/Layout/Header.antt =====
-- client/layout.ts: the header that `writeRegions` writes is the one that `readRegions` reads.
use takyondb.Prelude.{
  ℕ, ◌+◌, ◌^◌, ◌≤◌, ◌<◌, ◌≡◌, inl, refl, List, [], ◌∷◌, ok, arith, length, ◌∙◌, All,
}
use takyondb.Js.Bytes.{
  get_uint32, set_uint32, length-set_uint32, get_uint32-set_uint32_self,
  get_uint32-set_uint32_apart,
}
use takyondb.Layout.{Regions, header_bytes, write_words, header_words, write_regions, read_regions}

-- Every field fits its header word.
pub record IsWords (r : Regions) : Type 0 where
  pub arena_bytes : r.arena_bytes < 2 ^ 32
  pub ring_capacity : r.ring_capacity < 2 ^ 32
  pub record_start : r.record_start < 2 ^ 32
  pub record_bytes : r.record_bytes < 2 ^ 32
  pub art_root : r.art_root < 2 ^ 32
  pub art_bytes : r.art_bytes < 2 ^ 32
  pub string_start : r.string_start < 2 ^ 32
  pub string_bytes : r.string_bytes < 2 ^ 32

abbrev Fits : ℕ → List (ℕ × ℕ) → Type 0
Fits len = All (λ w. (w.0 + 4 ≤ len) × (w.1 < 2 ^ 32))

-- Each word ends where a later one starts, or before.
abbrev Ascending : List (ℕ × ℕ) → Type 0
Ascending [] = Unit
Ascending ((i, v) ∷ words) = All (λ w. i + 4 ≤ w.0) words × Ascending words

-- Writes beyond a word leave it.
write_words-beyond :
    (len j : ℕ) (words : List (ℕ × ℕ)) (buffer : List ℕ)
    → length buffer ≡ len
    → Fits len words
    → All (λ w. j + 4 ≤ w.0) words
    → get_uint32 (write_words buffer words) j ≡ get_uint32 buffer j
unfolding write_words
write_words-beyond len j [] buffer e fits h = refl
write_words-beyond len j ((i, v) ∷ words) buffer e fits h =
    write_words-beyond len j words (set_uint32 buffer i v) (length-set_uint32 buffer i v ∙ e) fits.1
      h.1
    ∙ get_uint32-set_uint32_apart buffer i j v (omega arith) (inl h.0)

-- Words that are written in ascending order are all read back.
write_words-read :
    (len : ℕ) (words : List (ℕ × ℕ)) (buffer : List ℕ)
    → length buffer ≡ len
    → Fits len words
    → Ascending words
    → All (λ w. get_uint32 (write_words buffer words) w.0 ≡ w.1) words
unfolding write_words
write_words-read len [] buffer e fits h = tt
write_words-read len ((i, v) ∷ words) buffer e fits h =
    let after = set_uint32 buffer i v in
    let same = length-set_uint32 buffer i v ∙ e in
    (
      write_words-beyond len i words after same fits.1 h.0
          ∙ get_uint32-set_uint32_self buffer i v (omega arith) fits.0.1,
      write_words-read len words after same fits.1 h.1,
    )

length-write_words :
    (words : List (ℕ × ℕ)) (buffer : List ℕ) → length (write_words buffer words) ≡ length buffer
unfolding write_words
length-write_words [] buffer = refl
length-write_words ((i, v) ∷ words) buffer =
    length-write_words words (set_uint32 buffer i v) ∙ length-set_uint32 buffer i v

-- A header whose words are the magic, the version and the fields of a table reads as the table.
read_regions_of_words :
    (b : List ℕ) (r : Regions)
    → header_bytes ≤ length b
    → All (λ w. get_uint32 b w.0 ≡ w.1) (header_words r)
    → read_regions b ≡ ok r
unfolding read_regions header_words
read_regions_of_words b r room read = ground arith

-- The table that is written into a buffer with room for a header is the one that is read from it,
-- if each of its fields fits a 32-bit word.
pub read-write_regions :
    (buffer : List ℕ) (r : Regions)
    → header_bytes ≤ length buffer
    → IsWords r
    → (written : List ℕ) × (write_regions buffer r ≡ ok written)
      × (length written ≡ length buffer)
      × (read_regions written ≡ ok r)
unfolding write_regions header_words
read-write_regions buffer r room words =
    let written = write_words buffer (header_words r) in
    let len = length-write_words (header_words r) buffer in
    let read =
      write_words-read (length buffer) (header_words r) buffer refl (omega arith) (omega arith) in
    (written, ground arith, len, read_regions_of_words written r (omega arith) read)
