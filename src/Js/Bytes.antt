-- ===== src/Js/Bytes.antt =====
-- `Uint8Array` and `DataView`: bytes as a list of numbers, and little-endian words in it.
use takyondb.Prelude.{
  ℕ, zero, suc, ◌+◌, ◌*◌, ◌/◌, ◌%◌, ◌^◌, ◌≤◌, ◌<◌, ◌≡◌, refl, ap, List, [], ◌∷◌, arith, length, ite,
  ℕ_discrete, ◌⊎◌,
}

module _ where
  -- `buf[i]`; a read past the end, which the callers rule out, gives 0
  unfoldable pub byte_at : List ℕ → ℕ → ℕ
  byte_at [] i = 0
  byte_at (b ∷ bs) zero = b
  byte_at (b ∷ bs) (suc i) = byte_at bs i

  -- `buf[i] = v` for a byte `v`; nothing is written past the end
  unfoldable pub set_byte : List ℕ → ℕ → ℕ → List ℕ
  set_byte [] i v = []
  set_byte (b ∷ bs) zero v = v ∷ bs
  set_byte (b ∷ bs) (suc i) v = b ∷ set_byte bs i v

-- `view.getUint16(i, true)` and `view.getUint32(i, true)`
unfoldable pub get_uint16 : List ℕ → ℕ → ℕ
get_uint16 buf i = byte_at buf i + 256 * byte_at buf (i + 1)

unfoldable pub get_uint32 : List ℕ → ℕ → ℕ
get_uint32 buf i =
    byte_at buf i
    + 256 * byte_at buf (i + 1)
    + 65536 * byte_at buf (i + 2)
    + 16777216 * byte_at buf (i + 3)

-- `view.setUint16(i, v, true)` and `view.setUint32(i, v, true)`
unfoldable pub set_uint16 : List ℕ → ℕ → ℕ → List ℕ
set_uint16 buf i v = set_byte (set_byte buf i (v % 256)) (i + 1) (v / 256 % 256)

unfoldable pub set_uint32 : List ℕ → ℕ → ℕ → List ℕ
set_uint32 buf i v =
    let low = set_byte (set_byte buf i (v % 256)) (i + 1) (v / 256 % 256) in
    set_byte (set_byte low (i + 2) (v / 65536 % 256)) (i + 3) (v / 16777216 % 256)

pub length-set_byte : (buf : List ℕ) (i v : ℕ) → length (set_byte buf i v) ≡ length buf
unfolding set_byte
length-set_byte [] i v = refl
length-set_byte (b ∷ bs) zero v = refl
length-set_byte (b ∷ bs) (suc i) v = ap suc (length-set_byte bs i v)

pub byte_at-set_byte :
    (buf : List ℕ) (i j v : ℕ)
    → i < length buf
    → byte_at (set_byte buf i v) j ≡ ite (ℕ_discrete i j) v (byte_at buf j)
unfolding byte_at set_byte
byte_at-set_byte [] i j v h = absurd (omega arith)
byte_at-set_byte (b ∷ bs) zero zero v h = ground arith
byte_at-set_byte (b ∷ bs) zero (suc j) v h = ground arith
byte_at-set_byte (b ∷ bs) (suc i) zero v h = ground arith
byte_at-set_byte (b ∷ bs) (suc i) (suc j) v h = ground (arith, byte_at-set_byte bs i j v)

pub length-set_uint32 : (buf : List ℕ) (i v : ℕ) → length (set_uint32 buf i v) ≡ length buf
unfolding set_uint32
length-set_uint32 buf i v = simp length-set_byte

-- A byte of the word that is written, or a byte beside it.
pub byte_at-set_uint32 :
    (buf : List ℕ) (i j v : ℕ)
    → i + 4 ≤ length buf
    → byte_at (set_uint32 buf i v) j
      ≡ ite (ℕ_discrete i j) (v % 256) (
          ite (ℕ_discrete (i + 1) j) (v / 256 % 256) (
            ite
              (ℕ_discrete (i + 2) j)
              (v / 65536 % 256)
              (ite (ℕ_discrete (i + 3) j) (v / 16777216 % 256) (byte_at buf j))))
unfolding set_uint32
byte_at-set_uint32 buf i j v h =
    let b1 = set_byte buf i (v % 256) in
    let b2 = set_byte b1 (i + 1) (v / 256 % 256) in
    let b3 = set_byte b2 (i + 2) (v / 65536 % 256) in
    let l1 = length-set_byte buf i (v % 256) in
    let l2 = length-set_byte b1 (i + 1) (v / 256 % 256) in
    let l3 = length-set_byte b2 (i + 2) (v / 65536 % 256) in
    ground (
      arith,
      byte_at-set_byte b3 (i + 3) j (v / 16777216 % 256) (omega arith),
      byte_at-set_byte b2 (i + 2) j (v / 65536 % 256) (omega arith),
      byte_at-set_byte b1 (i + 1) j (v / 256 % 256) (omega arith),
      byte_at-set_byte buf i j (v % 256) (omega arith),
    )

-- A word that was written is read back.
pub get_uint32-set_uint32_self :
    (buf : List ℕ) (i v : ℕ)
    → i + 4 ≤ length buf
    → v < 2 ^ 32
    → get_uint32 (set_uint32 buf i v) i ≡ v
unfolding get_uint32
get_uint32-set_uint32_self buf i v h lt = ground (
  arith,
  byte_at-set_uint32 buf i i v h,
  byte_at-set_uint32 buf i (i + 1) v h,
  byte_at-set_uint32 buf i (i + 2) v h,
  byte_at-set_uint32 buf i (i + 3) v h,
)

-- A write leaves a word that it does not meet.
pub get_uint32-set_uint32_apart :
    (buf : List ℕ) (i j v : ℕ)
    → i + 4 ≤ length buf
    → (j + 4 ≤ i) ⊎ (i + 4 ≤ j)
    → get_uint32 (set_uint32 buf i v) j ≡ get_uint32 buf j
unfolding get_uint32
get_uint32-set_uint32_apart buf i j v h apart = ground (
  arith,
  byte_at-set_uint32 buf i j v h,
  byte_at-set_uint32 buf i (j + 1) v h,
  byte_at-set_uint32 buf i (j + 2) v h,
  byte_at-set_uint32 buf i (j + 3) v h,
)

-- `buf.set(bytes, i)` where the bytes fit
unfoldable pub set_bytes : List ℕ → ℕ → List ℕ → List ℕ
set_bytes buf i [] = buf
set_bytes buf i (b ∷ bs) = set_bytes (set_byte buf i b) (i + 1) bs
