-- ===== src/Js/Windows.antt =====
-- Windows of a buffer: what a write leaves of the bytes that another place reads.
use takyondb.Prelude.{
  ℕ, zero, suc, ◌+◌, ◌/◌, ◌%◌, ◌^◌, ◌≤◌, ◌<◌, ◌≡◌, ◌∙◌, refl, sym, ap, List, [], ◌∷◌, length, take,
  drop, arith, ◌⊎◌,
}
use takyondb.Js.Blocks.{set_bytes-cons, word}
use takyondb.Js.Bytes.{
  byte_at, get_uint16, get_uint32, set_byte, set_bytes, set_uint32, length-set_byte,
}

-- `buf.subarray(i, i + n)`
abbrev pub window : List ℕ → ℕ → ℕ → List ℕ
window buf i n = take n (drop i buf)

-- Two stretches that do not meet.
abbrev pub Apart : ℕ → ℕ → ℕ → ℕ → Type 0
Apart i n j m = (i + n ≤ j) ⊎ (j + m ≤ i)

pub length-set_bytes :
    (buf : List ℕ) (i : ℕ) (bs : List ℕ) → length (set_bytes buf i bs) ≡ length buf
unfolding set_bytes
length-set_bytes buf i [] = refl
length-set_bytes buf i (b ∷ bs) =
    length-set_bytes (set_byte buf i b) (i + 1) bs ∙ length-set_byte buf i b

window-set_byte :
    (buf : List ℕ) (i n j v : ℕ) → Apart i n j 1 → window (set_byte buf j v) i n ≡ window buf i n
unfolding set_byte
window-set_byte [] i n j v h = refl
window-set_byte (b ∷ buf) i zero zero v h = refl
window-set_byte (b ∷ buf) zero (suc n) zero v h = absurd (ground arith)
window-set_byte (b ∷ buf) (suc i) n zero v h = refl
window-set_byte (b ∷ buf) zero zero (suc j) v h = refl
window-set_byte (b ∷ buf) zero (suc n) (suc j) v h =
    ap (λ l. b ∷ l) (window-set_byte buf zero n j v (ground arith))
window-set_byte (b ∷ buf) (suc i) n (suc j) v h = window-set_byte buf i n j v (ground arith)

pub window-set_bytes :
    (buf : List ℕ) (i n j : ℕ) (bs : List ℕ)
    → Apart i n j (length bs)
    → window (set_bytes buf j bs) i n ≡ window buf i n
unfolding set_bytes
window-set_bytes buf i n j [] h = refl
window-set_bytes buf i n j (b ∷ bs) h =
    window-set_bytes (set_byte buf j b) i n (j + 1) bs (ground arith)
    ∙ window-set_byte buf i n j b (ground arith)

pub window-set_uint32 :
    (buf : List ℕ) (i n j v : ℕ) → Apart i n j 4 → window (set_uint32 buf j v) i n ≡ window buf i n
unfolding set_uint32
window-set_uint32 buf i n j v h =
    let b1 = set_byte buf j (v % 256) in
    let b2 = set_byte b1 (j + 1) (v / 256 % 256) in
    let b3 = set_byte b2 (j + 2) (v / 65536 % 256) in
    window-set_byte b3 i n (j + 3) (v / 16777216 % 256) (ground arith)
    ∙ window-set_byte b2 i n (j + 2) (v / 65536 % 256) (ground arith)
    ∙ window-set_byte b1 i n (j + 1) (v / 256 % 256) (ground arith)
    ∙ window-set_byte buf i n j (v % 256) (ground arith)

pub byte_at-window :
    (buf : List ℕ) (i n k : ℕ) → k < n → byte_at (window buf i n) k ≡ byte_at buf (i + k)
unfolding byte_at
byte_at-window [] i n k h = empty i n k
  where
    empty : (i n k : ℕ) → byte_at (window [] i n) k ≡ 0
    empty zero zero k = refl
    empty zero (suc n) k = refl
    empty (suc i) zero k = refl
    empty (suc i) (suc n) k = refl
byte_at-window (b ∷ buf) zero zero k h = absurd (omega arith)
byte_at-window (b ∷ buf) zero (suc n) zero h = refl
byte_at-window (b ∷ buf) zero (suc n) (suc k) h =
    let next : (0 + suc k ≡ suc (0 + k)) = omega arith in
    byte_at-window buf zero n k (omega arith) ∙ sym (ap (byte_at (b ∷ buf)) next)
byte_at-window (b ∷ buf) (suc i) n k h =
    let next : (suc i + k ≡ suc (i + k)) = omega arith in
    byte_at-window buf i n k h ∙ sym (ap (byte_at (b ∷ buf)) next)

-- A read sees nothing but its window.
pub byte_at-same :
    (buf buf' : List ℕ) (i : ℕ) → window buf i 1 ≡ window buf' i 1 → byte_at buf i ≡ byte_at buf' i
byte_at-same buf buf' i e =
    let here : (i + 0 ≡ i) = omega arith in
    sym (ap (byte_at buf) here)
    ∙ sym (byte_at-window buf i 1 0 (omega arith))
    ∙ ap (λ l. byte_at l 0) e
    ∙ byte_at-window buf' i 1 0 (omega arith)
    ∙ ap (byte_at buf') here

pub get_uint32-same :
    (buf buf' : List ℕ) (i : ℕ)
    → window buf i 4 ≡ window buf' i 4
    → get_uint32 buf i ≡ get_uint32 buf' i
unfolding get_uint32
get_uint32-same buf buf' i e =
    let at : (k : ℕ) → k < 4 → byte_at buf (i + k) ≡ byte_at buf' (i + k) = λ k h.
      sym (byte_at-window buf i 4 k h) ∙ ap (λ l. byte_at l k) e ∙ byte_at-window buf' i 4 k h in
    let here : (i + 0 ≡ i) = omega arith in
    omega (
      arith,
      sym (ap (byte_at buf) here) ∙ at 0 (omega arith) ∙ ap (byte_at buf') here,
      at 1 (omega arith),
      at 2 (omega arith),
      at 3 (omega arith),
    )

set_bytes_front :
    (b c : ℕ) (buf bs : List ℕ) → set_bytes (b ∷ buf) 0 (c ∷ bs) ≡ c ∷ set_bytes buf 0 bs
unfolding set_bytes set_byte
set_bytes_front b c buf bs = set_bytes-cons c buf 0 bs

-- Bytes that were written are read back.
pub window-set_bytes_self :
    (buf : List ℕ) (j : ℕ) (bs : List ℕ)
    → j + length bs ≤ length buf
    → window (set_bytes buf j bs) j (length bs) ≡ bs
window-set_bytes_self [] zero [] h = refl
window-set_bytes_self [] zero (b ∷ bs) h = absurd (omega arith)
window-set_bytes_self [] (suc j) bs h = absurd (omega arith)
window-set_bytes_self (b ∷ buf) (suc j) bs h =
    ap (λ l. window l (suc j) (length bs)) (set_bytes-cons b buf j bs)
    ∙ window-set_bytes_self buf j bs (omega arith)
window-set_bytes_self (b ∷ buf) zero [] h = refl
window-set_bytes_self (b ∷ buf) zero (c ∷ bs) h =
    ap (λ l. take (suc (length bs)) l) (set_bytes_front b c buf bs)
    ∙ ap (λ l. c ∷ l) (window-set_bytes_self buf 0 bs (omega arith))

pub byte_at-of_window : (buf : List ℕ) (i v : ℕ) → window buf i 1 ≡ v ∷ [] → byte_at buf i ≡ v
unfolding byte_at
byte_at-of_window buf i v e =
    let here : (i + 0 ≡ i) = omega arith in
    sym (ap (byte_at buf) here)
    ∙ sym (byte_at-window buf i 1 0 (omega arith))
    ∙ ap (λ l. byte_at l 0) e

pub get_uint32-of_window :
    (buf : List ℕ) (i v : ℕ) → v < 2 ^ 32 → window buf i 4 ≡ word v → get_uint32 buf i ≡ v
unfolding get_uint32 byte_at
get_uint32-of_window buf i v h e =
    let at : (k : ℕ) → k < 4 → byte_at buf (i + k) ≡ byte_at (word v) k =
      λ k lt. sym (byte_at-window buf i 4 k lt) ∙ ap (λ l. byte_at l k) e in
    let here : (i + 0 ≡ i) = omega arith in
    omega (
      arith,
      sym (ap (byte_at buf) here) ∙ at 0 (omega arith),
      at 1 (omega arith),
      at 2 (omega arith),
      at 3 (omega arith),
    )

-- A read inside a block that stands at an offset.
byte_at-block :
    (buf block : List ℕ) (at k : ℕ)
    → window buf at (length block) ≡ block
    → k < length block
    → byte_at buf (at + k) ≡ byte_at block k
byte_at-block buf block at k e h =
    sym (byte_at-window buf at (length block) k h) ∙ ap (λ l. byte_at l k) e

byte_at-block_next :
    (buf block : List ℕ) (at k j : ℕ)
    → window buf at (length block) ≡ block
    → k + j < length block
    → byte_at buf (at + k + j) ≡ byte_at block (k + j)
byte_at-block_next buf block at k j e h =
    let next : (at + k + j ≡ at + (k + j)) = omega arith in
    ap (byte_at buf) next ∙ byte_at-block buf block at (k + j) e h

pub get_uint16-block :
    (buf block : List ℕ) (at k : ℕ)
    → window buf at (length block) ≡ block
    → k + 2 ≤ length block
    → get_uint16 buf (at + k) ≡ get_uint16 block k
unfolding get_uint16
get_uint16-block buf block at k e h = omega (
  arith,
  byte_at-block buf block at k e (omega arith),
  byte_at-block_next buf block at k 1 e (omega arith),
)

pub get_uint32-block :
    (buf block : List ℕ) (at k : ℕ)
    → window buf at (length block) ≡ block
    → k + 4 ≤ length block
    → get_uint32 buf (at + k) ≡ get_uint32 block k
unfolding get_uint32
get_uint32-block buf block at k e h = omega (
  arith,
  byte_at-block buf block at k e (omega arith),
  byte_at-block_next buf block at k 1 e (omega arith),
  byte_at-block_next buf block at k 2 e (omega arith),
  byte_at-block_next buf block at k 3 e (omega arith),
)
