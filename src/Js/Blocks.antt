-- ===== src/Js/Blocks.antt =====
-- Buffers that are filled from zeros, as concatenations of blocks.
use mathlib.Core.List.{append-nil}
use takyondb.Prelude.{
  ℕ, zero, suc, ◌+◌, ◌-◌, ◌*◌, ◌/◌, ◌%◌, ◌^◌, ◌≤◌, ◌<◌, ◌≡◌, ◌∙◌, refl, ap, List, [], ◌∷◌, ◌++◌,
  length, take, drop, replicate, length-replicate, arith,
}
use takyondb.Js.Bytes.{byte_at, set_byte, set_bytes}

-- The four bytes of a word.
abbrev pub word : ℕ → List ℕ
word v = v % 256 ∷ v / 256 % 256 ∷ v / 65536 % 256 ∷ v / 16777216 % 256 ∷ []

pub replicate_add : (m n a : ℕ) → replicate (m + n) a ≡ replicate m a ++ replicate n a
replicate_add zero n a = ap (λ k. replicate k a) (omega arith)
replicate_add (suc m) n a =
    let sum : (suc m + n ≡ suc (m + n)) = omega arith in
    ap (λ k. replicate k a) sum ∙ ap (◌∷◌ a) (replicate_add m n a)

pub set_bytes-cons :
    (x : ℕ) (buf : List ℕ) (i : ℕ) (bs : List ℕ)
    → set_bytes (x ∷ buf) (suc i) bs ≡ x ∷ set_bytes buf i bs
unfolding set_bytes set_byte
set_bytes-cons x buf i [] = refl
set_bytes-cons x buf i (b ∷ bs) =
    let next : (suc i + 1 ≡ suc (i + 1)) = omega arith in
    ap (λ k. set_bytes (x ∷ set_byte buf i b) k bs) next
    ∙ set_bytes-cons x (set_byte buf i b) (i + 1) bs

set_bytes_start :
    (buf bs : List ℕ) → length bs ≤ length buf → set_bytes buf 0 bs ≡ bs ++ drop (length bs) buf
unfolding set_bytes set_byte
set_bytes_start buf [] h = refl
set_bytes_start [] (b ∷ bs) h = absurd (omega arith)
set_bytes_start (y ∷ buf) (b ∷ bs) h =
    set_bytes-cons b buf 0 bs ∙ ap (◌∷◌ b) (set_bytes_start buf bs (omega arith))

-- A write behind a prefix takes the place of as many bytes.
pub set_bytes-append :
    (pre buf bs : List ℕ)
    → length bs ≤ length buf
    → set_bytes (pre ++ buf) (length pre) bs ≡ pre ++ (bs ++ drop (length bs) buf)
set_bytes-append [] buf bs h = set_bytes_start buf bs h
set_bytes-append (x ∷ pre) buf bs h =
    set_bytes-cons x (pre ++ buf) (length pre) bs ∙ ap (◌∷◌ x) (set_bytes-append pre buf bs h)

pub drop-replicate : (m n a : ℕ) → drop m (replicate n a) ≡ replicate (n - m) a
drop-replicate zero n a = ap (λ k. replicate k a) (omega arith)
drop-replicate (suc m) zero a =
    let nothing : (0 ≡ 0 - suc m) = omega arith in ap (λ k. replicate k a) nothing
drop-replicate (suc m) (suc n) a =
    let less : (n - m ≡ suc n - suc m) = omega arith in
    drop-replicate m n a ∙ ap (λ k. replicate k a) less

-- A block that fills the buffer behind a prefix of zeros.
pub set_bytes_filled :
    (pre bs : List ℕ) → set_bytes (pre ++ replicate (length bs) 0) (length pre) bs ≡ pre ++ bs
set_bytes_filled pre bs =
    let n = length bs in
    let blank : List ℕ = replicate n 0 in
    let filled : (length blank ≡ n) = length-replicate n 0 in
    let room : (length bs ≤ length blank) = omega arith in
    let none_left : (n - n ≡ 0) = omega arith in
    set_bytes-append pre (replicate n 0) bs room
    ∙ ap (λ r. pre ++ (bs ++ r)) (drop-replicate n n 0 ∙ ap (λ k. replicate k 0) none_left)
    ∙ ap (λ r. pre ++ r) (append-nil bs)

pub take-length : (xs ys : List ℕ) → take (length xs) (xs ++ ys) ≡ xs
take-length [] ys = refl
take-length (x ∷ xs) ys = ap (◌∷◌ x) (take-length xs ys)

pub take-append : (xs ys : List ℕ) (n : ℕ) → take (length xs + n) (xs ++ ys) ≡ xs ++ take n ys
take-append [] ys n = let same : (0 + n ≡ n) = omega arith in ap (λ k. take k ys) same
take-append (x ∷ xs) ys n =
    let next : (suc (length xs) + n ≡ suc (length xs + n)) = omega arith in
    ap (λ k. take k (x ∷ xs ++ ys)) next ∙ ap (◌∷◌ x) (take-append xs ys n)

pub drop-length : (xs ys : List ℕ) → drop (length xs) (xs ++ ys) ≡ ys
drop-length [] ys = refl
drop-length (x ∷ xs) ys = drop-length xs ys

-- The four bytes of a number below 2 ^ 32 stand for it.
pub word_value :
    (v : ℕ)
    → v < 2 ^ 32
    → v % 256 + 256 * (v / 256 % 256) + 65536 * (v / 65536 % 256) + 16777216 * (v / 16777216 % 256)
      ≡ v
word_value v h = omega arith

-- Reads and writes behind a prefix.
pub set_byte-append :
    (pre buf : List ℕ) (i v : ℕ)
    → set_byte (pre ++ buf) (length pre + i) v ≡ pre ++ set_byte buf i v
unfolding set_byte
set_byte-append [] buf i v = let same : (0 + i ≡ i) = omega arith in ap (λ k. set_byte buf k v) same
set_byte-append (x ∷ pre) buf i v =
    let next : (suc (length pre) + i ≡ suc (length pre + i)) = omega arith in
    ap (λ k. set_byte (x ∷ pre ++ buf) k v) next ∙ ap (◌∷◌ x) (set_byte-append pre buf i v)

pub set_bytes_behind :
    (pre buf : List ℕ) (i : ℕ) (bs : List ℕ)
    → set_bytes (pre ++ buf) (length pre + i) bs ≡ pre ++ set_bytes buf i bs
set_bytes_behind [] buf i bs =
    let same : (0 + i ≡ i) = omega arith in ap (λ k. set_bytes buf k bs) same
set_bytes_behind (x ∷ pre) buf i bs =
    let next : (suc (length pre) + i ≡ suc (length pre + i)) = omega arith in
    ap (λ k. set_bytes (x ∷ pre ++ buf) k bs) next
    ∙ set_bytes-cons x (pre ++ buf) (length pre + i) bs
    ∙ ap (◌∷◌ x) (set_bytes_behind pre buf i bs)

pub byte_at-append :
    (pre buf : List ℕ) (i : ℕ) → byte_at (pre ++ buf) (length pre + i) ≡ byte_at buf i
unfolding byte_at
byte_at-append [] buf i = let same : (0 + i ≡ i) = omega arith in ap (byte_at buf) same
byte_at-append (x ∷ pre) buf i =
    let next : (suc (length pre) + i ≡ suc (length pre + i)) = omega arith in
    ap (byte_at (x ∷ pre ++ buf)) next ∙ byte_at-append pre buf i

pub drop-append : (pre buf : List ℕ) (i : ℕ) → drop (length pre + i) (pre ++ buf) ≡ drop i buf
drop-append [] buf i = let same : (0 + i ≡ i) = omega arith in ap (λ k. drop k buf) same
drop-append (x ∷ pre) buf i =
    let next : (suc (length pre) + i ≡ suc (length pre + i)) = omega arith in
    ap (λ k. drop k (x ∷ pre ++ buf)) next ∙ drop-append pre buf i
