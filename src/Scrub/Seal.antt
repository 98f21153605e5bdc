-- ===== src/Scrub/Seal.antt =====
-- client/scrub.ts: the bytes of a sealed record, and that they pass the check.
use takyondb.Prelude.{
  ℕ, ◌+◌, ◌^◌, ◌<◌, ◌≤◌, ◌≡◌, ◌∙◌, refl, ap, true, List, ◌∷◌, ◌++◌, some, length, take, drop, arith,
  length-append, Option, none, Result, Error, err, Bool, ◌==◌,
}
use takyondb.Js.Bytes.{get_uint16, get_uint32, set_uint16, set_uint32, set_byte, byte_at}
use takyondb.Js.Blocks.{word, replicate_add, set_bytes_filled, take-length, word_value}
use takyondb.Scrub.{
  crc32_ieee, rec_magic, seal_record, verify_record_fallback, declared_len, ScrubBindings,
  verify_record, prefer_native,
}

-- A native check that an old build lacks, or that throws.
unfoldable pub Unhelpful : Option (List ℕ → Result Bool) → Type 0
Unhelpful none = Unit
Unhelpful (some fn) = (buf : List ℕ) → (e : Error) × (fn buf ≡ err e)

abbrev pub header : ℕ → List ℕ
header n = 67 ∷ 69 ∷ 82 ∷ 84 ∷ 1 ∷ 0 ∷ word n

abbrev pub checksum : List ℕ → ℕ
checksum payload = crc32_ieee (header (length payload) ++ payload)

-- An envelope: the header, the CRC of the header and the payload, the payload.
abbrev pub frame : List ℕ → List ℕ
frame payload = header (length payload) ++ (word (checksum payload) ++ payload)

pub seal_record-frame : (payload : List ℕ) → seal_record payload ≡ frame payload
unfolding seal_record set_uint32 set_uint16 set_byte
seal_record-frame payload =
    rw (replicate_add 14 (length payload) 0)
      (set_bytes_filled (header (length payload) ++ word (checksum payload)) payload)

-- The length field of a header at the front of a buffer.
pub declared_len-header :
    (n : ℕ) (rest : List ℕ) → n < 2 ^ 32 → declared_len (header n ++ rest) ≡ some n
unfolding declared_len get_uint32 get_uint16 byte_at
declared_len-header n rest h = ground arith

crc32_ieee-lt : (data_ : List ℕ) → crc32_ieee data_ < 2 ^ 32
unfolding crc32_ieee
crc32_ieee-lt data_ = omega arith

-- The check is that of the CRC if each of the other comparisons passes.
verify_record_fallback-compares :
    (buf : List ℕ) (n : ℕ) (data_ : List ℕ)
    → get_uint32 buf 0 ≡ rec_magic
    → get_uint16 buf 4 ≡ 1
    → get_uint32 buf 6 ≡ n
    → 14 + n ≤ length buf
    → take 10 buf ++ take (get_uint32 buf 6) (drop 14 buf) ≡ data_
    → verify_record_fallback buf ≡ (get_uint32 buf 10 == crc32_ieee data_)
unfolding verify_record_fallback
verify_record_fallback-compares buf n data_ m v l room body =
    let same : crc32_ieee (take 10 buf ++ take (get_uint32 buf 6) (drop 14 buf))
        ≡ crc32_ieee data_ =
      ap crc32_ieee body in
    ground arith

-- An envelope with any number in the place of the CRC.
abbrev pub frame_with : ℕ → List ℕ → List ℕ
frame_with sum payload = header (length payload) ++ (word sum ++ payload)

verify_record_fallback-frame_with :
    (sum : ℕ) (payload rest : List ℕ)
    → length payload < 2 ^ 32
    → sum < 2 ^ 32
    → verify_record_fallback (frame_with sum payload ++ rest) ≡ (sum == checksum payload)
unfolding get_uint32 get_uint16 byte_at
verify_record_fallback-frame_with sum payload rest h k =
    let buf : List ℕ = frame_with sum payload ++ rest in
    let size : (get_uint32 buf 6 ≡ length payload) = word_value (length payload) h in
    let stored : (get_uint32 buf 10 ≡ sum) = word_value sum k in
    let body : take 10 buf ++ take (get_uint32 buf 6) (drop 14 buf)
        ≡ header (length payload) ++ payload =
      ap (λ k. header (length payload) ++ take k (payload ++ rest)) size
      ∙ ap (λ p. header (length payload) ++ p) (take-length payload rest) in
    let total : (length buf ≡ 14 + (length payload + length rest)) =
      omega (arith, length-append payload rest) in
    verify_record_fallback-compares buf (length payload) (header (length payload) ++ payload) refl
      refl size (omega arith) body
    ∙ ap (λ n. n == checksum payload) stored

pub verify_record_fallback-frame :
    (payload rest : List ℕ)
    → length payload < 2 ^ 32
    → verify_record_fallback (frame payload ++ rest) ≡ true
verify_record_fallback-frame payload rest h =
    let sum = checksum payload in
    let same : ((sum == sum) ≡ true) = ground arith in
    verify_record_fallback-frame_with sum payload rest h
      (crc32_ieee-lt (header (length payload) ++ payload))
    ∙ same

prefer_native-Unhelpful :
    (native_ : Option (List ℕ → Result Bool)) (buf : List ℕ)
    → Unhelpful native_
    → prefer_native native_ verify_record_fallback buf ≡ verify_record_fallback buf
unfolding prefer_native Unhelpful
prefer_native-Unhelpful none buf u = refl
prefer_native-Unhelpful (some fn) buf u = let (e, threw) = u buf in rw threw refl

-- A sealed payload of fewer than 2 ^ 32 bytes at the front of a buffer passes the check, where the
-- native addon has no check of its own or its call throws; and with any other 32-bit number in the
-- place of the CRC-32 of its header and payload, the envelope does not pass.
pub verify_record-seal_record :
    (bindings : ScrubBindings) (sum : ℕ) (payload rest : List ℕ)
    → length payload < 2 ^ 32
    → sum < 2 ^ 32
    → Unhelpful bindings.verify_record
    → (verify_record bindings (seal_record payload ++ rest) ≡ true)
      × (verify_record bindings (frame_with sum payload ++ rest) ≡ (sum == checksum payload))
unfolding verify_record
verify_record-seal_record bindings sum payload rest h k u = (
  prefer_native-Unhelpful bindings.verify_record (seal_record payload ++ rest) u
      ∙ ap (λ s. verify_record_fallback (s ++ rest)) (seal_record-frame payload)
      ∙ verify_record_fallback-frame payload rest h,
  prefer_native-Unhelpful bindings.verify_record (frame_with sum payload ++ rest) u
      ∙ verify_record_fallback-frame_with sum payload rest h k,
)
