-- ===== src/Scrub.antt =====
-- client/scrub.ts: sealed record envelopes, their check, and the walk over a run of them.
pub mod Seal
pub mod Walk
pub mod Frames
pub mod Log
use Prim.Native.Nat.{bit_xor}
use takyondb.Prelude.{
  ℕ, zero, suc, ◌+◌, ◌/◌, ◌%◌, ◌^◌, Bool, true, false, not, List, [], ◌∷◌, ◌++◌, Option, none, some,
  ltb, ◌==◌, length, take, drop, replicate, Result, ok, err, if◌then◌else◌,
}
use takyondb.Js.Bytes.{get_uint16, get_uint32, set_uint16, set_uint32, set_bytes, set_byte}

abbrev pub rec_magic : ℕ
rec_magic = 0x54524543

abbrev pub rec_version : ℕ
rec_version = 1

abbrev pub rec_header_len : ℕ
rec_header_len = 10

-- The header and the four bytes of the CRC.
abbrev pub rec_overhead : ℕ
rec_overhead = 14

-- One round of the inner loop. `crc` is its 32-bit pattern.
unfoldable pub crc_bit : ℕ → ℕ
crc_bit crc = if crc % 2 == 1 then bit_xor (crc / 2) 0xedb88320 else crc / 2

unfoldable pub crc_bits : ℕ → ℕ → ℕ
unfolding crc_bit
crc_bits zero crc = crc
crc_bits (suc k) crc = crc_bits k (crc_bit crc)

unfoldable pub crc_bytes : ℕ → List ℕ → ℕ
unfolding crc_bits
crc_bytes crc [] = crc
crc_bytes crc (b ∷ data_) = crc_bytes (crc_bits 8 (bit_xor crc b)) data_

-- `(crc ^ 0xffffffff) >>> 0` after the loop over the bytes
unfoldable pub crc32_ieee : List ℕ → ℕ
unfolding crc_bytes
crc32_ieee data_ = bit_xor (crc_bytes 0xffffffff data_) 0xffffffff % 2 ^ 32

unfoldable pub seal_record : List ℕ → List ℕ
unfolding crc32_ieee set_bytes
seal_record payload =
    let blank = replicate (rec_overhead + length payload) 0 in
    let magic = set_uint32 blank 0 rec_magic in
    let version = set_uint16 magic 4 rec_version in
    let header = set_uint32 version 6 (length payload) in
    let crc = crc32_ieee (take rec_header_len header ++ payload) in
    set_bytes (set_uint32 header rec_header_len crc) rec_overhead payload

-- `view32`: the bits of the four bytes do not overlap, so `|` adds them, as for the version below.
abbrev pub view32 : List ℕ → ℕ → ℕ
view32 = get_uint32

unfoldable pub verify_record_fallback : List ℕ → Bool
unfolding crc32_ieee
verify_record_fallback buf =
    let plen = view32 buf 6 in
    let body = take rec_header_len buf ++ take plen (drop rec_overhead buf) in
    if ltb (length buf) rec_overhead
    then false
    else if not (view32 buf 0 == rec_magic)
    then false
    else if not (get_uint16 buf 4 == rec_version)
    then false
    else if ltb (length buf) (rec_overhead + plen)
    then false
    else view32 buf rec_header_len == crc32_ieee body

-- What the native addon offers; a call of it may throw, and an old build lacks it.
pub record ScrubReport : Type 0 where
  pub ok_count : ℕ
  pub corrupt : ℕ
  pub bytes : ℕ
  pub truncated : Bool

pub record ScrubBindings : Type 0 where
  pub verify_record : Option (List ℕ → Result Bool)
  pub scrub_records : Option (List ℕ → Result ScrubReport)

-- `try { return fn(buf); } catch {}` before the fallback
unfoldable pub prefer_native {ℓ} :
    {A : Type ℓ} → Option (List ℕ → Result A) → (List ℕ → A) → List ℕ → A
prefer_native none fallback buf = fallback buf
prefer_native (some fn) fallback buf = elim (fn buf) [ ok a ↦ a | err e ↦ fallback buf ]

unfoldable pub verify_record : ScrubBindings → List ℕ → Bool
unfolding prefer_native verify_record_fallback
verify_record bindings = prefer_native bindings.verify_record verify_record_fallback

unfoldable pub declared_len : List ℕ → Option ℕ
declared_len buf =
    if ltb (length buf) rec_header_len
    then none
    else if not (view32 buf 0 == rec_magic)
    then none
    else if not (get_uint16 buf 4 == rec_version)
    then none
    else some (view32 buf 6)

unfoldable pub all_zero : List ℕ → Bool
all_zero [] = true
all_zero (b ∷ bs) = let rest = all_zero bs in if b == 0 then rest else false

-- What one round of the walk does: it stops with a report, or goes on behind an envelope.
pub data Round : Type 0 where
  stop : ScrubReport → Round
  envelope : ℕ → Round

unfoldable pub round_at : ScrubReport → List ℕ → Option ℕ → Round
unfolding all_zero verify_record_fallback
round_at r rest none = if all_zero rest then stop r else stop (record r { corrupt = r.corrupt + 1 })
round_at r rest (some plen) =
    if ltb (length rest) (rec_overhead + plen)
    then stop (record r { truncated = true })
    else if not (verify_record_fallback (take (rec_overhead + plen) rest))
    then stop (record r { corrupt = r.corrupt + 1 })
    else envelope (rec_overhead + plen)

-- The loop over the bytes from `off` on. Out of fuel there is no report.
unfoldable pub walk : ℕ → ScrubReport → List ℕ → Option ScrubReport
unfolding round_at declared_len
walk fuel r [] = some r
walk zero r (b ∷ rest) = none
walk (suc fuel) r (b ∷ rest) = elim (round_at r (b ∷ rest) (declared_len (b ∷ rest))) [
  | stop report ↦ some report
  | envelope size ↦
      walk fuel (record r { ok_count = r.ok_count + 1; bytes = r.bytes + size })
        (drop size (b ∷ rest))
]

abbrev pub no_records : ScrubReport
no_records = record { ok_count = 0; corrupt = 0; bytes = 0; truncated = false }

unfoldable pub scrub_fallback : List ℕ → Option ScrubReport
unfolding walk
scrub_fallback buf = walk (length buf) no_records buf

unfoldable pub scrub_records : ScrubBindings → List ℕ → Option ScrubReport
unfolding scrub_fallback
scrub_records bindings buf = elim bindings.scrub_records [
  | none ↦ scrub_fallback buf
  | some fn ↦ elim (fn buf) [ ok report ↦ some report | err e ↦ scrub_fallback buf ]
]
