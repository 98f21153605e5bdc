-- ===== src/Scrub/Log.antt =====
-- client/scrub.ts: the walk over payloads that were sealed one behind another.
use takyondb.Prelude.{
  ℕ, zero, suc, ◌+◌, ◌^◌, ◌<◌, ◌≤◌, ◌≡◌, ◌∙◌, refl, ap, true, List, ◌∷◌, ◌++◌, Option, none, some,
  length, take, drop, replicate, arith, length-replicate,
}
use takyondb.Js.Bytes.{get_uint32, byte_at}
use takyondb.Js.Blocks.{word, take-append}
use takyondb.Scrub.{
  ScrubReport, Round, stop, envelope, round_at, walk, no_records, scrub_fallback, declared_len,
  all_zero, seal_record,
}
use takyondb.Scrub.Seal.{seal_record-frame, declared_len-header, header, checksum}
use takyondb.Scrub.Frames.{
  length-take-le, seal_all, Fits, counted, frame_all, seal_all-frame_all, walk-frame_all,
}

byte_at-replicate : (i n : ℕ) → byte_at (replicate n 0) i ≡ 0
unfolding byte_at
byte_at-replicate i zero = refl
byte_at-replicate zero (suc n) = refl
byte_at-replicate (suc i) (suc n) = byte_at-replicate i n

declared_len-replicate : (n : ℕ) → declared_len (replicate n 0) ≡ none
unfolding declared_len get_uint32
declared_len-replicate n = ground (
  arith,
  byte_at-replicate 0 n,
  byte_at-replicate 1 n,
  byte_at-replicate 2 n,
  byte_at-replicate 3 n,
)

all_zero-replicate : (n : ℕ) → all_zero (replicate n 0) ≡ true
unfolding all_zero
all_zero-replicate zero = refl
all_zero-replicate (suc n) = all_zero-replicate n

-- A round that stops ends the walk with its report.
walk_stops :
    (fuel : ℕ) (r report : ScrubReport) (b : ℕ) (rest : List ℕ) (d : Option ℕ)
    → declared_len (b ∷ rest) ≡ d
    → round_at r (b ∷ rest) d ≡ stop report
    → walk (suc fuel) r (b ∷ rest) ≡ some report
unfolding walk
walk_stops fuel r report b rest d e h = ap (λ d. next (round_at r (b ∷ rest) d)) e ∙ ap next h
  where
    next : Round → Option ScrubReport
    next round = elim round [
      | stop report ↦ some report
      | envelope size ↦
          walk fuel (record r { ok_count = r.ok_count + 1; bytes = r.bytes + size })
            (drop size (b ∷ rest))
    ]

walk-replicate :
    (fuel : ℕ) (r : ScrubReport) (n : ℕ) → n ≤ fuel → walk fuel r (replicate n 0) ≡ some r
unfolding walk
walk-replicate fuel r zero h = refl
walk-replicate zero r (suc n) h = absurd (omega arith)
walk-replicate (suc fuel) r (suc n) h =
    walk_stops fuel r r 0 (replicate n 0) none (declared_len-replicate (suc n)) unwritten
  where
    unwritten : round_at r (replicate (suc n) 0) none ≡ stop r
    unwritten = rw (all_zero-replicate (suc n)) refl

-- An envelope that the end of the buffer cuts off behind its header.
walk_cut :
    (fuel : ℕ) (r : ScrubReport) (n : ℕ) (rest : List ℕ)
    → n < 2 ^ 32
    → length rest < 4 + n
    → 1 ≤ fuel
    → walk fuel r (header n ++ rest) ≡ some (record r { truncated = true })
unfolding round_at
walk_cut zero r n rest h short some_fuel = absurd (omega arith)
walk_cut (suc fuel) r n rest h short some_fuel =
    walk_stops fuel r (record r { truncated = true }) 67 (drop 1 (header n ++ rest)) (some n)
      (declared_len-header n rest h) (ground arith)

-- What the walk reports of sealed payloads and of what stands behind them.
abbrev pub report_of : List (List ℕ) → ScrubReport
report_of payloads = counted no_records (length payloads) (length (seal_all payloads))

scrub_fallback-behind :
    (payloads : List (List ℕ)) (tail : List ℕ)
    → Fits payloads
    → (left : ℕ) × (length tail ≤ left)
      × (scrub_fallback (seal_all payloads ++ tail) ≡ walk left (report_of payloads) tail)
unfolding scrub_fallback
scrub_fallback-behind payloads tail f =
    rw (seal_all-frame_all payloads) (
      walk-frame_all (length (frame_all payloads ++ tail)) no_records payloads tail f (omega arith))

-- Payloads of fewer than 2 ^ 32 bytes that were sealed one behind another, with any number of
-- unwritten zero bytes behind them, are walked as exactly that many intact envelopes and that many
-- bytes, none of them corrupt and none cut off. If the last one is cut off behind its header, it is
-- not counted, and the report says so.
pub scrub_fallback-seal_all :
    (payloads : List (List ℕ)) (last : List ℕ) (zeros kept : ℕ)
    → Fits payloads
    → length last < 2 ^ 32
    → kept < 4 + length last
    → (scrub_fallback (seal_all payloads ++ replicate zeros 0) ≡ some (report_of payloads))
      × (scrub_fallback (seal_all payloads ++ take (10 + kept) (seal_record last))
          ≡ some (record (report_of payloads) { truncated = true }))
scrub_fallback-seal_all payloads last zeros kept f h short =
    let blank : List ℕ = replicate zeros 0 in
    let (left, enough, e) = scrub_fallback-behind payloads blank f in
    let size : (length blank ≡ zeros) = length-replicate zeros 0 in
    (e ∙ walk-replicate left (report_of payloads) zeros (omega arith), cut)
  where
    behind : List ℕ
    behind = take kept (word (checksum last) ++ last)

    partial : take (10 + kept) (seal_record last) ≡ header (length last) ++ behind
    partial =
        ap (take (10 + kept)) (seal_record-frame last)
        ∙ take-append (header (length last)) (word (checksum last) ++ last) kept

    cut :
        scrub_fallback (seal_all payloads ++ take (10 + kept) (seal_record last))
        ≡ some (record (report_of payloads) { truncated = true })
    cut =
        let (left, enough, e) = scrub_fallback-behind payloads (header (length last) ++ behind) f in
        let size = length-take-le kept (word (checksum last) ++ last) in
        ap (λ t. scrub_fallback (seal_all payloads ++ t)) partial
        ∙ e
        ∙ walk_cut left (report_of payloads) (length last) behind h (omega (arith, size))
            (omega arith)
