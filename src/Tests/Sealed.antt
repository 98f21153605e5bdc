-- ===== src/Tests/Sealed.antt =====
-- The theorems on sealed envelopes at two small payloads.
use takyondb.Prelude.{
  ℕ, refl, ◌==◌, ◌*◌, ◌≡◌, ◌≤◌, true, List, [], ◌∷◌, ◌++◌, none, some, length, replicate, take,
  arith,
}
use takyondb.Js.Text.{codes}
use takyondb.Scrub.{
  crc32_ieee, ScrubReport, ScrubBindings, seal_record, verify_record, scrub_fallback,
}
use takyondb.Scrub.Seal.{checksum, frame_with, verify_record-seal_record}
use takyondb.Scrub.Frames.{seal_all}
use takyondb.Scrub.Log.{report_of, scrub_fallback-seal_all}
use takyondb.Scrub.Walk.{scrub_fallback-ends}

abbrev no_addon : ScrubBindings
no_addon = record { verify_record = none; scrub_records = none }

abbrev payload : List ℕ
payload = 1 ∷ 2 ∷ 3 ∷ []

verify_record-seal_record_example :
    (verify_record no_addon (seal_record payload ++ 0 ∷ []) ≡ true)
    × (verify_record no_addon (frame_with 7 payload ++ 0 ∷ []) ≡ (7 == checksum payload))
unfolding takyondb.Scrub.Seal.Unhelpful
verify_record-seal_record_example =
    verify_record-seal_record no_addon 7 payload (0 ∷ []) (omega arith) (omega arith) tt

-- The check value of CRC-32, that of the digits 1 to 9.
check_value : crc32_ieee (codes "123456789") ≡ 0xcbf43926
unfolding crc32_ieee
check_value = refl

scrub_fallback-seal_all_example :
    (scrub_fallback (seal_all (payload ∷ [] ∷ []) ++ replicate 4 0)
      ≡ some (report_of (payload ∷ [] ∷ [])))
    × (scrub_fallback (seal_all (payload ∷ [] ∷ []) ++ take 15 (seal_record payload))
        ≡ some (record (report_of (payload ∷ [] ∷ [])) { truncated = true }))
unfolding takyondb.Scrub.Frames.Fits
scrub_fallback-seal_all_example =
    scrub_fallback-seal_all (payload ∷ [] ∷ []) payload 4 5 (omega arith) (omega arith)
      (omega arith)

scrub_fallback-ends_example :
    (report : ScrubReport) × (scrub_fallback (seal_record payload) ≡ some report)
    × (report.corrupt ≤ 1)
    × (14 * report.ok_count ≤ report.bytes)
    × (report.bytes ≤ length (seal_record payload))
scrub_fallback-ends_example = scrub_fallback-ends (seal_record payload)
