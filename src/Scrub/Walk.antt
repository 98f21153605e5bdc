-- ===== src/Scrub/Walk.antt =====
-- client/scrub.ts: the walk over a run of envelopes ends, and what it reports.
use takyondb.Prelude.{
  ℕ, zero, suc, ◌+◌, ◌-◌, ◌*◌, ◌≤◌, ◌≡◌, refl, List, [], ◌∷◌, Option, none, some, length, drop,
  arith,
}
use takyondb.Scrub.{
  ScrubReport, Round, stop, envelope, round_at, walk, no_records, scrub_fallback, declared_len,
}

-- A round behind an envelope goes on by 14 bytes at least, and inside the buffer.
RoundBound : ScrubReport → List ℕ → Round → Type 0
RoundBound r rest (stop report) =
    (report.ok_count ≡ r.ok_count) × (report.bytes ≡ r.bytes) × (report.corrupt ≤ r.corrupt + 1)
RoundBound r rest (envelope size) = (14 ≤ size) × (size ≤ length rest)

round_at-RoundBound :
    (r : ScrubReport) (rest : List ℕ) (d : Option ℕ) → RoundBound r rest (round_at r rest d)
unfolding round_at RoundBound
round_at-RoundBound r rest none = ground arith
round_at-RoundBound r rest (some plen) = ground arith

length-drop : (n : ℕ) (xs : List ℕ) → length (drop n xs) ≡ length xs - n
length-drop zero xs = omega arith
length-drop (suc n) [] = omega arith
length-drop (suc n) (x ∷ xs) = omega (arith, length-drop n xs)

-- What any walk from the report `r` over `n` bytes can end with.
pub Ends : ScrubReport → ℕ → Option ScrubReport → Type 0
Ends r n result =
    (report : ScrubReport) × (result ≡ some report)
    × (report.bytes ≤ r.bytes + n)
    × (14 * (report.ok_count - r.ok_count) ≤ report.bytes - r.bytes)
    × (r.ok_count ≤ report.ok_count)
    × (r.bytes ≤ report.bytes)
    × (report.corrupt ≤ r.corrupt + 1)

walk-Ends :
    (fuel : ℕ) (r : ScrubReport) (rest : List ℕ)
    → length rest ≤ fuel
    → Ends r (length rest) (walk fuel r rest)
unfolding walk Ends RoundBound
walk-Ends fuel r [] h = (r, refl, omega arith, omega arith, omega arith, omega arith, omega arith)
walk-Ends zero r (b ∷ rest) h = absurd (omega arith)
walk-Ends (suc fuel) r (b ∷ rest) h =
    by_round (round_at r (b ∷ rest) (declared_len (b ∷ rest)))
      (round_at-RoundBound r (b ∷ rest) (declared_len (b ∷ rest)))
      (λ r' size k. walk-Ends fuel r' (drop size (b ∷ rest)) k)
  where
    by_round :
        (round : Round)
        → RoundBound r (b ∷ rest) round
        → ((r' : ScrubReport) (size : ℕ)
            → length (drop size (b ∷ rest)) ≤ fuel
            → Ends r' (length (drop size (b ∷ rest))) (walk fuel r' (drop size (b ∷ rest))))
        → Ends r (length (b ∷ rest)) (elim round [
          | stop report ↦ some report
          | envelope size ↦
              walk fuel
                (record r { ok_count = r.ok_count + 1; bytes = r.bytes + size })
                (drop size (b ∷ rest))
        ])
    by_round (stop report) bound rec =
        (report, refl, omega arith, omega arith, omega arith, omega arith, omega arith)
    by_round (envelope size) bound rec =
        let left = length-drop size (b ∷ rest) in
        let next : ScrubReport = record r { ok_count = r.ok_count + 1; bytes = r.bytes + size } in
        let (report, e, used, whole, more, grown, corrupt) = rec next size (omega (arith, left)) in
        (report, e, omega (arith, left), omega (arith, left), omega arith, omega arith, omega arith)

-- Every buffer is walked to an end: there is a report, it counts at most one corrupt envelope, and
-- the intact ones take at least 14 bytes each and together no more than the buffer has.
pub scrub_fallback-ends :
    (buf : List ℕ)
    → (report : ScrubReport) × (scrub_fallback buf ≡ some report)
      × (report.corrupt ≤ 1)
      × (14 * report.ok_count ≤ report.bytes)
      × (report.bytes ≤ length buf)
unfolding scrub_fallback Ends
scrub_fallback-ends buf =
    let (report, e, used, whole, more, grown, corrupt) =
      walk-Ends (length buf) no_records buf (omega arith) in
    (report, e, omega arith, omega arith, omega arith)
