-- ===== src/Scrub/Frames.antt =====
-- client/scrub.ts: the walk over whole frames.
use mathlib.Core.List.{append_assoc, append-nil}
use takyondb.Prelude.{
  ℕ, zero, suc, ◌+◌, ◌^◌, ◌<◌, ◌≤◌, ◌≡◌, ◌∙◌, refl, sym, ap, subst, List, [], ◌∷◌, ◌++◌, Option,
  some, length, take, drop, arith, length-append, All,
}
use takyondb.Js.Blocks.{word, take-length, drop-length}
use takyondb.Scrub.{ScrubReport, Round, stop, envelope, round_at, walk, seal_record}
use takyondb.Scrub.Seal.{
  frame, seal_record-frame, declared_len-header, checksum, verify_record_fallback-frame,
}

pub length-take-le : (n : ℕ) (xs : List ℕ) → length (take n xs) ≤ n
length-take-le zero xs = omega arith
length-take-le (suc n) [] = omega arith
length-take-le (suc n) (x ∷ xs) = omega (arith, length-take-le n xs)

-- The sealed payloads one behind another.
pub seal_all : List (List ℕ) → List ℕ
seal_all [] = []
seal_all (p ∷ payloads) = seal_record p ++ seal_all payloads

-- Each length fits the 32-bit field.
unfoldable pub Fits : List (List ℕ) → Type 0
Fits = All (λ p. length p < 2 ^ 32)

abbrev pub counted : ScrubReport → ℕ → ℕ → ScrubReport
counted r n size = record r { ok_count = r.ok_count + n; bytes = r.bytes + size }

counted_same : (r : ScrubReport) {n m a b : ℕ} → n ≡ m → a ≡ b → counted r n a ≡ counted r m b
counted_same r {m = m} {a = a} e f = ap (λ k. counted r k a) e ∙ ap (counted r m) f

counted_nothing : (r : ScrubReport) → r ≡ counted r 0 0
counted_nothing r =
    let same : (r.ok_count ≡ r.ok_count + 0) = omega arith in
    let used : (r.bytes ≡ r.bytes + 0) = omega arith in
    ap (λ k. record r { ok_count = k }) same
    ∙ ap (λ k. record r { ok_count = r.ok_count + 0; bytes = k }) used

counted_more :
    (r : ScrubReport) (n size k more : ℕ)
    → counted (counted r n size) k more ≡ counted r (n + k) (size + more)
counted_more r n size k more =
    let same : (r.ok_count + n + k ≡ r.ok_count + (n + k)) = omega arith in
    let used : (r.bytes + size + more ≡ r.bytes + (size + more)) = omega arith in
    ap (λ c. record r { ok_count = c; bytes = r.bytes + size + more }) same
    ∙ ap (λ c. record r { ok_count = r.ok_count + (n + k); bytes = c }) used

round_at-frame :
    (r : ScrubReport) (p rest : List ℕ)
    → length p < 2 ^ 32
    → round_at r (frame p ++ rest) (some (length p)) ≡ envelope (14 + length p)
unfolding round_at
round_at-frame r p rest h =
    let whole : (length (frame p) ≡ 14 + length p) = omega arith in
    let total : (length (frame p ++ rest) ≡ 14 + (length p + length rest)) =
      omega (arith, length-append p rest) in
    let cut : (take (14 + length p) (frame p ++ rest) ≡ frame p ++ []) =
      ap (λ k. take k (frame p ++ rest)) (sym whole)
      ∙ take-length (frame p) rest
      ∙ sym (append-nil (frame p)) in
    rw cut (rw (verify_record_fallback-frame p [] h) (ground arith))

-- One envelope at the front is counted, and the walk goes on behind it.
walk-frame :
    (fuel : ℕ) (r : ScrubReport) (p rest : List ℕ)
    → length p < 2 ^ 32
    → walk (suc fuel) r (frame p ++ rest)
      ≡ walk fuel (record r { ok_count = r.ok_count + 1; bytes = r.bytes + (14 + length p) }) rest
unfolding walk
walk-frame fuel r p rest h =
    let whole : (length (frame p) ≡ 14 + length p) = omega arith in
    let cut : (drop (14 + length p) (frame p ++ rest) ≡ rest) =
      ap (λ k. drop k (frame p ++ rest)) (sym whole) ∙ drop-length (frame p) rest in
    let after : ScrubReport = record r {
      ok_count = r.ok_count + 1;
      bytes = r.bytes + (14 + length p);
    } in
    ap (λ d. next (round_at r (frame p ++ rest) d))
      (declared_len-header (length p) (word (checksum p) ++ (p ++ rest)) h)
    ∙ ap next (round_at-frame r p rest h)
    ∙ ap (walk fuel after) cut
  where
    next : Round → Option ScrubReport
    next round = elim round [
      | stop report ↦ some report
      | envelope size ↦
          walk fuel (record r { ok_count = r.ok_count + 1; bytes = r.bytes + size })
            (drop size (frame p ++ rest))
    ]

pub frame_all : List (List ℕ) → List ℕ
frame_all [] = []
frame_all (p ∷ payloads) = frame p ++ frame_all payloads

pub seal_all-frame_all : (payloads : List (List ℕ)) → seal_all payloads ≡ frame_all payloads
unfolding seal_all frame_all
seal_all-frame_all [] = refl
seal_all-frame_all (p ∷ payloads) =
    ap (λ s. s ++ seal_all payloads) (seal_record-frame p)
    ∙ ap (λ s. frame p ++ s) (seal_all-frame_all payloads)

-- Envelopes at the front are all counted, whatever stands behind them.
pub walk-frame_all :
    (fuel : ℕ) (r : ScrubReport) (payloads : List (List ℕ)) (tail : List ℕ)
    → Fits payloads
    → length (frame_all payloads ++ tail) ≤ fuel
    → (left : ℕ) × (length tail ≤ left)
      × (walk fuel r (frame_all payloads ++ tail)
          ≡ walk left (counted r (length payloads) (length (frame_all payloads))) tail)
unfolding frame_all Fits
walk-frame_all fuel r [] tail f h = (fuel, h, ap (λ s. walk fuel s tail) (counted_nothing r))
walk-frame_all zero r (p ∷ payloads) tail f h = absurd (omega arith)
walk-frame_all (suc fuel) r (p ∷ payloads) tail f h =
    let rest : List ℕ = frame_all payloads ++ tail in
    let total : (length (p ++ rest) ≡ length p + length rest) = length-append p rest in
    let size : (length (frame p ++ frame_all payloads)
        ≡ 14 + length p + length (frame_all payloads)) =
      omega (arith, length-append p (frame_all payloads)) in
    let assoc : (frame p ++ frame_all payloads ++ tail ≡ frame p ++ rest) =
      append_assoc (frame p) (frame_all payloads) tail in
    let room : (length (frame p ++ rest) ≤ suc fuel) = subst (λ x. length x ≤ suc fuel) assoc h in
    let shorter : (length rest ≤ fuel) = omega (arith, total) in
    let (left, enough, e) =
      walk-frame_all fuel (counted r 1 (14 + length p)) payloads tail f.1 shorter in
    let report : (counted (counted r 1 (14 + length p)) (length payloads)
          (length (frame_all payloads))
        ≡ counted r (length (p ∷ payloads)) (length (frame p ++ frame_all payloads))) =
      counted_more r 1 (14 + length p) (length payloads) (length (frame_all payloads))
      ∙ counted_same r (omega arith) (omega (arith, size)) in
    (
      left,
      enough,
      ap (walk (suc fuel) r) assoc
          ∙ walk-frame fuel r p rest f.0
          ∙ e
          ∙ ap (λ s. walk left s tail) report,
    )
