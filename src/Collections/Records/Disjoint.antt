-- ===== src/Collections/Records/Disjoint.antt =====
-- takyon.ts, `allocateRecordOffset`: no two records that are handed out share a byte.
use takyondb.Prelude.{
  ℕ, zero, suc, ◌+◌, ◌-◌, ◌%◌, ◌^◌, ◌≤◌, ◌<◌, ◌≡◌, ◌∙◌, inl, inr, refl, ap, sym, List, [], ◌∷◌,
  some, Result, ok, err, Error, length, get_elem?, arith, subst,
}
use takyondb.Layout.{Regions}
use takyondb.Proxy.{Machine}
use takyondb.Collections.{allocate_record_offset}
use takyondb.Collections.Records.{
  stride, next_record, Allocs, start, takes, fails, other, Below, Below-up, stride-lem,
  next_record-same, Reaches, allocate-cases, take_record-next, take_record-ok,
}

Below-at :
    (r : Regions) (top j : ℕ) (spans : List (ℕ × ℕ)) {o s : ℕ}
    → Below r top spans
    → get_elem? spans j ≡ some (o, s)
    → (r.record_start ≤ o) × (o % 8 ≡ 0) × (o + s ≤ top) × (o + s ≤ r.record_start + r.record_bytes)
Below-at r top j [] b g = cc
Below-at r top zero ((offset, size) ∷ spans) {o} {s} b g =
    let span : ℕ × ℕ = (offset, size) in
    let here : (span ≡ (o, s)) = cc in
    subst
      (λ p.
        (r.record_start ≤ p.0)
        × (p.0 % 8 ≡ 0)
        × (p.0 + p.1 ≤ top)
        × (p.0 + p.1 ≤ r.record_start + r.record_bytes))
      here (b.0, b.1, b.2, b.3)
Below-at r top (suc j) ((offset, size) ∷ spans) b g =
    let (from, unit, under, inside) = Below-at r offset j spans b.4 g in
    let first = b.2 in (from, unit, omega arith, inside)

Below-apart :
    (r : Regions) (top i j : ℕ) (spans : List (ℕ × ℕ)) {o s o' s' : ℕ}
    → Below r top spans
    → i < j
    → get_elem? spans i ≡ some (o, s)
    → get_elem? spans j ≡ some (o', s')
    → o' + s' ≤ o
Below-apart r top i j [] b lt g k = cc
Below-apart r top i zero (x ∷ spans) b lt g k = absurd (omega arith)
Below-apart r top zero (suc j) ((offset, size) ∷ spans) {o} {s} {o'} {s'} b lt g k =
    let span : ℕ × ℕ = (offset, size) in
    let here : (span ≡ (o, s)) = cc in
    subst (λ p. o' + s' ≤ p.0) here (Below-at r offset j spans {o = o'} {s = s'} b.4 k).2
Below-apart r top (suc i) (suc j) ((offset, size) ∷ spans) b lt g k =
    Below-apart r offset i j spans b.4 (omega arith) g k

module _ {S : Type 0} where
  -- What a run leaves.
  record Ran (r : Regions) (m : Machine S) (spans : List (ℕ × ℕ)) (asked : ℕ) (m' : Machine S)
      : Type 0 where
    below : Below r (next_record r m'.memory) spans
    from : r.record_start ≤ next_record r m'.memory
    unit : next_record r m'.memory % 8 ≡ 0
    top : next_record r m'.memory ≤ next_record r m.memory + asked
    same_length : length m'.memory ≡ length m.memory

  module _ (r : Regions) (m : Machine S) (small : r.record_start < 2 ^ 32)
      (room : (r.record_start - 8) + 4 ≤ length m.memory) where
    -- A call that reached the word moves it by its stride.
    Reaches-next :
        {spans : List (ℕ × ℕ)} {asked : ℕ} (m1 m2 : Machine S) (size : ℕ) (done : Result ℕ)
        → Ran r m spans asked m1
        → next_record r m.memory + (asked + stride size) < 2 ^ 32
        → Reaches r m1 size m2 done
        → (next_record r m2.memory ≡ next_record r m1.memory + stride size)
          × (length m2.memory ≡ length m1.memory)
    Reaches-next m1 m2 size done ran fits reached =
        let long = ran.same_length in
        let top = ran.top in
        let there = ap (λ p. p.0) reached.taken in
        let (next, same) =
          take_record-next r m1 (stride size) (omega arith) small
            (stride-lem size reached.some_bytes).0 (omega arith) in
        (
          ap (λ m. next_record r m.memory) (sym there) ∙ next,
          ap (λ m. length m.memory) (sym there) ∙ same,
        )

    Ran-fails :
        {spans : List (ℕ × ℕ)} {asked : ℕ} (m1 m2 : Machine S) (size : ℕ) (e : Error)
        → Ran r m spans asked m1
        → next_record r m.memory + (asked + stride size) < 2 ^ 32
        → allocate_record_offset r m1 size ≡ (m2, err e)
        → Ran r m spans (asked + stride size) m2
    Ran-fails {spans} {asked} m1 m2 size e ran fits h =
        elim (allocate-cases r m1 m2 size (err e) h) [
          | inl (same, _) ↦
              let top = ran.top in
              rw (← same) (record {
                below = ran.below;
                from = ran.from;
                unit = ran.unit;
                top = omega arith;
                same_length = ran.same_length;
              })
          | inr reached ↦
              let (next, same) = Reaches-next m1 m2 size (err e) ran fits reached in
              let (some_bytes, wide, unit) = stride-lem size reached.some_bytes in
              let from = ran.from in
              let before = ran.unit in
              let top = ran.top in
              record {
                below =
                    Below-up r (next_record r m1.memory) (next_record r m2.memory) spans
                      (omega arith) ran.below;
                from = omega arith;
                unit = omega arith;
                top = omega arith;
                same_length = same ∙ ran.same_length;
              }
        ]

    Ran-takes :
        {spans : List (ℕ × ℕ)} {asked : ℕ} (m1 m2 : Machine S) (size offset : ℕ)
        → Ran r m spans asked m1
        → next_record r m.memory + (asked + stride size) < 2 ^ 32
        → allocate_record_offset r m1 size ≡ (m2, ok offset)
        → Ran r m ((offset, size) ∷ spans) (asked + stride size) m2
    unfolding next_record
    Ran-takes {spans} {asked} m1 m2 size offset ran fits h =
        elim (allocate-cases r m1 m2 size (ok offset) h) [
          | inl (_, (e, bad)) ↦ absurd (ground arith)
          | inr reached ↦
              let (next, same) = Reaches-next m1 m2 size (ok offset) ran fits reached in
              let (some_bytes, wide, unit) = stride-lem size reached.some_bytes in
              let (here, inside) =
                take_record-ok r m1 (r.record_start - 8) (stride size) reached.taken in
              let from = ran.from in
              let before = ran.unit in
              let top = ran.top in
              record {
                below = (
                  omega arith,
                  omega arith,
                  omega arith,
                  omega arith,
                  subst (λ o. Below r o spans) here ran.below,
                );
                from = omega arith;
                unit = omega arith;
                top = omega arith;
                same_length = same ∙ ran.same_length;
              }
        ]

    Allocs-Ran :
        {spans : List (ℕ × ℕ)} {asked : ℕ} {m' : Machine S}
        → r.record_start ≤ next_record r m.memory
        → next_record r m.memory % 8 ≡ 0
        → Allocs r m spans asked m'
        → next_record r m.memory + asked < 2 ^ 32
        → Ran r m spans asked m'
    Allocs-Ran from unit start fits = record {
      below = tt;
      from = from;
      unit = unit;
      top = omega arith;
      same_length = refl;
    }
    Allocs-Ran from unit (takes {m1 = m1} {m2 = m2} size offset run h) fits =
        Ran-takes m1 m2 size offset (Allocs-Ran from unit run (omega arith)) fits h
    Allocs-Ran from unit (fails {m1 = m1} {m2 = m2} size e run h) fits =
        Ran-fails m1 m2 size e (Allocs-Ran from unit run (omega arith)) fits h
    Allocs-Ran from unit (other {m1 = m1} {m2 = m2} run long word) fits =
        let ran = Allocs-Ran from unit run fits in
        let before = ran.same_length in
        let same = next_record-same r m1.memory m2.memory (omega arith) long small word in
        record {
          below = rw same ran.below;
          from = rw same ran.from;
          unit = rw same ran.unit;
          top = rw same ran.top;
          same_length = long ∙ ran.same_length;
        }

  -- From a bump word that is zero, or a multiple of 8 from the start of the records on, in any run
  -- of calls and other steps, failed calls included, whose strides do not carry the word to 2 ^ 32:
  -- each record that was handed out starts at a multiple of 8 and lies inside the region of the
  -- records, and of two of them the one that was handed out first ends before the other starts.
  pub Allocs-disjoint :
      (r : Regions) {m m' : Machine S} {spans : List (ℕ × ℕ)} {asked : ℕ} (i j : ℕ) {o s o' s' : ℕ}
      → Allocs r m spans asked m'
      → r.record_start < 2 ^ 32
      → (r.record_start - 8) + 4 ≤ length m.memory
      → r.record_start ≤ next_record r m.memory
      → next_record r m.memory % 8 ≡ 0
      → next_record r m.memory + asked < 2 ^ 32
      → i < j
      → get_elem? spans i ≡ some (o, s)
      → get_elem? spans j ≡ some (o', s')
      → (r.record_start ≤ o')
        × (o' % 8 ≡ 0)
        × (o' + s' ≤ o)
        × (o % 8 ≡ 0)
        × (o + s ≤ r.record_start + r.record_bytes)
  Allocs-disjoint r {m} {m'} {spans} i j run small room from unit fits lt g k =
      let below = (Allocs-Ran r m small room from unit run fits).below in
      let later = Below-at r (next_record r m'.memory) i spans below g in
      let first = Below-at r (next_record r m'.memory) j spans below k in
      (
        first.0,
        first.1,
        Below-apart r (next_record r m'.memory) i j spans below lt g k,
        later.1,
        later.3,
      )
