-- ===== src/Collections/Records.antt =====
-- takyon.ts, `allocateRecordOffset`: the records that are handed out.
pub mod Disjoint
use takyondb.Prelude.{
  ℕ, zero, suc, ◌+◌, ◌-◌, ◌*◌, ◌/◌, ◌%◌, ◌^◌, ◌≤◌, ◌<◌, ◌≡◌, ◌∙◌, ◌⊎◌, inl, inr, refl, ap, sym,
  true, false, List, [], ◌∷◌, some, Result, ok, err, Error, length, get_elem?, arith, ltb, ◌==◌,
  Bool-cases, if◌then◌else◌, subst,
}
use takyondb.Js.Bytes.{get_uint32, set_uint32, length-set_uint32, get_uint32-set_uint32_self}
use takyondb.Layout.{Regions}
use takyondb.RecordSchema.{align_up, record_alignment}
use takyondb.Proxy.{Machine, record_bump_view, word_view}
use takyondb.Proxy.Fields.{with_memory, seed_bump, add_bump}
use takyondb.Proxy.Fields.Bump.{seed_bump-lem}
use takyondb.Collections.{take_record, allocate_record_offset}

-- What a size takes of the records.
abbrev pub stride : ℕ → ℕ
stride size = align_up size record_alignment

-- The next offset that is handed out.
unfoldable pub next_record : Regions → List ℕ → ℕ
next_record r memory =
    get_uint32 (seed_bump memory (r.record_start - 8) r.record_start) (r.record_start - 8)

next_record-word :
    (r : Regions) (memory : List ℕ) {w : ℕ}
    → get_uint32 memory (r.record_start - 8) ≡ w
    → 0 < w
    → next_record r memory ≡ w
unfolding next_record seed_bump
next_record-word r memory e h =
    let seeded : ((get_uint32 memory (r.record_start - 8) == 0) ≡ false) = ground arith in
    rw seeded e

pub next_record-same :
    (r : Regions) (memory memory' : List ℕ)
    → (r.record_start - 8) + 4 ≤ length memory
    → length memory' ≡ length memory
    → r.record_start < 2 ^ 32
    → get_uint32 memory' (r.record_start - 8) ≡ get_uint32 memory (r.record_start - 8)
    → next_record r memory' ≡ next_record r memory
unfolding next_record seed_bump
next_record-same r memory memory' room long small e =
    elim (Bool-cases (get_uint32 memory (r.record_start - 8) == 0)) [
      | inl z ↦ rw e (
          rw z (
            get_uint32-set_uint32_self memory' (r.record_start - 8) r.record_start (omega arith)
              small
            ∙ sym
                (get_uint32-set_uint32_self memory (r.record_start - 8) r.record_start room small)))
      | inr z ↦ rw e (rw z e)
    ]

record_bump_view-ok :
    (r : Regions) (memory : List ℕ) {at : ℕ}
    → record_bump_view memory r ≡ ok at
    → (r.record_start - 8 ≡ at) × (8 ≤ r.record_start) × (at + 4 ≤ length memory)
unfolding record_bump_view word_view
record_bump_view-ok r memory h = ground arith

-- The spans end at or before the top, each at or before the next, and none leaves the region.
abbrev pub Below : Regions → ℕ → List (ℕ × ℕ) → Type 0
Below r top [] = Unit
Below r top ((offset, size) ∷ spans) =
    (r.record_start ≤ offset)
    × (offset % 8 ≡ 0)
    × (offset + size ≤ top)
    × (offset + size ≤ r.record_start + r.record_bytes)
    × Below r offset spans

pub Below-up :
    (r : Regions) (top top' : ℕ) (spans : List (ℕ × ℕ))
    → top ≤ top'
    → Below r top spans
    → Below r top' spans
Below-up r top top' [] h b = tt
Below-up r top top' ((offset, size) ∷ spans) h b = (b.0, b.1, omega (arith, b.2), b.3, b.4)

pub stride-lem :
    (size : ℕ) → 0 < size → (0 < stride size) × (size ≤ stride size) × (stride size % 8 ≡ 0)
unfolding align_up
stride-lem size h = omega arith

module _ {S : Type 0} where
  -- The spans that were handed out in a run of calls, the last one first, and how many bytes were
  -- asked for, with whatever happens in between that leaves the bump word and the size alone.
  pub data Allocs (r : Regions) (m : Machine S) : List (ℕ × ℕ) → ℕ → Machine S → Type 0 where
    start : Allocs r m [] 0 m
    takes :
        {spans : List (ℕ × ℕ)} {asked : ℕ} {m1 m2 : Machine S} (size offset : ℕ)
        → Allocs r m spans asked m1
        → allocate_record_offset r m1 size ≡ (m2, ok offset)
        → Allocs r m ((offset, size) ∷ spans) (asked + stride size) m2
    fails :
        {spans : List (ℕ × ℕ)} {asked : ℕ} {m1 m2 : Machine S} (size : ℕ) (e : Error)
        → Allocs r m spans asked m1
        → allocate_record_offset r m1 size ≡ (m2, err e)
        → Allocs r m spans (asked + stride size) m2
    other :
        {spans : List (ℕ × ℕ)} {asked : ℕ} {m1 m2 : Machine S}
        → Allocs r m spans asked m1
        → length m2.memory ≡ length m1.memory
        → get_uint32 m2.memory (r.record_start - 8) ≡ get_uint32 m1.memory (r.record_start - 8)
        → Allocs r m spans asked m2

  pub take_record-machine :
      (r : Regions) (m : Machine S) (at n : ℕ)
      → (take_record r m at n).0
        ≡ with_memory m (add_bump (seed_bump m.memory at r.record_start) at n)
  unfolding take_record
  take_record-machine r m at n =
      elim (Bool-cases (
        ltb (r.record_start + r.record_bytes)
          (get_uint32 (seed_bump m.memory at r.record_start) at + n))) [
            | inl e ↦ rw e refl
            | inr e ↦ rw e refl
          ]

  pub take_record-memory :
      (r : Regions) (m : Machine S) (at n : ℕ)
      → (take_record r m at n).0.memory ≡ add_bump (seed_bump m.memory at r.record_start) at n
  take_record-memory r m at n = ap (λ m. m.memory) (take_record-machine r m at n)

  pub take_record-ok :
      (r : Regions) (m : Machine S) (at n : ℕ) {m2 : Machine S} {offset : ℕ}
      → take_record r m at n ≡ (m2, ok offset)
      → (get_uint32 (seed_bump m.memory at r.record_start) at ≡ offset)
        × (offset + n ≤ r.record_start + r.record_bytes)
  unfolding take_record
  take_record-ok r m at n h = ground arith

  -- One call that reached the word.
  pub take_record-next :
      (r : Regions) (m : Machine S) (n : ℕ)
      → (r.record_start - 8) + 4 ≤ length m.memory
      → r.record_start < 2 ^ 32
      → 0 < n
      → next_record r m.memory + n < 2 ^ 32
      → (next_record r (take_record r m (r.record_start - 8) n).0.memory
          ≡ next_record r m.memory + n)
        × (length (take_record r m (r.record_start - 8) n).0.memory ≡ length m.memory)
  unfolding next_record add_bump
  take_record-next r m n room small some_bytes fits =
      let at = r.record_start - 8 in
      let seeded = seed_bump m.memory at r.record_start in
      let (long, fresh, beside) = seed_bump-lem m.memory at r.record_start room small in
      let no_wrap : ((get_uint32 seeded at + n) % 2 ^ 32 ≡ get_uint32 seeded at + n) =
        omega arith in
      let word =
        get_uint32-set_uint32_self seeded at ((get_uint32 seeded at + n) % 2 ^ 32) (omega arith)
          (omega arith) in
      rw (take_record-memory r m at n) (
        next_record-word r (add_bump seeded at n) (word ∙ no_wrap) (omega arith),
        length-set_uint32 seeded at _ ∙ long,
      )

  -- A call that reached the bump word.
  pub record Reaches (r : Regions) (m : Machine S) (size : ℕ) (m2 : Machine S) (done : Result ℕ)
      : Type 0 where
    pub some_bytes : 0 < size
    pub after_word : 8 ≤ r.record_start
    pub room : (r.record_start - 8) + 4 ≤ length m.memory
    pub taken : take_record r m (r.record_start - 8) (stride size) ≡ (m2, done)

  pub allocate-cases :
      (r : Regions) (m m2 : Machine S) (size : ℕ) (done : Result ℕ)
      → allocate_record_offset r m size ≡ (m2, done)
      → ((m ≡ m2) × ((e : Error) × (err e ≡ done))) ⊎ Reaches r m size m2 done
  unfolding allocate_record_offset
  allocate-cases r m m2 zero done h = inl (ap (λ p. p.0) h, (_, ap (λ p. p.1) h))
  allocate-cases r m m2 (suc size) done h = go (record_bump_view m.memory r) refl h
    where
      go :
          (view : Result ℕ)
          → record_bump_view m.memory r ≡ view
          → elim view [ err e ↦ (m, err e) | ok at ↦ take_record r m at (stride (suc size)) ]
            ≡ (m2, done)
          → ((m ≡ m2) × ((e : Error) × (err e ≡ done))) ⊎ Reaches r m (suc size) m2 done
      go (err e) seen k = inl (ap (λ p. p.0) k, (e, ap (λ p. p.1) k))
      go (ok at) seen k =
          let (here, after, room) = record_bump_view-ok r m.memory seen in
          inr (record {
            some_bytes = omega arith;
            after_word = after;
            room = omega arith;
            taken = ap (λ at. take_record r m at (stride (suc size))) here ∙ k;
          })
