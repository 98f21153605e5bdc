-- ===== src/Relational/Aggregation/Pass.antt =====
-- aggregation.ts: what the one pass computes, against a definition for each function.
use takyondb.Prelude.{
  ℕ, zero, suc, ◌+◌, ◌≡◌, ◌⊎◌, ◌∙◌, refl, sym, ap, subst, inl, inr, Bool, true, false, List, [],
  ◌∷◌, some, length, get_elem?, All, ok, arith, if◌then◌else◌, Bool-cases,
}
use takyondb.Js.Text.{Text}
use takyondb.Js.Value.{Value, Row, JsNumber, field, null, undefined, bool, num, str, bytes}
use takyondb.Relational.Aggregation.{
  AggFn, Totals, add_number, add_cell, add_rows, initial, select_total, total_of, aggregate, sum,
  avg, min, max,
}

-- Documented behaviour of `<` on numbers, NaN included.
pub record OrderLaws {N : Type 0} (js : JsNumber N) : Type 0 where
  pub lt_irrefl : (a : N) → js.lt a a ≡ false
  pub lt_trans : (a b c : N) → js.lt a b ≡ true → js.lt b c ≡ true → js.lt a c ≡ true

module _ {N : Type 0} where
  -- The numeric cells of a column, in the order of the rows.
  abbrev pub number_first : Value N → List N → List N
  number_first (num v) rest = v ∷ rest
  number_first _ rest = rest

  unfoldable pub numbers : Text → List (Row N) → List N
  numbers column [] = []
  numbers column (row ∷ rows) = number_first (field row column) (numbers column rows)

-- The first element that no later one comes before, in the order `before`.
module _ {N : Type 0} (before : N → N → Bool) where
  extreme : N → List N → N
  extreme m [] = m
  extreme m (x ∷ xs) = extreme (if before x m then x else m) xs

  module _ (irrefl : (a : N) → before a a ≡ false)
      (trans : (a b c : N) → before a b ≡ true → before b c ≡ true → before a c ≡ true) where
    extreme_down : (m : N) (xs : List N) → (extreme m xs ≡ m) ⊎ (before (extreme m xs) m ≡ true)
    unfolding extreme
    extreme_down m [] = inl refl
    extreme_down m (x ∷ xs) = elim (Bool-cases (before x m)) [
      | inl h ↦ rw h (inr (below h (extreme_down x xs)))
      | inr h ↦ rw h (extreme_down m xs)
    ]
      where
        below :
            before x m ≡ true
            → ((extreme x xs ≡ x) ⊎ (before (extreme x xs) x ≡ true))
            → before (extreme x xs) m ≡ true
        below h (inl e) = rw e h
        below h (inr l) = trans (extreme x xs) x m l h

    not_before :
        (x m r : N) → before x m ≡ false → ((r ≡ m) ⊎ (before r m ≡ true)) → before x r ≡ false
    not_before x m r h (inl e) = rw e h
    not_before x m r h (inr l) = ground (arith, trans x r m)

    not_before_old : (x m r : N) → before x m ≡ true → before x r ≡ false → before m r ≡ false
    not_before_old x m r h k = ground (arith, trans x m r)

    extreme_least : (m : N) (xs : List N) → All (λ x. before x (extreme m xs) ≡ false) (m ∷ xs)
    unfolding extreme
    extreme_least m [] = (irrefl m, tt)
    extreme_least m (x ∷ xs) = elim (Bool-cases (before x m)) [
      | inl h ↦
          let least = extreme_least x xs in
          let old : (before m (extreme x xs) ≡ false) =
            not_before_old x m (extreme x xs) h least.0 in
          move (extreme x xs) (rw h refl) (old, least)
      | inr h ↦
          let (here, rest) = extreme_least m xs in
          let new = not_before x m (extreme m xs) h (extreme_down m xs) in
          move (extreme m xs) (rw h refl) (here, (new, rest))
    ]
      where
        move :
            (r : N)
            → extreme m (x ∷ xs) ≡ r
            → All (λ y. before y r ≡ false) (m ∷ x ∷ xs)
            → All (λ y. before y (extreme m (x ∷ xs)) ≡ false) (m ∷ x ∷ xs)
        move r e = subst (λ r. All (λ y. before y r ≡ false) (m ∷ x ∷ xs)) (sym e)

  extreme_member : (m : N) (xs : List N) → (i : ℕ) × (get_elem? (m ∷ xs) i ≡ some (extreme m xs))
  unfolding extreme
  extreme_member m [] = (0, refl)
  extreme_member m (x ∷ xs) = elim (Bool-cases (before x m)) [
    | inl h ↦ let (i, e) = extreme_member x xs in rw h (suc i, e)
    | inr h ↦ rw h (shift (extreme_member m xs))
  ]
    where
      shift :
          ((i : ℕ) × (get_elem? (m ∷ xs) i ≡ some (extreme m xs)))
          → (i : ℕ) × (get_elem? (m ∷ x ∷ xs) i ≡ some (extreme m xs))
      shift (zero, e) = (zero, e)
      shift (suc i, e) = (suc (suc i), e)

module _ {N : Type 0} ⦃js : JsNumber N⦄ where
  -- The loop with the cells that are no numbers left out.
  add_numbers : Totals N → List N → Totals N
  add_numbers a [] = a
  add_numbers a (v ∷ vs) = add_numbers (add_number a v) vs

  add_rows-numbers :
      (column : Text) (a : Totals N) (rows : List (Row N))
      → add_rows column a rows ≡ add_numbers a (numbers column rows)
  unfolding add_rows add_cell numbers add_numbers
  add_rows-numbers column a [] = refl
  add_rows-numbers column a (row ∷ rows) =
      by_cell (field row column) (λ b. add_rows-numbers column b rows)
    where
      by_cell :
          (v : Value N)
          → ((b : Totals N) → add_rows column b rows ≡ add_numbers b (numbers column rows))
          → add_rows column (add_cell a v) rows
            ≡ add_numbers a (number_first v (numbers column rows))
      by_cell (num v) rest = rest (add_number a v)
      by_cell null rest = rest a
      by_cell undefined rest = rest a
      by_cell (bool b) rest = rest a
      by_cell (str s) rest = rest a
      by_cell (bytes i s) rest = rest a

  -- The numbers added up from the left.
  pub sum_from : N → List N → N
  sum_from s [] = s
  sum_from s (v ∷ vs) = sum_from (js.add s v) vs

  abbrev flipped : N → N → Bool
  flipped a b = js.lt b a

  -- The local variables after the rest of the numbers, once one was seen.
  after_first :
      (a : Totals N) (vs : List N)
      → a.seen ≡ true
      → ((add_numbers a vs).sum ≡ sum_from a.sum vs)
        × ((add_numbers a vs).count ≡ a.count + length vs)
        × ((add_numbers a vs).min ≡ extreme js.lt a.min vs)
        × ((add_numbers a vs).max ≡ extreme flipped a.max vs)
  unfolding add_numbers add_number sum_from extreme
  after_first a [] h = (refl, omega arith, refl, refl)
  after_first a (v ∷ vs) h =
      let (s, c, lo, hi) = after_first (add_number a v) vs refl in
      let least : ((add_number a v).min ≡ (if js.lt v a.min then v else a.min)) = rw h refl in
      let most : ((add_number a v).max ≡ (if js.lt a.max v then v else a.max)) = rw h refl in
      (
        s,
        omega (arith, c),
        lo ∙ ap (λ m. extreme js.lt m vs) least,
        hi ∙ ap (λ m. extreme flipped m vs) most,
      )

  -- `m` is one of the numbers, and no number comes before it.
  pub IsExtreme : (N → N → Bool) → List N → N → Type 0
  IsExtreme before ns m = ((i : ℕ) × (get_elem? ns i ≡ some m)) × All (λ x. before x m ≡ false) ns

  -- What each function returns of a column with at least one number.
  pub record Aggregates (rows : List (Row N)) (column : Text) (v : N) (vs : List N) : Type 0 where
    pub summed : aggregate rows sum (some column) ≡ ok (sum_from (js.of_ℕ 0) (v ∷ vs))
    pub average :
        aggregate rows avg (some column)
        ≡ ok (js.div (sum_from (js.of_ℕ 0) (v ∷ vs)) (js.of_ℕ (length (v ∷ vs))))
    pub least : (m : N) × (aggregate rows min (some column) ≡ ok m) × IsExtreme js.lt (v ∷ vs) m
    pub most : (m : N) × (aggregate rows max (some column) ≡ ok m) × IsExtreme flipped (v ∷ vs) m

  total_of-some :
      (a : Totals N) (fn : AggFn) (n : ℕ) → a.count ≡ 1 + n → total_of a fn ≡ select_total a fn
  unfolding total_of
  total_of-some a fn n h = ground arith

  module _ (laws : OrderLaws js) where
    -- If the rows hold a number in the column, `sum` adds its numbers in the order of the rows to
    -- zero, one after another and without a compensation of the rounding, `avg` divides this plain
    -- sum by how many there are, `min` returns one of them that no other is
    -- less than, and `max` one of them that is less than no other. A cell that is no number
    -- changes nothing.
    pub aggregate-Aggregates :
        (rows : List (Row N)) (c : ℕ) (column : Text) (v : N) (vs : List N)
        → numbers (c ∷ column) rows ≡ v ∷ vs
        → Aggregates rows (c ∷ column) v vs
    unfolding aggregate select_total initial add_numbers add_number IsExtreme sum_from
    aggregate-Aggregates rows c column v vs h =
        let a = add_numbers (add_number initial v) vs in
        let same : (add_rows (c ∷ column) initial rows ≡ a) =
          add_rows-numbers (c ∷ column) initial rows ∙ ap (add_numbers initial) h in
        let (s, n, lo, hi) = after_first (add_number initial v) vs refl in
        let total : (fn : AggFn)
            → total_of (add_rows (c ∷ column) initial rows) fn ≡ select_total a fn =
          λ fn. ap (λ a. total_of a fn) same ∙ total_of-some a fn (length vs) n in
        let one_more : (1 + length vs ≡ suc (length vs)) = omega arith in
        record {
          summed = ap ok (total sum ∙ s);
          average = ap ok (
              total avg
              ∙ ap (λ t. js.div t (js.of_ℕ a.count)) s
              ∙ ap (λ k. js.div (sum_from (js.of_ℕ 0) (v ∷ vs)) (js.of_ℕ k)) (n ∙ one_more));
          least = (
            extreme js.lt v vs,
            ap ok (total min ∙ lo),
            (extreme_member js.lt v vs, extreme_least js.lt laws.lt_irrefl laws.lt_trans v vs),
          );
          most = (
            extreme flipped v vs,
            ap ok (total max ∙ hi),
            (
              extreme_member flipped v vs,
              extreme_least flipped laws.lt_irrefl (λ x y z p q. laws.lt_trans z y x q p) v vs,
            ),
          );
        }
