-- ===== src/Relational/Query/Ordered.antt =====
-- query.ts: the rows of a query with `orderBy` ascend or descend in its column, and ties stay in
-- the order of the scan.
use mathlib.Core.List.{Permᴰ}
use takyondb.Prelude.{
  ℕ, ◌≡◌, ◌∙◌, sym, refl, Bool, true, false, not, ◌&&◌, List, [], ◌∷◌, none, some, All, arith,
}
use takyondb.Js.Text.{Text}
use takyondb.Js.Value.{Value, Row, JsNumber, field}
use takyondb.Js.Order.{pos, sort, value_lt}
use takyondb.Js.Sorting.{sort-All, Orders, Ascends, keep, tied, precedes, sort-Ascends, keep-sort}
use takyondb.Relational.Table.{RelationalTable, scan}
use takyondb.Relational.Query.{QueryBuilder, Direction, asc, desc, compare_rows, order, all}
use takyondb.Relational.Query.Rows.{all-Permᴰ}

module _ {N : Type 0} ⦃js : JsNumber N⦄ where
  -- What `<` does on the cells of one kind, as on the texts, or on the numbers without NaN.
  pub record Comparable (P : Value N → Type 0) : Type 0 where
    pub asym : (a b : Value N) → P a → P b → value_lt a b ≡ true → value_lt b a ≡ false
    pub between :
        (a b c : Value N)
        → P a
        → P b
        → P c
        → value_lt a b ≡ false
        → value_lt b c ≡ false
        → value_lt a c ≡ false

  -- In the direction of the query, no cell comes behind one that it should come before.
  abbrev pub in_order : Direction → Value N → Value N → Bool
  in_order asc a b = not (value_lt b a)
  in_order desc a b = not (value_lt a b)

  abbrev pub InOrder : Text → Direction → List (Row N) → Type 0
  InOrder col dir [] = Unit
  InOrder col dir (r ∷ rows) =
      All (λ s. in_order dir (field r col) (field s col) ≡ true) rows × InOrder col dir rows

  -- Neither cell is less than the other.
  abbrev pub same_rank : Text → Value N → Row N → Bool
  same_rank col v r = not (value_lt v (field r col)) && not (value_lt (field r col) v)

  all-sort :
      (t : RelationalTable N) (q : QueryBuilder N) (c : ℕ) (col : Text)
      → q.order_col ≡ some (c ∷ col)
      → q.offset_n ≡ pos 0
      → q.limit_n ≡ none
      → q.select_cols ≡ none
      → all t q ≡ sort (compare_rows (c ∷ col) q.order_dir) (scan t q.where_clause)
  unfolding all order
  all-sort t q c col named o l s = rw named (rw o (rw l (rw s refl)))

  module _ (P : Value N → Type 0) (law : Comparable P) (col : Text) where
    abbrev InColumn : Row N → Type 0
    InColumn r = P (field r col)

    precedes-in_order :
        (dir : Direction) (a b : Row N)
        → InColumn a
        → InColumn b
        → precedes (compare_rows col dir) a b ≡ in_order dir (field a col) (field b col)
    unfolding precedes compare_rows
    precedes-in_order asc a b p q = ground (arith, law.asym (field a col) (field b col) p q)
    precedes-in_order desc a b p q = ground arith

    compare_rows-Orders : (dir : Direction) → Orders (compare_rows col dir) InColumn
    compare_rows-Orders asc = record {
      total = λ x y p q. rw (precedes-in_order asc x y p q) (
          rw (precedes-in_order asc y x q p)
            (λ h. ground (arith, law.asym (field y col) (field x col) q p)));
      transitive = λ x y z p q r. rw (precedes-in_order asc x y p q) (
          rw (precedes-in_order asc y z q r) (
            rw (precedes-in_order asc x z p r) (λ h k.
              ground (arith, law.between (field z col) (field y col) (field x col) r q p))));
    }
    compare_rows-Orders desc = record {
      total = λ x y p q. rw (precedes-in_order desc x y p q) (
          rw (precedes-in_order desc y x q p)
            (λ h. ground (arith, law.asym (field x col) (field y col) p q)));
      transitive = λ x y z p q r. rw (precedes-in_order desc x y p q) (
          rw (precedes-in_order desc y z q r) (
            rw (precedes-in_order desc x z p r) (λ h k.
              ground (arith, law.between (field x col) (field y col) (field z col) p q r))));
    }

    ascending_cells :
        (dir : Direction) (r : Row N) (rows : List (Row N))
        → InColumn r
        → All InColumn rows
        → All (λ s. precedes (compare_rows col dir) r s ≡ true) rows
        → All (λ s. in_order dir (field r col) (field s col) ≡ true) rows
    ascending_cells dir r [] p ps h = tt
    ascending_cells dir r (s ∷ rows) p ps h =
        (sym (precedes-in_order dir r s p ps.0) ∙ h.0, ascending_cells dir r rows p ps.1 h.1)

    Ascends-InOrder :
        (dir : Direction) (rows : List (Row N))
        → All InColumn rows
        → Ascends (compare_rows col dir) rows
        → InOrder col dir rows
    Ascends-InOrder dir [] ps up = tt
    Ascends-InOrder dir (r ∷ rows) ps up =
        (ascending_cells dir r rows ps.0 ps.1 up.0, Ascends-InOrder dir rows ps.1 up.1)

    tied-same_rank :
        (dir : Direction) (a r : Row N)
        → InColumn a
        → InColumn r
        → tied (compare_rows col dir) a r ≡ same_rank col (field a col) r
    tied-same_rank asc a r p q =
        rw (precedes-in_order asc a r p q) (rw (precedes-in_order asc r a q p) (ground arith))
    tied-same_rank desc a r p q =
        rw (precedes-in_order desc a r p q) (rw (precedes-in_order desc r a q p) refl)

    keep-same_rank :
        (dir : Direction) (a : Row N) (rows : List (Row N))
        → InColumn a
        → All InColumn rows
        → keep (tied (compare_rows col dir) a) rows ≡ keep (same_rank col (field a col)) rows
    unfolding keep
    keep-same_rank dir a [] p ps = refl
    keep-same_rank dir a (r ∷ rows) p ps =
        rw (tied-same_rank dir a r p ps.0) (rw (keep-same_rank dir a rows p ps.1) refl)

  -- If `<` orders the cells of the column as it does numbers that are not NaN, or texts: a query
  -- with an order and without an offset, a limit and a projection returns the rows of the scan,
  -- each as often as the scan has it; no row comes behind one that its cell should put it before,
  -- ascending or descending; and the rows that tie with a given one are in the order of the scan.
  pub all-InOrder :
      (P : Value N → Type 0)
      → Comparable P
      → (t : RelationalTable N) (q : QueryBuilder N) (c : ℕ) (col : Text)
      → q.order_col ≡ some (c ∷ col)
      → q.offset_n ≡ pos 0
      → q.limit_n ≡ none
      → q.select_cols ≡ none
      → All (λ r. P (field r (c ∷ col))) (scan t q.where_clause)
      → Permᴰ (scan t q.where_clause) (all t q)
        × InOrder (c ∷ col) q.order_dir (all t q)
        × ((a : Row N)
            → P (field a (c ∷ col))
            → keep (same_rank (c ∷ col) (field a (c ∷ col))) (all t q)
              ≡ keep (same_rank (c ∷ col) (field a (c ∷ col))) (scan t q.where_clause))
  all-InOrder P law t q c col named o l s ps =
      let name = c ∷ col in
      let rows = scan t q.where_clause in
      let compare = compare_rows name q.order_dir in
      let orders = compare_rows-Orders P law name q.order_dir in
      let sorted = sort-All compare (λ r. P (field r name)) rows ps in
      let same = all-sort t q c col named o l s in
      (
        all-Permᴰ t q o l s,
        rw same (
            Ascends-InOrder P law name q.order_dir (sort compare rows) sorted
              (sort-Ascends compare (λ r. P (field r name)) orders rows ps)),
        λ a p. rw same (
            sym (keep-same_rank P law name q.order_dir a (sort compare rows) p sorted)
            ∙ keep-sort compare (λ r. P (field r name)) orders a rows p ps
            ∙ keep-same_rank P law name q.order_dir a rows p ps),
      )
