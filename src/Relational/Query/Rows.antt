-- ===== src/Relational/Query/Rows.antt =====
-- query.ts: how the order, the offset, the limit and the projection of `all` fit together.
use mathlib.Core.List.{Permᴰ, map-append}
use mathlib.Core.List.Permᴰ
use mathlib.Core.List.Permᴰ.{nil, cons, swap, trans}
use Prim.Native.Nat.{min}
use takyondb.Prelude.{
  ℕ, zero, suc, ◌+◌, ◌-◌, ◌≡◌, ◌∙◌, refl, sym, ap, List, [], ◌∷◌, ◌++◌, Option, none, some, length,
  take, drop, arith, length-map,
}
use takyondb.Js.Text.{Text}
use takyondb.Js.Value.{Row, JsNumber}
use takyondb.Js.Order.{pos, Ordering, less, equal, greater, place, sort, slice_from, slice_to}
use takyondb.Relational.Table.{RelationalTable, scan}
use takyondb.Relational.Query.{
  QueryBuilder, Direction, compare_rows, order, copy_columns, skip, cap, project, all, count_rows,
  limit, offset,
}

module _ {ℓ} {A : Type ℓ} where
  take-drop_parts : (n : ℕ) (xs : List A) → take n xs ++ drop n xs ≡ xs
  take-drop_parts zero xs = refl
  take-drop_parts (suc n) [] = refl
  take-drop_parts (suc n) (x ∷ xs) = ap (◌∷◌ x) (take-drop_parts n xs)

  drop_nil : (n : ℕ) → drop {A = A} n [] ≡ []
  drop_nil zero = refl
  drop_nil (suc n) = refl

  drop-drop : (m n : ℕ) (xs : List A) → drop n (drop m xs) ≡ drop (m + n) xs
  drop-drop zero n xs = ap (λ k. drop k xs) (omega arith)
  drop-drop (suc m) n [] = drop_nil n ∙ sym (drop_nil (suc m + n))
  drop-drop (suc m) n (x ∷ xs) =
      let sum : (suc (m + n) ≡ suc m + n) = omega arith in
      drop-drop m n xs ∙ ap (λ k. drop k (x ∷ xs)) sum

  place-Permᴰ :
      (compare : A → A → Ordering) (x : A) (xs : List A) → Permᴰ (x ∷ xs) (place compare x xs)
  unfolding place
  place-Permᴰ compare x [] = Permᴰ.refl (x ∷ [])
  place-Permᴰ compare x (y ∷ ys) = by_order (place-Permᴰ compare x ys) (compare x y)
    where
      by_order :
          Permᴰ (x ∷ ys) (place compare x ys)
          → (o : Ordering)
          → Permᴰ
              (x ∷ y ∷ ys)
              (elim o [ greater ↦ y ∷ place compare x ys | less ↦ x ∷ y ∷ ys | equal ↦ x ∷ y ∷ ys ])
      by_order rest less = Permᴰ.refl (x ∷ y ∷ ys)
      by_order rest equal = Permᴰ.refl (x ∷ y ∷ ys)
      by_order rest greater = trans (swap refl refl) (cons refl rest)

  sort-Permᴰ : (compare : A → A → Ordering) (xs : List A) → Permᴰ xs (sort compare xs)
  unfolding sort
  sort-Permᴰ compare [] = nil
  sort-Permᴰ compare (x ∷ xs) =
      trans (cons refl (sort-Permᴰ compare xs)) (place-Permᴰ compare x (sort compare xs))

  length-Permᴰ : {xs ys : List A} → Permᴰ xs ys → length xs ≡ length ys
  length-Permᴰ nil = refl
  length-Permᴰ (cons e p) = ap suc (length-Permᴰ p)
  length-Permᴰ (swap e f) = refl
  length-Permᴰ (trans p q) = length-Permᴰ p ∙ length-Permᴰ q

  length-take : (n : ℕ) (xs : List A) → length (take n xs) ≡ min n (length xs)
  length-take zero xs = omega arith
  length-take (suc n) [] = omega arith
  length-take (suc n) (x ∷ xs) = omega (arith, length-take n xs)

  length-drop : (n : ℕ) (xs : List A) → length (drop n xs) ≡ length xs - n
  length-drop zero xs = omega arith
  length-drop (suc n) [] = omega arith
  length-drop (suc n) (x ∷ xs) = omega (arith, length-drop n xs)

module _ {N : Type 0} where
  skip-drop : (n : ℕ) (rows : List (Row N)) → skip (pos n) rows ≡ drop n rows
  unfolding skip slice_from
  skip-drop zero rows = refl
  skip-drop (suc n) rows = refl

  skip_page :
      (o n : ℕ) (rows : List (Row N))
      → skip (pos o) rows ≡ take n (skip (pos o) rows) ++ skip (pos (o + n)) rows
  skip_page o n rows = rw (skip-drop o rows) (
      rw (skip-drop (o + n) rows) (
        sym (take-drop_parts n (drop o rows))
        ∙ ap (λ r. take n (drop o rows) ++ r) (drop-drop o n rows)))

  project-append :
      (cols : Option (List Text)) (xs ys : List (Row N))
      → project cols (xs ++ ys) ≡ project cols xs ++ project cols ys
  unfolding project
  project-append none xs ys = refl
  project-append (some cols) xs ys = map-append (λ r. copy_columns [] r cols) xs ys

  length-project :
      (cols : Option (List Text)) (rows : List (Row N)) → length (project cols rows) ≡ length rows
  unfolding project
  length-project none rows = refl
  length-project (some cols) rows = length-map rows _

  length-cap-skip :
      (rows : List (Row N)) (o n : ℕ)
      → length (cap (some (pos n)) (skip (pos o) rows)) ≡ min n (length rows - o)
  unfolding cap slice_to
  length-cap-skip rows o n =
      ap (λ r. length (take n r)) (skip-drop o rows)
      ∙ length-take n (drop o rows)
      ∙ ap (min n) (length-drop o rows)

module _ {N : Type 0} ⦃js : JsNumber N⦄ where
  order-Permᴰ :
      (col : Option Text) (dir : Direction) (rows : List (Row N)) → Permᴰ rows (order col dir rows)
  unfolding order
  order-Permᴰ none dir rows = Permᴰ.refl rows
  order-Permᴰ (some []) dir rows = Permᴰ.refl rows
  order-Permᴰ (some (c ∷ col)) dir rows = sort-Permᴰ (compare_rows (c ∷ col) dir) rows

  -- A query without an offset, a limit and a projection returns the rows of the scan, each as often
  -- as the scan has it.
  pub all-Permᴰ :
      (t : RelationalTable N) (q : QueryBuilder N)
      → q.offset_n ≡ pos 0
      → q.limit_n ≡ none
      → q.select_cols ≡ none
      → Permᴰ (scan t q.where_clause) (all t q)
  unfolding all
  all-Permᴰ t q o l s =
      rw o (rw l (rw s (order-Permᴰ q.order_col q.order_dir (scan t q.where_clause))))

  -- For an offset and a limit that are not negative, a page has as many rows as the limit allows
  -- of those that the count, which ignores both, leaves behind the offset.
  length-all :
      (t : RelationalTable N) (q : QueryBuilder N) (o n : ℕ)
      → length (all t (limit (offset q (pos o)) (pos n))) ≡ min n (count_rows t q - o)
  unfolding all limit offset count_rows
  length-all t q o n =
      let rows = order q.order_col q.order_dir (scan t q.where_clause) in
      length-project q.select_cols _
      ∙ length-cap-skip rows o n
      ∙ ap (λ k. min n (k - o))
          (sym (length-Permᴰ (order-Permᴰ q.order_col q.order_dir (scan t q.where_clause))))

  -- For a query without a limit, the rows from an offset on are the page of that offset and a
  -- limit, followed by the rows behind the page: pages neither drop nor repeat a row.
  pub all-pages :
      (t : RelationalTable N) (q : QueryBuilder N) (o n : ℕ)
      → q.limit_n ≡ none
      → all t (offset q (pos o))
        ≡ all t (limit (offset q (pos o)) (pos n)) ++ all t (offset q (pos (o + n)))
  unfolding all limit offset cap slice_to
  all-pages t q o n l =
      let rows = order q.order_col q.order_dir (scan t q.where_clause) in
      rw l (
        ap (project q.select_cols) (skip_page o n rows)
        ∙ project-append q.select_cols (take n (skip (pos o) rows)) (skip (pos (o + n)) rows))
