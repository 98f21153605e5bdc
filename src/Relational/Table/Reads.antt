-- ===== src/Relational/Table/Reads.antt =====
-- table.ts: what can be read after a write.
use takyondb.Prelude.{
  ◌+◌, ◌++◌, length, length-append, length-map, ◌≢◌, ◌≡◌, refl, Bool, true, false, List, [], ◌∷◌,
  Option, none, some, arith, ap, sym, ◌∙◌, ok, err, Result, ◌⊎◌, inl, inr, ◌>>=◌,
}
use mathlib.Core.List.{map-append}
use takyondb.Js.Text.{Text}
use takyondb.Js.Dict.{
  values, put_new, keys-put, get-delete, length-delete, Dict, IsDistinct, get, put, delete, spread,
  get-put,
}
use takyondb.Js.Value.{Value, Row, JsNumber, field}
use takyondb.Relational.Keys.{encode_pk}
use takyondb.Relational.Table.{
  RelationalTable, count, scan, find_by_pk, filter_rows, insert, update, delete_row,
}
use takyondb.Relational.Table.Writes.{insert-inv, update-inv, delete_row-inv}
use takyondb.Relational.Table.Invariant.{after_insert, after_update, after_delete}

module _ {N : Type 0} ⦃js : JsNumber N⦄ where
  find_by_pk-encoded :
      (t : RelationalTable N) (v : Value N) {k : Text}
      → encode_pk v ≡ ok k
      → find_by_pk t v ≡ ok (get k t.rows)
  unfolding find_by_pk
  find_by_pk-encoded t v e = rw e refl

  scan_all : (t : RelationalTable N) → scan t none ≡ values t.rows
  unfolding scan takyondb.Relational.Filter.matches_where
  scan_all t = all_rows (values t.rows)
    where
      all_rows : (rs : List (Row N)) → filter_rows rs none ≡ rs
      all_rows [] = refl
      all_rows (r ∷ rs) = ap (◌∷◌ r) (all_rows rs)

  -- A table whose rows differ at one key only is read as before at every other.
  find_elsewhere :
      (t t' : RelationalTable N) (pk : Text) (v : Value N)
      → ((k : Text) → k ≢ pk → get k t'.rows ≡ get k t.rows)
      → encode_pk v ≢ ok pk
      → find_by_pk t' v ≡ find_by_pk t v
  unfolding find_by_pk
  find_elsewhere t t' pk v same other = by_result (encode_pk v) other
    where
      by_result :
          (r : Result Text)
          → r ≢ ok pk
          → (r >>= λ k. ok (get k t'.rows)) ≡ (r >>= λ k. ok (get k t.rows))
      by_result (ok k) ne = ap ok (same k (λ e. ne (ap ok e)))
      by_result (err e) ne = refl

  put_elsewhere :
      (pk k : Text) (row : Row N) (rows : Dict (Row N))
      → k ≢ pk
      → get k (put pk row rows) ≡ get k rows
  put_elsewhere pk k row rows ne = ground (arith, get-put pk k row rows)

  put_here : (pk : Text) (row : Row N) (rows : Dict (Row N)) → get pk (put pk row rows) ≡ some row
  put_here pk row rows = ground (arith, get-put pk pk row rows)

  delete_here : (pk : Text) (rows : Dict (Row N)) → get pk (delete pk rows) ≡ none
  delete_here pk rows = ground (arith, get-delete pk pk rows)

  delete_elsewhere :
      (pk k : Text) (rows : Dict (Row N)) → k ≢ pk → get k (delete pk rows) ≡ get k rows
  delete_elsewhere pk k rows ne = ground (arith, get-delete pk k rows)

  length-put :
      (pk : Text) (row cur : Row N) (rows : Dict (Row N))
      → get pk rows ≡ some cur
      → length (put pk row rows) ≡ length rows
  length-put pk row cur rows there =
      sym (length-map (put pk row rows) (λ e. e.0))
      ∙ ap length (keys-put pk row cur rows there)
      ∙ length-map rows (λ e. e.0)

  -- An insert that returns hands back the row, which is then found under its key and comes last in
  -- a scan; no other key is changed.
  pub insert_reads :
      (t : RelationalTable N) (row : Row N) {t' : RelationalTable N} {result : Row N}
      → insert t row ≡ ok (t', result)
      → (result ≡ row)
        × (find_by_pk t' (field row t.schema.primary_key) ≡ ok (some row))
        × (scan t' none ≡ scan t none ++ row ∷ [])
        × (count t' ≡ count t + 1)
        × ((v : Value N)
            → encode_pk v ≢ encode_pk (field row t.schema.primary_key)
            → find_by_pk t' v ≡ find_by_pk t v)
  unfolding count
  insert_reads t row {t'} {result} h =
      let (pk, v, e, free, shape) = insert-inv t row h in
      let after = after_insert t pk row in
      let appended = put_new pk row t.rows free in
      let is_after : t' ≡ after = ap (λ p. p.0) shape in
      rw is_after (
        ap (λ p. p.1) shape,
        find_by_pk-encoded after (field row t.schema.primary_key) e
            ∙ ap ok (put_here pk row t.rows),
        scan_all after
            ∙ ap values appended
            ∙ map-append (λ p. p.1) t.rows ((pk, row) ∷ [])
            ∙ ap (λ l. l ++ row ∷ []) (sym (scan_all t)),
        ap length appended ∙ length-append t.rows ((pk, row) ∷ []),
        λ v ne.
            find_elsewhere t after pk v (λ k. put_elsewhere pk k row t.rows)
              (λ same. ne (same ∙ sym e)),
      )

  -- An update that finds its row returns the merged row, which is then found under the key; the
  -- number of rows stays, and no other key is changed. One that finds none changes nothing.
  pub update_reads :
      (t : RelationalTable N) (pk_value : Value N) (patch : Row N) {t' : RelationalTable N}
      {result : Option (Row N)}
      → update t pk_value patch ≡ ok (t', result)
      → (((find_by_pk t pk_value ≡ ok none) × (result ≡ none) × (t' ≡ t))
          ⊎ ((cur : Row N) × (find_by_pk t pk_value ≡ ok (some cur))
              × (result ≡ some (spread cur patch))
              × (find_by_pk t' pk_value ≡ ok (some (spread cur patch)))
              × (count t' ≡ count t)))
        × ((v : Value N) → encode_pk v ≢ encode_pk pk_value → find_by_pk t' v ≡ find_by_pk t v)
  unfolding count
  update_reads t pk_value patch {t'} {result} h =
      let (pk, e, found) = update-inv t pk_value patch h in
      elim found [
        | inl (absent, shape) ↦
            let nowhere = find_by_pk-encoded t pk_value e ∙ ap ok absent in
            let still : t' ≡ t = ap (λ p. p.0) shape in
            (inl (nowhere, ap (λ p. p.1) shape, still), λ w ne. ap (λ x. find_by_pk x w) still)
        | inr (cur, there, same, v, shape) ↦
            let next = spread cur patch in
            let after = after_update t pk cur next in
            let is_after : t' ≡ after = ap (λ p. p.0) shape in
            rw is_after (
              inr (
                cur,
                find_by_pk-encoded t pk_value e ∙ ap ok there,
                ap (λ p. p.1) shape,
                find_by_pk-encoded after pk_value e ∙ ap ok (put_here pk next t.rows),
                length-put pk next cur t.rows there,
              ),
              λ w ne.
                  find_elsewhere t after pk w (λ k. put_elsewhere pk k next t.rows)
                    (λ same. ne (same ∙ sym e)),
            )
      ]

  -- A delete returns whether the key was there; after it the key is not found, one row is gone if
  -- it was there, and no other key is changed.
  pub delete_reads :
      (t : RelationalTable N) (pk_value : Value N) {t' : RelationalTable N} {result : Bool}
      → IsDistinct t.rows
      → delete_row t pk_value ≡ ok (t', result)
      → (find_by_pk t' pk_value ≡ ok none)
        × (((find_by_pk t pk_value ≡ ok none) × (result ≡ false) × (t' ≡ t))
            ⊎ ((cur : Row N) × (find_by_pk t pk_value ≡ ok (some cur))
                × (result ≡ true)
                × (count t' + 1 ≡ count t)))
        × ((v : Value N) → encode_pk v ≢ encode_pk pk_value → find_by_pk t' v ≡ find_by_pk t v)
  unfolding count
  delete_reads t pk_value {t'} {result} d h =
      let (pk, e, found) = delete_row-inv t pk_value h in
      elim found [
        | inl (absent, shape) ↦
            let nowhere = find_by_pk-encoded t pk_value e ∙ ap ok absent in
            let still : t' ≡ t = ap (λ p. p.0) shape in
            (
              ap (λ x. find_by_pk x pk_value) still ∙ nowhere,
              inl (nowhere, ap (λ p. p.1) shape, still),
              λ w ne. ap (λ x. find_by_pk x w) still,
            )
        | inr (cur, there, shape) ↦
            let after = after_delete t pk cur in
            let is_after : t' ≡ after = ap (λ p. p.0) shape in
            rw is_after (
              find_by_pk-encoded after pk_value e ∙ ap ok (delete_here pk t.rows),
              inr (
                cur,
                find_by_pk-encoded t pk_value e ∙ ap ok there,
                ap (λ p. p.1) shape,
                length-delete pk cur t.rows d there,
              ),
              λ w ne.
                  find_elsewhere t after pk w (λ k. delete_elsewhere pk k t.rows)
                    (λ same. ne (same ∙ sym e)),
            )
      ]
