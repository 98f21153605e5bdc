-- ===== src/Relational/Executor/Loops.antt =====
-- executor.ts: the loops over the rows of a statement keep the table consistent.
use takyondb.Prelude.{ℕ, ◌≡◌, refl, Bool, List, [], ◌∷◌, Option, Result, ok, err}
use takyondb.Js.Text.{Text}
use takyondb.Js.Dict.{IsDistinct, put, put-IsDistinct}
use takyondb.Js.Value.{Row, JsNumber, field}
use takyondb.Relational.Table.{RelationalTable, update, delete_row}
use takyondb.Relational.Table.Invariant.{IsConsistent}
use takyondb.Relational.Table.Reachable.{updated, deleted, Step-IsConsistent}
use takyondb.Relational.Sql.Writes.{Assignment}
use takyondb.Relational.Executor.{count_if, is_found, update_rows, delete_rows, build_patch}

module _ {N : Type 0} ⦃js : JsNumber N⦄ where
  pub update_rows-IsConsistent :
      (t : RelationalTable N) (pk_col : Text) (patch : Row N) (rows : List (Row N)) (n : ℕ)
      → IsDistinct patch
      → IsConsistent t
      → IsConsistent (update_rows t pk_col patch rows n).0
  unfolding update_rows
  update_rows-IsConsistent t pk_col patch [] n d inv = inv
  update_rows-IsConsistent t pk_col patch (r ∷ rows) n d inv =
      by_result (update t (field r pk_col) patch)
        (λ t' result h. Step-IsConsistent (updated (field r pk_col) patch result d h) inv)
        (λ t' k. update_rows-IsConsistent t' pk_col patch rows k d)
    where
      by_result :
          (res : Result (RelationalTable N × Option (Row N)))
          → ((t' : RelationalTable N) (result : Option (Row N))
              → res ≡ ok (t', result)
              → IsConsistent t')
          → ((t' : RelationalTable N) (k : ℕ)
              → IsConsistent t'
              → IsConsistent (update_rows t' pk_col patch rows k).0)
          → IsConsistent (
              let out : RelationalTable N × Result ℕ = elim res [
                | err e ↦ (t, err e)
                | ok (t', result) ↦ update_rows t' pk_col patch rows (count_if (is_found result) n)
              ] in
              out.0)
      by_result (err e) step rest = inv
      by_result (ok (t', result)) step rest =
          rest t' (count_if (is_found result) n) (step t' result refl)

  pub delete_rows-IsConsistent :
      (t : RelationalTable N) (pk_col : Text) (rows : List (Row N)) (n : ℕ)
      → IsConsistent t
      → IsConsistent (delete_rows t pk_col rows n).0
  unfolding delete_rows
  delete_rows-IsConsistent t pk_col [] n inv = inv
  delete_rows-IsConsistent t pk_col (r ∷ rows) n inv =
      by_result (delete_row t (field r pk_col))
        (λ t' done h. Step-IsConsistent (deleted (field r pk_col) done h) inv)
        (λ t' k. delete_rows-IsConsistent t' pk_col rows k)
    where
      by_result :
          (res : Result (RelationalTable N × Bool))
          → ((t' : RelationalTable N) (done : Bool) → res ≡ ok (t', done) → IsConsistent t')
          → ((t' : RelationalTable N) (k : ℕ)
              → IsConsistent t'
              → IsConsistent (delete_rows t' pk_col rows k).0)
          → IsConsistent (
              let out : RelationalTable N × Result ℕ = elim res [
                | err e ↦ (t, err e)
                | ok (t', done) ↦ delete_rows t' pk_col rows (count_if done n)
              ] in
              out.0)
      by_result (err e) step rest = inv
      by_result (ok (t', done)) step rest = rest t' (count_if done n) (step t' done refl)

  pub build_patch-IsDistinct :
      (patch : Row N) (sets : List (Assignment N))
      → IsDistinct patch
      → IsDistinct (build_patch patch sets)
  unfolding build_patch
  build_patch-IsDistinct patch [] d = d
  build_patch-IsDistinct patch (s ∷ sets) d =
      build_patch-IsDistinct (put s.column s.value patch) sets
        (put-IsDistinct s.column s.value patch d)
