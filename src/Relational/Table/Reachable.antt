-- ===== src/Relational/Table/Reachable.antt =====
-- table.ts: the invariant over any sequence of writes.
use takyondb.Prelude.{
  ◌≡◌, refl, Bool, ◌||◌, List, [], ◌∷◌, Option, some, arith, ap, Bool-cases, ok, inl, inr,
}
use takyondb.Js.Text.{Text}
use takyondb.Js.Dict.{Dict, IsDistinct, get, put, spread, get-put}
use takyondb.Js.Value.{Value, Row, JsNumber}
use takyondb.Relational.Column.{ColumnDef}
use takyondb.Relational.Schema.{CompiledColumn}
use takyondb.Relational.Table.{
  RelationalTable, Secondary, new_table, make_secondary, insert, update, delete_row,
}
use takyondb.Relational.Table.Index.{holds}
use takyondb.Relational.Table.Writes.{insert-inv, update-inv, delete_row-inv, merged_key}
use takyondb.Relational.Table.Invariant.{
  IsConsistent, row_holds, after_insert-IsConsistent, after_update-IsConsistent,
  after_delete-IsConsistent,
}

module _ {N : Type 0} ⦃js : JsNumber N⦄ where
  -- A write that returned, or a call that found nothing to write.
  pub data Step : RelationalTable N → RelationalTable N → Type 0 where
    inserted :
        {t t' : RelationalTable N} (row result : Row N) → insert t row ≡ ok (t', result) → Step t t'
    updated :
        {t t' : RelationalTable N} (pk_value : Value N) (patch : Row N) (result : Option (Row N))
        → IsDistinct patch
        → update t pk_value patch ≡ ok (t', result)
        → Step t t'
    deleted :
        {t t' : RelationalTable N} (pk_value : Value N) (result : Bool)
        → delete_row t pk_value ≡ ok (t', result)
        → Step t t'

  pub data Reach (s : RelationalTable N) : RelationalTable N → Type 0 where
    here : Reach s s
    next : {t u : RelationalTable N} → Reach s t → Step t u → Reach s u

  pub Step-IsConsistent : {t u : RelationalTable N} → Step t u → IsConsistent t → IsConsistent u
  Step-IsConsistent {t} (inserted row result h) inv =
      let (pk, v, e, free, shape) = insert-inv t row h in
      rw (ap (λ p. p.0) shape) (after_insert-IsConsistent t inv pk row v e free)
  Step-IsConsistent {t} (updated pk_value patch result d h) inv =
      let (pk, e, found) = update-inv t pk_value patch h in
      elim found [
        | inl (absent, shape) ↦ rw (ap (λ p. p.0) shape) inv
        | inr (cur, there, same, v, shape) ↦
            let key = merged_key t pk cur patch d (inv.keyed pk cur there) same v in
            rw (ap (λ p. p.0) shape)
              (after_update-IsConsistent t inv pk cur (spread cur patch) there v key)
      ]
  Step-IsConsistent {t} (deleted pk_value result h) inv =
      let (pk, e, found) = delete_row-inv t pk_value h in
      elim found [
        | inl (absent, shape) ↦ rw (ap (λ p. p.0) shape) inv
        | inr (cur, there, shape) ↦
            rw (ap (λ p. p.0) shape) (after_delete-IsConsistent t inv pk cur there)
      ]

  -- Every map that the constructor makes is empty.
  make_secondary-empty :
      (s : Dict Secondary) (cs : List (CompiledColumn N))
      → ((col : Text) (m : Secondary) → get col s ≡ some m → m ≡ [])
      → (col : Text) (m : Secondary) → get col (make_secondary s cs) ≡ some m
      → m ≡ []
  unfolding make_secondary
  make_secondary-empty s [] h = h
  make_secondary-empty s (c ∷ cs) h = elim (Bool-cases (c.unique || c.primary_key)) [
    | inl mapped ↦ rw mapped (
        make_secondary-empty (put c.name [] s) cs
          (λ col m g. ground (arith, get-put c.name col [] s, h col m)))
    | inr other ↦ rw other (make_secondary-empty s cs h)
  ]

  empty-IsConsistent :
      (t : RelationalTable N)
      → t.rows ≡ []
      → ((col : Text) (m : Secondary) → get col t.secondary ≡ some m → m ≡ [])
      → IsConsistent t
  unfolding get
  empty-IsConsistent t none_yet empty = record {
    distinct = rw none_yet tt;
    keyed = λ k row h. absurd (ground (arith, ap (get k) none_yet));
    valid = λ k row h. absurd (ground (arith, ap (get k) none_yet));
    indexed = λ col m h v k. rw (empty col m h, none_yet) (unfold holds row_holds in refl);
    compact = λ col m h v e. ground (arith, ap (get v) (empty col m h));
  }

  new_table-parts :
      (table_name : Text) (columns : List (ColumnDef N)) {t : RelationalTable N}
      → new_table table_name columns ≡ ok t
      → (t.rows ≡ []) × (t.secondary ≡ make_secondary [] t.schema.columns)
  unfolding new_table
  new_table-parts table_name columns h = ground arith

  pub new_table-IsConsistent :
      (table_name : Text) (columns : List (ColumnDef N)) {t : RelationalTable N}
      → new_table table_name columns ≡ ok t
      → IsConsistent t
  new_table-IsConsistent table_name columns {t} h =
      let (rows, secondary) = new_table-parts table_name columns h in
      empty-IsConsistent t rows
        (rw secondary (make_secondary-empty [] t.schema.columns (λ col m g. unfold get in cc g)))

  -- Whatever inserts, updates and deletes return on a new table, its rows and its secondary maps
  -- agree: a map lists a key under a value exactly if the row of the key renders the column so.
  pub Reach-IsConsistent :
      (table_name : Text) (columns : List (ColumnDef N)) {s t : RelationalTable N}
      → new_table table_name columns ≡ ok s
      → Reach s t
      → IsConsistent t
  Reach-IsConsistent table_name columns h here = new_table-IsConsistent table_name columns h
  Reach-IsConsistent table_name columns h (next r step) =
      Step-IsConsistent step (Reach-IsConsistent table_name columns h r)
