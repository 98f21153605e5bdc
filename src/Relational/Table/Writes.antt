-- ===== src/Relational/Table/Writes.antt =====
-- table.ts: what each method does on each of its branches, and the invariant over any writes.
use takyondb.Prelude.{
  ◌≡◌, refl, Bool, true, false, Option, none, some, arith, ok, ◌⊎◌, inl, inr, >>=-eq-ok,
}
use takyondb.Js.Text.{Text}
use takyondb.Js.Dict.{IsDistinct, get, has, spread, get-spread}
use takyondb.Js.Value.{Value, Row, JsNumber, field, undefined}
use takyondb.Relational.Keys.{encode_pk}
use takyondb.Relational.RowCheck.{validate_row, is_missing_key}
use takyondb.Relational.Table.{
  RelationalTable, insert, update, update_row, update_found, delete_found, delete_row,
  check_same_key,
}
use takyondb.Relational.Table.Invariant.{after_insert, after_update, after_delete}

module _ {N : Type 0} ⦃js : JsNumber N⦄ where
  -- A returned insert has validated the row, and stored it under a key that was free.
  pub insert-inv :
      (t : RelationalTable N) (row : Row N) {r : RelationalTable N × Row N}
      → insert t row ≡ ok r
      → (pk : Text) × (validate_row t.schema row ≡ ok tt)
        × (encode_pk (field row t.schema.primary_key) ≡ ok pk)
        × (get pk t.rows ≡ none)
        × (r ≡ (after_insert t pk row, row))
  unfolding insert has
  insert-inv t row h = ground arith

  -- A patch that passes keeps the key of the row.
  pub update_row-inv :
      (t : RelationalTable N) (pk : Text) (cur patch : Row N)
      {r : RelationalTable N × Option (Row N)}
      → update_row t pk cur patch ≡ ok r
      → (check_same_key pk (field patch t.schema.primary_key) ≡ ok tt)
        × (validate_row t.schema (spread cur patch) ≡ ok tt)
        × (r ≡ (after_update t pk cur (spread cur patch), some (spread cur patch)))
  unfolding update_row
  update_row-inv t pk cur patch h = ground arith

  update_found-inv :
      (t : RelationalTable N) (pk : Text) (patch : Row N) (o : Option (Row N))
      {r : RelationalTable N × Option (Row N)}
      → update_found t pk patch o ≡ ok r
      → ((o ≡ none) × (r ≡ (t, none)))
        ⊎ ((cur : Row N) × (o ≡ some cur)
            × (check_same_key pk (field patch t.schema.primary_key) ≡ ok tt)
            × (validate_row t.schema (spread cur patch) ≡ ok tt)
            × (r ≡ (after_update t pk cur (spread cur patch), some (spread cur patch))))
  unfolding update_found
  update_found-inv t pk patch none h = inl (refl, ground arith)
  update_found-inv t pk patch (some cur) h =
      let (same, v, e) = update_row-inv t pk cur patch h in inr (cur, refl, same, v, e)

  -- A returned update has found no row, or a row that it has replaced by the valid merged row.
  pub update-inv :
      (t : RelationalTable N) (pk_value : Value N) (patch : Row N)
      {r : RelationalTable N × Option (Row N)}
      → update t pk_value patch ≡ ok r
      → (pk : Text) × (encode_pk pk_value ≡ ok pk)
        × (((get pk t.rows ≡ none) × (r ≡ (t, none)))
            ⊎ ((cur : Row N) × (get pk t.rows ≡ some cur)
                × (check_same_key pk (field patch t.schema.primary_key) ≡ ok tt)
                × (validate_row t.schema (spread cur patch) ≡ ok tt)
                × (r ≡ (after_update t pk cur (spread cur patch), some (spread cur patch)))))
  unfolding update
  update-inv t pk_value patch h =
      let (pk, e, found) =
        >>=-eq-ok (encode_pk pk_value) (λ pk. update_found t pk patch (get pk t.rows)) h in
      (pk, e, update_found-inv t pk patch (get pk t.rows) found)

  delete_found-inv :
      (t : RelationalTable N) (pk : Text) (o : Option (Row N))
      → ((o ≡ none) × (delete_found t pk o ≡ (t, false)))
        ⊎ ((cur : Row N) × (o ≡ some cur) × (delete_found t pk o ≡ (after_delete t pk cur, true)))
  unfolding delete_found
  delete_found-inv t pk none = inl (refl, refl)
  delete_found-inv t pk (some cur) = inr (cur, refl, refl)

  -- A returned delete has found no row, or a row that it has taken out.
  pub delete_row-inv :
      (t : RelationalTable N) (pk_value : Value N) {r : RelationalTable N × Bool}
      → delete_row t pk_value ≡ ok r
      → (pk : Text) × (encode_pk pk_value ≡ ok pk)
        × (((get pk t.rows ≡ none) × (r ≡ (t, false)))
            ⊎ ((cur : Row N) × (get pk t.rows ≡ some cur) × (r ≡ (after_delete t pk cur, true))))
  unfolding delete_row
  delete_row-inv t pk_value {r} h =
      let (pk, e, found) =
        >>=-eq-ok (encode_pk pk_value) (λ pk. ok (delete_found t pk (get pk t.rows))) h in
      let same : r ≡ delete_found t pk (get pk t.rows) = cc found in
      (pk, e, rw same (delete_found-inv t pk (get pk t.rows)))

  validated_key :
      (t : RelationalTable N) (row : Row N)
      → validate_row t.schema row ≡ ok tt
      → is_missing_key (field row t.schema.primary_key) ≡ false
  unfolding validate_row
  validated_key t row h = ground arith

  checked_key :
      (pk : Text) (v : Value N)
      → check_same_key pk v ≡ ok tt
      → is_missing_key v ≡ false
      → encode_pk v ≡ ok pk
  unfolding check_same_key is_missing_key
  checked_key pk undefined s m = cc
  checked_key pk _ s m = ground arith

  field-spread :
      (k : Text) (patch cur : Row N)
      → IsDistinct patch
      → ((get k patch ≡ none) × (field (spread cur patch) k ≡ field cur k))
        ⊎ (field (spread cur patch) k ≡ field patch k)
  unfolding field
  field-spread k patch cur d = ground (arith, get-spread k patch cur d)

  -- The merged row of a checked patch has the key of the row.
  pub merged_key :
      (t : RelationalTable N) (pk : Text) (cur patch : Row N)
      → IsDistinct patch
      → encode_pk (field cur t.schema.primary_key) ≡ ok pk
      → check_same_key pk (field patch t.schema.primary_key) ≡ ok tt
      → validate_row t.schema (spread cur patch) ≡ ok tt
      → encode_pk (field (spread cur patch) t.schema.primary_key) ≡ ok pk
  merged_key t pk cur patch d e same v =
      let named = validated_key t (spread cur patch) v in
      elim (field-spread t.schema.primary_key patch cur d) [
        | inl (absent, kept) ↦ rw kept e
        | inr taken ↦ rw taken (checked_key pk _ same (rw taken at named))
      ]
