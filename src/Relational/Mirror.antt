-- ===== src/Relational/Mirror.antt =====
-- mirror.ts: the primary keys of a table published in the index of the engine. The native bindings
-- are a parameter: functions on a state of the engine, which may throw.
pub mod Keys
pub mod Lookups
pub mod Runs
pub mod Sync
use takyondb.Prelude.{
  ℕ, zero, suc, Bool, true, false, List, [], ◌∷◌, ◌++◌, Option, none, some, Result, ok, err, ◌>>=◌,
  Error, bad_record_offset, backpressure, index_failed, missing_scan,
}
use takyondb.Js.Text.{Text, codes}
use takyondb.Js.Value.{Value, Row, JsNumber, str, field, to_text}
use takyondb.Js.Order.{ℤ, pos, negsuc}
use takyondb.Relational.Keys.{encode_pk, pk_key}
use takyondb.Relational.Table.{RelationalTable, scan}

-- The calls of `TakyonBindings` that the mirror makes. The last two are missing in an old build.
pub record TakyonBindings (S : Type 0) : Type 0 where
  pub insert_index : S → Text → ℕ → S × Result ℤ
  pub search_index : S → Text → Result ℤ
  pub remove_index : S → Text → S × Result ℤ
  pub scan_prefix : Option (S → Text → ℕ → Result (List ℕ))
  pub scan_range : Option (S → Text → Text → Text → ℕ → Result (List ℕ))

module _ {S : Type 0} where
  -- `if (rc === -2) throw ...; if (rc !== 0) throw ...`
  unfoldable pub check_insert_code : S × Result ℤ → S × Result (Unit {0})
  check_insert_code (s, ok (pos zero)) = (s, ok tt)
  check_insert_code (s, ok (negsuc (suc zero))) = (s, err backpressure)
  check_insert_code (s, ok rc) = (s, err index_failed)
  check_insert_code (s, err e) = (s, err e)

  -- `if (rc === 1) return true; if (rc === 0) return false; throw ...`
  unfoldable pub check_remove_code : S × Result ℤ → S × Result Bool
  check_remove_code (s, ok (pos zero)) = (s, ok false)
  check_remove_code (s, ok (pos (suc zero))) = (s, ok true)
  check_remove_code (s, ok rc) = (s, err index_failed)
  check_remove_code (s, err e) = (s, err e)

  -- An error ends the loop of `syncTable`, and the keys before it stay.
  unfoldable pub continue_after :
      S × Result (Unit {0}) → (S → S × Result (Unit {0})) → S × Result (Unit {0})
  continue_after (s, ok _) rest = rest s
  continue_after (s, err e) rest = (s, err e)

-- `off < 0 ? null : off`
unfoldable pub to_offset : ℤ → Option ℕ
to_offset (pos off) = some off
to_offset (negsuc n) = none

module _ {S N : Type 0} ⦃js : JsNumber N⦄ (bindings : TakyonBindings S) where
  -- An offset that is a number but no whole number is refused like a negative one.
  unfoldable pub mirror_pk : S → Text → Value N → ℤ → S × Result (Unit {0})
  unfolding check_insert_code
  mirror_pk s table pk_value (negsuc n) = (s, err bad_record_offset)
  mirror_pk s table pk_value (pos record_offset) = elim (encode_pk pk_value) [
    | ok pk ↦ check_insert_code (bindings.insert_index s (pk_key table pk) record_offset)
    | err e ↦ (s, err e)
  ]

  unfoldable pub lookup_pk : S → Text → Value N → Result (Option ℕ)
  unfolding to_offset
  lookup_pk s table pk_value = do
    pk ← encode_pk pk_value
    off ← bindings.search_index s (pk_key table pk)
    ok (to_offset off)

  unfoldable pub unmirror_pk : S → Text → Value N → S × Result Bool
  unfolding check_remove_code
  unmirror_pk s table pk_value = elim (encode_pk pk_value) [
    | ok pk ↦ check_remove_code (bindings.remove_index s (pk_key table pk))
    | err e ↦ (s, err e)
  ]

  -- The loop of `syncTable`.
  unfoldable pub sync_rows : S → Text → Text → (Text → ℤ) → List (Row N) → S × Result (Unit {0})
  unfolding mirror_pk continue_after
  sync_rows s name primary_key offset_of [] = (s, ok tt)
  sync_rows s name primary_key offset_of (row ∷ rows) =
      let pk = to_text (field row primary_key) in
      continue_after (mirror_pk s name (str pk) (offset_of pk))
        (λ s'. sync_rows s' name primary_key offset_of rows)

  unfoldable pub sync_table : S → RelationalTable N → (Text → ℤ) → S × Result (Unit {0})
  unfolding sync_rows
  sync_table s table offset_of =
      sync_rows s table.schema.table_name table.schema.primary_key offset_of (scan table none)

module _ {S : Type 0} (bindings : TakyonBindings S) where
  unfoldable pub scan_table : S → Text → ℕ → Result (List ℕ)
  unfolding pk_key
  scan_table s table max_results = elim bindings.scan_prefix [
    | none ↦ err missing_scan
    | some fn ↦ fn s (pk_key table []) max_results
  ]

  unfoldable pub scan_range : S → Text → Text → Text → ℕ → Result (List ℕ)
  unfolding pk_key
  scan_range s table lo hi max_results = elim bindings.scan_range [
    | none ↦ err missing_scan
    | some fn ↦ fn s (pk_key table []) lo hi max_results
  ]
