-- ===== src/Relational/CatalogRecord/Store.antt =====
-- catalog_record.ts, `CatalogRecordStore`: catalog records in the string arena, under index keys.
pub mod Payloads
pub mod Loads
use takyondb.Prelude.{
  ℕ, zero, suc, ◌+◌, ◌%◌, Bool, not, List, Option, none, some, ltb, ◌==◌, length, Result, ok, err,
  throw_if, ◌>>=◌, ◌>>◌, if◌then◌else◌, bad_geometry, out_of_string_arena, notify_failed,
  index_failed, offset_out_of_range, bad_catalog_magic, bad_catalog_version, payload_truncated,
  content_mismatch,
}
use takyondb.Js.Text.{Text, text_beq}
use takyondb.Js.Utf8.{Utf8}
use takyondb.Js.Order.{ℤ, pos, negsuc}
use takyondb.Js.Bytes.{get_uint16, get_uint32, set_bytes}
use takyondb.Js.Windows.{window}
use takyondb.Layout.{Regions, read_regions, string_data_start}
use takyondb.Proxy.{Machine, Called, check_queued, is_zero, finish_call, word_view}
use takyondb.Proxy.Fields.{continue_with, with_memory, seed_bump, add_bump}
use takyondb.Relational.Column.{ColumnDef}
use takyondb.Relational.CatalogRecord.{
  DecodedCatalog, header_len, catalog_rec_magic, catalog_rec_version, catalog_record_key,
  catalog_encoded_len, encode_catalog_record, decode_catalog_record,
}

-- The calls that the store makes. The search gives a negative number for a key that is missing.
pub record StoreBindings (S : Type 0) : Type 0 where
  pub notify_arena : Machine S → ℕ → ℕ → Called S
  pub insert_index : Machine S → Text → ℕ → Called S
  pub search_index : Machine S → Text → Result ℤ

pub record CatalogRecordStore : Type 0 where
  pub bump_offset : ℕ
  pub data_start : ℕ

-- `a ?? b`
unfoldable pub or_else : Option ℕ → ℕ → ℕ
or_else none b = b
or_else (some a) b = a

unfoldable pub check_geometry : List ℕ → ℕ → ℕ → Result CatalogRecordStore
check_geometry memory bump_offset data_start = do
  throw_if (ltb (length memory) (bump_offset + 4)) bad_geometry
  throw_if (ltb (length memory) data_start) bad_geometry
  ok (record { bump_offset = bump_offset; data_start = data_start })

-- The constructor, with the two optional overrides.
unfoldable pub new_store : List ℕ → Option ℕ → Option ℕ → Result CatalogRecordStore
unfolding check_geometry or_else
new_store memory (some bump_offset) (some data_start) = check_geometry memory bump_offset data_start
new_store memory bump_offset data_start = do
  regions ← read_regions memory
  check_geometry memory (or_else bump_offset regions.string_start)
      (or_else data_start (string_data_start regions))

-- `if (rc !== 0) throw`
unfoldable pub check_notified : ℤ → Result (Unit {0})
check_notified (pos zero) = ok tt
check_notified rc = err notify_failed

-- The offset of what was stored.
unfoldable pub returning : {S : Type 0} → ℕ → Machine S × Result (Unit {0}) → Machine S × Result ℕ
returning at (m, done) = (m, (do done; ok at))

module _ {S : Type 0} (bindings : StoreBindings S) where
  unfoldable pub publish : Machine S → Text → ℕ → Machine S × Result (Unit {0})
  unfolding finish_call check_queued
  publish m table at = elim (catalog_record_key table) [
    | err e ↦ (m, err e)
    | ok key ↦ finish_call (check_queued index_failed) (bindings.insert_index m key at)
  ]

  -- The payload at the offset that was handed out.
  unfoldable pub store_payload : Machine S → Text → ℕ → List ℕ → Machine S × Result (Unit {0})
  unfolding finish_call check_notified continue_with publish
  store_payload m table at payload =
      let copied = with_memory m (set_bytes m.memory at payload) in
      if ltb (length m.memory) (at + length payload)
      then (m, err out_of_string_arena)
      else continue_with
          (finish_call check_notified (bindings.notify_arena copied at (length payload)))
          (λ m'. publish m' table at)

  unfoldable pub allocate_payload :
      CatalogRecordStore → Machine S → Text → List ℕ → Machine S × Result ℕ
  unfolding seed_bump add_bump store_payload returning
  allocate_payload store m table payload =
      let seeded = seed_bump m.memory store.bump_offset store.data_start in
      let at = get_uint32 seeded store.bump_offset in
      let moved = with_memory m (add_bump seeded store.bump_offset (length payload)) in
      returning at (store_payload moved table at payload)

module _ {S N : Type 0} (bindings : StoreBindings S) (utf8 : Utf8) where
  unfoldable pub save :
      CatalogRecordStore → Machine S → Text → List (ColumnDef N) → Machine S × Result ℕ
  unfolding word_view allocate_payload
  save store m table columns = elim (encode_catalog_record utf8 table columns) [
    | err e ↦ (m, err e)
    | ok payload ↦ elim (word_view m.memory store.bump_offset) [
      | err e ↦ (m, err e)
      | ok _ ↦ allocate_payload bindings store m table payload
    ]
  ]

module _ (utf8 : Utf8) where
  unfoldable pub load_at : List ℕ → Text → ℕ → Result DecodedCatalog
  load_at memory table off = do
    throw_if (ltb (length memory) (off + header_len)) offset_out_of_range
    throw_if (not (get_uint32 memory off == catalog_rec_magic)) bad_catalog_magic
    throw_if (not (get_uint16 memory (off + 4) == catalog_rec_version)) bad_catalog_version
    let total = catalog_encoded_len (get_uint16 memory (off + 6))
    throw_if (ltb (length memory) (off + total)) payload_truncated
    dec ← decode_catalog_record utf8 (window memory off total)
    throw_if (not (text_beq dec.table table)) content_mismatch
    ok dec

  unfoldable pub load_found : List ℕ → Text → ℤ → Result (Option DecodedCatalog)
  unfolding load_at
  load_found memory table (negsuc n) = ok none
  load_found memory table (pos off) = do dec ← load_at memory table off; ok (some dec)

module _ {S : Type 0} (bindings : StoreBindings S) (utf8 : Utf8) where
  unfoldable pub load : Machine S → Text → Result (Option DecodedCatalog)
  unfolding load_found
  load m table = do
    key ← catalog_record_key table
    off ← bindings.search_index m key
    load_found utf8 m.memory table off
