-- ===== src/Relational/CatalogRecord/Store/Loads.antt =====
-- catalog_record.ts, `CatalogRecordStore`: a descriptor that was saved is loaded.
use mathlib.Core.List.{append-nil}
use takyondb.Prelude.{
  ℕ, ◌+◌, ◌%◌, ◌^◌, ◌≤◌, ◌<◌, ◌≡◌, ◌∙◌, ◌⊎◌, refl, ap, sym, true, false, List, [], map, some, ltb,
  length, All, ok, arith,
}
use takyondb.Js.Text.{Text, text_beq}
use takyondb.Js.Utf8.{Utf8, Survives}
use takyondb.Js.Bytes.{get_uint16, get_uint32, length-set_uint32, get_uint32-set_uint32_self}
use takyondb.Js.Windows.{window, get_uint16-block, get_uint32-block}
use takyondb.Proxy.{Machine, word_view}
use takyondb.Proxy.Fields.{with_memory, seed_bump, add_bump}
use takyondb.Proxy.Fields.Bump.{seed_bump-lem}
use takyondb.Relational.Column.{ColumnDef}
use takyondb.Relational.CatalogRecord.{
  DecodedCatalog, catalog_record_key, catalog_encoded_len, encode_catalog_record,
  decode_catalog_record,
}
use takyondb.Relational.CatalogRecord.Blocks.{Encodable}
use takyondb.Relational.CatalogRecord.RoundTrip.{
  decoded_column, decode-encode_catalog_record, encode_catalog_record-header,
}
use takyondb.Relational.CatalogRecord.Store.{
  StoreBindings, CatalogRecordStore, allocate_payload, save, load_at, load_found, load,
}
use takyondb.Relational.CatalogRecord.Store.Payloads.{
  StoreLaws, store_payload-inv, store_payload-Stored, allocate_payload-inv,
}

module _ (utf8 : Utf8) where
  -- A record that stands at an offset of the memory is loaded from there.
  load_at-record :
      (memory buf : List ℕ) (table : Text) (at : ℕ) (dec : DecodedCatalog) (count : ℕ)
      → at + length buf ≤ length memory
      → length buf ≡ catalog_encoded_len count
      → window memory at (length buf) ≡ buf
      → get_uint32 buf 0 ≡ 0x54434154
      → get_uint16 buf 4 ≡ 1
      → get_uint16 buf 6 ≡ count
      → decode_catalog_record utf8 buf ≡ ok dec
      → text_beq dec.table table ≡ true
      → load_at utf8 memory table at ≡ ok dec
  unfolding load_at catalog_encoded_len
  load_at-record memory buf table at dec count inside long content magic version counted decoded
        named =
      let size : (8 ≤ length buf) = omega arith in
      let origin : (at ≡ at + 0) = omega arith in
      let magic' =
        ap (get_uint32 memory) origin
        ∙ get_uint32-block memory buf at 0 content (omega arith)
        ∙ magic in
      let version' = get_uint16-block memory buf at 4 content (omega arith) ∙ version in
      let counted' = get_uint16-block memory buf at 6 content (omega arith) ∙ counted in
      let header : (ltb (length memory) (at + 8) ≡ false) = ground arith in
      let whole : (ltb (length memory) (at + catalog_encoded_len count) ≡ false) = ground arith in
      let read : (window memory at (catalog_encoded_len count) ≡ buf) =
        ap (window memory at) (sym long) ∙ content in
      rw (header, magic', version') (rw counted' (rw whole (rw read (rw decoded (rw named refl)))))

module _ {S N : Type 0} (bindings : StoreBindings S) (utf8 : Utf8) (store : CatalogRecordStore)
    (laws : StoreLaws bindings store) where
  save-inv :
      (m : Machine S) (table : Text) (columns : List (ColumnDef N)) (buf : List ℕ) {m' : Machine S}
      {at : ℕ}
      → encode_catalog_record utf8 table columns ≡ ok buf
      → save bindings utf8 store m table columns ≡ (m', ok at)
      → allocate_payload bindings store m table buf ≡ (m', ok at)
  unfolding save word_view
  save-inv m table columns buf e h = ground (arith, e)

  -- In a memory below 2 GiB whose bump word lies before the start of the payloads and is zero or at
  -- least that start, with an engine whose announcements touch only the ring and whose insertions
  -- touch no string bytes that were handed out: a descriptor that can be encoded and that is saved
  -- lies at or behind the start, and is loaded with its name and its columns.
  pub load-save :
      (m : Machine S) (table : Text) (columns : List (ColumnDef N)) {m' : Machine S} {at : ℕ}
      → Encodable utf8 table columns
      → Survives utf8 table
      → All (λ c. Survives utf8 c.name) columns
      → store.bump_offset + 4 ≤ store.data_start
      → store.data_start ≤ length m.memory
      → length m.memory < 2147483647
      → (get_uint32 m.memory store.bump_offset ≡ 0)
        ⊎ (store.data_start ≤ get_uint32 m.memory store.bump_offset)
      → save bindings utf8 store m table columns ≡ (m', ok at)
      → (store.data_start ≤ at)
        × (load bindings utf8 m' table
            ≡ ok (some (record { table = table; columns = map decoded_column columns })))
  unfolding load load_found catalog_record_key add_bump
  load-save m table columns {m'} {at} e survives names before room_data small sane h =
      let (buf, encoded, size, decoded) =
        decode-encode_catalog_record utf8 table columns e survives names in
      let (magic, version, counted) = encode_catalog_record-header utf8 table columns e encoded in
      let b = store.bump_offset in
      let n = length buf in
      let (long, fresh, beside) =
        seed_bump-lem m.memory b store.data_start (omega arith) (omega arith) in
      let seeded = seed_bump m.memory b store.data_start in
      let (same, stored) =
        allocate_payload-inv bindings store laws m table buf
          (save-inv m table columns buf encoded h) in
      let moved = with_memory m (add_bump seeded b n) in
      let inside = (store_payload-inv bindings store laws moved table at buf stored).0 in
      let moved_length = length-set_uint32 seeded b ((get_uint32 seeded b + n) % 2 ^ 32) in
      let from = fresh sane in
      let bump : (get_uint32 moved.memory b ≡ at + n) =
        get_uint32-set_uint32_self seeded b ((get_uint32 seeded b + n) % 2 ^ 32) (omega arith)
          (omega arith)
        ∙ omega arith in
      let (room, content, found) =
        store_payload-Stored bindings store laws moved table at buf e.named stored (omega arith)
          before (omega arith) bump in
      let dec : DecodedCatalog = record { table = table; columns = map decoded_column columns } in
      let whole = ap (decode_catalog_record utf8) (sym (append-nil buf)) ∙ decoded [] in
      let read =
        load_at-record utf8 m'.memory buf table at dec (length columns) room size content magic
          version counted whole (ground arith) in
      (omega arith, rw e.named (rw found (rw read refl)))
