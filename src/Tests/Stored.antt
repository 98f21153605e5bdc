-- ===== src/Tests/Stored.antt =====
-- The theorem on the store of catalog records, in a small memory of zeros with an index that is a
-- map.
use takyondb.Prelude.{
  ℕ, ◌≤◌, ◌≡◌, refl, ap, if_pos, [], some, map, ok, Result, length, replicate, length-replicate,
  arith, inl,
}
use takyondb.Js.Text.{text_dec}
use takyondb.Js.Dict.{Dict, get, put, get-put}
use takyondb.Js.Order.{pos}
use takyondb.Js.Bytes.{byte_at, get_uint32, get_uint16, set_byte, set_uint16, set_uint32, set_bytes}
use takyondb.Proxy.{Machine, check_queued, finish_call, word_view}
use takyondb.Proxy.Fields.{continue_with, seed_bump, add_bump}
use takyondb.Relational.CatalogRecord.{
  encode_catalog_record, encode_columns, type_to_byte, flags_of, flag, catalog_encoded_len,
  is_bad_name, catalog_record_key,
}
use takyondb.Relational.CatalogRecord.RoundTrip.{decoded_column}
use takyondb.Relational.CatalogRecord.Store.{
  StoreBindings, CatalogRecordStore, check_notified, publish, store_payload, returning,
  allocate_payload, save, load,
}
use takyondb.Relational.CatalogRecord.Store.Payloads.{StoreLaws}
use takyondb.Relational.CatalogRecord.Store.Loads.{load-save}
use takyondb.Tests.Catalog.{ascii, users-Encodable}
use takyondb.Tests.Mirrored.{found_offset}
use takyondb.Tests.Sample.{users, user_columns}

abbrev mapped : StoreBindings (Dict ℕ)
mapped = record {
  notify_arena = λ m offset size. (m, ok (pos 0));
  insert_index = λ m key at. (record m { engine = put key at m.engine }, ok (pos 0));
  search_index = λ m key. ok (found_offset (get key m.engine));
}

abbrev store : CatalogRecordStore
store = record { bump_offset = 8; data_start = 16 }

mapped-StoreLaws : StoreLaws mapped store
mapped-StoreLaws = record {
  notified = λ m offset size. record { same_length = refl; same_window = λ i n h. refl };
  inserted_length = λ m key at. refl;
  inserted_window = λ m key at i n from until. refl;
  found = λ m m' key at h small.
      let state : (put key at m.engine ≡ m'.engine) = ap (λ p. p.0.engine) h in
      rw (← state) (rw (get-put key key at m.engine) (rw (if_pos (text_dec key key) refl) refl));
}

abbrev blank : Machine (Dict ℕ)
blank = record { memory = replicate 512 0; engine = [] }

abbrev saved : Machine (Dict ℕ) × Result ℕ
saved = save mapped ascii store blank users user_columns

program : Unit {0}
unfolding save allocate_payload returning store_payload publish check_notified finish_call
    check_queued continue_with seed_bump add_bump word_view encode_catalog_record encode_columns
    type_to_byte flags_of flag catalog_encoded_len is_bad_name catalog_record_key byte_at get_uint32
    get_uint16 set_byte set_uint16 set_uint32 set_bytes
program = tt

saved-returns : saved ≡ (saved.0, ok 16)
unfolding program
saved-returns = refl

blank-length : length blank.memory ≡ 512
blank-length = length-replicate {A = ℕ} 512 0

blank-bump : get_uint32 blank.memory 8 ≡ 0
unfolding program
blank-bump = refl

load-save_example :
    (16 ≤ 16)
    × (load mapped ascii saved.0 users
        ≡ ok (some (record { table = users; columns = map decoded_column user_columns })))
load-save_example =
    load-save mapped ascii store mapped-StoreLaws blank users user_columns users-Encodable refl
      (refl, (refl, tt)) (omega arith) (omega (arith, blank-length)) (omega (arith, blank-length))
      (inl blank-bump) saved-returns
