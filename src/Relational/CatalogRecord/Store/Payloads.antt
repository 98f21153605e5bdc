-- ===== src/Relational/CatalogRecord/Store/Payloads.antt =====
-- catalog_record.ts, `CatalogRecordStore`: where a payload is placed, and that its key is found.
use takyondb.Prelude.{
  ℕ, zero, suc, ◌+◌, ◌≤◌, ◌<◌, ◌≡◌, ◌∙◌, ap, sym, false, List, ◌++◌, length, Result, ok, err, arith,
  Error, index_failed, bad_table_name, throw_if, ◌>>◌, subst, inl,
}
use takyondb.Js.Text.{Text, codes}
use takyondb.Js.Order.{pos, negsuc}
use takyondb.Js.Bytes.{get_uint32, set_bytes}
use takyondb.Js.Windows.{
  window, length-set_bytes, window-set_bytes, window-set_bytes_self, get_uint32-same,
}
use takyondb.Proxy.{Machine, Called, check_queued, finish_call}
use takyondb.Proxy.Fields.{continue_with, with_memory, seed_bump, add_bump}
use takyondb.Proxy.Fields.Frame.{Keeps, continue_with-inv}
use takyondb.Relational.CatalogRecord.{is_bad_name, catalog_record_key}
use takyondb.Relational.CatalogRecord.Store.{
  StoreBindings, CatalogRecordStore, check_notified, publish, store_payload, returning,
  allocate_payload,
}

-- What is documented of the calls: an announcement touches only the ring, which ends before the
-- bump word; an insertion takes its bytes of the string arena from the bump word on, and one that
-- returns 0 is found.
pub record StoreLaws {S : Type 0} (bindings : StoreBindings S) (store : CatalogRecordStore)
    : Type 0 where
  pub notified :
      (m : Machine S) (offset size : ℕ)
      → Keeps store.bump_offset m (bindings.notify_arena m offset size).0
  pub inserted_length :
      (m : Machine S) (key : Text) (at : ℕ)
      → length (bindings.insert_index m key at).0.memory ≡ length m.memory
  pub inserted_window :
      (m : Machine S) (key : Text) (at i n : ℕ)
      → store.data_start ≤ i
      → i + n ≤ get_uint32 m.memory store.bump_offset
      → window (bindings.insert_index m key at).0.memory i n ≡ window m.memory i n
  pub found :
      (m m' : Machine S) (key : Text) (at : ℕ)
      → bindings.insert_index m key at ≡ (m', ok (pos 0))
      → at < 2147483647
      → bindings.search_index m' key ≡ ok (pos at)

module _ {S : Type 0} where
  pub finish_queued-inv :
      (refused : Error) (p : Called S) {m' : Machine S}
      → finish_call (check_queued refused) p ≡ (m', ok tt)
      → p ≡ (m', ok (pos 0))
  unfolding finish_call check_queued
  finish_queued-inv refused (m, err e) h = absurd (ground arith)
  finish_queued-inv refused (m, ok (pos zero)) h = ground arith
  finish_queued-inv refused (m, ok (pos (suc n))) h = absurd (ground arith)
  finish_queued-inv refused (m, ok (negsuc zero)) h = absurd (ground arith)
  finish_queued-inv refused (m, ok (negsuc (suc zero))) h = absurd (ground arith)
  finish_queued-inv refused (m, ok (negsuc (suc (suc n)))) h = absurd (ground arith)

  returning-inv :
      (at k : ℕ) (p : Machine S × Result (Unit {0})) {m' : Machine S}
      → returning at p ≡ (m', ok k)
      → (at ≡ k) × (p ≡ (m', ok tt))
  unfolding returning
  returning-inv at k (m, ok u) h = ground arith
  returning-inv at k (m, err e) h = absurd (ground arith)

module _ {S : Type 0} (bindings : StoreBindings S) (store : CatalogRecordStore)
    (laws : StoreLaws bindings store) where
  publish-inv :
      (m : Machine S) (table : Text) (at : ℕ) {m' : Machine S}
      → is_bad_name table ≡ false
      → publish bindings m table at ≡ (m', ok tt)
      → bindings.insert_index m (codes "__catalog__:" ++ table) at ≡ (m', ok (pos 0))
  unfolding publish catalog_record_key
  publish-inv m table at {m'} named h =
      finish_queued-inv index_failed (bindings.insert_index m (codes "__catalog__:" ++ table) at) (
        subst
          (λ b.
            elim (throw_if b bad_table_name >> ok (codes "__catalog__:" ++ table)) [
              | err e ↦ (m, err e)
              | ok key ↦ finish_call (check_queued index_failed) (bindings.insert_index m key at)
            ]
            ≡ (m', ok tt))
          named h)

  pub store_payload-inv :
      (m : Machine S) (table : Text) (at : ℕ) (payload : List ℕ) {m' : Machine S}
      → store_payload bindings m table at payload ≡ (m', ok tt)
      → (at + length payload ≤ length m.memory)
        × (continue_with
              (finish_call check_notified (
                bindings.notify_arena
                  (with_memory m (set_bytes m.memory at payload))
                  at
                  (length payload)))
              (λ mid. publish bindings mid table at)
            ≡ (m', ok tt))
  unfolding store_payload
  store_payload-inv m table at payload h = ground arith

  -- The payload is in place, and its key is found at it.
  pub store_payload-Stored :
      (m : Machine S) (table : Text) (at : ℕ) (payload : List ℕ) {m' : Machine S}
      → is_bad_name table ≡ false
      → store_payload bindings m table at payload ≡ (m', ok tt)
      → at < 2147483647
      → store.bump_offset + 4 ≤ store.data_start
      → store.data_start ≤ at
      → get_uint32 m.memory store.bump_offset ≡ at + length payload
      → (at + length payload ≤ length m'.memory)
        × (window m'.memory at (length payload) ≡ payload)
        × (bindings.search_index m' (codes "__catalog__:" ++ table) ≡ ok (pos at))
  unfolding finish_call
  store_payload-Stored m table at payload {m'} named h small before from bump =
      let n = length payload in
      let copied = with_memory m (set_bytes m.memory at payload) in
      let (inside, rest) = store_payload-inv m table at payload h in
      let mid = (bindings.notify_arena copied at n).0 in
      let keeps = laws.notified copied at n in
      let same_length = length-set_bytes m.memory at payload in
      let inserted = publish-inv mid table at named (continue_with-inv _ _ rest).1 in
      let key = codes "__catalog__:" ++ table in
      let there : (bindings.insert_index mid key at).0 ≡ m' = ap (λ p. p.0) inserted in
      let bump' : (get_uint32 mid.memory store.bump_offset ≡ at + n) =
        get_uint32-same _ _ store.bump_offset (
          keeps.same_window store.bump_offset 4 (omega arith)
          ∙ window-set_bytes m.memory store.bump_offset 4 at payload (inl (omega arith)))
        ∙ bump in
      let long =
        ap (λ m. length m.memory) (sym there)
        ∙ laws.inserted_length mid key at
        ∙ keeps.same_length in
      (
        omega arith,
        ap (λ m. window m.memory at n) (sym there)
            ∙ laws.inserted_window mid key at at n from (omega arith)
            ∙ keeps.same_window at n (omega arith)
            ∙ window-set_bytes_self m.memory at payload inside,
        laws.found mid m' key at inserted small,
      )

  pub allocate_payload-inv :
      (m : Machine S) (table : Text) (buf : List ℕ) {m' : Machine S} {at : ℕ}
      → allocate_payload bindings store m table buf ≡ (m', ok at)
      → (get_uint32 (seed_bump m.memory store.bump_offset store.data_start) store.bump_offset ≡ at)
        × (store_payload bindings
              (with_memory m (
                add_bump
                  (seed_bump m.memory store.bump_offset store.data_start)
                  store.bump_offset
                  (length buf)))
              table
              at
              buf
            ≡ (m', ok tt))
  unfolding allocate_payload
  allocate_payload-inv m table buf {m'} {at} h =
      let seeded = seed_bump m.memory store.bump_offset store.data_start in
      let moved = with_memory m (add_bump seeded store.bump_offset (length buf)) in
      let k = get_uint32 seeded store.bump_offset in
      let (same, stored) = returning-inv k at (store_payload bindings moved table k buf) h in
      (same, subst (λ k. store_payload bindings moved table k buf ≡ (m', ok tt)) same stored)
