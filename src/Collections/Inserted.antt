-- ===== src/Collections/Inserted.antt =====
-- takyon.ts, `insert`: the steps of an insertion that returned.
use takyondb.Prelude.{
  ℕ, ◌+◌, ◌-◌, ◌^◌, ◌≤◌, ◌<◌, ◌≡◌, ◌≢◌, ◌∙◌, inl, inr, refl, ap, sym, Option, some, none, Result,
  ok, err, Error, length, arith, index_failed,
}
use takyondb.Js.Text.{Text}
use takyondb.Js.Value.{Row}
use takyondb.Js.Order.{pos, negsuc}
use takyondb.Js.Utf8.{Utf8}
use takyondb.Js.Bytes.{get_uint32, length-set_uint32}
use takyondb.Js.Windows.{get_uint32-same, window-set_uint32}
use takyondb.Layout.{Regions}
use takyondb.Layout.Valid.{IsLayout}
use takyondb.Proxy.{Machine, ClientBindings, check_queued, finish_call}
use takyondb.Proxy.Fields.{JsFloat, RecordProxy, create_proxy, seed_bump, add_bump}
use takyondb.Proxy.Fields.Bump.{BumpInStrings, seed_bump-lem}
use takyondb.Proxy.Fields.Unseen.{Unseen}
use takyondb.Relational.CatalogRecord.Store.Payloads.{finish_queued-inv}
use takyondb.Collections.{
  IndexBindings, Collection, key_error, namespaced_key, allocate_record_offset, assign_all,
  insert_checked, insert,
}
use takyondb.Collections.Records.{
  next_record, stride, allocate-cases, take_record-memory, take_record-ok,
}
use takyondb.Collections.Assigning.{and_then-inv}

-- What is documented of the index, which keeps a key as the bytes of its UTF-8 form: an insertion
-- keeps the size of the mapping and the order of the string bump, and one that returns 0 is found
-- below the reserved offset, and touches no key of other bytes; a removal that returns 0 or 1 leaves
-- its key absent; a search reads the index and the string bytes that were handed out.
pub record IndexLaws {S : Type 0} (index : IndexBindings S) (bindings : ClientBindings S)
    (utf8 : Utf8) (r : Regions) : Type 0 where
  pub inserted_length :
      (m : Machine S) (key : Text) (at : ℕ)
      → length (index.insert_index m key at).0.memory ≡ length m.memory
  pub inserted_sane :
      (m : Machine S) (key : Text) (at : ℕ)
      → BumpInStrings r m.memory
      → BumpInStrings r (index.insert_index m key at).0.memory
  pub found :
      (m m' : Machine S) (key : Text) (at : ℕ)
      → index.insert_index m key at ≡ (m', ok (pos 0))
      → at < 2147483647
      → index.search_index m' key ≡ ok (pos at)
  pub inserted_other :
      (m : Machine S) (key other : Text) (at : ℕ)
      → utf8.encode key ≢ utf8.encode other
      → index.search_index (index.insert_index m key at).0 other ≡ index.search_index m other
  pub removed :
      (m m' : Machine S) (key : Text) (rc : ℕ)
      → index.remove_index m key ≡ (m', ok (pos rc))
      → rc < 2
      → index.search_index m' key ≡ ok (negsuc 0)
  pub search_unseen : (key : Text) → Unseen bindings r (λ m. index.search_index m key)

module _ {S : Type 0} (r : Regions) where
  -- An allocation that returned.
  pub record Allocated (m m' : Machine S) (size offset : ℕ) : Type 0 where
    pub same_length : length m'.memory ≡ length m.memory
    pub sane : BumpInStrings r m'.memory
    pub from : r.record_start ≤ offset
    pub until : offset + stride size ≤ r.record_start + r.record_bytes

  pub allocate-Allocated :
      (m m' : Machine S) (size offset : ℕ)
      → allocate_record_offset r m size ≡ (m', ok offset)
      → IsLayout r (length m.memory)
      → length m.memory < 2 ^ 32
      → BumpInStrings r m.memory
      → r.record_start ≤ next_record r m.memory
      → Allocated m m' size offset
  unfolding next_record BumpInStrings add_bump
  allocate-Allocated m m' size offset h lay small sane from =
      elim (allocate-cases r m m' size (ok offset) h) [
        | inl (_, (e, bad)) ↦ absurd (ground arith)
        | inr reached ↦
            let at = r.record_start - 8 in
            let n = stride size in
            let records = lay.records_before_index in
            let index = lay.index_before_strings in
            let strings = lay.strings_inside in
            let mapped = lay.mapped in
            let after = reached.after_word in
            let room = reached.room in
            let (here, inside) = take_record-ok r m at n reached.taken in
            let (long, fresh, beside) =
              seed_bump-lem m.memory at r.record_start room (omega arith) in
            let seeded = seed_bump m.memory at r.record_start in
            let there : add_bump seeded at n ≡ m'.memory =
              sym (take_record-memory r m at n) ∙ ap (λ p. p.0.memory) reached.taken in
            let word : (get_uint32 m'.memory r.string_start ≡ get_uint32 m.memory r.string_start) =
              ap (λ memory. get_uint32 memory r.string_start) (sym there)
              ∙ get_uint32-same _ _ r.string_start (
                  window-set_uint32 seeded r.string_start 4 at _ (inr (omega arith))
                  ∙ beside r.string_start 4 (inr (omega arith))) in
            record {
              same_length = ap length (sym there) ∙ length-set_uint32 seeded at _ ∙ long;
              sane = rw word sane;
              from = omega arith;
              until = inside;
            }
      ]

module _ {S N : Type 0} (index : IndexBindings S) (bindings : ClientBindings S) (float : JsFloat N)
    (utf8 : Utf8) (r : Regions) where
  pub insert-inv :
      (c : Collection) (m : Machine S) (key : Text) (values : Row N) {m' : Machine S}
      {proxy : RecordProxy N}
      → insert index bindings float utf8 r c m key values ≡ (m', ok proxy)
      → (key_error utf8 key ≡ none)
        × (insert_checked index bindings float utf8 r c m key values ≡ (m', ok proxy))
  unfolding insert
  insert-inv c m key values {m'} {proxy} h = go (key_error utf8 key) refl h
    where
      go :
          (refused : Option Error)
          → key_error utf8 key ≡ refused
          → elim refused [
            | some e ↦ (m, err e)
            | none ↦ insert_checked index bindings float utf8 r c m key values
          ]
            ≡ (m', ok proxy)
          → (key_error utf8 key ≡ none)
            × (insert_checked index bindings float utf8 r c m key values ≡ (m', ok proxy))
      go none e k = (e, k)
      go (some bad) e k = absurd (ground arith)

  -- An insertion that returned: the record, its entry in the index, and its fields.
  pub record Inserted (c : Collection) (m m' : Machine S) (key : Text) (values : Row N)
      (proxy' : RecordProxy N) : Type 0 where
    pub m1 : Machine S
    pub m2 : Machine S
    pub offset : ℕ
    pub proxy : RecordProxy N
    pub allocated : allocate_record_offset r m c.schema.total_size ≡ (m1, ok offset)
    pub entered : index.insert_index m1 (namespaced_key c key) offset ≡ (m2, ok (pos 0))
    pub made : create_proxy r m2.memory c.schema (pos offset) ≡ ok proxy
    pub filled : assign_all bindings float utf8 r proxy m2 values ≡ (m', ok proxy')

  pub insert_checked-Inserted :
      (c : Collection) (m m' : Machine S) (key : Text) (values : Row N) (proxy' : RecordProxy N)
      → insert_checked index bindings float utf8 r c m key values ≡ (m', ok proxy')
      → Inserted c m m' key values proxy'
  unfolding insert_checked
  insert_checked-Inserted c m m' key values proxy' h =
      let (m1, offset, allocated, rest) =
        and_then-inv (allocate_record_offset r m c.schema.total_size) _ h in
      let (m2, _, entered, last) =
        and_then-inv
          (finish_call (check_queued index_failed)
            (index.insert_index m1 (namespaced_key c key) offset))
          _ rest in
      go m1 m2 offset allocated (finish_queued-inv index_failed _ entered)
        (create_proxy r m2.memory c.schema (pos offset)) refl last
    where
      go :
          (m1 m2 : Machine S) (offset : ℕ)
          → allocate_record_offset r m c.schema.total_size ≡ (m1, ok offset)
          → index.insert_index m1 (namespaced_key c key) offset ≡ (m2, ok (pos 0))
          → (made : Result (RecordProxy N)) → create_proxy r m2.memory c.schema (pos offset) ≡ made
          → elim made [
            | err e ↦ (m2, err e)
            | ok proxy ↦ assign_all bindings float utf8 r proxy m2 values
          ]
            ≡ (m', ok proxy')
          → Inserted c m m' key values proxy'
      go m1 m2 offset allocated entered (err e) seen k = absurd (ground arith)
      go m1 m2 offset allocated entered (ok proxy) seen k = record {
        m1 = m1;
        m2 = m2;
        offset = offset;
        proxy = proxy;
        allocated = allocated;
        entered = entered;
        made = seen;
        filled = k;
      }
