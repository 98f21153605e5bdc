-- ===== src/Collections/Found.antt =====
-- takyon.ts: a record that was inserted is found, with the fields that it was given.
use takyondb.Prelude.{
  ℕ, ◌≤◌, ◌<◌, ◌≡◌, ◌∙◌, ◌⊎◌, refl, ap, sym, List, some, none, ok, length, All, arith, subst,
}
use takyondb.Js.Text.{Text}
use takyondb.Js.Dict.{get, IsDistinct}
use takyondb.Js.Value.{Value, Row, JsNumber, undefined}
use takyondb.Js.Order.{pos}
use takyondb.Js.Utf8.{Utf8}
use takyondb.Layout.{Regions}
use takyondb.Layout.Valid.{IsLayout}
use takyondb.RecordSchema.{FieldType, FieldDefinition, compile_record}
use takyondb.Proxy.{Machine, ClientBindings}
use takyondb.Proxy.Fields.{JsFloat, RecordProxy, create_proxy, read_property}
use takyondb.Proxy.Fields.Frame.{QueueLaws}
use takyondb.Proxy.Fields.Bump.{BumpInStrings}
use takyondb.Proxy.Fields.Outcomes.{FloatLaws, Carried, Same}
use takyondb.Collections.{
  IndexBindings, Collection, key_error, namespaced_key, insert, proxy_at, find,
}
use takyondb.Collections.Records.{next_record}
use takyondb.Collections.Assigning.{Ready}
use takyondb.Collections.Filled.{assign_all-Ready, assign_all-Unseen, assign_all-Reads}
use takyondb.Collections.Inserted.{
  IndexLaws, allocate-Allocated, insert-inv, insert_checked-Inserted,
}

module _ {S N : Type 0} (index : IndexBindings S) (utf8 : Utf8) (r : Regions) where
  find-at :
      (c : Collection) (m : Machine S) (key : Text) (offset : ℕ) (proxy : RecordProxy N)
      → key_error utf8 key ≡ none
      → index.search_index m (namespaced_key c key) ≡ ok (pos offset)
      → create_proxy r m.memory c.schema (pos offset) ≡ ok proxy
      → find index utf8 r c m key ≡ ok (some proxy)
  unfolding find
  find-at c m key offset proxy valid found made =
      rw (find, valid) (rw found (rw (proxy_at, made) refl))

module _ {S N : Type 0} ⦃js : JsNumber N⦄ (index : IndexBindings S) (bindings : ClientBindings S)
    (float : JsFloat N) (laws : FloatLaws js float) (utf8 : Utf8) (r : Regions)
    (queue : QueueLaws bindings r.record_start) (indexed : IndexLaws index bindings utf8 r) where
  -- In a mapping below 2 GiB with a valid layout, whose string bump word is zero or in the strings and
  -- whose record bump word is zero or in or behind the records, with an engine that only queues and
  -- an index that keeps what is put into it: if an insertion of a row whose fields are of the schema
  -- and whose texts UTF-8 can carry returns a proxy, then the key is found and gives that proxy, and
  -- through it every field that was given a value reads as that value.
  pub find-insert :
      (def : List (Text × FieldType)) (c : Collection) (m : Machine S) {m' : Machine S} (key : Text)
      (values : Row N) {proxy : RecordProxy N}
      → compile_record def ≡ ok c.schema
      → IsLayout r (length m.memory)
      → length m.memory < 2147483647
      → BumpInStrings r m.memory
      → r.record_start ≤ next_record r m.memory
      → IsDistinct values
      → All
          (λ e. ((f : FieldDefinition) × (get e.0 c.schema.fields ≡ some f)) × Carried utf8 e.1)
          values
      → insert index bindings float utf8 r c m key values ≡ (m', ok proxy)
      → (find index utf8 r c m' key ≡ ok (some proxy))
        × All
            (λ e.
              (e.1 ≡ undefined)
              ⊎ ((v : Value N) × (read_property float utf8 proxy m'.memory e.0 ≡ ok v)
                  × Same v e.1))
            values
  find-insert def c m {m'} key values {proxy} compiled lay small sane from distinct known h =
      let (valid, rest) = insert-inv index bindings float utf8 r c m key values h in
      let done = insert_checked-Inserted index bindings float utf8 r c m m' key values proxy rest in
      let base = done.offset in
      let strings = lay.strings_inside in
      let mapped = lay.mapped in
      let next = lay.index_before_strings in
      let records = lay.records_before_index in
      let allocated =
        allocate-Allocated r m done.m1 c.schema.total_size base done.allocated lay (omega arith)
          sane from in
      let until = allocated.until in
      let there = ap (λ p. p.0) done.entered in
      let long =
        ap (λ m. length m.memory) (sym there)
        ∙ indexed.inserted_length done.m1 (namespaced_key c key) base
        ∙ allocated.same_length in
      let sane2 =
        subst (λ m. BumpInStrings r m.memory) there
          (indexed.inserted_sane done.m1 (namespaced_key c key) base allocated.sane) in
      let ready : Ready bindings float laws utf8 r queue def compiled base allocated.from done.proxy
          done.m2 =
        record { lay = rw long lay; small = omega arith; made = done.made; sane = sane2 } in
      let (same, ready') =
        assign_all-Ready bindings float laws utf8 r queue def compiled base allocated.from
          done.proxy values done.m2 m' proxy ready known done.filled in
      let kept =
        assign_all-Unseen bindings float laws utf8 r queue def compiled base allocated.from
          done.proxy (λ m. index.search_index m (namespaced_key c key))
          (indexed.search_unseen (namespaced_key c key)) values done.m2 m' proxy ready known
          done.filled in
      let found =
        kept
        ∙ indexed.found done.m1 done.m2 (namespaced_key c key) base done.entered (omega arith) in
      let reads =
        assign_all-Reads bindings float laws utf8 r queue def compiled base allocated.from
          done.proxy values done.m2 m' proxy ready known distinct done.filled in
      (
        find-at index utf8 r c m' key base proxy valid found (ready'.made ∙ ap ok (sym same)),
        rw same reads,
      )
