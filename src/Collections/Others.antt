-- ===== src/Collections/Others.antt =====
-- takyon.ts: what an insertion and a removal do to other keys, and a removal to its own.
use takyondb.Prelude.{
  ℕ, zero, suc, ◌-◌, ◌^◌, ◌≤◌, ◌<◌, ◌≡◌, ◌≢◌, ◌∙◌, ◌⊎◌, inl, inr, refl, ap, sym, subst, Bool, List,
  [], ◌∷◌, ◌++◌, Option, some, none, Result, ok, err, ◌>>=◌, Error, length, All, arith,
}
use takyondb.Js.Text.{Text}
use takyondb.Js.Dict.{get}
use takyondb.Js.Value.{Row, JsNumber}
use takyondb.Js.Order.{ℤ, pos, negsuc}
use takyondb.Js.Utf8.{Utf8, Survives, encode-apart}
use takyondb.Js.Bytes.{length-set_uint32}
use takyondb.Js.Windows.{window, window-set_uint32}
use takyondb.Layout.{Regions, string_data_start}
use takyondb.Layout.Valid.{IsLayout}
use takyondb.RecordSchema.{FieldType, FieldDefinition, TakyonSchema, compile_record}
use takyondb.Proxy.{Machine, Called, ClientBindings, finish_call}
use takyondb.Proxy.Fields.{JsFloat, RecordProxy, seed_bump, add_bump, with_memory}
use takyondb.Proxy.Fields.Frame.{QueueLaws}
use takyondb.Proxy.Fields.Bump.{BumpInStrings, seed_bump-lem}
use takyondb.Proxy.Fields.Outcomes.{FloatLaws, Carried}
use takyondb.Collections.{
  IndexBindings, Collection, key_error, namespaced_key, allocate_record_offset, take_record,
  check_removed, insert, proxy_at, find, delete,
}
use takyondb.Collections.Records.{next_record, stride, allocate-cases, take_record-machine}
use takyondb.Collections.Assigning.{create_proxy-length, Ready}
use takyondb.Collections.Filled.{assign_all-Ready, assign_all-Unseen}
use takyondb.Collections.Inserted.{
  IndexLaws, allocate-Allocated, insert-inv, insert_checked-Inserted,
}

-- No colon in a text.
abbrev pub NoColon : Text → Type 0
NoColon = All (λ c. c ≢ 58)

-- A key says which collection it is of, if no name holds a colon.
pub namespaced_key-injective :
    (s t a b : Text) → NoColon s → NoColon t → s ++ (58 ∷ a) ≡ t ++ (58 ∷ b) → (s ≡ t) × (a ≡ b)
namespaced_key-injective [] [] a b p q h = (refl, cc)
namespaced_key-injective [] (d ∷ t) a b p q h = absurd (q.0 (cc))
namespaced_key-injective (c ∷ s) [] a b p q h = absurd (p.0 (cc))
namespaced_key-injective (c ∷ s) (d ∷ t) a b p q h =
    let head : c ≡ d = cc in
    let tail : s ++ (58 ∷ a) ≡ t ++ (58 ∷ b) = cc in
    let (same, rest) = namespaced_key-injective s t a b p.1 q.1 tail in (cc, rest)

module _ {S : Type 0} (index : IndexBindings S) (bindings : ClientBindings S) (utf8 : Utf8)
    (r : Regions) (indexed : IndexLaws index bindings utf8 r) where
  -- An allocation touches no entry of the index.
  allocate-Unseen :
      (m m' : Machine S) (size offset : ℕ) (key : Text)
      → allocate_record_offset r m size ≡ (m', ok offset)
      → IsLayout r (length m.memory)
      → length m.memory < 2 ^ 32
      → index.search_index m' key ≡ index.search_index m key
  unfolding add_bump take_record string_data_start
  allocate-Unseen m m' size offset key h lay small =
      elim (allocate-cases r m m' size (ok offset) h) [
        | inl (same, _) ↦ ap (λ m. index.search_index m key) (sym same)
        | inr reached ↦
            let at = r.record_start - 8 in
            let records = lay.records_before_index in
            let strings = lay.index_before_strings in
            let end = lay.strings_inside in
            let mapped = lay.mapped in
            let after = reached.after_word in
            let (long, fresh, beside) =
              seed_bump-lem m.memory at r.record_start reached.room (omega arith) in
            let seeded = seed_bump m.memory at r.record_start in
            let beyond : (i n : ℕ)
                → r.art_root ≤ i
                → window (add_bump seeded at (stride size)) i n ≡ window m.memory i n =
              λ i n far.
                window-set_uint32 seeded i n at _ (inr (omega arith))
                ∙ beside i n (inr (omega arith)) in
            let there : with_memory m (add_bump seeded at (stride size)) ≡ m' =
              sym (take_record-machine r m at (stride size)) ∙ ap (λ p. p.0) reached.taken in
            ap (λ m. index.search_index m key) (sym there)
            ∙ (indexed.search_unseen key).written m (add_bump seeded at (stride size)) (record {
              same_length = length-set_uint32 seeded at _ ∙ long;
              index_window = λ i n from until. beyond i n from;
              string_window = λ i n from until. beyond i n (omega arith);
            })
      ]

module _ {S : Type 0} (N : Type 0) (index : IndexBindings S) (utf8 : Utf8) (r : Regions) where
  proxy_at-length :
      (m m' : Machine S) (schema : TakyonSchema) (z : ℤ)
      → length m'.memory ≡ length m.memory
      → proxy_at {N = N} index utf8 r m' schema z ≡ proxy_at index utf8 r m schema z
  unfolding proxy_at
  proxy_at-length m m' schema (negsuc n) long = refl
  proxy_at-length m m' schema (pos offset) long =
      ap (λ made. made >>= λ proxy. ok (some proxy))
        (create_proxy-length r m.memory m'.memory schema offset long)

  found-length :
      (m m' : Machine S) (schema : TakyonSchema) (found : Result ℤ)
      → length m'.memory ≡ length m.memory
      → (found >>= proxy_at {N = N} index utf8 r m' schema)
        ≡ (found >>= proxy_at index utf8 r m schema)
  found-length m m' schema (err e) long = refl
  found-length m m' schema (ok z) long = proxy_at-length m m' schema z long

  -- What is found depends on the entry of the key and the size of the mapping.
  find-same :
      (c : Collection) (m m' : Machine S) (key : Text)
      → index.search_index m' (namespaced_key c key) ≡ index.search_index m (namespaced_key c key)
      → length m'.memory ≡ length m.memory
      → find {N = N} index utf8 r c m' key ≡ find index utf8 r c m key
  unfolding find
  find-same c m m' key same long = go (key_error utf8 key)
    where
      lookup : Machine S → Result (Option (RecordProxy N))
      lookup m = index.search_index m (namespaced_key c key) >>= proxy_at index utf8 r m c.schema

      go :
          (refused : Option Error)
          → elim refused [ some e ↦ ok none | none ↦ lookup m' ]
            ≡ elim refused [ some e ↦ ok none | none ↦ lookup m ]
      go (some e) = refl
      go none =
          ap (λ o. o >>= proxy_at index utf8 r m' c.schema) same
          ∙ found-length m m' c.schema (index.search_index m (namespaced_key c key)) long

module _ {S N : Type 0} ⦃js : JsNumber N⦄ (index : IndexBindings S) (bindings : ClientBindings S)
    (float : JsFloat N) (laws : FloatLaws js float) (utf8 : Utf8) (r : Regions)
    (queue : QueueLaws bindings r.record_start) (indexed : IndexLaws index bindings utf8 r) where
  -- In a mapping below 4 GiB with a valid layout, whose string bump word is zero or in the strings and
  -- whose record bump word is zero or in or behind the records, with an engine that only queues and
  -- an index that keeps what is put into it, for two collections whose names hold no colon: an
  -- insertion that returns, of a row whose fields are of the schema and whose texts UTF-8 can carry,
  -- changes nothing of what another key of the same collection, or any key of the other one, finds,
  -- if UTF-8 carries both keys with the names before them.
  pub find-insert-other :
      (def : List (Text × FieldType)) (c other : Collection) (m : Machine S) {m' : Machine S}
      (key key' : Text) (values : Row N) {proxy : RecordProxy N}
      → compile_record def ≡ ok c.schema
      → IsLayout r (length m.memory)
      → length m.memory < 2 ^ 32
      → BumpInStrings r m.memory
      → r.record_start ≤ next_record r m.memory
      → All
          (λ e. ((f : FieldDefinition) × (get e.0 c.schema.fields ≡ some f)) × Carried utf8 e.1)
          values
      → NoColon c.name
      → NoColon other.name
      → Survives utf8 (namespaced_key c key)
      → Survives utf8 (namespaced_key other key')
      → (c.name ≢ other.name) ⊎ (key ≢ key')
      → insert index bindings float utf8 r c m key values ≡ (m', ok proxy)
      → find {N = N} index utf8 r other m' key' ≡ find index utf8 r other m key'
  unfolding namespaced_key
  find-insert-other def c other m {m'} key key' values {proxy} compiled lay small sane from known
        plain plain' carried carried' apart h =
      let (valid, rest) = insert-inv index bindings float utf8 r c m key values h in
      let done = insert_checked-Inserted index bindings float utf8 r c m m' key values proxy rest in
      let base = done.offset in
      let entry = namespaced_key c key in
      let wanted = namespaced_key other key' in
      let allocated =
        allocate-Allocated r m done.m1 c.schema.total_size base done.allocated lay small sane
          from in
      let there = ap (λ p. p.0) done.entered in
      let long =
        ap (λ m. length m.memory) (sym there)
        ∙ indexed.inserted_length done.m1 entry base
        ∙ allocated.same_length in
      let sane2 =
        subst (λ m. BumpInStrings r m.memory) there
          (indexed.inserted_sane done.m1 entry base allocated.sane) in
      let ready : Ready bindings float laws utf8 r queue def compiled base allocated.from done.proxy
          done.m2 =
        record { lay = rw long lay; small = rw long small; made = done.made; sane = sane2 } in
      let ready' =
        (assign_all-Ready bindings float laws utf8 r queue def compiled base allocated.from
          done.proxy values done.m2 m' proxy ready known done.filled).1 in
      let kept =
        assign_all-Unseen bindings float laws utf8 r queue def compiled base allocated.from
          done.proxy (λ m. index.search_index m wanted) (indexed.search_unseen wanted) values
          done.m2 m' proxy ready known done.filled in
      let unlike : entry ≢ wanted = λ e.
        let (names, keys) = namespaced_key-injective c.name other.name key key' plain plain' e in
        elim apart [ inl ne ↦ ne names | inr ne ↦ ne keys ] in
      let same =
        kept
        ∙ ap (λ m. index.search_index m wanted) (sym there)
        ∙ indexed.inserted_other done.m1 entry wanted base
            (encode-apart utf8 entry wanted carried carried' unlike)
        ∙ allocate-Unseen index bindings utf8 r indexed m done.m1 c.schema.total_size base wanted
            done.allocated lay small in
      find-same N index utf8 r other m m' key' same (sym ready'.lay.mapped ∙ lay.mapped)

module _ {S : Type 0} where
  finish_removed-inv :
      (p : Called S) {m' : Machine S} {there : Bool}
      → finish_call check_removed p ≡ (m', ok there)
      → (rc : ℕ) × (rc < 2) × (p ≡ (m', ok (pos rc)))
  unfolding finish_call check_removed
  finish_removed-inv (m, err e) h = absurd (ground arith)
  finish_removed-inv (m, ok (pos zero)) h = (0, omega arith, ground arith)
  finish_removed-inv (m, ok (pos (suc zero))) h = (1, omega arith, ground arith)
  finish_removed-inv (m, ok (pos (suc (suc n)))) h = absurd (ground arith)
  finish_removed-inv (m, ok (negsuc n)) h = absurd (ground arith)

module _ {S : Type 0} (N : Type 0) (index : IndexBindings S) (bindings : ClientBindings S)
    (utf8 : Utf8) (r : Regions) (indexed : IndexLaws index bindings utf8 r) where
  -- A deletion that returns leaves its key without a record, whether it had one or not.
  find-delete :
      (c : Collection) (m : Machine S) {m' : Machine S} (key : Text) {there : Bool}
      → delete index utf8 c m key ≡ (m', ok there)
      → find {N = N} index utf8 r c m' key ≡ ok none
  unfolding delete find proxy_at
  find-delete c m {m'} key {there} h = go (key_error utf8 key) h
    where
      go :
          (refused : Option Error)
          → elim refused [
            | some e ↦ (m, err e)
            | none ↦ finish_call check_removed (index.remove_index m (namespaced_key c key))
          ]
            ≡ (m', ok there)
          → elim refused [
            | some e ↦ ok none
            | none ↦
                index.search_index m' (namespaced_key c key)
                >>= proxy_at {N = N} index utf8 r m' c.schema
          ]
            ≡ ok none
      go (some e) k = refl
      go none k =
          let (rc, small, gone) =
            finish_removed-inv (index.remove_index m (namespaced_key c key)) k in
          ap (λ o. o >>= proxy_at index utf8 r m' c.schema)
            (indexed.removed m m' (namespaced_key c key) rc gone small)
