-- ===== src/Collections.antt =====
-- takyon.ts: the database over one mapped arena, and collections of records in it.
pub mod Records
pub mod Assigning
pub mod Filled
pub mod Inserted
pub mod Found
pub mod Others
use takyondb.Prelude.{
  ℕ, zero, suc, ◌+◌, Bool, true, false, ◌||◌, List, [], ◌∷◌, ◌++◌, Option, none, some, ltb, ◌==◌,
  length, Result, ok, err, throw_if, ◌>>=◌, ◌>>◌, if◌then◌else◌, Error, bad_key_length,
  key_with_nul, key_bytes, bad_record_size, out_of_record_memory, empty_collection_name,
  collection_name_with_nul, index_failed,
}
use takyondb.Js.Text.{Text}
use takyondb.Js.Dict.{Dict}
use takyondb.Js.Value.{Value, Row, JsNumber, undefined}
use takyondb.Js.Order.{ℤ, pos, negsuc}
use takyondb.Js.Utf8.{Utf8}
use takyondb.Js.Bytes.{get_uint32}
use takyondb.Layout.{Regions}
use takyondb.RecordSchema.{TakyonSchema, align_up, record_alignment}
use takyondb.Proxy.{Machine, Called, ClientBindings, check_queued, finish_call, record_bump_view}
use takyondb.Proxy.Fields.{
  JsFloat, RecordProxy, create_proxy, write_property, with_memory, seed_bump, add_bump,
}

abbrev pub max_key_len : ℕ
max_key_len = 256

-- The calls that a collection makes on the index. The search gives a negative number for a key that
-- is missing.
pub record IndexBindings (S : Type 0) : Type 0 where
  pub insert_index : Machine S → Text → ℕ → Called S
  pub search_index : Machine S → Text → Result ℤ
  pub remove_index : Machine S → Text → Called S

unfoldable pub has_nul : Text → Bool
has_nul [] = false
has_nul (c ∷ text) = let rest = has_nul text in c == 0 || rest

unfoldable pub utf8_byte_length : Utf8 → Text → ℕ
utf8_byte_length utf8 text = length (utf8.encode text)

-- The reason to refuse a key, if there is one.
unfoldable pub key_error : Utf8 → Text → Option Error
unfolding has_nul utf8_byte_length
key_error utf8 key =
    if length key == 0 || ltb max_key_len (length key)
    then some bad_key_length
    else if has_nul key
    then some key_with_nul
    else if ltb max_key_len (utf8_byte_length utf8 key)
    then some key_bytes
    else none

pub record Collection : Type 0 where
  pub name : Text
  pub schema : TakyonSchema

unfoldable pub namespaced_key : Collection → Text → Text
namespaced_key c key = c.name ++ (58 ∷ key)

unfoldable pub collection : Text → TakyonSchema → Result Collection
unfolding has_nul
collection name schema = do
  throw_if (length name == 0) empty_collection_name
  throw_if (has_nul name) collection_name_with_nul
  ok (record { name = name; schema = schema })

-- What a returned code makes of a removal.
unfoldable pub check_removed : ℤ → Result Bool
check_removed (pos zero) = ok false
check_removed (pos (suc zero)) = ok true
check_removed rc = err index_failed

module _ {S : Type 0} where
  -- The record bump word, moved by a whole number of units even if the records then do not fit.
  unfoldable pub take_record : Regions → Machine S → ℕ → ℕ → Machine S × Result ℕ
  unfolding seed_bump add_bump
  take_record regions m at stride =
      let seeded = seed_bump m.memory at regions.record_start in
      let offset = get_uint32 seeded at in
      let moved = with_memory m (add_bump seeded at stride) in
      if ltb (regions.record_start + regions.record_bytes) (offset + stride)
      then (moved, err out_of_record_memory)
      else (moved, ok offset)

  unfoldable pub allocate_record_offset : Regions → Machine S → ℕ → Machine S × Result ℕ
  unfolding record_bump_view take_record align_up
  allocate_record_offset regions m zero = (m, err bad_record_size)
  allocate_record_offset regions m (suc size) = elim (record_bump_view m.memory regions) [
    | err e ↦ (m, err e)
    | ok at ↦ take_record regions m at (align_up (suc size) record_alignment)
  ]

  -- A step that throws ends the rest.
  unfoldable pub and_then {ℓ κ} :
      {A : Type ℓ} {B : Type κ}
      → Machine S × Result A
      → (Machine S → A → Machine S × Result B)
      → Machine S × Result B
  and_then (m, ok a) rest = rest m a
  and_then (m, err e) rest = (m, err e)

module _ {S N : Type 0} where
  unfoldable pub assigned :
      Machine S × RecordProxy N × Result (Unit {0}) → Machine S × Result (RecordProxy N)
  assigned (m, proxy, done) = (m, (do done; ok proxy))

  -- Whether the record was created, beside its proxy.
  unfoldable pub flagged :
      Bool → Machine S × Result (RecordProxy N) → Machine S × Result (RecordProxy N × Bool)
  flagged created (m, done) = (m, (do proxy ← done; ok (proxy, created)))

  unfoldable pub present :
      Machine S × Result (RecordProxy N) → Machine S × Result (Option (RecordProxy N))
  present (m, done) = (m, (do proxy ← done; ok (some proxy)))

module _ {S N : Type 0} (bindings : ClientBindings S) (float : JsFloat N) (utf8 : Utf8)
    (regions : Regions) where
  -- The write of one property, which may change the proxy's own target.
  unfoldable pub assign :
      RecordProxy N → Machine S → Text → Value N → Machine S × Result (RecordProxy N)
  unfolding write_property assigned
  assign proxy m k v = assigned (write_property bindings float utf8 regions proxy m k v)

  -- The loop over `Object.entries(data)`.
  unfoldable pub assign_all : RecordProxy N → Machine S → Row N → Machine S × Result (RecordProxy N)
  unfolding assign and_then
  assign_all proxy m [] = (m, ok proxy)
  assign_all proxy m ((k, undefined) ∷ values) = assign_all proxy m values
  assign_all proxy m ((k, v) ∷ values) =
      and_then (assign proxy m k v) (λ m' proxy'. assign_all proxy' m' values)

module _ {S N : Type 0} (index : IndexBindings S) (bindings : ClientBindings S) (float : JsFloat N)
    (utf8 : Utf8) (regions : Regions) where
  unfoldable pub insert_checked :
      Collection → Machine S → Text → Row N → Machine S × Result (RecordProxy N)
  unfolding namespaced_key allocate_record_offset finish_call check_queued assign_all and_then
  insert_checked c m key values =
      and_then (allocate_record_offset regions m c.schema.total_size) (λ m1 offset.
        and_then
          (finish_call (check_queued index_failed)
            (index.insert_index m1 (namespaced_key c key) offset))
          (λ m2 _. elim (create_proxy regions m2.memory c.schema (pos offset)) [
            | err e ↦ (m2, err e)
            | ok proxy ↦ assign_all bindings float utf8 regions proxy m2 values
          ]))

  unfoldable pub insert : Collection → Machine S → Text → Row N → Machine S × Result (RecordProxy N)
  unfolding key_error insert_checked
  insert c m key values = elim (key_error utf8 key) [
    | some e ↦ (m, err e)
    | none ↦ insert_checked c m key values
  ]

module _ {S N : Type 0} (index : IndexBindings S) (utf8 : Utf8) (regions : Regions) where
  unfoldable pub proxy_at : Machine S → TakyonSchema → ℤ → Result (Option (RecordProxy N))
  unfolding create_proxy
  proxy_at m schema (negsuc n) = ok none
  proxy_at m schema (pos offset) = do
    proxy ← create_proxy regions m.memory schema (pos offset)
    ok (some proxy)

  unfoldable pub find : Collection → Machine S → Text → Result (Option (RecordProxy N))
  unfolding key_error namespaced_key proxy_at
  find c m key = elim (key_error utf8 key) [
    | some e ↦ ok none
    | none ↦ do offset ← index.search_index m (namespaced_key c key); proxy_at m c.schema offset
  ]

module _ {S : Type 0} (index : IndexBindings S) (utf8 : Utf8) where
  unfoldable pub delete : Collection → Machine S → Text → Machine S × Result Bool
  unfolding key_error namespaced_key finish_call check_removed
  delete c m key = elim (key_error utf8 key) [
    | some e ↦ (m, err e)
    | none ↦ finish_call check_removed (index.remove_index m (namespaced_key c key))
  ]

module _ {S N : Type 0} (index : IndexBindings S) (bindings : ClientBindings S) (float : JsFloat N)
    (utf8 : Utf8) (regions : Regions) where
  unfoldable pub update :
      Collection → Machine S → Text → Row N → Machine S × Result (Option (RecordProxy N))
  unfolding find assign_all present
  update c m key values = elim (find {N = N} index utf8 regions c m key) [
    | err e ↦ (m, err e)
    | ok none ↦ (m, ok none)
    | ok (some proxy) ↦ present (assign_all bindings float utf8 regions proxy m values)
  ]

  unfoldable pub upsert :
      Collection → Machine S → Text → Row N → Machine S × Result (RecordProxy N × Bool)
  unfolding find insert assign_all flagged
  upsert c m key values = elim (find {N = N} index utf8 regions c m key) [
    | err e ↦ (m, err e)
    | ok none ↦ flagged true (insert index bindings float utf8 regions c m key values)
    | ok (some proxy) ↦ flagged false (assign_all bindings float utf8 regions proxy m values)
  ]
