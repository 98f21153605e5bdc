-- ===== src/Proxy/Fields/Outside.antt =====
-- client/proxy.ts: the fields beside the one that is assigned.
use takyondb.Prelude.{ℕ, ◌+◌, ◌≤◌, ◌≡◌, inl, inr, refl, ap, ok, length, arith}
use takyondb.Js.Value.{JsNumber, num}
use takyondb.Js.Utf8.{Utf8}
use takyondb.Js.Bytes.{get_uint32}
use takyondb.Js.Windows.{Apart, byte_at-same, get_uint32-same}
use takyondb.Layout.{Regions, string_data_start}
use takyondb.Layout.Valid.{IsLayout}
use takyondb.RecordSchema.{FieldType, uint8, uint32, float64, string, field_size}
use takyondb.Proxy.{Machine}
use takyondb.Proxy.Fields.{JsFloat, read_string, read_typed}
use takyondb.Proxy.Fields.Outcomes.{Settled, Handed, Outside}

module _ {S N : Type 0} ⦃js : JsNumber N⦄ (float : JsFloat N) (utf8 : Utf8) (r : Regions) where
  Handed-grows :
      (m m' : Machine S) (abs size offset len : ℕ)
      → Outside r abs size m m'
      → Handed r m.memory offset len
      → Handed r m'.memory offset len
  Handed-grows m m' abs size offset len out (inl blank) = inl blank
  Handed-grows m m' abs size offset len out (inr (from, until)) =
      inr (from, omega (arith, until, out.grows))

  read_string-Outside :
      (m m' : Machine S) (abs size offset len : ℕ)
      → Outside r abs size m m'
      → IsLayout r (length m.memory)
      → abs + size ≤ r.string_start
      → Handed r m.memory offset len
      → read_string float utf8 m'.memory offset len ≡ read_string float utf8 m.memory offset len
  unfolding read_string string_data_start
  read_string-Outside m m' abs size offset len out lay here (inl (no_offset, no_len)) =
      rw no_offset (rw no_len refl)
  read_string-Outside m m' abs size offset len out lay here (inr (from, until)) =
      let records = lay.records_before_index in
      let index = lay.index_before_strings in
      let same =
        out.elsewhere offset len (omega arith) (ground arith) (inr (omega arith)) (inr until) in
      rw out.same_length (rw same refl)

  pub read_typed-Outside :
      (m m' : Machine S) (abs size at : ℕ) (type : FieldType)
      → Outside r abs size m m'
      → IsLayout r (length m.memory)
      → r.record_start ≤ at
      → abs + size ≤ r.string_start
      → at + field_size type ≤ r.string_start
      → Apart at (field_size type) abs size
      → Settled r m.memory at type
      → (read_typed float utf8 m'.memory at type ≡ read_typed float utf8 m.memory at type)
        × Settled r m'.memory at type
  unfolding read_typed Settled field_size
  read_typed-Outside m m' abs size at uint8 out lay after here before apart settled =
      let same = out.elsewhere at 1 after apart (inl before) (inl before) in
      (ap (λ b. ok (num (js.of_ℕ b))) (byte_at-same _ _ at same), tt)
  read_typed-Outside m m' abs size at uint32 out lay after here before apart settled =
      let same = out.elsewhere at 4 after apart (inl before) (inl before) in
      (ap (λ b. ok (num (js.of_ℕ b))) (get_uint32-same _ _ at same), tt)
  read_typed-Outside m m' abs size at float64 out lay after here before apart settled =
      let same = out.elsewhere at 8 after apart (inl before) (inl before) in
      (ap (λ b. ok (num (float.of_bytes b))) same, tt)
  read_typed-Outside m m' abs size at string out lay after here before apart settled =
      let offset =
        get_uint32-same _ _ at
          (out.elsewhere at 4 after (ground arith) (inl (omega arith)) (inl (omega arith))) in
      let len = get_uint32-same _ _ (at + 4) (
        out.elsewhere (at + 4) 4 (omega arith) (ground arith) (inl (omega arith))
          (inl (omega arith))) in
      let old = get_uint32 m.memory at in
      rw offset (
        rw len (
          read_string-Outside m m' abs size old (get_uint32 m.memory (at + 4)) out lay here settled,
          Handed-grows m m' abs size old (get_uint32 m.memory (at + 4)) out settled,
        ))
