-- ===== src/Proxy/Fields.antt =====
-- client/proxy.ts: the proxy of a record, which reads and writes its fields in the arena.
pub mod Frame
pub mod Strings
pub mod Bump
pub mod Outcomes
pub mod RoundTrip
pub mod Outside
pub mod Unseen
pub mod Assigned
use takyondb.Prelude.{
  ℕ, zero, suc, ◌+◌, ◌/◌, ◌%◌, ◌^◌, Bool, true, false, not, ◌&&◌, List, [], ◌∷◌, ◌++◌, Option, none,
  some, ltb, leb, ◌==◌, length, Result, ok, err, throw_if, ◌>>=◌, ◌>>◌, if◌then◌else◌,
  bad_base_offset, record_outside_region, corrupt_string_pointer, expected_string, no_string_arena,
  out_of_string_memory, uint8_out_of_range, uint32_out_of_range, expected_number, field_too_wide,
  Error,
}
use takyondb.Js.Text.{Text}
use takyondb.Js.Dict.{Dict, get, put}
use takyondb.Js.Utf8.{Utf8}
use takyondb.Js.Bytes.{byte_at, get_uint32, set_byte, set_bytes, set_uint32}
use takyondb.Js.Blocks.{word}
use takyondb.Js.Windows.{window}
use takyondb.Js.Value.{Value, Row, JsNumber, num, str, field}
use takyondb.Js.Order.{ℤ, pos, negsuc}
use takyondb.Layout.{Regions, string_data_start}
use takyondb.RecordSchema.{FieldType, FieldDefinition, TakyonSchema, uint8, uint32, float64, string}
use takyondb.Proxy.{
  Machine, ClientBindings, push_delta_or_backpressure, notify_arena_or_backpressure, word_view,
}

-- What the platform does with a number in memory: the integer that it is, if it is one, and its
-- eight bytes.
pub record JsFloat (N : Type 0) : Type 0 where
  pub whole : N → Option ℤ
  pub to_bytes : N → List ℕ
  pub of_bytes : List ℕ → N

-- The target object holds the properties outside the schema.
pub record RecordProxy (N : Type 0) : Type 0 where
  pub schema : TakyonSchema
  pub base_offset : ℕ
  pub target : Row N

-- `Number.isInteger(value) && value >= 0 && value <= max`
unfoldable pub bounded : ℕ → Option ℤ → Option ℕ
bounded max (some (pos n)) = if leb n max then some n else none
bounded max _ = none

module _ {N : Type 0} where
  unfoldable pub create_proxy : Regions → List ℕ → TakyonSchema → ℤ → Result (RecordProxy N)
  unfolding word_view
  create_proxy regions memory schema (negsuc n) = err bad_base_offset
  create_proxy regions memory schema (pos base) = do
    throw_if (ltb (regions.record_start + regions.record_bytes) (base + schema.total_size))
        record_outside_region
    word_view memory regions.string_start
    ok (record { schema = schema; base_offset = base; target = [] })

  unfoldable pub integer_up_to : JsFloat N → ℕ → Value N → Option ℕ
  unfolding bounded
  integer_up_to float max (num a) = bounded max (float.whole a)
  integer_up_to float max _ = none

module _ {N : Type 0} ⦃js : JsNumber N⦄ (float : JsFloat N) (utf8 : Utf8) where
  unfoldable pub read_string : List ℕ → ℕ → ℕ → Result (Value N)
  read_string memory offset len =
      if offset == 0 && len == 0
      then ok (str [])
      else if ltb (length memory) (offset + len)
      then err corrupt_string_pointer
      else ok (str (utf8.decode (window memory offset len)))

  unfoldable pub read_typed : List ℕ → ℕ → FieldType → Result (Value N)
  unfolding read_string
  read_typed memory abs string =
      read_string memory (get_uint32 memory abs) (get_uint32 memory (abs + 4))
  read_typed memory abs uint8 = ok (num (js.of_ℕ (byte_at memory abs)))
  read_typed memory abs uint32 = ok (num (js.of_ℕ (get_uint32 memory abs)))
  read_typed memory abs float64 = ok (num (float.of_bytes (window memory abs 8)))

  -- The trap `get`.
  unfoldable pub read_property : RecordProxy N → List ℕ → Text → Result (Value N)
  unfolding read_typed
  read_property proxy memory prop = elim (get prop proxy.schema.fields) [
    | none ↦ ok (field proxy.target prop)
    | some f ↦ read_typed memory (proxy.base_offset + f.offset) f.type
  ]

module _ {S : Type 0} where
  -- A step that throws ends the write, and what was written before it stays.
  unfoldable pub continue_with :
      Machine S × Result (Unit {0})
      → (Machine S → Machine S × Result (Unit {0}))
      → Machine S × Result (Unit {0})
  continue_with (m, ok _) rest = rest m
  continue_with (m, err e) rest = (m, err e)

  -- The last check of a scalar write.
  unfoldable pub check_width : ℕ → Machine S × Result (Unit {0}) → Machine S × Result (Unit {0})
  unfolding continue_with
  check_width size written = continue_with written (λ m. (m, throw_if (ltb 48 size) field_too_wide))

  abbrev pub with_memory : Machine S → List ℕ → Machine S
  with_memory m memory = record m { memory = memory }

-- `Atomics.compareExchange(bumpView, 0, 0, start)`
unfoldable pub seed_bump : List ℕ → ℕ → ℕ → List ℕ
seed_bump memory at start = if get_uint32 memory at == 0 then set_uint32 memory at start else memory

-- `Atomics.add(bumpView, 0, n)` on a 32-bit word: the memory after it; it returns the old word.
unfoldable pub add_bump : List ℕ → ℕ → ℕ → List ℕ
add_bump memory at n = set_uint32 memory at ((get_uint32 memory at + n) % 2 ^ 32)

module _ {S : Type 0} (bindings : ClientBindings S) where
  -- A scalar: its bytes are written in place and then pushed.
  unfoldable pub write_bytes : Machine S → ℕ → ℕ → List ℕ → Machine S × Result (Unit {0})
  unfolding check_width
  write_bytes m abs size bytes =
      check_width size (
        push_delta_or_backpressure bindings (with_memory m (set_bytes m.memory abs bytes)) abs
          bytes)

  -- `if (!Number.isInteger(value) || ...) throw`
  unfoldable pub write_integer :
      Machine S → ℕ → ℕ → (ℕ → List ℕ) → Error → Option ℕ → Machine S × Result (Unit {0})
  unfolding write_bytes
  write_integer m abs size encode refused none = (m, err refused)
  write_integer m abs size encode refused (some n) = write_bytes m abs size (encode n)

  -- The pointer is written and pushed once the bytes are announced.
  unfoldable pub write_pointer : Machine S → ℕ → ℕ → ℕ → Machine S × Result (Unit {0})
  write_pointer m abs offset len =
      push_delta_or_backpressure bindings
        (with_memory m (set_uint32 (set_uint32 m.memory abs offset) (abs + 4) len)) abs
        (word offset ++ word len)

  -- The copy at the offset that was handed out, and the announcement.
  unfoldable pub write_payload :
      Regions → Machine S → ℕ → ℕ → List ℕ → Machine S × Result (Unit {0})
  unfolding write_pointer continue_with
  write_payload regions m abs offset bytes =
      let copied = with_memory m (set_bytes m.memory offset bytes) in
      if ltb (regions.string_start + regions.string_bytes) (offset + length bytes)
      then (m, err out_of_string_memory)
      else continue_with (notify_arena_or_backpressure bindings copied offset (length bytes))
          (λ m'. write_pointer m' abs offset (length bytes))

module _ {S N : Type 0} where
  unfoldable pub in_proxy :
      RecordProxy N → Machine S × Result (Unit {0}) → Machine S × RecordProxy N × Result (Unit {0})
  in_proxy proxy (m, result) = (m, proxy, result)

module _ {S N : Type 0} (bindings : ClientBindings S) (float : JsFloat N) (utf8 : Utf8) where
  unfoldable pub write_float : Machine S → ℕ → ℕ → Value N → Machine S × Result (Unit {0})
  unfolding write_bytes
  write_float m abs size (num a) = write_bytes bindings m abs size (float.to_bytes a)
  write_float m abs size _ = (m, err expected_number)

  unfoldable pub write_string : Regions → Machine S → ℕ → Value N → Machine S × Result (Unit {0})
  unfolding write_payload seed_bump add_bump
  write_string regions m abs (str s) =
      let bytes = utf8.encode s in
      let seeded = seed_bump m.memory regions.string_start (string_data_start regions) in
      if leb (length m.memory) (string_data_start regions)
      then (m, err no_string_arena)
      else write_payload bindings regions
          (with_memory m (add_bump seeded regions.string_start (length bytes))) abs
          (get_uint32 seeded regions.string_start) bytes
  write_string regions m abs _ = (m, err expected_string)

  unfoldable pub write_typed :
      Regions
      → Machine S
      → ℕ
      → FieldDefinition
      → FieldType
      → Value N
      → Machine S × Result (Unit {0})
  unfolding write_integer write_float write_string integer_up_to
  write_typed regions m abs f string value = write_string regions m abs value
  write_typed regions m abs f uint8 value =
      write_integer bindings m abs f.size (λ n. n ∷ []) uint8_out_of_range
        (integer_up_to float 255 value)
  write_typed regions m abs f uint32 value =
      write_integer bindings m abs f.size word uint32_out_of_range
        (integer_up_to float 0xffffffff value)
  write_typed regions m abs f float64 value = write_float m abs f.size value

  -- The trap `set`.
  unfoldable pub write_property :
      Regions
      → RecordProxy N
      → Machine S
      → Text
      → Value N
      → Machine S × RecordProxy N × Result (Unit {0})
  unfolding write_typed in_proxy
  write_property regions proxy m prop value = elim (get prop proxy.schema.fields) [
    | none ↦ (m, record proxy { target = put prop value proxy.target }, ok tt)
    | some f ↦ in_proxy proxy (write_typed regions m (proxy.base_offset + f.offset) f f.type value)
  ]
