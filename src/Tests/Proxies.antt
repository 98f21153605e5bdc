-- ===== src/Tests/Proxies.antt =====
-- The theorems on record proxies in a small arena of zeros, with an engine that queues nothing.
use takyondb.Prelude.{
  ℕ, ◌<◌, ◌≡◌, refl, List, [], ◌∷◌, ok, some, none, arith, length, replicate, inl, length-replicate,
  Result, ◌^◌, Bool-cases, ◌+◌, ◌%◌, ◌≤◌, map,
}
use takyondb.Js.Text.{Text, codes, text_dec}
use takyondb.Js.Dict.{get}
use takyondb.Js.Value.{Value, str}
use takyondb.Js.Order.{pos}
use takyondb.Js.Utf8.{Utf8}
use takyondb.Js.Bytes.{byte_at, get_uint32, set_byte, set_uint32, set_bytes}
use takyondb.Layout.{Regions, string_data_start, ring_bytes}
use takyondb.Layout.Valid.{IsLayout}
use takyondb.RecordSchema.{
  FieldType, FieldDefinition, TakyonSchema, compile_record, compile_fields, align_up, field_size,
  field_align, uint8, string,
}
use takyondb.RecordSchema.Alignment.{compile_record-layout}
use takyondb.Proxy.{
  Machine, ClientBindings, push_delta_or_backpressure, notify_arena_or_backpressure, word_view,
  check_queued, finish_call,
}
use takyondb.Proxy.Fields.{
  JsFloat, RecordProxy, create_proxy, write_property, write_typed, write_string, write_payload,
  write_pointer, continue_with, seed_bump, add_bump, in_proxy, read_property,
}
use takyondb.Proxy.Fields.Frame.{QueueLaws}
use takyondb.Proxy.Fields.Bump.{BumpInStrings}
use takyondb.Proxy.Fields.Outcomes.{FloatLaws, Carried, Same, Settled}
use takyondb.Proxy.Fields.Assigned.{read-write_property, read-write_property-other}
use takyondb.Tests.Sample.{natural}

-- Numbers in eight cells of a list, of which the first takes it whole.
abbrev pub cells : JsFloat ℕ
cells = record {
  whole = λ n. some (pos n);
  to_bytes = λ n. n ∷ replicate 7 0;
  of_bytes = λ bs. byte_at bs 0;
}

pub cells-FloatLaws : FloatLaws natural cells
unfolding byte_at
cells-FloatLaws = record {
  whole_of = λ a n e. ground arith;
  eight_bytes = λ a. refl;
  of_to_bytes = λ a. refl;
}

abbrev ascii : Utf8
ascii = record { encode = λ text. text; decode = λ bs. bs }

abbrev pub arena : Regions
arena = record {
  arena_bytes = 2512;
  ring_capacity = 16;
  record_start = 2376;
  record_bytes = 64;
  art_root = 2440;
  art_bytes = 8;
  string_start = 2448;
  string_bytes = 64;
}

abbrev pub idle : {S : Type 0} → ClientBindings S
idle = record {
  init_shared_memory = λ s n. none;
  push_delta = λ m offset bytes. (m, ok (pos 0));
  notify_arena = λ m offset size. (m, ok (pos 0));
  trigger_checkpoint = λ m. (m, ok (pos 0));
  start_vacuum = λ m offset. (m, ok (pos 0));
  stop_vacuum = none;
  disconnect_shm = none;
  commit = none;
  ring_stats = none;
}

pub idle-QueueLaws : {S : Type 0} → QueueLaws (idle {S = S}) arena.record_start
idle-QueueLaws = record {
  pushed = λ m offset bytes. record { same_length = refl; same_window = λ i n h. refl };
  notified = λ m offset size. record { same_length = refl; same_window = λ i n h. refl };
}

abbrev machine : Machine (Unit {0})
machine = record { memory = replicate 2512 0; engine = tt }

abbrev pub fields : List (Text × FieldType)
fields = (codes "flag", uint8) ∷ (codes "name", string) ∷ []

abbrev pub flag : FieldDefinition
flag = record { type = uint8; offset = 0; size = 1 }

abbrev pub name : FieldDefinition
name = record { type = string; offset = 8; size = 8 }

abbrev pub named : TakyonSchema
named = record { fields = (codes "flag", flag) ∷ (codes "name", name) ∷ []; total_size = 16 }

abbrev proxy : RecordProxy ℕ
proxy = record { schema = named; base_offset = 2376; target = [] }

unfoldable pub program : Unit {0}
unfolding compile_record compile_fields align_up field_size field_align ring_bytes create_proxy
    word_view get write_property write_typed write_string write_payload write_pointer continue_with
    seed_bump add_bump in_proxy push_delta_or_backpressure notify_arena_or_backpressure check_queued
    finish_call string_data_start get_uint32 byte_at set_byte set_uint32 set_bytes BumpInStrings
    Carried Settled text_dec Bool-cases
program = tt

blank : length machine.memory ≡ 2512
blank = length-replicate {A = ℕ} 2512 0

pub arena-IsLayout : IsLayout arena 2512
unfolding ring_bytes
arena-IsLayout = record {
  holds_header = omega arith;
  mapped = refl;
  ring_slots = omega arith;
  ring_power = (4, refl);
  ring_before_records = omega arith;
  records_before_index = omega arith;
  root_aligned = refl;
  index_before_strings = omega arith;
  string_word = omega arith;
  strings_inside = omega arith;
}

machine-IsLayout : IsLayout arena (length machine.memory)
machine-IsLayout = rw blank arena-IsLayout

pub fields-compiles : compile_record fields ≡ ok named
unfolding program
fields-compiles = refl

proxy-maps : create_proxy arena machine.memory named (pos 2376) ≡ ok proxy
unfolding program
proxy-maps = refl

abbrev written : Machine (Unit {0}) × RecordProxy ℕ × Result (Unit {0})
written = write_property idle cells ascii arena proxy machine (codes "name") (str (codes "Ada"))

written-returns : written ≡ (written.0, written.1, ok tt)
unfolding program
written-returns = refl

machine-below : length machine.memory < 2 ^ 32
machine-below = omega (arith, blank)

machine-bump : BumpInStrings arena machine.memory
unfolding program
machine-bump = inl refl

pub name-found : get (codes "name") named.fields ≡ some name
unfolding program
name-found = refl

pub flag-found : get (codes "flag") named.fields ≡ some flag
unfolding program
flag-found = refl

pub ada-Carried : Carried {N = ℕ} ascii (str (codes "Ada"))
unfolding program
ada-Carried = refl

flag-Settled : Settled arena machine.memory 2376 uint8
unfolding program
flag-Settled = tt

read-write_property_example :
    (written.1 ≡ proxy)
    × ((v : Value ℕ) × (read_property cells ascii written.1 written.0.memory (codes "name") ≡ ok v)
        × Same v (str (codes "Ada")))
    × Settled arena written.0.memory 2384 string
    × BumpInStrings arena written.0.memory
    × (length written.0.memory ≡ length machine.memory)
read-write_property_example =
    read-write_property idle cells ascii arena cells-FloatLaws idle-QueueLaws fields 2376 machine
      (codes "name") (str (codes "Ada")) machine-IsLayout machine-below fields-compiles proxy-maps
      (omega arith) name-found machine-bump ada-Carried written-returns

read-write_property-other_example :
    (read_property cells ascii written.1 written.0.memory (codes "flag")
      ≡ read_property cells ascii proxy machine.memory (codes "flag"))
    × Settled arena written.0.memory 2376 uint8
read-write_property-other_example =
    read-write_property-other idle cells ascii arena cells-FloatLaws idle-QueueLaws fields 2376
      machine (codes "name") (codes "flag") (str (codes "Ada")) machine-IsLayout machine-below
      fields-compiles proxy-maps (omega arith) name-found machine-bump ada-Carried written-returns
      (λ e. ground arith) flag-found flag-Settled

compile_record-layout_example :
    (map (λ e. (e.0, e.1.type)) named.fields ≡ fields)
    × (16 % 8 ≡ 0)
    × (0 + 1 ≤ 8)
    × (8 + 8 ≤ 16)
    × ((2376 + 0) % field_align uint8 ≡ 0)
    × ((2376 + 8) % field_align string ≡ 0)
unfolding program
compile_record-layout_example =
    compile_record-layout fields 0 1 2376 fields-compiles (omega arith) refl refl refl
