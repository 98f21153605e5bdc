-- ===== src/Proxy/Fields/Strings.antt =====
-- client/proxy.ts: what the assignment of a string leaves in the arena.
use takyondb.Prelude.{ℕ, ◌+◌, ◌^◌, ◌≤◌, ◌<◌, ◌≡◌, ◌∙◌, ap, List, ◌++◌, ok, length, arith}
use takyondb.Js.Bytes.{
  get_uint32, set_uint32, set_bytes, length-set_uint32, get_uint32-set_uint32_self,
  get_uint32-set_uint32_apart,
}
use takyondb.Js.Blocks.{word}
use takyondb.Js.Windows.{
  window, Apart, length-set_bytes, window-set_bytes, window-set_uint32, window-set_bytes_self,
  get_uint32-same,
}
use takyondb.Layout.{Regions}
use takyondb.Proxy.{
  Machine, ClientBindings, push_delta_or_backpressure, notify_arena_or_backpressure,
}
use takyondb.Proxy.Fields.{with_memory, write_pointer, write_payload, continue_with}
use takyondb.Proxy.Fields.Frame.{QueueLaws, continue_with-inv, push-Keeps, notify-Keeps}

-- The pointer is in place, and what it does not meet is as before.
pub record Points {S : Type 0} (start abs offset len : ℕ) (m m' : Machine S) : Type 0 where
  pub same_length : length m'.memory ≡ length m.memory
  pub at_offset : get_uint32 m'.memory abs ≡ offset
  pub at_length : get_uint32 m'.memory (abs + 4) ≡ len
  pub elsewhere :
      (i n : ℕ) → start ≤ i → Apart i n abs 8 → window m'.memory i n ≡ window m.memory i n

module _ {S : Type 0} (bindings : ClientBindings S) (start : ℕ)
    (laws : QueueLaws bindings start) where
  pub write_pointer-Points :
      (m m' : Machine S) (abs offset len : ℕ)
      → write_pointer bindings m abs offset len ≡ (m', ok tt)
      → start ≤ abs
      → abs + 8 ≤ length m.memory
      → offset < 2 ^ 32
      → len < 2 ^ 32
      → Points start abs offset len m m'
  unfolding write_pointer
  write_pointer-Points m m' abs offset len h after room small short =
      let one = set_uint32 m.memory abs offset in
      let two = set_uint32 one (abs + 4) len in
      let written = with_memory m two in
      let bytes = word offset ++ word len in
      let same : (push_delta_or_backpressure bindings written abs bytes).0 ≡ m' = ap (λ p. p.0) h in
      let keeps = push-Keeps bindings start laws written abs bytes in
      let length_one = length-set_uint32 m.memory abs offset in
      let room_one : (abs + 4 + 4 ≤ length one) = omega arith in
      rw (← same) (record {
        same_length = keeps.same_length ∙ length-set_uint32 one (abs + 4) len ∙ length_one;
        at_offset =
            get_uint32-same _ two abs (keeps.same_window abs 4 after)
            ∙ get_uint32-set_uint32_apart one (abs + 4) abs len room_one (ground arith)
            ∙ get_uint32-set_uint32_self m.memory abs offset (omega arith) small;
        at_length =
            get_uint32-same _ two (abs + 4) (keeps.same_window (abs + 4) 4 (omega arith))
            ∙ get_uint32-set_uint32_self one (abs + 4) len room_one short;
        elsewhere = λ i n above apart.
            keeps.same_window i n above
            ∙ window-set_uint32 one i n (abs + 4) len (ground arith)
            ∙ window-set_uint32 m.memory i n abs offset (ground arith);
      })

-- The bytes are in place below the end of the strings, and the pointer shows them.
pub record Stored {S : Type 0} (start limit abs offset : ℕ) (bytes : List ℕ) (m m' : Machine S)
    : Type 0 where
  pub inside : offset + length bytes ≤ limit
  pub same_length : length m'.memory ≡ length m.memory
  pub at_offset : get_uint32 m'.memory abs ≡ offset
  pub at_length : get_uint32 m'.memory (abs + 4) ≡ length bytes
  pub content : window m'.memory offset (length bytes) ≡ bytes
  pub elsewhere :
      (i n : ℕ)
      → start ≤ i
      → Apart i n abs 8
      → Apart i n offset (length bytes)
      → window m'.memory i n ≡ window m.memory i n

module _ {S : Type 0} (bindings : ClientBindings S) (start : ℕ) (laws : QueueLaws bindings start)
    (regions : Regions) where
  pub write_payload-inside :
      (m m' : Machine S) (abs offset : ℕ) (bytes : List ℕ)
      → write_payload bindings regions m abs offset bytes ≡ (m', ok tt)
      → (offset + length bytes ≤ regions.string_start + regions.string_bytes)
        × (continue_with
              (notify_arena_or_backpressure bindings
                (with_memory m (set_bytes m.memory offset bytes))
                offset
                (length bytes))
              (λ mid. write_pointer bindings mid abs offset (length bytes))
            ≡ (m', ok tt))
  unfolding write_payload
  write_payload-inside m m' abs offset bytes h = ground arith

  pub write_payload-Stored :
      (m m' : Machine S) (abs offset : ℕ) (bytes : List ℕ)
      → write_payload bindings regions m abs offset bytes ≡ (m', ok tt)
      → start ≤ abs
      → abs + 8 ≤ offset
      → regions.string_start + regions.string_bytes ≤ length m.memory
      → length m.memory < 2 ^ 32
      → Stored start (regions.string_start + regions.string_bytes) abs offset bytes m m'
  write_payload-Stored m m' abs offset bytes h after before mapped small =
      let n = length bytes in
      let copied = with_memory m (set_bytes m.memory offset bytes) in
      let (inside, rest) = write_payload-inside m m' abs offset bytes h in
      let mid = (notify_arena_or_backpressure bindings copied offset n).0 in
      let keeps = notify-Keeps bindings start laws copied offset n in
      let long = keeps.same_length ∙ length-set_bytes m.memory offset bytes in
      let points =
        write_pointer-Points bindings start laws mid m' abs offset n (continue_with-inv _ _ rest).1
          after (omega arith) (omega arith) (omega arith) in
      record {
        inside = inside;
        same_length = points.same_length ∙ long;
        at_offset = points.at_offset;
        at_length = points.at_length;
        content =
            points.elsewhere offset n (omega arith) (ground arith)
            ∙ keeps.same_window offset n (omega arith)
            ∙ window-set_bytes_self m.memory offset bytes (omega arith);
        elsewhere = λ i k above field payload.
            points.elsewhere i k above field
            ∙ keeps.same_window i k above
            ∙ window-set_bytes m.memory i k offset bytes payload;
      }
