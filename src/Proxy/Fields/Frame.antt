-- ===== src/Proxy/Fields/Frame.antt =====
-- client/proxy.ts: what a write of a scalar leaves in the arena.
use takyondb.Prelude.{ℕ, ◌+◌, ◌≤◌, ◌≡◌, ◌∙◌, refl, ap, List, Result, ok, err, length, arith}
use takyondb.Js.Bytes.{set_bytes}
use takyondb.Js.Windows.{window, Apart, length-set_bytes, window-set_bytes, window-set_bytes_self}
use takyondb.Proxy.{
  Machine, ClientBindings, push_delta_or_backpressure, notify_arena_or_backpressure, finish_call,
}
use takyondb.Proxy.Fields.{continue_with, with_memory, check_width, write_bytes}

-- The second machine has the bytes of the first from the offset on.
pub record Keeps {S : Type 0} (start : ℕ) (m m' : Machine S) : Type 0 where
  pub same_length : length m'.memory ≡ length m.memory
  pub same_window : (i n : ℕ) → start ≤ i → window m'.memory i n ≡ window m.memory i n

-- What is documented of the two calls: they queue a message in the ring, which ends before the
-- records, and touch no other byte.
pub record QueueLaws {S : Type 0} (bindings : ClientBindings S) (start : ℕ) : Type 0 where
  pub pushed :
      (m : Machine S) (offset : ℕ) (bytes : List ℕ)
      → Keeps start m (bindings.push_delta m offset bytes).0
  pub notified :
      (m : Machine S) (offset size : ℕ) → Keeps start m (bindings.notify_arena m offset size).0

module _ {S : Type 0} where
  pub continue_with-inv :
      (p : Machine S × Result (Unit {0})) (rest : Machine S → Machine S × Result (Unit {0}))
      {m' : Machine S}
      → continue_with p rest ≡ (m', ok tt)
      → (p.1 ≡ ok tt) × (rest p.0 ≡ (m', ok tt))
  unfolding continue_with
  continue_with-inv (m, ok u) rest h = (refl, h)
  continue_with-inv (m, err e) rest h = absurd (ground arith)

module _ {S : Type 0} (bindings : ClientBindings S) (start : ℕ)
    (laws : QueueLaws bindings start) where
  pub push-Keeps :
      (m : Machine S) (offset : ℕ) (bytes : List ℕ)
      → Keeps start m (push_delta_or_backpressure bindings m offset bytes).0
  unfolding push_delta_or_backpressure finish_call
  push-Keeps m offset bytes = laws.pushed m offset bytes

  pub notify-Keeps :
      (m : Machine S) (offset size : ℕ)
      → Keeps start m (notify_arena_or_backpressure bindings m offset size).0
  unfolding notify_arena_or_backpressure finish_call
  notify-Keeps m offset size = laws.notified m offset size

  -- A scalar write that returned: its bytes are in place, and what it does not meet is as before.
  pub write_bytes-lem :
      (m m' : Machine S) (abs size : ℕ) (bytes : List ℕ)
      → write_bytes bindings m abs size bytes ≡ (m', ok tt)
      → start ≤ abs
      → abs + length bytes ≤ length m.memory
      → (length m'.memory ≡ length m.memory)
        × (window m'.memory abs (length bytes) ≡ bytes)
        × ((i n : ℕ)
            → start ≤ i
            → Apart i n abs (length bytes)
            → window m'.memory i n ≡ window m.memory i n)
  unfolding write_bytes check_width
  write_bytes-lem m m' abs size bytes h after room =
      let written = with_memory m (set_bytes m.memory abs bytes) in
      let (queued, rest) =
        continue_with-inv (push_delta_or_backpressure bindings written abs bytes) _ h in
      let keeps = push-Keeps written abs bytes in
      let same : (push_delta_or_backpressure bindings written abs bytes).0 ≡ m' =
        ap (λ p. p.0) rest in
      rw (← same) (
        keeps.same_length ∙ length-set_bytes m.memory abs bytes,
        keeps.same_window abs (length bytes) after ∙ window-set_bytes_self m.memory abs bytes room,
        λ i n above apart.
            keeps.same_window i n above ∙ window-set_bytes m.memory i n abs bytes apart,
      )
