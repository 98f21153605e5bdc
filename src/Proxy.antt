-- ===== src/Proxy.antt =====
-- client/proxy.ts: the client over a mapped arena, and the calls that it passes to the engine. A
-- child has the proxy of a record.
pub mod Fields
use takyondb.Prelude.{
  ℕ, zero, suc, ◌+◌, ◌-◌, ◌%◌, Bool, true, false, not, List, [], Option, none, some, ltb, ◌==◌,
  length, Result, ok, err, throw_if, ◌>>=◌, ◌>>◌, if◌then◌else◌, bad_size, mapping_failed,
  misaligned_view, commit_missing, backpressure, nothing_logged, commit_failed, push_failed,
  arena_refused, Error,
}
use takyondb.Js.Order.{ℤ, pos, negsuc}
use takyondb.Layout.{Regions, read_regions, validate_regions}

-- The mapped bytes, which the engine writes too, and what else the engine keeps.
pub record Machine (S : Type 0) : Type 0 where
  pub memory : List ℕ
  pub engine : S

-- What a call of the engine leaves, and its return code. It may throw.
abbrev pub Called : Type 0 → Type 0
Called S = Machine S × Result ℤ

pub record RingPressureStats : Type 0 where
  pub saturated_total : ℕ
  pub saturated_wait_ns : ℕ
  pub dropped_total : ℕ
  pub durable_tail : ℕ

-- A counter that the addon leaves out.
pub record PartialStats : Type 0 where
  pub saturated_total : Option ℕ
  pub saturated_wait_ns : Option ℕ
  pub dropped_total : Option ℕ
  pub durable_tail : Option ℕ

-- The calls that the client makes. The optional ones are missing in an old addon.
pub record ClientBindings (S : Type 0) : Type 0 where
  pub init_shared_memory : S → ℕ → Option (Machine S)
  pub push_delta : Machine S → ℕ → List ℕ → Called S
  pub notify_arena : Machine S → ℕ → ℕ → Called S
  pub trigger_checkpoint : Machine S → Called S
  pub start_vacuum : Machine S → ℕ → Called S
  pub stop_vacuum : Option (Machine S → Called S)
  pub disconnect_shm : Option (Machine S → Called S)
  pub commit : Option (Machine S → ℕ → Called S)
  pub ring_stats : Option (Machine S → Option PartialStats)

unfoldable pub or_zero : Option ℕ → ℕ
or_zero none = 0
or_zero (some n) = n

unfoldable pub require_mapping {ℓ} : {A : Type ℓ} → Option A → Result A
require_mapping none = err mapping_failed
require_mapping (some m) = ok m

-- `if (rc === 0) return; if (rc === -2) throw ...; throw ...`
unfoldable pub check_queued : Error → ℤ → Result (Unit {0})
check_queued refused (pos zero) = ok tt
check_queued refused (negsuc (suc zero)) = err backpressure
check_queued refused rc = err refused

unfoldable pub check_commit : ℤ → Result (Unit {0})
check_commit (pos zero) = ok tt
check_commit (negsuc (suc zero)) = err backpressure
check_commit (negsuc (suc (suc zero))) = err nothing_logged
check_commit rc = err commit_failed

-- `rc === 0`
unfoldable pub is_zero : ℤ → Result Bool
is_zero (pos zero) = ok true
is_zero rc = ok false

-- What is made of the return code of a call.
unfoldable pub finish_call {ℓ} :
    {S : Type 0} {A : Type ℓ} → (ℤ → Result A) → Called S → Machine S × Result A
finish_call check (m, rc) = (m, (do code ← rc; check code))

-- `raw?.total ?? 0`
unfoldable pub fill_stats : Option PartialStats → RingPressureStats
unfolding or_zero
fill_stats none = record {
  saturated_total = 0;
  saturated_wait_ns = 0;
  dropped_total = 0;
  durable_tail = 0;
}
fill_stats (some raw) = record {
  saturated_total = or_zero raw.saturated_total;
  saturated_wait_ns = or_zero raw.saturated_wait_ns;
  dropped_total = or_zero raw.dropped_total;
  durable_tail = or_zero raw.durable_tail;
}

-- `if (!fn) return false;`
unfoldable pub if_present :
    {S : Type 0} → Option (Machine S → Called S) → Machine S → Machine S × Result Bool
unfolding finish_call is_zero
if_present none m = (m, ok false)
if_present (some fn) m = finish_call is_zero (fn m)

module _ {S : Type 0} (bindings : ClientBindings S) where
  -- The constructor: the machine and the region table that is read from it once.
  unfoldable pub new_client : S → ℤ → Result (Machine S × Regions)
  unfolding require_mapping
  new_client s (negsuc n) = err bad_size
  new_client s (pos zero) = err bad_size
  new_client s (pos (suc n)) = do
    m ← require_mapping (bindings.init_shared_memory s (suc n))
    regions ← read_regions m.memory
    validate_regions regions (length m.memory)
    ok (m, regions)

  unfoldable pub commit : Machine S → ℕ → Machine S × Result (Unit {0})
  unfolding finish_call check_commit
  commit m timeout_ms = elim bindings.commit [
    | none ↦ (m, err commit_missing)
    | some fn ↦ finish_call check_commit (fn m timeout_ms)
  ]

  unfoldable pub ring_stats : Machine S → RingPressureStats
  unfolding fill_stats
  ring_stats m = elim bindings.ring_stats [ none ↦ fill_stats none | some fn ↦ fill_stats (fn m) ]

  unfoldable pub push_delta_or_backpressure : Machine S → ℕ → List ℕ → Machine S × Result (Unit {0})
  unfolding finish_call check_queued
  push_delta_or_backpressure m offset bytes =
      finish_call (check_queued push_failed) (bindings.push_delta m offset bytes)

  unfoldable pub notify_arena_or_backpressure : Machine S → ℕ → ℕ → Machine S × Result (Unit {0})
  unfolding finish_call check_queued
  notify_arena_or_backpressure m offset size =
      finish_call (check_queued arena_refused) (bindings.notify_arena m offset size)

  unfoldable pub trigger_checkpoint : Machine S → Machine S × Result Bool
  unfolding finish_call is_zero
  trigger_checkpoint m = finish_call is_zero (bindings.trigger_checkpoint m)

  unfoldable pub start_vacuum : Machine S → ℕ → Machine S × Result Bool
  unfolding finish_call is_zero
  start_vacuum m string_offset = finish_call is_zero (bindings.start_vacuum m string_offset)

  unfoldable pub stop_vacuum : Machine S → Machine S × Result Bool
  unfolding if_present
  stop_vacuum m = if_present bindings.stop_vacuum m

  unfoldable pub shutdown_engine : Machine S → Machine S × Result Bool
  unfolding if_present
  shutdown_engine m = if_present bindings.disconnect_shm m

-- `new Uint32Array(buffer, offset, 1)`, which wants a multiple of 4 inside the buffer.
unfoldable pub word_view : List ℕ → ℕ → Result (Unit {0})
word_view memory offset = do
  throw_if (not (offset % 4 == 0)) misaligned_view
  throw_if (ltb (length memory) (offset + 4)) misaligned_view
  ok tt

-- The offset of the word that `getRecordBumpView` shows.
unfoldable pub record_bump_view : List ℕ → Regions → Result ℕ
unfolding word_view
record_bump_view memory regions = do
  throw_if (ltb regions.record_start 8) misaligned_view
  word_view memory (regions.record_start - 8)
  ok (regions.record_start - 8)
