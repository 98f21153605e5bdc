-- ===== src/Tests/Allocated.antt =====
-- The theorem on the records that are handed out, at two of them in the small arena.
use takyondb.Prelude.{ℕ, ◌+◌, ◌%◌, ◌≤◌, ◌≡◌, refl, [], ◌∷◌, ok, Result, arith}
use takyondb.Js.Dict.{Dict}
use takyondb.Proxy.{Machine, record_bump_view}
use takyondb.RecordSchema.{align_up}
use takyondb.Collections.{allocate_record_offset, take_record}
use takyondb.Collections.Records.{Allocs, start, takes}
use takyondb.Collections.Records.Disjoint.{Allocs-disjoint}
use takyondb.Tests.Collected.{blank, blank-length, blank-next}
use takyondb.Tests.Proxies.{arena}

abbrev first : Machine (Dict ℕ) × Result ℕ
first = allocate_record_offset arena blank 16

abbrev second : Machine (Dict ℕ) × Result ℕ
second = allocate_record_offset arena first.0 12

local : Unit {0}
unfolding takyondb.Tests.Proxies.program allocate_record_offset take_record record_bump_view
    align_up
local = tt

first-returns : first ≡ (first.0, ok 2376)
unfolding local
first-returns = refl

second-returns : second ≡ (second.0, ok 2392)
unfolding local
second-returns = refl

two : Allocs arena blank ((2392, 12) ∷ (2376, 16) ∷ []) 32 second.0
unfolding align_up
two = takes 12 2392 (takes 16 2376 start first-returns) second-returns

Allocs-disjoint_example :
    (2376 ≤ 2376) × (2376 % 8 ≡ 0) × (2376 + 16 ≤ 2392) × (2392 % 8 ≡ 0) × (2392 + 12 ≤ 2376 + 64)
Allocs-disjoint_example =
    Allocs-disjoint arena 0 1 two (omega arith) (omega (arith, blank-length))
      (omega (arith, blank-next)) (omega (arith, blank-next)) (omega (arith, blank-next))
      (omega arith) refl refl
