-- ===== src/Proxy/Fields/Outcomes.antt =====
-- client/proxy.ts: what an assignment to a field leaves, in words of the arena.
use takyondb.Prelude.{ℕ, ◌+◌, ◌≤◌, ◌≡◌, ◌⊎◌, true, List, some, length}
use takyondb.Js.Value.{Value, JsNumber, str, strict_eq}
use takyondb.Js.Order.{pos}
use takyondb.Js.Utf8.{Utf8, Survives}
use takyondb.Js.Bytes.{get_uint32}
use takyondb.Js.Windows.{window, Apart}
use takyondb.Layout.{Regions, string_data_start}
use takyondb.RecordSchema.{FieldType, string}
use takyondb.Proxy.{Machine}
use takyondb.Proxy.Fields.{JsFloat}
use takyondb.Proxy.Fields.Bump.{BumpInStrings}

-- What is documented of numbers in memory: an integer equals the count that it is, and a float
-- takes eight bytes, which give it back.
pub record FloatLaws {N : Type 0} (js : JsNumber N) (float : JsFloat N) : Type 0 where
  pub whole_of : (a : N) (n : ℕ) → float.whole a ≡ some (pos n) → js.eq (js.of_ℕ n) a ≡ true
  pub eight_bytes : (a : N) → length (float.to_bytes a) ≡ 8
  pub of_to_bytes : (a : N) → float.of_bytes (float.to_bytes a) ≡ a

-- A text that UTF-8 can carry; any other value.
unfoldable pub Carried : {N : Type 0} → Utf8 → Value N → Type 0
Carried utf8 (str s) = Survives utf8 s
Carried utf8 _ = Unit

-- The same value, or a number that `===` takes for it.
abbrev pub Same : {N : Type 0} ⦃js : JsNumber N⦄ → Value N → Value N → Type 0
Same v value = (v ≡ value) ⊎ (strict_eq v value ≡ true)

-- The pointer of a field that was never written, or into the strings that were handed out.
abbrev pub Handed : Regions → List ℕ → ℕ → ℕ → Type 0
Handed r memory offset len =
    ((offset ≡ 0) × (len ≡ 0))
    ⊎ ((string_data_start r ≤ offset) × (offset + len ≤ get_uint32 memory r.string_start))

unfoldable pub Settled : Regions → List ℕ → ℕ → FieldType → Type 0
Settled r memory abs string = Handed r memory (get_uint32 memory abs) (get_uint32 memory (abs + 4))
Settled r memory abs _ = Unit

-- What the assignment of a field leaves outside of it: the bytes from the records on, but the bump
-- word and the free part of the strings.
pub record Outside {S : Type 0} (r : Regions) (abs size : ℕ) (m m' : Machine S) : Type 0 where
  pub same_length : length m'.memory ≡ length m.memory
  pub sane : BumpInStrings r m'.memory
  pub grows : get_uint32 m.memory r.string_start ≤ get_uint32 m'.memory r.string_start
  pub elsewhere :
      (i n : ℕ)
      → r.record_start ≤ i
      → Apart i n abs size
      → Apart i n r.string_start 4
      → (i + n ≤ r.string_start) ⊎ (i + n ≤ get_uint32 m.memory r.string_start)
      → window m'.memory i n ≡ window m.memory i n
