-- ===== src/Proxy/Fields/Bump.antt =====
-- client/proxy.ts: the bump word of the strings, through the assignment of a string field.
use takyondb.Prelude.{
  ℕ, ◌+◌, ◌%◌, ◌^◌, ◌≤◌, ◌<◌, ◌≡◌, ◌∙◌, ◌⊎◌, List, ok, length, arith, ◌==◌, inl, inr, refl,
  Bool-cases,
}
use takyondb.Js.Text.{Text}
use takyondb.Js.Value.{str}
use takyondb.Js.Utf8.{Utf8}
use takyondb.Js.Bytes.{get_uint32, length-set_uint32, get_uint32-set_uint32_self}
use takyondb.Js.Windows.{window, Apart, window-set_uint32, get_uint32-same}
use takyondb.Layout.{Regions, string_data_start}
use takyondb.Layout.Valid.{IsLayout}
use takyondb.Proxy.{Machine, ClientBindings}
use takyondb.Proxy.Fields.{JsFloat, with_memory, write_payload, write_string, seed_bump, add_bump}
use takyondb.Proxy.Fields.Frame.{QueueLaws}
use takyondb.Proxy.Fields.Strings.{write_payload-Stored}

-- The next free offset of the strings: the bump word, or the first offset where it is still zero.
unfoldable pub next_free : Regions → List ℕ → ℕ
next_free r memory =
    get_uint32 (seed_bump memory r.string_start (string_data_start r)) r.string_start

-- A bump word that never points before the strings.
unfoldable pub BumpInStrings : Regions → List ℕ → Type 0
BumpInStrings r memory =
    (get_uint32 memory r.string_start ≡ 0)
    ⊎ (string_data_start r ≤ get_uint32 memory r.string_start)

pub seed_bump-lem :
    (memory : List ℕ) (at start : ℕ)
    → at + 4 ≤ length memory
    → start < 2 ^ 32
    → (length (seed_bump memory at start) ≡ length memory)
      × ((get_uint32 memory at ≡ 0) ⊎ (start ≤ get_uint32 memory at)
          → start ≤ get_uint32 (seed_bump memory at start) at)
      × ((i n : ℕ) → Apart i n at 4 → window (seed_bump memory at start) i n ≡ window memory i n)
unfolding seed_bump
seed_bump-lem memory at start room small = elim (Bool-cases (get_uint32 memory at == 0)) [
  | inl e ↦ rw e (
    length-set_uint32 memory at start,
    λ _. omega (arith, get_uint32-set_uint32_self memory at start room small),
    λ i n apart. window-set_uint32 memory i n at start apart,
  )
  | inr e ↦ rw e (refl, λ sane. ground arith, λ i n apart. refl)
]

seed_bump-le :
    (memory : List ℕ) (at start : ℕ)
    → get_uint32 memory at ≤ get_uint32 (seed_bump memory at start) at
unfolding seed_bump
seed_bump-le memory at start = elim (Bool-cases (get_uint32 memory at == 0)) [
  | inl e ↦ ground arith
  | inr e ↦ rw e (omega arith)
]

-- What the assignment of a string leaves, in the whole arena.
pub record StringStored {S : Type 0} (r : Regions) (abs : ℕ) (bytes : List ℕ) (m m' : Machine S)
    : Type 0 where
  pub after_bump : string_data_start r ≤ next_free r m.memory
  pub past_bump : get_uint32 m.memory r.string_start ≤ next_free r m.memory
  pub inside : next_free r m.memory + length bytes ≤ length m.memory
  pub same_length : length m'.memory ≡ length m.memory
  pub at_offset : get_uint32 m'.memory abs ≡ next_free r m.memory
  pub at_length : get_uint32 m'.memory (abs + 4) ≡ length bytes
  pub content : window m'.memory (next_free r m.memory) (length bytes) ≡ bytes
  pub next_bump : get_uint32 m'.memory r.string_start ≡ next_free r m.memory + length bytes
  pub elsewhere :
      (i n : ℕ)
      → r.record_start ≤ i
      → Apart i n abs 8
      → Apart i n r.string_start 4
      → Apart i n (next_free r m.memory) (length bytes)
      → window m'.memory i n ≡ window m.memory i n

-- The machine once the bump word has moved.
unfoldable pub moved : {S : Type 0} → Regions → Machine S → List ℕ → Machine S
unfolding add_bump
moved r m bytes = with_memory m (
    add_bump (seed_bump m.memory r.string_start (string_data_start r)) r.string_start
      (length bytes))

module _ {S N : Type 0} (bindings : ClientBindings S) (float : JsFloat N) (utf8 : Utf8)
    (r : Regions) (laws : QueueLaws bindings r.record_start) where
  pub write_string-payload :
      (m m' : Machine S) (abs : ℕ) (s : Text)
      → write_string bindings float utf8 r m abs (str s) ≡ (m', ok tt)
      → write_payload bindings r
          (moved r m (utf8.encode s))
          abs
          (next_free r m.memory)
          (utf8.encode s)
        ≡ (m', ok tt)
  unfolding write_string next_free moved
  write_string-payload m m' abs s h = ground arith

  pub write_string-StringStored :
      (m m' : Machine S) (abs : ℕ) (s : Text)
      → write_string bindings float utf8 r m abs (str s) ≡ (m', ok tt)
      → IsLayout r (length m.memory)
      → length m.memory < 2 ^ 32
      → BumpInStrings r m.memory
      → r.record_start ≤ abs
      → abs + 8 ≤ r.string_start
      → StringStored r abs (utf8.encode s) m m'
  unfolding next_free BumpInStrings string_data_start moved add_bump
  write_string-StringStored m m' abs s h lay small sane after before =
      let bytes = utf8.encode s in
      let ss = r.string_start in
      let limit : (ss + r.string_bytes ≤ length m.memory) =
        omega (arith, lay.strings_inside, lay.mapped) in
      let eight = lay.string_word in
      let (long, fresh, beside) = seed_bump-lem m.memory ss (ss + 8) (omega arith) (omega arith) in
      let seeded = seed_bump m.memory ss (ss + 8) in
      let free = get_uint32 seeded ss in
      let moved_length = length-set_uint32 seeded ss ((free + length bytes) % 2 ^ 32) in
      let from = fresh sane in
      let stored =
        write_payload-Stored bindings r.record_start laws r (moved r m bytes) m' abs free bytes
          (write_string-payload m m' abs s h) after (omega arith) (omega arith) (omega arith) in
      let inside = stored.inside in
      let no_wrap : ((free + length bytes) % 2 ^ 32 ≡ free + length bytes) = omega arith in
      record {
        after_bump = from;
        past_bump = seed_bump-le m.memory ss (ss + 8);
        inside = omega arith;
        same_length = stored.same_length ∙ moved_length ∙ long;
        at_offset = stored.at_offset;
        at_length = stored.at_length;
        content = stored.content;
        next_bump =
            get_uint32-same _ _ ss
              (stored.elsewhere ss 4 (omega arith) (ground arith) (ground arith))
            ∙ get_uint32-set_uint32_self seeded ss _ (omega arith) (omega arith)
            ∙ no_wrap;
        elsewhere = λ i n above field word payload.
            stored.elsewhere i n above field payload
            ∙ window-set_uint32 seeded i n ss _ word
            ∙ beside i n word;
      }
