-- ===== src/Proxy/Fields/Unseen.antt =====
-- client/proxy.ts: what an assignment leaves of the index.
use takyondb.Prelude.{
  ℕ, ◌+◌, ◌^◌, ◌≤◌, ◌<◌, ◌≡◌, ◌∙◌, inl, inr, ap, sym, List, [], ◌∷◌, ok, length, arith,
}
use takyondb.Js.Text.{Text}
use takyondb.Js.Value.{Value, JsNumber, null, undefined, bool, num, str, bytes}
use takyondb.Js.Utf8.{Utf8}
use takyondb.Js.Bytes.{get_uint32, set_uint32, set_bytes, length-set_uint32}
use takyondb.Js.Blocks.{word}
use takyondb.Js.Windows.{window, Apart, length-set_bytes, window-set_bytes, window-set_uint32}
use takyondb.Layout.{Regions, string_data_start}
use takyondb.Layout.Valid.{IsLayout}
use takyondb.RecordSchema.{FieldType, FieldDefinition, uint8, uint32, float64, string, field_size}
use takyondb.Proxy.{
  Machine, ClientBindings, push_delta_or_backpressure, notify_arena_or_backpressure, finish_call,
}
use takyondb.Proxy.Fields.{
  JsFloat, with_memory, check_width, write_bytes, write_pointer, write_float, write_string,
  write_typed, integer_up_to, seed_bump, add_bump,
}
use takyondb.Proxy.Fields.Frame.{QueueLaws, continue_with-inv}
use takyondb.Proxy.Fields.Strings.{write_payload-inside}
use takyondb.Proxy.Fields.Bump.{
  BumpInStrings, next_free, moved, seed_bump-lem, write_string-payload, write_string-StringStored,
}
use takyondb.Proxy.Fields.Outcomes.{FloatLaws}
use takyondb.Proxy.Fields.RoundTrip.{write_integer-inv}

-- The bytes of the index, and the string bytes that were handed out, are the same.
pub record SameIndex (r : Regions) (memory memory' : List ℕ) : Type 0 where
  pub same_length : length memory' ≡ length memory
  pub index_window :
      (i n : ℕ)
      → r.art_root ≤ i
      → i + n ≤ r.art_root + r.art_bytes
      → window memory' i n ≡ window memory i n
  pub string_window :
      (i n : ℕ)
      → string_data_start r ≤ i
      → i + n ≤ get_uint32 memory r.string_start
      → window memory' i n ≡ window memory i n

-- An observation that sees neither the queue nor any byte outside the index and the strings that
-- were handed out.
pub record Unseen {ℓ} {S : Type 0} {A : Type ℓ} (bindings : ClientBindings S) (r : Regions)
    (obs : Machine S → A) : Type ℓ where
  pub pushed :
      (m : Machine S) (offset : ℕ) (bs : List ℕ) → obs (bindings.push_delta m offset bs).0 ≡ obs m
  pub notified :
      (m : Machine S) (offset size : ℕ) → obs (bindings.notify_arena m offset size).0 ≡ obs m
  pub written :
      (m : Machine S) (memory : List ℕ)
      → SameIndex r m.memory memory
      → obs (with_memory m memory) ≡ obs m

module _ {ℓ} {S N : Type 0} ⦃js : JsNumber N⦄ {A : Type ℓ} (bindings : ClientBindings S)
    (float : JsFloat N) (laws : FloatLaws js float) (utf8 : Utf8) (r : Regions)
    (queue : QueueLaws bindings r.record_start) (obs : Machine S → A)
    (unseen : Unseen bindings r obs) where
  write_bytes-Unseen :
      (m m' : Machine S) (abs size : ℕ) (bs : List ℕ)
      → write_bytes bindings m abs size bs ≡ (m', ok tt)
      → IsLayout r (length m.memory)
      → abs + length bs ≤ r.art_root
      → obs m' ≡ obs m
  unfolding write_bytes check_width push_delta_or_backpressure finish_call string_data_start
  write_bytes-Unseen m m' abs size bs h lay before =
      let memory = set_bytes m.memory abs bs in
      let next = lay.index_before_strings in
      let (queued, rest) =
        continue_with-inv (push_delta_or_backpressure bindings (with_memory m memory) abs bs) _ h in
      let same : (bindings.push_delta (with_memory m memory) abs bs).0 ≡ m' = ap (λ p. p.0) rest in
      ap obs (sym same)
      ∙ unseen.pushed (with_memory m memory) abs bs
      ∙ unseen.written m memory (record {
        same_length = length-set_bytes m.memory abs bs;
        index_window = λ i n from until. window-set_bytes m.memory i n abs bs (inr (omega arith));
        string_window = λ i n from until. window-set_bytes m.memory i n abs bs (inr (omega arith));
      })

  write_pointer-Unseen :
      (m m' : Machine S) (abs offset len : ℕ)
      → write_pointer bindings m abs offset len ≡ (m', ok tt)
      → IsLayout r (length m.memory)
      → abs + 8 ≤ r.art_root
      → obs m' ≡ obs m
  unfolding write_pointer push_delta_or_backpressure finish_call string_data_start
  write_pointer-Unseen m m' abs offset len h lay before =
      let one = set_uint32 m.memory abs offset in
      let memory = set_uint32 one (abs + 4) len in
      let next = lay.index_before_strings in
      let beside : (i n : ℕ) → abs + 8 ≤ i → window memory i n ≡ window m.memory i n = λ i n far.
        window-set_uint32 one i n (abs + 4) len (inr (omega arith))
        ∙ window-set_uint32 m.memory i n abs offset (inr (omega arith)) in
      ap obs (sym (ap (λ p. p.0) h))
      ∙ unseen.pushed (with_memory m memory) abs _
      ∙ unseen.written m memory (record {
        same_length = length-set_uint32 one (abs + 4) len ∙ length-set_uint32 m.memory abs offset;
        index_window = λ i n from until. beside i n (omega arith);
        string_window = λ i n from until. beside i n (omega arith);
      })

  write_string-Unseen :
      (m m' : Machine S) (abs : ℕ) (s : Text)
      → write_string bindings float utf8 r m abs (str s) ≡ (m', ok tt)
      → IsLayout r (length m.memory)
      → length m.memory < 2 ^ 32
      → BumpInStrings r m.memory
      → r.record_start ≤ abs
      → abs + 8 ≤ r.art_root
      → obs m' ≡ obs m
  unfolding next_free moved add_bump string_data_start notify_arena_or_backpressure finish_call
  write_string-Unseen m m' abs s h lay small sane after before =
      let bs = utf8.encode s in
      let ss = r.string_start in
      let inside = lay.strings_inside in
      let mapped = lay.mapped in
      let eight = lay.string_word in
      let next = lay.index_before_strings in
      let stored =
        write_string-StringStored bindings float utf8 r queue m m' abs s h lay small sane after
          (omega arith) in
      let from = stored.after_bump in
      let past = stored.past_bump in
      let payload = write_string-payload bindings float utf8 r queue m m' abs s h in
      let free = next_free r m.memory in
      let (room, rest) =
        write_payload-inside bindings r.record_start queue r (moved r m bs) m' abs free bs
          payload in
      let (long, fresh, beside) = seed_bump-lem m.memory ss (ss + 8) (omega arith) (omega arith) in
      let seeded = seed_bump m.memory ss (ss + 8) in
      let bumped = add_bump seeded ss (length bs) in
      let memory = set_bytes bumped free bs in
      let copied = with_memory m memory in
      let mid = (bindings.notify_arena copied free (length bs)).0 in
      let same_length = length-set_bytes bumped free bs ∙ length-set_uint32 seeded ss _ ∙ long in
      let mid_length = (queue.notified copied free (length bs)).same_length ∙ same_length in
      let keeps : (i n : ℕ)
          → Apart i n ss 4
          → Apart i n free (length bs)
          → window memory i n ≡ window m.memory i n =
        λ i n word far.
          window-set_bytes bumped i n free bs far
          ∙ window-set_uint32 seeded i n ss _ word
          ∙ beside i n word in
      write_pointer-Unseen mid m' abs free (length bs) (continue_with-inv _ _ rest).1
        (rw mid_length lay) before
      ∙ unseen.notified copied free (length bs)
      ∙ unseen.written m memory (record {
        same_length = same_length;
        index_window = λ i n a b. keeps i n (inl (omega arith)) (inl (omega arith));
        string_window = λ i n a b. keeps i n (inr (omega arith)) (inl (omega arith));
      })

  module _ (m m' : Machine S) (abs : ℕ) (f : FieldDefinition) (lay : IsLayout r (length m.memory))
      (small : length m.memory < 2 ^ 32) (sane : BumpInStrings r m.memory)
      (after : r.record_start ≤ abs) where
    write_float-Unseen :
        (value : Value N)
        → write_float bindings float utf8 m abs f.size value ≡ (m', ok tt)
        → abs + 8 ≤ r.art_root
        → obs m' ≡ obs m
    unfolding write_float
    write_float-Unseen (num a) h before =
        let width = laws.eight_bytes a in
        write_bytes-Unseen m m' abs f.size (float.to_bytes a) h lay (omega arith)
    write_float-Unseen null h before = absurd (ground arith)
    write_float-Unseen undefined h before = absurd (ground arith)
    write_float-Unseen (bool b) h before = absurd (ground arith)
    write_float-Unseen (str s) h before = absurd (ground arith)
    write_float-Unseen (bytes i bs) h before = absurd (ground arith)

    write_text-Unseen :
        (value : Value N)
        → write_string bindings float utf8 r m abs value ≡ (m', ok tt)
        → abs + 8 ≤ r.art_root
        → obs m' ≡ obs m
    unfolding write_string
    write_text-Unseen (str s) h before =
        write_string-Unseen m m' abs s h lay small sane after before
    write_text-Unseen null h before = absurd (ground arith)
    write_text-Unseen undefined h before = absurd (ground arith)
    write_text-Unseen (bool b) h before = absurd (ground arith)
    write_text-Unseen (num a) h before = absurd (ground arith)
    write_text-Unseen (bytes i bs) h before = absurd (ground arith)

    pub write_typed-Unseen :
        (type : FieldType) (value : Value N)
        → write_typed bindings float utf8 r m abs f type value ≡ (m', ok tt)
        → abs + field_size type ≤ r.art_root
        → obs m' ≡ obs m
    unfolding write_typed field_size
    write_typed-Unseen string value h before = write_text-Unseen value h before
    write_typed-Unseen float64 value h before = write_float-Unseen value h before
    write_typed-Unseen uint8 value h before =
        let (n, bound, rest) =
          write_integer-inv bindings float laws utf8 r queue m m' abs f.size (λ n. n ∷ []) _
            (integer_up_to float 255 value) h in
        write_bytes-Unseen m m' abs f.size (n ∷ []) rest lay before
    write_typed-Unseen uint32 value h before =
        let (n, bound, rest) =
          write_integer-inv bindings float laws utf8 r queue m m' abs f.size word _
            (integer_up_to float 0xffffffff value) h in
        write_bytes-Unseen m m' abs f.size (word n) rest lay before
