-- ===== src/Proxy/Fields/RoundTrip.antt =====
-- client/proxy.ts: a field that is assigned is read back.
use takyondb.Prelude.{
  ℕ, ◌+◌, ◌^◌, ◌≤◌, ◌<◌, ◌≡◌, ◌∙◌, inl, inr, refl, ap, List, [], ◌∷◌, Option, some, none, ok,
  length, arith, Error, uint8_out_of_range, uint32_out_of_range,
}
use takyondb.Js.Value.{Value, JsNumber, null, undefined, bool, num, str, bytes, strict_eq}
use takyondb.Js.Order.{ℤ, pos, negsuc}
use takyondb.Js.Utf8.{Utf8}
use takyondb.Js.Blocks.{word}
use takyondb.Js.Windows.{window, byte_at-of_window, get_uint32-of_window, get_uint32-same}
use takyondb.Layout.{Regions, string_data_start}
use takyondb.Layout.Valid.{IsLayout}
use takyondb.RecordSchema.{FieldType, FieldDefinition, uint8, uint32, float64, string, field_size}
use takyondb.Proxy.{Machine, ClientBindings}
use takyondb.Proxy.Fields.{
  JsFloat, bounded, integer_up_to, read_string, read_typed, write_integer, write_bytes, write_float,
  write_typed, write_string,
}
use takyondb.Proxy.Fields.Frame.{QueueLaws, write_bytes-lem}
use takyondb.Proxy.Fields.Bump.{BumpInStrings, write_string-StringStored, next_free}
use takyondb.Proxy.Fields.Outcomes.{FloatLaws, Carried, Same, Settled, Outside}

module _ {S N : Type 0} ⦃js : JsNumber N⦄ (bindings : ClientBindings S) (float : JsFloat N)
    (laws : FloatLaws js float) (utf8 : Utf8) (r : Regions)
    (queue : QueueLaws bindings r.record_start) where
  -- The field reads as the value, and the rest is as before.
  abbrev pub Assigned : Machine S → Machine S → ℕ → FieldType → Value N → Type 0
  Assigned m m' abs type value =
      ((v : Value N) × (read_typed float utf8 m'.memory abs type ≡ ok v) × Same v value)
      × Settled r m'.memory abs type
      × Outside r abs (field_size type) m m'

  pub write_integer-inv :
      (m m' : Machine S) (abs size : ℕ) (encode : ℕ → List ℕ) (refused : Error) (n? : Option ℕ)
      → write_integer bindings m abs size encode refused n? ≡ (m', ok tt)
      → (n : ℕ) × (n? ≡ some n) × (write_bytes bindings m abs size (encode n) ≡ (m', ok tt))
  unfolding write_integer
  write_integer-inv m m' abs size encode refused none h = absurd (ground arith)
  write_integer-inv m m' abs size encode refused (some n) h = (n, refl, h)

  bounded-inv :
      (max : ℕ) (z : Option ℤ) {n : ℕ} → bounded max z ≡ some n → (z ≡ some (pos n)) × (n ≤ max)
  unfolding bounded
  bounded-inv max (some (pos n)) h = ground arith
  bounded-inv max (some (negsuc n)) h = cc
  bounded-inv max none h = cc

  integer_up_to-inv :
      (max : ℕ) (value : Value N) {n : ℕ}
      → integer_up_to float max value ≡ some n
      → (n ≤ max) × Same (num (js.of_ℕ n)) value
  unfolding integer_up_to strict_eq
  integer_up_to-inv max (num a) {n} h =
      let (whole, small) = bounded-inv max (float.whole a) h in
      (small, inr (laws.whole_of a n whole))
  integer_up_to-inv max null h = cc
  integer_up_to-inv max undefined h = cc
  integer_up_to-inv max (bool b) h = cc
  integer_up_to-inv max (str s) h = cc
  integer_up_to-inv max (bytes i bs) h = cc

  read_string-content :
      (memory : List ℕ) (offset len : ℕ) (bs : List ℕ)
      → 0 < offset
      → offset + len ≤ length memory
      → window memory offset len ≡ bs
      → read_string float utf8 memory offset len ≡ ok (str (utf8.decode bs))
  unfolding read_string
  read_string-content memory offset len bs free inside content = rw (← content) (ground arith)

  module _ (m m' : Machine S) (abs : ℕ) (lay : IsLayout r (length m.memory))
      (small : length m.memory < 2 ^ 32) (sane : BumpInStrings r m.memory)
      (after : r.record_start ≤ abs) where
    write_bytes-Outside :
        (size : ℕ) (bs : List ℕ)
        → write_bytes bindings m abs size bs ≡ (m', ok tt)
        → abs + length bs ≤ r.string_start
        → (window m'.memory abs (length bs) ≡ bs) × Outside r abs (length bs) m m'
    unfolding BumpInStrings
    write_bytes-Outside size bs h before =
        let inside = lay.strings_inside in
        let mapped = lay.mapped in
        let word_fits = lay.string_word in
        let (long, content, elsewhere) =
          write_bytes-lem bindings r.record_start queue m m' abs size bs h after (omega arith) in
        let bump =
          get_uint32-same _ _ r.string_start
            (elsewhere r.string_start 4 (omega arith) (ground arith)) in
        (
          content,
          record {
            same_length = long;
            sane = rw bump sane;
            grows = omega arith;
            elsewhere = λ i n above apart _ _. elsewhere i n above apart;
          },
        )

    write_integer-Assigned :
        (type : FieldType) (size max : ℕ) (encode : ℕ → List ℕ) (refused : Error) (value : Value N)
        → write_integer bindings m abs size encode refused (integer_up_to float max value)
          ≡ (m', ok tt)
        → abs + field_size type ≤ r.string_start
        → ((n : ℕ) → length (encode n) ≡ field_size type)
        → ((n : ℕ)
            → n ≤ max
            → window m'.memory abs (length (encode n)) ≡ encode n
            → read_typed float utf8 m'.memory abs type ≡ ok (num (js.of_ℕ n)))
        → Settled r m'.memory abs type
        → Assigned m m' abs type value
    write_integer-Assigned type size max encode refused value h before wide reads settled =
        let (n, bound, rest) =
          write_integer-inv m m' abs size encode refused (integer_up_to float max value) h in
        let (low, same) = integer_up_to-inv max value bound in
        let width = wide n in
        let (content, outside) = write_bytes-Outside size (encode n) rest (omega arith) in
        ((num (js.of_ℕ n), reads n low content, same), settled, rw (← width) outside)

    uint8-Assigned :
        (f : FieldDefinition) (value : Value N)
        → write_typed bindings float utf8 r m abs f uint8 value ≡ (m', ok tt)
        → abs + 1 ≤ r.string_start
        → Assigned m m' abs uint8 value
    unfolding write_typed read_typed field_size Settled
    uint8-Assigned f value h before =
        write_integer-Assigned uint8 f.size 255 (λ n. n ∷ []) uint8_out_of_range value h before
          (λ n. refl)
          (λ n low content.
            ap (λ b. ok (num (js.of_ℕ b))) (byte_at-of_window m'.memory abs n content))
          tt

    uint32-Assigned :
        (f : FieldDefinition) (value : Value N)
        → write_typed bindings float utf8 r m abs f uint32 value ≡ (m', ok tt)
        → abs + 4 ≤ r.string_start
        → Assigned m m' abs uint32 value
    unfolding write_typed read_typed field_size Settled
    uint32-Assigned f value h before =
        write_integer-Assigned uint32 f.size 0xffffffff word uint32_out_of_range value h before
          (λ n. refl)
          (λ n low content.
            ap (λ v. ok (num (js.of_ℕ v)))
              (get_uint32-of_window m'.memory abs n (omega arith) content))
          tt

    float64-Assigned :
        (f : FieldDefinition) (value : Value N)
        → write_typed bindings float utf8 r m abs f float64 value ≡ (m', ok tt)
        → abs + 8 ≤ r.string_start
        → Assigned m m' abs float64 value
    unfolding write_typed write_float read_typed field_size Settled
    float64-Assigned f (num a) h before =
        let width = laws.eight_bytes a in
        let (content, outside) = write_bytes-Outside f.size (float.to_bytes a) h (omega arith) in
        let here : (window m'.memory abs 8 ≡ float.to_bytes a) = rw (← width) content in
        (
          (
            num a,
            ap (λ b. ok (num (float.of_bytes b))) here ∙ ap (λ b. ok (num b)) (laws.of_to_bytes a),
            inl refl,
          ),
          tt,
          rw (← width) outside,
        )
    float64-Assigned f null h before = absurd (ground arith)
    float64-Assigned f undefined h before = absurd (ground arith)
    float64-Assigned f (bool b) h before = absurd (ground arith)
    float64-Assigned f (str s) h before = absurd (ground arith)
    float64-Assigned f (bytes i bs) h before = absurd (ground arith)

    string-Assigned :
        (f : FieldDefinition) (value : Value N)
        → Carried utf8 value
        → write_typed bindings float utf8 r m abs f string value ≡ (m', ok tt)
        → abs + 8 ≤ r.string_start
        → Assigned m m' abs string value
    unfolding write_typed write_string read_typed field_size Carried Settled BumpInStrings
        string_data_start
    string-Assigned f (str s) carried h before =
        let st =
          write_string-StringStored bindings float utf8 r queue m m' abs s h lay small sane after
            before in
        let free = st.after_bump in
        let past = st.past_bump in
        let inside = st.inside in
        let long = st.same_length in
        let next = st.next_bump in
        let read =
          read_string-content m'.memory (next_free r m.memory) (length (utf8.encode s))
            (utf8.encode s) (omega arith) (omega arith) st.content in
        (
          (
            str s,
            rw st.at_offset (rw st.at_length (read ∙ ap (λ t. ok (str t)) carried)),
            inl refl,
          ),
          inr (omega (arith, st.at_offset), omega (arith, st.at_offset, st.at_length)),
          record {
            same_length = long;
            sane = inr (omega arith);
            grows = omega arith;
            elsewhere =
                λ i n above apart word used. st.elsewhere i n above apart word (inl (ground arith));
          },
        )
    string-Assigned f null carried h before = absurd (ground arith)
    string-Assigned f undefined carried h before = absurd (ground arith)
    string-Assigned f (bool b) carried h before = absurd (ground arith)
    string-Assigned f (num a) carried h before = absurd (ground arith)
    string-Assigned f (bytes i bs) carried h before = absurd (ground arith)

    pub write_typed-Assigned :
        (f : FieldDefinition) (type : FieldType) (value : Value N)
        → Carried utf8 value
        → write_typed bindings float utf8 r m abs f type value ≡ (m', ok tt)
        → abs + field_size type ≤ r.string_start
        → Assigned m m' abs type value
    unfolding field_size
    write_typed-Assigned f uint8 value carried h before = uint8-Assigned f value h before
    write_typed-Assigned f uint32 value carried h before = uint32-Assigned f value h before
    write_typed-Assigned f float64 value carried h before = float64-Assigned f value h before
    write_typed-Assigned f string value carried h before = string-Assigned f value carried h before
