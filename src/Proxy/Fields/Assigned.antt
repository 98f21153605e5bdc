-- ===== src/Proxy/Fields/Assigned.antt =====
-- client/proxy.ts: the traps of a record proxy, one after the other.
use takyondb.Prelude.{
  ℕ, ◌+◌, ◌^◌, ◌≤◌, ◌<◌, ◌≡◌, ◌≢◌, ◌∙◌, refl, ap, sym, List, [], some, ok, length, arith,
}
use takyondb.Js.Text.{Text}
use takyondb.Js.Dict.{get}
use takyondb.Js.Value.{Value, JsNumber}
use takyondb.Js.Order.{pos}
use takyondb.Js.Utf8.{Utf8}
use takyondb.Layout.{Regions}
use takyondb.Layout.Valid.{IsLayout}
use takyondb.RecordSchema.{FieldType, FieldDefinition, TakyonSchema, compile_record, field_size}
use takyondb.RecordSchema.Named.{field_named, fields_named-Apart}
use takyondb.Proxy.{Machine, ClientBindings, word_view}
use takyondb.Proxy.Fields.{
  JsFloat, RecordProxy, create_proxy, read_typed, read_property, in_proxy, write_typed,
  write_property,
}
use takyondb.Proxy.Fields.Frame.{QueueLaws}
use takyondb.Proxy.Fields.Bump.{BumpInStrings}
use takyondb.Proxy.Fields.Outside.{read_typed-Outside}
use takyondb.Proxy.Fields.Outcomes.{FloatLaws, Carried, Same, Settled}
use takyondb.Proxy.Fields.RoundTrip.{Assigned, write_typed-Assigned}

module _ {N : Type 0} where
  pub create_proxy-inv :
      (r : Regions) (memory : List ℕ) (schema : TakyonSchema) (base : ℕ) {proxy : RecordProxy N}
      → create_proxy r memory schema (pos base) ≡ ok proxy
      → (base + schema.total_size ≤ r.record_start + r.record_bytes)
        × (proxy ≡ record { schema = schema; base_offset = base; target = [] })
  unfolding create_proxy word_view
  create_proxy-inv r memory schema base h = ground arith

module _ {S N : Type 0} ⦃js : JsNumber N⦄ (bindings : ClientBindings S) (float : JsFloat N)
    (utf8 : Utf8) (r : Regions) where
  pub write_property-inv :
      (proxy proxy' : RecordProxy N) (m m' : Machine S) (prop : Text) (value : Value N)
      {f : FieldDefinition}
      → get prop proxy.schema.fields ≡ some f
      → write_property bindings float utf8 r proxy m prop value ≡ (m', proxy', ok tt)
      → (proxy' ≡ proxy)
        × (write_typed bindings float utf8 r m (proxy.base_offset + f.offset) f f.type value
            ≡ (m', ok tt))
  unfolding write_property in_proxy
  write_property-inv proxy proxy' m m' prop value g h = ground (arith, g)

  read_property-field :
      (proxy : RecordProxy N) (memory : List ℕ) (prop : Text) {f : FieldDefinition}
      → get prop proxy.schema.fields ≡ some f
      → read_property float utf8 proxy memory prop
        ≡ read_typed float utf8 memory (proxy.base_offset + f.offset) f.type
  unfolding read_property
  read_property-field proxy memory prop g = rw (read_property, g) refl

  module _ (laws : FloatLaws js float) (queue : QueueLaws bindings r.record_start) where
    pub write_property-Assigned :
        (def : List (Text × FieldType)) {schema : TakyonSchema} (base : ℕ)
        {proxy proxy' : RecordProxy N} (m : Machine S) {m' : Machine S} (prop : Text)
        {f : FieldDefinition} (value : Value N)
        → IsLayout r (length m.memory)
        → length m.memory < 2 ^ 32
        → compile_record def ≡ ok schema
        → create_proxy r m.memory schema (pos base) ≡ ok proxy
        → r.record_start ≤ base
        → get prop schema.fields ≡ some f
        → BumpInStrings r m.memory
        → Carried utf8 value
        → write_property bindings float utf8 r proxy m prop value ≡ (m', proxy', ok tt)
        → (proxy' ≡ proxy)
          × (proxy ≡ record { schema = schema; base_offset = base; target = [] })
          × (base + schema.total_size ≤ r.string_start)
          × (f.size ≡ field_size f.type)
          × Assigned bindings float laws utf8 r queue m m' (base + f.offset) f.type value
    write_property-Assigned def base {proxy} {proxy'} m {m'} prop {f} value lay small compiled made
          after g sane carried h =
        let (inside, shape) = create_proxy-inv r m.memory _ base made in
        let field = field_named def prop compiled g in
        let until = field.until in
        let wide = field.wide in
        let index = lay.records_before_index in
        let strings = lay.index_before_strings in
        let (same, written) =
          write_property-inv proxy proxy' m m' prop value
            (ap (λ p. get prop p.schema.fields) shape ∙ g) h in
        let here = ap (λ p. p.base_offset + f.offset) shape in
        (
          same,
          shape,
          omega arith,
          wide,
          write_typed-Assigned bindings float laws utf8 r queue m m' (base + f.offset) lay small
              sane (omega arith) f f.type value carried (rw (← here) written) (omega arith),
        )

    -- In a mapping with a valid layout below 4 GiB, with a bump word that is zero or in the strings,
    -- a proxy of a compiled record from the start of the records on: an assignment to a field of the
    -- schema that returns leaves the proxy as it is, the field then reads as the value that was
    -- assigned (an integer up to `===`), its string pointer shows bytes that were handed out, the
    -- bump word is in order again, and the mapping keeps its size.
    pub read-write_property :
        (def : List (Text × FieldType)) {schema : TakyonSchema} (base : ℕ)
        {proxy proxy' : RecordProxy N} (m : Machine S) {m' : Machine S} (prop : Text)
        {f : FieldDefinition} (value : Value N)
        → IsLayout r (length m.memory)
        → length m.memory < 2 ^ 32
        → compile_record def ≡ ok schema
        → create_proxy r m.memory schema (pos base) ≡ ok proxy
        → r.record_start ≤ base
        → get prop schema.fields ≡ some f
        → BumpInStrings r m.memory
        → Carried utf8 value
        → write_property bindings float utf8 r proxy m prop value ≡ (m', proxy', ok tt)
        → (proxy' ≡ proxy)
          × ((v : Value N) × (read_property float utf8 proxy' m'.memory prop ≡ ok v) × Same v value)
          × Settled r m'.memory (base + f.offset) f.type
          × BumpInStrings r m'.memory
          × (length m'.memory ≡ length m.memory)
    read-write_property def base {proxy} {proxy'} m {m'} prop {f} value lay small compiled made
          after g sane carried h =
        let (same, shape, inside, wide, assigned) =
          write_property-Assigned def base m prop value lay small compiled made after g sane carried
            h in
        let (v, read, alike) = assigned.0 in
        let outside = assigned.2 in
        let target = same ∙ shape in
        let found = ap (λ p. get prop p.schema.fields) target ∙ g in
        let here = ap (λ p. p.base_offset + f.offset) target in
        let seen = read_property-field proxy' m'.memory prop found in
        (same, (v, seen ∙ rw here read, alike), assigned.1, outside.sane, outside.same_length)

    -- The same assignment leaves every other field of the schema as it reads, if it is not a string
    -- or its pointer is zero or shows bytes that were handed out; the pointer then still does.
    pub read-write_property-other :
        (def : List (Text × FieldType)) {schema : TakyonSchema} (base : ℕ)
        {proxy proxy' : RecordProxy N} (m : Machine S) {m' : Machine S} (prop other : Text)
        {f g : FieldDefinition} (value : Value N)
        → IsLayout r (length m.memory)
        → length m.memory < 2 ^ 32
        → compile_record def ≡ ok schema
        → create_proxy r m.memory schema (pos base) ≡ ok proxy
        → r.record_start ≤ base
        → get prop schema.fields ≡ some f
        → BumpInStrings r m.memory
        → Carried utf8 value
        → write_property bindings float utf8 r proxy m prop value ≡ (m', proxy', ok tt)
        → prop ≢ other
        → get other schema.fields ≡ some g
        → Settled r m.memory (base + g.offset) g.type
        → (read_property float utf8 proxy' m'.memory other
            ≡ read_property float utf8 proxy m.memory other)
          × Settled r m'.memory (base + g.offset) g.type
    read-write_property-other def base {proxy} {proxy'} m {m'} prop other {f} {g} value lay small
          compiled made after at sane carried h ne found settled =
        let (same, shape, inside, wide, assigned) =
          write_property-Assigned def base m prop value lay small compiled made after at sane
            carried h in
        let field = field_named def other compiled found in
        let until = field.until in
        let width = field.wide in
        let mine = field_named def prop compiled at in
        let end = mine.until in
        let (reads, kept) =
          read_typed-Outside float utf8 r m m' (base + f.offset) (field_size f.type)
            (base + g.offset) g.type assigned.2 lay (omega arith) (omega arith) (omega arith)
            (rw (← width) (
              rw (← wide) (
                ground
                  (arith, fields_named-Apart def other prop compiled (λ e. ne (sym e)) found at))))
            settled in
        let old = ap (λ p. get other p.schema.fields) shape ∙ found in
        let new = ap (λ p. get other p.schema.fields) (same ∙ shape) ∙ found in
        (
          read_property-field proxy' m'.memory other new
              ∙ rw same (rw shape reads)
              ∙ sym (read_property-field proxy m.memory other old),
          kept,
        )
