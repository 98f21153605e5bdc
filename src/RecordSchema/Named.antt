-- ===== src/RecordSchema/Named.antt =====
-- client/schema.ts: the fields of a record schema, by their names.
use takyondb.Prelude.{
  ℕ, ◌+◌, ◌≤◌, ◌≡◌, ◌≢◌, List, [], ◌∷◌, some, ok, arith, subst, sym, ◌∙◌, inl, inr,
}
use takyondb.Js.Text.{Text, text_dec}
use takyondb.Js.Dict.{get}
use takyondb.Js.Windows.{Apart}
use takyondb.RecordSchema.{
  FieldType, FieldDefinition, TakyonSchema, field_size, align_up, compile_record,
}
use takyondb.RecordSchema.Alignment.{Aligned, Aligned-le, compile_record-Aligned}

-- A field that lies between two offsets and is as wide as its type.
pub record Within (start end : ℕ) (f : FieldDefinition) : Type 0 where
  pub from : start ≤ f.offset
  pub until : f.offset + f.size ≤ end
  pub wide : f.size ≡ field_size f.type

get-Within :
    (start end : ℕ) (fields : List (Text × FieldDefinition)) (k : Text) {f : FieldDefinition}
    → Aligned start end fields
    → get k fields ≡ some f
    → Within start end f
unfolding get
get-Within start end [] k h g = cc
get-Within start end ((key, d) ∷ fields) k {f} h g = elim (text_dec key k) [
  | yes same ↦
      let here : d ≡ f = ground (arith, g) in
      let fits = Aligned-le (d.offset + d.size) end fields h.4 in
      subst (Within start end) here (record { from = h.0; until = fits; wide = h.3 })
  | no ne ↦
      let there = get-Within (d.offset + d.size) end fields k {f = f} h.4 (ground (arith, g)) in
      let from = there.from in
      let first = h.0 in record { from = omega arith; until = there.until; wide = there.wide }
]

get-Apart :
    (start end : ℕ) (fields : List (Text × FieldDefinition)) (k j : Text) {f g : FieldDefinition}
    → Aligned start end fields
    → k ≢ j
    → get k fields ≡ some f
    → get j fields ≡ some g
    → Apart f.offset f.size g.offset g.size
unfolding get
get-Apart start end [] k j h ne a b = cc
get-Apart start end ((key, d) ∷ fields) k j {f} {g} h ne a b = elim (text_dec key k) [
  | yes same ↦
      let here : d ≡ f = ground (arith, a) in
      let other : (key ≢ j) = λ e. ne (sym same ∙ e) in
      let there = get-Within (d.offset + d.size) end fields j {f = g} h.4 (ground (arith, b)) in
      inl (subst (λ d. d.offset + d.size ≤ g.offset) here there.from)
  | no unlike ↦ elim (text_dec key j) [
    | yes same ↦
        let here : d ≡ g = ground (arith, b) in
        let there = get-Within (d.offset + d.size) end fields k {f = f} h.4 (ground (arith, a)) in
        inr (subst (λ d. d.offset + d.size ≤ f.offset) here there.from)
    | no neither ↦
        get-Apart (d.offset + d.size) end fields k j {f = f} {g = g} h.4 ne (ground (arith, a))
          (ground (arith, b))
  ]
]

pub field_named :
    (def : List (Text × FieldType)) {s : TakyonSchema} (k : Text) {f : FieldDefinition}
    → compile_record def ≡ ok s
    → get k s.fields ≡ some f
    → Within 0 s.total_size f
unfolding align_up
field_named def {s} k h g =
    let (end, same, aligned, total) = compile_record-Aligned def h in
    let within = get-Within 0 end s.fields k aligned g in
    let until = within.until in
    record { from = within.from; until = omega arith; wide = within.wide }

pub fields_named-Apart :
    (def : List (Text × FieldType)) {s : TakyonSchema} (k j : Text) {f g : FieldDefinition}
    → compile_record def ≡ ok s
    → k ≢ j
    → get k s.fields ≡ some f
    → get j s.fields ≡ some g
    → Apart f.offset f.size g.offset g.size
fields_named-Apart def {s} k j h ne a b =
    let (end, same, aligned, total) = compile_record-Aligned def h in
    get-Apart 0 end s.fields k j aligned ne a b
