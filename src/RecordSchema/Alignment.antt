-- ===== src/RecordSchema/Alignment.antt =====
-- client/schema.ts: every field is aligned, no two fields meet, and a record is whole units.
use takyondb.Prelude.{
  ℕ, zero, suc, ◌+◌, ◌%◌, ◌≤◌, ◌<◌, ◌≡◌, refl, ap, subst, List, [], ◌∷◌, map, some, ok, arith,
  get_elem?,
}
use takyondb.Js.Text.{Text}
use takyondb.RecordSchema.{
  FieldType, FieldDefinition, TakyonSchema, align_up, field_size, field_align, compile_fields,
  compile_record, record_alignment,
}

-- The fields follow one another from `start` to `end`; each is aligned, and is as near to the one
-- before as its alignment lets it.
abbrev pub Aligned : ℕ → ℕ → List (Text × FieldDefinition) → Type 0
Aligned start end [] = start ≡ end
Aligned start end ((key, f) ∷ fields) =
    (start ≤ f.offset)
    × (f.offset < start + field_align f.type)
    × (f.offset % field_align f.type ≡ 0)
    × (f.size ≡ field_size f.type)
    × Aligned (f.offset + f.size) end fields

align_up_bounds :
    (value : ℕ) (type : FieldType)
    → (value ≤ align_up value (field_align type))
      × (align_up value (field_align type) < value + field_align type)
      × (align_up value (field_align type) % field_align type ≡ 0)
unfolding align_up field_align
align_up_bounds value FieldType.uint8 = omega arith
align_up_bounds value FieldType.uint32 = omega arith
align_up_bounds value FieldType.float64 = omega arith
align_up_bounds value FieldType.string = omega arith

compile_fields-Aligned :
    (current : ℕ) (def : List (Text × FieldType))
    → (map (λ e. (e.0, e.1.type)) (compile_fields current def).0 ≡ def)
      × Aligned current (compile_fields current def).1 (compile_fields current def).0
unfolding compile_fields
compile_fields-Aligned current [] = (refl, refl)
compile_fields-Aligned current ((key, type) ∷ def) =
    let (lo, hi, unit) = align_up_bounds current type in
    let ih = compile_fields-Aligned (align_up current (field_align type) + field_size type) def in
    (ap (◌∷◌ (key, type)) ih.0, (lo, hi, unit, refl, ih.1))

pub Aligned-le :
    (start end : ℕ) (fields : List (Text × FieldDefinition))
    → Aligned start end fields
    → start ≤ end
Aligned-le start end [] h = omega arith
Aligned-le start end ((key, f) ∷ fields) h =
    omega (arith, Aligned-le (f.offset + f.size) end fields h.4)

Aligned-at :
    (start end i : ℕ) (fields : List (Text × FieldDefinition)) {e : Text × FieldDefinition}
    → Aligned start end fields
    → get_elem? fields i ≡ some e
    → (start ≤ e.1.offset)
      × (e.1.offset + e.1.size ≤ end)
      × (e.1.offset % field_align e.1.type ≡ 0)
      × (e.1.size ≡ field_size e.1.type)
Aligned-at start end i [] h g = cc
Aligned-at start end zero ((key, f) ∷ fields) {e} h g =
    let same : (key, f) ≡ e = cc in
    subst
      (λ e.
        (start ≤ e.1.offset)
        × (e.1.offset + e.1.size ≤ end)
        × (e.1.offset % field_align e.1.type ≡ 0)
        × (e.1.size ≡ field_size e.1.type))
      same (h.0, Aligned-le (f.offset + f.size) end fields h.4, h.2, h.3)
Aligned-at start end (suc i) ((key, f) ∷ fields) h g =
    let (lo, hi, unit, size) = Aligned-at (f.offset + f.size) end i fields h.4 g in
    (omega arith, hi, unit, size)

Aligned-apart :
    (start end i j : ℕ) (fields : List (Text × FieldDefinition)) {e e' : Text × FieldDefinition}
    → Aligned start end fields
    → i < j
    → get_elem? fields i ≡ some e
    → get_elem? fields j ≡ some e'
    → e.1.offset + e.1.size ≤ e'.1.offset
Aligned-apart start end i j [] h lt g k = cc
Aligned-apart start end i zero (x ∷ fields) h lt g k = absurd (omega arith)
Aligned-apart start end zero (suc j) ((key, f) ∷ fields) {e} {e'} h lt g k =
    let same : (key, f) ≡ e = cc in
    let after = Aligned-at (f.offset + f.size) end j fields h.4 k in
    subst (λ e. e.1.offset + e.1.size ≤ e'.1.offset) same after.0
Aligned-apart start end (suc i) (suc j) ((key, f) ∷ fields) h lt g k =
    Aligned-apart (f.offset + f.size) end i j fields h.4 (omega arith) g k

pub compile_record-Aligned :
    (def : List (Text × FieldType)) {s : TakyonSchema}
    → compile_record def ≡ ok s
    → (end : ℕ) × (map (λ e. (e.0, e.1.type)) s.fields ≡ def)
      × Aligned 0 end s.fields
      × (s.total_size ≡ align_up end record_alignment)
unfolding compile_record
compile_record-Aligned [] h = cc
compile_record-Aligned (d ∷ def) {s} h =
    let (same, aligned) = compile_fields-Aligned 0 (d ∷ def) in
    let r = compile_fields 0 (d ∷ def) in
    let shape : s ≡ record { fields = r.0; total_size = align_up r.1 record_alignment } = cc in
    rw shape (r.1, same, aligned, refl)

address-aligned :
    (base offset : ℕ) (type : FieldType)
    → base % 8 ≡ 0
    → offset % field_align type ≡ 0
    → (base + offset) % field_align type ≡ 0
unfolding field_align
address-aligned base offset FieldType.uint8 b o = omega arith
address-aligned base offset FieldType.uint32 b o = omega arith
address-aligned base offset FieldType.float64 b o = omega arith
address-aligned base offset FieldType.string b o = omega arith

-- A record schema keeps the declared fields in their order, and its size is a whole number of
-- 8-byte units. A field lies inside the record; in a record that starts at a multiple of 8 the
-- field's address is a multiple of its own alignment.
field_within_record :
    (def : List (Text × FieldType)) {s : TakyonSchema} (i : ℕ) {e : Text × FieldDefinition}
    → compile_record def ≡ ok s
    → get_elem? s.fields i ≡ some e
    → (map (λ e. (e.0, e.1.type)) s.fields ≡ def)
      × (s.total_size % 8 ≡ 0)
      × (e.1.offset + e.1.size ≤ s.total_size)
      × ((base : ℕ) → base % 8 ≡ 0 → (base + e.1.offset) % field_align e.1.type ≡ 0)
unfolding align_up
field_within_record def {s} i {e} h g =
    let (end, same, aligned, total) = compile_record-Aligned def h in
    let (lo, hi, unit, size) = Aligned-at 0 end i s.fields aligned g in
    (same, omega arith, omega arith, λ base b. address-aligned base e.1.offset e.1.type b unit)

-- Two fields of a record schema never share a byte, and the one declared first comes first.
fields_disjoint :
    (def : List (Text × FieldType)) {s : TakyonSchema} (i j : ℕ) {e e' : Text × FieldDefinition}
    → compile_record def ≡ ok s
    → i < j
    → get_elem? s.fields i ≡ some e
    → get_elem? s.fields j ≡ some e'
    → e.1.offset + e.1.size ≤ e'.1.offset
fields_disjoint def {s} i j h lt g k =
    let (end, same, aligned, total) = compile_record-Aligned def h in
    Aligned-apart 0 end i j s.fields aligned lt g k

-- A record schema that compiles keeps the declared fields in their order, and its size is a whole
-- number of 8-byte units. Of two fields, the one declared first ends before the other starts, and
-- both lie inside the record; in a record that starts at a multiple of 8, the address of each is a
-- multiple of its own alignment.
pub compile_record-layout :
    (def : List (Text × FieldType)) {s : TakyonSchema} (i j base : ℕ)
    {e e' : Text × FieldDefinition}
    → compile_record def ≡ ok s
    → i < j
    → get_elem? s.fields i ≡ some e
    → get_elem? s.fields j ≡ some e'
    → base % 8 ≡ 0
    → (map (λ e. (e.0, e.1.type)) s.fields ≡ def)
      × (s.total_size % 8 ≡ 0)
      × (e.1.offset + e.1.size ≤ e'.1.offset)
      × (e'.1.offset + e'.1.size ≤ s.total_size)
      × ((base + e.1.offset) % field_align e.1.type ≡ 0)
      × ((base + e'.1.offset) % field_align e'.1.type ≡ 0)
compile_record-layout def {s} i j base h lt g k b =
    let (same, units, inside, aligned) = field_within_record def i h g in
    let (same', units', inside', aligned') = field_within_record def j h k in
    (same, units, fields_disjoint def i j h lt g k, inside', aligned base b, aligned' base b)
