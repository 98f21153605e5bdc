-- ===== src/Relational/Schema/Offsets.antt =====
-- schema.ts: where the columns of a compiled row lie.
use takyondb.Prelude.{
  ℕ, ◌+◌, ◌*◌, ◌≤◌, ◌<◌, ◌≡◌, List, [], ◌∷◌, arith, ok, length, refl, ap, map, some, get_elem?,
  zero, suc, if◌then◌else◌, length-map,
}
use takyondb.Js.Text.{Text}
use takyondb.Js.TextSet.{contains}
use mathlib.Core.Bool.{false}
use takyondb.Relational.Column.{ColumnDef, relational_type_size, validate_column}
use takyondb.Relational.Schema.{CompiledColumn, RelationalSchema, compile_columns, compile_schema}

module _ {N : Type 0} where
  -- The columns fill `[start, end)` in order, without a gap and without an overlap.
  abbrev pub Packed : ℕ → ℕ → List (CompiledColumn N) → Type 0
  Packed start end [] = start ≡ end
  Packed start end (c ∷ cs) =
      (c.offset ≡ start)
      × (c.size ≡ relational_type_size c.type)
      × Packed (c.offset + c.size) end cs

  relational_type_size_bounds :
      (c : ColumnDef N) → (1 ≤ relational_type_size c.type) × (relational_type_size c.type ≤ 8)
  unfolding relational_type_size
  relational_type_size_bounds c = ground arith

  abbrev pub column_at : ℕ → ColumnDef N → CompiledColumn N
  column_at offset d = record { def = d; offset = offset; size = relational_type_size d.type }

  -- What one round of the loop has found when the loop returns.
  pub compile_columns-cons :
      (seen : List Text) (pks offset : ℕ) (d : ColumnDef N) (defs : List (ColumnDef N))
      {r : List (CompiledColumn N) × ℕ × ℕ}
      → compile_columns seen pks offset (d ∷ defs) ≡ ok r
      → (validate_column d ≡ ok tt)
        × (contains d.name seen ≡ false)
        × (q : List (CompiledColumn N) × ℕ × ℕ) × (compile_columns
              (d.name ∷ seen)
              (if d.primary_key then pks + 1 else pks)
              (offset + relational_type_size d.type)
              defs
            ≡ ok q)
        × (r ≡ (column_at offset d ∷ q.0, q.1, q.2))
  unfolding compile_columns
  compile_columns-cons seen pks offset d defs h = ground arith

  -- The loop keeps the definitions, and packs them from its offset on.
  compile_columns-Packed :
      (seen : List Text) (pks offset : ℕ) (defs : List (ColumnDef N))
      {r : List (CompiledColumn N) × ℕ × ℕ}
      → compile_columns seen pks offset defs ≡ ok r
      → (map (λ c. c.def) r.0 ≡ defs) × Packed offset r.2 r.0
  unfolding compile_columns
  compile_columns-Packed seen pks offset [] h = ground arith
  compile_columns-Packed seen pks offset (d ∷ defs) h =
      let (v, u, q, rest, e) = compile_columns-cons seen pks offset d defs h in
      let ih =
        compile_columns-Packed (d.name ∷ seen) (if d.primary_key then pks + 1 else pks)
          (offset + relational_type_size d.type) defs rest in
      rw e (ap (◌∷◌ d) ih.0, (refl, refl, ih.1))

  Packed-length :
      (cs : List (CompiledColumn N)) (start end : ℕ)
      → Packed start end cs
      → (start + length cs ≤ end) × (end ≤ start + 8 * length cs)
  Packed-length [] start end h = omega arith
  Packed-length (c ∷ cs) start end h =
      omega (arith, relational_type_size_bounds c.def, Packed-length cs (c.offset + c.size) end h.2)

  Packed-within :
      (cs : List (CompiledColumn N)) (start end i : ℕ) {c : CompiledColumn N}
      → Packed start end cs
      → get_elem? cs i ≡ some c
      → (start ≤ c.offset) × (c.offset + c.size ≤ end) × (1 ≤ c.size)
  Packed-within [] start end i h g = cc
  Packed-within (d ∷ cs) start end zero {c} h g =
      let e : d ≡ c = cc in
      omega (
        arith,
        ap (λ x. x.offset) e,
        ap (λ x. x.size) e,
        relational_type_size_bounds d.def,
        Packed-length cs (d.offset + d.size) end h.2,
      )
  Packed-within (d ∷ cs) start end (suc i) {c} h g =
      omega (arith, Packed-within cs (d.offset + d.size) end i {c = c} h.2 g)

  Packed-disjoint :
      (cs : List (CompiledColumn N)) (start end i j : ℕ) {c d : CompiledColumn N}
      → Packed start end cs
      → i < j
      → get_elem? cs i ≡ some c
      → get_elem? cs j ≡ some d
      → c.offset + c.size ≤ d.offset
  Packed-disjoint [] start end i j h lt g k = cc
  Packed-disjoint (x ∷ cs) start end i zero h lt g k = absurd (omega arith)
  Packed-disjoint (x ∷ cs) start end zero (suc j) {c} h lt g k =
      let e : x ≡ c = cc in
      omega (
        arith,
        ap (λ x. x.offset) e,
        ap (λ x. x.size) e,
        Packed-within cs (x.offset + x.size) end j h.2 k,
      )
  Packed-disjoint (x ∷ cs) start end (suc i) (suc j) h lt g k =
      Packed-disjoint cs (x.offset + x.size) end i j h.2 (omega arith) g k

  compile_schema-columns :
      (table_name : Text) (defs : List (ColumnDef N)) {s : RelationalSchema N}
      → compile_schema table_name defs ≡ ok s
      → (r : List (CompiledColumn N) × ℕ × ℕ) × (compile_columns [] 0 4 defs ≡ ok r)
        × (s.columns ≡ r.0)
        × (s.total_size ≡ r.2)
        × (1 ≤ length defs)
        × (length defs ≤ 32)
  unfolding compile_schema
  compile_schema-columns table_name defs h = ground arith

  pub compile_schema-Packed :
      (table_name : Text) (defs : List (ColumnDef N)) {s : RelationalSchema N}
      → compile_schema table_name defs ≡ ok s
      → (map (λ c. c.def) s.columns ≡ defs)
        × Packed 4 s.total_size s.columns
        × (length s.columns ≤ 32)
  compile_schema-Packed table_name defs h =
      let (r, run, cols, total, lo, hi) = compile_schema-columns table_name defs h in
      let (same, packed) = compile_columns-Packed [] 0 4 defs run in
      let count = length-map r.0 (λ c. c.def) in
      rw (cols, total) (same, packed, omega (arith, count, ap length same))

  -- A schema that compiles has the given definitions in their order, and each column lies between
  -- the 4-byte null bitmap and the end of the row.
  pub column_within_row :
      (table_name : Text) (defs : List (ColumnDef N)) {s : RelationalSchema N} (i : ℕ)
      {c : CompiledColumn N}
      → compile_schema table_name defs ≡ ok s
      → get_elem? s.columns i ≡ some c
      → (map (λ c. c.def) s.columns ≡ defs)
        × (4 ≤ c.offset)
        × (c.offset + c.size ≤ s.total_size)
        × (s.total_size ≤ 260)
  column_within_row table_name defs {s} i {c} h g =
      let (same, packed, count) = compile_schema-Packed table_name defs h in
      let within = Packed-within s.columns 4 s.total_size i packed g in
      (same, within.0, within.1, omega (arith, Packed-length s.columns 4 s.total_size packed))

  -- Two columns of a compiled schema never share a byte: the one that is declared first ends
  -- where the other starts, or before.
  pub columns_disjoint :
      (table_name : Text) (defs : List (ColumnDef N)) {s : RelationalSchema N} (i j : ℕ)
      {c d : CompiledColumn N}
      → compile_schema table_name defs ≡ ok s
      → i < j
      → get_elem? s.columns i ≡ some c
      → get_elem? s.columns j ≡ some d
      → (c.offset + c.size ≤ d.offset) × (1 ≤ c.size) × (1 ≤ d.size)
  columns_disjoint table_name defs {s} i j {c} {d} h lt g k =
      let (same, packed, count) = compile_schema-Packed table_name defs h in
      omega (
        arith,
        Packed-disjoint s.columns 4 s.total_size i j {c = c} {d = d} packed lt g k,
        Packed-within s.columns 4 s.total_size i {c = c} packed g,
        Packed-within s.columns 4 s.total_size j {c = d} packed k,
      )
