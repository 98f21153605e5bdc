-- ===== src/Relational/Schema/Accepts.antt =====
-- schema.ts: which definitions compile, and which column is the primary key.
use takyondb.Prelude.{
  ℕ, ◌+◌, ◌≤◌, ◌≡◌, ◌↔◌, refl, true, false, ◌&&◌, List, [], ◌∷◌, map, arith, ok, All, length,
  if◌then◌else◌, zero, suc, some, get_elem?, Bool-cases, inl, inr,
}
use takyondb.Js.Text.{Text}
use takyondb.Js.TextSet.{contains}
use takyondb.Relational.Column.{ColumnDef, is_name, validate_column, relational_type_size}
use takyondb.Relational.Schema.{
  CompiledColumn, RelationalSchema, find_primary_key, index_by_name, compile_columns,
  compile_schema,
}
use takyondb.Relational.Schema.Offsets.{column_at, compile_columns-cons, compile_schema-Packed}

module _ {N : Type 0} where
  abbrev pub names : List (ColumnDef N) → List Text
  names = map (λ d. d.name)

  -- No two definitions have one name.
  abbrev pub Apart : List (ColumnDef N) → Type 0
  Apart [] = Unit
  Apart (d ∷ defs) = (contains d.name (names defs) ≡ false) × Apart defs

  abbrev Fresh : List Text → List (ColumnDef N) → Type 0
  Fresh seen = All (λ d. contains d.name seen ≡ false)

  -- A column has a name of letters, digits and `_` that starts with no digit, of at most 64 units; a
  -- primary key is not nullable.
  pub record IsColumn (d : ColumnDef N) : Type 0 where
    pub named : is_name d.name ≡ true
    pub short : length d.name ≤ 64
    pub not_nullable : (d.primary_key && d.nullable) ≡ false

  IsColumn-valid : (d : ColumnDef N) → IsColumn d → validate_column d ≡ ok tt
  unfolding validate_column
  IsColumn-valid d v =
      let named = v.named in let short = v.short in let keyed = v.not_nullable in ground arith

  valid-IsColumn : (d : ColumnDef N) → validate_column d ≡ ok tt → IsColumn d
  unfolding validate_column
  valid-IsColumn d h = record {
    named = ground arith;
    short = ground arith;
    not_nullable = ground arith;
  }

  abbrev pub count_primary : List (ColumnDef N) → ℕ
  count_primary [] = 0
  count_primary (d ∷ defs) = (if d.primary_key then 1 else 0) + count_primary defs

  -- What the constructor asks of its arguments.
  pub record IsTable (table_name : Text) (defs : List (ColumnDef N)) : Type 0 where
    pub named : is_name table_name ≡ true
    pub some_column : 1 ≤ length defs
    pub few_columns : length defs ≤ 32
    pub columns : All IsColumn defs
    pub apart : Apart defs
    pub one_primary : count_primary defs ≡ 1

  Fresh-cons :
      (k : Text) (seen : List Text) (defs : List (ColumnDef N))
      → Fresh (k ∷ seen) defs ↔ (Fresh seen defs × (contains k (names defs) ≡ false))
  unfolding contains
  Fresh-cons k seen [] = (λ h. (tt, refl), λ h. tt)
  Fresh-cons k seen (d ∷ defs) =
      let ih = Fresh-cons k seen defs in
      (
        λ h. let (f, c) = ih.0 h.1 in ((ground arith, f), ground arith),
        λ h. (ground arith, ih.1 (h.0.1, ground arith)),
      )

  -- The loop returns exactly if each definition is valid and has a name of its own.
  compile_columns-accepts :
      (seen : List Text) (pks offset : ℕ) (defs : List (ColumnDef N))
      → All IsColumn defs
      → Fresh seen defs
      → Apart defs
      → (r : List (CompiledColumn N) × ℕ × ℕ) × (compile_columns seen pks offset defs ≡ ok r)
        × (r.1 ≡ pks + count_primary defs)
  unfolding compile_columns
  compile_columns-accepts seen pks offset [] v f a = (([], pks, offset), refl, omega arith)
  compile_columns-accepts seen pks offset (d ∷ defs) v f a =
      let pks' = if d.primary_key then pks + 1 else pks in
      let fresh = (Fresh-cons d.name seen defs).1 (f.1, a.0) in
      let (q, run, count) =
        compile_columns-accepts (d.name ∷ seen) pks' (offset + relational_type_size d.type) defs v.1
          fresh a.1 in
      let valid = IsColumn-valid d v.0 in
      ((column_at offset d ∷ q.0, q.1, q.2), ground arith, ground arith)

  compile_columns-checks :
      (seen : List Text) (pks offset : ℕ) (defs : List (ColumnDef N))
      {r : List (CompiledColumn N) × ℕ × ℕ}
      → compile_columns seen pks offset defs ≡ ok r
      → All IsColumn defs × Fresh seen defs × Apart defs × (r.1 ≡ pks + count_primary defs)
  unfolding compile_columns
  compile_columns-checks seen pks offset [] h = (tt, tt, tt, ground arith)
  compile_columns-checks seen pks offset (d ∷ defs) h =
      let (v, u, q, rest, e) = compile_columns-cons seen pks offset d defs h in
      let pks' = if d.primary_key then pks + 1 else pks in
      let (vs, fs, aps, count) =
        compile_columns-checks (d.name ∷ seen) pks' (offset + relational_type_size d.type) defs
          rest in
      let fresh = (Fresh-cons d.name seen defs).0 fs in
      ((valid-IsColumn d v, vs), (u, fresh.0), (fresh.1, aps), ground arith)

  abbrev schema_of : Text → List (CompiledColumn N) × ℕ × ℕ → RelationalSchema N
  schema_of table_name r = record {
    table_name = table_name;
    columns = r.0;
    total_size = r.2;
    primary_key = find_primary_key r.0;
    by_name = index_by_name [] r.0;
  }

  compile_schema-parts :
      (table_name : Text) (defs : List (ColumnDef N)) {s : RelationalSchema N}
      → compile_schema table_name defs ≡ ok s
      → (r : List (CompiledColumn N) × ℕ × ℕ) × (compile_columns [] 0 4 defs ≡ ok r)
        × (s ≡ schema_of table_name r)
        × (is_name table_name ≡ true)
        × (1 ≤ length defs)
        × (length defs ≤ 32)
        × (r.1 ≡ 1)
  unfolding compile_schema
  compile_schema-parts table_name defs h = ground arith

  compile_schema-IsTable :
      (table_name : Text) (defs : List (ColumnDef N)) {s : RelationalSchema N}
      → compile_schema table_name defs ≡ ok s
      → IsTable table_name defs
  compile_schema-IsTable table_name defs h =
      let (r, run, shape, named, lo, hi, one) = compile_schema-parts table_name defs h in
      let (vs, fs, aps, count) = compile_columns-checks [] 0 4 defs run in
      record {
        named = named;
        some_column = lo;
        few_columns = hi;
        columns = vs;
        apart = aps;
        one_primary = omega arith;
      }

  none_seen : (defs : List (ColumnDef N)) → Fresh [] defs
  unfolding contains
  none_seen [] = tt
  none_seen (d ∷ defs) = (refl, none_seen defs)

  -- A schema compiles exactly for a valid table name and 1 to 32 valid columns of different names
  -- of which exactly one is the primary key.
  pub compile_schema-accepts_iff :
      (table_name : Text) (defs : List (ColumnDef N))
      → ((s : RelationalSchema N) × (compile_schema table_name defs ≡ ok s))
        ↔ IsTable table_name defs
  unfolding compile_schema
  compile_schema-accepts_iff table_name defs = (
    λ h. compile_schema-IsTable table_name defs h.1,
    λ t.
        let (r, run, count) =
          compile_columns-accepts [] 0 4 defs t.columns (none_seen defs) t.apart in
        (schema_of table_name r, ground arith),
  )

  find_primary_key-finds :
      (cs : List (CompiledColumn N))
      → 1 ≤ count_primary (map (λ c. c.def) cs)
      → (i : ℕ) × (c : CompiledColumn N) × (get_elem? cs i ≡ some c)
        × (c.primary_key ≡ true)
        × (c.name ≡ find_primary_key cs)
  unfolding find_primary_key
  find_primary_key-finds [] h = absurd (omega arith)
  find_primary_key-finds (c ∷ cs) h = elim (Bool-cases c.primary_key) [
    | inl p ↦ (0, c, refl, p, rw p)
    | inr p ↦
        let (i, d, at, primary, named) = find_primary_key-finds cs (ground arith) in
        (suc i, d, at, primary, rw p named)
  ]

  no_primary :
      (cs : List (CompiledColumn N))
      → count_primary (map (λ c. c.def) cs) ≡ 0
      → (i : ℕ) {c : CompiledColumn N} → get_elem? cs i ≡ some c
      → c.primary_key ≡ false
  no_primary [] h i g = cc
  no_primary (d ∷ cs) h zero g = ground arith
  no_primary (d ∷ cs) h (suc i) g = no_primary cs (ground arith) i g

  find_primary_key-only :
      (cs : List (CompiledColumn N))
      → count_primary (map (λ c. c.def) cs) ≡ 1
      → (i : ℕ) {c : CompiledColumn N} → get_elem? cs i ≡ some c
      → c.primary_key ≡ true
      → c.name ≡ find_primary_key cs
  unfolding find_primary_key
  find_primary_key-only [] h i g p = cc
  find_primary_key-only (d ∷ cs) h zero g p = ground arith
  find_primary_key-only (d ∷ cs) h (suc i) {c} g p = elim (Bool-cases d.primary_key) [
    | inl q ↦ absurd (ground (arith, no_primary cs (ground arith) i g))
    | inr q ↦ rw q (find_primary_key-only cs (ground arith) i g p)
  ]

  columns-IsColumn :
      (cs : List (CompiledColumn N)) (i : ℕ) {c : CompiledColumn N}
      → All IsColumn (map (λ c. c.def) cs)
      → get_elem? cs i ≡ some c
      → IsColumn c.def
  columns-IsColumn [] i v g = cc
  columns-IsColumn (d ∷ cs) zero v g = ground arith
  columns-IsColumn (d ∷ cs) (suc i) v g = columns-IsColumn cs i v.1 g

  primary_not_nullable : (d : ColumnDef N) → IsColumn d → d.primary_key ≡ true → d.nullable ≡ false
  unfolding validate_column
  primary_not_nullable d v p = ground arith

  -- The primary key that a compiled schema names is the name of one of its columns, which is not
  -- nullable, and every column that is marked as a primary key has that name.
  primary_key_unique :
      (table_name : Text) (defs : List (ColumnDef N)) {s : RelationalSchema N}
      → compile_schema table_name defs ≡ ok s
      → ((i : ℕ) × (c : CompiledColumn N) × (get_elem? s.columns i ≡ some c)
          × (c.primary_key ≡ true)
          × (c.nullable ≡ false)
          × (c.name ≡ s.primary_key))
        × ((i : ℕ) (c : CompiledColumn N)
            → get_elem? s.columns i ≡ some c
            → c.primary_key ≡ true
            → c.name ≡ s.primary_key)
  primary_key_unique table_name defs {s} h =
      let (r, run, shape, _, _, _, _) = compile_schema-parts table_name defs h in
      let t = compile_schema-IsTable table_name defs h in
      let (same, _, _) = compile_schema-Packed table_name defs h in
      let key : s.primary_key ≡ find_primary_key s.columns = cc shape in
      let one : count_primary (map (λ c. c.def) s.columns) ≡ 1 = rw same t.one_primary in
      let valid : All IsColumn (map (λ c. c.def) s.columns) = rw same t.columns in
      let (i, c, at, primary, named) = find_primary_key-finds s.columns (omega arith) in
      let nn = primary_not_nullable c.def (columns-IsColumn s.columns i valid at) primary in
      (
        (i, c, at, primary, nn, rw key named),
        λ j d g p. rw key (find_primary_key-only s.columns one j g p),
      )
