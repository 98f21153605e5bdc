-- ===== src/Relational/Schema.antt =====
-- schema.ts: a column list compiled into the byte offsets of a row.
pub mod Offsets
pub mod Accepts
use takyondb.Prelude.{
  ℕ, ◌+◌, Bool, true, false, ◌||◌, not, List, [], ◌∷◌, map, Option, none, some, ltb, ◌==◌, length,
  Result, ok, err, throw_if, ◌>>=◌, ◌>>◌, ite, if◌then◌else◌, invalid_table_name, bad_column_count,
  duplicate_column, bad_primary_key_count,
}
use takyondb.Js.Text.{Text}
use takyondb.Js.TextSet.{contains}
use takyondb.Js.Dict.{Dict, put}
use takyondb.Relational.Column.{ColumnDef, relational_type_size, is_name, validate_column}

pub record CompiledColumn (N : Type 0) : Type 0 where
  pub def : ColumnDef N
  pub open def use *
  pub offset : ℕ
  pub size : ℕ

pub record RelationalSchema (N : Type 0) : Type 0 where
  pub table_name : Text
  pub columns : List (CompiledColumn N)
  pub total_size : ℕ
  pub primary_key : Text
  pub by_name : Dict (CompiledColumn N)

module _ {N : Type 0} where
  -- The loop over the definitions: the columns, the number of primary keys, the final offset.
  unfoldable pub compile_columns :
      List Text → ℕ → ℕ → List (ColumnDef N) → Result (List (CompiledColumn N) × ℕ × ℕ)
  compile_columns seen pk_count offset [] = ok ([], pk_count, offset)
  compile_columns seen pk_count offset (d ∷ defs) = do
    validate_column d
    throw_if (contains d.name seen) duplicate_column
    let size = relational_type_size d.type
    (compiled, pks, end) ←
        compile_columns (d.name ∷ seen) (if d.primary_key then pk_count + 1 else pk_count)
          (offset + size) defs
    ok (record { def = d; offset = offset; size = size } ∷ compiled, pks, end)

  -- `compiled.find((c) => c.primaryKey)!.name`; the empty text where there is none
  unfoldable pub find_primary_key : List (CompiledColumn N) → Text
  find_primary_key [] = []
  find_primary_key (c ∷ cs) = if c.primary_key then c.name else find_primary_key cs

  -- `new Map(compiled.map((c) => [c.name, c]))`
  unfoldable pub index_by_name :
      Dict (CompiledColumn N) → List (CompiledColumn N) → Dict (CompiledColumn N)
  index_by_name m [] = m
  index_by_name m (c ∷ cs) = index_by_name (put c.name c m) cs

  -- the constructor of `RelationalSchema`
  unfoldable pub compile_schema : Text → List (ColumnDef N) → Result (RelationalSchema N)
  compile_schema table_name defs = do
    throw_if (not (is_name table_name)) invalid_table_name
    throw_if (length defs == 0 || ltb 32 (length defs)) bad_column_count
    (compiled, pk_count, end) ← compile_columns [] 0 4 defs
    throw_if (not (pk_count == 1)) bad_primary_key_count
    ok (record {
      table_name = table_name;
      columns = compiled;
      total_size = end;
      primary_key = find_primary_key compiled;
      by_name = index_by_name [] compiled;
    })
