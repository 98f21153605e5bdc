-- ===== src/Relational/CatalogStore/Renewed.antt =====
-- catalog_store.ts: new byte arrays as defaults leave the columns ones that the schema accepts.
use takyondb.Prelude.{ℕ, suc, ◌+◌, ◌≡◌, refl, ap, ◌∙◌, List, [], ◌∷◌, map, length, All}
use takyondb.Js.Text.{Text}
use takyondb.Js.TextSet.{contains}
use takyondb.Relational.Column.{ColumnDef}
use takyondb.Relational.Schema.{CompiledColumn}
use takyondb.Relational.Schema.Accepts.{IsTable, IsColumn, Apart, names, count_primary}
use takyondb.Relational.CatalogStore.Saved.{renewed_columns}

module _ {N : Type 0} where
  abbrev pub column_defs : List (CompiledColumn N) → List (ColumnDef N)
  column_defs = map (λ c. c.def)

  renewed_columns-names :
      (next : ℕ) (cs : List (CompiledColumn N))
      → names (renewed_columns next cs) ≡ names (column_defs cs)
  renewed_columns-names next [] = refl
  renewed_columns-names next (c ∷ cs) = ap (λ ns. c.name ∷ ns) (renewed_columns-names (next + 1) cs)

  renewed_columns-valid :
      (next : ℕ) (cs : List (CompiledColumn N))
      → All IsColumn (column_defs cs)
      → All IsColumn (renewed_columns next cs)
  renewed_columns-valid next [] valid = tt
  renewed_columns-valid next (c ∷ cs) valid =
      let (here, rest) = valid in
      (
        record { named = here.named; short = here.short; not_nullable = here.not_nullable },
        renewed_columns-valid (next + 1) cs rest,
      )

  renewed_columns-Apart :
      (next : ℕ) (cs : List (CompiledColumn N))
      → Apart (column_defs cs)
      → Apart (renewed_columns next cs)
  renewed_columns-Apart next [] apart = tt
  renewed_columns-Apart next (c ∷ cs) apart = (
    ap (contains c.name) (renewed_columns-names (next + 1) cs) ∙ apart.0,
    renewed_columns-Apart (next + 1) cs apart.1,
  )

  renewed_columns-counts :
      (next : ℕ) (cs : List (CompiledColumn N))
      → (count_primary (renewed_columns next cs) ≡ count_primary (column_defs cs))
        × (length (renewed_columns next cs) ≡ length (column_defs cs))
  renewed_columns-counts next [] = (refl, refl)
  renewed_columns-counts next (c ∷ cs) =
      let (primary, all) = renewed_columns-counts (next + 1) cs in (rw primary refl, ap suc all)

  -- New byte arrays as defaults change nothing of what the constructor of the schema asks.
  pub renewed_columns-IsTable :
      (name : Text) (next : ℕ) (cs : List (CompiledColumn N))
      → IsTable name (column_defs cs)
      → IsTable name (renewed_columns next cs)
  renewed_columns-IsTable name next cs table =
      let (primary, all) = renewed_columns-counts next cs in
      record {
        named = table.named;
        some_column = rw all table.some_column;
        few_columns = rw all table.few_columns;
        columns = renewed_columns-valid next cs table.columns;
        apart = renewed_columns-Apart next cs table.apart;
        one_primary = primary ∙ table.one_primary;
      }
