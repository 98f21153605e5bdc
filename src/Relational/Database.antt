-- ===== src/Relational/Database.antt =====
-- database.ts and persist.ts: the tables by name, in creation order.
use takyondb.Prelude.{
  List, [], ◌∷◌, Option, none, some, Result, ok, err, throw_if, ◌>>=◌, ◌>>◌, if◌then◌else◌, not,
  table_exists, table_not_found,
}
use takyondb.Js.Text.{Text}
use takyondb.Js.TextSet.{contains}
use takyondb.Js.Dict.{Dict, get, has, put, delete, keys}
use takyondb.Js.Value.{JsNumber}
use takyondb.Relational.Column.{ColumnDef}
use takyondb.Relational.Table.{RelationalTable, new_table}

pub record RelationalDatabase (N : Type 0) : Type 0 where
  pub tables : Dict (RelationalTable N)

abbrev pub empty_database : (N : Type 0) → RelationalDatabase N
empty_database N = record { tables = [] }

-- `Option` as the code uses it: a missing table is an error.
unfoldable pub require_table {ℓ} : {A : Type ℓ} → Option A → Result A
require_table none = err table_not_found
require_table (some t) = ok t

module _ {N : Type 0} ⦃js : JsNumber N⦄ where
  unfoldable pub create_table :
      RelationalDatabase N
      → Text
      → List (ColumnDef N)
      → Result (RelationalDatabase N × RelationalTable N)
  create_table db name columns = do
    throw_if (has name db.tables) table_exists
    t ← new_table name columns
    ok (record { tables = put name t db.tables }, t)

  -- persist.ts: a name that is there already is skipped.
  unfoldable pub boot_catalog :
      RelationalDatabase N → List (Text × List (ColumnDef N)) → Result (RelationalDatabase N)
  boot_catalog db [] = ok db
  boot_catalog db ((name, columns) ∷ defs) =
      if contains name (keys db.tables)
      then boot_catalog db defs
      else (do (db', _) ← create_table db name columns; boot_catalog db' defs)

module _ {N : Type 0} where
  unfoldable pub drop_table : RelationalDatabase N → Text → Result (RelationalDatabase N)
  drop_table db name = do
    throw_if (not (has name db.tables)) table_not_found
    ok (record { tables = delete name db.tables })

  unfoldable pub table : RelationalDatabase N → Text → Result (RelationalTable N)
  unfolding require_table
  table db name = require_table (get name db.tables)

  unfoldable pub list_tables : RelationalDatabase N → List Text
  list_tables db = keys db.tables

  -- What a write through the reference that `table` returns does to the database.
  unfoldable pub with_table : RelationalDatabase N → Text → RelationalTable N → RelationalDatabase N
  with_table db name t = record { tables = put name t db.tables }
