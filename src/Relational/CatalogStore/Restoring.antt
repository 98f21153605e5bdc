-- ===== src/Relational/CatalogStore/Restoring.antt =====
-- catalog_store.ts: the tables of a catalog file restored into a database.
use takyondb.Prelude.{ℕ, Bool, false, List, [], ◌∷◌, Option, none, some, Result, ok, err}
use takyondb.Js.Text.{Text}
use takyondb.Js.Dict.{Dict, get}
use takyondb.Js.Utf8.{Utf8}
use takyondb.Js.Value.{Value, JsNumber}
use takyondb.Js.Json.{Json, JsonText}
use takyondb.Relational.Column
use takyondb.Relational.Column.{RelationalType, ColumnDef}
use takyondb.Relational.Database.{RelationalDatabase, boot_catalog}
use takyondb.Relational.CatalogStore.{
  FileSystem, LoadedDefault, LoadedColumn, LoadedTable, plain, fresh, type_name,
}
use takyondb.Relational.CatalogStore.Loading.{load_catalog_defs}

infixl 5 ◌>>=◌
-- A part that the model's types do not hold ends the whole.
abbrev pub ◌>>=◌ {ℓ κ} : {A : Type ℓ} {B : Type κ} → Option A → (A → Option B) → Option B
none >>= next = none
some value >>= next = next value

-- The column types by the strings that they are.
unfoldable pub named_types : Dict RelationalType
unfolding type_name
named_types =
    (type_name Column.bool, Column.bool)
    ∷ (type_name Column.int8, Column.int8)
    ∷ (type_name Column.int16, Column.int16)
    ∷ (type_name Column.int32, Column.int32)
    ∷ (type_name Column.int64, Column.int64)
    ∷ (type_name Column.uint8, Column.uint8)
    ∷ (type_name Column.uint16, Column.uint16)
    ∷ (type_name Column.uint32, Column.uint32)
    ∷ (type_name Column.float32, Column.float32)
    ∷ (type_name Column.float64, Column.float64)
    ∷ (type_name Column.string, Column.string)
    ∷ (type_name Column.bytes, Column.bytes)
    ∷ (type_name Column.timestamp_ms, Column.timestamp_ms)
    ∷ []

-- The loaded definitions as the types declare them. `none` is a file whose columns hold members of
-- other types, which the code passes on as they are.
module _ {N : Type 0} where
  unfoldable pub as_name : Option (Json N) → Option Text
  as_name (some (Json.str s)) = some s
  as_name _ = none

  unfoldable pub as_type : Option (Json N) → Option RelationalType
  unfolding get named_types
  as_type (some (Json.str s)) = get s named_types
  as_type _ = none

  unfoldable pub as_flag : Option (Json N) → Option Bool
  as_flag none = some false
  as_flag (some (Json.bool b)) = some b
  as_flag (some _) = none

  unfoldable pub as_default : Option (LoadedDefault N) → Option (Value N)
  as_default none = some Value.undefined
  as_default (some (plain Json.null)) = some Value.null
  as_default (some (plain (Json.bool b))) = some (Value.bool b)
  as_default (some (plain (Json.num n))) = some (Value.num n)
  as_default (some (plain (Json.str s))) = some (Value.str s)
  as_default (some (fresh i bs)) = some (Value.bytes i bs)
  as_default (some _) = none

  unfoldable pub as_column : LoadedColumn N → Option (ColumnDef N)
  unfolding as_name as_type as_flag as_default
  as_column c = do
    name ← as_name c.name
    type ← as_type c.type
    nullable ← as_flag c.nullable
    primary_key ← as_flag c.primary_key
    unique ← as_flag c.unique
    default_value ← as_default c.default_value
    some (record {
      name = name;
      type = type;
      nullable = nullable;
      primary_key = primary_key;
      unique = unique;
      default_value = default_value;
    })

  unfoldable pub as_columns : List (LoadedColumn N) → Option (List (ColumnDef N))
  unfolding as_column
  as_columns [] = some []
  as_columns (c ∷ cs) = do def ← as_column c; defs ← as_columns cs; some (def ∷ defs)

  unfoldable pub as_definitions : List (LoadedTable N) → Option (List (Text × List (ColumnDef N)))
  unfolding as_columns
  as_definitions [] = some []
  as_definitions (t ∷ ts) = do
    columns ← as_columns t.columns
    rest ← as_definitions ts
    some ((t.name, columns) ∷ rest)

module _ {S N : Type 0} ⦃js : JsNumber N⦄ (fs : FileSystem S) (utf8 : Utf8)
    (json : JsonText N) where
  unfoldable pub restore_catalog :
      ℕ → S → RelationalDatabase N → Text → Option (Result (RelationalDatabase N))
  unfolding load_catalog_defs as_definitions
  restore_catalog next s db path = elim (load_catalog_defs fs utf8 json next s path) [
    | err e ↦ some (err e)
    | ok tables ↦ do defs ← as_definitions tables; some (boot_catalog db defs)
  ]
