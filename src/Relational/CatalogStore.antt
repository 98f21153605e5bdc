-- ===== src/Relational/CatalogStore.antt =====
-- catalog_store.ts: the definitions of the tables in a JSON file beside the engine's data.
pub mod Loading
pub mod Restoring
pub mod Saved
pub mod RoundTrip
pub mod Renewed
pub mod Booted
pub mod Restored
use takyondb.Prelude.{
  ℕ, ◌+◌, Bool, true, false, not, List, [], ◌∷◌, ◌++◌, Option, none, some, length, Result, ok, err,
  throw_if, ◌>>=◌, ◌>>◌, if◌then◌else◌, unreadable_catalog, catalog_not_json, no_catalog_document,
  wrong_catalog_magic, wrong_catalog_version, missing_catalog_tables, malformed_catalog_table,
  property_of_null,
}
use takyondb.Js.Text.{Text, codes, text_beq}
use takyondb.Js.Utf8.{Utf8}
use takyondb.Js.Value
use takyondb.Js.Value.{Value, JsNumber, hex}
use takyondb.Js.Json
use takyondb.Js.Json.{
  Json, Elements, Members, JsonText, no_element, element, no_member, member, array, object,
  property, array_of, unhex,
}
use takyondb.Relational.Column
use takyondb.Relational.Column.{RelationalType, ColumnDef}
use takyondb.Relational.Schema.{CompiledColumn, RelationalSchema}
use takyondb.Relational.Table.{RelationalTable}
use takyondb.Relational.Database.{RelationalDatabase, table, list_tables, boot_catalog}
use takyondb.Relational.Mirror.{continue_after}

-- What the code calls of `node:fs`. Reading gives `none` where it throws.
pub record FileSystem (S : Type 0) : Type 0 where
  pub make_dir : S → Text → S × Result (Unit {0})
  pub write_file : S → Text → List ℕ → S × Result (Unit {0})
  pub rename : S → Text → Text → S × Result (Unit {0})
  pub read_file : S → Text → Option (List ℕ)

abbrev pub catalog_magic : Text
catalog_magic = codes "takyon-catalog"

abbrev pub catalog_version : ℕ
catalog_version = 1

-- The strings that `RelationalType` is made of.
unfoldable pub type_name : RelationalType → Text
type_name Column.bool = codes "bool"
type_name Column.int8 = codes "int8"
type_name Column.int16 = codes "int16"
type_name Column.int32 = codes "int32"
type_name Column.int64 = codes "int64"
type_name Column.uint8 = codes "uint8"
type_name Column.uint16 = codes "uint16"
type_name Column.uint32 = codes "uint32"
type_name Column.float32 = codes "float32"
type_name Column.float64 = codes "float64"
type_name Column.string = codes "string"
type_name Column.bytes = codes "bytes"
type_name Column.timestamp_ms = codes "timestamp_ms"

module _ {N : Type 0} where
  -- `none` stands for `undefined`.
  unfoldable pub encode_default : Value N → Option (Json N)
  unfolding hex
  encode_default Value.null = some Json.null
  encode_default Value.undefined = none
  encode_default (Value.bool b) = some (Json.bool b)
  encode_default (Value.num n) = some (Json.num n)
  encode_default (Value.str s) = some (Json.str s)
  encode_default (Value.bytes i bs) =
      some (object (member (codes "__bytes_hex") (Json.str (hex bs)) no_member))

  unfoldable pub flag_member : Text → Bool → Members N → Members N
  flag_member k b rest = if b then member k (Json.bool true) rest else rest

  unfoldable pub default_member : Option (Json N) → Members N
  default_member none = no_member
  default_member (some v) = member (codes "defaultValue") v no_member

  unfoldable pub stored_column : ColumnDef N → Json N
  unfolding type_name encode_default flag_member default_member
  stored_column c = object (
      member (codes "name") (Json.str c.name) (
        member (codes "type") (Json.str (type_name c.type)) (
          flag_member (codes "nullable") c.nullable (
            flag_member (codes "primaryKey") c.primary_key (
              flag_member (codes "unique") c.unique
                (default_member (encode_default c.default_value)))))))

  unfoldable pub stored_columns : List (CompiledColumn N) → List (Json N)
  unfolding stored_column
  stored_columns [] = []
  stored_columns (c ∷ cs) = stored_column c.def ∷ stored_columns cs

  unfoldable pub stored_table : RelationalSchema N → Json N
  unfolding stored_columns array_of
  stored_table schema = object (
      member (codes "name") (Json.str schema.table_name)
        (member (codes "columns") (array (array_of (stored_columns schema.columns))) no_member))

  unfoldable pub snapshot_tables : RelationalDatabase N → List Text → Result (List (Json N))
  unfolding table stored_table
  snapshot_tables db [] = ok []
  snapshot_tables db (name ∷ names) = do
    t ← table db name
    rest ← snapshot_tables db names
    ok (stored_table t.schema ∷ rest)

  unfoldable pub snapshot_catalog : RelationalDatabase N → Result (List (Json N))
  unfolding list_tables snapshot_tables
  snapshot_catalog db = snapshot_tables db (list_tables db)

module _ {N : Type 0} ⦃js : JsNumber N⦄ where
  unfoldable pub catalog_document : List (Json N) → Json N
  unfolding array_of
  catalog_document tables = object (
      member (codes "magic") (Json.str catalog_magic) (
        member (codes "version") (Json.num (js.of_ℕ catalog_version))
          (member (codes "tables") (array (array_of tables)) no_member)))

abbrev pub temporary : Text → Text
temporary path = path ++ codes ".tmp"

module _ {S N : Type 0} ⦃js : JsNumber N⦄ (fs : FileSystem S) (dirname : Text → Text) (utf8 : Utf8)
    (json : JsonText N) where
  -- The document goes to a temporary file, which then takes the path's place.
  unfoldable pub write_document : S → Text → Result (List (Json N)) → S × Result (Unit {0})
  unfolding catalog_document continue_after
  write_document s path (err e) = (s, err e)
  write_document s path (ok tables) =
      continue_after
        (fs.write_file s (temporary path) (utf8.encode (json.stringify (catalog_document tables))))
        (λ s'. fs.rename s' (temporary path) path)

  unfoldable pub save_catalog : S → RelationalDatabase N → Text → S × Result (Unit {0})
  unfolding snapshot_catalog write_document continue_after
  save_catalog s db path =
      continue_after (fs.make_dir s (dirname path))
        (λ s'. write_document s' path (snapshot_catalog db))

-- A default as it is loaded: a value of the document, or a new byte array with its identity. What
-- `Buffer.from` makes of a tag that is no text is left open.
pub data LoadedDefault (N : Type 0) : Type 0 where
  plain : Json N → LoadedDefault N
  fresh : ℕ → List ℕ → LoadedDefault N
  unread : Json N → LoadedDefault N

-- The members of a column as the file has them; `none` stands for `undefined`.
pub record LoadedColumn (N : Type 0) : Type 0 where
  pub name : Option (Json N)
  pub type : Option (Json N)
  pub nullable : Option (Json N)
  pub primary_key : Option (Json N)
  pub unique : Option (Json N)
  pub default_value : Option (LoadedDefault N)

pub record LoadedTable (N : Type 0) : Type 0 where
  pub name : Text
  pub columns : List (LoadedColumn N)
