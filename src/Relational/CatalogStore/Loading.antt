-- ===== src/Relational/CatalogStore/Loading.antt =====
-- catalog_store.ts: a catalog file read back, its envelope checked, and its tables restored.
use takyondb.Prelude.{
  ℕ, ◌+◌, Bool, true, false, not, List, [], ◌∷◌, Option, none, some, length, Result, ok, err,
  throw_if, ◌>>=◌, ◌>>◌, unreadable_catalog, catalog_not_json, no_catalog_document,
  wrong_catalog_magic, wrong_catalog_version, missing_catalog_tables, malformed_catalog_table,
  property_of_null,
}
use takyondb.Js.Text.{Text, codes, text_beq}
use takyondb.Js.Utf8.{Utf8}
use takyondb.Js.Value.{JsNumber}
use takyondb.Js.Json.{Json, Elements, JsonText, no_element, element, array, object, property, unhex}
use takyondb.Relational.CatalogStore.{
  FileSystem, LoadedDefault, LoadedColumn, LoadedTable, plain, fresh, unread, catalog_magic,
  catalog_version,
}

module _ {N : Type 0} where
  unfoldable pub tagged_bytes : ℕ → Json N → Json N → LoadedDefault N
  unfolding unhex
  tagged_bytes next v (Json.str digits) = fresh next (unhex digits)
  tagged_bytes next v other = unread other

  -- `next` is the identity of the byte array that is made, if one is.
  unfoldable pub decode_default : ℕ → Json N → LoadedDefault N
  unfolding property tagged_bytes
  decode_default next v = elim (property (codes "__bytes_hex") v) [
    | none ↦ plain v
    | some tag ↦ tagged_bytes next v tag
  ]

  unfoldable pub load_default : ℕ → Option (Json N) → Option (LoadedDefault N)
  unfolding decode_default
  load_default next none = none
  load_default next (some v) = some (decode_default next v)

  unfoldable pub load_column : ℕ → Json N → Result (LoadedColumn N)
  unfolding property load_default
  load_column next Json.null = err property_of_null
  load_column next c = ok (record {
    name = property (codes "name") c;
    type = property (codes "type") c;
    nullable = property (codes "nullable") c;
    primary_key = property (codes "primaryKey") c;
    unique = property (codes "unique") c;
    default_value = load_default next (property (codes "defaultValue") c);
  })

  unfoldable pub load_columns : ℕ → Elements N → Result (List (LoadedColumn N))
  unfolding load_column
  load_columns next no_element = ok []
  load_columns next (element c cs) = do
    column ← load_column next c
    columns ← load_columns (next + 1) cs
    ok (column ∷ columns)

  -- `typeof t.name !== 'string' || !Array.isArray(t.columns)`
  unfoldable pub table_members : Option (Json N) → Option (Json N) → Result (Text × Elements N)
  table_members (some (Json.str name)) (some (array columns)) = ok (name, columns)
  table_members _ _ = err malformed_catalog_table

  unfoldable pub load_table : ℕ → Json N → Result (LoadedTable N)
  unfolding property table_members load_columns
  load_table next Json.null = err property_of_null
  load_table next t = do
    (name, stored) ← table_members (property (codes "name") t) (property (codes "columns") t)
    columns ← load_columns next stored
    ok (record { name = name; columns = columns })

  unfoldable pub load_tables : ℕ → Elements N → Result (List (LoadedTable N))
  unfolding load_table
  load_tables next no_element = ok []
  load_tables next (element t ts) = do
    loaded ← load_table next t
    rest ← load_tables (next + length loaded.columns) ts
    ok (loaded ∷ rest)

  -- `typeof doc !== 'object' || doc === null`
  unfoldable pub is_document : Json N → Bool
  is_document (array vs) = true
  is_document (object members) = true
  is_document _ = false

  unfoldable pub is_magic : Option (Json N) → Bool
  is_magic (some (Json.str s)) = text_beq s catalog_magic
  is_magic _ = false

  -- `Array.isArray(tables)`
  unfoldable pub require_array : Option (Json N) → Result (Elements N)
  require_array (some (array vs)) = ok vs
  require_array _ = err missing_catalog_tables

module _ {N : Type 0} ⦃js : JsNumber N⦄ where
  unfoldable pub is_version : Option (Json N) → Bool
  is_version (some (Json.num n)) = js.eq n (js.of_ℕ catalog_version)
  is_version _ = false

  unfoldable pub read_document : ℕ → Json N → Result (List (LoadedTable N))
  unfolding is_document is_magic is_version property require_array load_tables
  read_document next doc = do
    throw_if (not (is_document doc)) no_catalog_document
    throw_if (not (is_magic (property (codes "magic") doc))) wrong_catalog_magic
    throw_if (not (is_version (property (codes "version") doc))) wrong_catalog_version
    tables ← require_array (property (codes "tables") doc)
    load_tables next tables

  unfoldable pub parse_document : JsonText N → ℕ → Text → Result (List (LoadedTable N))
  unfolding read_document
  parse_document json next raw = elim (json.parse raw) [
    | none ↦ err catalog_not_json
    | some doc ↦ read_document next doc
  ]

module _ {S N : Type 0} ⦃js : JsNumber N⦄ (fs : FileSystem S) (utf8 : Utf8)
    (json : JsonText N) where
  unfoldable pub load_catalog_defs : ℕ → S → Text → Result (List (LoadedTable N))
  unfolding parse_document
  load_catalog_defs next s path = elim (fs.read_file s path) [
    | none ↦ err unreadable_catalog
    | some raw ↦ parse_document json next (utf8.decode raw)
  ]
