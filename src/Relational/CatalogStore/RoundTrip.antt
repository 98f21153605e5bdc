-- ===== src/Relational/CatalogStore/RoundTrip.antt =====
-- catalog_store.ts: what `saveCatalog` wrote is what `restoreCatalog` boots from.
use takyondb.Prelude.{
  ℕ, ◌+◌, ◌≡◌, refl, ap, Bool-cases, if_pos, List, [], ◌∷◌, map, none, some, length, ok, All, arith,
  sym, true, if_neg, ◌∙◌,
}
use takyondb.Js.Text.{Text, text_dec}
use takyondb.Js.Dict.{Dict, IsDistinct, get, keys, values}
use takyondb.Js.Utf8.{Utf8, Survives}
use takyondb.Js.Value.{JsNumber}
use takyondb.Js.Json.{Json, Elements, element, JsonText, array_of, find_member, property}
use takyondb.Relational.Schema.{CompiledColumn}
use takyondb.Relational.Table.{RelationalTable}
use takyondb.Relational.Database.{
  RelationalDatabase, table, require_table, list_tables, boot_catalog,
}
use takyondb.Relational.Mirror.Sync.{continue_after-inv}
use takyondb.Relational.CatalogStore.{
  FileSystem, LoadedColumn, LoadedTable, stored_column, stored_columns, stored_table,
  snapshot_tables, snapshot_catalog, catalog_document, catalog_version, temporary, write_document,
  save_catalog,
}
use takyondb.Relational.CatalogStore.Loading.{
  load_column, load_columns, table_members, load_table, load_tables, is_document, is_magic,
  is_version, require_array, read_document, parse_document, load_catalog_defs,
}
use takyondb.Relational.CatalogStore.Restoring.{as_columns, as_definitions, restore_catalog}
use takyondb.Relational.CatalogStore.Saved.{
  HoldsBytes, renewed_columns, definitions, load_column-stored_column,
}

-- What is documented of the calls: a file that was written holds what was written, and one that was
-- renamed is found under its new name.
pub record FileLaws {S : Type 0} (fs : FileSystem S) : Type 0 where
  pub written :
      (s s' : S) (path : Text) (bytes : List ℕ)
      → fs.write_file s path bytes ≡ (s', ok tt)
      → fs.read_file s' path ≡ some bytes
  pub renamed :
      (s s' : S) (from to : Text)
      → fs.rename s from to ≡ (s', ok tt)
      → fs.read_file s' to ≡ fs.read_file s from

module _ {N : Type 0} where
  -- The defaults of the columns hold bytes where they hold byte arrays.
  abbrev pub ColumnsHoldBytes : List (CompiledColumn N) → Type 0
  ColumnsHoldBytes = All (λ c. HoldsBytes c.def.default_value)

  abbrev pub TablesHoldBytes : List (RelationalTable N) → Type 0
  TablesHoldBytes = All (λ t. ColumnsHoldBytes t.schema.columns)

  load_columns-cons :
      (next : ℕ) (c : Json N) (cs : Elements N) (l : LoadedColumn N) (ls : List (LoadedColumn N))
      → load_column next c ≡ ok l
      → load_columns (next + 1) cs ≡ ok ls
      → load_columns next (element c cs) ≡ ok (l ∷ ls)
  unfolding load_columns
  load_columns-cons next c cs l ls load loads = rw load (rw loads refl)

  load_columns-stored_columns :
      (next : ℕ) (cs : List (CompiledColumn N))
      → ColumnsHoldBytes cs
      → (ls : List (LoadedColumn N)) × (load_columns next (array_of (stored_columns cs)) ≡ ok ls)
        × (as_columns ls ≡ some (renewed_columns next cs))
        × (length ls ≡ length cs)
  unfolding load_columns array_of stored_columns as_columns
  load_columns-stored_columns next [] holds = ([], refl, refl, refl)
  load_columns-stored_columns next (c ∷ cs) holds =
      let (l, load, typed) = load_column-stored_column next c.def holds.0 in
      let (ls, loads, typeds, count) = load_columns-stored_columns (next + 1) cs holds.1 in
      (
        l ∷ ls,
        load_columns-cons next (stored_column c.def) (array_of (stored_columns cs)) l ls load loads,
        rw typed (rw typeds refl),
        omega (arith, count),
      )

  load_table-stored_table :
      (next : ℕ) (t : RelationalTable N)
      → ColumnsHoldBytes t.schema.columns
      → (ls : List (LoadedColumn N)) × (load_table next (stored_table t.schema)
          ≡ ok (record { name = t.schema.table_name; columns = ls }))
        × (as_columns ls ≡ some (renewed_columns next t.schema.columns))
        × (length ls ≡ length t.schema.columns)
  unfolding load_table stored_table table_members property find_member text_dec Bool-cases
  load_table-stored_table next t holds =
      let (ls, loads, typed, count) = load_columns-stored_columns next t.schema.columns holds in
      (ls, rw loads refl, typed, count)

  abbrev stored_tables : List (RelationalTable N) → List (Json N)
  stored_tables = map (λ t. stored_table t.schema)

  load_tables-stored_tables :
      (next : ℕ) (ts : List (RelationalTable N))
      → TablesHoldBytes ts
      → (ls : List (LoadedTable N)) × (load_tables next (array_of (stored_tables ts)) ≡ ok ls)
        × (as_definitions ls ≡ some (definitions next ts))
  unfolding load_tables array_of as_definitions
  load_tables-stored_tables next [] holds = ([], refl, refl)
  load_tables-stored_tables next (t ∷ ts) holds =
      let (cs, load, typed, count) = load_table-stored_table next t holds.0 in
      let (ls, loads, typeds) =
        load_tables-stored_tables (next + length t.schema.columns) ts holds.1 in
      (
        record { name = t.schema.table_name; columns = cs } ∷ ls,
        rw load (rw count (rw loads refl)),
        rw typed (rw typeds refl),
      )

  -- The entries are found in the database under their names.
  abbrev Holds : RelationalDatabase N → Dict (RelationalTable N) → Type 0
  Holds db = All (λ e. get e.0 db.tables ≡ some e.1)

  snapshot_tables-keys :
      (db : RelationalDatabase N) (es : Dict (RelationalTable N))
      → Holds db es
      → snapshot_tables db (keys es) ≡ ok (stored_tables (values es))
  unfolding snapshot_tables table require_table
  snapshot_tables-keys db [] h = refl
  snapshot_tables-keys db (e ∷ es) h = rw h.0 (rw (snapshot_tables-keys db es h.1) refl)

  found_behind :
      (k : Text) (v : RelationalTable N) (m es : Dict (RelationalTable N))
      → get k m ≡ none
      → All (λ e. get e.0 m ≡ some e.1) es
      → All (λ e. get e.0 ((k, v) ∷ m) ≡ some e.1) es
  unfolding get
  found_behind k v m [] new h = tt
  found_behind k v m (e ∷ es) new h = (
    elim (text_dec k e.0) [
      | yes same ↦ absurd (cc (new, ap (λ j. get j m) same, h.0))
      | no other ↦ if_neg (text_dec k e.0) other _ _ ∙ h.0
    ],
    found_behind k v m es new h.1,
  )

  distinct_found :
      (es : Dict (RelationalTable N)) → IsDistinct es → All (λ e. get e.0 es ≡ some e.1) es
  unfolding get
  distinct_found [] d = tt
  distinct_found ((k, v) ∷ es) d =
      (if_pos (text_dec k k) refl _ _, found_behind k v es es d.0 (distinct_found es d.1))

  snapshot_catalog-lem :
      (db : RelationalDatabase N)
      → IsDistinct db.tables
      → snapshot_catalog db ≡ ok (stored_tables (values db.tables))
  unfolding snapshot_catalog list_tables
  snapshot_catalog-lem db d = snapshot_tables-keys db db.tables (distinct_found db.tables d)

module _ {N : Type 0} ⦃js : JsNumber N⦄ where
  read_document-catalog_document :
      (next : ℕ) (ts : List (RelationalTable N))
      → js.eq (js.of_ℕ catalog_version) (js.of_ℕ catalog_version) ≡ true
      → TablesHoldBytes ts
      → (ls : List (LoadedTable N)) × (read_document next (catalog_document (stored_tables ts))
          ≡ ok ls)
        × (as_definitions ls ≡ some (definitions next ts))
  unfolding read_document catalog_document is_document is_magic is_version require_array property
      find_member text_dec Bool-cases
  read_document-catalog_document next ts one holds =
      let (ls, loads, typed) = load_tables-stored_tables next ts holds in (ls, rw one loads, typed)

module _ {S N : Type 0} ⦃js : JsNumber N⦄ (fs : FileSystem S) (dirname : Text → Text) (utf8 : Utf8)
    (json : JsonText N) where
  write_document-writes :
      FileLaws fs
      → (s s' : S) (path : Text) (tables : List (Json N))
      → write_document fs dirname utf8 json s path (ok tables) ≡ (s', ok tt)
      → fs.read_file s' path ≡ some (utf8.encode (json.stringify (catalog_document tables)))
  unfolding write_document
  write_document-writes laws s s' path tables done =
      let bytes = utf8.encode (json.stringify (catalog_document tables)) in
      let (mid, wrote, moved) =
        continue_after-inv (fs.write_file s (temporary path) bytes)
          (λ m. fs.rename m (temporary path) path) done in
      laws.renamed mid s' (temporary path) path moved
      ∙ laws.written s mid (temporary path) bytes wrote

  -- A save that returned has left the text of the document under the path.
  save_catalog-writes :
      FileLaws fs
      → (s s' : S) (db : RelationalDatabase N) (path : Text) → IsDistinct db.tables
      → save_catalog fs dirname utf8 json s db path ≡ (s', ok tt)
      → fs.read_file s' path
        ≡ some (utf8.encode (json.stringify (catalog_document (stored_tables (values db.tables)))))
  unfolding save_catalog
  save_catalog-writes laws s s' db path d saved =
      let write = write_document fs dirname utf8 json in
      let (mid, made, rest) =
        continue_after-inv (fs.make_dir s (dirname path)) (λ m. write m path (snapshot_catalog db))
          saved in
      write_document-writes laws mid s' path (stored_tables (values db.tables))
        (ap (write mid path) (sym (snapshot_catalog-lem db d)) ∙ rest)

  -- The text that is written can be encoded and parsed back.
  abbrev pub ComesBack : RelationalDatabase N → Type 0
  ComesBack db =
      let doc = catalog_document (stored_tables (values db.tables)) in
      Survives utf8 (json.stringify doc) × (json.parse (json.stringify doc) ≡ some doc)

  -- Restoring a file that was saved boots the definitions of the saved tables.
  pub restore_catalog-boots :
      FileLaws fs
      → (s s' : S) (db other : RelationalDatabase N) (path : Text) (next : ℕ) → IsDistinct db.tables
      → TablesHoldBytes (values db.tables)
      → js.eq (js.of_ℕ catalog_version) (js.of_ℕ catalog_version) ≡ true
      → ComesBack db
      → save_catalog fs dirname utf8 json s db path ≡ (s', ok tt)
      → restore_catalog fs utf8 json next s' other path
        ≡ some (boot_catalog other (definitions next (values db.tables)))
  unfolding restore_catalog load_catalog_defs parse_document
  restore_catalog-boots laws s s' db other path next d holds one back saved =
      let (ls, loads, typed) = read_document-catalog_document next (values db.tables) one holds in
      rw
        (
          save_catalog-writes laws s s' db path d saved,
          restore_catalog,
          load_catalog_defs,
          parse_document,
        )
        (rw back.0 (rw back.1 (rw loads (rw typed refl))))
