-- ===== src/Relational/CatalogStore/Restored.antt =====
-- catalog_store.ts: the tables survive in the file.
use takyondb.Prelude.{ℕ, ◌≡◌, true, some, ok, ◌∙◌, ap}
use takyondb.Js.Text.{Text}
use takyondb.Js.Dict.{IsDistinct, values}
use takyondb.Js.Utf8.{Utf8}
use takyondb.Js.Value.{JsNumber}
use takyondb.Js.Json.{JsonText}
use takyondb.Relational.Database.{RelationalDatabase, empty_database}
use takyondb.Relational.CatalogStore.{FileSystem, catalog_version, save_catalog}
use takyondb.Relational.CatalogStore.Restoring.{restore_catalog}
use takyondb.Relational.CatalogStore.Saved.{definitions}
use takyondb.Relational.CatalogStore.RoundTrip.{
  FileLaws, TablesHoldBytes, ComesBack, restore_catalog-boots,
}
use takyondb.Relational.CatalogStore.Booted.{
  IsCatalog, NoRows, AreNew-empty, catalog, boot_catalog-definitions,
}

module _ {S N : Type 0} ⦃js : JsNumber N⦄ (fs : FileSystem S) (dirname : Text → Text) (utf8 : Utf8)
    (json : JsonText N) where
  -- With a file system that keeps what is written, for a document whose text can be encoded and
  -- parsed back, and a database whose names are distinct, whose tables stand under their own
  -- names with columns that the schema accepts, and whose byte arrays hold bytes: if a save
  -- returns, then restoring the file into an empty database gives the same tables in the same
  -- order, with the same definitions of their columns, byte arrays as new objects, and without
  -- rows.
  pub restore_catalog-save_catalog :
      FileLaws fs
      → (s s' : S) (db : RelationalDatabase N) (path : Text) (next : ℕ) → IsDistinct db.tables
      → IsCatalog db.tables
      → TablesHoldBytes (values db.tables)
      → js.eq (js.of_ℕ catalog_version) (js.of_ℕ catalog_version) ≡ true
      → ComesBack fs dirname utf8 json db
      → save_catalog fs dirname utf8 json s db path ≡ (s', ok tt)
      → (db' : RelationalDatabase N) × (restore_catalog fs utf8 json next s' (empty_database N) path
          ≡ some (ok db'))
        × (catalog db'.tables ≡ definitions next (values db.tables))
        × NoRows db'.tables
  restore_catalog-save_catalog laws s s' db path next d made holds one back saved =
      let (db', boots, kept, bare) =
        boot_catalog-definitions next db.tables (empty_database N) made d (AreNew-empty db.tables)
          tt in
      (
        db',
        restore_catalog-boots fs dirname utf8 json laws s s' db (empty_database N) path next d holds
              one back saved
            ∙ ap some boots,
        kept,
        bare,
      )
