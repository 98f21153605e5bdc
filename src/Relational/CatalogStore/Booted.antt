-- ===== src/Relational/CatalogStore/Booted.antt =====
-- catalog_store.ts and persist.ts: the definitions of a saved database make its tables again.
use mathlib.Core.List.{append-nil, append_assoc}
use takyondb.Prelude.{
  ite, >>=-eq-ok, throw_if, table_exists, subst, ◌≢◌, ℕ, ◌+◌, ◌≡◌, refl, ap, sym, ◌∙◌, false, List,
  [], ◌∷◌, ◌++◌, map, none, some, length, ok, All, arith, if_neg,
}
use takyondb.Js.Text.{Text, text_dec}
use takyondb.Js.TextSet.{contains}
use takyondb.Js.Dict.{Dict, IsDistinct, get, has, put, keys, values, get-put, put_new}
use takyondb.Js.Value.{JsNumber}
use takyondb.Relational.Column.{ColumnDef}
use takyondb.Relational.Schema.{compile_schema}
use takyondb.Relational.Schema.Accepts.{IsTable, compile_schema-accepts_iff}
use takyondb.Relational.Schema.Offsets.{compile_schema-Packed}
use takyondb.Relational.Table.{RelationalTable, new_table, make_secondary}
use takyondb.Relational.Database.{RelationalDatabase, create_table, boot_catalog}
use takyondb.Relational.CatalogStore.Renewed.{column_defs, renewed_columns-IsTable}
use takyondb.Relational.CatalogStore.Saved.{renewed_columns, definitions}

module _ {N : Type 0} ⦃js : JsNumber N⦄ where
  -- A definition that the constructor takes makes a table with these columns and no rows.
  new_table-makes :
      (name : Text) (defs : List (ColumnDef N))
      → IsTable name defs
      → (t : RelationalTable N) × (new_table name defs ≡ ok t)
        × (column_defs t.schema.columns ≡ defs)
        × (t.rows ≡ [])
  unfolding new_table
  new_table-makes name defs table =
      let (s, run) = (compile_schema-accepts_iff name defs).1 table in
      (
        record { schema = s; rows = []; secondary = make_secondary [] s.columns },
        rw run refl,
        (compile_schema-Packed name defs run).0,
        refl,
      )

module _ {N : Type 0} where
  abbrev pub catalog : Dict (RelationalTable N) → List (Text × List (ColumnDef N))
  catalog = map (λ e. (e.0, column_defs e.1.schema.columns))

  abbrev pub NoRows : Dict (RelationalTable N) → Type 0
  NoRows = All (λ e. e.1.rows ≡ [])

  has-none : (k : Text) (m : Dict (RelationalTable N)) → get k m ≡ none → has k m ≡ false
  unfolding has
  has-none k m absent = rw (absent, has) refl

  contains-keys : (k : Text) (m : Dict (RelationalTable N)) → contains k (keys m) ≡ has k m
  unfolding contains has get
  contains-keys k [] = refl
  contains-keys k ((j, t) ∷ m) = ground (arith, contains-keys k m)

module _ {N : Type 0} where
  -- Every table stands under its own name, and its columns are ones that the constructor takes.
  abbrev pub IsCatalog : Dict (RelationalTable N) → Type 0
  IsCatalog =
      All (λ e. (e.1.schema.table_name ≡ e.0) × IsTable e.0 (column_defs e.1.schema.columns))

  IsCatalog-put :
      (k : Text) (t : RelationalTable N) (m : Dict (RelationalTable N))
      → (t.schema.table_name ≡ k) × IsTable k (column_defs t.schema.columns)
      → IsCatalog m
      → IsCatalog (put k t m)
  unfolding put
  IsCatalog-put k t [] entry made = (entry, tt)
  IsCatalog-put k t ((j, u) ∷ m) entry made =
      elim (text_dec j k) as (λ d. IsCatalog (ite d ((k, t) ∷ m) ((j, u) ∷ put k t m))) [
        | yes same ↦ (entry, made.1)
        | no other ↦ (made.0, IsCatalog-put k t m entry made.1)
      ]

  -- No name of the one is a name of the other.
  abbrev AreNew : Dict (RelationalTable N) → Dict (RelationalTable N) → Type 0
  AreNew es m = All (λ e. get e.0 m ≡ none) es

  pub AreNew-empty : (es : Dict (RelationalTable N)) → AreNew es []
  unfolding get
  AreNew-empty [] = tt
  AreNew-empty (e ∷ es) = (refl, AreNew-empty es)

  other_key :
      (k : Text) (e : Text × RelationalTable N) (es : Dict (RelationalTable N))
      → get k (e ∷ es) ≡ none
      → (k ≢ e.0) × (get k es ≡ none)
  unfolding get
  other_key k e es h = ground arith

  AreNew-put :
      (k : Text) (t : RelationalTable N) (es m : Dict (RelationalTable N))
      → get k es ≡ none
      → AreNew es m
      → AreNew es (put k t m)
  AreNew-put k t [] m other new = tt
  AreNew-put k t (e ∷ es) m other new =
      let (differs, absent) = other_key k e es other in
      (
        get-put k e.0 t m ∙ if_neg (text_dec k e.0) differs (some t) (get e.0 m) ∙ new.0,
        AreNew-put k t es m absent new.1,
      )

  NoRows-append :
      (m : Dict (RelationalTable N)) (k : Text) (t : RelationalTable N)
      → NoRows m
      → t.rows ≡ []
      → NoRows (m ++ (k, t) ∷ [])
  NoRows-append [] k t empty blank = (blank, tt)
  NoRows-append (e ∷ m) k t empty blank = (empty.0, NoRows-append m k t empty.1 blank)

  catalog-append :
      (m : Dict (RelationalTable N)) (k : Text) (t : RelationalTable N)
      → catalog (m ++ (k, t) ∷ []) ≡ catalog m ++ (k, column_defs t.schema.columns) ∷ []
  catalog-append [] k t = refl
  catalog-append (e ∷ m) k t =
      ap (λ ds. (e.0, column_defs e.1.schema.columns) ∷ ds) (catalog-append m k t)

module _ {N : Type 0} ⦃js : JsNumber N⦄ where
  boot_catalog-cons :
      (db : RelationalDatabase N) (name : Text) (columns : List (ColumnDef N))
      (defs : List (Text × List (ColumnDef N))) (t : RelationalTable N)
      → get name db.tables ≡ none
      → new_table name columns ≡ ok t
      → boot_catalog db ((name, columns) ∷ defs)
        ≡ boot_catalog (record { tables = put name t db.tables }) defs
  unfolding boot_catalog create_table
  boot_catalog-cons db name columns defs t absent made =
      rw (contains-keys name db.tables)
        (rw (has-none name db.tables absent, create_table) (rw made refl))

  new_table-schema :
      (name : Text) (columns : List (ColumnDef N)) {t : RelationalTable N}
      → new_table name columns ≡ ok t
      → (compile_schema name columns ≡ ok t.schema) × (t.schema.table_name ≡ name)
  unfolding new_table compile_schema
  new_table-schema name columns h = ground arith

  -- Every database that `create_table` builds is such a catalog.
  create_table-IsCatalog :
      (db : RelationalDatabase N) (name : Text) (columns : List (ColumnDef N))
      {db' : RelationalDatabase N} {t : RelationalTable N}
      → IsCatalog db.tables
      → create_table db name columns ≡ ok (db', t)
      → IsCatalog db'.tables
  unfolding create_table
  create_table-IsCatalog db name columns {db'} {t} made created =
      let (checked, _, rest) = >>=-eq-ok (throw_if (has name db.tables) table_exists) _ created in
      let (t0, ran, done) = >>=-eq-ok (new_table name columns) _ rest in
      let (compiled, named) = new_table-schema name columns ran in
      let same = (compile_schema-Packed name columns compiled).0 in
      let table = (compile_schema-accepts_iff name columns).0 (t0.schema, compiled) in
      subst (λ (d : RelationalDatabase N). IsCatalog d.tables) (ground arith)
        (IsCatalog-put name t0 db.tables (named, subst (IsTable name) (sym same) table) made)

  pub boot_catalog-definitions :
      (next : ℕ) (es : Dict (RelationalTable N)) (db : RelationalDatabase N)
      → IsCatalog es
      → IsDistinct es
      → AreNew es db.tables
      → NoRows db.tables
      → (db' : RelationalDatabase N) × (boot_catalog db (definitions next (values es)) ≡ ok db')
        × (catalog db'.tables ≡ catalog db.tables ++ definitions next (values es))
        × NoRows db'.tables
  unfolding boot_catalog
  boot_catalog-definitions next [] db made d new empty =
      (db, refl, sym (append-nil (catalog db.tables)), empty)
  boot_catalog-definitions next ((name, old) ∷ es) db made d new empty =
      let columns = renewed_columns next old.schema.columns in
      let (t, run, kept, blank) =
        new_table-makes name columns
          (renewed_columns-IsTable name next old.schema.columns made.0.1) in
      let added = put_new name t db.tables new.0 in
      let (db', boots, holds, bare) =
        boot_catalog-definitions (next + length old.schema.columns) es
          (record { tables = put name t db.tables }) made.1 d.1
          (AreNew-put name t es db.tables d.0 new.1)
          (rw added (NoRows-append db.tables name t empty blank)) in
      let rest = definitions (next + length old.schema.columns) (values es) in
      (
        db',
        rw made.0.0 (boot_catalog-cons db name columns rest t new.0 run ∙ boots),
        rw made.0.0 (
            holds
            ∙ ap (λ ds. ds ++ rest)
                (ap catalog added
                  ∙ catalog-append db.tables name t
                  ∙ ap (λ ds. catalog db.tables ++ (name, ds) ∷ []) kept)
            ∙ append_assoc (catalog db.tables) ((name, columns) ∷ []) rest),
        bare,
      )
