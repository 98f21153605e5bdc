-- ===== src/Tests/Restored.antt =====
-- The theorem on catalog files, on a file system that is a map from paths to bytes, and a JSON
-- parser that knows one text.
use takyondb.Prelude.{
  ℕ, ◌≡◌, refl, true, false, List, [], ◌∷◌, Option, none, some, Result, ok, err, ap, if_pos,
  if◌then◌else◌, ◌∙◌, sym, unreadable_catalog, arith,
}
use takyondb.Js.Text.{Text, codes, text_dec, text_beq}
use takyondb.Js.Dict.{Dict, get, put, delete, get-put, values}
use takyondb.Js.Value.{bytes}
use takyondb.Js.Json.{Json, JsonText}
use takyondb.Relational.Column
use takyondb.Relational.Column.{ColumnDef}
use takyondb.Relational.Schema.{CompiledColumn, RelationalSchema, compile_schema}
use takyondb.Relational.Database.{
  RelationalDatabase, table, require_table, list_tables, empty_database,
}
use takyondb.Relational.Mirror.{continue_after}
use takyondb.Relational.CatalogStore.{
  FileSystem, stored_table, snapshot_tables, snapshot_catalog, catalog_document, write_document,
  save_catalog,
}
use takyondb.Relational.CatalogStore.Restoring.{restore_catalog}
use takyondb.Relational.CatalogStore.Saved.{definitions}
use takyondb.Relational.CatalogStore.RoundTrip.{FileLaws}
use takyondb.Relational.CatalogStore.Booted.{NoRows, catalog}
use takyondb.Relational.CatalogStore.Restored.{restore_catalog-save_catalog}
use takyondb.Relational.Schema.Accepts.{compile_schema-accepts_iff}
use takyondb.Tests.Catalog.{ascii}
use takyondb.Tests.Sample.{natural, program, users, id_column, id, no_users}

abbrev Files : Type 0
Files = Dict (List ℕ)

abbrev moved_file : Files → Text → Text → Option (List ℕ) → Files × Result (Unit {0})
moved_file s from to none = (s, err unreadable_catalog)
moved_file s from to (some bs) = (put to bs (delete from s), ok tt)

abbrev files : FileSystem Files
files = record {
  make_dir = λ s path. (s, ok tt);
  write_file = λ s path bs. (put path bs s, ok tt);
  rename = λ s from to. moved_file s from to (get from s);
  read_file = λ s path. get path s;
}

get-put_same : (k : Text) (bs : List ℕ) (s : Files) → get k (put k bs s) ≡ some bs
get-put_same k bs s = get-put k k bs s ∙ if_pos (text_dec k k) refl (some bs) (get k s)

moved_file-reads :
    (s s' : Files) (from to : Text) (found : Option (List ℕ))
    → moved_file s from to found ≡ (s', ok tt)
    → get to s' ≡ found
moved_file-reads s s' from to none h = absurd (ground arith)
moved_file-reads s s' from to (some bs) h =
    sym (ap (λ p. get to p.0) h) ∙ get-put_same to bs (delete from s)

files-FileLaws : FileLaws files
files-FileLaws = record {
  written = λ s s' path bs h. sym (ap (λ p. get path p.0) h) ∙ get-put_same path bs s;
  renamed = λ s s' from to h. moved_file-reads s s' from to (get from s) h;
}

-- A column of byte arrays with a default.
abbrev mark_column : ColumnDef ℕ
mark_column = record {
  name = codes "mark";
  type = Column.bytes;
  nullable = true;
  primary_key = false;
  unique = false;
  default_value = bytes 3 (255 ∷ 10 ∷ []);
}

abbrev mark : CompiledColumn ℕ
mark = record { def = mark_column; offset = 8; size = 8 }

abbrev marked_schema : RelationalSchema ℕ
marked_schema = record {
  table_name = users;
  columns = id ∷ mark ∷ [];
  total_size = 16;
  primary_key = codes "id";
  by_name = (codes "id", id) ∷ (codes "mark", mark) ∷ [];
}

marked_schema-compiles : compile_schema users (id_column ∷ mark_column ∷ []) ≡ ok marked_schema
unfolding program
marked_schema-compiles = refl

abbrev marked : RelationalDatabase ℕ
marked = record { tables = (users, record no_users { schema = marked_schema }) ∷ [] }

abbrev document : Json ℕ
document = catalog_document (stored_table marked_schema ∷ [])

abbrev document_text : Text
document_text =
    codes
      "{\"magic\":\"takyon-catalog\",\"version\":1,\"tables\":[{\"name\":\"users\",\"columns\":[{\"name\":\"id\",\"type\":\"uint32\",\"primaryKey\":true},{\"name\":\"mark\",\"type\":\"bytes\",\"nullable\":true,\"defaultValue\":{\"__bytes_hex\":\"ff0a\"}}]}]}"

abbrev one_text : JsonText ℕ
one_text = record {
  stringify = λ doc. document_text;
  parse = λ text. if text_beq text document_text then some document else none;
}

abbrev path : Text
path = codes "data/catalog.json"

abbrev here : Text → Text
here p = codes "data"

abbrev saved : Files × Result (Unit {0})
saved = save_catalog files here ascii one_text [] marked path

saved-returns : saved ≡ (saved.0, ok tt)
unfolding save_catalog write_document continue_after snapshot_catalog snapshot_tables list_tables
    table require_table program
saved-returns = refl

parses : one_text.parse document_text ≡ some document
parses =
    ap (λ same. if same then some document else none)
      (if_pos (text_dec document_text document_text) refl true false)

restore_catalog-save_catalog_example :
    (db' : RelationalDatabase ℕ) × (restore_catalog files ascii one_text 0 saved.0
        (empty_database ℕ)
        path
      ≡ some (ok db'))
    × (catalog db'.tables ≡ definitions 0 (values marked.tables))
    × NoRows db'.tables
unfolding get
restore_catalog-save_catalog_example =
    restore_catalog-save_catalog files here ascii one_text files-FileLaws [] saved.0 marked path 0
      (refl, tt)
      (
        (
          refl,
          (compile_schema-accepts_iff users (id_column ∷ mark_column ∷ [])).0
              (marked_schema, marked_schema-compiles),
        ),
        tt,
      )
      ((tt, ((omega arith, (omega arith, tt)), tt)), tt) refl (refl, parses) saved-returns
