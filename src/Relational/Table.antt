-- ===== src/Relational/Table.antt =====
-- table.ts: a table in memory, with a map of its rows and the secondary maps.
pub mod Index
pub mod Invariant
pub mod Writes
pub mod Reads
pub mod Reachable
use mathlib.Core.Option.{get_or}
use takyondb.Prelude.{
  ℕ, Bool, true, false, ◌||◌, List, [], ◌∷◌, map, Option, none, some, length, Result, ok, err,
  throw_if, ◌>>=◌, ◌>>◌, if◌then◌else◌, not, ite, duplicate_primary_key, immutable_primary_key,
}
use takyondb.Js.Text.{Text, text_beq}
use takyondb.Js.TextSet.{add, remove}
use takyondb.Js.Dict.{Dict, get, has, put, delete, values, spread}
use takyondb.Js.Value.{Value, Row, JsNumber, field, to_text}
use takyondb.Relational.Column.{ColumnDef}
use takyondb.Relational.Schema.{CompiledColumn, RelationalSchema, compile_schema}
use takyondb.Relational.Keys.{encode_pk}
use takyondb.Relational.RowCheck.{validate_row, is_defined}
use takyondb.Relational.Filter.{Where, matches_where}

-- A secondary map: a rendered value to the keys of the rows that hold it.
abbrev pub Secondary : Type 0
Secondary = Dict (List Text)

pub record RelationalTable (N : Type 0) : Type 0 where
  pub schema : RelationalSchema N
  pub rows : Dict (Row N)
  pub secondary : Dict Secondary

-- The body of `indexRow`'s loop: the set at `v` is made if it is missing, and gets the key.
unfoldable pub index_entry : Text → Text → Secondary → Secondary
index_entry pk v m = put v (add pk (get_or (get v m) [])) m

-- A set that is left without a key leaves the map.
unfoldable pub shrink : Text → Secondary → List Text → Secondary
shrink v m [] = delete v m
shrink v m (k ∷ rest) = put v (k ∷ rest) m

-- The body of `deindexRow`'s loop.
unfoldable pub deindex_entry : Text → Text → Secondary → Secondary
unfolding shrink
deindex_entry pk v m = elim (get v m) [ none ↦ m | some set ↦ shrink v m (remove pk set) ]

module _ {N : Type 0} ⦃js : JsNumber N⦄ where
  unfoldable pub index_row : Text → Row N → Dict Secondary → Dict Secondary
  index_row pk row = map (λ e. (e.0, index_entry pk (to_text (field row e.0)) e.1))

  unfoldable pub deindex_row : Text → Row N → Dict Secondary → Dict Secondary
  deindex_row pk row = map (λ e. (e.0, deindex_entry pk (to_text (field row e.0)) e.1))

  -- The constructor's loop: an empty map for each unique or primary column.
  unfoldable pub make_secondary : Dict Secondary → List (CompiledColumn N) → Dict Secondary
  make_secondary m [] = m
  make_secondary m (c ∷ cs) =
      make_secondary (if c.unique || c.primary_key then put c.name [] m else m) cs

  unfoldable pub new_table : Text → List (ColumnDef N) → Result (RelationalTable N)
  unfolding make_secondary
  new_table table_name columns = do
    schema ← compile_schema table_name columns
    ok (record { schema = schema; rows = []; secondary = make_secondary [] schema.columns })

  unfoldable pub insert : RelationalTable N → Row N → Result (RelationalTable N × Row N)
  insert t row = do
    validate_row t.schema row
    pk ← encode_pk (field row t.schema.primary_key)
    throw_if (has pk t.rows) duplicate_primary_key
    ok (record t { rows = put pk row t.rows; secondary = index_row pk row t.secondary }, row)

  unfoldable pub find_by_pk : RelationalTable N → Value N → Result (Option (Row N))
  find_by_pk t pk_value = do pk ← encode_pk pk_value; ok (get pk t.rows)

  unfoldable pub filter_rows : List (Row N) → Option (Where N) → List (Row N)
  filter_rows [] where_clause = []
  filter_rows (r ∷ rs) where_clause =
      let rest = filter_rows rs where_clause in
      if matches_where r where_clause then r ∷ rest else rest

  unfoldable pub scan : RelationalTable N → Option (Where N) → List (Row N)
  unfolding filter_rows
  scan t where_clause = filter_rows (values t.rows) where_clause

  -- A patch that names the primary key must render to the same key.
  unfoldable pub check_same_key : Text → Value N → Result (Unit {0})
  unfolding is_defined
  check_same_key pk v =
      if is_defined v
      then (do k ← encode_pk v; throw_if (not (text_beq k pk)) immutable_primary_key)
      else ok tt

  -- `update` once the current row is found.
  unfoldable pub update_row :
      RelationalTable N → Text → Row N → Row N → Result (RelationalTable N × Option (Row N))
  unfolding check_same_key
  update_row t pk cur patch = do
    check_same_key pk (field patch t.schema.primary_key)
    let next = spread cur patch
    validate_row t.schema next
    ok (
      record t {
        rows = put pk next t.rows;
        secondary = index_row pk next (deindex_row pk cur t.secondary);
      },
      some next,
    )

  -- `if (!cur) return null;` and the rest of the method
  unfoldable pub update_found :
      RelationalTable N
      → Text
      → Row N
      → Option (Row N)
      → Result (RelationalTable N × Option (Row N))
  update_found t pk patch none = ok (t, none)
  update_found t pk patch (some cur) = update_row t pk cur patch

  unfoldable pub update :
      RelationalTable N → Value N → Row N → Result (RelationalTable N × Option (Row N))
  unfolding update_found
  update t pk_value patch = do pk ← encode_pk pk_value; update_found t pk patch (get pk t.rows)

  unfoldable pub delete_found : RelationalTable N → Text → Option (Row N) → RelationalTable N × Bool
  delete_found t pk none = (t, false)
  delete_found t pk (some cur) =
      (record t { rows = delete pk t.rows; secondary = deindex_row pk cur t.secondary }, true)

  unfoldable pub delete_row : RelationalTable N → Value N → Result (RelationalTable N × Bool)
  unfolding delete_found
  delete_row t pk_value = do pk ← encode_pk pk_value; ok (delete_found t pk (get pk t.rows))

  unfoldable pub count : RelationalTable N → ℕ
  count t = length t.rows
