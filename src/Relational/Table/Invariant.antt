-- ===== src/Relational/Table/Invariant.antt =====
-- table.ts: the rows and the secondary maps of a table agree after every write.

use takyondb.Prelude.{◌≡◌, Bool, false, none, some, arith, ok}
use takyondb.Js.Text.{Text, text_beq}
use takyondb.Js.Dict.{
  Dict, IsDistinct, get, put, delete, get-put, get-delete, put-IsDistinct, delete-IsDistinct,
}
use takyondb.Js.Value.{Row, JsNumber, field, to_text}
use takyondb.Relational.Keys.{encode_pk}
use takyondb.Relational.RowCheck.{validate_row}
use takyondb.Relational.Table.{
  RelationalTable, Secondary, index_entry, deindex_entry, index_row, deindex_row,
}
use takyondb.Relational.Table.Index.{
  holds, NoEmpty, holds-index_entry, holds-deindex_entry, index_entry-NoEmpty,
  deindex_entry-NoEmpty, get-index_row, get-deindex_row,
}

module _ {N : Type 0} ⦃js : JsNumber N⦄ where
  -- Whether the row under the key is there and renders the column as the value.
  unfoldable pub row_holds : Dict (Row N) → Text → Text → Text → Bool
  row_holds rows col v pk = elim (get pk rows) [
    | none ↦ false
    | some row ↦ text_beq (to_text (field row col)) v
  ]

  -- The keys are distinct and are those of the rows, every row is valid, and each secondary map
  -- lists a key under a value exactly if the row of that key holds the value.
  pub record IsConsistent (t : RelationalTable N) : Type 0 where
    pub distinct : IsDistinct t.rows
    pub keyed :
        (k : Text) (row : Row N)
        → get k t.rows ≡ some row
        → encode_pk (field row t.schema.primary_key) ≡ ok k
    pub valid :
        (k : Text) (row : Row N) → get k t.rows ≡ some row → validate_row t.schema row ≡ ok tt
    pub indexed :
        (col : Text) (m : Secondary)
        → get col t.secondary ≡ some m
        → (v k : Text) → holds m v k ≡ row_holds t.rows col v k
    pub compact : (col : Text) (m : Secondary) → get col t.secondary ≡ some m → NoEmpty m

  abbrev pub after_insert : RelationalTable N → Text → Row N → RelationalTable N
  after_insert t pk row = record t {
    rows = put pk row t.rows;
    secondary = index_row pk row t.secondary;
  }

  abbrev pub after_delete : RelationalTable N → Text → Row N → RelationalTable N
  after_delete t pk cur = record t {
    rows = delete pk t.rows;
    secondary = deindex_row pk cur t.secondary;
  }

  abbrev pub after_update : RelationalTable N → Text → Row N → Row N → RelationalTable N
  after_update t pk cur next = record t {
    rows = put pk next t.rows;
    secondary = index_row pk next (deindex_row pk cur t.secondary);
  }

  -- Every map of an indexed table is an entry added to a map of the table before.
  index_row-from :
      (pk : Text) (row : Row N) (secondary : Dict Secondary) (col : Text) (m : Secondary)
      → get col (index_row pk row secondary) ≡ some m
      → (m' : Secondary) × (get col secondary ≡ some m')
        × (m ≡ index_entry pk (to_text (field row col)) m')
  index_row-from pk row secondary col m h = ground (arith, get-index_row pk row col secondary)

  deindex_row-from :
      (pk : Text) (row : Row N) (secondary : Dict Secondary) (col : Text) (m : Secondary)
      → get col (deindex_row pk row secondary) ≡ some m
      → (m' : Secondary) × (get col secondary ≡ some m')
        × (m ≡ deindex_entry pk (to_text (field row col)) m')
  deindex_row-from pk row secondary col m h = ground (arith, get-deindex_row pk row col secondary)

  module _ (t : RelationalTable N) (inv : IsConsistent t) (pk : Text) where
    pub after_insert-IsConsistent :
        (row : Row N)
        → validate_row t.schema row ≡ ok tt
        → encode_pk (field row t.schema.primary_key) ≡ ok pk
        → get pk t.rows ≡ none
        → IsConsistent (after_insert t pk row)
    after_insert-IsConsistent row v e absent = record {
      distinct = put-IsDistinct pk row t.rows inv.distinct;
      keyed = λ k r h. ground (arith, get-put pk k row t.rows, inv.keyed k r);
      valid = λ k r h. ground (arith, get-put pk k row t.rows, inv.valid k r);
      indexed = λ col m h w k.
          let (m', g, shape) = index_row-from pk row t.secondary col m h in
          rw shape (
            unfold row_holds in
            ground (
              arith,
              holds-index_entry pk (to_text (field row col)) w k m',
              get-put pk k row t.rows,
              inv.indexed col m' g w k,
            ));
      compact = λ col m h.
          let (m', g, shape) = index_row-from pk row t.secondary col m h in
          rw shape (index_entry-NoEmpty pk (to_text (field row col)) m' (inv.compact col m' g));
    }

    pub after_delete-IsConsistent :
        (cur : Row N) → get pk t.rows ≡ some cur → IsConsistent (after_delete t pk cur)
    after_delete-IsConsistent cur there = record {
      distinct = delete-IsDistinct pk t.rows inv.distinct;
      keyed = λ k r h. ground (arith, get-delete pk k t.rows, inv.keyed k r);
      valid = λ k r h. ground (arith, get-delete pk k t.rows, inv.valid k r);
      indexed = λ col m h w k.
          let (m', g, shape) = deindex_row-from pk cur t.secondary col m h in
          rw shape (
            unfold row_holds in
            ground (
              arith,
              holds-deindex_entry pk (to_text (field cur col)) w k m',
              get-delete pk k t.rows,
              inv.indexed col m' g w k,
            ));
      compact = λ col m h.
          let (m', g, shape) = deindex_row-from pk cur t.secondary col m h in
          rw shape (deindex_entry-NoEmpty pk (to_text (field cur col)) m' (inv.compact col m' g));
    }

    pub after_update-IsConsistent :
        (cur next : Row N)
        → get pk t.rows ≡ some cur
        → validate_row t.schema next ≡ ok tt
        → encode_pk (field next t.schema.primary_key) ≡ ok pk
        → IsConsistent (after_update t pk cur next)
    after_update-IsConsistent cur next there v e =
        let gone = after_delete-IsConsistent cur there in
        record {
          distinct = put-IsDistinct pk next t.rows inv.distinct;
          keyed = λ k r h. ground (arith, get-put pk k next t.rows, inv.keyed k r);
          valid = λ k r h. ground (arith, get-put pk k next t.rows, inv.valid k r);
          indexed = λ col m h w k.
              let (m', g, shape) =
                index_row-from pk next (deindex_row pk cur t.secondary) col m h in
              let listed : holds m' w k ≡ row_holds (delete pk t.rows) col w k =
                gone.indexed col m' g w k in
              rw shape (
                unfold row_holds in
                ground (
                  arith,
                  holds-index_entry pk (to_text (field next col)) w k m',
                  get-put pk k next t.rows,
                  get-delete pk k t.rows,
                  listed,
                ));
          compact = λ col m h.
              let (m', g, shape) =
                index_row-from pk next (deindex_row pk cur t.secondary) col m h in
              rw shape
                (index_entry-NoEmpty pk (to_text (field next col)) m' (gone.compact col m' g));
        }
