-- ===== src/Relational/Transaction.antt =====
-- transaction.ts: a buffer of writes, a check of the inserts, and the writes one after another.
pub mod Outcome
use mathlib.Core.Option.{get_or}
use takyondb.Prelude.{
  Bool, true, false, ◌||◌, List, [], ◌∷◌, ◌++◌, Option, none, some, Result, ok, err, throw_if,
  ◌>>=◌, ◌>>◌, duplicate_in_transaction,
}
use takyondb.Js.Text.{Text}
use takyondb.Js.TextSet.{contains, add}
use takyondb.Js.Dict.{Dict, get, has, put}
use takyondb.Js.Value.{Value, Row, JsNumber, field, to_text}
use takyondb.Relational.Table
use takyondb.Relational.Table.{RelationalTable}
use takyondb.Relational.Database.{RelationalDatabase, table, with_table}

pub data TxOp (N : Type 0) : Type 0 where
  insert : Text → Row N → TxOp N
  update : Text → Value N → Row N → TxOp N
  delete : Text → Value N → TxOp N

-- The buffer of a transaction. The database is shared, and is passed along.
pub record Transaction (N : Type 0) : Type 0 where
  pub ops : List (TxOp N)

module _ {N : Type 0} where
  -- `insert`, `update` and `delete` of the class append to the buffer, and `rollback` clears it.
  unfoldable pub buffer : Transaction N → TxOp N → Transaction N
  buffer tx op = record { ops = tx.ops ++ op ∷ [] }

  unfoldable pub rollback : Transaction N → Transaction N
  rollback tx = record { ops = [] }

module _ {N : Type 0} ⦃js : JsNumber N⦄ where
  -- The check of one insert against the table as it stands and the inserts before it.
  unfoldable pub check_insert :
      RelationalDatabase N → Dict (List Text) → Text → Row N → Result (Dict (List Text))
  check_insert db seen name row = do
    t ← table db name
    let pk = to_text (field row t.schema.primary_key)
    let s = get_or (get name seen) []
    throw_if (contains pk s || has pk t.rows) duplicate_in_transaction
    ok (put name (add pk s) seen)

  -- The first loop of `commit`.
  unfoldable pub precheck :
      RelationalDatabase N → Dict (List Text) → List (TxOp N) → Result (Unit {0})
  unfolding check_insert
  precheck db seen [] = ok tt
  precheck db seen (insert name row ∷ ops) = do
    seen' ← check_insert db seen name row
    precheck db seen' ops
  precheck db seen (update name pk patch ∷ ops) = do _ ← table db name; precheck db seen ops
  precheck db seen (delete name pk ∷ ops) = do _ ← table db name; precheck db seen ops

  -- One round of the second loop.
  unfoldable pub apply_op : RelationalDatabase N → TxOp N → Result (RelationalDatabase N)
  apply_op db (insert name row) = do
    t ← table db name
    (t', _) ← Table.insert t row
    ok (with_table db name t')
  apply_op db (update name pk patch) = do
    t ← table db name
    (t', _) ← Table.update t pk patch
    ok (with_table db name t')
  apply_op db (delete name pk) = do
    t ← table db name
    (t', _) ← Table.delete_row t pk
    ok (with_table db name t')

  -- The second loop: what was written before an error stays written.
  unfoldable pub apply_all :
      RelationalDatabase N → List (TxOp N) → RelationalDatabase N × Result (Unit {0})
  apply_all db [] = (db, ok tt)
  apply_all db (op ∷ ops) = elim (apply_op db op) [
    | ok db' ↦ apply_all db' ops
    | err e ↦ (db, err e)
  ]

  -- The buffer is cleared at the end of the method, which an error does not reach.
  unfoldable pub finish :
      Transaction N
      → RelationalDatabase N × Result (Unit {0})
      → RelationalDatabase N × Transaction N × Result (Unit {0})
  finish tx (db, ok _) = (db, record { ops = [] }, ok tt)
  finish tx (db, err e) = (db, tx, err e)

  unfoldable pub commit :
      RelationalDatabase N
      → Transaction N
      → RelationalDatabase N × Transaction N × Result (Unit {0})
  unfolding precheck apply_all finish
  commit db tx = elim (precheck db [] tx.ops) [
    | err e ↦ (db, tx, err e)
    | ok _ ↦ finish tx (apply_all db tx.ops)
  ]
