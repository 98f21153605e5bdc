-- ===== src/Tests/Rows.antt =====
-- The theorems on schemas, tables and transactions at the table of users.
use takyondb.Prelude.{
  ℕ, ◌+◌, ◌≤◌, ◌≡◌, ◌≢◌, ◌↔◌, ◌⊎◌, refl, true, false, [], ◌∷◌, ◌++◌, map, none, some, ok, arith,
}
use takyondb.Js.Text.{codes}
use takyondb.Js.Dict.{get, spread, IsDistinct}
use takyondb.Js.Value.{Value, Row, num, field}
use takyondb.Relational.Schema.{RelationalSchema, compile_schema}
use takyondb.Relational.Schema.Offsets.{column_within_row, columns_disjoint}
use takyondb.Relational.Schema.Accepts.{IsTable, compile_schema-accepts_iff}
use takyondb.Relational.Keys.{encode_pk}
use takyondb.Relational.Table.{find_by_pk, scan, count}
use takyondb.Relational.Table.Invariant.{IsConsistent}
use takyondb.Relational.Table.Reads.{insert_reads, update_reads, delete_reads}
use takyondb.Relational.Table.Reachable.{
  Reach, here, next, inserted, updated, deleted, Reach-IsConsistent,
}
use takyondb.Relational.Database.{RelationalDatabase}
use takyondb.Relational.Transaction.{Transaction, TxOp, commit}
use takyondb.Relational.Transaction.Outcome.{CommitOutcome, commit-CommitOutcome}
use takyondb.Tests.Sample.{
  natural, program, users, user_columns, user_schema, user_schema-compiles, no_users, no_users-new,
  ada, one_user, ada_inserted, move, moved, moved_user, ada_moved, ada_deleted, id, city,
}

compile_schema-accepts_iff_example :
    ((s : RelationalSchema ℕ) × (compile_schema users user_columns ≡ ok s))
    ↔ IsTable users user_columns
compile_schema-accepts_iff_example = compile_schema-accepts_iff users user_columns

column_within_row_example :
    (map (λ c. c.def) user_schema.columns ≡ user_columns) × (4 ≤ 8) × (8 + 8 ≤ 16) × (16 ≤ 260)
column_within_row_example = column_within_row users user_columns 1 user_schema-compiles refl

columns_disjoint_example : (4 + 4 ≤ 8) × (1 ≤ 4) × (1 ≤ 8)
columns_disjoint_example =
    columns_disjoint users user_columns 0 1 {c = id} {d = city} user_schema-compiles (omega arith)
      refl refl

abbrev seven : Value ℕ
seven = num 7

insert_reads_example :
    (ada ≡ ada)
    × (find_by_pk one_user seven ≡ ok (some ada))
    × (scan one_user none ≡ scan no_users none ++ ada ∷ [])
    × (count one_user ≡ count no_users + 1)
    × ((v : Value ℕ)
        → encode_pk v ≢ encode_pk (field ada (codes "id"))
        → find_by_pk one_user v ≡ find_by_pk no_users v)
unfolding program
insert_reads_example = insert_reads no_users ada ada_inserted

update_reads_example :
    (((find_by_pk one_user seven ≡ ok none) × (some moved ≡ none) × (moved_user ≡ one_user))
      ⊎ ((cur : Row ℕ) × (find_by_pk one_user seven ≡ ok (some cur))
          × (some moved ≡ some (spread cur move))
          × (find_by_pk moved_user seven ≡ ok (some (spread cur move)))
          × (count moved_user ≡ count one_user)))
    × ((v : Value ℕ)
        → encode_pk v ≢ encode_pk seven
        → find_by_pk moved_user v ≡ find_by_pk one_user v)
update_reads_example = update_reads one_user seven move ada_moved

moved-IsDistinct : IsDistinct moved_user.rows
unfolding get
moved-IsDistinct = (refl, tt)

delete_reads_example :
    (find_by_pk no_users seven ≡ ok none)
    × (((find_by_pk moved_user seven ≡ ok none) × (true ≡ false) × (no_users ≡ moved_user))
        ⊎ ((cur : Row ℕ) × (find_by_pk moved_user seven ≡ ok (some cur))
            × (true ≡ true)
            × (count no_users + 1 ≡ count moved_user)))
    × ((v : Value ℕ)
        → encode_pk v ≢ encode_pk seven
        → find_by_pk no_users v ≡ find_by_pk moved_user v)
delete_reads_example = delete_reads moved_user seven moved-IsDistinct ada_deleted

move-IsDistinct : IsDistinct move
unfolding get
move-IsDistinct = (refl, tt)

three_writes : Reach no_users no_users
three_writes =
    next
      (next (next here (inserted ada ada ada_inserted))
        (updated seven move (some moved) move-IsDistinct ada_moved))
      (deleted seven true ada_deleted)

Reach-IsConsistent_example : IsConsistent no_users
Reach-IsConsistent_example = Reach-IsConsistent users user_columns no_users-new three_writes

abbrev shop : RelationalDatabase ℕ
shop = record { tables = (users, one_user) ∷ [] }

abbrev twice : Transaction ℕ
twice = record { ops = TxOp.delete users seven ∷ TxOp.insert users ada ∷ [] }

commit-CommitOutcome_example : CommitOutcome shop twice (commit shop twice)
commit-CommitOutcome_example = commit-CommitOutcome shop twice
