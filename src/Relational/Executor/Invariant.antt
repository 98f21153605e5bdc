-- ===== src/Relational/Executor/Invariant.antt =====
-- executor.ts: the tables of a database stay consistent under every statement.
use takyondb.Prelude.{
  ℕ, ◌≡◌, refl, sym, ap, Bool, List, [], ◌∷◌, Option, none, some, Result, ok, err, arith, >>=-eq-ok,
  Bool-cases, inl, inr,
}
use takyondb.Js.Text.{Text, text_dec}
use takyondb.Js.Dict.{get, get-put}
use takyondb.Js.Value.{Row, JsNumber}
use takyondb.Relational.Table.{RelationalTable, new_table, insert}
use takyondb.Relational.Column.{ColumnDef}
use takyondb.Relational.Table.Invariant.{IsConsistent}
use takyondb.Relational.Table.Reachable.{inserted, Step-IsConsistent, new_table-IsConsistent}
use takyondb.Relational.Database.{
  RelationalDatabase, with_table, table, create_table, require_table,
}
use takyondb.Relational.Sql.{StatementKind, classify_statement}
use takyondb.Relational.Sql.Writes.{ParsedInsert, parse_insert, parse_update, parse_delete}
use takyondb.Relational.Sql.Create.{ParsedCreate, parse_create_table}
use takyondb.Relational.Executor
use takyondb.Relational.Executor.Loops.{
  update_rows-IsConsistent, delete_rows-IsConsistent, build_patch-IsDistinct,
}
use takyondb.Relational.Selection.{execute_join, execute_select}
use takyondb.Relational.Executor.{
  SqlResult, count_if, is_found, update_rows, delete_rows, build_patch, build_row, reads, writes,
  run_create, run_insert, has_join, joined, selected, run_update, run_delete, or_throw,
  execute_kind, execute_sql,
}

module _ {N : Type 0} ⦃js : JsNumber N⦄ where
  -- The maps of every table agree with its rows.
  abbrev pub AllConsistent : RelationalDatabase N → Type 0
  AllConsistent db =
      (name : Text) (t : RelationalTable N) → get name db.tables ≡ some t → IsConsistent t

  module _ (db : RelationalDatabase N) (all : AllConsistent db) where
    with_table-AllConsistent :
        (name : Text) (t : RelationalTable N)
        → IsConsistent t
        → AllConsistent (with_table db name t)
    unfolding with_table
    with_table-AllConsistent name t inv k u h = elim (text_dec name k) [
      | yes same ↦ subst (ground (arith, get-put name k t db.tables)) inv
      | no other ↦ all k u (ground (arith, get-put name k t db.tables))
    ]
      where
        subst : t ≡ u → IsConsistent t → IsConsistent u
        subst e = takyondb.Prelude.subst IsConsistent e

    table-IsConsistent :
        (name : Text) (t : RelationalTable N) → table db name ≡ ok t → IsConsistent t
    unfolding table require_table
    table-IsConsistent name t h = all name t (ground arith)

    reads-AllConsistent :
        (tag : List (Row N) → SqlResult N) (rows : Result (List (Row N)))
        → AllConsistent (reads db tag rows).0
    unfolding reads
    reads-AllConsistent tag (ok rows) = all
    reads-AllConsistent tag (err e) = all

    writes-AllConsistent :
        (name : Text) (tag : ℕ → SqlResult N) (out : RelationalTable N × Result ℕ)
        → IsConsistent out.0
        → AllConsistent (writes db name tag out).0
    unfolding writes
    writes-AllConsistent name tag (t, ok n) inv = with_table-AllConsistent name t inv
    writes-AllConsistent name tag (t, err e) inv = with_table-AllConsistent name t inv

    or_throw-AllConsistent {ℓ} :
        {A : Type ℓ} (step : Result A) (run : A → RelationalDatabase N × Result (SqlResult N))
        → ((a : A) → step ≡ ok a → AllConsistent (run a).0)
        → AllConsistent (or_throw db step run).0
    unfolding or_throw
    or_throw-AllConsistent (ok a) run keep = keep a refl
    or_throw-AllConsistent (err e) run keep = all

    run_insert-AllConsistent :
        (plan : ParsedInsert N) (t : RelationalTable N)
        → IsConsistent t
        → AllConsistent (run_insert db plan t).0
    unfolding run_insert
    run_insert-AllConsistent plan t inv =
        by_result (insert t (build_row [] plan.columns plan.values)) (λ t' row h.
          Step-IsConsistent (inserted (build_row [] plan.columns plan.values) row h) inv)
      where
        by_result :
            (res : Result (RelationalTable N × Row N))
            → ((t' : RelationalTable N) (row : Row N) → res ≡ ok (t', row) → IsConsistent t')
            → AllConsistent (
                let out : RelationalDatabase N × Result (SqlResult N) = elim res [
                  | err e ↦ (db, err e)
                  | ok (t', row) ↦ (with_table db plan.table t', ok (Executor.inserted 1))
                ] in
                out.0)
        by_result (err e) step = all
        by_result (ok (t', row)) step = with_table-AllConsistent plan.table t' (step t' row refl)

    create_table-AllConsistent :
        (name : Text) (columns : List (ColumnDef N)) {db' : RelationalDatabase N}
        {t : RelationalTable N}
        → create_table db name columns ≡ ok (db', t)
        → AllConsistent db'
    unfolding create_table with_table
    create_table-AllConsistent name columns {db'} {t} h =
        let shape : (new_table name columns ≡ ok t) × (db' ≡ with_table db name t) = ground arith in
        rw shape.1 (with_table-AllConsistent name t (new_table-IsConsistent name columns shape.0))

    run_create-AllConsistent : (plan : ParsedCreate N) → AllConsistent (run_create db plan).0
    unfolding run_create
    run_create-AllConsistent plan =
        by_result (create_table db plan.table plan.columns)
          (λ db' t h. create_table-AllConsistent plan.table plan.columns h)
      where
        by_result :
            (res : Result (RelationalDatabase N × RelationalTable N))
            → ((db' : RelationalDatabase N) (t : RelationalTable N)
                → res ≡ ok (db', t)
                → AllConsistent db')
            → AllConsistent (
                let out : RelationalDatabase N × Result (SqlResult N) = elim res [
                  | err e ↦ (db, err e)
                  | ok (db', t) ↦ (db', ok (Executor.created plan.table))
                ] in
                out.0)
        by_result (err e) step = all
        by_result (ok (db', t)) step = step db' t refl

    on_table :
        (name : Text) (run : RelationalTable N → RelationalDatabase N × Result (SqlResult N))
        → ((t : RelationalTable N) → IsConsistent t → AllConsistent (run t).0)
        → AllConsistent (or_throw db (table db name) run).0
    on_table name run keep =
        or_throw-AllConsistent (table db name) run (λ t h. keep t (table-IsConsistent name t h))

    execute_kind-AllConsistent :
        (sql : Text) (kind : StatementKind) → AllConsistent (execute_kind db sql kind).0
    unfolding execute_kind run_update run_delete
    execute_kind-AllConsistent sql StatementKind.select = elim (Bool-cases (has_join sql)) [
      | inl join ↦ rw join (reads-AllConsistent joined (execute_join db sql))
      | inr plain ↦ rw plain (reads-AllConsistent selected (execute_select db sql))
    ]
    execute_kind-AllConsistent sql StatementKind.create =
        or_throw-AllConsistent (parse_create_table sql) (run_create db)
          (λ plan h. run_create-AllConsistent plan)
    execute_kind-AllConsistent sql StatementKind.insert =
        or_throw-AllConsistent (parse_insert sql)
          (λ plan. or_throw db (table db plan.table) (run_insert db plan))
          (λ plan h. on_table plan.table (run_insert db plan) (run_insert-AllConsistent plan))
    execute_kind-AllConsistent sql StatementKind.update =
        or_throw-AllConsistent (parse_update sql)
          (λ plan. or_throw db (table db plan.table) (run_update db plan))
          (λ plan h. on_table plan.table (run_update db plan) (λ t inv.
            writes-AllConsistent plan.table Executor.updated _ (
              update_rows-IsConsistent t t.schema.primary_key (build_patch [] plan.sets) _ 0
                (build_patch-IsDistinct [] plan.sets tt) inv)))
    execute_kind-AllConsistent sql StatementKind.delete =
        or_throw-AllConsistent (parse_delete sql)
          (λ plan. or_throw db (table db plan.table) (run_delete db plan))
          (λ plan h. on_table plan.table (run_delete db plan) (λ t inv.
            writes-AllConsistent plan.table Executor.deleted _
              (delete_rows-IsConsistent t t.schema.primary_key _ 0 inv)))

    -- Whatever statement runs, and whether it returns or throws: if the secondary maps of every
    -- table agree with its rows before, they do in the database that it leaves.
    pub execute_sql-AllConsistent : (sql : Text) → AllConsistent (execute_sql db sql).0
    unfolding execute_sql
    execute_sql-AllConsistent sql =
        or_throw-AllConsistent (classify_statement sql) (execute_kind db sql)
          (λ kind h. execute_kind-AllConsistent sql kind)
