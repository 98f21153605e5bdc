-- ===== src/Relational/Executor/Update.antt =====
-- executor.ts: what an UPDATE writes, whether it returns or throws on the way.
use mathlib.Core.List.{append_assoc}
use takyondb.Prelude.{
  ℕ, ◌+◌, ◌≡◌, ◌∙◌, ◌⊎◌, refl, sym, ap, subst, true, false, List, [], ◌∷◌, ◌++◌, Option, some,
  length, ok, err, Error, Result, if◌then◌else◌, arith, inl, inr, Bool-cases, Result-cases,
}
use takyondb.Js.Text.{Text}
use takyondb.Js.Dict.{Dict, IsDistinct, get, put, spread, values, get_between, put_between}
use takyondb.Js.Value.{Row, JsNumber, field}
use takyondb.Relational.Keys.{encode_pk}
use takyondb.Relational.Filter.{Where, matches_where}
use takyondb.Relational.Table.{RelationalTable, scan, filter_rows, update, update_found, update_row}
use takyondb.Relational.Table.Writes.{update_row-inv}
use takyondb.Relational.Table.Invariant.{IsConsistent, after_update}
use takyondb.Relational.Table.Reachable.{updated, Step-IsConsistent}
use takyondb.Relational.Database.{RelationalDatabase, table}
use takyondb.Relational.Sql.{classify_statement, StatementKind}
use takyondb.Relational.Sql.Writes.{ParsedUpdate, parse_update}
use takyondb.Relational.Selection.{single_where}
use takyondb.Relational.Executor
use takyondb.Relational.Executor.{
  update_rows, count_if, is_found, build_patch, run_update, execute_sql, execute_kind, or_throw,
  writes,
}
use takyondb.Relational.Executor.Loops.{build_patch-IsDistinct}

module _ {N : Type 0} ⦃js : JsNumber N⦄ where
  -- The entries, with the patch over each row that the clause matches.
  pub merged : Dict (Row N) → Option (Where N) → Row N → Dict (Row N)
  merged [] clause patch = []
  merged ((k, row) ∷ rows) clause patch =
      (k, (if matches_where row clause then spread row patch else row)) ∷ merged rows clause patch

  -- The update of the row at the head of these entries, which the clause matches, throws.
  abbrev pub IsRefused :
      RelationalTable N → Option (Where N) → Row N → Dict (Row N) → Error → Type 0
  IsRefused t clause patch [] e = ⊥
  IsRefused t clause patch ((k, row) ∷ rows) e =
      (matches_where row clause ≡ true) × (update t (field row t.schema.primary_key) patch ≡ err e)

  -- The rows up to some entry are merged, and those from it on are as they were: either there are
  -- none, and all matched rows were counted, or the row at that entry was refused.
  pub record UpdateOutcome (clause : Option (Where N)) (patch : Row N) (kept rows : Dict (Row N))
      (n : ℕ) (out : RelationalTable N × Result ℕ) : Type 0 where
    pub before : Dict (Row N)
    pub after : Dict (Row N)
    pub split : rows ≡ before ++ after
    pub written : out.0.rows ≡ kept ++ (merged before clause patch ++ after)
    pub consistent : IsConsistent out.0
    pub ended :
        ((after ≡ []) × (out.1 ≡ ok (n + length (filter_rows (values rows) clause))))
        ⊎ ((e : Error) × (out.1 ≡ err e) × IsRefused out.0 clause patch after e)

  -- An update by the key of a row that is there is one of that row.
  update-there :
      (t : RelationalTable N) (k : Text) (row patch : Row N)
      → encode_pk (field row t.schema.primary_key) ≡ ok k
      → get k t.rows ≡ some row
      → update t (field row t.schema.primary_key) patch ≡ update_row t k row patch
  unfolding update update_found
  update-there t k row patch e there = rw e (rw there refl)

  update_rows-merges :
      (t t' : RelationalTable N) (pk_col : Text) (patch row next : Row N) (rows : List (Row N))
      (n : ℕ)
      → update t (field row pk_col) patch ≡ ok (t', some next)
      → update_rows t pk_col patch (row ∷ rows) n ≡ update_rows t' pk_col patch rows (n + 1)
  unfolding update_rows count_if is_found
  update_rows-merges t t' pk_col patch row next rows n e = rw (e, update_rows) refl

  update_rows-refused :
      (t : RelationalTable N) (pk_col : Text) (patch row : Row N) (rows : List (Row N)) (n : ℕ)
      (e : Error)
      → update t (field row pk_col) patch ≡ err e
      → update_rows t pk_col patch (row ∷ rows) n ≡ (t, err e)
  unfolding update_rows
  update_rows-refused t pk_col patch row rows n e refused = rw (refused, update_rows) refl

  abbrev matching : Option (Where N) → Dict (Row N) → List (Row N)
  matching clause rows = filter_rows (values rows) clause

  matching-skip :
      (clause : Option (Where N)) (k : Text) (row : Row N) (rows : Dict (Row N))
      → matches_where row clause ≡ false
      → matching clause ((k, row) ∷ rows) ≡ matching clause rows
  unfolding filter_rows
  matching-skip clause k row rows other = rw other refl

  matching-keep :
      (clause : Option (Where N)) (k : Text) (row : Row N) (rows : Dict (Row N))
      → matches_where row clause ≡ true
      → matching clause ((k, row) ∷ rows) ≡ row ∷ matching clause rows
  unfolding filter_rows
  matching-keep clause k row rows matched = rw matched refl

  -- The entry that the loop has passed joins the merged ones.
  UpdateOutcome-cons :
      (clause : Option (Where N)) (patch : Row N) (kept : Dict (Row N)) (k : Text) (row : Row N)
      (rows : Dict (Row N)) (n n' : ℕ) (out : RelationalTable N × Result ℕ) (written : Row N)
      → (if matches_where row clause then spread row patch else row) ≡ written
      → n' + length (matching clause rows) ≡ n + length (matching clause ((k, row) ∷ rows))
      → UpdateOutcome clause patch (kept ++ (k, written) ∷ []) rows n' out
      → UpdateOutcome clause patch kept ((k, row) ∷ rows) n out
  unfolding merged
  UpdateOutcome-cons clause patch kept k row rows n n' out written became count o = record {
    before = (k, row) ∷ o.before;
    after = o.after;
    split = ap (◌∷◌ (k, row)) o.split;
    written = rw became (
        o.written
        ∙ append_assoc kept ((k, written) ∷ []) (merged o.before clause patch ++ o.after));
    consistent = o.consistent;
    ended = elim o.ended [
      | inl (finished, counted) ↦ inl (finished, counted ∙ ap ok count)
      | inr refused ↦ inr refused
    ];
  }

  -- The loop over the matched rows behind those that were done.
  update_rows-UpdateOutcome :
      (t : RelationalTable N) (clause : Option (Where N)) (patch : Row N) (kept rows : Dict (Row N))
      (n : ℕ)
      → IsDistinct patch
      → IsConsistent t
      → t.rows ≡ kept ++ rows
      → UpdateOutcome clause patch kept rows n
          (update_rows t t.schema.primary_key patch (matching clause rows) n)
  unfolding filter_rows update_rows merged
  update_rows-UpdateOutcome t clause patch kept [] n d inv e = record {
    before = [];
    after = [];
    split = refl;
    written = e;
    consistent = inv;
    ended = inl (refl, ap ok (omega arith));
  }
  update_rows-UpdateOutcome t clause patch kept ((k, row) ∷ rows) n d inv e =
      let pk_col = t.schema.primary_key in
      let next = spread row patch in
      let ran = λ (rs : List (Row N)). update_rows t pk_col patch rs n in
      let Outcome = UpdateOutcome clause patch kept ((k, row) ∷ rows) n in
      elim (Bool-cases (matches_where row clause)) [
        | inr other ↦
            let skip = matching-skip clause k row rows other in
            subst (λ rs. Outcome (ran rs)) (sym skip)
              (UpdateOutcome-cons clause patch kept k row rows n n (ran (matching clause rows)) row
                (rw other refl) (ap (λ rs. n + length rs) (sym skip))
                (update_rows-UpdateOutcome t clause patch (kept ++ (k, row) ∷ []) rows n d inv
                  (e ∙ sym (append_assoc kept ((k, row) ∷ []) rows))))
        | inl matched ↦
            let keep = matching-keep clause k row rows matched in
            let distinct = subst IsDistinct e inv.distinct in
            let there = ap (get k) e ∙ get_between k row kept rows distinct in
            subst (λ rs. Outcome (ran rs)) (sym keep)
              (elim (Result-cases (update t (field row pk_col) patch)) [
                | inl (thrown, refused) ↦
                    subst Outcome
                      (sym (
                        update_rows-refused t pk_col patch row (matching clause rows) n thrown
                          refused))
                      (record {
                        before = [];
                        after = (k, row) ∷ rows;
                        split = refl;
                        written = e;
                        consistent = inv;
                        ended = inr (thrown, refl, (matched, refused));
                      })
                | inr (r, returned) ↦
                    let found = update-there t k row patch (inv.keyed k row there) there in
                    let shape = (update_row-inv t k row patch (sym found ∙ returned)).2 in
                    let done = returned ∙ ap ok shape in
                    let after = after_update t k row next in
                    subst Outcome
                      (sym (
                        update_rows-merges t after pk_col patch row next (matching clause rows) n
                          done))
                      (UpdateOutcome-cons clause patch kept k row rows n (n + 1) _ next
                        (rw matched refl) (omega (arith, ap length keep))
                        (update_rows-UpdateOutcome after clause patch (kept ++ (k, next) ∷ []) rows
                          (n + 1) d
                          (Step-IsConsistent (updated (field row pk_col) patch (some next) d done)
                            inv)
                          (ap (put k next) e
                            ∙ put_between k row next kept rows distinct
                            ∙ sym (append_assoc kept ((k, next) ∷ []) rows))))
              ])
      ]

  -- An UPDATE that parses, of a table that is there and whose maps agree with its rows, goes
  -- through the rows in their order and merges the patch over each that its WHERE matches, up to
  -- one that is refused. If none is, it reports how many rows the WHERE matched. Otherwise it
  -- throws the error of that row; the rows before it stay merged, and those from it on are as
  -- they were. Either way the keys and their order stay, and the maps agree with the rows.
  pub execute_sql-update :
      (db : RelationalDatabase N) (sql : Text) (plan : ParsedUpdate N) (t : RelationalTable N)
      → classify_statement sql ≡ ok StatementKind.update
      → parse_update sql ≡ ok plan
      → table db plan.table ≡ ok t
      → IsConsistent t
      → let clause =
          single_where (some plan.where_col) (some plan.where_op) (some plan.where_val) in
        (out : RelationalTable N × Result ℕ) × (execute_sql db sql
          ≡ writes db plan.table Executor.updated out)
        × UpdateOutcome clause (build_patch [] plan.sets) [] t.rows 0 out
  unfolding execute_sql execute_kind or_throw run_update scan
  execute_sql-update db sql plan t kind parsed found inv =
      let clause = single_where (some plan.where_col) (some plan.where_op) (some plan.where_val) in
      let patch = build_patch [] plan.sets in
      (
        update_rows t t.schema.primary_key patch (scan t clause) 0,
        rw kind (rw parsed (rw found refl)),
        update_rows-UpdateOutcome t clause patch [] t.rows 0
            (build_patch-IsDistinct [] plan.sets tt) inv refl,
      )
