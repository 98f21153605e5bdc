-- ===== src/Relational/Transaction/Outcome.antt =====
-- transaction.ts: what `commit` leaves in the tables and in the buffer, whether it throws or not.
use takyondb.Prelude.{◌≡◌, refl, ◌⊎◌, inl, inr, List, [], ◌∷◌, ◌++◌, Result, ok, err, Error, ap}
use takyondb.Js.Value.{JsNumber}
use takyondb.Relational.Database.{RelationalDatabase}
use takyondb.Relational.Transaction.{
  TxOp, Transaction, precheck, apply_op, apply_all, finish, commit,
}

module _ {N : Type 0} ⦃js : JsNumber N⦄ where
  -- The operations `ops`, each of them with success, lead from the first database to the second.
  pub data Applied : RelationalDatabase N → List (TxOp N) → RelationalDatabase N → Type 0 where
    none_left : {db : RelationalDatabase N} → Applied db [] db
    one_more :
        {db : RelationalDatabase N} {op : TxOp N} {ops : List (TxOp N)} (mid : RelationalDatabase N)
        {out : RelationalDatabase N}
        → apply_op db op ≡ ok mid
        → Applied mid ops out
        → Applied db (op ∷ ops) out

  -- An error at `at` stops the operations there.
  pub record Stopped (db : RelationalDatabase N) (ops : List (TxOp N)) (out : RelationalDatabase N)
      (e : Error) : Type 0 where
    pub done : List (TxOp N)
    pub failing : TxOp N
    pub rest : List (TxOp N)
    pub split : ops ≡ done ++ failing ∷ rest
    pub applied : Applied db done out
    pub error : apply_op out failing ≡ err e

  after_one :
      (db mid : RelationalDatabase N) (op : TxOp N) (ops : List (TxOp N))
      (out : RelationalDatabase N) (e : Error)
      → apply_op db op ≡ ok mid
      → Stopped mid ops out e
      → Stopped db (op ∷ ops) out e
  after_one db mid op ops out e h s = record {
    done = op ∷ s.done;
    failing = s.failing;
    rest = s.rest;
    split = ap (◌∷◌ op) s.split;
    applied = one_more mid h s.applied;
    error = s.error;
  }

  pub RunOutcome :
      RelationalDatabase N → List (TxOp N) → RelationalDatabase N × Result (Unit {0}) → Type 0
  RunOutcome db ops (out, ok _) = Applied db ops out
  RunOutcome db ops (out, err e) = Stopped db ops out e

  step_on :
      (db mid : RelationalDatabase N) (op : TxOp N) (ops : List (TxOp N))
      (p : RelationalDatabase N × Result (Unit {0}))
      → apply_op db op ≡ ok mid
      → RunOutcome mid ops p
      → RunOutcome db (op ∷ ops) p
  unfolding RunOutcome
  step_on db mid op ops (out, ok _) h a = one_more mid h a
  step_on db mid op ops (out, err e) h s = after_one db mid op ops out e h s

  by_result :
      (db : RelationalDatabase N) (op : TxOp N) (ops : List (TxOp N))
      (r : Result (RelationalDatabase N))
      → apply_op db op ≡ r
      → ((mid : RelationalDatabase N) → RunOutcome mid ops (apply_all mid ops))
      → RunOutcome db (op ∷ ops) (elim r [ ok mid ↦ apply_all mid ops | err e ↦ (db, err e) ])
  unfolding RunOutcome
  by_result db op ops (ok mid) h rec = step_on db mid op ops (apply_all mid ops) h (rec mid)
  by_result db op ops (err e) h rec = record {
    done = [];
    failing = op;
    rest = ops;
    split = refl;
    applied = none_left;
    error = h;
  }

  apply_all-RunOutcome :
      (db : RelationalDatabase N) (ops : List (TxOp N)) → RunOutcome db ops (apply_all db ops)
  unfolding apply_all RunOutcome
  apply_all-RunOutcome db [] = none_left
  apply_all-RunOutcome db (op ∷ ops) =
      by_result db op ops (apply_op db op) refl (λ mid. apply_all-RunOutcome mid ops)

  -- What the check of the inserts finds, and what the operations then leave.
  pub CommitOutcome :
      RelationalDatabase N
      → Transaction N
      → RelationalDatabase N × Transaction N × Result (Unit {0})
      → Type 0
  CommitOutcome db tx (out, after, ok _) =
      (precheck db [] tx.ops ≡ ok tt) × Applied db tx.ops out × (after.ops ≡ [])
  CommitOutcome db tx (out, after, err e) =
      (after ≡ tx)
      × (((precheck db [] tx.ops ≡ err e) × (out ≡ db))
          ⊎ ((precheck db [] tx.ops ≡ ok tt) × Stopped db tx.ops out e))

  finish-CommitOutcome :
      (db : RelationalDatabase N) (tx : Transaction N)
      (p : RelationalDatabase N × Result (Unit {0}))
      → precheck db [] tx.ops ≡ ok tt
      → RunOutcome db tx.ops p
      → CommitOutcome db tx (finish tx p)
  unfolding RunOutcome CommitOutcome finish
  finish-CommitOutcome db tx (out, ok _) h a = (h, a, refl)
  finish-CommitOutcome db tx (out, err e) h s = (refl, inr (h, s))

  by_precheck :
      (db : RelationalDatabase N) (tx : Transaction N) (r : Result (Unit {0}))
      → precheck db [] tx.ops ≡ r
      → CommitOutcome db tx
          (elim r [ ok _ ↦ finish tx (apply_all db tx.ops) | err e ↦ (db, tx, err e) ])
  unfolding CommitOutcome
  by_precheck db tx (ok tt) h =
      finish-CommitOutcome db tx (apply_all db tx.ops) h (apply_all-RunOutcome db tx.ops)
  by_precheck db tx (err e) h = (refl, inl (h, refl))

  -- For every database and every transaction: if `commit` returns, the check of the inserts passed,
  -- every operation of the buffer was applied in its order with success, and the buffer is empty.
  -- If it throws, the buffer is as it was, and either the check of the inserts threw that error and
  -- no table changed, or the check passed, the operations before one of the buffer were applied,
  -- that one threw the error on the tables they left, and their writes stay.
  pub commit-CommitOutcome :
      (db : RelationalDatabase N) (tx : Transaction N) → CommitOutcome db tx (commit db tx)
  unfolding commit
  commit-CommitOutcome db tx = by_precheck db tx (precheck db [] tx.ops) refl
