-- ===== src/Relational/Filter/Compile.antt =====
-- filter.ts: the compiled predicate is the conjunction of the operators that the clause names.
use takyondb.Prelude.{
  ◌≡◌, ◌↔◌, refl, Bool, true, false, not, List, [], ◌∷◌, map, Option, none, some, arith, All,
}
use takyondb.Js.Text.{Text}
use takyondb.Js.Value.{Value, Row, JsNumber, field, strict_eq, to_text, num, str}
use takyondb.Relational.Filter.{
  Check, Condition, Clause, Where, bare, cond, number_check, includes, like_check, push,
  compile_condition, compile_clause, run_checks, run_columns, close_columns, matches_where,
}
use takyondb.Relational.Filter.Membership.{EqLaws, in_check-eq-includes}
use takyondb.Js.Order.{to_number}
use takyondb.Relational.Filter.Like.Matches.{LikeMatch, like_test-LikeMatch}

-- What an operand asks, if it is there.
abbrev When : {A : Type 0} → Option A → (A → Type 0) → Type 0
When none P = Unit
When (some a) P = P a

module _ {N : Type 0} ⦃js : JsNumber N⦄ where
  -- A cell that is a number in this relation to the operand.
  abbrev pub Compares : (N → N → Bool) → Value N → Value N → Type 0
  Compares test v t = (a : N) × (v ≡ num a) × (test a (to_number t) ≡ true)

  -- A text cell that the pattern matches.
  abbrev pub IsLike : Value N → Value N → Type 0
  IsLike v pattern = (s : Text) × (v ≡ str s) × LikeMatch (to_text pattern) s

  -- What each operator of a condition asks of a cell.
  abbrev pub Satisfies : Condition N → Value N → Type 0
  Satisfies c v =
      When c.eq (λ e. strict_eq v e ≡ true)
      × When c.ne (λ e. strict_eq v e ≡ false)
      × When c.gt (λ t. Compares (λ a b. js.lt b a) v t)
      × When c.gte (λ t. Compares (λ a b. js.le b a) v t)
      × When c.lt (λ t. Compares js.lt v t)
      × When c.lte (λ t. Compares js.le v t)
      × When c.one_of (λ arr. includes arr v ≡ true)
      × When c.like (λ p. IsLike v p)

  abbrev pub SatisfiesClause : Clause N → Value N → Type 0
  SatisfiesClause (bare value) v = strict_eq v value ≡ true
  SatisfiesClause (cond c) v = Satisfies c v

  number_check_iff :
      (test : N → N → Bool) (t v : Value N) → (number_check test t v ≡ true) ↔ Compares test v t
  unfolding number_check
  number_check_iff test t (num a) = (λ h. (a, refl, h), λ h. ground arith)
  number_check_iff test t _ = (λ h. cc, λ h. ground arith)

  like_check_iff : (pattern v : Value N) → (like_check pattern v ≡ true) ↔ IsLike v pattern
  unfolding like_check
  like_check_iff pattern (str s) = (
    λ h. (s, refl, (like_test-LikeMatch (to_text pattern) s).0 h),
    λ h. let e : h.0 ≡ s = cc h.1 in (like_test-LikeMatch (to_text pattern) s).1 (rw e at h.2),
  )
  like_check_iff pattern _ = (λ h. cc, λ h. ground arith)

  run_checks-push :
      {A : Type 0} (o : Option A) (check : A → Check N) (P : A → Type 0) (later : List (Check N))
      (v : Value N)
      → ((a : A) → (check a v ≡ true) ↔ P a)
      → (run_checks (push o check later) v ≡ true) ↔ (When o P × (run_checks later v ≡ true))
  unfolding run_checks push
  run_checks-push none check P later v iff = (λ h. (tt, h), λ h. h.1)
  run_checks-push (some a) check P later v iff =
      (λ h. ((iff a).0 (ground arith), ground arith), λ h. ground (arith, (iff a).1 h.0, h.1))

  run_checks-cons_iff :
      (check : Check N) (checks : List (Check N)) (v : Value N)
      → (run_checks (check ∷ checks) v ≡ true) ↔ ((check v ≡ true) × (run_checks checks v ≡ true))
  unfolding run_checks
  run_checks-cons_iff check checks v = (λ h. (ground arith, ground arith), λ h. ground (arith, h))

  -- The closure for one column does what the loop over the columns does.
  close_columns-eq-run_columns :
      (columns : List (Text × List (Check N))) (row : Row N)
      → close_columns columns row ≡ run_columns columns row
  unfolding close_columns
  close_columns-eq-run_columns [] row = refl
  close_columns-eq-run_columns (c ∷ []) row = ground arith
  close_columns-eq-run_columns (c ∷ d ∷ columns) row = refl

not_iff : (b : Bool) → (not b ≡ true) ↔ (b ≡ false)
not_iff b = (λ h. ground arith, λ h. ground arith)

module _ {N : Type 0} ⦃js : JsNumber N⦄ (laws : EqLaws js) where
  compile_condition_sound :
      (c : Condition N) (v : Value N) → run_checks (compile_condition c) v ≡ true → Satisfies c v
  unfolding compile_condition
  compile_condition_sound c v h =
      let r0 =
        (run_checks-push c.eq _ (λ e. strict_eq v e ≡ true) _ v (λ e. (λ h. h, λ h. h))).0 h in
      let r1 =
        (run_checks-push c.ne _ (λ e. strict_eq v e ≡ false) _ v (λ e. not_iff (strict_eq v e))).0
          r0.1 in
      let r2 =
        (run_checks-push c.gt _ (λ t. Compares (λ a b. js.lt b a) v t) _ v
            (λ t. number_check_iff (λ a b. js.lt b a) t v)).0
          r1.1 in
      let r3 =
        (run_checks-push c.gte _ (λ t. Compares (λ a b. js.le b a) v t) _ v
            (λ t. number_check_iff (λ a b. js.le b a) t v)).0
          r2.1 in
      let r4 =
        (run_checks-push c.lt _ (λ t. Compares js.lt v t) _ v (λ t. number_check_iff js.lt t v)).0
          r3.1 in
      let r5 =
        (run_checks-push c.lte _ (λ t. Compares js.le v t) _ v (λ t. number_check_iff js.le t v)).0
          r4.1 in
      let r6 =
        (run_checks-push c.one_of _ (λ arr. includes arr v ≡ true) _ v
            (λ arr. (
              λ h. rw (← in_check-eq-includes laws arr v) h,
              λ h. rw (in_check-eq-includes laws arr v) h,
            ))).0
          r5.1 in
      let r7 = (run_checks-push c.like _ (λ p. IsLike v p) _ v (λ p. like_check_iff p v)).0 r6.1 in
      (r0.0, r1.0, r2.0, r3.0, r4.0, r5.0, r6.0, r7.0)

  compile_condition_complete :
      (c : Condition N) (v : Value N) → Satisfies c v → run_checks (compile_condition c) v ≡ true
  unfolding compile_condition run_checks
  compile_condition_complete c v h =
      (run_checks-push c.eq _ (λ e. strict_eq v e ≡ true) _ v (λ e. (λ h. h, λ h. h))).1 (
        h.0,
        (run_checks-push c.ne _ (λ e. strict_eq v e ≡ false) _ v (λ e. not_iff (strict_eq v e))).1 (
          h.1,
          (run_checks-push c.gt _ (λ t. Compares (λ a b. js.lt b a) v t) _ v
                (λ t. number_check_iff (λ a b. js.lt b a) t v)).1
              (
                h.2,
                (run_checks-push c.gte _ (λ t. Compares (λ a b. js.le b a) v t) _ v
                      (λ t. number_check_iff (λ a b. js.le b a) t v)).1
                    (
                      h.3,
                      (run_checks-push c.lt _ (λ t. Compares js.lt v t) _ v
                            (λ t. number_check_iff js.lt t v)).1
                          (
                            h.4,
                            (run_checks-push c.lte _ (λ t. Compares js.le v t) _ v
                                  (λ t. number_check_iff js.le t v)).1
                                (
                                  h.5,
                                  (run_checks-push c.one_of _ (λ arr. includes arr v ≡ true) _ v
                                        (λ arr. (
                                          λ h. rw (← in_check-eq-includes laws arr v) h,
                                          λ h. rw (in_check-eq-includes laws arr v) h,
                                        ))).1
                                      (
                                        h.6,
                                        (run_checks-push c.like _ (λ p. IsLike v p) _ v
                                              (λ p. like_check_iff p v)).1
                                            (h.7, refl),
                                      ),
                                ),
                          ),
                    ),
              ),
        ),
      )

  compile_clause_iff :
      (c : Clause N) (v : Value N) → (run_checks (compile_clause c) v ≡ true) ↔ SatisfiesClause c v
  compile_clause_iff (bare value) v =
      unfold compile_clause run_checks in (λ h. ground arith, λ h. ground arith)
  compile_clause_iff (cond c) v =
      unfold compile_clause in (compile_condition_sound c v, compile_condition_complete c v)

  abbrev compiled : Where N → List (Text × List (Check N))
  compiled = map (λ e. (e.0, compile_clause e.1))

  run_columns_iff :
      (w : Where N) (row : Row N)
      → (run_columns (compiled w) row ≡ true) ↔ All (λ e. SatisfiesClause e.1 (field row e.0)) w
  unfolding run_columns
  run_columns_iff [] row = (λ h. tt, λ h. refl)
  run_columns_iff ((col, c) ∷ w) row =
      let one = compile_clause_iff c (field row col) in
      let rest = run_columns_iff w row in
      (
        λ h. (one.0 (ground arith), rest.0 (ground arith)),
        λ h. ground (arith, one.1 h.0, rest.1 h.1),
      )

  -- A row matches a `where` clause exactly if, in every column that the clause names, its cell
  -- satisfies each operator that is there; the closure for one column and the loop for several
  -- agree on this.
  pub matches_where_iff :
      (row : Row N) (w : Where N)
      → (matches_where row (some w) ≡ true) ↔ All (λ e. SatisfiesClause e.1 (field row e.0)) w
  unfolding matches_where
  matches_where_iff row w = rw close_columns-eq-run_columns (run_columns_iff w row)
