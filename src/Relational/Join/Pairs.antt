-- ===== src/Relational/Join/Pairs.antt =====
-- join.ts: the hash join against two nested loops.
use mathlib.Core.List.{append-nil, append_assoc}
use mathlib.Core.Option.{get_or}
use takyondb.Prelude.{
  ◌≡◌, ◌∙◌, refl, sym, ap, ite, true, false, List, [], ◌∷◌, ◌++◌, map, none, some, if◌then◌else◌,
}
use takyondb.Js.Text.{Text, text_beq, text_dec}
use takyondb.Js.Dict.{Dict, get, put, get-put}
use takyondb.Js.Value.{Row, JsNumber, field, to_text}
use takyondb.Relational.Table.{RelationalTable, scan}
use takyondb.Relational.Join.{JoinRow, build_groups, probe, hash_join}

module _ {N : Type 0} ⦃js : JsNumber N⦄ where
  -- The rows whose cell in the column has the text `k`.
  with_key : Text → Text → List (Row N) → List (Row N)
  with_key column k [] = []
  with_key column k (r ∷ rows) =
      let rest = with_key column k rows in
      if text_beq (to_text (field r column)) k then r ∷ rest else rest

  -- For each right row, its pairs with the left rows of an equal text.
  pub nested_loops : Text → Text → List (Row N) → List (Row N) → List (JoinRow N)
  nested_loops left_key right_key lefts [] = []
  nested_loops left_key right_key lefts (rr ∷ rights) =
      map (λ ll. record { left = ll; right = rr })
        (with_key left_key (to_text (field rr right_key)) lefts)
      ++ nested_loops left_key right_key lefts rights

  add_group :
      (j k : Text) (r : Row N) (build : Dict (List (Row N))) (rest : List (Row N))
      → get_or (get k (put j (get_or (get j build) [] ++ r ∷ []) build)) [] ++ rest
        ≡ get_or (get k build) [] ++ (if text_beq j k then r ∷ rest else rest)
  add_group j k r build rest =
      rw (get-put j k (get_or (get j build) [] ++ r ∷ []) build) (by_key (text_dec j k))
    where
      by_key :
          (d : Dec (j ≡ k))
          → get_or (ite d (some (get_or (get j build) [] ++ r ∷ [])) (get k build)) [] ++ rest
            ≡ get_or (get k build) [] ++ (if ite d true false then r ∷ rest else rest)
      by_key (yes e) = rw (← e) (append_assoc (get_or (get j build) []) (r ∷ []) rest)
      by_key (no ne) = refl

  get-build_groups :
      (column k : Text) (build : Dict (List (Row N))) (rows : List (Row N))
      → get_or (get k (build_groups column build rows)) []
        ≡ get_or (get k build) [] ++ with_key column k rows
  unfolding build_groups with_key
  get-build_groups column k build [] = sym (append-nil (get_or (get k build) []))
  get-build_groups column k build (r ∷ rows) =
      let j = to_text (field r column) in
      get-build_groups column k (put j (get_or (get j build) [] ++ r ∷ []) build) rows
      ∙ add_group j k r build (with_key column k rows)

  probe-nested_loops :
      (left_key right_key : Text) (lefts rights : List (Row N))
      → probe right_key (build_groups left_key [] lefts) rights
        ≡ nested_loops left_key right_key lefts rights
  unfolding probe nested_loops get with_key
  probe-nested_loops left_key right_key lefts [] = refl
  probe-nested_loops left_key right_key lefts (rr ∷ rights) =
      rw (get-build_groups left_key (to_text (field rr right_key)) [] lefts)
        (ap (λ rest. pairs rr ++ rest) (probe-nested_loops left_key right_key lefts rights))
    where
      pairs : Row N → List (JoinRow N)
      pairs rr =
          map (λ ll. record { left = ll; right = rr })
            (with_key left_key (to_text (field rr right_key)) lefts)

  -- The hash join returns the pairs of a left and a right row whose key cells have one text: for
  -- each right row in the order of its scan, the left rows in the order of theirs, each pair as
  -- often as the two scans have it.
  pub hash_join-eq-nested_loops :
      (left right : RelationalTable N) (left_key right_key : Text)
      → hash_join left right left_key right_key
        ≡ nested_loops left_key right_key (scan left none) (scan right none)
  unfolding hash_join
  hash_join-eq-nested_loops left right left_key right_key =
      probe-nested_loops left_key right_key (scan left none) (scan right none)
