-- ===== src/Relational/Join.antt =====
-- join.ts: the inner hash join of two tables.
pub mod Pairs
use mathlib.Core.Option.{get_or}
use takyondb.Prelude.{List, [], ◌∷◌, ◌++◌, map, none}
use takyondb.Js.Text.{Text}
use takyondb.Js.Dict.{Dict, get, put}
use takyondb.Js.Value.{Row, JsNumber, field, to_text}
use takyondb.Relational.Table.{RelationalTable, scan}

pub record JoinRow (N : Type 0) : Type 0 where
  pub left : Row N
  pub right : Row N

module _ {N : Type 0} ⦃js : JsNumber N⦄ where
  -- The first loop: the left rows by the text of their key, each group in the order of the scan.
  unfoldable pub build_groups : Text → Dict (List (Row N)) → List (Row N) → Dict (List (Row N))
  build_groups left_key build [] = build
  build_groups left_key build (r ∷ rows) =
      let k = to_text (field r left_key) in
      build_groups left_key (put k (get_or (get k build) [] ++ r ∷ []) build) rows

  -- The second loop: a key without a group adds nothing.
  unfoldable pub probe : Text → Dict (List (Row N)) → List (Row N) → List (JoinRow N)
  probe right_key build [] = []
  probe right_key build (rr ∷ rows) =
      map (λ ll. record { left = ll; right = rr })
        (get_or (get (to_text (field rr right_key)) build) [])
      ++ probe right_key build rows

  unfoldable pub hash_join : RelationalTable N → RelationalTable N → Text → Text → List (JoinRow N)
  unfolding build_groups probe
  hash_join left right left_key right_key =
      probe right_key (build_groups left_key [] (scan left none)) (scan right none)
