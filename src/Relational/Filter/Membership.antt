-- ===== src/Relational/Filter/Membership.antt =====
-- filter.ts: the two ways in which an `in` list is searched.
use takyondb.Prelude.{◌≡◌, refl, true, ◌||◌, List, [], ◌∷◌, ◌++◌, arith, Bool-cases, inl, inr}
use takyondb.Js.Value.{Value, JsNumber, num}
use takyondb.Relational.Filter.{includes, make_set, in_check, same_value_zero}

-- Documented behaviour of `===` on numbers.
pub record EqLaws {N : Type 0} (js : JsNumber N) : Type 0 where
  pub eq_sym : (a b : N) → js.eq a b ≡ true → js.eq b a ≡ true
  pub eq_trans : (a b c : N) → js.eq a b ≡ true → js.eq b c ≡ true → js.eq a c ≡ true

module _ {N : Type 0} ⦃js : JsNumber N⦄ (laws : EqLaws js) where
  same_value_zero_trans :
      (u v w : Value N)
      → same_value_zero u v ≡ true
      → same_value_zero v w ≡ true
      → same_value_zero u w ≡ true
  unfolding same_value_zero
  same_value_zero_trans (num a) (num b) (num c) p q = ground (
    arith,
    laws.eq_trans a b c,
    laws.eq_sym a b,
    laws.eq_sym b c,
    laws.eq_trans b a b,
    laws.eq_trans b c b,
    laws.eq_trans a b a,
    laws.eq_trans c b c,
  )
  same_value_zero_trans u v w p q = ground arith

  includes_trans :
      (set : List (Value N)) (v w : Value N)
      → includes set v ≡ true
      → same_value_zero v w ≡ true
      → includes set w ≡ true
  unfolding includes
  includes_trans [] v w p q = cc
  includes_trans (u ∷ set) v w p q =
      ground (arith, same_value_zero_trans u v w, includes_trans set v w)

  includes-append :
      (s t : List (Value N)) (v : Value N) → includes (s ++ t) v ≡ (includes s v || includes t v)
  unfolding includes
  includes-append [] t v = refl
  includes-append (u ∷ s) t v = ground (arith, includes-append s t v)

  includes-make_set :
      (set arr : List (Value N)) (v : Value N)
      → includes (make_set set arr) v ≡ (includes set v || includes arr v)
  unfolding make_set
  includes-make_set set [] v = ground arith
  includes-make_set set (w ∷ arr) v = elim (Bool-cases (includes set w)) [
    | inl old ↦ rw old (ground (arith, includes-make_set set arr v, includes_trans set w v old))
    | inr new ↦
        rw new
          (ground (arith, includes-make_set (set ++ w ∷ []) arr v, includes-append set (w ∷ []) v))
  ]

  -- A long `in` list, which is tested through a `Set`, accepts exactly the cells that a search
  -- of the list accepts.
  pub in_check-eq-includes : (arr : List (Value N)) (v : Value N) → in_check arr v ≡ includes arr v
  unfolding in_check includes
  in_check-eq-includes arr v = ground (arith, includes-make_set [] arr v)
