-- ===== src/Tests/Pushed.antt =====
-- The theorem on pushed filters at numbers that are natural ones or NaN.
use takyondb.Prelude.{
  ℕ, ◌≡◌, refl, ◌+◌, ◌-◌, ◌/◌, Bool, true, false, inl, err, engine_not_attached, List, [], ◌∷◌,
  Option, none, some, ltb, leb, ◌==◌,
}
use takyondb.Js.Text.{codes}
use takyondb.Js.Value.{Row, JsNumber, num, str}
use takyondb.Relational.Pushdown.{PushOpName, JsExtremes, PushBindings, push_filter_f64, columnize}
use takyondb.Relational.Pushdown.Agreement.{
  NanLaws, FilterAgrees, clause_of, matching_positions, push_filter_f64-columnize,
}

-- `none` is NaN.
both : (ℕ → ℕ → Bool) → Option ℕ → Option ℕ → Bool
both test (some a) (some b) = test a b
both test none b = false
both test (some a) none = false

either_nan : (ℕ → ℕ → ℕ) → Option ℕ → Option ℕ → Option ℕ
either_nan f (some a) (some b) = some (f a b)
either_nan f none b = none
either_nan f (some a) none = none

is_some : Option ℕ → Bool
is_some none = false
is_some (some a) = true

instance abbrev with_nan : JsNumber (Option ℕ)
unfolding both either_nan is_some
with_nan = record {
  eq = both ◌==◌;
  lt = both ltb;
  le = both leb;
  is_finite = is_some;
  add = either_nan ◌+◌;
  sub = either_nan ◌-◌;
  div = either_nan ◌/◌;
  of_ℕ = some;
  to_text = λ _. [];
  of_text = λ _. none;
}

abbrev extremes : JsExtremes (Option ℕ)
extremes = record { nan = none; positive_infinity = some 1000; negative_infinity = some 0 }

extremes-NanLaws : NanLaws extremes
unfolding both with_nan
extremes-NanLaws = record {
  never_eq = λ a. refl;
  never_lt = λ a. (refl, above a);
  never_le = λ a. (refl, above_or_equal a);
}
  where
    above : (a : Option ℕ) → both ltb a none ≡ false
    above none = refl
    above (some a) = refl

    above_or_equal : (a : Option ℕ) → both leb a none ≡ false
    above_or_equal none = refl
    above_or_equal (some a) = refl

-- A stale addon: its filter throws.
abbrev stale : PushBindings (Option ℕ)
stale = record {
  filter_u32 = none;
  filter_f64 = some (λ values code target. err engine_not_attached);
  agg_sum = none;
  agg_sum_selected = none;
  agg_min_selected = none;
  agg_max_selected = none;
}

abbrev rows : List (Row (Option ℕ))
rows =
    ((codes "age", num (some 31)) ∷ [])
    ∷ ((codes "age", str (codes "old")) ∷ [])
    ∷ ((codes "age", num (some 50)) ∷ [])
    ∷ []

push_filter_f64-columnize_example :
    push_filter_f64 stale (columnize extremes rows (codes "age")).0 PushOpName.gt (some 40)
    ≡ matching_positions 0 rows (clause_of (codes "age") PushOpName.gt (some 40))
unfolding takyondb.Relational.Pushdown.Agreement.FilterAgrees
push_filter_f64-columnize_example =
    push_filter_f64-columnize extremes extremes-NanLaws stale rows (codes "age") PushOpName.gt
      (some 40) (λ values code target. inl (engine_not_attached, refl))
