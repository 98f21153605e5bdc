-- ===== src/Tests/Ordered.antt =====
-- The theorem on `orderBy`, for the users from the highest number to the lowest.
use mathlib.Core.List.{Permᴰ}
use takyondb.Prelude.{ℕ, ◌≡◌, refl, ltb, true, false, none, arith}
use takyondb.Js.Text.{codes}
use takyondb.Js.Value.{Value, Row, num, field}
use takyondb.Js.Order.{value_lt, to_number}
use takyondb.Js.Sorting.{keep}
use takyondb.Relational.Filter.{matches_where}
use takyondb.Relational.Table.{scan, filter_rows}
use takyondb.Relational.Query.{QueryBuilder, new_query, order_by, desc, all}
use takyondb.Relational.Query.Ordered.{Comparable, InOrder, same_rank, all-InOrder}
use takyondb.Tests.Sample.{natural, program}
use takyondb.Tests.Queries.{two_users}

abbrev IsNumber : Value ℕ → Type 0
IsNumber v = (n : ℕ) × (v ≡ num n)

number_lt : (m n : ℕ) → value_lt (num m) (num n) ≡ ltb m n
unfolding value_lt to_number
number_lt m n = refl

number_asym : (a b : Value ℕ) → IsNumber a → IsNumber b → value_lt a b ≡ true → value_lt b a ≡ false
number_asym a b (m, e) (n, f) =
    rw e (rw f (rw (number_lt m n) (rw (number_lt n m) (λ h. ground arith))))

number_between :
    (a b c : Value ℕ)
    → IsNumber a
    → IsNumber b
    → IsNumber c
    → value_lt a b ≡ false
    → value_lt b c ≡ false
    → value_lt a c ≡ false
number_between a b c (k, e) (m, f) (n, g) = rw e (
    rw f
      (rw g (rw (number_lt k m) (rw (number_lt m n) (rw (number_lt k n) (λ h i. ground arith))))))

IsNumber-Comparable : Comparable IsNumber
IsNumber-Comparable = record { asym = number_asym; between = number_between }

abbrev by_id : QueryBuilder ℕ
by_id = order_by (new_query ℕ) (codes "id") desc

all-InOrder_example :
    Permᴰ (scan two_users none) (all two_users by_id)
    × InOrder (codes "id") desc (all two_users by_id)
    × ((a : Row ℕ)
        → IsNumber (field a (codes "id"))
        → keep (same_rank (codes "id") (field a (codes "id"))) (all two_users by_id)
          ≡ keep (same_rank (codes "id") (field a (codes "id"))) (scan two_users none))
unfolding order_by scan filter_rows matches_where program
all-InOrder_example =
    all-InOrder IsNumber IsNumber-Comparable two_users by_id b'i' (codes "d") refl refl refl refl
      ((7, refl), ((9, refl), tt))
