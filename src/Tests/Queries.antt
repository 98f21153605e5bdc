-- ===== src/Tests/Queries.antt =====
-- The theorems on queries, joins, aggregates and constraint checks at the table of users.
use takyondb.Prelude.{ℕ, ◌+◌, ◌≡◌, refl, true, [], ◌∷◌, ◌++◌, none, arith}
use takyondb.Js.Text.{codes}
use takyondb.Js.Value.{Value, Row, num, str}
use takyondb.Js.Order.{pos}
use takyondb.Relational.RowCheck.{is_defined}
use takyondb.Relational.Table.{RelationalTable, scan}
use takyondb.Relational.Database.{RelationalDatabase}
use takyondb.Relational.Query.{QueryBuilder, new_query, order_by, asc, limit, offset, all}
use takyondb.Relational.Query.Rows.{all-pages}
use takyondb.Relational.Aggregation.Pass.{OrderLaws, Aggregates, numbers, aggregate-Aggregates}
use takyondb.Relational.Join.{hash_join}
use takyondb.Relational.Join.Pairs.{nested_loops, hash_join-eq-nested_loops}
use takyondb.Tests.Sample.{natural, program, users, no_users, ada, one_user}

abbrev bob : Row ℕ
bob = (codes "id", num 9) ∷ (codes "city", str (codes "Oslo")) ∷ []

abbrev pub two_users : RelationalTable ℕ
two_users = record one_user { rows = (codes "7", ada) ∷ (codes "9", bob) ∷ [] }

abbrev by_city : QueryBuilder ℕ
by_city = order_by (new_query ℕ) (codes "city") asc

all-pages_example :
    all two_users (offset by_city (pos 0))
    ≡ all two_users (limit (offset by_city (pos 0)) (pos 1))
      ++ all two_users (offset by_city (pos (0 + 1)))
unfolding order_by
all-pages_example = all-pages two_users by_city 0 1 refl

natural-OrderLaws : OrderLaws natural
natural-OrderLaws = record { lt_irrefl = λ a. ground arith; lt_trans = λ a b c h k. ground arith }

ids : numbers (codes "id") (ada ∷ bob ∷ []) ≡ 7 ∷ 9 ∷ []
unfolding numbers program
ids = refl

aggregate-Aggregates_example : Aggregates (ada ∷ bob ∷ []) (codes "id") 7 (9 ∷ [])
aggregate-Aggregates_example =
    aggregate-Aggregates natural-OrderLaws (ada ∷ bob ∷ []) b'i' (codes "d") 7 (9 ∷ []) ids

hash_join-eq-nested_loops_example :
    hash_join two_users one_user (codes "id") (codes "id")
    ≡ nested_loops (codes "id") (codes "id") (scan two_users none) (scan one_user none)
hash_join-eq-nested_loops_example =
    hash_join-eq-nested_loops two_users one_user (codes "id") (codes "id")

abbrev oslo : Value ℕ
oslo = str (codes "Oslo")

abbrev nine : Value ℕ
nine = num 9

abbrev seven : Value ℕ
seven = num 7

abbrev shop : RelationalDatabase ℕ
shop = record { tables = (users, no_users) ∷ [] }

oslo-is_defined : is_defined oslo ≡ true
unfolding program
oslo-is_defined = refl
