-- ===== src/Tests/Filters.antt =====
-- The theorems on `where` clauses at concrete patterns and rows.
use takyondb.Prelude.{arith, refl, ◌≡◌, ◌↔◌, true, List, [], ◌∷◌, map, none, some, All}
use takyondb.Prelude.{ℕ}
use takyondb.Js.Text.{Text, codes}
use takyondb.Js.Value.{Value, num, str, field}
use takyondb.Relational.Filter.{Where, bare, cond, in_check, includes, matches_where}
use takyondb.Relational.Filter.Like.{is_line_terminator, like_test}
use takyondb.Relational.Filter.Like.Matches.{OnLine}
use takyondb.Relational.Filter.Like.Sql.{SqlMatch, like_test_iff}
use takyondb.Relational.Filter.Membership.{in_check-eq-includes}
use takyondb.Relational.Filter.Compile.{SatisfiesClause, matches_where_iff}
use takyondb.Relational.Filter.Cache.{WhereObject, cached, matches_cached}
use takyondb.Relational.Filter.Cache.Transparent.{IsFaithful, matches_cached-matches_where}
use takyondb.Tests.Sample.{natural, natural-EqLaws, ada}

abbrev pattern : Text
pattern = codes "a%.b_"

pattern-OnLine : All OnLine (codes "axx.bc")
unfolding is_line_terminator
pattern-OnLine = (refl, (refl, (refl, (refl, (refl, (refl, tt))))))

like_test_iff_example :
    (like_test pattern (codes "axx.bc") ≡ true) ↔ SqlMatch pattern (codes "axx.bc")
like_test_iff_example = like_test_iff pattern (codes "axx.bc") pattern-OnLine

abbrev numbers : List (Value ℕ)
numbers = map num (1 ∷ 2 ∷ 3 ∷ 4 ∷ 5 ∷ 6 ∷ 7 ∷ 8 ∷ 9 ∷ [])

in_check-eq-includes_example : in_check numbers (num 7) ≡ includes numbers (num 7)
in_check-eq-includes_example = in_check-eq-includes natural-EqLaws numbers (num 7)

abbrev filter : Where ℕ
filter =
    (codes "city", bare (str (codes "Paris")))
    ∷ (
      codes "id",
      cond (record {
        eq = none;
        ne = none;
        gt = some (num 3);
        gte = none;
        lt = none;
        lte = none;
        one_of = some numbers;
        like = none;
      }),
    )
    ∷ []

matches_where_iff_example :
    (matches_where ada (some filter) ≡ true) ↔ All (λ e. SatisfiesClause e.1 (field ada e.0)) filter
matches_where_iff_example = matches_where_iff natural-EqLaws ada filter

abbrev object : WhereObject ℕ
object = record { identity = 1; clause = filter }

abbrev held : ℕ → Where ℕ
held i = filter

nothing-IsFaithful : IsFaithful held []
unfolding IsFaithful cached
nothing-IsFaithful i fn h = ground arith

matches_cached-matches_where_example :
    ((matches_cached [] ada (some object)).1 ≡ matches_where ada (some filter))
    × IsFaithful held (matches_cached [] ada (some object)).0
matches_cached-matches_where_example =
    matches_cached-matches_where held [] ada object nothing-IsFaithful refl
