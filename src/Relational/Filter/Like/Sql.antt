-- ===== src/Relational/Filter/Like/Sql.antt =====
-- filter.ts: LIKE against the pattern language of SQL.
use takyondb.Prelude.{ℕ, ◌≡◌, ◌≢◌, ◌↔◌, true, [], ◌∷◌, ◌++◌, All, subst}
use takyondb.Js.Text.{Text}
use takyondb.Relational.Filter.Like.{like_test}
use takyondb.Relational.Filter.Like.Matches.{
  OnLine, LikeMatch, done, percent, underscore, same, like_test-LikeMatch,
}

-- In SQL, `%` stands for any text, `_` for any one character (here a UTF-16 unit), and every other
-- character for itself.
pub data SqlMatch : Text → Text → Type 0 where
  ended : SqlMatch [] []
  any_text :
      (c : ℕ) (pattern run rest s : Text)
      → c ≡ b'%'
      → s ≡ run ++ rest
      → SqlMatch pattern rest
      → SqlMatch (c ∷ pattern) s
  any_unit :
      (c d : ℕ) (pattern s : Text) → c ≡ b'_' → SqlMatch pattern s → SqlMatch (c ∷ pattern) (d ∷ s)
  itself :
      (c d : ℕ) (pattern s : Text)
      → c ≢ b'%'
      → c ≢ b'_'
      → d ≡ c
      → SqlMatch pattern s
      → SqlMatch (c ∷ pattern) (d ∷ s)

All-split : (s t : Text) → All OnLine (s ++ t) → All OnLine s × All OnLine t
All-split [] t h = (tt, h)
All-split (c ∷ s) t h = let (a, b) = All-split s t h.1 in ((h.0, a), b)

LikeMatch→SqlMatch : (pattern s : Text) → LikeMatch pattern s → SqlMatch pattern s
LikeMatch→SqlMatch _ _ done = ended
LikeMatch→SqlMatch _ _ (percent c pattern run rest s e line split m) =
    any_text c pattern run rest s e split (LikeMatch→SqlMatch pattern rest m)
LikeMatch→SqlMatch _ _ (underscore c d pattern s e line m) =
    any_unit c d pattern s e (LikeMatch→SqlMatch pattern s m)
LikeMatch→SqlMatch _ _ (same c d pattern s p q e m) =
    itself c d pattern s p q e (LikeMatch→SqlMatch pattern s m)

SqlMatch→LikeMatch : (pattern s : Text) → All OnLine s → SqlMatch pattern s → LikeMatch pattern s
SqlMatch→LikeMatch _ _ line ended = done
SqlMatch→LikeMatch _ _ line (any_text c pattern run rest s e split m) =
    let (before, behind) = All-split run rest (subst (All OnLine) split line) in
    percent c pattern run rest s e before split (SqlMatch→LikeMatch pattern rest behind m)
SqlMatch→LikeMatch _ _ line (any_unit c d pattern s e m) =
    underscore c d pattern s e line.0 (SqlMatch→LikeMatch pattern s line.1 m)
SqlMatch→LikeMatch _ _ line (itself c d pattern s p q e m) =
    same c d pattern s p q e (SqlMatch→LikeMatch pattern s line.1 m)

-- On a text without a line terminator, the predicate that a LIKE pattern compiles to holds exactly
-- if the pattern matches the text as in SQL, whatever regular-expression syntax the pattern holds.
pub like_test_iff :
    (pattern s : Text) → All OnLine s → (like_test pattern s ≡ true) ↔ SqlMatch pattern s
like_test_iff pattern s line =
    let (to, from) = like_test-LikeMatch pattern s in
    (λ h. LikeMatch→SqlMatch pattern s (to h), λ m. from (SqlMatch→LikeMatch pattern s line m))

-- The pattern `%`, which matches every text in SQL, does not match a line feed.
newline-refused : ¬ (like_test (b'%' ∷ []) (10 ∷ []) ≡ true)
unfolding like_test
newline-refused h = cc
