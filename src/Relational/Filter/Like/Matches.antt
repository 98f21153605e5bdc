-- ===== src/Relational/Filter/Like/Matches.antt =====
-- filter.ts: which texts the expression of a LIKE pattern matches.
use takyondb.Prelude.{
  ℕ, ◌≡◌, ◌≢◌, ◌↔◌, refl, ap, Bool, true, false, [], ◌∷◌, ◌++◌, map, arith, ◌==◌, All, inl, inr,
  Bool-cases,
}
use takyondb.Js.Text.{Text}
use takyondb.Relational.Filter.Like.{
  Token, any_run, any_one, literal, is_line_terminator, after_run, test_tokens, test_read,
  like_test,
}
use takyondb.Relational.Filter.Like.Escape.{token_of, read-like_source}

abbrev pub OnLine : ℕ → Type 0
OnLine c = is_line_terminator c ≡ false

-- As the expression reads the pattern: `%` stands for any text without a line terminator, `_` for one code unit that is none, and
-- every other character for itself.
pub data LikeMatch : Text → Text → Type 0 where
  done : LikeMatch [] []
  percent :
      (c : ℕ) (pattern run rest s : Text)
      → c ≡ b'%'
      → All OnLine run
      → s ≡ run ++ rest
      → LikeMatch pattern rest
      → LikeMatch (c ∷ pattern) s
  underscore :
      (c d : ℕ) (pattern s : Text)
      → c ≡ b'_'
      → OnLine d
      → LikeMatch pattern s
      → LikeMatch (c ∷ pattern) (d ∷ s)
  same :
      (c d : ℕ) (pattern s : Text)
      → c ≢ b'%'
      → c ≢ b'_'
      → d ≡ c
      → LikeMatch pattern s
      → LikeMatch (c ∷ pattern) (d ∷ s)

after_run-splits :
    (f : Text → Bool) (s : Text)
    → after_run f s ≡ true
    → (run : Text) × (rest : Text) × All OnLine run × (s ≡ run ++ rest) × (f rest ≡ true)
unfolding after_run
after_run-splits f [] h = ([], [], tt, refl, h)
after_run-splits f (c ∷ s) h = elim (Bool-cases (f (c ∷ s))) [
  | inl now ↦ ([], c ∷ s, tt, refl, now)
  | inr later ↦
      let (run, rest, line, e, good) = after_run-splits f s (ground arith) in
      (c ∷ run, rest, (ground arith, line), ap (◌∷◌ c) e, good)
]

splits-after_run :
    (f : Text → Bool) (run rest : Text)
    → All OnLine run
    → f rest ≡ true
    → after_run f (run ++ rest) ≡ true
unfolding after_run
splits-after_run f [] [] h g = g
splits-after_run f [] (c ∷ rest) h g = ground arith
splits-after_run f (c ∷ run) rest h g = ground (arith, splits-after_run f run rest h.1 g)

data Kind (c : ℕ) : Type 0 where
  is_percent : c ≡ b'%' → token_of c ≡ any_run → Kind c
  is_underscore : c ≡ b'_' → token_of c ≡ any_one → Kind c
  is_literal : c ≢ b'%' → c ≢ b'_' → token_of c ≡ literal c → Kind c

kind : (c : ℕ) → Kind c
kind c = elim (Bool-cases (c == b'%')) [
  | inl p ↦ is_percent (ground arith) (ground arith)
  | inr p ↦ elim (Bool-cases (c == b'_')) [
    | inl q ↦ is_underscore (ground arith) (ground arith)
    | inr q ↦ is_literal (ground arith) (ground arith) (ground arith)
  ]
]

-- One character of the pattern, with the rest of it done.
test-cons :
    (c : ℕ) (pattern : Text)
    → ((s : Text) → test_tokens (map token_of pattern) s ≡ true → LikeMatch pattern s)
    → (t : Token) (s : Text) → token_of c ≡ t
    → Kind c
    → test_tokens (t ∷ map token_of pattern) s ≡ true
    → LikeMatch (c ∷ pattern) s
unfolding test_tokens
test-cons c pattern ih any_run s e k h =
    let (run, rest, line, split, good) =
      after_run-splits (test_tokens (map token_of pattern)) s h in
    percent c pattern run rest s
      (elim k [ is_percent p _ ↦ p | is_underscore _ q ↦ cc | is_literal _ _ q ↦ cc ]) line split
      (ih rest good)
test-cons c pattern ih any_one [] e k h = cc
test-cons c pattern ih any_one (d ∷ s) e k h =
    underscore c d pattern s
      (elim k [ is_percent _ q ↦ cc | is_underscore p _ ↦ p | is_literal _ _ q ↦ cc ])
      (ground arith) (ih s (ground arith))
test-cons c pattern ih (literal x) [] e k h = cc
test-cons c pattern ih (literal x) (d ∷ s) e k h = elim k [
  | is_percent _ q ↦ cc
  | is_underscore _ q ↦ cc
  | is_literal p r q ↦ same c d pattern s p r (ground arith) (ih s (ground arith))
]

test_tokens→LikeMatch :
    (pattern s : Text) → test_tokens (map token_of pattern) s ≡ true → LikeMatch pattern s
unfolding test_tokens
test_tokens→LikeMatch [] [] h = done
test_tokens→LikeMatch [] (c ∷ s) h = cc
test_tokens→LikeMatch (c ∷ pattern) s h =
    test-cons c pattern (test_tokens→LikeMatch pattern) (token_of c) s refl (kind c) h

LikeMatch→test_tokens :
    (pattern s : Text) → LikeMatch pattern s → test_tokens (map token_of pattern) s ≡ true
unfolding test_tokens
LikeMatch→test_tokens _ _ done = refl
LikeMatch→test_tokens _ _ (percent c pattern run rest s e line split m) =
    rw (e, split)
      (splits-after_run (test_tokens (map token_of pattern)) run rest line
        (LikeMatch→test_tokens pattern rest m))
LikeMatch→test_tokens _ _ (underscore c d pattern s e line m) =
    rw e (rw line (LikeMatch→test_tokens pattern s m))
LikeMatch→test_tokens _ _ (same c d pattern s p q e m) =
    ground (arith, LikeMatch→test_tokens pattern s m)

like_test-tokens : (pattern s : Text) → like_test pattern s ≡ test_tokens (map token_of pattern) s
unfolding like_test
like_test-tokens pattern s = ap (λ o. test_read o s) (read-like_source pattern)

-- What the predicate of a LIKE pattern holds of, whatever regular-expression syntax the pattern holds.
pub like_test-LikeMatch : (pattern s : Text) → (like_test pattern s ≡ true) ↔ LikeMatch pattern s
like_test-LikeMatch pattern s =
    rw like_test-tokens (test_tokens→LikeMatch pattern s, LikeMatch→test_tokens pattern s)
