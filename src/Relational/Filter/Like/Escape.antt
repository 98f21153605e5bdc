-- ===== src/Relational/Filter/Like/Escape.antt =====
-- filter.ts: the escapes of `likeToRegExp` leave nothing special but `%` and `_`.
use takyondb.Prelude.{
  ℕ, ◌≡◌, refl, true, false, [], ◌∷◌, ◌++◌, map, some, arith, ◌==◌, if◌then◌else◌, inl, inr,
  Bool-cases,
}
use mathlib.Core.Option
use takyondb.Js.Text.{Text}
use takyondb.Relational.Filter.Like.{
  Token, any_run, any_one, literal, is_meta, like_piece, like_source, read_tokens,
}

-- What each character of a pattern means.
abbrev pub token_of : ℕ → Token
token_of c = if c == b'%' then any_run else if c == b'_' then any_one else literal c

-- A text that does not go on with a `*`, so that a dot before it stands alone.
abbrev NoStar : Text → Type 0
NoStar [] = Unit
NoStar (c ∷ s) = (c == b'*') ≡ false

meta_ne : (c k : ℕ) → is_meta k ≡ true → is_meta c ≡ false → (c == k) ≡ false
meta_ne c k m h = ground arith

-- A character that is not special is none of those that the reader treats apart.
plain :
    (c : ℕ)
    → is_meta c ≡ false
    → ((c == b'.') ≡ false) × ((c == 92) ≡ false) × ((c == b'*') ≡ false)
unfolding is_meta
plain c h = (meta_ne c b'.' refl h, meta_ne c 92 refl h, meta_ne c b'*' refl h)

data OfOne (c : ℕ) : Type 0 where
  percent : c ≡ b'%' → OfOne c
  underscore : c ≡ b'_' → OfOne c
  escaped : like_piece c ≡ 92 ∷ c ∷ [] → token_of c ≡ literal c → OfOne c
  itself : like_piece c ≡ c ∷ [] → token_of c ≡ literal c → is_meta c ≡ false → OfOne c

like_piece-OfOne : (c : ℕ) → OfOne c
unfolding like_piece
like_piece-OfOne c = elim (Bool-cases (c == b'%')) [
  | inl p ↦ percent (ground arith)
  | inr p ↦ elim (Bool-cases (c == b'_')) [
    | inl q ↦ underscore (ground arith)
    | inr q ↦ elim (Bool-cases (is_meta c)) [
      | inl m ↦ escaped (rw (p, q, m)) (rw (p, q))
      | inr m ↦ itself (rw (p, q, m)) (rw (p, q)) m
    ]
  ]
]

like_source-NoStar : (pattern : Text) → NoStar (like_source pattern)
unfolding like_source
like_source-NoStar [] = tt
like_source-NoStar (c ∷ pattern) = elim (like_piece-OfOne c) [
  | percent e ↦ rw e (unfold like_piece in refl)
  | underscore e ↦ rw e (unfold like_piece in refl)
  | escaped e t ↦ rw e refl
  | itself e t m ↦ rw e (plain c m).2
]

read-like_piece :
    (c : ℕ) (s : Text)
    → NoStar s
    → read_tokens (like_piece c ++ s) ≡ Option.map (λ ts. token_of c ∷ ts) (read_tokens s)
unfolding read_tokens
read-like_piece c [] h = elim (like_piece-OfOne c) [
  | percent e ↦ rw e (unfold like_piece in refl)
  | underscore e ↦ rw e (unfold like_piece in refl)
  | escaped e t ↦ rw (e, t) refl
  | itself e t m ↦ rw (e, t) (ground (arith, plain c m, m))
]
read-like_piece c (d ∷ s) h = elim (like_piece-OfOne c) [
  | percent e ↦ rw e (unfold like_piece in refl)
  | underscore e ↦ rw e (unfold like_piece in rw h refl)
  | escaped e t ↦ rw (e, t) refl
  | itself e t m ↦ rw (e, t) (ground (arith, plain c m, m))
]

-- Reading back the source built for a pattern gives one term for each of its characters: `.*` for
-- `%`, `.` for `_`, and for every other character, a metacharacter or not, that character itself.
pub read-like_source :
    (pattern : Text) → read_tokens (like_source pattern) ≡ some (map token_of pattern)
unfolding like_source
read-like_source [] = unfold read_tokens in refl
read-like_source (c ∷ pattern) =
    rw (
      read-like_piece c (like_source pattern) (like_source-NoStar pattern),
      read-like_source pattern,
    )
