-- ===== src/Relational/Mirror/Keys.antt =====
-- utils.ts, `pkKey`: the keys of two tables never meet.
use takyondb.Prelude.{◌≡◌, true, false, [], ◌∷◌, ◌++◌, arith, ◌==◌}
use takyondb.Js.Text.{Text}
use takyondb.Relational.Column.{is_name, is_name_start, is_name_char, all_name_chars}
use takyondb.Relational.Keys.{pk_key}

-- No colon in the text.
pub NoColon : Text → Type 0
NoColon [] = Unit
NoColon (c ∷ s) = ((c == b':') ≡ false) × NoColon s

split_unique :
    (s t p q : Text) → NoColon s → NoColon t → s ++ (b':' ∷ p) ≡ t ++ (b':' ∷ q) → (s ≡ t) × (p ≡ q)
unfolding NoColon
split_unique [] [] p q a b h = ground arith
split_unique [] (d ∷ t) p q a b h = ground arith
split_unique (c ∷ s) [] p q a b h = ground arith
split_unique (c ∷ s) (d ∷ t) p q a b h = ground (arith, split_unique s t p q a.1 b.1)

all_name_chars-NoColon : (s : Text) → all_name_chars s ≡ true → NoColon s
unfolding NoColon all_name_chars is_name_char is_name_start
all_name_chars-NoColon [] h = tt
all_name_chars-NoColon (c ∷ s) h = (ground arith, all_name_chars-NoColon s (ground arith))

is_name-NoColon : (s : Text) → is_name s ≡ true → NoColon s
unfolding NoColon is_name is_name_start
is_name-NoColon [] h = tt
is_name-NoColon (c ∷ s) h = (ground arith, all_name_chars-NoColon s (ground arith))

-- Two tables with valid names have no key in common, and in one table two primary keys of different
-- texts have different keys.
pub pk_key-injective :
    (s t p q : Text)
    → is_name s ≡ true
    → is_name t ≡ true
    → pk_key s p ≡ pk_key t q
    → (s ≡ t) × (p ≡ q)
unfolding pk_key
pk_key-injective s t p q a b h =
    split_unique s t p q (is_name-NoColon s a) (is_name-NoColon t b) (ground arith)
