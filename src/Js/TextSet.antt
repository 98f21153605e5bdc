-- ===== src/Js/TextSet.antt =====
-- `Set` of strings, as the list of its elements in insertion order.
use takyondb.Prelude.{
  ◌≡◌, ◌≢◌, refl, Bool, true, false, ◌&&◌, ◌||◌, not, List, [], ◌∷◌, ◌++◌, arith, ite,
  if◌then◌else◌,
}
use takyondb.Js.Text.{Text, text_dec, text_beq}

-- `s.has(k)`
unfoldable pub contains : Text → List Text → Bool
contains k [] = false
contains k (j ∷ s) = ite (text_dec j k) true (contains k s)

-- `s.add(k)`
unfoldable pub add : Text → List Text → List Text
add k s = if contains k s then s else s ++ k ∷ []

-- `s.delete(k)`
unfoldable pub remove : Text → List Text → List Text
remove k [] = []
remove k (j ∷ s) = let rest = remove k s in ite (text_dec j k) rest (j ∷ rest)

contains-append :
    (k : Text) (s t : List Text) → contains k (s ++ t) ≡ (contains k s || contains k t)
unfolding contains
contains-append k [] t = refl
contains-append k (j ∷ s) t = ground (arith, contains-append k s t)

pub contains-add :
    (k j : Text) (s : List Text) → contains j (add k s) ≡ (text_beq k j || contains j s)
unfolding add contains
contains-add k j s = ground (arith, contains-append j s (k ∷ []))

pub contains-remove :
    (k j : Text) (s : List Text) → contains j (remove k s) ≡ (not (text_beq k j) && contains j s)
unfolding contains remove
contains-remove k j [] = ground arith
contains-remove k j (i ∷ s) = ground (arith, contains-remove k j s)

pub add-ne-empty : (k : Text) (s : List Text) → add k s ≢ []
unfolding add contains
add-ne-empty k [] = λ e. ground arith
add-ne-empty k (j ∷ s) = λ e. ground arith
