-- ===== src/Js/Sorting.antt =====
-- `Array.prototype.sort` with a comparison function that orders the elements: the result ascends,
-- and elements that tie keep their order.
use takyondb.Prelude.{
  ◌≡◌, refl, ◌∙◌, ap, Bool, true, false, ◌&&◌, List, [], ◌∷◌, All, arith, if◌then◌else◌, inl, inr,
  Bool-cases,
}
use takyondb.Js.Order.{Ordering, less, equal, greater, place, sort}

module _ {ℓ} {A : Type ℓ} where
  unfoldable pub keep : (A → Bool) → List A → List A
  keep f [] = []
  keep f (x ∷ xs) = let rest = keep f xs in if f x then x ∷ rest else rest

  exchange :
      (p q : Bool) (x y : A) (rest : List A)
      → (p && q) ≡ false
      → (let kept = if p then x ∷ rest else rest in if q then y ∷ kept else kept)
        ≡ (let kept = if q then y ∷ rest else rest in if p then x ∷ kept else kept)
  exchange true true x y rest h = cc
  exchange true false x y rest h = refl
  exchange false q x y rest h = refl

  module _ (compare : A → A → Ordering) where
    -- The one need not come behind the other.
    unfoldable pub precedes : A → A → Bool
    precedes x y = elim (compare x y) [ greater ↦ false | less ↦ true | equal ↦ true ]

    abbrev pub tied : A → A → Bool
    tied x y = precedes x y && precedes y x

    -- Each element precedes every later one.
    abbrev pub Ascends : List A → Type 0
    Ascends [] = Unit
    Ascends (x ∷ xs) = All (λ y. precedes x y ≡ true) xs × Ascends xs

    place-stops :
        (x y : A) (ys : List A) → precedes x y ≡ true → place compare x (y ∷ ys) ≡ x ∷ y ∷ ys
    unfolding place precedes
    place-stops x y ys h = ground arith

    place-passes :
        (x y : A) (ys : List A)
        → precedes x y ≡ false
        → place compare x (y ∷ ys) ≡ y ∷ place compare x ys
    unfolding place precedes
    place-passes x y ys h = ground arith

    place-All {κ} :
        (Q : A → Type κ) (x : A) (ys : List A) → Q x → All Q ys → All Q (place compare x ys)
    unfolding place
    place-All Q x [] q qs = (q, tt)
    place-All Q x (y ∷ ys) q qs = elim (Bool-cases (precedes x y)) [
      | inl stop ↦ rw (place-stops x y ys stop) (q, qs)
      | inr pass ↦ rw (place-passes x y ys pass) (qs.0, place-All Q x ys q qs.1)
    ]

    pub sort-All {κ} : (Q : A → Type κ) (xs : List A) → All Q xs → All Q (sort compare xs)
    unfolding sort
    sort-All Q [] qs = tt
    sort-All Q (x ∷ xs) qs = place-All Q x (sort compare xs) qs.0 (sort-All Q xs qs.1)

    -- The comparison orders the elements that are of a kind.
    pub record Orders {κ} (P : A → Type κ) : Type (ℓ ⊔ κ) where
      pub total : (x y : A) → P x → P y → precedes x y ≡ false → precedes y x ≡ true
      pub transitive :
          (x y z : A)
          → P x
          → P y
          → P z
          → precedes x y ≡ true
          → precedes y z ≡ true
          → precedes x z ≡ true

    module _ {κ} (P : A → Type κ) (o : Orders P) where
      place-Ascends :
          (x : A) (ys : List A) → P x → All P ys → Ascends ys → Ascends (place compare x ys)
      unfolding place
      place-Ascends x [] p ps up = (tt, tt)
      place-Ascends x (y ∷ ys) p ps up = elim (Bool-cases (precedes x y)) [
        | inl stop ↦ rw (place-stops x y ys stop) ((stop, below x y ys p ps.0 ps.1 stop up.0), up)
        | inr pass ↦ rw (place-passes x y ys pass) (
          place-All (λ z. precedes y z ≡ true) x ys (o.total x y p ps.0 pass) up.0,
          place-Ascends x ys p ps.1 up.1,
        )
      ]
        where
          below :
              (x y : A) (zs : List A)
              → P x
              → P y
              → All P zs
              → precedes x y ≡ true
              → All (λ z. precedes y z ≡ true) zs
              → All (λ z. precedes x z ≡ true) zs
          below x y [] p q ps first rest = tt
          below x y (z ∷ zs) p q ps first rest =
              (o.transitive x y z p q ps.0 first rest.0, below x y zs p q ps.1 first rest.1)

      pub sort-Ascends : (xs : List A) → All P xs → Ascends (sort compare xs)
      unfolding sort
      sort-Ascends [] ps = tt
      sort-Ascends (x ∷ xs) ps =
          place-Ascends x (sort compare xs) ps.0 (sort-All P xs ps.1) (sort-Ascends xs ps.1)

      -- Of two elements that the one has to pass, at most one ties with a given one.
      tied-apart :
          (a x y : A) → P a → P x → P y → precedes x y ≡ false → (tied a x && tied a y) ≡ false
      tied-apart a x y pa px py pass = ground (arith, o.transitive x a y px pa py)

      keep-place :
          (a x : A) (ys : List A)
          → P a
          → P x
          → All P ys
          → keep (tied a) (place compare x ys) ≡ keep (tied a) (x ∷ ys)
      unfolding place keep
      keep-place a x [] pa p ps = refl
      keep-place a x (y ∷ ys) pa p ps = elim (Bool-cases (precedes x y)) [
        | inl stop ↦ ap (keep (tied a)) (place-stops x y ys stop)
        | inr pass ↦
            ap (keep (tied a)) (place-passes x y ys pass)
            ∙ ap (λ rest. if tied a y then y ∷ rest else rest) (keep-place a x ys pa p ps.1)
            ∙ exchange (tied a x) (tied a y) x y (keep (tied a) ys)
                (tied-apart a x y pa p ps.0 pass)
      ]

      -- The elements that tie with one keep their order.
      pub keep-sort :
          (a : A) (xs : List A)
          → P a
          → All P xs
          → keep (tied a) (sort compare xs) ≡ keep (tied a) xs
      unfolding sort keep
      keep-sort a [] pa ps = refl
      keep-sort a (x ∷ xs) pa ps =
          keep-place a x (sort compare xs) pa ps.0 (sort-All P xs ps.1)
          ∙ ap (λ rest. if tied a x then x ∷ rest else rest) (keep-sort a xs pa ps.1)
