-- ===== src/Js/Dict.antt =====
-- `Map` and plain objects with string keys: association lists in insertion order.
use takyondb.Prelude.{
  ◌+◌, ◌≡◌, refl, Bool, true, false, List, [], ◌∷◌, ◌++◌, map, Option, none, some, arith, ite,
  if_pos, if_neg, length,
}
use takyondb.Js.Text.{Text, text_dec}

abbrev pub Dict {ℓ} : Type ℓ → Type ℓ
Dict V = List (Text × V)

module _ {ℓ} {V : Type ℓ} where
  -- `m.get(k)`; `none` stands for a missing key
  unfoldable pub get : Text → Dict V → Option V
  get k [] = none
  get k ((j, v) ∷ m) = ite (text_dec j k) (some v) (get k m)

  -- `m.has(k)`
  unfoldable pub has : Text → Dict V → Bool
  unfolding get
  has k m = elim (get k m) [ none ↦ false | some _ ↦ true ]

  -- `m.set(k, v)`: a key that is there keeps its place, a new one goes to the end
  unfoldable pub put : Text → V → Dict V → Dict V
  put k v [] = (k, v) ∷ []
  put k v ((j, w) ∷ m) = ite (text_dec j k) ((k, v) ∷ m) ((j, w) ∷ put k v m)

  -- `m.delete(k)`
  unfoldable pub delete : Text → Dict V → Dict V
  delete k [] = []
  delete k ((j, v) ∷ m) = let rest = delete k m in ite (text_dec j k) rest ((j, v) ∷ rest)

  -- `[...m.keys()]` and `[...m.values()]`
  abbrev pub keys : Dict V → List Text
  keys = map (λ e. e.0)

  abbrev pub values : Dict V → List V
  values = map (λ e. e.1)

  -- `{...m, ...patch}`
  unfoldable pub spread : Dict V → Dict V → Dict V
  spread m [] = m
  spread m ((k, v) ∷ patch) = spread (put k v m) patch

  -- No key twice, which is what a `Map` or an object guarantees.
  abbrev pub IsDistinct : Dict V → Type ℓ
  IsDistinct [] = Unit {ℓ}
  IsDistinct ((k, v) ∷ m) = (get k m ≡ none) × IsDistinct m

module _ {ℓ} {V : Type ℓ} where
  pub get-put :
      (k j : Text) (v : V) (m : Dict V) → get j (put k v m) ≡ ite (text_dec k j) (some v) (get j m)
  unfolding get put
  get-put k j v [] = refl
  get-put k j v ((i, w) ∷ m) = ground (arith, get-put k j v m)

  pub get-delete :
      (k j : Text) (m : Dict V) → get j (delete k m) ≡ ite (text_dec k j) none (get j m)
  unfolding get delete
  get-delete k j [] = ground arith
  get-delete k j ((i, w) ∷ m) = ground (arith, get-delete k j m)

  pub put-IsDistinct : (k : Text) (v : V) (m : Dict V) → IsDistinct m → IsDistinct (put k v m)
  unfolding get put
  put-IsDistinct k v [] h = (refl, tt)
  put-IsDistinct k v ((j, w) ∷ m) h = elim (text_dec j k) [
    | yes e ↦ rw (if_pos _ e) (rw (← e) h)
    | no e ↦ rw (if_neg _ e) (ground (arith, get-put k j v m, h), put-IsDistinct k v m h.1)
  ]

  pub delete-IsDistinct : (k : Text) (m : Dict V) → IsDistinct m → IsDistinct (delete k m)
  unfolding get delete
  delete-IsDistinct k [] h = tt
  delete-IsDistinct k ((j, w) ∷ m) h = elim (text_dec j k) [
    | yes e ↦ rw (if_pos _ e) (delete-IsDistinct k m h.1)
    | no e ↦ rw (if_neg _ e) (ground (arith, get-delete k j m, h), delete-IsDistinct k m h.1)
  ]

  -- A put of a new key appends it.
  pub put_new : (k : Text) (v : V) (m : Dict V) → get k m ≡ none → put k v m ≡ m ++ (k, v) ∷ []
  unfolding get put
  put_new k v [] h = refl
  put_new k v ((j, w) ∷ m) h = ground (arith, put_new k v m)

  -- A put of a key that is there keeps the keys and their order.
  pub keys-put : (k : Text) (v w : V) (m : Dict V) → get k m ≡ some w → keys (put k v m) ≡ keys m
  unfolding get put
  keys-put k v w [] h = cc
  keys-put k v w ((j, x) ∷ m) h = ground (arith, keys-put k v w m)

  pub delete_absent : (k : Text) (m : Dict V) → get k m ≡ none → delete k m ≡ m
  unfolding get delete
  delete_absent k [] h = refl
  delete_absent k ((j, w) ∷ m) h = ground (arith, delete_absent k m)

  -- A delete of a key that is there removes one entry.
  pub length-delete :
      (k : Text) (v : V) (m : Dict V)
      → IsDistinct m
      → get k m ≡ some v
      → length (delete k m) + 1 ≡ length m
  unfolding get delete
  length-delete k v [] d h = cc
  length-delete k v ((j, w) ∷ m) d h = ground (arith, length-delete k v m, delete_absent k m)

  -- A spread takes a key from the patch if it is there.
  pub get-spread :
      (k : Text) (patch m : Dict V)
      → IsDistinct patch
      → get k (spread m patch) ≡ elim (get k patch) [ none ↦ get k m | some v ↦ some v ]
  unfolding get spread
  get-spread k [] m d = refl
  get-spread k ((j, w) ∷ patch) m d =
      ground (arith, get-spread k patch (put j w m) d.1, get-put j k w m, d.0)

module _ {ℓ} {V : Type ℓ} where
  -- An entry between others, in a map without a key twice.
  pub get_between :
      (k : Text) (v : V) (before behind : Dict V)
      → IsDistinct (before ++ (k, v) ∷ behind)
      → get k (before ++ (k, v) ∷ behind) ≡ some v
  unfolding get
  get_between k v [] behind d = ground arith
  get_between k v ((j, w) ∷ before) behind d =
      ground (arith, get_between k v before behind d.1, d.0)

  pub delete_between :
      (k : Text) (v : V) (before behind : Dict V)
      → IsDistinct (before ++ (k, v) ∷ behind)
      → delete k (before ++ (k, v) ∷ behind) ≡ before ++ behind
  unfolding get delete
  delete_between k v [] behind d = ground (arith, delete_absent k behind, d.0)
  delete_between k v ((j, w) ∷ before) behind d =
      ground (arith, delete_between k v before behind d.1, get_between k v before behind d.1, d.0)

  pub put_between :
      (k : Text) (v w : V) (before behind : Dict V)
      → IsDistinct (before ++ (k, v) ∷ behind)
      → put k w (before ++ (k, v) ∷ behind) ≡ before ++ (k, w) ∷ behind
  unfolding get put
  put_between k v w [] behind d = ground arith
  put_between k v w ((j, u) ∷ before) behind d =
      ground (arith, put_between k v w before behind d.1, get_between k v before behind d.1, d.0)
