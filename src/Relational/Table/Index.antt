-- ===== src/Relational/Table/Index.antt =====
-- table.ts: what the secondary maps hold after a row is indexed or removed.
use mathlib.Core.Option
use mathlib.Core.Option.{get_or}
use takyondb.Prelude.{
  ◌≡◌, ◌≢◌, refl, Bool, false, ◌&&◌, ◌||◌, not, List, [], ◌∷◌, Option, none, some, arith, ite,
  Option-cases, inl, inr,
}
use takyondb.Js.Text.{Text, text_dec, text_beq}
use takyondb.Js.TextSet.{contains, add, remove, contains-add, contains-remove, add-ne-empty}
use takyondb.Js.Dict.{Dict, get, get-put, get-delete}
use takyondb.Js.Value.{Row, JsNumber, field, to_text}
use takyondb.Relational.Table.{
  Secondary, shrink, index_entry, deindex_entry, index_row, deindex_row,
}

-- Whether the map lists the key under the value.
unfoldable pub holds : Secondary → Text → Text → Bool
holds m v pk = elim (get v m) [ none ↦ false | some set ↦ contains pk set ]

pub holds-index_entry :
    (pk v w q : Text) (m : Secondary)
    → holds (index_entry pk v m) w q ≡ ((text_beq v w && text_beq pk q) || holds m w q)
unfolding holds index_entry contains
holds-index_entry pk v w q m =
    ground
      (arith, get-put v w (add pk (get_or (get v m) [])) m, contains-add pk q (get_or (get v m) []))

holds-shrink :
    (v w q : Text) (m : Secondary) (set : List Text)
    → holds (shrink v m set) w q ≡ ite (text_dec v w) (contains q set) (holds m w q)
unfolding holds shrink
holds-shrink v w q m [] = unfold contains in ground (arith, get-delete v w m)
holds-shrink v w q m (k ∷ rest) = ground (arith, get-put v w (k ∷ rest) m)

deindex_entry-cases :
    (pk v w q : Text) (m : Secondary) (o : Option (List Text))
    → get v m ≡ o
    → holds (deindex_entry pk v m) w q ≡ (not (text_beq v w && text_beq pk q) && holds m w q)
unfolding deindex_entry holds
deindex_entry-cases pk v w q m none e = rw (e, deindex_entry) (ground arith)
deindex_entry-cases pk v w q m (some set) e =
    rw (e, deindex_entry)
      (ground (arith, holds-shrink v w q m (remove pk set), contains-remove pk q set))

pub holds-deindex_entry :
    (pk v w q : Text) (m : Secondary)
    → holds (deindex_entry pk v m) w q ≡ (not (text_beq v w && text_beq pk q) && holds m w q)
holds-deindex_entry pk v w q m = deindex_entry-cases pk v w q m (get v m) refl

-- No value is mapped to an empty set.
abbrev pub NoEmpty : Secondary → Type 0
NoEmpty m = (v : Text) → get v m ≢ some []

pub index_entry-NoEmpty : (pk v : Text) (m : Secondary) → NoEmpty m → NoEmpty (index_entry pk v m)
unfolding index_entry
index_entry-NoEmpty pk v m h w e =
    let set = get_or (get v m) [] in
    ground (arith, get-put v w (add pk set) m, add-ne-empty pk set, h w)

shrink-NoEmpty : (v : Text) (m : Secondary) (set : List Text) → NoEmpty m → NoEmpty (shrink v m set)
unfolding shrink
shrink-NoEmpty v m [] h w e = ground (arith, get-delete v w m, h w)
shrink-NoEmpty v m (k ∷ rest) h w e = ground (arith, get-put v w (k ∷ rest) m, h w)

pub deindex_entry-NoEmpty :
    (pk v : Text) (m : Secondary) → NoEmpty m → NoEmpty (deindex_entry pk v m)
unfolding deindex_entry
deindex_entry-NoEmpty pk v m h = elim (Option-cases (get v m)) [
  | inl missing ↦ rw (missing, deindex_entry) h
  | inr (set, found) ↦ rw (found, deindex_entry) (shrink-NoEmpty v m (remove pk set) h)
]

module _ {N : Type 0} ⦃js : JsNumber N⦄ (pk : Text) (row : Row N) (col : Text) where
  pub get-index_row :
      (secondary : Dict Secondary)
      → get col (index_row pk row secondary)
        ≡ Option.map (index_entry pk (to_text (field row col))) (get col secondary)
  unfolding get index_row
  get-index_row [] = refl
  get-index_row ((c, m) ∷ s) = ground (arith, get-index_row s)

  pub get-deindex_row :
      (secondary : Dict Secondary)
      → get col (deindex_row pk row secondary)
        ≡ Option.map (deindex_entry pk (to_text (field row col))) (get col secondary)
  unfolding get deindex_row
  get-deindex_row [] = refl
  get-deindex_row ((c, m) ∷ s) = ground (arith, get-deindex_row s)
