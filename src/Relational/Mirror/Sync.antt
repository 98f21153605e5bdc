-- ===== src/Relational/Mirror/Sync.antt =====
-- mirror.ts, `syncTable`: what the lookups find after a bulk load.
use takyondb.Prelude.{
  ℕ, ◌<◌, ◌≡◌, ◌∙◌, refl, ap, sym, inr, subst, Bool, true, false, List, [], ◌∷◌, none, Result, ok,
  err, All, arith,
}
use takyondb.Js.Text.{Text, text_dec}
use takyondb.Js.Value.{Value, Row, JsNumber, str, num, bool, null, undefined, bytes, field, to_text}
use takyondb.Js.Utf8.{Utf8, Survives}
use takyondb.Js.Order.{ℤ, pos, negsuc}
use takyondb.Relational.Column.{is_name}
use takyondb.Relational.Keys.{encode_pk, pk_key}
use takyondb.Relational.Table.{RelationalTable, scan}
use takyondb.Relational.Mirror.{
  TakyonBindings, to_offset, mirror_pk, lookup_pk, continue_after, sync_rows, sync_table,
}
use takyondb.Relational.Mirror.Lookups.{
  IndexLaws, lookup_pk-key, lookup_pk-mirror_pk, lookup_pk-mirror_pk-other,
}

module _ {S : Type 0} where
  pub continue_after-inv :
      (p : S × Result (Unit {0})) (rest : S → S × Result (Unit {0})) {s' : S}
      → continue_after p rest ≡ (s', ok tt)
      → (mid : S) × (p ≡ (mid, ok tt)) × (rest mid ≡ (s', ok tt))
  unfolding continue_after
  continue_after-inv (s, ok tt) rest h = (s, refl, h)
  continue_after-inv (s, err e) rest h = absurd (ground arith)

-- Every offset that is handed out lies below the reserved one.
unfoldable pub BelowReserved : (Text → ℤ) → Type 0
BelowReserved offset_of = (k : Text) (n : ℕ) → offset_of k ≡ pos n → n < 2147483647

module _ {N : Type 0} where
  -- A key that is published and looked up under one text: any but an array of bytes, which is
  -- published as the text of its numbers and looked up in hexadecimal.
  unfoldable pub is_text_key : Value N → Bool
  is_text_key (str s) = true
  is_text_key (num a) = true
  is_text_key (bool x) = true
  is_text_key _ = false

  encode_pk-is_text_key :
      ⦃js : JsNumber N⦄ (v : Value N) → is_text_key v ≡ true → encode_pk v ≡ ok (to_text v)
  unfolding encode_pk is_text_key to_text
  encode_pk-is_text_key (str s) h = refl
  encode_pk-is_text_key (num a) h = refl
  encode_pk-is_text_key (bool x) h = refl
  encode_pk-is_text_key null h = absurd (ground arith)
  encode_pk-is_text_key undefined h = absurd (ground arith)
  encode_pk-is_text_key (bytes i s) h = absurd (ground arith)

module _ {S : Type 0} (N : Type 0) ⦃js : JsNumber N⦄ (b : TakyonBindings S) (utf8 : Utf8)
    (laws : IndexLaws b utf8) (name : Text) (offset_of : Text → ℤ) where
  abbrev key : Text → Value N
  key k = str k

  -- The text is looked up at the offset that it was handed.
  abbrev Listed : S → Text → Type 0
  Listed s k = lookup_pk b s name (key k) ≡ ok (to_offset (offset_of k))

  -- A row whose primary key is looked up at the offset that its text was handed.
  abbrev pub Found : Text → S → Row N → Type 0
  Found primary_key s row =
      lookup_pk b s name (field row primary_key)
      ≡ ok (to_offset (offset_of (to_text (field row primary_key))))

  -- A row whose primary key is no array of bytes, with an index key that UTF-8 carries.
  pub record HasKey (primary_key : Text) (row : Row N) : Type 0 where
    pub plain : is_text_key (field row primary_key) ≡ true
    pub kept : Survives utf8 (pk_key name (to_text (field row primary_key)))

  Listed-Found :
      (primary_key : Text) (s : S) (row : Row N)
      → HasKey primary_key row
      → Listed s (to_text (field row primary_key))
      → Found primary_key s row
  unfolding encode_pk
  Listed-Found primary_key s row has h =
      let k = to_text (field row primary_key) in
      lookup_pk-key b s name (field row primary_key)
        (encode_pk-is_text_key (field row primary_key) has.plain)
      ∙ sym (lookup_pk-key b s name (key k) refl)
      ∙ h

  module _ (named : is_name name ≡ true) (below : BelowReserved offset_of) where
    mirror_pk-Listed :
        (s mid : S) (k : Text) (o : ℤ)
        → offset_of k ≡ o
        → Survives utf8 (pk_key name k)
        → mirror_pk b s name (key k) o ≡ (mid, ok tt)
        → Listed mid k × ((j : Text) → Survives utf8 (pk_key name j) → Listed s j → Listed mid j)
    unfolding mirror_pk to_offset BelowReserved encode_pk
    mirror_pk-Listed s mid k (negsuc n) e kept h = absurd (ground arith)
    mirror_pk-Listed s mid k (pos n) e kept h = (here, others)
      where
        here : Listed mid k
        here = rw e (lookup_pk-mirror_pk b utf8 laws s mid name (key k) n refl h (below k n e))

        others : (j : Text) → Survives utf8 (pk_key name j) → Listed s j → Listed mid j
        others j kept' old = elim (text_dec k j) [
          | yes same ↦ subst (Listed mid) same here
          | no ne ↦
              lookup_pk-mirror_pk-other b utf8 laws s mid name name (key k) (key j) n refl refl
                named named kept kept' (inr ne) h
              ∙ old
        ]

    sync_rows-Found :
        (s : S) (primary_key : Text) (rows : List (Row N)) {s' : S}
        → All (HasKey primary_key) rows
        → sync_rows b s name primary_key offset_of rows ≡ (s', ok tt)
        → All (Found primary_key s') rows
          × ((j : Text) → Survives utf8 (pk_key name j) → Listed s j → Listed s' j)
    unfolding sync_rows
    sync_rows-Found s primary_key [] {s'} has h =
        (tt, λ j kept old. subst (λ t. Listed t j) (ap (λ p. p.0) h) old)
    sync_rows-Found s primary_key (row ∷ rows) {s'} has h =
        let k = to_text (field row primary_key) in
        let own = has.0.kept in
        let (mid, first, later) =
          continue_after-inv (mirror_pk b s name (key k) (offset_of k))
            (λ t. sync_rows b t name primary_key offset_of rows) h in
        let (here, keeps) = mirror_pk-Listed s mid k (offset_of k) refl own first in
        let (rest, kept) = sync_rows-Found mid primary_key rows has.1 later in
        (
          (Listed-Found primary_key s' row has.0 (kept k own here), rest),
          λ j carried old. kept j carried (keeps j carried old),
        )

module _ {S N : Type 0} ⦃js : JsNumber N⦄ (b : TakyonBindings S) (utf8 : Utf8)
    (laws : IndexLaws b utf8) where
  -- If the bulk load of a table with a valid name returns, every offset handed out is below the
  -- reserved one, no primary key is an array of bytes, null or missing, and UTF-8 carries the index
  -- keys: a lookup of the primary key of each row gives the offset that the caller handed out for the
  -- text of that key.
  pub sync_table-lookups :
      (s : S) (t : RelationalTable N) (offset_of : Text → ℤ) {s' : S}
      → is_name t.schema.table_name ≡ true
      → BelowReserved offset_of
      → All (HasKey N b utf8 laws t.schema.table_name offset_of t.schema.primary_key) (scan t none)
      → sync_table b s t offset_of ≡ (s', ok tt)
      → All
          (Found N b utf8 laws t.schema.table_name offset_of t.schema.primary_key s')
          (scan t none)
  unfolding sync_table
  sync_table-lookups s t offset_of named below has h =
      (sync_rows-Found N b utf8 laws t.schema.table_name offset_of named below s
        t.schema.primary_key (scan t none) has h).0
