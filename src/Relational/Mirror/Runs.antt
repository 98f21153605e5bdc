-- ===== src/Relational/Mirror/Runs.antt =====
-- mirror.ts: any run of publications and removals, against a map from keys to offsets.
use takyondb.Prelude.{
  ℕ, ◌<◌, ◌≡◌, ◌≢◌, ◌⊎◌, ◌∙◌, inl, inr, refl, ap, Bool, true, List, [], ◌∷◌, Option, none, some,
  Result, ok, All, ite, if_pos, if_neg, sym,
}
use takyondb.Js.Text.{Text, text_dec}
use takyondb.Js.Value.{Value, JsNumber}
use takyondb.Js.Order.{pos}
use takyondb.Js.Utf8.{Utf8, Survives}
use takyondb.Relational.Column.{is_name}
use takyondb.Relational.Keys.{encode_pk, pk_key}
use takyondb.Relational.Mirror.{TakyonBindings, mirror_pk, lookup_pk, unmirror_pk}
use takyondb.Relational.Mirror.Lookups.{
  IndexLaws, lookup_pk-key, lookup_pk-mirror_pk, lookup_pk-mirror_pk-other, lookup_pk-unmirror_pk,
  lookup_pk-unmirror_pk-other,
}

-- What one call did: the key of a table was published at an offset, or removed.
pub record Entry : Type 0 where
  pub table : Text
  pub pk : Text
  pub at : Option ℕ

-- Below the offset that the index reserves.
abbrev pub Below : Option ℕ → Type 0
Below none = Unit
Below (some off) = off < 2147483647

pub record IsCarried (utf8 : Utf8) (entry : Entry) : Type 0 where
  pub named : is_name entry.table ≡ true
  pub kept : Survives utf8 (pk_key entry.table entry.pk)
  pub below : Below entry.at

-- What one call makes of the answer for a key.
unfoldable pub remember : Result (Option ℕ) → Entry → Text → Text → Result (Option ℕ)
remember old entry table pk =
    ite (text_dec entry.table table) (ite (text_dec entry.pk pk) (ok entry.at) old) old

-- The answer for a key after calls in their order: the last one on the key decides, and a key that no
-- call names has the answer from before.
unfoldable pub recall : Result (Option ℕ) → List Entry → Text → Text → Result (Option ℕ)
unfolding remember
recall old [] table pk = old
recall old (entry ∷ entries) table pk = recall (remember old entry table pk) entries table pk

module _ {S : Type 0} (N : Type 0) ⦃js : JsNumber N⦄ (b : TakyonBindings S) where
  -- Calls of the mirror that returned, one after another.
  pub data Runs : S → List Entry → S → Type 0 where
    stopped : (s : S) → Runs s [] s
    published :
        (s mid s' : S) (table : Text) (v : Value N) (pk : Text) (off : ℕ) (entries : List Entry)
        → encode_pk v ≡ ok pk
        → mirror_pk b s table v (pos off) ≡ (mid, ok tt)
        → Runs mid entries s'
        → Runs s (record { table = table; pk = pk; at = some off } ∷ entries) s'
    removed :
        (s mid s' : S) (table : Text) (v : Value N) (pk : Text) (was : Bool) (entries : List Entry)
        → encode_pk v ≡ ok pk
        → unmirror_pk b s table v ≡ (mid, ok was)
        → Runs mid entries s'
        → Runs s (record { table = table; pk = pk; at = none } ∷ entries) s'

  module _ (utf8 : Utf8) (laws : IndexLaws b utf8) (other : Text) (w : Value N) (qk : Text)
      (rendered : encode_pk w ≡ ok qk) (named : is_name other ≡ true)
      (kept : Survives utf8 (pk_key other qk)) where
    -- One call, by what it does to its own key and to any other.
    step :
        (s mid : S) (entry : Entry)
        → (entry.table ≡ other → entry.pk ≡ qk → lookup_pk b mid other w ≡ ok entry.at)
        → ((entry.table ≢ other) ⊎ (entry.pk ≢ qk)
            → lookup_pk b mid other w ≡ lookup_pk b s other w)
        → lookup_pk b mid other w ≡ remember (lookup_pk b s other w) entry other qk
    unfolding remember
    step s mid entry own beside = elim (text_dec entry.table other) [
      | no ne ↦ rw (if_neg (text_dec entry.table other) ne) (beside (inl ne))
      | yes t ↦ rw (if_pos (text_dec entry.table other) t) (elim (text_dec entry.pk qk) [
        | no ne ↦ rw (if_neg (text_dec entry.pk qk) ne) (beside (inr ne))
        | yes p ↦ rw (if_pos (text_dec entry.pk qk) p) (own t p)
      ])
    ]

    own_key :
        (s : S) (table : Text) (v : Value N) {pk : Text}
        → encode_pk v ≡ ok pk
        → table ≡ other
        → pk ≡ qk
        → lookup_pk b s other w ≡ lookup_pk b s table v
    own_key s table v {pk} e t p =
        lookup_pk-key b s other w rendered ∙ sym (cc (t, p, lookup_pk-key b s table v e))

    follow :
        (s s' : S) (entries : List Entry)
        → All (IsCarried utf8) entries
        → Runs s entries s'
        → lookup_pk b s' other w ≡ recall (lookup_pk b s other w) entries other qk
    unfolding recall
    follow _ _ _ plain (stopped s) = refl
    follow _ _ _ plain (published s mid s' table v pk off entries e h run) =
        let entry : Entry = record { table = table; pk = pk; at = some off } in
        let (first, rest) = plain in
        follow mid s' entries rest run
        ∙ ap (λ old. recall old entries other qk)
            (step s mid entry
              (λ t p.
                own_key mid table v e t p
                ∙ lookup_pk-mirror_pk b utf8 laws s mid table v off e h first.below)
              (λ ne.
                lookup_pk-mirror_pk-other b utf8 laws s mid table other v w off e rendered
                  first.named named first.kept kept ne h))
    follow _ _ _ plain (removed s mid s' table v pk was entries e h run) =
        let entry : Entry = record { table = table; pk = pk; at = none } in
        let (first, rest) = plain in
        follow mid s' entries rest run
        ∙ ap (λ old. recall old entries other qk)
            (step s mid entry
              (λ t p.
                own_key mid table v e t p ∙ lookup_pk-unmirror_pk b utf8 laws s mid table v was e h)
              (λ ne.
                lookup_pk-unmirror_pk-other b utf8 laws s mid table other v w was e rendered
                  first.named named first.kept kept ne h))

module _ {S N : Type 0} ⦃js : JsNumber N⦄ (b : TakyonBindings S) (utf8 : Utf8)
    (laws : IndexLaws b utf8) where
  -- After any run of publications and removals that returned, on any keys of any tables: a lookup
  -- gives the offset at which the key of its table was published last, or nothing if it was removed
  -- since, and what it gave before the run if no call was on that key. The names of the tables are
  -- valid, UTF-8 carries the index keys, and the offsets are below the reserved one.
  pub lookup_pk-Runs :
      (s : S) (entries : List Entry) (table : Text) (v : Value N) {pk : Text} {s' : S}
      → All (IsCarried utf8) entries
      → encode_pk v ≡ ok pk
      → is_name table ≡ true
      → Survives utf8 (pk_key table pk)
      → Runs N b s entries s'
      → lookup_pk b s' table v ≡ recall (lookup_pk b s table v) entries table pk
  lookup_pk-Runs s entries table v {pk} {s'} plain e named kept run =
      follow N b utf8 laws table v pk e named kept s s' entries plain run
