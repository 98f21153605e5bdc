-- ===== src/Relational/Mirror/Lookups.antt =====
-- mirror.ts: what a lookup finds after a key was published or removed.
use takyondb.Prelude.{
  ℕ, zero, suc, ◌<◌, ◌≡◌, ◌≢◌, ◌⊎◌, ◌∙◌, inl, inr, refl, ap, sym, Bool, true, none, some, Result,
  ok, err, ◌>>=◌, arith,
}
use takyondb.Js.Text.{Text}
use takyondb.Js.Value.{Value, JsNumber}
use takyondb.Js.Utf8.{Utf8, Survives, encode-apart}
use takyondb.Js.Order.{ℤ, pos, negsuc}
use takyondb.Relational.Column.{is_name}
use takyondb.Relational.Keys.{encode_pk, pk_key}
use takyondb.Relational.Mirror.{
  TakyonBindings, check_insert_code, check_remove_code, to_offset, mirror_pk, lookup_pk,
  unmirror_pk,
}
use takyondb.Relational.Mirror.Keys.{pk_key-injective}

-- Documented behaviour of the index, which keeps a key as the bytes of its UTF-8 form: an insert that
-- returns 0 is found, below the reserved offset; a removal that returns 0 or 1 leaves the key absent;
-- neither touches a key of other bytes.
pub record IndexLaws {S : Type 0} (b : TakyonBindings S) (utf8 : Utf8) : Type 0 where
  pub found :
      (s s' : S) (key : Text) (off : ℕ)
      → b.insert_index s key off ≡ (s', ok (pos 0))
      → off < 2147483647
      → b.search_index s' key ≡ ok (pos off)
  pub insert_keeps :
      (s s' : S) (key other : Text) (off : ℕ) (rc : Result ℤ)
      → b.insert_index s key off ≡ (s', rc)
      → utf8.encode key ≢ utf8.encode other
      → b.search_index s' other ≡ b.search_index s other
  pub removed :
      (s s' : S) (key : Text) (rc : ℕ)
      → b.remove_index s key ≡ (s', ok (pos rc))
      → rc < 2
      → b.search_index s' key ≡ ok (negsuc 0)
  pub remove_keeps :
      (s s' : S) (key other : Text) (rc : Result ℤ)
      → b.remove_index s key ≡ (s', rc)
      → utf8.encode key ≢ utf8.encode other
      → b.search_index s' other ≡ b.search_index s other

module _ {S : Type 0} where
  check_insert_code-inv :
      (p : S × Result ℤ) (s' : S) → check_insert_code p ≡ (s', ok tt) → p ≡ (s', ok (pos 0))
  unfolding check_insert_code
  check_insert_code-inv (s, ok (pos zero)) s' h = ground arith
  check_insert_code-inv (s, ok (pos (suc n))) s' h = ground arith
  check_insert_code-inv (s, ok (negsuc zero)) s' h = ground arith
  check_insert_code-inv (s, ok (negsuc (suc zero))) s' h = ground arith
  check_insert_code-inv (s, ok (negsuc (suc (suc n)))) s' h = ground arith
  check_insert_code-inv (s, err e) s' h = ground arith

  check_remove_code-inv :
      (p : S × Result ℤ) (s' : S) (was : Bool)
      → check_remove_code p ≡ (s', ok was)
      → (rc : ℕ) × (p ≡ (s', ok (pos rc))) × (rc < 2)
  unfolding check_remove_code
  check_remove_code-inv (s, ok (pos zero)) s' was h = (0, ground arith, omega arith)
  check_remove_code-inv (s, ok (pos (suc zero))) s' was h = (1, ground arith, omega arith)
  check_remove_code-inv (s, ok (pos (suc (suc n)))) s' was h = absurd (ground arith)
  check_remove_code-inv (s, ok (negsuc n)) s' was h = absurd (ground arith)
  check_remove_code-inv (s, err e) s' was h = absurd (ground arith)

module _ {S N : Type 0} ⦃js : JsNumber N⦄ (b : TakyonBindings S) where
  -- A published key went to the index under the key of its table and its text.
  pub mirror_pk-inv :
      (s : S) (table : Text) (v : Value N) (off : ℕ) {pk : Text} {s' : S}
      → encode_pk v ≡ ok pk
      → mirror_pk b s table v (pos off) ≡ (s', ok tt)
      → b.insert_index s (pk_key table pk) off ≡ (s', ok (pos 0))
  unfolding mirror_pk
  mirror_pk-inv s table v off {pk} {s'} e h =
      check_insert_code-inv (b.insert_index s (pk_key table pk) off) s' (cc (h, mirror_pk-ok))
    where
      mirror_pk-ok :
          mirror_pk b s table v (pos off)
          ≡ check_insert_code (b.insert_index s (pk_key table pk) off)
      mirror_pk-ok = rw (mirror_pk, e) refl

  pub unmirror_pk-inv :
      (s : S) (table : Text) (v : Value N) (was : Bool) {pk : Text} {s' : S}
      → encode_pk v ≡ ok pk
      → unmirror_pk b s table v ≡ (s', ok was)
      → (rc : ℕ) × (b.remove_index s (pk_key table pk) ≡ (s', ok (pos rc))) × (rc < 2)
  unfolding unmirror_pk
  unmirror_pk-inv s table v was {pk} {s'} e h =
      check_remove_code-inv (b.remove_index s (pk_key table pk)) s' was (cc (h, unmirror_pk-ok))
    where
      unmirror_pk-ok :
          unmirror_pk b s table v ≡ check_remove_code (b.remove_index s (pk_key table pk))
      unmirror_pk-ok = rw (unmirror_pk, e) refl

  -- A lookup depends on the entry of its key.
  pub lookup_pk-key :
      (s : S) (table : Text) (v : Value N) {pk : Text}
      → encode_pk v ≡ ok pk
      → lookup_pk b s table v ≡ (b.search_index s (pk_key table pk) >>= λ off. ok (to_offset off))
  unfolding lookup_pk
  lookup_pk-key s table v e = rw e refl

  pub lookup_pk-same :
      (s s' : S) (table : Text) (v : Value N) {pk : Text}
      → encode_pk v ≡ ok pk
      → b.search_index s' (pk_key table pk) ≡ b.search_index s (pk_key table pk)
      → lookup_pk b s' table v ≡ lookup_pk b s table v
  lookup_pk-same s s' table v e same =
      lookup_pk-key s' table v e
      ∙ ap (λ found. found >>= λ off. ok (to_offset off)) same
      ∙ sym (lookup_pk-key s table v e)

-- Two tables with valid names, or two texts of keys, have different bytes if UTF-8 carries both.
pub pk_key-apart :
    (utf8 : Utf8) (table other pk qk : Text)
    → is_name table ≡ true
    → is_name other ≡ true
    → Survives utf8 (pk_key table pk)
    → Survives utf8 (pk_key other qk)
    → (table ≢ other) ⊎ (pk ≢ qk)
    → utf8.encode (pk_key table pk) ≢ utf8.encode (pk_key other qk)
pk_key-apart utf8 table other pk qk a c kept kept' ne =
    encode-apart utf8 (pk_key table pk) (pk_key other qk) kept kept' (λ same.
      let (t, p) = pk_key-injective table other pk qk a c same in
      elim ne [ inl differ ↦ differ t | inr differ ↦ differ p ])

module _ {S N : Type 0} ⦃js : JsNumber N⦄ (b : TakyonBindings S) (utf8 : Utf8)
    (laws : IndexLaws b utf8) where
  -- A key that was published at an offset below the reserved one is then looked up at that offset.
  pub lookup_pk-mirror_pk :
      (s s' : S) (table : Text) (v : Value N) (off : ℕ) {pk : Text}
      → encode_pk v ≡ ok pk
      → mirror_pk b s table v (pos off) ≡ (s', ok tt)
      → off < 2147483647
      → lookup_pk b s' table v ≡ ok (some off)
  unfolding to_offset
  lookup_pk-mirror_pk s s' table v off {pk} e h below =
      lookup_pk-key b s' table v e
      ∙ ap (λ found. found >>= λ off. ok (to_offset off))
          (laws.found s s' (pk_key table pk) off (mirror_pk-inv b s table v off e h) below)

  -- Publishing a key changes no lookup of another table, nor of a key of the same table that renders
  -- to another text, if both names are valid and UTF-8 carries both index keys.
  pub lookup_pk-mirror_pk-other :
      (s s' : S) (table other : Text) (v w : Value N) (off : ℕ) {pk qk : Text}
      → encode_pk v ≡ ok pk
      → encode_pk w ≡ ok qk
      → is_name table ≡ true
      → is_name other ≡ true
      → Survives utf8 (pk_key table pk)
      → Survives utf8 (pk_key other qk)
      → (table ≢ other) ⊎ (pk ≢ qk)
      → mirror_pk b s table v (pos off) ≡ (s', ok tt)
      → lookup_pk b s' other w ≡ lookup_pk b s other w
  lookup_pk-mirror_pk-other s s' table other v w off {pk} {qk} e f a c kept kept' ne h =
      lookup_pk-same b s s' other w f (
        laws.insert_keeps s s' (pk_key table pk) (pk_key other qk) off (ok (pos 0))
          (mirror_pk-inv b s table v off e h)
          (pk_key-apart utf8 table other pk qk a c kept kept' ne))

  -- A key whose removal returned is then not found, whether it was there or not.
  pub lookup_pk-unmirror_pk :
      (s s' : S) (table : Text) (v : Value N) (was : Bool) {pk : Text}
      → encode_pk v ≡ ok pk
      → unmirror_pk b s table v ≡ (s', ok was)
      → lookup_pk b s' table v ≡ ok none
  unfolding to_offset
  lookup_pk-unmirror_pk s s' table v was {pk} e h =
      let (rc, gone, small) = unmirror_pk-inv b s table v was e h in
      lookup_pk-key b s' table v e
      ∙ ap (λ found. found >>= λ off. ok (to_offset off))
          (laws.removed s s' (pk_key table pk) rc gone small)

  -- A removal changes no lookup of another table or of another key, under the same conditions.
  pub lookup_pk-unmirror_pk-other :
      (s s' : S) (table other : Text) (v w : Value N) (was : Bool) {pk qk : Text}
      → encode_pk v ≡ ok pk
      → encode_pk w ≡ ok qk
      → is_name table ≡ true
      → is_name other ≡ true
      → Survives utf8 (pk_key table pk)
      → Survives utf8 (pk_key other qk)
      → (table ≢ other) ⊎ (pk ≢ qk)
      → unmirror_pk b s table v ≡ (s', ok was)
      → lookup_pk b s' other w ≡ lookup_pk b s other w
  lookup_pk-unmirror_pk-other s s' table other v w was {pk} {qk} e f a c kept kept' ne h =
      let (rc, gone, _) = unmirror_pk-inv b s table v was e h in
      lookup_pk-same b s s' other w f (
        laws.remove_keeps s s' (pk_key table pk) (pk_key other qk) (ok (pos rc)) gone
          (pk_key-apart utf8 table other pk qk a c kept kept' ne))
