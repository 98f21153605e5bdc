-- ===== src/Relational/CatalogStore/Saved.antt =====
-- catalog_store.ts: a stored column or table is loaded as it was, with new byte arrays.
use takyondb.Prelude.{
  ℕ, ◌+◌, ◌/◌, ◌%◌, ◌<◌, Bool-cases, ◌≡◌, refl, ap, Bool, true, false, List, [], ◌∷◌, Option, none,
  some, length, ok, All, arith,
}
use takyondb.Js.Text.{Text, codes, text_dec}
use takyondb.Js.Value.{Value, hex, hex_digit}
use takyondb.Js.Json.{Json, member, object, find_member, property, digit_value, add_byte, unhex}
use takyondb.Relational.Column
use takyondb.Relational.Column.{RelationalType, ColumnDef}
use takyondb.Relational.Schema.{CompiledColumn}
use takyondb.Relational.Table.{RelationalTable}
use takyondb.Relational.CatalogStore.{
  LoadedColumn, type_name, encode_default, flag_member, default_member, stored_column,
}
use takyondb.Relational.CatalogStore.Loading.{
  tagged_bytes, decode_default, load_default, load_column,
}
use takyondb.Relational.CatalogStore.Restoring.{
  named_types, as_name, as_type, as_flag, as_default, as_column,
}

digit_value-hex_digit : (d : ℕ) → d < 16 → digit_value (hex_digit d) ≡ some d
unfolding digit_value hex_digit
digit_value-hex_digit d h = ground arith

-- The digits of a list of bytes give the bytes back.
pub unhex-hex : (bs : List ℕ) → All (λ b. b < 256) bs → unhex (hex bs) ≡ bs
unfolding unhex hex add_byte
unhex-hex [] small = refl
unhex-hex (b ∷ bs) small = rw (digit_value-hex_digit (b / 16) (omega (arith, small.0))) (
    rw (digit_value-hex_digit (b % 16) (omega arith))
      (rw (unhex-hex bs small.1) (ap (λ n. n ∷ bs) (omega arith))))

as_type-type_name :
    (N : Type 0) (t : RelationalType) → as_type {N = N} (some (Json.str (type_name t))) ≡ some t
unfolding as_type type_name named_types takyondb.Js.Dict.get text_dec Bool-cases
as_type-type_name N Column.bool = refl
as_type-type_name N Column.int8 = refl
as_type-type_name N Column.int16 = refl
as_type-type_name N Column.int32 = refl
as_type-type_name N Column.int64 = refl
as_type-type_name N Column.uint8 = refl
as_type-type_name N Column.uint16 = refl
as_type-type_name N Column.uint32 = refl
as_type-type_name N Column.float32 = refl
as_type-type_name N Column.float64 = refl
as_type-type_name N Column.string = refl
as_type-type_name N Column.bytes = refl
as_type-type_name N Column.timestamp_ms = refl

abbrev flag_of : {N : Type 0} → Bool → Option (Json N)
flag_of true = some (Json.bool true)
flag_of false = none

as_flag-flag_of : (N : Type 0) (b : Bool) → as_flag {N = N} (flag_of b) ≡ some b
unfolding as_flag
as_flag-flag_of N true = refl
as_flag-flag_of N false = refl

module _ {N : Type 0} where
  -- What a byte array of a default holds are bytes.
  abbrev pub HoldsBytes : Value N → Type 0
  HoldsBytes (Value.bytes i bs) = All (λ b. b < 256) bs
  HoldsBytes _ = Unit

  -- The same default, a byte array as a new object.
  abbrev pub renewed_default : ℕ → Value N → Value N
  renewed_default next (Value.bytes i bs) = Value.bytes next bs
  renewed_default next v = v

  abbrev pub renewed : ℕ → ColumnDef N → ColumnDef N
  renewed next c = record c { default_value = renewed_default next c.default_value }

  abbrev pub renewed_columns : ℕ → List (CompiledColumn N) → List (ColumnDef N)
  renewed_columns next [] = []
  renewed_columns next (c ∷ cs) = renewed next c.def ∷ renewed_columns (next + 1) cs

  abbrev pub definitions : ℕ → List (RelationalTable N) → List (Text × List (ColumnDef N))
  definitions next [] = []
  definitions next (t ∷ ts) =
      (t.schema.table_name, renewed_columns next t.schema.columns)
      ∷ definitions (next + length t.schema.columns) ts

  as_default-encode_default :
      (next : ℕ) (v : Value N)
      → HoldsBytes v
      → as_default (load_default next (encode_default v)) ≡ some (renewed_default next v)
  unfolding as_default load_default encode_default decode_default tagged_bytes property find_member
      text_dec Bool-cases
  as_default-encode_default next Value.null holds = refl
  as_default-encode_default next Value.undefined holds = refl
  as_default-encode_default next (Value.bool b) holds = refl
  as_default-encode_default next (Value.num n) holds = refl
  as_default-encode_default next (Value.str s) holds = refl
  as_default-encode_default next (Value.bytes i bs) holds =
      ap (λ xs. some (Value.bytes next xs)) (unhex-hex bs holds)

  abbrev loaded : ℕ → Text → Text → Bool → Bool → Bool → Option (Json N) → LoadedColumn N
  loaded next name type n p u o = record {
    name = some (Json.str name);
    type = some (Json.str type);
    nullable = flag_of n;
    primary_key = flag_of p;
    unique = flag_of u;
    default_value = load_default next o;
  }

  -- Each member is found under its key, whatever flags and default are left out.
  load_column-members :
      (next : ℕ) (name type : Text) (n p u : Bool) (o : Option (Json N))
      → load_column next (
          object (
            member (codes "name") (Json.str name) (
              member (codes "type") (Json.str type) (
                flag_member (codes "nullable") n (
                  flag_member
                    (codes "primaryKey")
                    p
                    (flag_member (codes "unique") u (default_member o)))))))
        ≡ ok (loaded next name type n p u o)
  unfolding load_column property find_member text_dec flag_member default_member Bool-cases
  load_column-members next name type true true true none = refl
  load_column-members next name type true true true (some v) = refl
  load_column-members next name type true true false none = refl
  load_column-members next name type true true false (some v) = refl
  load_column-members next name type true false true none = refl
  load_column-members next name type true false true (some v) = refl
  load_column-members next name type true false false none = refl
  load_column-members next name type true false false (some v) = refl
  load_column-members next name type false true true none = refl
  load_column-members next name type false true true (some v) = refl
  load_column-members next name type false true false none = refl
  load_column-members next name type false true false (some v) = refl
  load_column-members next name type false false true none = refl
  load_column-members next name type false false true (some v) = refl
  load_column-members next name type false false false none = refl
  load_column-members next name type false false false (some v) = refl

  pub load_column-stored_column :
      (next : ℕ) (c : ColumnDef N)
      → HoldsBytes c.default_value
      → (l : LoadedColumn N) × (load_column next (stored_column c) ≡ ok l)
        × (as_column l ≡ some (renewed next c))
  unfolding stored_column as_column as_name
  load_column-stored_column next c holds = (
    loaded next c.name (type_name c.type) c.nullable c.primary_key c.unique
        (encode_default c.default_value),
    load_column-members next c.name (type_name c.type) c.nullable c.primary_key c.unique
        (encode_default c.default_value),
    rw (as_type-type_name N c.type) (
        rw (as_flag-flag_of N c.nullable) (
          rw (as_flag-flag_of N c.primary_key) (
            rw (as_flag-flag_of N c.unique)
              (rw (as_default-encode_default next c.default_value holds) refl)))),
  )
