-- ===== src/Relational/Keys.antt =====
-- utils.ts: the namespace of the engine's index keys.
use takyondb.Prelude.{◌++◌, ◌∷◌, [], Result, ok, err, unsupported_key}
use takyondb.Js.Text.{Text, codes}
use takyondb.Js.Value.{Value, JsNumber, to_text, hex, null, undefined, bool, num, str, bytes}

module _ {N : Type 0} ⦃js : JsNumber N⦄ where
  unfoldable pub encode_pk : Value N → Result Text
  unfolding to_text hex
  encode_pk (str s) = ok s
  encode_pk (num a) = ok (to_text (num a))
  encode_pk (bool b) = let v : Value N = bool b in ok (to_text v)
  encode_pk (bytes _ bs) = ok (hex bs)
  encode_pk null = err unsupported_key
  encode_pk undefined = err unsupported_key

abbrev colon : Text
colon = b':' ∷ []

unfoldable pub pk_key : Text → Text → Text
pk_key table pk = codes "tbl:" ++ (table ++ (colon ++ pk))

unfoldable pub catalog_key : Text → Text
catalog_key table = codes "__catalog__:" ++ table

unfoldable pub secondary_prefix : Text → Text → Text
secondary_prefix table column = codes "idx:" ++ (table ++ (colon ++ (column ++ colon)))

unfoldable pub secondary_key : Text → Text → Text → Text
secondary_key table column value =
    codes "idx:" ++ (table ++ (colon ++ (column ++ (colon ++ value))))
