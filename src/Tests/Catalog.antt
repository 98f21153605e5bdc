-- ===== src/Tests/Catalog.antt =====
-- The theorem on catalog records at the columns of the users. Their names are ASCII texts, which
-- UTF-8 leaves as they are.
use takyondb.Prelude.{ℕ, ◌≡◌, refl, List, ◌++◌, map, ok, length, arith}
use takyondb.Js.Utf8.{Utf8}
use takyondb.Relational.CatalogRecord.{
  encode_catalog_record, decode_catalog_record, catalog_encoded_len, is_bad_name,
}
use takyondb.Relational.CatalogRecord.Blocks.{Encodable}
use takyondb.Relational.CatalogRecord.RoundTrip.{decoded_column, decode-encode_catalog_record}
use takyondb.Tests.Sample.{users, user_columns}

abbrev pub ascii : Utf8
ascii = record { encode = λ text. text; decode = λ bs. bs }

pub users-Encodable : Encodable ascii users user_columns
unfolding is_bad_name
users-Encodable = record {
  named = refl;
  table_fits = omega arith;
  some_columns = omega arith;
  names_fit = omega arith;
}

decode-encode_catalog_record_example :
    (buf : List ℕ) × (encode_catalog_record ascii users user_columns ≡ ok buf)
    × (length buf ≡ catalog_encoded_len (length user_columns))
    × ((rest : List ℕ)
        → decode_catalog_record ascii (buf ++ rest)
          ≡ ok (record { table = users; columns = map decoded_column user_columns }))
decode-encode_catalog_record_example =
    decode-encode_catalog_record ascii users user_columns users-Encodable refl (refl, (refl, tt))
