-- ===== src/Prelude/Errors.antt =====
-- What the client code throws, as values. A function that may throw returns a `Result`.
use mathlib.Core.Path.{◌≡◌, refl}
use mathlib.Core.Logic.{◌⊎◌, inl, inr}
use mathlib.Core.Bool.{Bool, true, false}

-- One constructor for each `throw` of the modelled code.
pub data Error : Type 0 where
  -- client/layout.ts
  arena_too_small magic_mismatch version_mismatch bytes_mismatch : Error
  bad_ring_capacity record_inside_ring record_runs_into_index root_misaligned : Error
  index_runs_into_strings string_region_too_small string_region_past_end : Error
  -- client/proxy.ts
  bad_size mapping_failed misaligned_view commit_missing nothing_logged commit_failed : Error
  push_failed arena_refused bad_base_offset record_outside_region : Error
  corrupt_string_pointer expected_string no_string_arena out_of_string_memory : Error
  uint8_out_of_range uint32_out_of_range expected_number field_too_wide : Error
  -- takyon.ts
  bad_key_length key_with_nul key_bytes bad_record_size out_of_record_memory : Error
  empty_collection_name collection_name_with_nul : Error
  -- client/schema.ts
  empty_schema unknown_field_type : Error
  -- client/relational
  invalid_column_name column_name_too_long nullable_primary_key : Error
  invalid_table_name bad_column_count duplicate_column bad_primary_key_count : Error
  cannot_be_null not_null wrong_type primary_key_required unsupported_key : Error
  duplicate_primary_key immutable_primary_key : Error
  table_exists table_not_found duplicate_in_transaction : Error
  unique_violation foreign_key_violation requires_column : Error
  -- client/relational/mirror.ts
  bad_record_offset backpressure index_failed missing_scan : Error
  -- client/relational/sql.ts
  unsupported_statement unsupported_select unsupported_insert unsupported_update : Error
  unsupported_delete unsupported_create unsupported_join unterminated_string : Error
  bad_literal count_mismatch bad_assignment empty_set : Error
  bad_column_def unknown_column_type no_columns join_mismatch : Error
  -- client/relational/catalog_record.ts
  bad_table_name bad_record_column_count bad_record_column_name outside_buffer : Error
  payload_too_short bad_catalog_magic bad_catalog_version payload_truncated : Error
  padding_corrupt bad_column_type bad_flags bad_geometry : Error
  out_of_string_arena notify_failed offset_out_of_range content_mismatch : Error
  -- client/relational/catalog_store.ts, and the TypeError of a property of `null`
  unreadable_catalog catalog_not_json no_catalog_document wrong_catalog_magic : Error
  wrong_catalog_version missing_catalog_tables malformed_catalog_table property_of_null : Error
  -- client/relational/secondary_native.ts
  out_of_u32 out_of_safe_range unsupported_secondary empty_secondary_name : Error
  invalid_numeric_range : Error
  -- thrown by the native bindings
  key_range engine_not_attached : Error

pub data Result {ℓ} (A : Type ℓ) : Type ℓ where
  ok : A → Result A
  err : Error → Result A

-- `if (b) throw e;`
abbrev pub throw_if : Bool → Error → Result (Unit {0})
throw_if false e = ok tt
throw_if true e = err e

-- A step that throws ends the whole chain with its error.
abbrev pub ◌>>=◌ {ℓ κ} : {A : Type ℓ} {B : Type κ} → Result A → (A → Result B) → Result B
err thrown >>= next = err thrown
ok value >>= next = next value

-- A step that returns nothing, and the rest of the chain.
abbrev pub ◌>>◌ {ℓ} : {B : Type ℓ} → Result (Unit {0}) → Result B → Result B
first >> rest = first >>= λ _. rest

infixl 5 ◌>>=◌ ◌>>◌
module _ {ℓ κ} {A : Type ℓ} {B : Type κ} {out : B} where
  -- A chain that returned has a first step that returned, and a rest that returned.
  pub >>=-eq-ok :
      (step : Result A) (rest : A → Result B) (returned : (step >>= rest) ≡ ok out)
      → (mid : A) × (step ≡ ok mid) × (rest mid ≡ ok out)
  >>=-eq-ok (err e) rest returned = cc
  >>=-eq-ok (ok mid) rest returned = (mid, refl, returned)

pub Result-cases {ℓ} :
    {A : Type ℓ} (r : Result A) → ((e : Error) × (r ≡ err e)) ⊎ ((a : A) × (r ≡ ok a))
Result-cases (err e) = inl (e, refl)
Result-cases (ok a) = inr (a, refl)
