-- ===== src/Tests/Mirrored.antt =====
-- The theorems on the mirror at an engine that keeps its index in a list.
use takyondb.Prelude.{
  All, ℕ, List, ◌≡◌, refl, true, [], ◌∷◌, Option, none, some, ok, arith, if_pos, if_neg,
  if◌then◌else◌, ap,
}
use takyondb.Js.Text.{Text, codes, text_dec}
use takyondb.Js.Dict.{Dict, get, has, put, delete, get-put, get-delete}
use takyondb.Js.Value.{Value, num}
use takyondb.Js.Order.{ℤ, pos, negsuc}
use takyondb.Relational.Mirror.{
  TakyonBindings, mirror_pk, lookup_pk, unmirror_pk, check_insert_code, check_remove_code,
}
use takyondb.Relational.Filter.{matches_where}
use takyondb.Relational.Table.{scan, filter_rows}
use takyondb.Relational.Mirror.{sync_table, sync_rows, continue_after}
use takyondb.Relational.Mirror.Sync.{BelowReserved, Found, HasKey, is_text_key, sync_table-lookups}
use takyondb.Relational.Mirror.Runs.{
  Entry, IsCarried, Runs, published, removed, stopped, recall, lookup_pk-Runs,
}
use takyondb.Tests.Catalog.{ascii}
use takyondb.Relational.Mirror.Lookups.{IndexLaws}
use takyondb.Relational.Keys.{encode_pk, pk_key}
use takyondb.Relational.Column.{is_name, all_name_chars, is_name_char, is_name_start}
use takyondb.Tests.Sample.{natural, one_user, program, users}

abbrev pub found_offset : Option ℕ → ℤ
found_offset none = negsuc 0
found_offset (some off) = pos off

abbrev listed : TakyonBindings (Dict ℕ)
listed = record {
  insert_index = λ s key off. (put key off s, ok (pos 0));
  search_index = λ s key. ok (found_offset (get key s));
  remove_index = λ s key. (delete key s, ok (if has key s then pos 1 else pos 0));
  scan_prefix = none;
  scan_range = none;
}

listed-IndexLaws : IndexLaws listed ascii
listed-IndexLaws = record {
  found = λ s s' key off h small.
      let state : (put key off s ≡ s') = ap (λ p. p.0) h in
      rw (← state) (rw (get-put key key off s) (rw (if_pos (text_dec key key) refl) refl));
  insert_keeps = λ s s' key other off rc h ne.
      let state : (put key off s ≡ s') = ap (λ p. p.0) h in
      rw (← state) (rw (get-put key other off s) (rw (if_neg (text_dec key other) ne) refl));
  removed = λ s s' key rc h small.
      let state : (delete key s ≡ s') = ap (λ p. p.0) h in
      rw (← state) (rw (get-delete key key s) (rw (if_pos (text_dec key key) refl) refl));
  remove_keeps = λ s s' key other rc h ne.
      let state : (delete key s ≡ s') = ap (λ p. p.0) h in
      rw (← state) (rw (get-delete key other s) (rw (if_neg (text_dec key other) ne) refl));
}

abbrev seven : Value ℕ
seven = num 7

abbrev nine : Value ℕ
nine = num 9

abbrev seven_at : Dict ℕ
seven_at = (codes "tbl:users:7", 4096) ∷ []

mirrored : mirror_pk listed [] users seven (pos 4096) ≡ (seven_at, ok tt)
unfolding program mirror_pk check_insert_code pk_key
mirrored = refl

users-is_name : is_name users ≡ true
unfolding is_name all_name_chars is_name_char is_name_start
users-is_name = refl

seven-encoded : encode_pk seven ≡ ok (codes "7")
unfolding program
seven-encoded = refl

nine-encoded : encode_pk nine ≡ ok (codes "9")
unfolding program
nine-encoded = refl

-- Key 7 is published, key 9 is published, and key 7 is removed.
abbrev calls : List Entry
calls =
    record { table = users; pk = codes "7"; at = some 4096 }
    ∷ record { table = users; pk = codes "9"; at = some 64 }
    ∷ record { table = users; pk = codes "7"; at = none }
    ∷ []

abbrev both : Dict ℕ
both = put (codes "tbl:users:9") 64 seven_at

abbrev last : Dict ℕ
last = delete (codes "tbl:users:7") both

mirrored_too : mirror_pk listed seven_at users nine (pos 64) ≡ (both, ok tt)
unfolding program mirror_pk check_insert_code pk_key
mirrored_too = refl

unmirrored : unmirror_pk listed both users seven ≡ (last, ok true)
unfolding program unmirror_pk check_remove_code pk_key
unmirrored = refl

calls-Runs : Runs ℕ listed [] calls last
calls-Runs = published [] seven_at last users seven (codes "7") 4096 _ seven-encoded mirrored (
    published seven_at both last users nine (codes "9") 64 _ nine-encoded mirrored_too (
      removed both last last users seven (codes "7") true _ seven-encoded unmirrored
        (stopped last)))

calls-IsCarried : All (IsCarried ascii) calls
calls-IsCarried = (
  record { named = users-is_name; kept = refl; below = omega arith },
  (
    record { named = users-is_name; kept = refl; below = omega arith },
    (record { named = users-is_name; kept = refl; below = tt }, tt),
  ),
)

lookup_pk-Runs_example :
    lookup_pk listed last users nine
    ≡ recall (lookup_pk listed [] users nine) calls users (codes "9")
lookup_pk-Runs_example =
    lookup_pk-Runs listed ascii listed-IndexLaws [] calls users nine calls-IsCarried nine-encoded
      users-is_name refl calls-Runs

-- Every key at one offset.
abbrev all_at : Text → ℤ
all_at k = pos 4096

all_at-BelowReserved : BelowReserved all_at
unfolding BelowReserved
all_at-BelowReserved k n e = ground arith

synced : sync_table listed [] one_user all_at ≡ (seven_at, ok tt)
unfolding program sync_table sync_rows continue_after mirror_pk check_insert_code pk_key scan
    filter_rows matches_where
synced = refl

one_user-HasKey :
    All
      (HasKey ℕ listed ascii listed-IndexLaws users all_at one_user.schema.primary_key)
      (scan one_user none)
unfolding program is_text_key scan filter_rows matches_where
one_user-HasKey = (record { plain = refl; kept = refl }, tt)

sync_table-lookups_example :
    All
      (Found ℕ listed ascii listed-IndexLaws users all_at one_user.schema.primary_key seven_at)
      (scan one_user none)
sync_table-lookups_example =
    sync_table-lookups listed ascii listed-IndexLaws [] one_user all_at users-is_name
      all_at-BelowReserved one_user-HasKey synced
