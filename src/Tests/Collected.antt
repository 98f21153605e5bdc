-- ===== src/Tests/Collected.antt =====
-- The theorems on collections in the small arena, with an index that is a map.
use takyondb.Prelude.{
  ℕ, ◌≡◌, ◌⊎◌, refl, ap, inl, if_pos, if_neg, [], ◌∷◌, some, ok, Result, All, arith, length,
  replicate, length-replicate, if◌then◌else◌,
}
use takyondb.Js.Text.{codes, text_dec}
use takyondb.Js.Dict.{Dict, get, put, delete, has, get-put, get-delete, IsDistinct}
use takyondb.Js.Value.{Value, Row, num, str, undefined}
use takyondb.Js.Order.{pos}
use takyondb.Layout.Valid.{IsLayout}
use takyondb.RecordSchema.{FieldDefinition, align_up}
use takyondb.Proxy.{Machine, record_bump_view}
use takyondb.Proxy.Fields.{
  RecordProxy, read_property, write_integer, integer_up_to, bounded, write_bytes, check_width,
}
use takyondb.Proxy.Fields.Bump.{BumpInStrings}
use takyondb.Proxy.Fields.Outcomes.{Same, Carried}
use takyondb.Collections.{
  IndexBindings, Collection, insert, find, key_error, has_nul, utf8_byte_length, namespaced_key,
  allocate_record_offset, take_record, and_then, assign, assigned, assign_all, insert_checked,
}
use takyondb.Collections.Records.{next_record}
use takyondb.Collections.Inserted.{IndexLaws}
use takyondb.Collections.Found.{find-insert}
use takyondb.Collections.Others.{NoColon, find-insert-other}
use takyondb.Tests.Catalog.{ascii}
use takyondb.Tests.Mirrored.{found_offset}
use takyondb.Tests.Proxies.{
  cells, cells-FloatLaws, arena, idle, idle-QueueLaws, fields, named, flag, name, fields-compiles,
  name-found, flag-found, ada-Carried, arena-IsLayout,
}
use takyondb.Tests.Sample.{natural}

abbrev listed : IndexBindings (Dict ℕ)
listed = record {
  insert_index = λ m key at. (record m { engine = put key at m.engine }, ok (pos 0));
  search_index = λ m key. ok (found_offset (get key m.engine));
  remove_index = λ m key.
      (record m { engine = delete key m.engine }, ok (if has key m.engine then pos 1 else pos 0));
}

listed-IndexLaws : IndexLaws listed idle ascii arena
listed-IndexLaws = record {
  inserted_length = λ m key at. refl;
  inserted_sane = λ m key at sane. sane;
  found = λ m m' key at h small.
      let state : (put key at m.engine ≡ m'.engine) = ap (λ p. p.0.engine) h in
      rw (← state) (rw (get-put key key at m.engine) (rw (if_pos (text_dec key key) refl) refl));
  inserted_other = λ m key other at ne.
      rw (get-put key other at m.engine) (rw (if_neg (text_dec key other) ne) refl);
  removed = λ m m' key rc h small.
      let state : (delete key m.engine ≡ m'.engine) = ap (λ p. p.0.engine) h in
      rw (← state) (rw (get-delete key key m.engine) (rw (if_pos (text_dec key key) refl) refl));
  search_unseen = λ key. record {
    pushed = λ m offset bs. refl;
    notified = λ m offset size. refl;
    written = λ m memory same. refl;
  };
}

abbrev pub blank : Machine (Dict ℕ)
blank = record { memory = replicate 2512 0; engine = [] }

abbrev people : Collection
people = record { name = codes "people"; schema = named }

abbrev ada : Row ℕ
ada = (codes "name", str (codes "Ada")) ∷ (codes "flag", num 7) ∷ []

abbrev inserted : Machine (Dict ℕ) × Result (RecordProxy ℕ)
inserted = insert listed idle cells ascii arena people blank (codes "a") ada

abbrev proxy : RecordProxy ℕ
proxy = record { schema = named; base_offset = 2376; target = [] }

local : Unit {0}
unfolding takyondb.Tests.Proxies.program insert key_error has_nul utf8_byte_length namespaced_key
    allocate_record_offset take_record and_then assign assigned assign_all insert_checked
    record_bump_view next_record write_integer integer_up_to bounded write_bytes check_width
    align_up
local = tt

inserted-returns : inserted ≡ (inserted.0, ok proxy)
unfolding local
inserted-returns = refl

pub blank-length : length blank.memory ≡ 2512
blank-length = length-replicate {A = ℕ} 2512 0

blank-IsLayout : IsLayout arena (length blank.memory)
blank-IsLayout = rw blank-length arena-IsLayout

blank-bump : BumpInStrings arena blank.memory
unfolding local
blank-bump = inl refl

pub blank-next : next_record arena blank.memory ≡ 2376
unfolding local
blank-next = refl

ada-known :
    All
      (λ e.
        ((f : FieldDefinition) × (get e.0 people.schema.fields ≡ some f))
        × Carried {N = ℕ} ascii e.1)
      ada
unfolding local
ada-known = (((name, refl), refl), (((flag, refl), tt), tt))

ada-IsDistinct : IsDistinct ada
unfolding local
ada-IsDistinct = (refl, (refl, tt))

find-insert_example :
    (find listed ascii arena people inserted.0 (codes "a") ≡ ok (some proxy))
    × All
        (λ e.
          (e.1 ≡ undefined)
          ⊎ ((v : Value ℕ) × (read_property cells ascii proxy inserted.0.memory e.0 ≡ ok v)
              × Same v e.1))
        ada
find-insert_example =
    find-insert listed idle cells cells-FloatLaws ascii arena idle-QueueLaws listed-IndexLaws fields
      people blank (codes "a") ada fields-compiles blank-IsLayout (omega (arith, blank-length))
      blank-bump (omega (arith, blank-next)) ada-IsDistinct ada-known inserted-returns

abbrev pets : Collection
pets = record { name = codes "pets"; schema = named }

people-NoColon : NoColon people.name
people-NoColon = (
  λ e. ground arith,
  (
    λ e. ground arith,
    (λ e. ground arith, (λ e. ground arith, (λ e. ground arith, (λ e. ground arith, tt)))),
  ),
)

pets-NoColon : NoColon pets.name
pets-NoColon =
    (λ e. ground arith, (λ e. ground arith, (λ e. ground arith, (λ e. ground arith, tt))))

find-insert-other_example :
    find {N = ℕ} listed ascii arena pets inserted.0 (codes "a")
    ≡ find listed ascii arena pets blank (codes "a")
find-insert-other_example =
    find-insert-other listed idle cells cells-FloatLaws ascii arena idle-QueueLaws listed-IndexLaws
      fields people pets blank (codes "a") (codes "a") ada fields-compiles blank-IsLayout
      (omega (arith, blank-length)) blank-bump (omega (arith, blank-next)) ada-known people-NoColon
      pets-NoColon refl refl (inl (λ e. ground arith)) inserted-returns
