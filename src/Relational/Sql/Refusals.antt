-- ===== src/Relational/Sql/Refusals.antt =====
-- sql.ts: whatever the parser throws is a `QueryError`.
use takyondb.Prelude.{
  ◌≡◌, refl, sym, arith, Bool, true, false, not, ◌&&◌, ◌||◌, List, [], ◌∷◌, ◌++◌, Option, none,
  some, ltb, ◌==◌, length, Error, Result, ok, err, throw_if, ◌>>=◌, ◌>>◌, if◌then◌else◌, inl, inr,
  Bool-cases, unsupported_statement, unsupported_select, unsupported_insert, unsupported_update,
  unsupported_delete, unsupported_create, unsupported_join, bad_literal, count_mismatch, empty_set,
  no_columns, join_mismatch,
}
use takyondb.Js.Text.{Text, codes, text_beq}
use takyondb.Js.Dict.{get}
use takyondb.Js.Strings.{trim, to_upper, to_lower, split_on, split_spaces}
use takyondb.Js.Regex.{Captures, match_whole}
use takyondb.Js.Value.{JsNumber}
use takyondb.Relational.Column.{ColumnDef, RelationalType}
use takyondb.Relational.ErrorNames.{error_class, query_error}
use takyondb.Relational.Sql.{classify_statement, require_match, set_group, parse_select, parse_join}
use takyondb.Relational.Sql.Patterns.{
  select_pattern, insert_pattern, update_pattern, delete_pattern, create_pattern, join_pattern,
}
use takyondb.Relational.Sql.Literals.{
  quote, split_loop, split_list, parse_literal, is_pair, starts_quoted, ends_quoted, is_number_text,
}
use takyondb.Relational.Sql.Writes.{
  Assignment, map_result, parse_assignment, parse_insert, parse_update, parse_delete,
}
use takyondb.Relational.Sql.Create.{column_types, require_type, parse_column, parse_create_table}

abbrev pub IsQueryError : Error → Type 0
IsQueryError e = error_class e ≡ some query_error

-- A result that, if it is an error, is a `QueryError`.
pub data OnlyQueryErrors {ℓ} {A : Type ℓ} : Result A → Type ℓ where
  returned : (a : A) → OnlyQueryErrors (ok a)
  thrown : (e : Error) → IsQueryError e → OnlyQueryErrors (err e)

>>=-OnlyQueryErrors {ℓ κ} :
    {A : Type ℓ} {B : Type κ} (r : Result A) (next : A → Result B)
    → OnlyQueryErrors r
    → ((a : A) → OnlyQueryErrors (next a))
    → OnlyQueryErrors (r >>= next)
>>=-OnlyQueryErrors (ok a) next h k = k a
>>=-OnlyQueryErrors (err e) next (thrown _ q) k = thrown e q

-- The three steps of the parsers, and the rest of the chain.
checked {ℓ} :
    {A : Type ℓ} (b : Bool) (e : Error) (rest : Result A)
    → IsQueryError e
    → OnlyQueryErrors rest
    → OnlyQueryErrors (throw_if b e >> rest)
checked true e rest q k = thrown e q
checked false e rest q k = k

matched {ℓ} :
    {A : Type ℓ} (m : Option Captures) (e : Error) (next : Captures → Result A)
    → IsQueryError e
    → ((m : Captures) → OnlyQueryErrors (next m))
    → OnlyQueryErrors (require_match m (err e) >>= next)
unfolding require_match
matched none e next q k = thrown e q
matched (some m) e next q k = k m

map_result-OnlyQueryErrors {ℓ κ} :
    {A : Type ℓ} {B : Type κ} (parse : A → Result B) (xs : List A)
    → ((x : A) → OnlyQueryErrors (parse x))
    → OnlyQueryErrors (map_result parse xs)
unfolding map_result
map_result-OnlyQueryErrors parse [] h = returned []
map_result-OnlyQueryErrors parse (x ∷ xs) h = >>=-OnlyQueryErrors (parse x) _ (h x) λ y.
    >>=-OnlyQueryErrors (map_result parse xs) _ (map_result-OnlyQueryErrors parse xs h)
      λ ys. returned _

split_loop-OnlyQueryErrors :
    (skip in_str : Bool) (cur s : Text) → OnlyQueryErrors (split_loop skip in_str cur s)
unfolding split_loop error_class
split_loop-OnlyQueryErrors skip true cur [] = thrown _ refl
split_loop-OnlyQueryErrors skip false cur [] = returned _
split_loop-OnlyQueryErrors true in_str cur (c ∷ s) = split_loop-OnlyQueryErrors false in_str cur s
split_loop-OnlyQueryErrors false in_str cur (c ∷ s) = elim (Bool-cases (c == quote)) [
  | inl quoted ↦
      rw (quoted, split_loop)
        (elim (Bool-cases (is_pair in_str s)) [
          | inl pair ↦
              rw pair (split_loop-OnlyQueryErrors true in_str (cur ++ quote ∷ quote ∷ []) s)
          | inr single ↦ rw single (split_loop-OnlyQueryErrors false (not in_str) (cur ++ c ∷ []) s)
        ])
  | inr other ↦
      rw (other, split_loop)
        (elim (Bool-cases (c == b',' && not in_str)) [
          | inl ends ↦ rw ends (
              >>=-OnlyQueryErrors (split_loop false in_str [] s) (λ parts. ok (trim cur ∷ parts))
                (split_loop-OnlyQueryErrors false in_str [] s) (λ parts. returned _))
          | inr inside ↦ rw inside (split_loop-OnlyQueryErrors false in_str (cur ++ c ∷ []) s)
        ])
]

split_list-OnlyQueryErrors : (raw : Text) → OnlyQueryErrors (split_list raw)
unfolding split_list
split_list-OnlyQueryErrors raw =
    >>=-OnlyQueryErrors (split_loop false false [] raw) _
      (split_loop-OnlyQueryErrors false false [] raw) (λ parts. returned _)

listed_items {ℓ} :
    {A : Type ℓ} (raw : Text) (next : List Text → Result A)
    → ((items : List Text) → OnlyQueryErrors (next items))
    → OnlyQueryErrors (split_list raw >>= next)
listed_items raw next = >>=-OnlyQueryErrors (split_list raw) next (split_list-OnlyQueryErrors raw)

if-OnlyQueryErrors {ℓ} :
    {A : Type ℓ} (b : Bool) {r s : Result A}
    → OnlyQueryErrors r
    → OnlyQueryErrors s
    → OnlyQueryErrors (if b then r else s)
if-OnlyQueryErrors true p q = p
if-OnlyQueryErrors false p q = q

of_error {ℓ} :
    {A : Type ℓ} (r : Result A) (e : Error)
    → IsQueryError e
    → ((thrown : Error) → r ≡ err thrown → thrown ≡ e)
    → OnlyQueryErrors r
of_error (ok a) e q only = returned a
of_error (err t) e q only = thrown t (rw (only t refl) q)

pub classify_statement-OnlyQueryErrors : (sql : Text) → OnlyQueryErrors (classify_statement sql)
unfolding classify_statement error_class
classify_statement-OnlyQueryErrors sql =
    of_error (classify_statement sql) unsupported_statement refl (λ e h. ground arith)

module _ {N : Type 0} ⦃js : JsNumber N⦄ where
  parse_literal-OnlyQueryErrors : (raw : Text) → OnlyQueryErrors (parse_literal {N = N} raw)
  unfolding parse_literal error_class
  parse_literal-OnlyQueryErrors raw =
      let t = trim raw in
      let up = to_upper t in
      if-OnlyQueryErrors (ltb 1 (length t) && (starts_quoted t && ends_quoted t)) (returned _) (
        if-OnlyQueryErrors (text_beq up (codes "NULL")) (returned _) (
          if-OnlyQueryErrors (text_beq up (codes "TRUE")) (returned _) (
            if-OnlyQueryErrors (text_beq up (codes "FALSE")) (returned _)
              (if-OnlyQueryErrors (is_number_text t) (returned _) (thrown bad_literal refl)))))

  parse_assignment-OnlyQueryErrors :
      (parts : List Text) → OnlyQueryErrors (parse_assignment {N = N} parts)
  unfolding parse_assignment error_class
  parse_assignment-OnlyQueryErrors [] = thrown _ refl
  parse_assignment-OnlyQueryErrors (name ∷ []) = thrown _ refl
  parse_assignment-OnlyQueryErrors (name ∷ literal ∷ []) =
      >>=-OnlyQueryErrors (parse_literal literal) _ (parse_literal-OnlyQueryErrors literal)
        (λ v. returned _)
  parse_assignment-OnlyQueryErrors (name ∷ literal ∷ other ∷ parts) = thrown _ refl

  pub parse_select-OnlyQueryErrors : (sql : Text) → OnlyQueryErrors (parse_select {N = N} sql)
  unfolding parse_select error_class
  parse_select-OnlyQueryErrors sql =
      matched (match_whole select_pattern (trim sql)) unsupported_select _ refl (λ m. returned _)

  pub parse_delete-OnlyQueryErrors : (sql : Text) → OnlyQueryErrors (parse_delete {N = N} sql)
  unfolding parse_delete error_class
  parse_delete-OnlyQueryErrors sql =
      matched (match_whole delete_pattern (trim sql)) unsupported_delete _ refl (λ m. returned _)

  pub parse_join-OnlyQueryErrors : (sql : Text) → OnlyQueryErrors (parse_join {N = N} sql)
  unfolding parse_join error_class
  parse_join-OnlyQueryErrors sql =
      matched (match_whole join_pattern (trim sql)) unsupported_join _ refl λ m.
        checked
          (not (text_beq (to_lower (set_group 4 m)) (to_lower (set_group 2 m)))
            || not (text_beq (to_lower (set_group 6 m)) (to_lower (set_group 3 m))))
          join_mismatch _ refl (returned _)

  pub parse_insert-OnlyQueryErrors : (sql : Text) → OnlyQueryErrors (parse_insert {N = N} sql)
  unfolding parse_insert error_class
  parse_insert-OnlyQueryErrors sql =
      matched (match_whole insert_pattern (trim sql)) unsupported_insert _ refl λ m.
        listed_items (set_group 2 m) _ λ columns. listed_items (set_group 3 m) _ λ items.
          >>=-OnlyQueryErrors (map_result parse_literal items) _
            (map_result-OnlyQueryErrors parse_literal items parse_literal-OnlyQueryErrors)
            λ values.
              checked (length columns == 0 || not (length columns == length values)) count_mismatch
                _ refl (returned _)

  pub parse_update-OnlyQueryErrors : (sql : Text) → OnlyQueryErrors (parse_update {N = N} sql)
  unfolding parse_update error_class
  parse_update-OnlyQueryErrors sql =
      let parse : Text → Result (Assignment N) =
        λ assign. parse_assignment (split_on b'=' assign) in
      matched (match_whole update_pattern (trim sql)) unsupported_update _ refl λ m.
        listed_items (set_group 2 m) _ λ items.
          >>=-OnlyQueryErrors (map_result parse items) _
            (map_result-OnlyQueryErrors parse items
              (λ assign. parse_assignment-OnlyQueryErrors (split_on b'=' assign)))
            λ sets. checked (length sets == 0) empty_set _ refl (returned _)

require_type-OnlyQueryErrors : (o : Option RelationalType) → OnlyQueryErrors (require_type o)
unfolding require_type error_class
require_type-OnlyQueryErrors none = thrown _ refl
require_type-OnlyQueryErrors (some t) = returned t

module _ {N : Type 0} where
  parse_column-OnlyQueryErrors : (parts : List Text) → OnlyQueryErrors (parse_column {N = N} parts)
  unfolding parse_column error_class
  parse_column-OnlyQueryErrors [] = thrown _ refl
  parse_column-OnlyQueryErrors (name ∷ []) = thrown _ refl
  parse_column-OnlyQueryErrors (name ∷ type_name ∷ flags) =
      >>=-OnlyQueryErrors (require_type (get (to_upper type_name) column_types)) _
        (require_type-OnlyQueryErrors (get (to_upper type_name) column_types)) (λ t. returned _)

  pub parse_create_table-OnlyQueryErrors :
      (sql : Text) → OnlyQueryErrors (parse_create_table {N = N} sql)
  unfolding parse_create_table error_class
  parse_create_table-OnlyQueryErrors sql =
      let parse : Text → Result (ColumnDef N) =
        λ def. parse_column (split_spaces false (trim def)) in
      matched (match_whole create_pattern (trim sql)) unsupported_create _ refl λ m.
        listed_items (set_group 2 m) _ λ items.
          >>=-OnlyQueryErrors (map_result parse items) _
            (map_result-OnlyQueryErrors parse items
              (λ def. parse_column-OnlyQueryErrors (split_spaces false (trim def))))
            λ columns. checked (length columns == 0) no_columns _ refl (returned _)

pub OnlyQueryErrors-err {ℓ} :
    {A : Type ℓ} {r : Result A} {e : Error} → OnlyQueryErrors r → r ≡ err e → IsQueryError e
OnlyQueryErrors-err (returned a) h = absurd (ground arith)
OnlyQueryErrors-err (thrown t q) h = rw (sym (same h)) q
  where
    same : {A : Type ℓ} {t e : Error} → ◌≡◌ {A = Result A} (err t) (err e) → t ≡ e
    same h = cc h
