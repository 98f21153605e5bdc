-- ===== src/Relational/Sql/Literals/Quoted.antt =====
-- sql.ts: texts that are written as literals are read back, whatever they hold.
use mathlib.Core.List.{append_assoc, append-nil}
use takyondb.Prelude.{
  ℕ, ◌≡◌, ◌∙◌, refl, sym, ap, true, false, List, [], ◌∷◌, ◌++◌, map, ok, ltb, ◌==◌, length, ◌>>=◌,
  if◌then◌else◌, arith, length-append, Bool-cases, inl, inr, ==_iff,
}
use takyondb.Js.Text.{Text}
use takyondb.Js.Strings.{trim, trim_start, trim_end, is_space}
use takyondb.Js.Value.{JsNumber, str}
use takyondb.Relational.Sql.Literals.{
  quote, is_pair, split_loop, non_empty, split_list, starts_quoted, ends_quoted, drop_last,
  unescape, parse_literal,
}
use takyondb.Relational.Sql.Writes.{map_result}

-- A text with its quotes doubled, and as a literal.
pub escape : Text → Text
escape [] = []
escape (c ∷ s) = if c == quote then quote ∷ quote ∷ escape s else c ∷ escape s

abbrev pub quoted : Text → Text
quoted s = quote ∷ (escape s ++ quote ∷ [])

-- The literals of a list of texts, with commas between them.
pub value_list : List Text → Text
value_list [] = []
value_list (t ∷ []) = quoted t
value_list (t ∷ u ∷ ts) = quoted t ++ (b',' ∷ value_list (u ∷ ts))

unescape-escape : (s : Text) → unescape (escape s) ≡ s
unfolding escape unescape
unescape-escape [] = refl
unescape-escape (c ∷ s) = elim (Bool-cases (c == quote)) [
  | inl q ↦
      rw q (ap (λ t. quote ∷ t) (unescape-escape s) ∙ ap (λ k. k ∷ s) (sym ((==_iff c quote).0 q)))
  | inr other ↦ rw other (keep (escape s) other ∙ ap (λ t. c ∷ t) (unescape-escape s))
]
  where
    keep : (e : Text) → (c == quote) ≡ false → unescape (c ∷ e) ≡ c ∷ unescape e
    keep [] h = refl
    keep (d ∷ e) h = rw h refl

drop_last-append : (s : Text) (c : ℕ) → drop_last (s ++ c ∷ []) ≡ s
unfolding drop_last
drop_last-append [] c = refl
drop_last-append (d ∷ []) c = refl
drop_last-append (d ∷ e ∷ s) c = ap (λ t. d ∷ t) (drop_last-append (e ∷ s) c)

ends_quoted-append : (s : Text) → ends_quoted (s ++ quote ∷ []) ≡ true
unfolding ends_quoted
ends_quoted-append [] = refl
ends_quoted-append (d ∷ []) = refl
ends_quoted-append (d ∷ e ∷ s) = ends_quoted-append (e ∷ s)

trim_end-append : (s : Text) → trim_end (s ++ quote ∷ []) ≡ s ++ quote ∷ []
unfolding trim_end is_space
trim_end-append [] = refl
trim_end-append (d ∷ []) = refl
trim_end-append (d ∷ e ∷ s) = rw (trim_end-append (e ∷ s)) refl

trim-quoted : (s : Text) → trim (quoted s) ≡ quoted s
unfolding trim trim_start is_space
trim-quoted s = trim_end-append (quote ∷ escape s)

module _ {N : Type 0} ⦃js : JsNumber N⦄ where
  parse_literal-quoted : (s : Text) → parse_literal {N = N} (quoted s) ≡ ok (str s)
  unfolding parse_literal starts_quoted
  parse_literal-quoted s =
      let long : (ltb 1 (length (quoted s)) ≡ true) =
        ground (arith, length-append (escape s) (quote ∷ [])) in
      rw (trim-quoted s) (
        rw long (
          rw (ends_quoted-append (quote ∷ escape s))
            (rw (drop_last-append (escape s) quote) (ap (λ t. ok (str t)) (unescape-escape s)))))

-- What stands behind a literal does not go on with a quote.
abbrev Stops : Text → Type 0
Stops [] = Unit {0}
Stops (c ∷ s) = (c == quote) ≡ false

split_loop-pair :
    (cur rest : Text)
    → split_loop false true cur (quote ∷ quote ∷ rest)
      ≡ split_loop false true (cur ++ quote ∷ quote ∷ []) rest
unfolding split_loop is_pair
split_loop-pair cur rest = refl

split_loop-char :
    (cur rest : Text) (c : ℕ)
    → (c == quote) ≡ false
    → split_loop false true cur (c ∷ rest) ≡ split_loop false true (cur ++ c ∷ []) rest
unfolding split_loop
split_loop-char cur rest c h = ground arith

split_loop-close :
    (cur rest : Text)
    → Stops rest
    → split_loop false true cur (quote ∷ rest) ≡ split_loop false false (cur ++ quote ∷ []) rest
unfolding split_loop is_pair
split_loop-close cur [] h = refl
split_loop-close cur (c ∷ rest) h = ground arith

split_loop-escape :
    (cur s rest : Text)
    → Stops rest
    → split_loop false true cur (escape s ++ quote ∷ rest)
      ≡ split_loop false false (cur ++ (escape s ++ quote ∷ [])) rest
unfolding escape
split_loop-escape cur [] rest h = split_loop-close cur rest h
split_loop-escape cur (c ∷ s) rest h = elim (Bool-cases (c == quote)) [
  | inl q ↦ rw q (
      split_loop-pair cur (escape s ++ quote ∷ rest)
      ∙ split_loop-escape (cur ++ quote ∷ quote ∷ []) s rest h
      ∙ ap (λ p. split_loop false false p rest)
          (append_assoc cur (quote ∷ quote ∷ []) (escape s ++ quote ∷ [])))
  | inr other ↦ rw other (
      split_loop-char cur (escape s ++ quote ∷ rest) c other
      ∙ split_loop-escape (cur ++ c ∷ []) s rest h
      ∙ ap (λ p. split_loop false false p rest)
          (append_assoc cur (c ∷ []) (escape s ++ quote ∷ [])))
]

-- A literal at the front of a list is copied whole.
split_loop-quoted :
    (s rest : Text)
    → Stops rest
    → split_loop false false [] (quoted s ++ rest) ≡ split_loop false false (quoted s) rest
unfolding split_loop is_pair
split_loop-quoted s rest h =
    ap (split_loop false false []) (ap (λ t. quote ∷ t) (append_assoc (escape s) (quote ∷ []) rest))
    ∙ open_quote (escape s ++ quote ∷ rest)
    ∙ split_loop-escape (quote ∷ []) s rest h
  where
    open_quote :
        (t : Text) → split_loop false false [] (quote ∷ t) ≡ split_loop false true (quote ∷ []) t
    open_quote [] = refl
    open_quote (c ∷ t) = refl

split_loop-comma :
    (cur rest : Text)
    → split_loop false false cur (b',' ∷ rest)
      ≡ (split_loop false false [] rest >>= λ parts. ok (trim cur ∷ parts))
unfolding split_loop
split_loop-comma cur rest = refl

split_loop-end : (cur : Text) → split_loop false false cur [] ≡ ok (trim cur ∷ [])
unfolding split_loop
split_loop-end cur = refl

split_loop-value_list :
    (t : Text) (ts : List Text)
    → split_loop false false [] (value_list (t ∷ ts)) ≡ ok (map quoted (t ∷ ts))
unfolding value_list
split_loop-value_list t [] =
    ap (split_loop false false []) (sym (append-nil (quoted t)))
    ∙ split_loop-quoted t [] tt
    ∙ split_loop-end (quoted t)
    ∙ ap (λ p. ok (p ∷ [])) (trim-quoted t)
split_loop-value_list t (u ∷ ts) =
    split_loop-quoted t (b',' ∷ value_list (u ∷ ts)) refl
    ∙ split_loop-comma (quoted t) (value_list (u ∷ ts))
    ∙ ap (λ r. r >>= λ parts. ok (trim (quoted t) ∷ parts)) (split_loop-value_list u ts)
    ∙ ap (λ p. ok (p ∷ map quoted (u ∷ ts))) (trim-quoted t)

non_empty-quoted : (ts : List Text) → non_empty (map quoted ts) ≡ map quoted ts
unfolding non_empty
non_empty-quoted [] = refl
non_empty-quoted (t ∷ ts) = ap (λ l. quoted t ∷ l) (non_empty-quoted ts)

split_list-value_list : (ts : List Text) → split_list (value_list ts) ≡ ok (map quoted ts)
unfolding split_list
split_list-value_list [] = unfold value_list split_loop non_empty trim trim_start trim_end in refl
split_list-value_list (t ∷ ts) = rw (split_loop-value_list t ts) (ap ok (non_empty-quoted (t ∷ ts)))

module _ {N : Type 0} ⦃js : JsNumber N⦄ where
  map_result-quoted :
      (ts : List Text) → map_result (parse_literal {N = N}) (map quoted ts) ≡ ok (map str ts)
  unfolding map_result
  map_result-quoted [] = refl
  map_result-quoted (t ∷ ts) = rw (parse_literal-quoted t, map_result-quoted ts) refl

  -- Texts of any characters, commas and quotes included, that are written as literals with their
  -- quotes doubled and with commas between them are split and read back as the same values.
  pub parse_literals-value_list :
      (ts : List Text)
      → (split_list (value_list ts) >>= map_result (parse_literal {N = N})) ≡ ok (map str ts)
  parse_literals-value_list ts = rw (split_list-value_list ts) (map_result-quoted ts)
