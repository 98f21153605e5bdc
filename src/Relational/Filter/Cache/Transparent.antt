-- ===== src/Relational/Filter/Cache/Transparent.antt =====
-- filter.ts: the cache never changes what a clause matches.
use mathlib.Core.Option.{some-injective}
use takyondb.Prelude.{
  false, ℕ, ◌≡◌, ◌∙◌, refl, Bool, true, ◌∷◌, Option, none, some, ◌==◌, ==_iff, if◌then◌else◌, ap,
  sym,
}
use takyondb.Js.Value.{Row, JsNumber}
use takyondb.Relational.Filter.{Where, compile_per_column, matches_where}
use takyondb.Relational.Filter.Cache.{WhereObject, Compiled, cached, compiled_where, matches_cached}

module _ {N : Type 0} ⦃js : JsNumber N⦄ (held : ℕ → Where N) where
  -- Each entry is the compiled clause that the object of its identity holds.
  unfoldable pub IsFaithful : Compiled N → Type 0
  IsFaithful compiled =
      (i : ℕ) (fn : Row N → Bool) → cached compiled i ≡ some fn → fn ≡ compile_per_column (held i)

  -- If no clause object was changed since it was compiled, a match through the cache is the match
  -- of the clause, and the cache stays as it should be for the next call.
  pub matches_cached-matches_where :
      (compiled : Compiled N) (row : Row N) (w : WhereObject N)
      → IsFaithful compiled
      → w.clause ≡ held w.identity
      → ((matches_cached compiled row (some w)).1 ≡ matches_where row (some w.clause))
        × IsFaithful (matches_cached compiled row (some w)).0
  unfolding matches_cached compiled_where matches_where IsFaithful cached
  matches_cached-matches_where compiled row w faithful same =
      by_entry (cached compiled w.identity) refl
    where
      added :
          (i : ℕ) (fn : Row N → Bool) (b : Bool)
          → (w.identity == i) ≡ b
          → (if b then some (compile_per_column w.clause) else cached compiled i) ≡ some fn
          → fn ≡ compile_per_column (held i)
      added i fn true p h =
          sym (some-injective (compile_per_column w.clause) fn h)
          ∙ ap compile_per_column same
          ∙ ap (λ j. compile_per_column (held j)) ((==_iff w.identity i).0 p)
      added i fn false p h = faithful i fn h

      outcome : Option (Row N → Bool) → Compiled N × (Row N → Bool)
      outcome o = elim o [
        | some fn ↦ (compiled, fn)
        | none ↦ let fn = compile_per_column w.clause in ((w.identity, fn) ∷ compiled, fn)
      ]

      by_entry :
          (o : Option (Row N → Bool))
          → cached compiled w.identity ≡ o
          → ((outcome o).1 row ≡ compile_per_column w.clause row) × IsFaithful (outcome o).0
      by_entry (some fn) e = (
        ap (λ f. f row) (faithful w.identity fn e) ∙ ap (λ c. compile_per_column c row) (sym same),
        faithful,
      )
      by_entry none e = (refl, λ i fn h. added i fn (w.identity == i) refl h)
