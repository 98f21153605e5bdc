-- ===== src/Relational/Filter/Cache.antt =====
-- filter.ts, `compiledWhere`: the compiled clauses, kept by the identity of the clause object.
pub mod Transparent
use takyondb.Prelude.{ℕ, Bool, true, List, [], ◌∷◌, Option, none, some, ◌==◌, if◌then◌else◌}
use takyondb.Js.Value.{Row, JsNumber}
use takyondb.Relational.Filter.{Where, compile_per_column}

-- A clause object: its identity, and the clause it holds.
pub record WhereObject (N : Type 0) : Type 0 where
  pub identity : ℕ
  pub clause : Where N

-- The `WeakMap`. An entry is lost only with its clause object, which then no call can name.
abbrev pub Compiled : Type 0 → Type 0
Compiled N = List (ℕ × (Row N → Bool))

module _ {N : Type 0} where
  -- `compiled.get(where)`
  unfoldable pub cached : Compiled N → ℕ → Option (Row N → Bool)
  cached [] i = none
  cached ((j, fn) ∷ compiled) i = let rest = cached compiled i in if j == i then some fn else rest

module _ {N : Type 0} ⦃js : JsNumber N⦄ where
  unfoldable pub compiled_where : Compiled N → WhereObject N → Compiled N × (Row N → Bool)
  unfolding cached
  compiled_where compiled w = elim (cached compiled w.identity) [
    | some fn ↦ (compiled, fn)
    | none ↦ let fn = compile_per_column w.clause in ((w.identity, fn) ∷ compiled, fn)
  ]

  -- `matchesWhere` through the cache.
  unfoldable pub matches_cached : Compiled N → Row N → Option (WhereObject N) → Compiled N × Bool
  unfolding compiled_where
  matches_cached compiled row none = (compiled, true)
  matches_cached compiled row (some w) =
      let (after, fn) = compiled_where compiled w in (after, fn row)
