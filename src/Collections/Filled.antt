-- ===== src/Collections/Filled.antt =====
-- takyon.ts: what the loop over the given fields leaves: each of them reads as it was given.
use takyondb.Prelude.{
  ℕ, ◌+◌, ◌≤◌, ◌≡◌, ◌∙◌, ◌⊎◌, inl, inr, ap, sym, List, [], ◌∷◌, some, none, ok, All, arith,
}
use takyondb.Js.Text.{Text, text_dec}
use takyondb.Js.Dict.{get, IsDistinct}
use takyondb.Js.Value.{Value, Row, JsNumber, undefined}
use takyondb.Js.Utf8.{Utf8}
use takyondb.Layout.{Regions}
use takyondb.RecordSchema.{FieldType, FieldDefinition, TakyonSchema, compile_record}
use takyondb.RecordSchema.Named.{field_named}
use takyondb.Proxy.{Machine, ClientBindings}
use takyondb.Proxy.Fields.{JsFloat, RecordProxy, read_property}
use takyondb.Proxy.Fields.Frame.{QueueLaws}
use takyondb.Proxy.Fields.Outcomes.{FloatLaws, Same, Settled}
use takyondb.Proxy.Fields.Unseen.{Unseen, write_typed-Unseen}
use takyondb.Proxy.Fields.Assigned.{
  create_proxy-inv, write_property-inv, read-write_property, read-write_property-other,
}
use takyondb.Collections.{assign_all}
use takyondb.Collections.Assigning.{assign_all-inv, Ready, Known, assign-Ready}

module _ {S N : Type 0} ⦃js : JsNumber N⦄ (bindings : ClientBindings S) (float : JsFloat N)
    (laws : FloatLaws js float) (utf8 : Utf8) (r : Regions)
    (queue : QueueLaws bindings r.record_start) (def : List (Text × FieldType))
    {schema : TakyonSchema} (compiled : compile_record def ≡ ok schema) (base : ℕ)
    (after : r.record_start ≤ base) (proxy : RecordProxy N) where
  -- The loop leaves the proxy as it is, and a machine in which it can be written.
  abbrev Kept : Machine S → RecordProxy N → Type 0
  Kept m' proxy' =
      (proxy' ≡ proxy) × Ready bindings float laws utf8 r queue def compiled base after proxy m'

  pub assign_all-Ready :
      (values : Row N) (m m' : Machine S) (proxy' : RecordProxy N)
      → Ready bindings float laws utf8 r queue def compiled base after proxy m
      → Known bindings float laws utf8 r queue def compiled base after proxy values
      → assign_all bindings float utf8 r proxy m values ≡ (m', ok proxy')
      → Kept m' proxy'
  unfolding assign_all
  assign_all-Ready [] m m' proxy' ready known h =
      let there = ap (λ p. p.0) h in
      let same : proxy ≡ proxy' = ground arith in (sym same, rw (← there) ready)
  assign_all-Ready ((k, v) ∷ values) m m' proxy' ready (((f, g), carried), known) h =
      elim (assign_all-inv bindings float utf8 r proxy proxy' m m' k v values h) [
        | inl (skipped, rest) ↦ assign_all-Ready values m m' proxy' ready known rest
        | inr (mid, next, first, rest) ↦
            let (same, ready') =
              assign-Ready bindings float laws utf8 r queue def compiled base after proxy m mid next
                k v ready g carried first in
            assign_all-Ready values mid m' proxy' ready' known (rw (← same) rest)
      ]

  module _ {ℓ} {A : Type ℓ} (obs : Machine S → A) (unseen : Unseen bindings r obs) where
    -- An observation that sees neither records nor the queue.
    pub assign_all-Unseen :
        (values : Row N) (m m' : Machine S) (proxy' : RecordProxy N)
        → Ready bindings float laws utf8 r queue def compiled base after proxy m
        → Known bindings float laws utf8 r queue def compiled base after proxy values
        → assign_all bindings float utf8 r proxy m values ≡ (m', ok proxy')
        → obs m' ≡ obs m
    unfolding assign_all
    assign_all-Unseen [] m m' proxy' ready known h = ap obs (sym (ap (λ p. p.0) h))
    assign_all-Unseen ((k, v) ∷ values) m m' proxy' ready (((f, g), carried), known) h =
        elim (assign_all-inv bindings float utf8 r proxy proxy' m m' k v values h) [
          | inl (skipped, rest) ↦ assign_all-Unseen values m m' proxy' ready known rest
          | inr (mid, next, first, rest) ↦
              let (same, ready') =
                assign-Ready bindings float laws utf8 r queue def compiled base after proxy m mid
                  next k v ready g carried first in
              let (inside, shape) = create_proxy-inv r m.memory schema base ready.made in
              let field = field_named def k compiled g in
              let until = field.until in
              let wide = field.wide in
              let index = ready.lay.records_before_index in
              let (_, written) =
                write_property-inv bindings float utf8 r proxy next m mid k v
                  (ap (λ p. get k p.schema.fields) shape ∙ g) first in
              let here = ap (λ p. p.base_offset + f.offset) shape in
              assign_all-Unseen values mid m' proxy' ready' known (rw (← same) rest)
              ∙ write_typed-Unseen bindings float laws utf8 r queue obs unseen m mid
                  (base + f.offset) f ready.lay ready.small ready.sane (omega arith) f.type v
                  (rw (← here) written) (omega arith)
        ]

  -- A field that the loop does not name.
  assign_all-other :
      (values : Row N) (m m' : Machine S) (proxy' : RecordProxy N) (other : Text)
      {g : FieldDefinition}
      → Ready bindings float laws utf8 r queue def compiled base after proxy m
      → Known bindings float laws utf8 r queue def compiled base after proxy values
      → assign_all bindings float utf8 r proxy m values ≡ (m', ok proxy')
      → get other values ≡ none
      → get other schema.fields ≡ some g
      → Settled r m.memory (base + g.offset) g.type
      → read_property float utf8 proxy m'.memory other
        ≡ read_property float utf8 proxy m.memory other
  unfolding assign_all get
  assign_all-other [] m m' proxy' other ready known h absent found settled =
      ap (λ p. read_property float utf8 proxy p.0.memory other) (sym h)
  assign_all-other ((k, v) ∷ values) m m' proxy' other {g} ready (((f, at), carried), known) h
        absent found settled =
      elim (text_dec k other) [
        | yes same ↦ absurd (ground arith)
        | no ne ↦
            let later : (get other values ≡ none) = ground arith in
            elim (assign_all-inv bindings float utf8 r proxy proxy' m m' k v values h) [
              | inl (skipped, rest) ↦
                  assign_all-other values m m' proxy' other ready known rest later found settled
              | inr (mid, next, first, rest) ↦
                  let (same, ready') =
                    assign-Ready bindings float laws utf8 r queue def compiled base after proxy m
                      mid next k v ready at carried first in
                  let (reads, kept) =
                    read-write_property-other bindings float utf8 r laws queue def base m k other v
                      ready.lay ready.small compiled ready.made after at ready.sane carried first ne
                      found settled in
                  assign_all-other values mid m' proxy' other ready' known (rw (← same) rest) later
                    found kept
                  ∙ ap (λ p. read_property float utf8 p mid.memory other) (sym same)
                  ∙ reads
            ]
      ]

  -- Every field that was given a value reads as that value.
  abbrev pub Reads : Machine S → Row N → Type 0
  Reads m = All (λ e.
      (e.1 ≡ undefined)
      ⊎ ((v : Value N) × (read_property float utf8 proxy m.memory e.0 ≡ ok v) × Same v e.1))

  pub assign_all-Reads :
      (values : Row N) (m m' : Machine S) (proxy' : RecordProxy N)
      → Ready bindings float laws utf8 r queue def compiled base after proxy m
      → Known bindings float laws utf8 r queue def compiled base after proxy values
      → IsDistinct values
      → assign_all bindings float utf8 r proxy m values ≡ (m', ok proxy')
      → Reads m' values
  unfolding assign_all
  assign_all-Reads [] m m' proxy' ready known distinct h = tt
  assign_all-Reads ((k, v) ∷ values) m m' proxy' ready (((f, g), carried), known) (absent, distinct)
        h =
      elim (assign_all-inv bindings float utf8 r proxy proxy' m m' k v values h) [
        | inl (skipped, rest) ↦
            (inl skipped, assign_all-Reads values m m' proxy' ready known distinct rest)
        | inr (mid, next, first, rest) ↦
            let (same, ready') =
              assign-Ready bindings float laws utf8 r queue def compiled base after proxy m mid next
                k v ready g carried first in
            let (_, (w, read, alike), settled, _, _) =
              read-write_property bindings float utf8 r laws queue def base m k v ready.lay
                ready.small compiled ready.made after g ready.sane carried first in
            let rest' : assign_all bindings float utf8 r proxy mid values ≡ (m', ok proxy') =
              rw (← same) rest in
            (
              inr (
                w,
                assign_all-other values mid m' proxy' k ready' known rest' absent g settled
                    ∙ ap (λ p. read_property float utf8 p mid.memory k) (sym same)
                    ∙ read,
                alike,
              ),
              assign_all-Reads values mid m' proxy' ready' known distinct rest',
            )
      ]
