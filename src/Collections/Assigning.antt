-- ===== src/Collections/Assigning.antt =====
-- takyon.ts: the loop that assigns the given fields through a record proxy.
use takyondb.Prelude.{
  ℕ, ◌^◌, ◌≤◌, ◌<◌, ◌≡◌, ◌∙◌, ◌⊎◌, inl, inr, refl, sym, List, ◌∷◌, some, Result, ok, err, length,
  All, arith,
}
use takyondb.Js.Text.{Text}
use takyondb.Js.Dict.{get}
use takyondb.Js.Value.{Value, Row, JsNumber, null, undefined, bool, num, str, bytes}
use takyondb.Js.Order.{pos}
use takyondb.Js.Utf8.{Utf8}
use takyondb.Layout.{Regions}
use takyondb.Layout.Valid.{IsLayout}
use takyondb.RecordSchema.{FieldType, FieldDefinition, TakyonSchema, compile_record}
use takyondb.Proxy.{Machine, ClientBindings, word_view}
use takyondb.Proxy.Fields.{JsFloat, RecordProxy, create_proxy, write_property}
use takyondb.Proxy.Fields.Frame.{QueueLaws}
use takyondb.Proxy.Fields.Bump.{BumpInStrings}
use takyondb.Proxy.Fields.Outcomes.{FloatLaws, Carried}
use takyondb.Proxy.Fields.Assigned.{read-write_property}
use takyondb.Collections.{assigned, assign, assign_all, and_then}

module _ {N : Type 0} where
  -- A proxy depends on the size of the mapping only.
  pub create_proxy-length :
      (r : Regions) (memory memory' : List ℕ) (schema : TakyonSchema) (base : ℕ)
      → length memory' ≡ length memory
      → create_proxy {N = N} r memory' schema (pos base) ≡ create_proxy r memory schema (pos base)
  unfolding create_proxy word_view
  create_proxy-length r memory memory' schema base e = rw e refl

module _ {S : Type 0} where
  pub and_then-inv {ℓ κ} :
      {A : Type ℓ} {B : Type κ} (p : Machine S × Result A)
      (rest : Machine S → A → Machine S × Result B) {m' : Machine S} {b : B}
      → and_then p rest ≡ (m', ok b)
      → (mid : Machine S) × (a : A) × (p ≡ (mid, ok a)) × (rest mid a ≡ (m', ok b))
  unfolding and_then
  and_then-inv (m, ok a) rest h = (m, a, refl, h)
  and_then-inv (m, err e) rest h = absurd (ground arith)

module _ {S N : Type 0} where
  assigned-inv :
      (p : Machine S × RecordProxy N × Result (Unit {0})) {m' : Machine S} {proxy : RecordProxy N}
      → assigned p ≡ (m', ok proxy)
      → p ≡ (m', proxy, ok tt)
  unfolding assigned
  assigned-inv (m, proxy, ok tt) h = ground arith
  assigned-inv (m, proxy, err e) h = absurd (ground arith)

module _ {S N : Type 0} (bindings : ClientBindings S) (float : JsFloat N) (utf8 : Utf8)
    (r : Regions) where
  -- A field without a value is skipped.
  assign_all-cases :
      (proxy : RecordProxy N) (m : Machine S) (k : Text) (v : Value N) (values : Row N)
      → ((v ≡ undefined)
          × (assign_all bindings float utf8 r proxy m ((k, v) ∷ values)
              ≡ assign_all bindings float utf8 r proxy m values))
        ⊎ (assign_all bindings float utf8 r proxy m ((k, v) ∷ values)
            ≡ and_then
                (assign bindings float utf8 r proxy m k v)
                (λ m' proxy'. assign_all bindings float utf8 r proxy' m' values))
  unfolding assign_all
  assign_all-cases proxy m k undefined values = inl (refl, refl)
  assign_all-cases proxy m k null values = inr refl
  assign_all-cases proxy m k (bool b) values = inr refl
  assign_all-cases proxy m k (num a) values = inr refl
  assign_all-cases proxy m k (str s) values = inr refl
  assign_all-cases proxy m k (bytes i bs) values = inr refl

  -- The loop on a field and the rest: it is skipped, or its assignment returns and the rest follows.
  pub assign_all-inv :
      (proxy proxy' : RecordProxy N) (m m' : Machine S) (k : Text) (v : Value N) (values : Row N)
      → assign_all bindings float utf8 r proxy m ((k, v) ∷ values) ≡ (m', ok proxy')
      → ((v ≡ undefined) × (assign_all bindings float utf8 r proxy m values ≡ (m', ok proxy')))
        ⊎ ((mid : Machine S) × (next : RecordProxy N) × (write_property bindings float utf8 r proxy
                m k v
              ≡ (mid, next, ok tt))
            × (assign_all bindings float utf8 r next mid values ≡ (m', ok proxy')))
  unfolding assign
  assign_all-inv proxy proxy' m m' k v values h = elim (assign_all-cases proxy m k v values) [
    | inl (skipped, same) ↦ inl (skipped, sym same ∙ h)
    | inr taken ↦
        let (mid, next, first, rest) =
          and_then-inv (assign bindings float utf8 r proxy m k v) _ (sym taken ∙ h) in
        inr (mid, next, assigned-inv (write_property bindings float utf8 r proxy m k v) first, rest)
  ]

module _ {S N : Type 0} ⦃js : JsNumber N⦄ (bindings : ClientBindings S) (float : JsFloat N)
    (laws : FloatLaws js float) (utf8 : Utf8) (r : Regions)
    (queue : QueueLaws bindings r.record_start) (def : List (Text × FieldType))
    {schema : TakyonSchema} (compiled : compile_record def ≡ ok schema) (base : ℕ)
    (after : r.record_start ≤ base) (proxy : RecordProxy N) where
  -- A machine in which the proxy's record can be written.
  pub record Ready (m : Machine S) : Type 0 where
    pub lay : IsLayout r (length m.memory)
    pub small : length m.memory < 2 ^ 32
    pub made : create_proxy r m.memory schema (pos base) ≡ ok proxy
    pub sane : BumpInStrings r m.memory

  -- Fields of the schema, with texts that UTF-8 can carry.
  abbrev pub Known : Row N → Type 0
  Known = All (λ e. ((f : FieldDefinition) × (get e.0 schema.fields ≡ some f)) × Carried utf8 e.1)

  -- One assignment.
  pub assign-Ready :
      (m m' : Machine S) (next : RecordProxy N) (k : Text) (v : Value N) {f : FieldDefinition}
      → Ready m
      → get k schema.fields ≡ some f
      → Carried utf8 v
      → write_property bindings float utf8 r proxy m k v ≡ (m', next, ok tt)
      → (next ≡ proxy) × Ready m'
  assign-Ready m m' next k v ready g carried h =
      let (same, read, settled, sane, long) =
        read-write_property bindings float utf8 r laws queue def base m k v ready.lay ready.small
          compiled ready.made after g ready.sane carried h in
      (
        same,
        record {
          lay = rw long ready.lay;
          small = rw long ready.small;
          made = create_proxy-length r m.memory m'.memory schema base long ∙ ready.made;
          sane = sane;
        },
      )
