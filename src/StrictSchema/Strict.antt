-- ===== src/StrictSchema/Strict.antt =====
-- What `ensure_strict_json_schema` of crates/agents-core/src/strict_schema.rs returns is strict.
use openai_agents_rust.Prelude.{
  ℕ, zero, suc, String, Bool, true, false, some, [], ◌∷◌, contains, str_eq, ◌≡◌, refl, subst, sym,
  ◌∙◌, arith, inl, inr, Bool-cases, eq_iff,
}
use openai_agents_rust.Json.{
  Value, Values, Fields, null, bool, number, string, array, object, cons, end, field, lookup, get,
}
use openai_agents_rust.StrictSchema.{Outcome, done}
use openai_agents_rust.StrictSchema.Ensure.{
  ensure_object, ensure_node, ensure_strict_json_schema, empty_schema,
}
use openai_agents_rust.StrictSchema.Steps.{
  AllFields, AllValues, done_injective, Ensured, FieldsEnsured, ItemsEnsured,
}
use openai_agents_rust.StrictSchema.Objects.{IsStrict}
use openai_agents_rust.StrictSchema.Stages.{IsRewritten, ensure_object-LastStep, IsRewritten-Kept}

pub data InFields (v : Value) : Fields → Type 0 where
  first : {k : String} {fs : Fields} → InFields v (field k v fs)
  later : {k : String} {w : Value} {fs : Fields} → InFields v fs → InFields v (field k w fs)

pub data InValues (v : Value) : Values → Type 0 where
  first : {vs : Values} → InValues v (cons v vs)
  later : {w : Value} {vs : Values} → InValues v vs → InValues v (cons w vs)

-- `u` is the schema itself, or a schema below it.
pub data SubSchema (u : Value) : Value → Type 0 where
  itself : SubSchema u u
  below_fields :
      (k : String) {fs gs : Fields} {w : Value}
      → contains k ("$defs" ∷ "definitions" ∷ "properties" ∷ []) ≡ true
      → lookup k fs ≡ some (object gs)
      → InFields w gs
      → SubSchema u w
      → SubSchema u (object fs)
  below_array :
      (k : String) {fs : Fields} {vs : Values} {w : Value}
      → contains k ("anyOf" ∷ "allOf" ∷ []) ≡ true
      → lookup k fs ≡ some (array vs)
      → InValues w vs
      → SubSchema u w
      → SubSchema u (object fs)
  below_items :
      {fs : Fields} {w : Value}
      → lookup "items" fs ≡ some w
      → SubSchema u w
      → SubSchema u (object fs)

find_field {ℓ} :
    (P : Value → Type ℓ) {w : Value} {fs : Fields} → AllFields P fs → InFields w fs → P w
find_field P a first = a.0
find_field P a (later i) = find_field P a.1 i

find_value {ℓ} :
    (P : Value → Type ℓ) {w : Value} {vs : Values} → AllValues P vs → InValues w vs → P w
find_value P a first = a.0
find_value P a (later i) = find_value P a.1 i

among_three :
    (P : String → Type 0) (k a b c : String)
    → contains k (a ∷ b ∷ c ∷ []) ≡ true
    → P a
    → P b
    → P c
    → P k
among_three P k a b c h x y z = elim (Bool-cases (str_eq k a)) [
  | inl e ↦ subst P (sym ((eq_iff k a).0 e)) x
  | inr n ↦ elim (Bool-cases (str_eq k b)) [
    | inl e ↦ subst P (sym ((eq_iff k b).0 e)) y
    | inr m ↦ subst P (sym ((eq_iff k c).0 (ground arith))) z
  ]
]

module _ (ensure : Value → Outcome Value) where
  abbrev Strictly : Type 0
  Strictly = (v w u : Value) → ensure v ≡ done w → SubSchema u w → IsStrict u

  below-IsStrict :
      (fs : Fields) (u : Value)
      → Strictly
      → IsRewritten ensure fs
      → ItemsEnsured ensure "allOf" fs
      → SubSchema u (object fs)
      → IsStrict u
  unfolding get
  below-IsStrict fs u ih r all itself = record { closed = r.closed; required = r.required }
  below-IsStrict fs u ih r all (below_fields k {gs = gs} {w = w} c e i s) =
      let at_key =
        among_three (λ j. FieldsEnsured ensure j fs) k "$defs" "definitions" "properties" c r.defs
          r.definitions r.properties in
      let found = find_field (Ensured ensure) (at_key gs e) i in ih found.0 w u found.1 s
  below-IsStrict fs u ih r all (below_array k {vs = vs} {w = w} c e i s) =
      let at_key =
        among_three (λ j. ItemsEnsured ensure j fs) k "anyOf" "allOf" "allOf" (ground arith)
          r.alternatives all all in
      let found = find_value (Ensured ensure) (at_key vs e) i in ih found.0 w u found.1 s
  below-IsStrict fs u ih r all (below_items {w = w} e s) =
      let found = r.items w e in ih found.0 w u found.1 s

  object-IsStrict :
      (root : Value) (fs : Fields) (w u : Value)
      → Strictly
      → ensure_object ensure root fs ≡ done w
      → SubSchema u w
      → IsStrict u
  object-IsStrict root fs w u ih h s =
      let l = ensure_object-LastStep ensure root fs w h in
      elim l.2 [
        | inl (v, again) ↦ ih v w u again s
        | inr (gs, e, kept, all) ↦
            below-IsStrict gs u ih (IsRewritten-Kept ensure l.0 gs kept l.1) all
              (subst (SubSchema u) e s)
      ]

abbrev is_object_value : Value → Bool
is_object_value (object fs) = true
is_object_value _ = false

leaf-IsStrict : (v u : Value) → is_object_value v ≡ false → SubSchema u v → IsStrict u
unfolding get
leaf-IsStrict null u n itself = record { closed = λ t. cc; required = λ w p. cc }
leaf-IsStrict (bool b) u n itself = record { closed = λ t. cc; required = λ w p. cc }
leaf-IsStrict (number m) u n itself = record { closed = λ t. cc; required = λ w p. cc }
leaf-IsStrict (string t) u n itself = record { closed = λ t. cc; required = λ w p. cc }
leaf-IsStrict (array vs) u n itself = record { closed = λ t. cc; required = λ w p. cc }
leaf-IsStrict (object fs) u n s = cc

node-IsStrict :
    (fuel : ℕ) (root v w u : Value) → ensure_node fuel root v ≡ done w → SubSchema u w → IsStrict u
unfolding ensure_node
node-IsStrict zero root v w u h s = cc
node-IsStrict (suc fuel) root (object fs) w u h s =
    object-IsStrict (ensure_node fuel root) root fs w u (node-IsStrict fuel root) h s
node-IsStrict (suc fuel) root null w u h s =
    leaf-IsStrict null u refl (subst (SubSchema u) (sym (done_injective h)) s)
node-IsStrict (suc fuel) root (bool b) w u h s =
    leaf-IsStrict (bool b) u refl (subst (SubSchema u) (sym (done_injective h)) s)
node-IsStrict (suc fuel) root (number n) w u h s =
    leaf-IsStrict (number n) u refl (subst (SubSchema u) (sym (done_injective h)) s)
node-IsStrict (suc fuel) root (string t) w u h s =
    leaf-IsStrict (string t) u refl (subst (SubSchema u) (sym (done_injective h)) s)
node-IsStrict (suc fuel) root (array vs) w u h s =
    leaf-IsStrict (array vs) u refl (subst (SubSchema u) (sym (done_injective h)) s)

-- In a schema that `ensure_strict_json_schema` returns, every schema that is reached by way of
-- definitions, properties, items, `anyOf` and `allOf` is strict: of type object only with a field
-- `additionalProperties` other than `true`, and with properties only if it requires all of them and
-- nothing else.
pub ensure_strict_json_schema-IsStrict :
    (fuel : ℕ) (schema w u : Value)
    → ensure_strict_json_schema fuel schema ≡ done w
    → SubSchema u w
    → IsStrict u
unfolding ensure_strict_json_schema
ensure_strict_json_schema-IsStrict fuel (object end) w u h s =
    let t : ensure_node 1 empty_schema empty_schema ≡ done empty_schema = refl in
    node-IsStrict 1 empty_schema empty_schema w u (t ∙ h) s
ensure_strict_json_schema-IsStrict fuel (object (field k v fs)) w u h s =
    node-IsStrict fuel _ _ w u h s
ensure_strict_json_schema-IsStrict fuel null w u h s = node-IsStrict fuel null null w u h s
ensure_strict_json_schema-IsStrict fuel (bool b) w u h s =
    node-IsStrict fuel (bool b) (bool b) w u h s
ensure_strict_json_schema-IsStrict fuel (number n) w u h s =
    node-IsStrict fuel (number n) (number n) w u h s
ensure_strict_json_schema-IsStrict fuel (string t) w u h s =
    node-IsStrict fuel (string t) (string t) w u h s
ensure_strict_json_schema-IsStrict fuel (array vs) w u h s =
    node-IsStrict fuel (array vs) (array vs) w u h s
