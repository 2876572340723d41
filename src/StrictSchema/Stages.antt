-- ===== src/StrictSchema/Stages.antt =====
-- The fields that `ensure_node` of crates/agents-core/src/strict_schema.rs leaves, after all its steps.
use openai_agents_rust.Prelude.{
  String, false, some, List, [], ◌∷◌, contains, ◌≡◌, refl, sym, ap, ◌∙◌,
}
use openai_agents_rust.Json.{Value, Fields, array, lookup}
use openai_agents_rust.StrictSchema.{Outcome, done, close_object, require_all, is_object_type}
use openai_agents_rust.StrictSchema.Ensure.{
  in_object, in_array, in_node, ensure_parts, ensure_object,
}
use openai_agents_rust.StrictSchema.Steps.{
  bind_done, Kept, Kept-trans, FieldsEnsured, ItemsEnsured, NodeEnsured, SameKeys, ObjectStep,
  ArrayStep, NodeStep, in_object-Ensured, in_array-Ensured, in_node-Ensured,
}
use openai_agents_rust.StrictSchema.Branches.{
  AnyStep, any_keys, last_keys, LastStep, one_of-Ensured, all_of-LastStep,
}
use openai_agents_rust.StrictSchema.Objects.{
  Closed, Required, CloseStep, close_object-CloseStep, require_all-RequireStep,
}

-- The fields below which `ensure_node` goes hold rewritten nodes.
pub record IsRewritten (ensure : Value → Outcome Value) (fs : Fields) : Type 0 where
  pub defs : FieldsEnsured ensure "$defs" fs
  pub definitions : FieldsEnsured ensure "definitions" fs
  pub properties : FieldsEnsured ensure "properties" fs
  pub items : NodeEnsured ensure "items" fs
  pub alternatives : ItemsEnsured ensure "anyOf" fs
  pub closed : Closed fs
  pub required : Required fs

module _ (ensure : Value → Outcome Value) where
  Required-in_object :
      (fs gs : Fields)
      → Required fs
      → Kept ("properties" ∷ []) fs gs
      → SameKeys ensure (lookup "properties" fs) (lookup "properties" gs)
      → Required gs
  Required-in_object fs gs r kept same w p =
      let u = same w p in kept "required" refl ∙ (r u.0 u.1 ∙ ap (λ l. some (array l)) (sym u.2))

  -- The fields between the steps
  record Stages (fs gs : Fields) : Type 0 where
    f1 : Fields
    f2 : Fields
    f3 : Fields
    f4 : Fields
    f5 : Fields
    f6 : Fields
    defs : ObjectStep ensure "$defs" fs f1
    definitions : ObjectStep ensure "definitions" f1 f2
    close : CloseStep f2 f3
    properties : ObjectStep ensure "properties" (require_all f3) f4
    items : NodeStep ensure "items" f4 f5
    alternatives : ArrayStep ensure "anyOf" f5 f6
    moved : AnyStep ensure f6 gs

  ensure_parts-Stages : (fs gs : Fields) → ensure_parts ensure fs ≡ done gs → Stages fs gs
  unfolding ensure_parts
  ensure_parts-Stages fs gs h =
      let a1 = bind_done (in_object ensure "$defs" (lookup "$defs" fs) fs) _ h in
      let a2 = bind_done (in_object ensure "definitions" (lookup "definitions" a1.0) a1.0) _ a1.2 in
      let a3 = bind_done (close_object a2.0) _ a2.2 in
      let r = require_all a3.0 in
      let a4 = bind_done (in_object ensure "properties" (lookup "properties" r) r) _ a3.2 in
      let a5 = bind_done (in_node ensure "items" (lookup "items" a4.0) a4.0) _ a4.2 in
      let a6 = bind_done (in_array ensure "anyOf" (lookup "anyOf" a5.0) a5.0) _ a5.2 in
      let any_of = in_array-Ensured ensure "anyOf" a5.0 a6.0 a6.1 in
      record {
        f1 = a1.0;
        f2 = a2.0;
        f3 = a3.0;
        f4 = a4.0;
        f5 = a5.0;
        f6 = a6.0;
        defs = in_object-Ensured ensure "$defs" fs a1.0 a1.1;
        definitions = in_object-Ensured ensure "definitions" a1.0 a2.0 a2.1;
        close = close_object-CloseStep a2.0 a3.0 a3.1;
        properties = in_object-Ensured ensure "properties" r a4.0 a4.1;
        items = in_node-Ensured ensure "items" a4.0 a5.0 a5.1;
        alternatives = any_of;
        moved = one_of-Ensured ensure (lookup "oneOf" a6.0) a6.0 gs any_of.1 a6.2;
      }

  Closed-Kept :
      (ks : List String) (fs gs : Fields)
      → Kept ks fs gs
      → contains "type" ks ≡ false
      → contains "additionalProperties" ks ≡ false
      → Closed fs
      → Closed gs
  Closed-Kept ks fs gs kept n m c t =
      let d = c (ap is_object_type (sym (kept "type" n)) ∙ t) in
      (d.0, kept "additionalProperties" m ∙ d.1, d.2)

  Required-Kept :
      (ks : List String) (fs gs : Fields)
      → Kept ks fs gs
      → contains "properties" ks ≡ false
      → contains "required" ks ≡ false
      → Required fs
      → Required gs
  Required-Kept ks fs gs kept n m r w p = kept "required" m ∙ r w (sym (kept "properties" n) ∙ p)

  FieldsEnsured-Kept :
      (ks : List String) (k : String) (fs gs : Fields)
      → Kept ks fs gs
      → contains k ks ≡ false
      → FieldsEnsured ensure k fs
      → FieldsEnsured ensure k gs
  FieldsEnsured-Kept ks k fs gs kept n e hs p = e hs (sym (kept k n) ∙ p)

  -- The fields that are written after a step
  abbrev l5 : List String
  l5 = "anyOf" ∷ any_keys ensure

  abbrev l4 : List String
  l4 = "items" ∷ l5

  abbrev l3 : List String
  l3 = "required" ∷ "properties" ∷ l4

  abbrev l2 : List String
  l2 = "additionalProperties" ∷ l3

  abbrev l1 : List String
  l1 = "definitions" ∷ l2

  IsRewritten-Stages : (fs gs : Fields) → Stages fs gs → IsRewritten ensure gs
  IsRewritten-Stages fs gs s =
      let r = require_all s.f3 in
      let require = require_all-RequireStep s.f3 in
      let k5 =
        Kept-trans ("anyOf" ∷ []) (any_keys ensure) s.f5 s.f6 gs s.alternatives.0 s.moved.0 in
      let k4 = Kept-trans ("items" ∷ []) l5 s.f4 s.f5 gs s.items.0 k5 in
      let kr = Kept-trans ("properties" ∷ []) l4 r s.f4 gs s.properties.0 k4 in
      let k3 = Kept-trans ("required" ∷ []) ("properties" ∷ l4) s.f3 r gs require.0 kr in
      let k2 = Kept-trans ("additionalProperties" ∷ []) l3 s.f2 s.f3 gs s.close.0 k3 in
      let k1 = Kept-trans ("definitions" ∷ []) l2 s.f1 s.f2 gs s.definitions.0 k2 in
      record {
        defs = FieldsEnsured-Kept l1 "$defs" s.f1 gs k1 refl s.defs.1;
        definitions = FieldsEnsured-Kept l2 "definitions" s.f2 gs k2 refl s.definitions.1;
        properties = FieldsEnsured-Kept l4 "properties" s.f4 gs k4 refl s.properties.1;
        items = λ w p. s.items.1 w (sym (k5 "items" refl) ∙ p);
        alternatives = s.moved.1;
        closed = Closed-Kept l3 s.f3 gs k3 refl refl s.close.1;
        required =
            Required-Kept l4 s.f4 gs k4 refl refl
              (Required-in_object r s.f4 require.1 s.properties.0 s.properties.2);
      }

  pub ensure_object-LastStep :
      (root : Value) (fs : Fields) (w : Value)
      → ensure_object ensure root fs ≡ done w
      → (gs : Fields) × IsRewritten ensure gs × LastStep ensure gs w
  unfolding ensure_object
  ensure_object-LastStep root fs w h =
      let a = bind_done (ensure_parts ensure fs) _ h in
      (
        a.0,
        IsRewritten-Stages fs a.0 (ensure_parts-Stages fs a.0 a.1),
        all_of-LastStep ensure root (lookup "allOf" a.0) a.0 w refl a.2,
      )

  pub IsRewritten-Kept :
      (fs gs : Fields)
      → Kept (last_keys ensure) fs gs
      → IsRewritten ensure fs
      → IsRewritten ensure gs
  IsRewritten-Kept fs gs kept r = record {
    defs = FieldsEnsured-Kept (last_keys ensure) "$defs" fs gs kept refl r.defs;
    definitions = FieldsEnsured-Kept (last_keys ensure) "definitions" fs gs kept refl r.definitions;
    properties = FieldsEnsured-Kept (last_keys ensure) "properties" fs gs kept refl r.properties;
    items = λ w p. r.items w (sym (kept "items" refl) ∙ p);
    alternatives = λ vs p. r.alternatives vs (sym (kept "anyOf" refl) ∙ p);
    closed = Closed-Kept (last_keys ensure) fs gs kept refl refl r.closed;
    required = Required-Kept (last_keys ensure) fs gs kept refl refl r.required;
  }
