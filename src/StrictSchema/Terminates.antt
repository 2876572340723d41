-- ===== src/StrictSchema/Terminates.antt =====
-- `ensure_node` of crates/agents-core/src/strict_schema.rs ends on schemas without `allOf` and `$ref`.
use openai_agents_rust.Prelude.{
  ℕ, zero, suc, ◌≤◌, String, true, false, none, List, [], ◌∷◌, ◌++◌, contains, ◌≡◌, ◌≢◌, refl, sym,
  ◌∙◌, arith,
}
use openai_agents_rust.Json.{
  Value, Fields, null, bool, number, string, array, object, end, field, lookup,
}
use openai_agents_rust.StrictSchema.{
  Outcome, done, exhausted, ◌>>=◌, close_object, require_all, drop_null_default,
}
use openai_agents_rust.StrictSchema.Ensure.{
  in_object, in_array, in_node, one_of, finish_node, ensure_parts, ensure_object, ensure_node,
  ensure_strict_json_schema,
}
use openai_agents_rust.StrictSchema.Steps.{
  bind_done, Kept, Kept-trans, in_object-Ensured, in_array-Ensured, in_node-Ensured,
}
use openai_agents_rust.StrictSchema.Objects.{close_object-CloseStep, require_all-RequireStep}
use openai_agents_rust.StrictSchema.Branches.{any_keys, one_of-Ensured, drop_null_default-Kept}
use openai_agents_rust.StrictSchema.Sizes.{
  size, size_fields, plain, plain_fields, size_positive, Small, lookup-Small, lookup_plain,
  SmallField, bind_ends,
}
use openai_agents_rust.StrictSchema.Ends.{
  Ends, in_object-ends, in_array-ends, in_node-ends, one_of-ends, close_object-ends,
}

-- At a key outside `ks`, `gs` has what the plain fields `fs` have.
module _ (ensure : Value → Outcome Value) (n : ℕ) (fs : Fields) (t : Ends ensure n)
    (p : plain_fields fs ≡ true) (l : size_fields fs ≤ n) where
  small_field :
      (ks : List String) (k : String) (gs : Fields)
      → Kept ks fs gs
      → contains k ks ≡ false
      → SmallField n (lookup k gs)
  small_field ks k gs kept c v q = lookup-Small n k fs v p l (sym (kept k c) ∙ q)

  abbrev m1 : List String
  m1 = "$defs" ∷ []

  abbrev m2 : List String
  m2 = "$defs" ∷ "definitions" ∷ []

  abbrev m3 : List String
  m3 = m2 ++ "additionalProperties" ∷ "required" ∷ []

  abbrev m4 : List String
  m4 = m3 ++ "properties" ∷ []

  abbrev m5 : List String
  m5 = m4 ++ "items" ∷ []

  abbrev m6 : List String
  m6 = m5 ++ "anyOf" ∷ []

  abbrev EndsWith : Outcome Fields → Type 0
  EndsWith o = (o ≢ exhausted) × ((gs : Fields) → o ≡ done gs → Kept (m6 ++ any_keys ensure) fs gs)

  stage :
      (ks js : List String) (f : Fields) (o : Outcome Fields) (rest : Fields → Outcome Fields)
      → Kept ks fs f
      → o ≢ exhausted
      → ((g : Fields) → o ≡ done g → Kept js f g)
      → ((g : Fields) → Kept (ks ++ js) fs g → EndsWith (rest g))
      → EndsWith (o >>= rest)
  stage ks js f o rest kept ends step k = (
    bind_ends o rest ends (λ g e. (k g (Kept-trans ks js fs f g kept (step g e))).0),
    λ gs h.
        let a = bind_done o rest h in
        (k a.0 (Kept-trans ks js fs f a.0 kept (step a.0 a.1))).1 gs a.2,
  )

  object_stage :
      (ks : List String) (k : String) (f : Fields) (rest : Fields → Outcome Fields)
      → Kept ks fs f
      → contains k ks ≡ false
      → ((g : Fields) → Kept (ks ++ k ∷ []) fs g → EndsWith (rest g))
      → EndsWith (in_object ensure k (lookup k f) f >>= rest)
  object_stage ks k f rest kept c next =
      stage ks (k ∷ []) f (in_object ensure k (lookup k f) f) rest kept
        (in_object-ends ensure n k (lookup k f) f t (small_field ks k f kept c))
        (λ g e. (in_object-Ensured ensure k f g e).0) next

  any_of-Kept :
      (f5 f6 : Fields)
      → Kept m5 fs f5
      → in_array ensure "anyOf" (lookup "anyOf" f5) f5 ≡ done f6
      → Kept m6 fs f6
  any_of-Kept f5 f6 kept e =
      Kept-trans m5 ("anyOf" ∷ []) fs f5 f6 kept (in_array-Ensured ensure "anyOf" f5 f6 e).0

  last_ends :
      (f5 : Fields)
      → Kept m5 fs f5
      → EndsWith (
          in_array ensure "anyOf" (lookup "anyOf" f5) f5 >>= λ f6.
          one_of ensure (lookup "oneOf" f6) f6)
  last_ends f5 kept = (
    bind_ends (in_array ensure "anyOf" (lookup "anyOf" f5) f5) _
        (in_array-ends ensure n "anyOf" (lookup "anyOf" f5) f5 t
          (small_field m5 "anyOf" f5 kept refl))
        (λ f6 e.
          one_of-ends ensure n (lookup "oneOf" f6) f6 t
            (small_field m6 "oneOf" f6 (any_of-Kept f5 f6 kept e) refl)),
    λ gs h.
        let a = bind_done (in_array ensure "anyOf" (lookup "anyOf" f5) f5) _ h in
        let step = in_array-Ensured ensure "anyOf" f5 a.0 a.1 in
        Kept-trans m6 (any_keys ensure) fs a.0 gs (any_of-Kept f5 a.0 kept a.1)
          (one_of-Ensured ensure (lookup "oneOf" a.0) a.0 gs step.1 a.2).0,
  )

  abbrev mc : List String
  mc = m2 ++ "additionalProperties" ∷ []

  ensure_parts-EndsWith : EndsWith (ensure_parts ensure fs)
  unfolding ensure_parts
  ensure_parts-EndsWith =
      object_stage [] "$defs" fs _ (λ k c. refl) refl
        (λ f1 k1. object_stage m1 "definitions" f1 _ k1 refl (λ f2 k2.
          stage m2 ("additionalProperties" ∷ []) f2 (close_object f2) _ k2 (close_object-ends f2)
            (λ g e. (close_object-CloseStep f2 g e).0)
            (λ f3 k3.
              object_stage m3 "properties" (require_all f3) _
                (Kept-trans mc ("required" ∷ []) fs f3 (require_all f3) k3
                  (require_all-RequireStep f3).0)
                refl
                (λ f4 k4.
                  stage m4 ("items" ∷ []) f4 (in_node ensure "items" (lookup "items" f4) f4) _ k4
                    (in_node-ends ensure n "items" (lookup "items" f4) f4 t
                      (small_field m4 "items" f4 k4 refl))
                    (λ g e. (in_node-Ensured ensure "items" f4 g e).0) last_ends))))

  -- Without `$ref` a node that has been gone through is returned.
  finish_node-ends :
      (root : Value) (ks : List String) (gs : Fields)
      → Kept ks fs gs
      → contains "$ref" ks ≡ false
      → finish_node ensure root gs ≢ exhausted
  unfolding finish_node
  finish_node-ends root ks gs kept c =
      let e : lookup "$ref" (drop_null_default gs) ≡ none =
        drop_null_default-Kept ensure gs "$ref" refl
        ∙ (kept "$ref" c ∙ lookup_plain "$ref" fs refl p) in
      rw e (λ q. cc)

  ensure_object-ends : (root : Value) → ensure_object ensure root fs ≢ exhausted
  unfolding ensure_object
  ensure_object-ends root = bind_ends (ensure_parts ensure fs) _ ensure_parts-EndsWith.0 (λ gs e.
      let kept = ensure_parts-EndsWith.1 gs e in
      let n : lookup "allOf" gs ≡ none = kept "allOf" refl ∙ lookup_plain "allOf" fs refl p in
      rw n (finish_node-ends root (m6 ++ any_keys ensure) gs kept refl))

node-ends : (fuel : ℕ) (root v : Value) → Small fuel v → ensure_node fuel root v ≢ exhausted
unfolding ensure_node plain size
node-ends zero root v s = absurd (let h = size_positive v in let l = s.1 in omega arith)
node-ends (suc fuel) root (object fs) s =
    ensure_object-ends (ensure_node fuel root) fuel fs (node-ends fuel root) s.0 (omega arith) root
node-ends (suc fuel) root null s = λ q. cc
node-ends (suc fuel) root (bool b) s = λ q. cc
node-ends (suc fuel) root (number n) s = λ q. cc
node-ends (suc fuel) root (string t) s = λ q. cc
node-ends (suc fuel) root (array vs) s = λ q. cc

-- A schema that has no field `allOf` or `$ref` at any depth is rewritten, or refused by an error,
-- within as many calls in depth as it has values.
pub ensure_strict_json_schema_terminates :
    (schema : Value) (fuel : ℕ)
    → plain schema ≡ true
    → size schema ≤ fuel
    → ensure_strict_json_schema fuel schema ≢ exhausted
unfolding ensure_strict_json_schema
ensure_strict_json_schema_terminates (object end) fuel p l = λ q. cc
ensure_strict_json_schema_terminates (object (field k v fs)) fuel p l =
    node-ends fuel _ (object (field k v fs)) (p, l)
ensure_strict_json_schema_terminates null fuel p l = node-ends fuel null null (p, l)
ensure_strict_json_schema_terminates (bool b) fuel p l = node-ends fuel (bool b) (bool b) (p, l)
ensure_strict_json_schema_terminates (number n) fuel p l =
    node-ends fuel (number n) (number n) (p, l)
ensure_strict_json_schema_terminates (string t) fuel p l =
    node-ends fuel (string t) (string t) (p, l)
ensure_strict_json_schema_terminates (array vs) fuel p l =
    node-ends fuel (array vs) (array vs) (p, l)
