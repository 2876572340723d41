-- ===== src/StrictSchema/Ends.antt =====
-- A step of `ensure_node`, crates/agents-core/src/strict_schema.rs, ends if the nodes below do.
use openai_agents_rust.Prelude.{
  ℕ, ◌≤◌, String, true, false, not, Option, none, some, [], ◌∷◌, contains, ◌≡◌, ◌≢◌, refl, arith,
  inl, inr, Bool-cases, true_of_and,
}
use openai_agents_rust.Json.{
  Value, Values, Fields, null, bool, number, string, array, object, nil, cons, end, field, lookup,
}
use openai_agents_rust.StrictSchema.{Outcome, exhausted, close_object, close_with, is_object_type}
use openai_agents_rust.StrictSchema.Ensure.{
  each_field, each_item, in_object, in_array, in_node, one_of,
}
use openai_agents_rust.StrictSchema.Sizes.{
  size, size_fields, size_values, plain, plain_fields, plain_values, Small, SmallField, bind_ends,
}

module _ (ensure : Value → Outcome Value) (n : ℕ) where
  abbrev pub Ends : Type 0
  Ends = (v : Value) → Small n v → ensure v ≢ exhausted

  each_field-ends :
      (fs : Fields)
      → Ends
      → plain_fields fs ≡ true
      → size_fields fs ≤ n
      → each_field ensure fs ≢ exhausted
  unfolding each_field plain_fields size_fields
  each_field-ends end t p l = λ e. cc
  each_field-ends (field k v fs) t p l =
      let a = true_of_and (not (contains k ("allOf" ∷ "$ref" ∷ []))) _ p in
      let b = true_of_and (plain v) (plain_fields fs) a.1 in
      bind_ends (ensure v) _ (t v (b.0, omega arith)) (λ w e.
        bind_ends (each_field ensure fs) _ (each_field-ends fs t b.1 (omega arith)) (λ gs d q. cc))

  each_item-ends :
      (vs : Values)
      → Ends
      → plain_values vs ≡ true
      → size_values vs ≤ n
      → each_item ensure vs ≢ exhausted
  unfolding each_item plain_values size_values
  each_item-ends nil t p l = λ e. cc
  each_item-ends (cons v vs) t p l =
      let b = true_of_and (plain v) (plain_values vs) p in
      bind_ends (ensure v) _ (t v (b.0, omega arith)) (λ w e.
        bind_ends (each_item ensure vs) _ (each_item-ends vs t b.1 (omega arith)) (λ gs d q. cc))

  object_ends : (hs : Fields) → Ends → Small n (object hs) → each_field ensure hs ≢ exhausted
  unfolding plain size
  object_ends hs t s = each_field-ends hs t s.0 (omega arith)

  array_ends : (vs : Values) → Ends → Small n (array vs) → each_item ensure vs ≢ exhausted
  unfolding plain size
  array_ends vs t s = each_item-ends vs t s.0 (omega arith)

  pub in_object-ends :
      (k : String) (o : Option Value) (gs : Fields)
      → Ends
      → SmallField n o
      → in_object ensure k o gs ≢ exhausted
  in_object-ends k (some (object hs)) gs t small =
      bind_ends (each_field ensure hs) _ (object_ends hs t (small (object hs) refl)) (λ a e q. cc)
  in_object-ends k none gs t small = λ q. cc
  in_object-ends k (some null) gs t small = λ q. cc
  in_object-ends k (some (bool b)) gs t small = λ q. cc
  in_object-ends k (some (number m)) gs t small = λ q. cc
  in_object-ends k (some (string s)) gs t small = λ q. cc
  in_object-ends k (some (array vs)) gs t small = λ q. cc

  pub in_array-ends :
      (k : String) (o : Option Value) (gs : Fields)
      → Ends
      → SmallField n o
      → in_array ensure k o gs ≢ exhausted
  in_array-ends k (some (array vs)) gs t small =
      bind_ends (each_item ensure vs) _ (array_ends vs t (small (array vs) refl)) (λ a e q. cc)
  in_array-ends k none gs t small = λ q. cc
  in_array-ends k (some null) gs t small = λ q. cc
  in_array-ends k (some (bool b)) gs t small = λ q. cc
  in_array-ends k (some (number m)) gs t small = λ q. cc
  in_array-ends k (some (string s)) gs t small = λ q. cc
  in_array-ends k (some (object hs)) gs t small = λ q. cc

  pub in_node-ends :
      (k : String) (o : Option Value) (gs : Fields)
      → Ends
      → SmallField n o
      → in_node ensure k o gs ≢ exhausted
  in_node-ends k none gs t small = λ q. cc
  in_node-ends k (some v) gs t small = bind_ends (ensure v) _ (t v (small v refl)) (λ a e q. cc)

  pub one_of-ends :
      (o : Option Value) (gs : Fields) → Ends → SmallField n o → one_of ensure o gs ≢ exhausted
  one_of-ends (some (array vs)) gs t small =
      bind_ends (each_item ensure vs) _ (array_ends vs t (small (array vs) refl)) (λ a e q. cc)
  one_of-ends none gs t small = λ q. cc
  one_of-ends (some null) gs t small = λ q. cc
  one_of-ends (some (bool b)) gs t small = λ q. cc
  one_of-ends (some (number m)) gs t small = λ q. cc
  one_of-ends (some (string s)) gs t small = λ q. cc
  one_of-ends (some (object hs)) gs t small = λ q. cc

close_with-ends : (o : Option Value) (gs : Fields) → close_with o gs ≢ exhausted
close_with-ends none gs = λ q. cc
close_with-ends (some (bool true)) gs = λ q. cc
close_with-ends (some (bool false)) gs = λ q. cc
close_with-ends (some null) gs = λ q. cc
close_with-ends (some (number m)) gs = λ q. cc
close_with-ends (some (string s)) gs = λ q. cc
close_with-ends (some (array vs)) gs = λ q. cc
close_with-ends (some (object hs)) gs = λ q. cc

pub close_object-ends : (gs : Fields) → close_object gs ≢ exhausted
unfolding close_object
close_object-ends gs = elim (Bool-cases (is_object_type (lookup "type" gs))) [
  | inl e ↦ rw e (close_with-ends (lookup "additionalProperties" gs) gs)
  | inr e ↦ rw e (λ q. cc)
]
