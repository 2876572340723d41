-- ===== src/StrictSchema/Branches.antt =====
-- What becomes of `oneOf`, `allOf`, `$ref` and of an object's own fields in `ensure_node`,
-- crates/agents-core/src/strict_schema.rs.
use openai_agents_rust.Prelude.{
  String, Bool, true, false, Option, none, some, List, [], ◌∷◌, ◌≡◌, refl, subst, sym, ◌∙◌, arith,
  inl, inr, ◌⊎◌,
}
use openai_agents_rust.Json.{
  Value, Values, Fields, null, bool, number, string, array, object, nil, cons, lookup, insert,
}
use openai_agents_rust.StrictSchema.{
  Outcome, done, ◌>>=◌, remove, append, drop_null, drop_null_default,
}
use openai_agents_rust.StrictSchema.Ensure.{
  each_item, one_of, extend_any_of, finish_node, expand_ref, expand, all_of, resolve_ref, one_field,
}
use openai_agents_rust.StrictSchema.Steps.{
  AllValues, bind_done, done_injective, Kept, Kept-trans, insert-Kept, remove-Kept, lookup-remove,
  Ensured, ItemsEnsured, each_item-Ensured, AllValues-append, ItemsEnsured-insert,
}

module _ (ensure : Value → Outcome Value) where
  abbrev pub any_keys : List String
  any_keys = "oneOf" ∷ "anyOf" ∷ []

  abbrev pub AnyStep : Fields → Fields → Type 0
  AnyStep fs gs = Kept any_keys fs gs × ItemsEnsured ensure "anyOf" gs

  removed : (fs : Fields) → ItemsEnsured ensure "anyOf" fs → AnyStep fs (remove "oneOf" fs)
  removed fs a = (
    λ k h. remove-Kept "oneOf" fs k (ground arith),
    λ vs p. a vs (sym (remove-Kept "oneOf" fs "anyOf" refl) ∙ p),
  )

  inserted :
      (fs : Fields) (ws : Values)
      → AllValues (Ensured ensure) ws
      → AnyStep fs (insert "anyOf" (array ws) (remove "oneOf" fs))
  inserted fs ws a = (
    Kept-trans ("oneOf" ∷ []) ("anyOf" ∷ []) fs (remove "oneOf" fs) _ (remove-Kept "oneOf" fs)
        (insert-Kept "anyOf" (array ws) (remove "oneOf" fs)),
    ItemsEnsured-insert ensure "anyOf" ws (remove "oneOf" fs) a,
  )

  extended :
      (o : Option Value) (ws : Values) (fs : Fields)
      → lookup "anyOf" fs ≡ o
      → ItemsEnsured ensure "anyOf" fs
      → AllValues (Ensured ensure) ws
      → AnyStep fs (extend_any_of ensure o ws (remove "oneOf" fs))
  extended none ws fs e a b = inserted fs ws b
  extended (some (array vs)) ws fs e a b =
      inserted fs (append vs ws) (AllValues-append ensure vs ws (a vs e) b)
  extended (some null) ws fs e a b = removed fs a
  extended (some (bool c)) ws fs e a b = removed fs a
  extended (some (number n)) ws fs e a b = removed fs a
  extended (some (string s)) ws fs e a b = removed fs a
  extended (some (object gs)) ws fs e a b = removed fs a

  pub one_of-Ensured :
      (o : Option Value) (fs gs : Fields)
      → ItemsEnsured ensure "anyOf" fs
      → one_of ensure o fs ≡ done gs
      → AnyStep fs gs
  one_of-Ensured none fs gs a h = subst (AnyStep fs) (done_injective h) (λ k c. refl, a)
  one_of-Ensured (some (array vs)) fs gs a h =
      let b = bind_done (each_item ensure vs) _ h in
      let r = remove "oneOf" fs in
      subst (AnyStep fs) (done_injective b.2) (
        extended (lookup "anyOf" r) b.0 fs (sym (remove-Kept "oneOf" fs "anyOf" refl)) a
          (each_item-Ensured ensure vs b.0 b.1))
  one_of-Ensured (some null) fs gs a h = subst (AnyStep fs) (done_injective h) (removed fs a)
  one_of-Ensured (some (bool c)) fs gs a h = subst (AnyStep fs) (done_injective h) (removed fs a)
  one_of-Ensured (some (number n)) fs gs a h = subst (AnyStep fs) (done_injective h) (removed fs a)
  one_of-Ensured (some (string s)) fs gs a h = subst (AnyStep fs) (done_injective h) (removed fs a)
  one_of-Ensured (some (object hs)) fs gs a h = subst (AnyStep fs) (done_injective h) (removed fs a)

  -- A node that is rewritten again, or the fields themselves without a default of null
  abbrev Finished : Fields → Value → Type 0
  Finished fs w = Ensured ensure w ⊎ (w ≡ object (drop_null_default fs))

  expanded :
      (root : Value) (fs : Fields) (reference : String) (o : Option Value) (w : Value)
      → expand ensure reference o fs ≡ done w
      → Ensured ensure w ⊎ (w ≡ object fs)
  expanded root fs reference none w h = cc
  expanded root fs reference (some (object gs)) w h = inl (_, h)
  expanded root fs reference (some null) w h = inr cc
  expanded root fs reference (some (bool c)) w h = inr cc
  expanded root fs reference (some (number n)) w h = inr cc
  expanded root fs reference (some (string s)) w h = inr cc
  expanded root fs reference (some (array vs)) w h = inr cc

  expand_ref-Ensured :
      (root : Value) (o : Option Value) (fs : Fields) (w : Value)
      → expand_ref ensure root o fs ≡ done w
      → Ensured ensure w ⊎ (w ≡ object fs)
  expand_ref-Ensured root (some (string s)) fs w h = go (one_field ensure fs) h
    where
      go :
          (b : Bool)
          → (elim b [ true ↦ done (object fs) | false ↦ expand ensure s (resolve_ref root s) fs ])
            ≡ done w
          → Ensured ensure w ⊎ (w ≡ object fs)
      go true h = inr cc
      go false h = expanded root fs s (resolve_ref root s) w h
  expand_ref-Ensured root none fs w h = inr cc
  expand_ref-Ensured root (some null) fs w h = inr cc
  expand_ref-Ensured root (some (bool c)) fs w h = inr cc
  expand_ref-Ensured root (some (number n)) fs w h = inr cc
  expand_ref-Ensured root (some (array vs)) fs w h = inr cc
  expand_ref-Ensured root (some (object hs)) fs w h = inr cc

  finish_node-Finished :
      (root : Value) (fs : Fields) (w : Value) → finish_node ensure root fs ≡ done w → Finished fs w
  unfolding finish_node
  finish_node-Finished root fs w h =
      expand_ref-Ensured root (lookup "$ref" (drop_null_default fs)) (drop_null_default fs) w h

  drop_null-Kept : (o : Option Value) (fs : Fields) → Kept ("default" ∷ []) fs (drop_null o fs)
  drop_null-Kept (some null) fs = remove-Kept "default" fs
  drop_null-Kept none fs = λ k h. refl
  drop_null-Kept (some (bool c)) fs = λ k h. refl
  drop_null-Kept (some (number n)) fs = λ k h. refl
  drop_null-Kept (some (string s)) fs = λ k h. refl
  drop_null-Kept (some (array vs)) fs = λ k h. refl
  drop_null-Kept (some (object hs)) fs = λ k h. refl

  pub drop_null_default-Kept : (fs : Fields) → Kept ("default" ∷ []) fs (drop_null_default fs)
  unfolding drop_null_default
  drop_null_default-Kept fs = drop_null-Kept (lookup "default" fs) fs

  abbrev pub last_keys : List String
  last_keys = "allOf" ∷ "default" ∷ []

  abbrev pub LastStep : Fields → Value → Type 0
  LastStep fs w =
      Ensured ensure w
      ⊎ ((gs : Fields) × (w ≡ object gs) × Kept last_keys fs gs × ItemsEnsured ensure "allOf" gs)

  settled :
      (root : Value) (fs gs : Fields) (w : Value)
      → Kept ("allOf" ∷ []) fs gs
      → ItemsEnsured ensure "allOf" gs
      → finish_node ensure root gs ≡ done w
      → LastStep fs w
  settled root fs gs w kept a h = elim (finish_node-Finished root gs w h) [
    | inl again ↦ inl again
    | inr e ↦ inr (
      drop_null_default gs,
      e,
      Kept-trans ("allOf" ∷ []) ("default" ∷ []) fs gs _ kept (drop_null_default-Kept gs),
      λ vs p. a vs (sym (drop_null_default-Kept gs "allOf" refl) ∙ p),
    )
  ]

  dropped :
      (root : Value) (fs : Fields) (w : Value)
      → finish_node ensure root (remove "allOf" fs) ≡ done w
      → LastStep fs w
  dropped root fs w h =
      settled root fs (remove "allOf" fs) w (remove-Kept "allOf" fs)
        (λ vs p. let c : none ≡ some (array vs) = sym (lookup-remove "allOf" fs) ∙ p in cc) h

  several :
      (root : Value) (vs : Values) (fs : Fields) (w : Value)
      → (each_item ensure vs >>= λ ws.
          finish_node ensure root (insert "allOf" (array ws) (remove "allOf" fs)))
        ≡ done w
      → LastStep fs w
  several root vs fs w h =
      let a = bind_done (each_item ensure vs) _ h in
      let r = remove "allOf" fs in
      settled root fs (insert "allOf" (array a.0) r) w
        (λ k c. insert-Kept "allOf" (array a.0) r k c ∙ remove-Kept "allOf" fs k c)
        (ItemsEnsured-insert ensure "allOf" a.0 r (each_item-Ensured ensure vs a.0 a.1)) a.2

  pub all_of-LastStep :
      (root : Value) (o : Option Value) (fs : Fields) (w : Value)
      → lookup "allOf" fs ≡ o
      → all_of ensure root o fs ≡ done w
      → LastStep fs w
  all_of-LastStep root none fs w e h =
      settled root fs fs w (λ k c. refl) (λ vs p. let c : none ≡ some (array vs) = sym e ∙ p in cc)
        h
  all_of-LastStep root (some (array nil)) fs w e h = several root nil fs w h
  all_of-LastStep root (some (array (cons v nil))) fs w e h =
      let a = bind_done (ensure v) _ h in inl (_, a.2)
  all_of-LastStep root (some (array (cons v (cons u vs)))) fs w e h =
      several root (cons v (cons u vs)) fs w h
  all_of-LastStep root (some null) fs w e h = dropped root fs w h
  all_of-LastStep root (some (bool c)) fs w e h = dropped root fs w h
  all_of-LastStep root (some (number n)) fs w e h = dropped root fs w h
  all_of-LastStep root (some (string s)) fs w e h = dropped root fs w h
  all_of-LastStep root (some (object hs)) fs w e h = dropped root fs w h
