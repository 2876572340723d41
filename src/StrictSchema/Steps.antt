-- ===== src/StrictSchema/Steps.antt =====
-- What each step of `ensure_node`, crates/agents-core/src/strict_schema.rs, leaves of the fields.
use openai_agents_rust.Prelude.{
  String, Bool, true, false, Option, none, some, List, [], ◌∷◌, ◌++◌, contains, str_eq, eq_iff,
  if◌then◌else◌, ◌≡◌, ◌≢◌, refl, subst, sym, ap, ◌∙◌, arith, inl, inr, Bool-cases, ◌⊎◌,
}
use openai_agents_rust.Json.{
  Value, Values, Fields, null, bool, number, string, array, object, nil, cons, end, field, lookup,
  insert,
}
use openai_agents_rust.Json.Maps.{lookup-insert, lookup-insert_other, lookup_miss, differ}
use openai_agents_rust.StrictSchema.{
  Outcome, done, failed, exhausted, ◌>>=◌, remove, key_names, key_list, append,
}
use openai_agents_rust.StrictSchema.Ensure.{each_field, each_item, in_object, in_array, in_node}

abbrev pub AllFields {ℓ} : (Value → Type ℓ) → Fields → Type ℓ
AllFields P end = Unit
AllFields P (field k v fs) = P v × AllFields P fs

abbrev pub AllValues {ℓ} : (Value → Type ℓ) → Values → Type ℓ
AllValues P nil = Unit
AllValues P (cons v vs) = P v × AllValues P vs

pub bind_done {ℓ κ} :
    {A : Type ℓ} {B : Type κ} {b : B} (o : Outcome A) (f : A → Outcome B)
    → (o >>= f) ≡ done b
    → (a : A) × (o ≡ done a) × (f a ≡ done b)
bind_done (done a) f h = (a, refl, h)
bind_done (failed e) f h = cc
bind_done exhausted f h = cc

pub done_injective {ℓ} : {A : Type ℓ} {a b : A} → done a ≡ done b → a ≡ b
done_injective h = cc

-- Only the fields `ks` may differ.
abbrev pub Kept : List String → Fields → Fields → Type 0
Kept ks fs gs = (k : String) → contains k ks ≡ false → lookup k gs ≡ lookup k fs

contains-append_false :
    (k : String) (ks ls : List String)
    → contains k (ks ++ ls) ≡ false
    → (contains k ks ≡ false) × (contains k ls ≡ false)
contains-append_false k [] ls h = (refl, h)
contains-append_false k (j ∷ ks) ls h =
    let r = contains-append_false k ks ls (ground arith) in (ground (arith, r.0), r.1)

pub Kept-trans :
    (ks ls : List String) (fs gs hs : Fields)
    → Kept ks fs gs
    → Kept ls gs hs
    → Kept (ks ++ ls) fs hs
Kept-trans ks ls fs gs hs a b k h = let c = contains-append_false k ks ls h in b k c.1 ∙ a k c.0

pub insert-Kept : (k : String) (v : Value) (fs : Fields) → Kept (k ∷ []) fs (insert k v fs)
insert-Kept k v fs i h = lookup-insert_other k v i fs (differ i k (ground arith))

pub lookup-remove : (k : String) (fs : Fields) → lookup k (remove k fs) ≡ none
unfolding remove lookup
lookup-remove k end = refl
lookup-remove k (field j v fs) = elim (Bool-cases (str_eq j k)) [
  | inl e ↦ rw e (lookup-remove k fs)
  | inr e ↦ rw e (lookup_miss k j v (remove k fs) (λ p. differ j k e (sym p)) ∙ lookup-remove k fs)
]

pub remove-Kept : (k : String) (fs : Fields) → Kept (k ∷ []) fs (remove k fs)
unfolding remove lookup
remove-Kept k end i h = refl
remove-Kept k (field j v fs) i h = elim (Bool-cases (str_eq j k)) [
  | inl e ↦
      let n : i ≢ j = λ p. differ i k (ground arith) (p ∙ (eq_iff j k).0 e) in
      rw e (remove-Kept k fs i h ∙ sym (lookup_miss i j v fs n))
  | inr e ↦ rw e (ap (λ o. if str_eq j i then some v else o) (remove-Kept k fs i h))
]

module _ (ensure : Value → Outcome Value) where
  -- The value is a node that was rewritten.
  abbrev pub Ensured : Value → Type 0
  Ensured w = (v : Value) × (ensure v ≡ done w)

  abbrev pub FieldsEnsured : String → Fields → Type 0
  FieldsEnsured k fs = (gs : Fields) → lookup k fs ≡ some (object gs) → AllFields Ensured gs

  abbrev pub ItemsEnsured : String → Fields → Type 0
  ItemsEnsured k fs = (vs : Values) → lookup k fs ≡ some (array vs) → AllValues Ensured vs

  abbrev pub NodeEnsured : String → Fields → Type 0
  NodeEnsured k fs = (w : Value) → lookup k fs ≡ some w → Ensured w

  each_field-Ensured :
      (fs gs : Fields)
      → each_field ensure fs ≡ done gs
      → (key_names gs ≡ key_names fs) × AllFields Ensured gs
  unfolding each_field key_names
  each_field-Ensured end gs h =
      let e : gs ≡ end = cc in (ap key_names e, subst (AllFields Ensured) (sym e) tt)
  each_field-Ensured (field k v fs) gs h =
      let a = bind_done (ensure v) _ h in
      let b = bind_done (each_field ensure fs) _ a.2 in
      let e : gs ≡ field k a.0 b.0 = cc in
      let r = each_field-Ensured fs b.0 b.1 in
      (ap key_names e ∙ ap (cons (string k)) r.0, subst (AllFields Ensured) (sym e) ((v, a.1), r.1))

  pub each_item-Ensured : (vs ws : Values) → each_item ensure vs ≡ done ws → AllValues Ensured ws
  unfolding each_item
  each_item-Ensured nil ws h = let e : ws ≡ nil = cc in subst (AllValues Ensured) (sym e) tt
  each_item-Ensured (cons v vs) ws h =
      let a = bind_done (ensure v) _ h in
      let b = bind_done (each_item ensure vs) _ a.2 in
      let e : ws ≡ cons a.0 b.0 = cc in
      subst (AllValues Ensured) (sym e) ((v, a.1), each_item-Ensured vs b.0 b.1)

  pub AllValues-append :
      (vs ws : Values)
      → AllValues Ensured vs
      → AllValues Ensured ws
      → AllValues Ensured (append vs ws)
  unfolding append
  AllValues-append nil ws a b = b
  AllValues-append (cons v vs) ws a b = (a.0, AllValues-append vs ws a.1 b)

  -- `lookup k fs` is the value `o`, and a step that writes the field leaves `P`.
  FieldsEnsured-insert :
      (k : String) (gs fs : Fields)
      → AllFields Ensured gs
      → FieldsEnsured k (insert k (object gs) fs)
  FieldsEnsured-insert k gs fs a hs e =
      let s : gs ≡ hs = let t = sym (lookup-insert k (object gs) fs) ∙ e in cc in
      subst (AllFields Ensured) s a

  pub ItemsEnsured-insert :
      (k : String) (vs : Values) (fs : Fields)
      → AllValues Ensured vs
      → ItemsEnsured k (insert k (array vs) fs)
  ItemsEnsured-insert k vs fs a ws e =
      let s : vs ≡ ws = let t = sym (lookup-insert k (array vs) fs) ∙ e in cc in
      subst (AllValues Ensured) s a

  abbrev pub SameKeys : Option Value → Option Value → Type 0
  SameKeys o p = (v : Value) → p ≡ some v → (u : Value) × (o ≡ some u) × (key_list v ≡ key_list u)

  abbrev is_object : Option Value → Bool
  is_object (some (object fs)) = true
  is_object _ = false

  abbrev is_array : Option Value → Bool
  is_array (some (array vs)) = true
  is_array _ = false

  -- What a step on the object, or on the array, at a key does
  abbrev ObjectCases : String → Option Value → Type 0
  ObjectCases k o =
      ((gs : Fields) × (o ≡ some (object gs)))
      ⊎ ((is_object o ≡ false) × ((fs : Fields) → in_object ensure k o fs ≡ done fs))

  object_cases : (k : String) (o : Option Value) → ObjectCases k o
  object_cases k none = inr (refl, λ fs. refl)
  object_cases k (some (object gs)) = inl (gs, refl)
  object_cases k (some null) = inr (refl, λ fs. refl)
  object_cases k (some (bool b)) = inr (refl, λ fs. refl)
  object_cases k (some (number n)) = inr (refl, λ fs. refl)
  object_cases k (some (string s)) = inr (refl, λ fs. refl)
  object_cases k (some (array vs)) = inr (refl, λ fs. refl)

  abbrev pub ObjectStep : String → Fields → Fields → Type 0
  ObjectStep k fs gs =
      Kept (k ∷ []) fs gs × FieldsEnsured k gs × SameKeys (lookup k fs) (lookup k gs)

  rewritten_object :
      (k : String) (hs is fs gs : Fields)
      → lookup k fs ≡ some (object hs)
      → each_field ensure hs ≡ done is
      → insert k (object is) fs ≡ gs
      → ObjectStep k fs gs
  rewritten_object k hs is fs gs e h s =
      let r = each_field-Ensured hs is h in
      subst (ObjectStep k fs) s (
        insert-Kept k (object is) fs,
        FieldsEnsured-insert k is fs r.1,
        λ v p.
            let t : v ≡ object is = let q = sym (lookup-insert k (object is) fs) ∙ p in cc in
            (object hs, e, ap key_list t ∙ r.0),
      )

  pub in_object-Ensured :
      (k : String) (fs gs : Fields)
      → in_object ensure k (lookup k fs) fs ≡ done gs
      → ObjectStep k fs gs
  in_object-Ensured k fs gs h = elim (object_cases k (lookup k fs)) [
    | inl (hs, e) ↦
        let f : in_object ensure k (some (object hs)) fs ≡ done gs =
          ap (λ o. in_object ensure k o fs) (sym e) ∙ h in
        let a = bind_done (each_field ensure hs) _ f in rewritten_object k hs a.0 fs gs e a.1 cc
    | inr (other, same) ↦
        let s : fs ≡ gs = done_injective (sym (same fs) ∙ h) in
        subst (ObjectStep k fs) s (
          λ i c. refl,
          λ hs p. absurd (let c : true ≡ false = sym (ap is_object p) ∙ other in cc),
          λ v p. (v, p, refl),
        )
  ]

  abbrev ArrayCases : String → Option Value → Type 0
  ArrayCases k o =
      ((vs : Values) × (o ≡ some (array vs)))
      ⊎ ((is_array o ≡ false) × ((fs : Fields) → in_array ensure k o fs ≡ done fs))

  array_cases : (k : String) (o : Option Value) → ArrayCases k o
  array_cases k none = inr (refl, λ fs. refl)
  array_cases k (some (array vs)) = inl (vs, refl)
  array_cases k (some null) = inr (refl, λ fs. refl)
  array_cases k (some (bool b)) = inr (refl, λ fs. refl)
  array_cases k (some (number n)) = inr (refl, λ fs. refl)
  array_cases k (some (string s)) = inr (refl, λ fs. refl)
  array_cases k (some (object gs)) = inr (refl, λ fs. refl)

  no_array : (k : String) (fs : Fields) → is_array (lookup k fs) ≡ false → ItemsEnsured k fs
  no_array k fs other vs p = absurd (let c : true ≡ false = sym (ap is_array p) ∙ other in cc)

  abbrev pub ArrayStep : String → Fields → Fields → Type 0
  ArrayStep k fs gs = Kept (k ∷ []) fs gs × ItemsEnsured k gs

  rewritten_array :
      (k : String) (vs : Values) (fs gs : Fields)
      → AllValues Ensured vs
      → insert k (array vs) fs ≡ gs
      → ArrayStep k fs gs
  rewritten_array k vs fs gs a s =
      subst (ArrayStep k fs) s (insert-Kept k (array vs) fs, ItemsEnsured-insert k vs fs a)

  pub in_array-Ensured :
      (k : String) (fs gs : Fields)
      → in_array ensure k (lookup k fs) fs ≡ done gs
      → ArrayStep k fs gs
  in_array-Ensured k fs gs h = elim (array_cases k (lookup k fs)) [
    | inl (vs, e) ↦
        let f : in_array ensure k (some (array vs)) fs ≡ done gs =
          ap (λ o. in_array ensure k o fs) (sym e) ∙ h in
        let a = bind_done (each_item ensure vs) _ f in
        rewritten_array k a.0 fs gs (each_item-Ensured vs a.0 a.1) cc
    | inr (other, same) ↦
        let s : fs ≡ gs = done_injective (sym (same fs) ∙ h) in
        subst (ArrayStep k fs) s (λ i c. refl, no_array k fs other)
  ]

  abbrev pub NodeStep : String → Fields → Fields → Type 0
  NodeStep k fs gs = Kept (k ∷ []) fs gs × NodeEnsured k gs

  pub in_node-Ensured :
      (k : String) (fs gs : Fields) → in_node ensure k (lookup k fs) fs ≡ done gs → NodeStep k fs gs
  in_node-Ensured k fs gs h = go (lookup k fs) refl h
    where
      go : (o : Option Value) → lookup k fs ≡ o → in_node ensure k o fs ≡ done gs → NodeStep k fs gs
      go none e h =
          let s : fs ≡ gs = done_injective h in
          subst (NodeStep k fs) s (λ i c. refl, λ w p. let c : none ≡ some w = sym e ∙ p in cc)
      go (some v) e h =
          let a = bind_done (ensure v) _ h in
          let s : insert k a.0 fs ≡ gs = cc in
          subst (NodeStep k fs) s (
            insert-Kept k a.0 fs,
            λ w p.
                let t : a.0 ≡ w = let q = sym (lookup-insert k a.0 fs) ∙ p in cc in
                (v, a.1 ∙ ap done t),
          )
