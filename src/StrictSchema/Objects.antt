-- ===== src/StrictSchema/Objects.antt =====
-- What `ensure_node` of crates/agents-core/src/strict_schema.rs does to an object schema's own fields.
use openai_agents_rust.Prelude.{
  Bool, true, false, Option, none, some, [], ◌∷◌, if◌then◌else◌, ◌≡◌, ◌≢◌, refl, subst, sym, ap,
  ◌∙◌,
}
use openai_agents_rust.Json.{Value, Fields, null, bool, number, string, array, object, lookup, get}
use openai_agents_rust.Json.Maps.{lookup-insert}
use openai_agents_rust.StrictSchema.{
  done, key_list, close_object, require_all, close_with, is_object_type, require_keys,
}
use openai_agents_rust.StrictSchema.Steps.{done_injective, Kept, insert-Kept}

-- An object schema says something other than `true` of further properties, and requires exactly the
-- properties that it has.
pub record IsStrict (v : Value) : Type 0 where
  pub closed :
      is_object_type (get "type" v) ≡ true
      → (w : Value) × (get "additionalProperties" v ≡ some w) × (w ≢ bool true)
  pub required :
      (w : Value) → get "properties" v ≡ some w → get "required" v ≡ some (array (key_list w))

abbrev pub Closed : Fields → Type 0
Closed fs =
    is_object_type (lookup "type" fs) ≡ true
    → (w : Value) × (lookup "additionalProperties" fs ≡ some w) × (w ≢ bool true)

abbrev pub Required : Fields → Type 0
Required fs =
    (w : Value) → lookup "properties" fs ≡ some w → lookup "required" fs ≡ some (array (key_list w))

abbrev pub CloseStep : Fields → Fields → Type 0
CloseStep fs gs = Kept ("additionalProperties" ∷ []) fs gs × Closed gs

stays_closed :
    (v : Value) (fs : Fields)
    → lookup "additionalProperties" fs ≡ some v
    → v ≢ bool true
    → CloseStep fs fs
stays_closed v fs e n = (λ k h. refl, λ t. (v, e, n))

close_with-CloseStep :
    (o : Option Value) (fs gs : Fields)
    → lookup "additionalProperties" fs ≡ o
    → close_with o fs ≡ done gs
    → CloseStep fs gs
close_with-CloseStep none fs gs e h = subst (CloseStep fs) (done_injective h) (
  insert-Kept "additionalProperties" (bool false) fs,
  λ t. (bool false, lookup-insert "additionalProperties" (bool false) fs, λ p. cc),
)
close_with-CloseStep (some (bool true)) fs gs e h = cc
close_with-CloseStep (some (bool false)) fs gs e h =
    subst (CloseStep fs) (done_injective h) (stays_closed (bool false) fs e (λ p. cc))
close_with-CloseStep (some null) fs gs e h =
    subst (CloseStep fs) (done_injective h) (stays_closed null fs e (λ p. cc))
close_with-CloseStep (some (number n)) fs gs e h =
    subst (CloseStep fs) (done_injective h) (stays_closed (number n) fs e (λ p. cc))
close_with-CloseStep (some (string s)) fs gs e h =
    subst (CloseStep fs) (done_injective h) (stays_closed (string s) fs e (λ p. cc))
close_with-CloseStep (some (array vs)) fs gs e h =
    subst (CloseStep fs) (done_injective h) (stays_closed (array vs) fs e (λ p. cc))
close_with-CloseStep (some (object hs)) fs gs e h =
    subst (CloseStep fs) (done_injective h) (stays_closed (object hs) fs e (λ p. cc))

pub close_object-CloseStep : (fs gs : Fields) → close_object fs ≡ done gs → CloseStep fs gs
unfolding close_object
close_object-CloseStep fs gs h = go (is_object_type (lookup "type" fs)) refl h
  where
    go :
        (b : Bool)
        → is_object_type (lookup "type" fs) ≡ b
        → (if b then close_with (lookup "additionalProperties" fs) fs else done fs) ≡ done gs
        → CloseStep fs gs
    go true e h = close_with-CloseStep (lookup "additionalProperties" fs) fs gs refl h
    go false e h =
        subst (CloseStep fs) (done_injective h)
          (λ k c. refl, λ t. let c : true ≡ false = sym t ∙ e in cc)

abbrev RequireStep : Fields → Fields → Type 0
RequireStep fs gs = Kept ("required" ∷ []) fs gs × Required gs

require_keys-RequireStep :
    (o : Option Value) (fs : Fields)
    → lookup "properties" fs ≡ o
    → RequireStep fs (require_keys o fs)
require_keys-RequireStep none fs e = (λ k c. refl, λ w p. let c : none ≡ some w = sym e ∙ p in cc)
require_keys-RequireStep (some v) fs e = (
  insert-Kept "required" (array (key_list v)) fs,
  λ w p.
      let k = insert-Kept "required" (array (key_list v)) fs "properties" refl in
      let t : v ≡ w = let q = sym e ∙ (sym k ∙ p) in cc in
      lookup-insert "required" (array (key_list v)) fs ∙ ap (λ u. some (array (key_list u))) t,
)

pub require_all-RequireStep : (fs : Fields) → RequireStep fs (require_all fs)
unfolding require_all
require_all-RequireStep fs = require_keys-RequireStep (lookup "properties" fs) fs refl
