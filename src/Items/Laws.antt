-- ===== src/Items/Laws.antt =====
-- Laws of the items of crates/agents-core/src/items.rs and internal/turn_resolution.rs.
use openai_agents_rust.Prelude.{
  ◌≡◌, refl, ◌↔◌, true, Option, none, some, String, str_option_eq, eq_refl, List, [], ◌∷◌, ◌++◌,
  arith, eq_iff, filter_map,
}
use openai_agents_rust.Json.Laws.{value_eq_iff}
use openai_agents_rust.Items.{
  InputItem, OutputItem, RunItem, ReasoningItemIdPolicy, input_eq, input_items_eq, to_input_item,
  output_eq, run_item_eq, run_items_eq, run_item_to_input_item, run_items_to_input_items,
  build_message_output_item,
}

pub input_eq_iff : (a b : InputItem) → (input_eq a b ≡ true) ↔ (a ≡ b)
unfolding input_eq
input_eq_iff (InputItem.text a) (InputItem.text b) = ground (arith, eq_iff a b)
input_eq_iff (InputItem.json a) (InputItem.json b) = ground (arith, value_eq_iff a b)
input_eq_iff (InputItem.text a) (InputItem.json b) = ground arith
input_eq_iff (InputItem.json a) (InputItem.text b) = ground arith

pub input_eq_refl : (a : InputItem) → input_eq a a ≡ true
input_eq_refl a = (input_eq_iff a a).1 refl

pub input_items_eq_iff : (xs ys : List InputItem) → (input_items_eq xs ys ≡ true) ↔ (xs ≡ ys)
unfolding input_items_eq
input_items_eq_iff [] [] = (λ h. refl, λ h. refl)
input_items_eq_iff [] (y ∷ ys) = ground arith
input_items_eq_iff (x ∷ xs) [] = ground arith
input_items_eq_iff (x ∷ xs) (y ∷ ys) = ground (arith, input_eq_iff x y, input_items_eq_iff xs ys)

-- Every run item has an input item.
pub to_input_item_total : (r : RunItem) → (i : InputItem) × (to_input_item r ≡ some i)
unfolding to_input_item
to_input_item_total (RunItem.message_output (OutputItem.text t)) = (_, refl)
to_input_item_total (RunItem.message_output (OutputItem.json v)) = (_, refl)
to_input_item_total (RunItem.message_output (OutputItem.reasoning t)) = (_, refl)
to_input_item_total (RunItem.message_output (OutputItem.tool_call c n a s)) = (_, refl)
to_input_item_total (RunItem.message_output (OutputItem.handoff t)) = (_, refl)
to_input_item_total (RunItem.tool_call n a c s) = (_, refl)
to_input_item_total (RunItem.tool_call_output n o c s) = (_, refl)
to_input_item_total (RunItem.handoff_call t) = (_, refl)
to_input_item_total (RunItem.handoff_output t) = (_, refl)
to_input_item_total (RunItem.reasoning t) = (_, refl)

-- Turning output items into run items first, or an output item into a message, leads to the same
-- input items.
pub to_input_item-build :
    (o : OutputItem)
    → to_input_item (build_message_output_item o) ≡ to_input_item (RunItem.message_output o)
unfolding to_input_item build_message_output_item
to_input_item-build (OutputItem.text t) = refl
to_input_item-build (OutputItem.json v) = refl
to_input_item-build (OutputItem.tool_call c n a s) = refl
to_input_item-build (OutputItem.handoff t) = refl
to_input_item-build (OutputItem.reasoning t) = refl

pub filter_map-append {ℓ κ} :
    {A : Type ℓ} {B : Type κ} (f : A → Option B) (xs ys : List A)
    → filter_map f (xs ++ ys) ≡ filter_map f xs ++ filter_map f ys
filter_map-append f [] ys = refl
filter_map-append f (x ∷ xs) ys = ground (arith, filter_map-append f xs ys)

pub run_items-append :
    (xs ys : List RunItem) (p : ReasoningItemIdPolicy)
    → run_items_to_input_items (xs ++ ys) p
      ≡ run_items_to_input_items xs p ++ run_items_to_input_items ys p
unfolding run_items_to_input_items
run_items-append xs ys p = filter_map-append (λ i. run_item_to_input_item i p) xs ys

str_option_eq_refl : (o : Option String) → str_option_eq o o ≡ true
str_option_eq_refl none = refl
str_option_eq_refl (some s) = eq_refl s

output_eq_refl : (o : OutputItem) → output_eq o o ≡ true
unfolding output_eq
output_eq_refl (OutputItem.text a) = eq_refl a
output_eq_refl (OutputItem.json a) = (value_eq_iff a a).1 refl
output_eq_refl (OutputItem.tool_call c n a s) =
    rw (eq_refl c, eq_refl n, (value_eq_iff a a).1 refl, str_option_eq_refl s)
output_eq_refl (OutputItem.handoff a) = eq_refl a
output_eq_refl (OutputItem.reasoning a) = eq_refl a

run_item_eq_refl : (r : RunItem) → run_item_eq r r ≡ true
unfolding run_item_eq
run_item_eq_refl (RunItem.message_output a) = output_eq_refl a
run_item_eq_refl (RunItem.tool_call n a c s) =
    rw (eq_refl n, (value_eq_iff a a).1 refl, str_option_eq_refl c, str_option_eq_refl s)
run_item_eq_refl (RunItem.tool_call_output n o c s) =
    rw (eq_refl n, output_eq_refl o, str_option_eq_refl c, str_option_eq_refl s)
run_item_eq_refl (RunItem.handoff_call a) = eq_refl a
run_item_eq_refl (RunItem.handoff_output a) = eq_refl a
run_item_eq_refl (RunItem.reasoning a) = eq_refl a

pub run_items_eq_refl : (rs : List RunItem) → run_items_eq rs rs ≡ true
unfolding run_items_eq
run_items_eq_refl [] = refl
run_items_eq_refl (r ∷ rs) = rw (run_item_eq_refl r, run_items_eq_refl rs)
