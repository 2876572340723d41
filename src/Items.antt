-- ===== src/Items.antt =====
-- Input, output and run items of crates/agents-core/src/items.rs, and the functions over them in
-- crates/agents-core/src/internal/items.rs and internal/turn_resolution.rs.
pub mod Laws
use openai_agents_rust.Prelude.{
  String, Bool, true, false, Option, none, some, List, [], ◌∷◌, ◌++◌, map, filter_map, str_eq,
  str_option_eq, ◌&&◌,
}
use openai_agents_rust.Json.{Value, object, string, null, end, field, value_eq, opt_string}

pub data InputItem : Type 0 where
  text : String → InputItem
  json : Value → InputItem

-- `PartialEq for InputItem`
unfoldable pub input_eq : InputItem → InputItem → Bool
input_eq (text a) (text b) = str_eq a b
input_eq (json a) (json b) = value_eq a b
input_eq _ _ = false

unfoldable pub input_items_eq : List InputItem → List InputItem → Bool
input_items_eq [] [] = true
input_items_eq (a ∷ as') (b ∷ bs) = elim (input_eq a b) [
  | true ↦ input_items_eq as' bs
  | false ↦ false
]
input_items_eq _ _ = false

-- `OutputItem.tool_call call_id tool_name arguments namespace`
pub data OutputItem : Type 0 where
  text : String → OutputItem
  json : Value → OutputItem
  tool_call : String → String → Value → Option String → OutputItem
  handoff : String → OutputItem
  reasoning : String → OutputItem

-- `RunItem.tool_call tool_name arguments call_id namespace`
-- `RunItem.tool_call_output tool_name output call_id namespace`
pub data RunItem : Type 0 where
  message_output : OutputItem → RunItem
  tool_call : String → Value → Option String → Option String → RunItem
  tool_call_output : String → OutputItem → Option String → Option String → RunItem
  handoff_call : String → RunItem
  handoff_output : String → RunItem
  reasoning : String → RunItem

-- `OutputItem::as_text`
unfoldable pub as_text : OutputItem → Option String
as_text (OutputItem.text t) = some t
as_text _ = none

-- The JSON of an output item, by its serde attributes: a `type` tag in snake case.
unfoldable pub output_value : OutputItem → Value
output_value (OutputItem.text t) =
    object (field "text" (string t) (field "type" (string "text") end))
output_value (OutputItem.json v) = object (field "type" (string "json") (field "value" v end))
output_value (OutputItem.tool_call call_id tool_name arguments namespace) = object (
    field "arguments" arguments (
      field "call_id" (string call_id) (
        field "namespace" (opt_string namespace)
          (field "tool_name" (string tool_name) (field "type" (string "tool_call") end)))))
output_value (OutputItem.handoff target) =
    object (field "target_agent" (string target) (field "type" (string "handoff") end))
output_value (OutputItem.reasoning t) =
    object (field "text" (string t) (field "type" (string "reasoning") end))

abbrev pub reasoning_value : String → Value
reasoning_value t = object (field "text" (string t) (field "type" (string "reasoning") end))

abbrev pub handoff_call_value : String → Value
handoff_call_value target =
    object (field "target_agent" (string target) (field "type" (string "handoff_call") end))

abbrev pub tool_call_value : String → Value → Option String → Option String → Value
tool_call_value tool_name arguments call_id namespace = object (
    field "arguments" arguments (
      field "call_id" (opt_string call_id) (
        field "namespace" (opt_string namespace)
          (field "tool_name" (string tool_name) (field "type" (string "tool_call") end)))))

-- `RunItem::to_input_item`: every arm returns `Some`.
unfoldable pub to_input_item : RunItem → Option InputItem
unfolding output_value
to_input_item (RunItem.message_output (OutputItem.text t)) = some (InputItem.text t)
to_input_item (RunItem.message_output (OutputItem.json v)) = some (InputItem.json v)
to_input_item (RunItem.message_output (OutputItem.reasoning t)) =
    some (InputItem.json (reasoning_value t))
to_input_item
      (RunItem.message_output (OutputItem.tool_call call_id tool_name arguments namespace)) =
    some (InputItem.json (tool_call_value tool_name arguments (some call_id) namespace))
to_input_item (RunItem.message_output (OutputItem.handoff target)) =
    some (InputItem.json (handoff_call_value target))
to_input_item (RunItem.tool_call tool_name arguments call_id namespace) =
    some (InputItem.json (tool_call_value tool_name arguments call_id namespace))
to_input_item (RunItem.tool_call_output tool_name output call_id namespace) = some (
    InputItem.json (
      object (
        field "call_id" (opt_string call_id) (
          field "namespace" (opt_string namespace) (
            field "output" (output_value output) (
              field "tool_name" (string tool_name)
                (field "type" (string "tool_call_output") end)))))))
to_input_item (RunItem.handoff_call target) = some (InputItem.json (handoff_call_value target))
to_input_item (RunItem.handoff_output source) = some (
    InputItem.json
      (object (field "source_agent" (string source) (field "type" (string "handoff_output") end))))
to_input_item (RunItem.reasoning t) = some (InputItem.json (reasoning_value t))

-- `ItemHelpers::to_input_items`, `build_generated_items_details`
unfoldable pub to_input_items : List RunItem → List InputItem
to_input_items = filter_map to_input_item

pub data ReasoningItemIdPolicy : Type 0 where
  preserve omit : ReasoningItemIdPolicy

unfoldable pub run_item_to_input_item : RunItem → ReasoningItemIdPolicy → Option InputItem
run_item_to_input_item (RunItem.reasoning t) omit = none
run_item_to_input_item item _ = to_input_item item

unfoldable pub run_items_to_input_items : List RunItem → ReasoningItemIdPolicy → List InputItem
run_items_to_input_items items policy = filter_map (λ i. run_item_to_input_item i policy) items

unfoldable pub prepare_model_input_items :
    List InputItem → List RunItem → ReasoningItemIdPolicy → List InputItem
unfolding run_items_to_input_items
prepare_model_input_items caller generated policy =
    caller ++ run_items_to_input_items generated policy

-- `PartialEq for OutputItem`
unfoldable pub output_eq : OutputItem → OutputItem → Bool
output_eq (OutputItem.text a) (OutputItem.text b) = str_eq a b
output_eq (OutputItem.json a) (OutputItem.json b) = value_eq a b
output_eq (OutputItem.tool_call c n a s) (OutputItem.tool_call d m b t) =
    str_eq c d && (str_eq n m && (value_eq a b && str_option_eq s t))
output_eq (OutputItem.handoff a) (OutputItem.handoff b) = str_eq a b
output_eq (OutputItem.reasoning a) (OutputItem.reasoning b) = str_eq a b
output_eq _ _ = false

-- `PartialEq for RunItem`
unfoldable pub run_item_eq : RunItem → RunItem → Bool
unfolding output_eq
run_item_eq (RunItem.message_output a) (RunItem.message_output b) = output_eq a b
run_item_eq (RunItem.tool_call n a c s) (RunItem.tool_call m b d t) =
    str_eq n m && (value_eq a b && (str_option_eq c d && str_option_eq s t))
run_item_eq (RunItem.tool_call_output n o c s) (RunItem.tool_call_output m p d t) =
    str_eq n m && (output_eq o p && (str_option_eq c d && str_option_eq s t))
run_item_eq (RunItem.handoff_call a) (RunItem.handoff_call b) = str_eq a b
run_item_eq (RunItem.handoff_output a) (RunItem.handoff_output b) = str_eq a b
run_item_eq (RunItem.reasoning a) (RunItem.reasoning b) = str_eq a b
run_item_eq _ _ = false

unfoldable pub run_items_eq : List RunItem → List RunItem → Bool
unfolding run_item_eq
run_items_eq [] [] = true
run_items_eq (a ∷ as') (b ∷ bs) = run_item_eq a b && run_items_eq as' bs
run_items_eq _ _ = false

-- internal/turn_resolution.rs
unfoldable pub extract_text_outputs : List OutputItem → List String
extract_text_outputs = filter_map as_text

unfoldable pub extract_final_output_text : List OutputItem → Option String
extract_final_output_text output = elim (extract_text_outputs output) [ [] ↦ none | t ∷ _ ↦ some t ]

unfoldable pub build_message_output_item : OutputItem → RunItem
build_message_output_item (OutputItem.tool_call call_id tool_name arguments namespace) =
    RunItem.tool_call tool_name arguments (some call_id) namespace
build_message_output_item (OutputItem.handoff target) = RunItem.handoff_call target
build_message_output_item (OutputItem.reasoning t) = RunItem.reasoning t
build_message_output_item (OutputItem.text t) = RunItem.message_output (OutputItem.text t)
build_message_output_item (OutputItem.json v) = RunItem.message_output (OutputItem.json v)

unfoldable pub build_message_output_items : List OutputItem → List RunItem
build_message_output_items = map build_message_output_item
