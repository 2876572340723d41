-- ===== src/Trimmer/Apply.antt =====
-- The trimming of an item and `apply`, in
-- crates/agents-extensions/src/extensions/tool_output_trimmer.rs.
use openai_agents_rust.Prelude.{
  ℕ, zero, suc, String, Bool, true, ◌||◌, Option, none, some, List, [], ◌∷◌, any, contains, leb,
  str_eq, if◌then◌else◌, unwrap_or, ◌>>=◌,
}
use mathlib.Core.Option
use openai_agents_rust.Json.{
  Value, Values, Fields, null, string, array, object, nil, cons, end, field, get, as_str, insert,
}
use openai_agents_rust.Items.{InputItem}
use openai_agents_rust.Errors.{Result, ok, err}
use openai_agents_rust.ToolIdentity.{concat}
use openai_agents_rust.Tools.{SerdeJson}
use openai_agents_rust.Runner.{ModelInputData}
use openai_agents_rust.Runner.Transcript.{take_text, decimal, decimal_from}
use openai_agents_rust.Trimmer.{ToolOutputTrimmer, byte_len, validate}
use openai_agents_rust.Trimmer.Calls.{
  find_recent_boundary, CallNames, call_names_from, build_call_id_to_names, tool_names, names_of,
}
use openai_agents_rust.Trimmer.Schema.{trim_tools, trim_tool_search_tool, trim_json_schema}

module _ (serde : SerdeJson) (t : ToolOutputTrimmer) where
  abbrev pub first_name : List String → String
  first_name [] = "unknown_tool"
  first_name (n ∷ names) = n

  unfoldable pub summary : String → String → String
  unfolding decimal_from take_text byte_len
  summary tool_name output = concat "[Trimmed: " (
      concat tool_name (
        concat " output - " (
          concat (decimal (byte_len output)) (
            concat " chars -> " (
              concat (decimal t.preview_chars)
                (concat " char preview]\n" (concat (take_text t.preview_chars output) "...")))))))

  abbrev pub as_object : Value → Option Fields
  as_object (object fs) = some fs
  as_object _ = none

  abbrev pub put_text : String → String → Fields → InputItem
  put_text k s fs = InputItem.json (object (insert k (string s) fs))

  unfoldable pub trim_function_call_output : Value → List String → Option InputItem
  unfolding get summary byte_len insert
  trim_function_call_output item tool_names =
      let output = serde.to_string (unwrap_or (get "output" item) null) in
      if leb (byte_len output) t.max_output_chars
      then none
      else if leb (byte_len output) (byte_len (summary (first_name tool_names) output))
      then none
      else Option.map (put_text "output" (summary (first_name tool_names) output)) (as_object item)

  abbrev preview_value : String → Value
  preview_value serialized =
      array (cons (object (field "text" (string (take_text t.preview_chars serialized)) end)) nil)

  abbrev pub trim_results : Value → Fields → Option InputItem
  trim_results results fs =
      if leb (byte_len (serde.to_string results)) t.max_output_chars
      then none
      else some
          (InputItem.json (object (insert "results" (preview_value (serde.to_string results)) fs)))

  abbrev pub as_array : Value → Option Values
  as_array (array vs) = some vs
  as_array _ = none

  abbrev pub trim_found_tools : Values → Fields → Option InputItem
  trim_found_tools vs fs =
      if leb (byte_len (serde.to_string (array vs))) t.max_output_chars
      then none
      else some
          (InputItem.json (object (insert "tools" (array (trim_tools t.preview_chars vs)) fs)))

  unfoldable pub trim_tool_search_output : Value → Option InputItem
  unfolding get byte_len take_text insert trim_tool_search_tool trim_json_schema
  trim_tool_search_output item = as_object item >>= λ fs. elim (get "results" item) [
    | some results ↦ trim_results results fs
    | none ↦ (get "tools" item >>= as_array) >>= λ vs. trim_found_tools vs fs
  ]

  abbrev pub is_allowed : List String → Bool
  is_allowed names = elim t.trimmable_tools [
    | none ↦ true
    | some allowlist ↦ any (λ n. contains n allowlist) names
  ]

  abbrev pub trim_by_type : String → List String → Value → Option InputItem
  trim_by_type item_type names v =
      if str_eq item_type "function_call_output" || str_eq item_type "tool_call_output"
      then trim_function_call_output v names
      else if str_eq item_type "tool_search_output"
      then trim_tool_search_output v
      else none

  unfoldable pub trim_item : CallNames → InputItem → Option InputItem
  unfolding get as_str names_of trim_function_call_output trim_tool_search_output
  trim_item m (InputItem.text s) = none
  trim_item m (InputItem.json v) = (get "type" v >>= as_str) >>= λ item_type.
      let names = tool_names m item_type v in
      if is_allowed names then trim_by_type item_type names v else none

  -- The loop: the items before the boundary are trimmed.
  unfoldable pub trim_before : CallNames → ℕ → List InputItem → List InputItem
  unfolding trim_item
  trim_before m zero items = items
  trim_before m (suc boundary) [] = []
  trim_before m (suc boundary) (item ∷ items) =
      unwrap_or (trim_item m item) item ∷ trim_before m boundary items

  -- `apply`, on the data of a call of the model. With no items or the boundary 0 nothing is trimmed.
  unfoldable pub apply_trimmer : ModelInputData → Result ModelInputData
  unfolding validate find_recent_boundary call_names_from trim_before
  apply_trimmer model_data = elim (validate t) [
    | err e ↦ err e
    | ok _ ↦ ok (record model_data {
      input =
          trim_before (build_call_id_to_names model_data.input)
            (find_recent_boundary t model_data.input) model_data.input;
    })
  ]
