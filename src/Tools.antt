-- ===== src/Tools.antt =====
-- Local function tools: crates/agents-core/src/tool.rs, `ToolUseBehavior` of agent.rs, and the
-- tool-call helpers of internal/tool_execution.rs and internal/approvals.rs.
-- A callback of the user (executor, guardrail, formatter) also reads the log of what has happened
-- so far, so that it may behave differently each time. `timeout_seconds` of a tool is a float and
-- is left out: the code that runs tools never reads it.
pub mod Exec
pub mod Execute
pub mod Answers
pub mod Gating
mod Tests
use openai_agents_rust.Prelude.{
  ℕ, String, ◌≡◌, Bool, true, false, not, ◌&&◌, ◌||◌, Option, none, some, List, [], ◌∷◌, ◌++◌, map,
  filter_map, keep_if, any, str_eq, str_option_eq, if◌then◌else◌, unwrap_or, is_some, reverse,
  or_option, ◌>>=◌,
}
use openai_agents_rust.Json.{Value, object, string, end, field, opt_string}
use openai_agents_rust.Items.{InputItem, OutputItem, RunItem}
use openai_agents_rust.ToolIdentity.{ToolDefinition, ToolCall, tool_qualified_name, concat}
use openai_agents_rust.Errors.{AgentsError, Result, ok, ToolGuardrailResult}
use openai_agents_rust.RunState.{
  ApprovalRecord, RunInterruption, RunInterruptionKind, tool_approval, is_tool_approval,
}

-- `serde_json::to_string`, `to_string_pretty` and `from_str` at `Value`.
pub record SerdeJson : Type 0 where
  pub to_string : Value → String
  pub to_string_pretty : Value → String
  pub from_str : String → Option Value

-- `image image_url file_id detail`, `file file_data file_url file_id filename`
pub data ToolOutput : Type 0 where
  text : String → ToolOutput
  image : Option String → Option String → Option String → ToolOutput
  file : Option String → Option String → Option String → Option String → ToolOutput
  json : Value → ToolOutput

unfoldable pub to_output_item : ToolOutput → OutputItem
to_output_item (text t) = OutputItem.text t
to_output_item (json v) = OutputItem.json v
to_output_item (image image_url file_id detail) = OutputItem.json (
    object (
      field "detail" (opt_string detail)
        (field "file_id" (opt_string file_id) (field "image_url" (opt_string image_url) end))))
to_output_item (file file_data file_url file_id filename) = OutputItem.json (
    object (
      field "file_data" (opt_string file_data) (
        field "file_id" (opt_string file_id)
          (field "file_url" (opt_string file_url) (field "filename" (opt_string filename) end)))))

pub record FunctionToolResult : Type 0 where
  pub tool_name : String
  pub call_id : Option String
  pub tool_arguments : Option String
  pub qualified_name : Option String
  pub output : ToolOutput
  pub run_item : Option RunItem
  pub interruptions : List RunItem
  pub agent_run_result : Option Value

-- `final_output_value`: a text alone, any other output as tagged JSON.
unfoldable pub final_output_value : FunctionToolResult → Value
final_output_value r = elim r.output [
  | text t ↦ string t
  | json v ↦ object (field "type" (string "json") (field "value" v end))
  | image image_url file_id detail ↦ object (
      field "detail" (opt_string detail) (
        field "file_id" (opt_string file_id)
          (field "image_url" (opt_string image_url) (field "type" (string "image") end))))
  | file file_data file_url file_id filename ↦ object (
      field "file_data" (opt_string file_data) (
        field "file_id" (opt_string file_id) (
          field "file_url" (opt_string file_url)
            (field "filename" (opt_string filename) (field "type" (string "file") end)))))
]

-- What a run does that others can see: the hooks and the stream recorder at the start and the end of
-- an agent or a tool call, at a handoff and at an approval request, and the calls of the user's code
-- and of the model.
pub data Event : Type 0 where
  tool_start tool_approval_required tool_end : ToolCall → Event
  input_guardrail output_guardrail invoke format_error : ToolCall → Event
  agent_start agent_end list_tools : String → Event
  handoff : String → String → Event
  filter_handoff max_turns_handler : Event
  filter_model_input call_model : List InputItem → Event

-- The newest event first.
abbrev pub Log : Type 0
Log = List Event

abbrev pub ToolInputGuardrail : Type 0
ToolInputGuardrail = Log → ToolCall → Result ToolGuardrailResult

abbrev pub ToolOutputGuardrail : Type 0
ToolOutputGuardrail = Log → ToolCall → ToolOutput → Result ToolGuardrailResult

pub record FunctionTool : Type 0 where
  pub definition : ToolDefinition
  pub tool_input_guardrails : List ToolInputGuardrail
  pub tool_output_guardrails : List ToolOutputGuardrail
  pub needs_approval : Bool
  pub executor : Log → ToolCall → Value → Result ToolOutput

-- `FunctionTool::qualified_name`
unfoldable pub qualified_name : FunctionTool → String
unfolding tool_qualified_name
qualified_name t =
    unwrap_or (tool_qualified_name t.definition.name t.definition.namespace) t.definition.name

pub record ToolsToFinalOutputResult : Type 0 where
  pub is_final_output : Bool
  pub final_output : Option Value

abbrev pub not_final : ToolsToFinalOutputResult
not_final = record { is_final_output = false; final_output = none }

abbrev pub final_with : Value → ToolsToFinalOutputResult
final_with v = record { is_final_output = true; final_output = some v }

pub data ToolUseBehavior : Type 0 where
  run_llm_again stop_on_first_tool : ToolUseBehavior
  stop_at_tools : List String → ToolUseBehavior
  custom : (List FunctionToolResult → Result ToolsToFinalOutputResult) → ToolUseBehavior

abbrev pub stops_at : List String → FunctionToolResult → Bool
stops_at names r =
    any (λ name. str_eq name r.tool_name || str_option_eq r.qualified_name (some name)) names

unfoldable pub stop_value : List String → List FunctionToolResult → ToolsToFinalOutputResult
unfolding final_output_value
stop_value names [] = not_final
stop_value names (r ∷ rs) =
    if stops_at names r then final_with (final_output_value r) else stop_value names rs

-- `ToolUseBehavior::evaluate`
unfoldable pub evaluate :
    ToolUseBehavior → List FunctionToolResult → Result ToolsToFinalOutputResult
unfolding stop_value
evaluate run_llm_again [] = ok not_final
evaluate stop_on_first_tool [] = ok not_final
evaluate (stop_at_tools names) [] = ok not_final
evaluate (custom handler) [] = ok not_final
evaluate run_llm_again (r ∷ rs) = ok not_final
evaluate stop_on_first_tool (r ∷ rs) = ok (final_with (final_output_value r))
evaluate (stop_at_tools names) (r ∷ rs) = ok (stop_value names (r ∷ rs))
evaluate (custom handler) (r ∷ rs) = handler (r ∷ rs)

abbrev pub is_some_and_eq : Option String → String → Bool
is_some_and_eq o s = str_option_eq o (some s)

unfoldable pub approval_matches_tool_call : RunInterruption → ApprovalRecord → ToolCall → Bool
approval_matches_tool_call interruption approval call =
    approval.approved
    && (str_option_eq approval.approval_id interruption.approval_id
        && (is_some_and_eq approval.call_id call.id
            && (is_some_and_eq approval.tool_name call.name
                && (str_option_eq approval.namespace call.namespace
                    && (is_some_and_eq interruption.call_id call.id
                        && (is_some_and_eq interruption.tool_name call.name
                            && str_option_eq interruption.namespace call.namespace))))))

module _ (serde : SerdeJson) where
  unfoldable pub tool_call_of : OutputItem → Option ToolCall
  tool_call_of (OutputItem.tool_call call_id tool_name arguments namespace) = some (record {
    id = call_id;
    name = tool_name;
    arguments = serde.to_string arguments;
    namespace = namespace;
  })
  tool_call_of _ = none

  unfoldable pub extract_tool_calls : List OutputItem → List ToolCall
  unfolding tool_call_of
  extract_tool_calls = filter_map tool_call_of

  abbrev pub pending_call_of : String → RunItem → Option ToolCall
  pending_call_of call_id (RunItem.tool_call tool_name arguments (some id) namespace) =
      if str_eq id call_id
      then some (record {
        id = id;
        name = tool_name;
        arguments = serde.to_string arguments;
        namespace = namespace;
      })
      else none
  pending_call_of call_id _ = none

  -- The latest matching call: the search goes backwards.
  unfoldable pub find_pending_tool_call : String → List RunItem → Option ToolCall
  find_pending_tool_call call_id [] = none
  find_pending_tool_call call_id (item ∷ items) =
      or_option (find_pending_tool_call call_id items) (pending_call_of call_id item)

-- internal/approvals.rs
abbrev pub rejection_message : String
rejection_message = "Tool execution was not approved."

unfoldable pub approval_error_output : ToolCall → ApprovalRecord → RunItem
approval_error_output call approval =
    RunItem.tool_call_output call.name
      (OutputItem.text (unwrap_or approval.reason rejection_message)) (some call.id) call.namespace

unfoldable pub approvals_from_step : Option RunInterruption → List String
approvals_from_step none = []
approvals_from_step (some step) =
    if is_tool_approval step.kind
    then (elim step.call_id as (λ _. List String) [ none ↦ [] | some id ↦ id ∷ [] ])
    else []

abbrev pub is_approval_item : List String → RunItem → Bool
is_approval_item approvals (RunItem.tool_call n a (some id) s) = any (λ c. str_eq c id) approvals
is_approval_item approvals (RunItem.tool_call_output n o (some id) s) =
    any (λ c. str_eq c id) approvals
is_approval_item approvals _ = false

unfoldable pub filter_tool_approvals : List RunItem → List String → List RunItem
filter_tool_approvals items approvals = keep_if (λ i. not (is_approval_item approvals i)) items
