-- ===== src/Tools/Execute.antt =====
-- `execute_local_function_tools` of crates/agents-core/src/internal/tool_execution.rs. The loop body
-- is `run_call`; what it does to the world is the log. Tracing spans are left out.
use openai_agents_rust.Prelude.{
  String, Bool, not, ◌&&◌, Option, none, some, List, [], ◌∷◌, ◌++◌, find, str_eq, str_option_eq,
  if◌then◌else◌, unwrap_or,
}
use openai_agents_rust.Json.{null}
use openai_agents_rust.Items.{RunItem}
use openai_agents_rust.ToolIdentity.{ToolCall, concat}
use openai_agents_rust.Errors.{
  AgentsError, Result, ok, err, ok_or, ToolGuardrailResult, allow, reject_content, raise_exception,
  model_behavior, tool_input_guardrail_tripwire, tool_output_guardrail_tripwire,
}
use openai_agents_rust.RunState.{ApprovalRecord, RunInterruption, tool_approval}
use openai_agents_rust.Tools.{
  SerdeJson, ToolOutput, text, to_output_item, FunctionToolResult, FunctionTool, qualified_name,
  tool_start, tool_approval_required, tool_end, input_guardrail, output_guardrail, invoke,
  format_error, Log, ToolInputGuardrail, ToolOutputGuardrail, approval_matches_tool_call,
  approval_error_output, rejection_message,
}
use openai_agents_rust.Tools.Exec.{
  Exec, ◌>>=◌, ◌>>◌, pure, raise, lift, ask, call_user, attempt, emit,
}

pub record ToolExecutionOutcome : Type 0 where
  pub new_items : List RunItem
  pub tool_results : List FunctionToolResult
  pub input_guardrail_results : List ToolGuardrailResult
  pub output_guardrail_results : List ToolGuardrailResult
  pub interruptions : List RunInterruption

abbrev pub empty_outcome : ToolExecutionOutcome
empty_outcome = record {
  new_items = [];
  tool_results = [];
  input_guardrail_results = [];
  output_guardrail_results = [];
  interruptions = [];
}

-- What the run takes from outside: the tools of the agent, `serde_json`, new UUIDs (a new one at
-- each length of the log), and the formatter of the configuration.
pub record ToolEnv : Type 0 where
  pub serde : SerdeJson
  pub new_v4 : Log → String
  pub tool_error_formatter : Option (Log → ToolCall → Result (Option String))
  pub runtime_tools : List FunctionTool
  pub approved_execution : Option (RunInterruption × ApprovalRecord)

unfoldable pub matches_tool : ToolCall → FunctionTool → Bool
matches_tool call tool =
    str_eq tool.definition.name call.name && str_option_eq tool.definition.namespace call.namespace

unfoldable pub find_tool : List FunctionTool → ToolCall → Result FunctionTool
unfolding matches_tool
find_tool tools call =
    ok_or (find (matches_tool call) tools) (
      model_behavior
        (concat (concat "model requested unknown local function tool `" call.name) "`"))

-- The loop over the input guardrails: the last rejection stands.
unfoldable pub run_tool_input_guardrails :
    List ToolInputGuardrail
    → ToolCall
    → Option ToolOutput
    → List ToolGuardrailResult
    → Exec (Option ToolOutput × List ToolGuardrailResult)
run_tool_input_guardrails [] call rejected results = pure (rejected, results)
run_tool_input_guardrails (g ∷ gs) call rejected results = do
  result ← call_user (input_guardrail call) (λ log. g log call)
  elim result.output.behavior [
    | allow ↦ run_tool_input_guardrails gs call rejected (results ++ result ∷ [])
    | reject_content message ↦
        run_tool_input_guardrails gs call (some (text message)) (results ++ result ∷ [])
    | raise_exception ↦ raise (tool_input_guardrail_tripwire result.guardrail_name result.output)
  ]

-- The loop over the output guardrails: each sees the output that the ones before it left.
unfoldable pub run_tool_output_guardrails :
    List ToolOutputGuardrail
    → ToolCall
    → ToolOutput
    → List ToolGuardrailResult
    → Exec (ToolOutput × List ToolGuardrailResult)
run_tool_output_guardrails [] call output results = pure (output, results)
run_tool_output_guardrails (g ∷ gs) call output results = do
  result ← call_user (output_guardrail call) (λ log. g log call output)
  elim result.output.behavior [
    | allow ↦ run_tool_output_guardrails gs call output (results ++ result ∷ [])
    | reject_content message ↦
        run_tool_output_guardrails gs call (text message) (results ++ result ∷ [])
    | raise_exception ↦ raise (tool_output_guardrail_tripwire result.guardrail_name result.output)
  ]

-- `default_tool_error_function`
unfoldable pub default_tool_error_function : String → String → String
default_tool_error_function tool_name default_message =
    concat (concat (concat "Tool `" tool_name) "` failed: ") default_message

-- What the loop body comes to: the outcome so far, and whether the loop goes on.
pub data Flow : Type 0 where
  next stop : ToolExecutionOutcome → Flow

-- The test of an approval: `match approved_execution`.
pub data Gate : Type 0 where
  open_gate interrupt_run : Gate
  reject_call : ApprovalRecord → Gate

unfoldable pub approval_gate : Option (RunInterruption × ApprovalRecord) → ToolCall → Gate
approval_gate none call = interrupt_run
approval_gate (some (interruption, approval)) call =
    if approval_matches_tool_call interruption approval call
    then open_gate
    else if not approval.approved
    then reject_call approval
    else interrupt_run

unfoldable pub gate : FunctionTool → Option (RunInterruption × ApprovalRecord) → ToolCall → Gate
unfolding approval_gate
gate tool approved call = if tool.needs_approval then approval_gate approved call else open_gate

abbrev pub result_of : FunctionTool → ToolCall → ToolOutput → RunItem → FunctionToolResult
result_of tool call output item = record {
  tool_name = call.name;
  call_id = some call.id;
  tool_arguments = some call.arguments;
  qualified_name = some (qualified_name tool);
  output = output;
  run_item = some item;
  interruptions = [];
  agent_run_result = none;
}

-- A formatter may decline with `none`; then the tool's error stands.
unfoldable pub message_or : AgentsError → Option String → Exec ToolOutput
message_or error none = raise error
message_or error (some message) = pure (text message)

-- The arm of `match function_tool.invoke(…)` for an error.
unfoldable pub recover_with :
    ToolCall → AgentsError → Option (Log → ToolCall → Result (Option String)) → Exec ToolOutput
unfolding default_tool_error_function message_or
recover_with call error none =
    pure (text (default_tool_error_function call.name "Tool execution failed."))
recover_with call error (some formatter) = do
  formatted ← call_user (format_error call) (λ log. formatter log call)
  message_or error formatted

module _ (env : ToolEnv) where
  unfoldable pub recover : ToolCall → AgentsError → Exec ToolOutput
  unfolding recover_with default_tool_error_function
  recover call error = recover_with call error env.tool_error_formatter

  unfoldable pub settle : ToolCall → Result ToolOutput → Exec ToolOutput
  settle call (ok output) = pure output
  settle call (err error) = recover call error

  unfoldable pub invoke_tool : FunctionTool → ToolCall → Exec ToolOutput
  unfolding settle
  invoke_tool tool call = do
    let arguments = unwrap_or (env.serde.from_str call.arguments) null
    result ← attempt (invoke call) (λ log. tool.executor log call arguments)
    settle call result

  unfoldable pub invoke_unless_rejected :
      FunctionTool → ToolCall → Option ToolOutput → Exec ToolOutput
  unfolding invoke_tool
  invoke_unless_rejected tool call none = invoke_tool tool call
  invoke_unless_rejected tool call (some rejected) = pure rejected

  -- The part of the loop body behind the approval test.
  unfoldable pub run_approved : FunctionTool → ToolCall → ToolExecutionOutcome → Exec Flow
  unfolding run_tool_input_guardrails run_tool_output_guardrails invoke_unless_rejected
  run_approved tool call acc = do
    (rejected, input_results) ←
        run_tool_input_guardrails tool.tool_input_guardrails call none acc.input_guardrail_results
    output ← invoke_unless_rejected tool call rejected
    (output', output_results) ←
        run_tool_output_guardrails tool.tool_output_guardrails call output
          acc.output_guardrail_results
    let item =
        RunItem.tool_call_output call.name (to_output_item output') (some call.id) call.namespace
    emit (tool_end call)
    pure (
        next (record acc {
          new_items = acc.new_items ++ item ∷ [];
          tool_results = acc.tool_results ++ result_of tool call output' item ∷ [];
          input_guardrail_results = input_results;
          output_guardrail_results = output_results;
        }))

  unfoldable pub reject : FunctionTool → ToolCall → ApprovalRecord → ToolExecutionOutcome → Flow
  unfolding approval_error_output
  reject tool call approval acc =
      let item = approval_error_output call approval in
      let output = text (unwrap_or approval.reason rejection_message) in
      next (record acc {
        new_items = acc.new_items ++ item ∷ [];
        tool_results = acc.tool_results ++ result_of tool call output item ∷ [];
      })

  unfoldable pub interruption_for : ToolCall → Log → RunInterruption
  interruption_for call log = record {
    kind = some tool_approval;
    approval_id = some (env.new_v4 log);
    call_id = some call.id;
    tool_name = some call.name;
    namespace = call.namespace;
    reason = some "tool approval required";
  }

  unfoldable pub interrupt : ToolCall → ToolExecutionOutcome → Exec Flow
  unfolding interruption_for
  interrupt call acc = do
    interruption ← ask (interruption_for call)
    emit (tool_approval_required call)
    pure (stop (record acc { interruptions = acc.interruptions ++ interruption ∷ [] }))

  unfoldable pub run_gated : Gate → FunctionTool → ToolCall → ToolExecutionOutcome → Exec Flow
  unfolding run_approved reject interrupt
  run_gated open_gate tool call acc = run_approved tool call acc
  run_gated (reject_call approval) tool call acc = pure (reject tool call approval acc)
  run_gated interrupt_run tool call acc = interrupt call acc

  unfoldable pub run_call : ToolCall → ToolExecutionOutcome → Exec Flow
  unfolding run_gated find_tool gate
  run_call call acc = do
    tool ← lift (find_tool env.runtime_tools call)
    emit (tool_start call)
    run_gated (gate tool env.approved_execution call) tool call acc

  unfoldable pub run_calls : List ToolCall → ToolExecutionOutcome → Exec ToolExecutionOutcome
  unfolding run_call
  run_calls [] acc = pure acc
  run_calls (call ∷ calls) acc = do
    flow ← run_call call acc
    elim flow [ next acc' ↦ run_calls calls acc' | stop acc' ↦ pure acc' ]

  unfoldable pub execute_local_function_tools : List ToolCall → Exec ToolExecutionOutcome
  unfolding run_calls
  execute_local_function_tools calls = run_calls calls empty_outcome
