-- ===== src/Runner/Turn.antt =====
-- One turn of the loop of `run_items_internal` in crates/agents-core/src/run.rs. `Locals` are the
-- variables that the loop changes.
use openai_agents_rust.Prelude.{
  ℕ, zero, suc, String, Bool, true, false, Option, none, some, List, [], ◌∷◌, ◌++◌, contains,
  if◌then◌else◌, unwrap_or,
}
use openai_agents_rust.Json.{Value, string}
use openai_agents_rust.Items.{
  InputItem, OutputItem, RunItem, input_items_eq, prepare_model_input_items,
  build_message_output_items, extract_final_output_text,
}
use openai_agents_rust.RunState.{Usage, RunInterruption}
use openai_agents_rust.RunState.Merging.{merge_usage}
use openai_agents_rust.ToolIdentity.{ToolCall, concat}
use openai_agents_rust.Errors.{Result, ok, err, message, OutputGuardrailResult, ToolGuardrailResult}
use openai_agents_rust.Guardrails.{OutputGuardrail, run_output_guardrails}
use openai_agents_rust.Tools.{
  SerdeJson, FunctionTool, qualified_name, Log, evaluate, ToolsToFinalOutputResult,
  extract_tool_calls, agent_start, agent_end, list_tools, handoff, filter_model_input, call_model,
}
use openai_agents_rust.Tools.Exec.{Exec, ◌>>=◌, ◌>>◌, pure, lift, call_user, emit}
use openai_agents_rust.Tools.Execute.{ToolEnv, ToolExecutionOutcome, execute_local_function_tools}
use openai_agents_rust.Runner.{
  Handoff, Agents, ModelInputData, ModelResponse, RunConfig, AgentRunner,
}
use openai_agents_rust.Runner.Handoffs.{resolve_handoff, apply_handoff_transition}

-- internal/error_handlers.rs
unfoldable pub format_final_output_text : SerdeJson → Value → String
format_final_output_text serde (string t) = t
format_final_output_text serde v = serde.to_string_pretty v

unfoldable pub create_message_output_item : Value → OutputItem
create_message_output_item (string t) = OutputItem.text t
create_message_output_item v = OutputItem.json v

-- The last loop of `Agent::get_all_function_tools`, over the tools and whether each is enabled.
unfoldable pub visible_tools :
    String → List (FunctionTool × Bool) → List String → Result (List FunctionTool)
visible_tools agent [] seen = ok []
visible_tools agent ((tool, false) ∷ tools) seen = visible_tools agent tools seen
visible_tools agent ((tool, true) ∷ tools) seen = elim (contains (qualified_name tool) seen) [
  | true ↦ err (
      message (
        concat
          (concat
            (concat (concat "duplicate runtime tool name `" (qualified_name tool)) "` for agent `")
            agent)
          "`"))
  | false ↦ elim (visible_tools agent tools (qualified_name tool ∷ seen)) [
    | ok rest ↦ ok (tool ∷ rest)
    | err e ↦ err e
  ]
]

pub record Locals (A : Agents) : Type 0 where
  pub current_agent : A.Agent
  pub current_input_history : List InputItem
  pub normalized_generated_items : List RunItem
  pub session_generated_items : List RunItem
  pub raw_responses : List ModelResponse
  pub usage : Usage
  pub output_guardrail_results : List OutputGuardrailResult
  pub tool_input_guardrail_results : List ToolGuardrailResult
  pub tool_output_guardrail_results : List ToolGuardrailResult
  pub interruptions : List RunInterruption
  pub final_output : Option String
  pub final_output_items : List OutputItem
  pub normalized_input_override : Option (List InputItem)

-- A turn goes on to the next one, by `continue` or at its end, or leaves the loop by `break`.
pub data TurnEnd (A : Agents) : Type 0 where
  next_turn break_loop : Locals A → TurnEnd A

module _ {A : Agents} where
  unfoldable pub extend_items : List RunItem → Locals A → Locals A
  extend_items items l = record l {
    normalized_generated_items = l.normalized_generated_items ++ items;
    session_generated_items = l.session_generated_items ++ items;
  }

  unfoldable pub extend_tool_results : ToolExecutionOutcome → Locals A → Locals A
  unfolding extend_items
  extend_tool_results outcome l = record (extend_items outcome.new_items l) {
    tool_input_guardrail_results =
        l.tool_input_guardrail_results ++ outcome.input_guardrail_results;
    tool_output_guardrail_results =
        l.tool_output_guardrail_results ++ outcome.output_guardrail_results;
  }

  unfoldable pub merged_output_guardrails : A.Agent → RunConfig A → List OutputGuardrail
  merged_output_guardrails agent config =
      unwrap_or config.output_guardrails [] ++ A.output_guardrails agent

module _ (A : Agents) where
  -- `Agent::get_all_function_tools`
  unfoldable pub get_all_function_tools : A.Agent → Exec (List FunctionTool)
  unfolding visible_tools
  get_all_function_tools agent = do
    candidates ← call_user (list_tools (A.name agent)) (λ log. A.candidate_tools log agent)
    lift (visible_tools (A.name agent) candidates [])

module _ {A : Agents} (R : AgentRunner A) where
  unfoldable pub filter_input :
      Option (Log → A.Agent → ModelInputData → Result ModelInputData)
      → A.Agent
      → ModelInputData
      → Exec ModelInputData
  filter_input none agent model_data = pure model_data
  filter_input (some filter) agent model_data =
      call_user (filter_model_input model_data.input) (λ log. filter log agent model_data)

  -- `maybe_filter_model_input`
  unfoldable pub maybe_filter_model_input : A.Agent → ModelInputData → Exec ModelInputData
  unfolding filter_input
  maybe_filter_model_input agent model_data =
      filter_input R.config.call_model_input_filter agent model_data

  -- The branch of a response that asks for a handoff.
  unfoldable pub hand_over : Handoff A.Agent → A.Agent → List RunItem → Locals A → Exec (TurnEnd A)
  unfolding apply_handoff_transition
  hand_over h target response_items l = do
    emit (handoff (A.name l.current_agent) (A.name target))
    let step_items = response_items ++ RunItem.handoff_output (A.name l.current_agent) ∷ []
    transition ←
        apply_handoff_transition R.serde R.config h l.current_input_history
          l.normalized_generated_items step_items
    emit (agent_start (A.name target))
    pure (
        next_turn (record l {
          current_agent = target;
          current_input_history = transition.input_history;
          normalized_generated_items =
              transition.pre_handoff_items ++ transition.normalized_step_items;
          session_generated_items = transition.pre_handoff_items ++ transition.session_step_items;
        }))

  -- The branch of a response without tool calls.
  unfoldable pub finish : List OutputItem → Locals A → Exec (TurnEnd A)
  unfolding merged_output_guardrails run_output_guardrails extract_final_output_text
  finish output l = do
    results ← lift (
        run_output_guardrails R.join_output (merged_output_guardrails l.current_agent R.config)
          output)
    emit (agent_end (A.name l.current_agent))
    pure (
        break_loop (record l {
          output_guardrail_results = results;
          final_output = extract_final_output_text output;
          final_output_items = output;
        }))

  unfoldable pub tool_env : List FunctionTool → ToolEnv
  tool_env tools = record {
    serde = R.serde;
    new_v4 = R.new_v4;
    tool_error_formatter = R.config.tool_error_formatter;
    runtime_tools = tools;
    approved_execution = none;
  }

  -- What the decision of the agent's tool-use behavior comes to.
  unfoldable pub settle_final :
      ToolsToFinalOutputResult → ToolExecutionOutcome → Locals A → Exec (TurnEnd A)
  unfolding extend_tool_results format_final_output_text create_message_output_item
  settle_final decision outcome l = elim decision.is_final_output [
    | false ↦ pure (next_turn (extend_tool_results outcome l))
    | true ↦ elim decision.final_output [
      | none ↦ pure (next_turn (extend_tool_results outcome l))
      | some value ↦ do
        emit (agent_end (A.name l.current_agent))
        pure (
            break_loop (record (extend_tool_results outcome l) {
              final_output = some (format_final_output_text R.serde value);
              final_output_items = create_message_output_item value ∷ [];
            }))
    ]
  ]

  -- What follows the run of the tools.
  unfoldable pub settle_tools :
      List RunInterruption → ToolExecutionOutcome → Locals A → Exec (TurnEnd A)
  unfolding settle_final extend_tool_results evaluate
  settle_tools [] outcome l = do
    decision ← lift (evaluate (A.tool_use_behavior l.current_agent) outcome.tool_results)
    settle_final decision outcome l
  settle_tools (i ∷ is) outcome l =
      pure (break_loop (record (extend_tool_results outcome l) { interruptions = i ∷ is }))

  -- The branch of a response with tool calls.
  unfoldable pub run_tools : List ToolCall → Locals A → Exec (TurnEnd A)
  unfolding get_all_function_tools tool_env settle_tools execute_local_function_tools
  run_tools calls l = do
    tools ← get_all_function_tools A l.current_agent
    outcome ← execute_local_function_tools (tool_env tools) calls
    settle_tools outcome.interruptions outcome l

  unfoldable pub respond : List ToolCall → List OutputItem → Locals A → Exec (TurnEnd A)
  unfolding finish run_tools
  respond [] output l = finish output l
  respond (call ∷ calls) output l = run_tools (call ∷ calls) l

  -- What follows the response.
  unfoldable pub take_response :
      Option (Handoff A.Agent × A.Agent) → List OutputItem → Locals A → Exec (TurnEnd A)
  unfolding hand_over respond extend_items build_message_output_items extract_tool_calls
  take_response (some (h, target)) output l =
      hand_over h target (build_message_output_items output) l
  take_response none output l =
      respond (extract_tool_calls R.serde output) output
        (extend_items (build_message_output_items output) l)

  -- The bookkeeping of a response.
  unfoldable pub record_response :
      ModelResponse → ModelInputData → List InputItem → Locals A → Locals A
  unfolding merge_usage input_items_eq
  record_response response model_data prepared_input l = record l {
    normalized_input_override =
        if input_items_eq model_data.input prepared_input
        then l.normalized_input_override
        else some model_data.input;
    usage = merge_usage l.usage response.usage;
    raw_responses = l.raw_responses ++ response ∷ [];
  }

  unfoldable pub turn : Locals A → Exec (TurnEnd A)
  unfolding prepare_model_input_items maybe_filter_model_input record_response resolve_handoff
      take_response
  turn l = do
    let prepared_input =
        prepare_model_input_items l.current_input_history l.normalized_generated_items
          R.config.reasoning_item_id_policy
    model_data ←
        maybe_filter_model_input l.current_agent
          (record { input = prepared_input; instructions = A.instructions l.current_agent })
    response ←
        call_user (call_model model_data.input) (λ log. R.call_model log l.current_agent model_data)
    handed ← lift (resolve_handoff A l.current_agent response.output)
    take_response handed response.output (record_response response model_data prepared_input l)

  -- `for _turn in 0..max_turns`
  unfoldable pub run_turns : ℕ → Locals A → Exec (Locals A)
  unfolding turn
  run_turns zero l = pure l
  run_turns (suc n) l = do
    end ← turn l
    elim end [ next_turn l' ↦ run_turns n l' | break_loop l' ↦ pure l' ]
