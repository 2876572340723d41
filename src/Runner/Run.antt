-- ===== src/Runner/Run.antt =====
-- `run_items_internal` of crates/agents-core/src/run.rs, around its loop.
use openai_agents_rust.Prelude.{
  String, Bool, true, false, not, ◌&&◌, Option, none, some, List, [], ◌∷◌, ◌++◌, length,
  if◌then◌else◌, unwrap_or, or_option, is_some,
}
use openai_agents_rust.Json.{Value, null}
use openai_agents_rust.Items.{
  InputItem, OutputItem, RunItem, input_items_eq, run_items_eq, prepare_model_input_items,
}
use openai_agents_rust.RunState.{
  Usage, Carried, RunInterruption, RunState, RunStateContextSnapshot, new,
}
use openai_agents_rust.ToolIdentity.{concat}
use openai_agents_rust.Errors.{
  Result, ok, err, message, max_turns_exceeded, InputGuardrailResult, OutputGuardrailResult,
  ToolGuardrailResult,
}
use openai_agents_rust.Guardrails.{InputGuardrail, run_input_guardrails}
use openai_agents_rust.Tools.{Log, agent_start, max_turns_handler}
use openai_agents_rust.Tools.Exec.{Exec, ◌>>=◌, ◌>>◌, pure, lift, raise, call_user, emit}
use openai_agents_rust.Runner.{
  Agents, ModelResponse, RunConfig, AgentRunner, RunErrorData, RunErrorHandlerResult,
}
use openai_agents_rust.Runner.Transcript.{decimal}
use openai_agents_rust.Runner.Turn.{
  Locals, run_turns, format_final_output_text, create_message_output_item, extend_items,
}

-- What a run state carries.
abbrev pub carried : Agents → Type 0 → Type 0 → Type 0 → Carried
carried A Trace SandboxRunState Context = record {
  Agent = A.Agent;
  ModelResponse = ModelResponse;
  InputGuardrailResult = InputGuardrailResult;
  OutputGuardrailResult = OutputGuardrailResult;
  ToolInputGuardrailResult = ToolGuardrailResult;
  ToolOutputGuardrailResult = ToolGuardrailResult;
  Trace = Trace;
  SandboxRunState = SandboxRunState;
  Context = Context;
}

-- The fields of `RunResult` but for the trace and the conversation's ids.
pub record RunResult (A : Agents) (C : Carried) : Type 0 where
  pub agent_name : String
  pub last_agent : A.Agent
  pub input : List InputItem
  pub normalized_input : Option (List InputItem)
  pub new_items : List RunItem
  pub normalized_new_items : Option (List RunItem)
  pub raw_responses : List ModelResponse
  pub output : List OutputItem
  pub final_output : Option String
  pub input_guardrail_results : List InputGuardrailResult
  pub output_guardrail_results : List OutputGuardrailResult
  pub tool_input_guardrail_results : List ToolGuardrailResult
  pub tool_output_guardrail_results : List ToolGuardrailResult
  pub interruptions : List RunInterruption
  pub usage : Usage
  pub run_state : RunState C

abbrev pub is_nil {ℓ} : {X : Type ℓ} → List X → Bool
is_nil [] = true
is_nil (x ∷ xs) = false

module _ (A : Agents) where
  -- `validate_handler_final_output`
  unfoldable pub validate_handler_final_output : A.Agent → Value → Result (Unit {0})
  validate_handler_final_output agent null =
      err (message "run error handler must return a non-null final_output")
  validate_handler_final_output agent v = A.check_output agent v

module _ {A : Agents} where
  unfoldable pub merged_input_guardrails : A.Agent → RunConfig A → List InputGuardrail
  merged_input_guardrails agent config =
      unwrap_or config.input_guardrails [] ++ A.input_guardrails agent

  abbrev pub first_locals : A.Agent → List InputItem → Locals A
  first_locals agent base_input = record {
    current_agent = agent;
    current_input_history = base_input;
    normalized_generated_items = [];
    session_generated_items = [];
    raw_responses = [];
    usage = record { input_tokens = 0; output_tokens = 0 };
    output_guardrail_results = [];
    tool_input_guardrail_results = [];
    tool_output_guardrail_results = [];
    interruptions = [];
    final_output = none;
    final_output_items = [];
    normalized_input_override = none;
  }

  -- The test behind the loop.
  unfoldable pub produced_nothing : Locals A → Bool
  produced_nothing l =
      is_nil l.final_output_items && (not (is_some l.final_output) && is_nil l.interruptions)

module _ {A : Agents} (R : AgentRunner A) where
  unfoldable pub error_data : List InputItem → Locals A → RunErrorData A.Agent
  unfolding prepare_model_input_items
  error_data original_input l = record {
    input = original_input;
    new_items = l.session_generated_items;
    history =
        prepare_model_input_items l.current_input_history l.normalized_generated_items
          R.config.reasoning_item_id_policy;
    output = l.final_output_items;
    raw_responses = l.raw_responses;
    last_agent = l.current_agent;
  }

  -- What a handler's output does to the locals: `resolve_run_error_handler_result` and its use.
  unfoldable pub use_handler_result : RunErrorHandlerResult → Locals A → Locals A
  unfolding format_final_output_text create_message_output_item extend_items
  use_handler_result result l =
      let item = create_message_output_item result.final_output in
      let items = if result.include_in_history then RunItem.message_output item ∷ [] else [] in
      record (extend_items items l) {
        final_output = some (format_final_output_text R.serde result.final_output);
        final_output_items = item ∷ [];
      }

  abbrev pub max_turns_error : A.Agent → String
  max_turns_error agent =
      concat
        (concat
          (concat (concat (concat "run for agent `" (A.name agent)) "` exceeded max_turns (")
            (decimal R.config.max_turns))
          ")")
        " before producing a final output"

  unfoldable pub accept_handler_result :
      A.Agent → Option RunErrorHandlerResult → Locals A → Exec (Locals A)
  unfolding validate_handler_final_output use_handler_result
  accept_handler_result agent none l = raise (max_turns_exceeded (max_turns_error agent))
  accept_handler_result agent (some result) l = do
    lift (validate_handler_final_output A l.current_agent result.final_output)
    pure (use_handler_result result l)

  unfoldable pub handle_max_turns :
      Option (Log → RunErrorData A.Agent → Option RunErrorHandlerResult)
      → A.Agent
      → List InputItem
      → Locals A
      → Exec (Locals A)
  unfolding error_data accept_handler_result
  handle_max_turns none agent original_input l = raise (max_turns_exceeded (max_turns_error agent))
  handle_max_turns (some handler) agent original_input l = do
    result ← call_user max_turns_handler (λ log. ok (handler log (error_data original_input l)))
    accept_handler_result agent result l

  -- The part between the loop and the saving of the session.
  unfoldable pub conclude_run : A.Agent → List InputItem → Locals A → Exec (Locals A)
  unfolding produced_nothing handle_max_turns
  conclude_run agent original_input l = elim (produced_nothing l) [
    | true ↦ handle_max_turns R.config.max_turns_handler agent original_input l
    | false ↦ pure l
  ]

abbrev pub first {ℓ} : {X : Type ℓ} → List X → Option X
first [] = none
first (x ∷ xs) = some x

module _ {A : Agents} (R : AgentRunner A) {Trace SandboxRunState Context : Type 0}
    (snapshot : RunStateContextSnapshot (carried A Trace SandboxRunState Context)) where
  -- The context, whose usage each response sets.
  unfoldable pub context_after :
      List InputItem → Locals A → RunStateContextSnapshot (carried A Trace SandboxRunState Context)
  context_after original_input l = record snapshot {
    usage = if is_nil l.raw_responses then snapshot.usage else l.usage;
    turn_input = original_input;
  }

  -- The part behind the saving of the session, which is not there.
  unfoldable pub run_result :
      A.Agent
      → List InputItem
      → List InputGuardrailResult
      → Locals A
      → RunResult A (carried A Trace SandboxRunState Context)
  unfolding new input_items_eq run_items_eq context_after
  run_result agent original_input input_guardrail_results l =
      let normalized_input = or_option l.normalized_input_override (
        if input_items_eq l.current_input_history original_input
        then none
        else some l.current_input_history) in
      record {
        agent_name = A.name agent;
        last_agent = l.current_agent;
        input = original_input;
        normalized_input = normalized_input;
        new_items = l.session_generated_items;
        normalized_new_items =
            if run_items_eq l.normalized_generated_items l.session_generated_items
            then none
            else some l.normalized_generated_items;
        raw_responses = l.raw_responses;
        output = l.final_output_items;
        final_output = l.final_output;
        input_guardrail_results = input_guardrail_results;
        output_guardrail_results = l.output_guardrail_results;
        tool_input_guardrail_results = l.tool_input_guardrail_results;
        tool_output_guardrail_results = l.tool_output_guardrail_results;
        interruptions = l.interruptions;
        usage = l.usage;
        run_state =
            record (new (context_after original_input l) original_input agent R.config.max_turns) {
              current_turn = length l.raw_responses;
              current_agent = some l.current_agent;
              normalized_input = normalized_input;
              generated_items = l.normalized_generated_items;
              session_items = l.session_generated_items;
              input_guardrail_results = input_guardrail_results;
              output_guardrail_results = l.output_guardrail_results;
              tool_input_guardrail_results = l.tool_input_guardrail_results;
              tool_output_guardrail_results = l.tool_output_guardrail_results;
              model_responses = l.raw_responses;
              current_step = first l.interruptions;
            };
      }

  unfoldable pub run_items_internal :
      A.Agent
      → List InputItem
      → List InputItem
      → Exec (RunResult A (carried A Trace SandboxRunState Context))
  unfolding run_input_guardrails merged_input_guardrails run_turns conclude_run run_result
  run_items_internal agent original_input base_input = do
    emit (agent_start (A.name agent))
    input_results ←
        lift (
          run_input_guardrails R.join_input (merged_input_guardrails agent R.config) original_input)
    l ← run_turns R R.config.max_turns (first_locals agent base_input)
    l' ← conclude_run R agent original_input l
    pure (run_result agent original_input input_results l')
