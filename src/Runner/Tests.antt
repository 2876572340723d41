-- ===== src/Runner/Tests.antt =====
-- Runs of `run_items_internal` of crates/agents-core/src/run.rs, and instances of its laws.
use openai_agents_rust.Prelude.{
  String, ◌≡◌, ◌≤◌, ◌+◌, length, refl, Bool, true, false, none, some, List, [], ◌∷◌, All,
}
use openai_agents_rust.ToolIdentity.{is_whitespace}
use openai_agents_rust.Json.{get, as_str, null}
use openai_agents_rust.Items.{InputItem, OutputItem, preserve, omit, extract_text_outputs}
use openai_agents_rust.RunState.{RunStateContextSnapshot}
use openai_agents_rust.Errors.{Result, ok, err, max_turns_exceeded}
use openai_agents_rust.Guardrails.InOrder.{sequential}
use openai_agents_rust.Tools.{
  FunctionTool, run_llm_again, text, call_model, agent_start, agent_end, tool_start,
  tool_approval_required, list_tools,
}
use openai_agents_rust.Tools.Exec.{
  Ensures, Post, ◌>>=◌, pure, lift, raise, ask, attempt, emit, call_user,
}
use openai_agents_rust.Runner.{Agents, ModelResponse, AgentRunner}
use openai_agents_rust.Runner.Run.{RunResult, carried, run_items_internal}
use openai_agents_rust.Runner.Transcript.{
  decimal_from, message_value, default_handoff_history_mapper, flatten_nested_history_messages,
}
use openai_agents_rust.Runner.Turns.{IsComplete}
use openai_agents_rust.Runner.Calls.{model_calls, run-IsComplete}
use openai_agents_rust.Runner.Solo.{run-solo}
use openai_agents_rust.Runner.Approval.{Ungated, run-Ungated}

abbrev pub delete_tool : FunctionTool
delete_tool = record {
  definition = record {
    name = "delete";
    description = "";
    namespace = none;
    strict_json_schema = false;
    input_json_schema = none;
    defer_loading = false;
  };
  tool_input_guardrails = [];
  tool_output_guardrails = [];
  needs_approval = true;
  executor = λ log call v. ok (text "done");
}

-- Agents without handoffs, by their names, with one tool.
abbrev pub agents : Agents
agents = record {
  Agent = String;
  name = λ a. a;
  instructions = λ a. none;
  handoffs = λ a. [];
  input_guardrails = λ a. [];
  output_guardrails = λ a. [];
  tool_use_behavior = λ a. run_llm_again;
  candidate_tools = λ log a. ok ((delete_tool, true) ∷ []);
  check_output = λ a v. ok tt;
}

abbrev pub response : List OutputItem → ModelResponse
response output = record {
  model = none;
  output = output;
  usage = record { input_tokens = 1; output_tokens = 1 };
  response_id = none;
  request_id = none;
}

-- A model that always gives the same output.
abbrev pub runner : List OutputItem → AgentRunner agents
runner output = record {
  config = record {
    max_turns = 10;
    nest_handoff_history = false;
    reasoning_item_id_policy = omit;
    handoff_input_filter = none;
    handoff_history_mapper = none;
    input_guardrails = none;
    output_guardrails = none;
    call_model_input_filter = none;
    tool_error_formatter = none;
    max_turns_handler = none;
  };
  serde = record { to_string = λ v. "{}"; to_string_pretty = λ v. "{}"; from_str = λ s. some null };
  new_v4 = λ log. "id";
  join_input = sequential;
  join_output = sequential;
  call_model = λ log agent input. ok (response output);
}

abbrev pub snapshot : RunStateContextSnapshot (carried agents String String String)
snapshot = record {
  context = "";
  usage = record { input_tokens = 0; output_tokens = 0 };
  turn_input = [];
  approvals = λ k. none;
  tool_input = none;
  agent_tool_state_scope = none;
}

abbrev pub hello : List InputItem
hello = InputItem.text "hello" ∷ []

abbrev delete_call : OutputItem
delete_call = OutputItem.tool_call "1" "delete" null none

abbrev policy_of : Result (RunResult agents (carried agents String String String)) → Bool
policy_of (ok r) = elim r.run_state.reasoning_item_id_policy [ preserve ↦ true | omit ↦ false ]
policy_of (err e) = false

-- A model that answers with nothing, at once and in the first of ten turns, leads to an error that
-- says that the turns are used up.
empty_answer : run_items_internal (runner []) snapshot "a" hello hello [] ≡ (
  err (
      max_turns_exceeded
        "run for agent `a` exceeded max_turns (10) before producing a final output"),
  agent_end "a" ∷ call_model hello ∷ agent_start "a" ∷ [],
)
unfolding run_items_internal ◌>>=◌ pure lift raise ask attempt emit call_user extract_text_outputs
    decimal_from
empty_answer = refl

-- The run state of a run whose configuration omits the ids of reasoning items preserves them.
loses_policy :
    policy_of
      (run_items_internal (runner (OutputItem.text "hi" ∷ [])) snapshot "a" hello hello []).0
    ≡ true
unfolding run_items_internal ◌>>=◌ pure lift raise ask attempt emit call_user
loses_policy = refl

pauses_for_approval :
    (run_items_internal (runner (delete_call ∷ [])) snapshot "a" hello hello []).1
    ≡ tool_approval_required
        (record { id = "1"; name = "delete"; arguments = "{}"; namespace = none })
      ∷ tool_start (record { id = "1"; name = "delete"; arguments = "{}"; namespace = none })
      ∷ list_tools "a"
      ∷ call_model hello
      ∷ agent_start "a"
      ∷ []
unfolding run_items_internal ◌>>=◌ pure lift raise ask attempt emit call_user
pauses_for_approval = refl

abbrev says_hi : AgentRunner agents
says_hi = runner (OutputItem.text "hi" ∷ [])

run-IsComplete_example :
    let x = run_items_internal says_hi snapshot "a" hello hello [] in
    (model_calls x.1 ≤ 10 + 0)
    × Post (λ r. (model_calls x.1 ≡ length r.raw_responses + 0) × IsComplete 10 r) x
run-IsComplete_example = run-IsComplete says_hi snapshot "a" hello hello []

run-solo_example :
    Ensures
      (λ r.
        (r.last_agent ≡ "a")
        × (r.normalized_new_items ≡ none)
        × (r.run_state.generated_items ≡ r.new_items)
        × (r.run_state.session_items ≡ r.new_items))
      (run_items_internal (runner (delete_call ∷ [])) snapshot "a" hello hello)
run-solo_example = run-solo (runner (delete_call ∷ [])) "a" refl snapshot hello hello

run-Ungated_example :
    All
      (Ungated agents)
      (run_items_internal (runner (delete_call ∷ [])) snapshot "a" hello hello []).1
run-Ungated_example = run-Ungated (runner (delete_call ∷ [])) snapshot "a" hello hello [] tt

abbrev said : String → String → InputItem
said role content = InputItem.json (message_value role content)

-- A summary reads back as the messages that it was made of, each a single line.
summary_reads_back :
    flatten_nested_history_messages (
      default_handoff_history_mapper
        (runner []).serde
        (said "user" "hello" ∷ said "assistant" "hi: there" ∷ []))
    ≡ said "user" "hello" ∷ said "assistant" "hi: there" ∷ []
unfolding default_handoff_history_mapper flatten_nested_history_messages get as_str is_whitespace
summary_reads_back = refl

-- Of a message of two lines it reads back the first.
summary_loses_lines :
    flatten_nested_history_messages
      (default_handoff_history_mapper (runner []).serde (said "user" "one\ntwo" ∷ []))
    ≡ said "user" "one" ∷ []
unfolding default_handoff_history_mapper flatten_nested_history_messages get as_str is_whitespace
summary_loses_lines = refl
