-- ===== src/RunState/Merging.antt =====
-- `merge_run_states` of crates/agents-core/src/run.rs, and `merge_usage` of
-- internal/agent_runner_helpers.rs.
use openai_agents_rust.Prelude.{ℕ, ◌+◌, min, ◌||◌, ◌++◌, or_option}
use openai_agents_rust.RunState.{
  Usage, Carried, RunStateContextSnapshot, RunState, add_usize, extend,
}

abbrev pub u32_max : ℕ
u32_max = 4294967295

-- `a.saturating_add(b)` on u32
abbrev pub saturating_add : ℕ → ℕ → ℕ
saturating_add a b = min (a + b) u32_max

unfoldable pub merge_usage : Usage → Usage → Usage
merge_usage previous next = record {
  input_tokens = saturating_add previous.input_tokens next.input_tokens;
  output_tokens = saturating_add previous.output_tokens next.output_tokens;
}

module _ {C : Carried} where
  unfoldable pub merge_snapshots :
      RunStateContextSnapshot C → RunStateContextSnapshot C → RunStateContextSnapshot C
  unfolding merge_usage
  merge_snapshots previous next = record next {
    context = previous.context;
    usage = merge_usage previous.usage next.usage;
    approvals = extend previous.approvals next.approvals;
    tool_input = or_option previous.tool_input next.tool_input;
    agent_tool_state_scope = or_option previous.agent_tool_state_scope next.agent_tool_state_scope;
  }

  unfoldable pub merge_run_states : RunState C → RunState C → RunState C
  unfolding merge_snapshots
  merge_run_states previous next = record next {
    current_turn = add_usize next.current_turn previous.current_turn;
    current_agent = or_option previous.current_agent next.current_agent;
    original_input = previous.original_input;
    normalized_input = or_option previous.normalized_input next.normalized_input;
    model_responses = previous.model_responses ++ next.model_responses;
    generated_items = previous.generated_items ++ next.generated_items;
    session_items = previous.session_items ++ next.session_items;
    conversation_id = or_option previous.conversation_id next.conversation_id;
    previous_response_id = or_option previous.previous_response_id next.previous_response_id;
    auto_previous_response_id =
        previous.auto_previous_response_id || next.auto_previous_response_id;
    reasoning_item_id_policy = previous.reasoning_item_id_policy;
    input_guardrail_results = previous.input_guardrail_results ++ next.input_guardrail_results;
    output_guardrail_results = previous.output_guardrail_results ++ next.output_guardrail_results;
    tool_input_guardrail_results =
        previous.tool_input_guardrail_results ++ next.tool_input_guardrail_results;
    tool_output_guardrail_results =
        previous.tool_output_guardrail_results ++ next.tool_output_guardrail_results;
    persisted_item_count = add_usize next.persisted_item_count previous.persisted_item_count;
    trace = or_option previous.trace next.trace;
    sandbox = or_option next.sandbox previous.sandbox;
    context_snapshot = merge_snapshots previous.context_snapshot next.context_snapshot;
  }
