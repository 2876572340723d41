-- ===== src/Runner/Resume.antt =====
-- `resume` and `resume_pending_tool_approval` of crates/agents-core/src/run.rs, for a state without a
-- sandbox. The run that they start has a new context (`fresh`), and no session.
use openai_agents_rust.Prelude.{
  ℕ, zero, suc, String, Bool, true, false, ◌&&◌, none, some, List, [], ◌∷◌, ◌++◌, str_option_eq,
  unwrap_or, if◌then◌else◌, ◌>>=◌ as then_option,
}
use openai_agents_rust.Items.{run_items_eq}
use openai_agents_rust.RunState.{
  ApprovalRecord, RunInterruption, RunState, RunStateContextSnapshot, remaining_turns, approval,
  clear_interruption, extend_generated_items, extend_session_items, resume_input, remove,
  is_tool_approval,
}
use openai_agents_rust.RunState.Merging.{merge_run_states}
use openai_agents_rust.ToolIdentity.{ToolCall, concat}
use openai_agents_rust.Errors.{Result, ok, err, ok_or, max_turns_exceeded, model_behavior, user}
use openai_agents_rust.Tools.{FunctionTool, find_pending_tool_call, is_some_and_eq}
use openai_agents_rust.Tools.Exec.{Exec, ◌>>=◌, ◌>>◌, pure, lift, raise}
use openai_agents_rust.Tools.Execute.{ToolEnv, ToolExecutionOutcome, execute_local_function_tools}
use openai_agents_rust.Runner.{Agents, AgentRunner}
use openai_agents_rust.Runner.Turn.{get_all_function_tools, tool_env}
use openai_agents_rust.Runner.Run.{RunResult, carried, run_items_internal}

unfoldable pub quoted : String → String → String → String
quoted before name after = concat (concat before name) after

-- The approval is bound to the pending call, by its id, its tool's name and its namespace.
unfoldable pub check_bound : ApprovalRecord → String → ToolCall → Result (Unit {0})
unfolding quoted
check_bound record' call_id call =
    if is_some_and_eq record'.call_id call_id
      && (is_some_and_eq record'.tool_name call.name
          && str_option_eq record'.namespace call.namespace)
    then ok tt
    else err (
        user (
          quoted (quoted "approval decision for `" call_id "` is not bound to tool `") call.name
            "`"))

unfoldable pub check_no_interruption : List RunInterruption → Result (Unit {0})
check_no_interruption [] = ok tt
check_no_interruption (i ∷ is) =
    err (user "resumed approval unexpectedly produced another interruption")

abbrev pub StateOf : Agents → Type 0 → Type 0 → Type 0 → Type 0
StateOf A T S C = RunState (carried A T S C)

abbrev pub ResultOf : Agents → Type 0 → Type 0 → Type 0 → Type 0
ResultOf A T S C = RunResult A (carried A T S C)

module _ (A : Agents) {T S C : Type 0} where
  -- The state behind the pending call.
  unfoldable pub continued_state : String → ToolExecutionOutcome → StateOf A T S C → StateOf A T S C
  unfolding clear_interruption extend_generated_items extend_session_items
  continued_state approval_id outcome state =
      let cleared =
        extend_session_items outcome.new_items
          (extend_generated_items outcome.new_items (clear_interruption state)) in
      record cleared {
        context_snapshot = record state.context_snapshot {
          approvals = remove approval_id state.context_snapshot.approvals;
        };
        tool_input_guardrail_results =
            state.tool_input_guardrail_results ++ outcome.input_guardrail_results;
        tool_output_guardrail_results =
            state.tool_output_guardrail_results ++ outcome.output_guardrail_results;
      }

  -- The result of the resumed run, with what the state already held put before it.
  unfoldable pub merged_result : StateOf A T S C → ResultOf A T S C → ResultOf A T S C
  unfolding merge_run_states run_items_eq
  merged_result state r =
      let new_items = state.session_items ++ r.new_items in
      let normalized = state.generated_items ++ unwrap_or r.normalized_new_items r.new_items in
      let run_state = merge_run_states state r.run_state in
      record r {
        input = state.original_input;
        normalized_input = run_state.normalized_input;
        new_items = new_items;
        normalized_new_items = if run_items_eq normalized new_items then none else some normalized;
        raw_responses = state.model_responses ++ r.raw_responses;
        input_guardrail_results = state.input_guardrail_results ++ r.input_guardrail_results;
        output_guardrail_results = state.output_guardrail_results ++ r.output_guardrail_results;
        tool_input_guardrail_results =
            state.tool_input_guardrail_results ++ r.tool_input_guardrail_results;
        tool_output_guardrail_results =
            state.tool_output_guardrail_results ++ r.tool_output_guardrail_results;
        run_state = run_state;
      }

module _ {A : Agents} (R : AgentRunner A) {T S C : Type 0}
    (fresh : RunStateContextSnapshot (carried A T S C))
    (restore_context : C → Result (Unit {0})) where
  -- The runner with the turns that the state has left.
  unfoldable pub resumed_runner : StateOf A T S C → AgentRunner A
  resumed_runner state = record R { config = record R.config { max_turns = remaining_turns state } }

  unfoldable pub continue_run : A.Agent → StateOf A T S C → Exec (ResultOf A T S C)
  unfolding resumed_runner run_items_internal merged_result resume_input
  continue_run agent state = do
    let input = resume_input state
    result ← run_items_internal (resumed_runner state) fresh agent input input
    pure (merged_result A state result)

  unfoldable pub resumed_tool_env : List FunctionTool → RunInterruption → ApprovalRecord → ToolEnv
  unfolding tool_env
  resumed_tool_env tools interruption decided = record (tool_env R tools) {
    approved_execution = some (interruption, decided);
  }

  -- The part that runs the pending call and goes on.
  unfoldable pub run_pending :
      A.Agent
      → StateOf A T S C
      → RunInterruption
      → String
      → ApprovalRecord
      → ToolCall
      → Exec (ResultOf A T S C)
  unfolding get_all_function_tools execute_local_function_tools resumed_tool_env
      check_no_interruption continued_state continue_run
  run_pending agent state interruption approval_id decided call = do
    lift (restore_context state.context_snapshot.context)
    tools ← get_all_function_tools A agent
    outcome ← execute_local_function_tools (resumed_tool_env tools interruption decided) (call ∷ [])
    lift (check_no_interruption outcome.interruptions)
    continue_run agent (continued_state A approval_id outcome state)

  unfoldable pub resume_pending_tool_approval : A.Agent → StateOf A T S C → Exec (ResultOf A T S C)
  unfolding quoted find_pending_tool_call approval check_bound run_pending
  resume_pending_tool_approval agent state = do
    interruption ← lift (
        ok_or state.current_step
          (user "cannot resume a pending approval without an interruption record"))
    approval_id ← lift (
        ok_or interruption.approval_id
          (user "cannot resume a pending approval without an approval id"))
    call_id ← lift (
        ok_or interruption.call_id (user "cannot resume a pending approval without a tool call id"))
    call ← lift (
        ok_or (find_pending_tool_call R.serde call_id state.generated_items)
          (model_behavior (quoted "cannot find pending tool call `" call_id "` in run state")))
    decided ← lift (
        ok_or (approval approval_id state)
          (user (quoted "approval decision for `" call_id "` is missing")))
    lift (check_bound decided call_id call)
    run_pending agent state interruption approval_id decided call

  unfoldable pub resume_with : Bool → A.Agent → StateOf A T S C → Exec (ResultOf A T S C)
  unfolding resume_pending_tool_approval continue_run
  resume_with true agent state = resume_pending_tool_approval agent state
  resume_with false agent state = continue_run agent state

  -- `resume`, by the turns that are left.
  unfoldable pub resume_turns : ℕ → StateOf A T S C → Exec (ResultOf A T S C)
  unfolding resume_with
  resume_turns zero state =
      raise (max_turns_exceeded "cannot resume a run state that has exhausted max_turns")
  resume_turns (suc n) state = do
    agent ←
        lift (ok_or state.current_agent (user "cannot resume a run state without a current agent"))
    resume_with (is_tool_approval (then_option state.current_step λ step. step.kind)) agent state

  unfoldable pub resume : StateOf A T S C → Exec (ResultOf A T S C)
  unfolding remaining_turns resume_turns
  resume state = resume_turns (remaining_turns state) state
