-- ===== src/Runner/Merged.antt =====
-- What a resumed run returns, for `resume` of crates/agents-core/src/run.rs.
use openai_agents_rust.Prelude.{
  ℕ, zero, suc, ◌≤◌, ◌≡◌, refl, ap, ◌∙◌, Bool, true, false, List, ◌++◌, length, arith, append_assoc,
  String,
}
use openai_agents_rust.Items.{RunItem}
use openai_agents_rust.RunState.{
  ApprovalRecord, RunInterruption, RunStateContextSnapshot, remaining_turns, clear_interruption,
  extend_generated_items, extend_session_items,
}
use openai_agents_rust.RunState.Merging.{merge_run_states}
use openai_agents_rust.ToolIdentity.{ToolCall}
use openai_agents_rust.Errors.{Result}
use openai_agents_rust.Tools.Exec.{
  Ensures, Ensures-pure, Ensures-bind, Ensures-after, Ensures-raise, Ensures-weaken,
}
use openai_agents_rust.Tools.Execute.{ToolExecutionOutcome}
use openai_agents_rust.Runner.{Agents, ModelResponse, AgentRunner}
use openai_agents_rust.Runner.Run.{carried}
use openai_agents_rust.Runner.Turns.{IsComplete, run_items_internal-IsComplete}
use openai_agents_rust.Runner.Resume.{
  StateOf, ResultOf, continued_state, merged_result, resumed_runner, continue_run, run_pending,
  resume_pending_tool_approval, resume_with, resume_turns, resume,
}

-- A result goes on from `state`: its lists are those of its run state, the responses are those of the
-- state and at most as many new ones as the state has turns left, and the items are those of the
-- state and new ones.
pub record GoesOn {A : Agents} {T S C : Type 0} (state : StateOf A T S C) (r : ResultOf A T S C)
    : Type 0 where
  pub items : r.run_state.session_items ≡ r.new_items
  pub responses : r.run_state.model_responses ≡ r.raw_responses
  pub input : r.input ≡ state.original_input
  pub more_items : List RunItem
  pub items_split : r.new_items ≡ state.session_items ++ more_items
  pub more_responses : List ModelResponse
  pub responses_split : r.raw_responses ≡ state.model_responses ++ more_responses
  pub bounded : length more_responses ≤ remaining_turns state

module _ {A : Agents} (R : AgentRunner A) {T S C : Type 0}
    (fresh : RunStateContextSnapshot (carried A T S C))
    (restore_context : C → Result (Unit {0})) where
  merged-GoesOn :
      (state : StateOf A T S C) (r : ResultOf A T S C)
      → IsComplete (remaining_turns state) r
      → GoesOn state (merged_result A state r)
  unfolding merged_result merge_run_states
  merged-GoesOn state r h = record {
    items = ap (λ xs. state.session_items ++ xs) h.items;
    responses = ap (λ xs. state.model_responses ++ xs) h.responses;
    input = refl;
    more_items = r.new_items;
    items_split = refl;
    more_responses = r.raw_responses;
    responses_split = refl;
    bounded = omega (arith, h.turns);
  }

  continue_run-GoesOn :
      (agent : A.Agent) (state : StateOf A T S C)
      → Ensures (GoesOn state) (continue_run R fresh restore_context agent state)
  unfolding continue_run resumed_runner
  continue_run-GoesOn agent state =
      Ensures-bind (IsComplete (remaining_turns state)) _ _
        (run_items_internal-IsComplete (resumed_runner R fresh restore_context state) fresh agent _
          _)
        λ r h. Ensures-pure _ (merged-GoesOn state r h)

  -- What goes on from the state behind the pending call goes on from the state before it.
  behind_pending :
      (approval_id : String) (outcome : ToolExecutionOutcome) (state : StateOf A T S C)
      (r : ResultOf A T S C)
      → GoesOn (continued_state A approval_id outcome state) r
      → GoesOn state r
  unfolding continued_state clear_interruption extend_generated_items extend_session_items
      remaining_turns
  behind_pending approval_id outcome state r h = record {
    items = h.items;
    responses = h.responses;
    input = h.input;
    more_items = outcome.new_items ++ h.more_items;
    items_split = h.items_split ∙ append_assoc state.session_items outcome.new_items h.more_items;
    more_responses = h.more_responses;
    responses_split = h.responses_split;
    bounded = h.bounded;
  }

  run_pending-GoesOn :
      (agent : A.Agent) (state : StateOf A T S C) (interruption : RunInterruption)
      (approval_id : String) (decided : ApprovalRecord) (call : ToolCall)
      → Ensures
          (GoesOn state)
          (run_pending R fresh restore_context agent state interruption approval_id decided call)
  unfolding run_pending
  run_pending-GoesOn agent state interruption approval_id decided call = Ensures-after _ _ λ u.
      Ensures-after _ _ λ tools. Ensures-after _ _ λ outcome. Ensures-after _ _ λ v.
        Ensures-weaken _ _ (behind_pending approval_id outcome state)
          (continue_run-GoesOn agent (continued_state A approval_id outcome state))

  resume_with-GoesOn :
      (b : Bool) (agent : A.Agent) (state : StateOf A T S C)
      → Ensures (GoesOn state) (resume_with R fresh restore_context b agent state)
  unfolding resume_with resume_pending_tool_approval
  resume_with-GoesOn false agent state = continue_run-GoesOn agent state
  resume_with-GoesOn true agent state = Ensures-after _ _ λ interruption.
      Ensures-after _ _ λ approval_id. Ensures-after _ _ λ call_id. Ensures-after _ _ λ call.
        Ensures-after _ _ λ decided.
          Ensures-after _ _
            λ u. run_pending-GoesOn agent state interruption approval_id decided call

  resume_turns-GoesOn :
      (n : ℕ) (state : StateOf A T S C)
      → Ensures (GoesOn state) (resume_turns R fresh restore_context n state)
  unfolding resume_turns
  resume_turns-GoesOn zero state = Ensures-raise _
  resume_turns-GoesOn (suc n) state = Ensures-after _ _ λ agent. resume_with-GoesOn _ agent state

  -- A resumed run that returns goes on from its state: the result's items and responses are those of
  -- its run state, they begin with those of the resumed state, and there are at most as many new
  -- responses as this state has turns left.
  pub resume-GoesOn :
      (state : StateOf A T S C) → Ensures (GoesOn state) (resume R fresh restore_context state)
  unfolding resume
  resume-GoesOn state = resume_turns-GoesOn (remaining_turns state) state
