-- ===== src/RunState/Tests.antt =====
-- Runs of the code of crates/agents-core/src/run_state.rs, and instances of its laws.
use openai_agents_rust.Prelude.{
  ◌⊎◌, ℕ, ◌<◌, ◌+◌, ◌-◌, String, ◌≡◌, refl, true, false, none, some, [], arith,
}
use openai_agents_rust.RunState.{
  Carried, ApprovalRecord, RunState, RunStateContextSnapshot, RunInterruption, tool_approval, new,
  remaining_turns, can_continue, clear_interruption, approval, decision, decide_for_tool, approve,
  resolve_approval_key,
}
use openai_agents_rust.RunState.Pending.{SameApproval}
use openai_agents_rust.RunState.Approvals.{Records, approval-decide, decide-call_id}
use openai_agents_rust.RunState.Merging.{merge_run_states}
use openai_agents_rust.RunState.Merge.{remaining-merge}

abbrev plain : Carried
plain = record {
  Agent = String;
  ModelResponse = String;
  InputGuardrailResult = String;
  OutputGuardrailResult = String;
  ToolInputGuardrailResult = String;
  ToolOutputGuardrailResult = String;
  Trace = String;
  SandboxRunState = String;
  Context = String;
}

abbrev snapshot : RunStateContextSnapshot plain
snapshot = record {
  context = "";
  usage = record { input_tokens = 1; output_tokens = 2 };
  turn_input = [];
  approvals = λ k. none;
  tool_input = none;
  agent_tool_state_scope = none;
}

abbrev pending_step : RunInterruption
pending_step = record {
  kind = some tool_approval;
  approval_id = some "approval-1";
  call_id = some "call-1";
  tool_name = some "search";
  namespace = none;
  reason = none;
}

-- A state after `turns` of ten turns.
abbrev started : ℕ → RunState plain
started turns = record (new snapshot [] "assistant" 10) { current_turn = turns }

abbrev paused : RunState plain
paused = record (started 3) { current_step = some pending_step }

-- The state of a run that resumed `started 3` and took two of its seven turns.
abbrev resumed : RunState plain
resumed = record (started 2) { max_turns = 7 }

pauses_and_goes_on :
    (can_continue (started 3) ≡ true)
    × (can_continue paused ≡ false)
    × (can_continue (clear_interruption paused) ≡ true)
    × (can_continue (started 10) ≡ false)
unfolding new can_continue clear_interruption
pauses_and_goes_on = (refl, refl, refl, refl)

approved_by_call_id :
    approval "approval-1" (approve "call-1" (some "fine") paused)
    ≡ some (decision true "approval-1" (some pending_step) none (some "fine"))
unfolding new approval approve resolve_approval_key
approved_by_call_id = refl

approval-decide_example :
    (SameApproval (some pending_step) "call-1" "approval-1"
      × ((r : ApprovalRecord) × (approval "approval-1"
              (decide_for_tool true "call-1" (some "search") none paused)
            ≡ some r)
          × Records (some pending_step) true "call-1" (some "search") none r))
    ⊎ ((¬ SameApproval (some pending_step) "call-1" "approval-1")
        × (approval "approval-1" (decide_for_tool true "call-1" (some "search") none paused)
            ≡ approval "approval-1" paused))
approval-decide_example = approval-decide paused true "call-1" "approval-1" (some "search") none

-- A decision under the call's id is found under the approval's, and not under another id.
found_under_approval :
    (approval "approval-1" (decide_for_tool true "call-1" (some "search") none paused)
      ≡ some (decision true "approval-1" (some pending_step) (some "search") none))
    × (approval "call-2" (decide_for_tool true "call-1" (some "search") none paused) ≡ none)
unfolding new approval decide_for_tool resolve_approval_key
found_under_approval = (refl, refl)

decide-call_id_example :
    decide_for_tool true "call-1" (some "search") none paused
    ≡ decide_for_tool true "approval-1" (some "search") none paused
unfolding new
decide-call_id_example =
    decide-call_id paused pending_step "approval-1" "call-1" true (some "search") none refl refl
      refl refl

turns_count_twice : remaining_turns (merge_run_states paused resumed) ≡ 2
unfolding new remaining_turns merge_run_states
turns_count_twice = refl

remaining-merge_example : remaining_turns (merge_run_states paused resumed) < 10 - (3 + 2)
unfolding new remaining_turns
remaining-merge_example =
    remaining-merge paused resumed (omega arith) refl (omega arith) (omega arith) (omega arith)
