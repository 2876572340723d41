-- ===== src/Runner/ResumeTests.antt =====
-- Runs of `resume` of crates/agents-core/src/run.rs, and instances of its laws.
use openai_agents_rust.Prelude.{String, ◌≡◌, refl, Bool, true, false, none, some, [], ◌∷◌, All}
use openai_agents_rust.Json.{null}
use openai_agents_rust.Items.{OutputItem, RunItem}
use openai_agents_rust.RunState.{
  RunInterruption, tool_approval, new, approve_for_tool, reject_for_tool, approval,
  resolve_approval_key,
}
use openai_agents_rust.ToolIdentity.{ToolCall}
use openai_agents_rust.Errors.{Result, ok, err, user}
use openai_agents_rust.Tools.{Log, invoke, approval_matches_tool_call, find_pending_tool_call}
use openai_agents_rust.Tools.Exec.{Ensures, ◌>>=◌, pure, lift, raise, ask, attempt, emit, call_user}
use openai_agents_rust.Runner.Run.{RunResult, carried}
use openai_agents_rust.Runner.Resume.{StateOf, resume}
use openai_agents_rust.Runner.Resumed.{ResumeAllowed, resume-ResumeAllowed}
use openai_agents_rust.Runner.Merged.{GoesOn, resume-GoesOn}
use openai_agents_rust.Runner.Tests.{agents, runner, snapshot, hello}

abbrev pending : RunInterruption
pending = record {
  kind = some tool_approval;
  approval_id = some "id";
  call_id = some "1";
  tool_name = some "delete";
  namespace = none;
  reason = none;
}

-- A run that waits for an approval of its call of `delete`.
abbrev paused : StateOf agents String String String
paused = record (new snapshot hello "a" 10) {
  current_turn = 1;
  generated_items = RunItem.tool_call "delete" null (some "1") none ∷ [];
  session_items = RunItem.tool_call "delete" null (some "1") none ∷ [];
  current_step = some pending;
}

abbrev approved : StateOf agents String String String
approved = approve_for_tool "1" (some "delete") none paused

-- Resume, with a model that answers `hi`.
abbrev resume_hi :
    StateOf agents String String String
    → Log
    → Result (RunResult agents (carried agents String String String)) × Log
resume_hi = resume (runner (OutputItem.text "hi" ∷ [])) snapshot (λ context. ok tt)

abbrev delete_call : ToolCall
delete_call = record { id = "1"; name = "delete"; arguments = "{}"; namespace = none }

abbrev is_invoked : Log → Bool
is_invoked [] = false
is_invoked (invoke c ∷ log) = true
is_invoked (_ ∷ log) = is_invoked log

runs_the_approved_call : is_invoked (resume_hi approved []).1 ≡ true
unfolding new resume approve_for_tool approval resolve_approval_key find_pending_tool_call
    approval_matches_tool_call ◌>>=◌ pure lift raise ask attempt emit call_user
runs_the_approved_call = refl

skips_the_rejected_call :
    is_invoked (resume_hi (reject_for_tool "1" (some "delete") none paused) []).1 ≡ false
unfolding new resume reject_for_tool approval resolve_approval_key find_pending_tool_call
    approval_matches_tool_call ◌>>=◌ pure lift raise ask attempt emit call_user
skips_the_rejected_call = refl

waits_for_a_decision : resume_hi paused [] ≡ (err (user "approval decision for `1` is missing"), [])
unfolding new resume approval resolve_approval_key find_pending_tool_call ◌>>=◌ pure lift raise ask
    attempt emit call_user
waits_for_a_decision = refl

resume-ResumeAllowed_example :
    All (ResumeAllowed (runner (OutputItem.text "hi" ∷ [])) approved) (resume_hi approved []).1
resume-ResumeAllowed_example =
    resume-ResumeAllowed (runner (OutputItem.text "hi" ∷ [])) approved snapshot (λ context. ok tt)
      [] tt

resume-GoesOn_example :
    Ensures
      (GoesOn approved)
      (resume (runner (OutputItem.text "hi" ∷ [])) snapshot (λ context. ok tt) approved)
resume-GoesOn_example =
    resume-GoesOn (runner (OutputItem.text "hi" ∷ [])) snapshot (λ context. ok tt) approved
