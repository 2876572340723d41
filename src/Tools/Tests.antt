-- ===== src/Tools/Tests.antt =====
-- Runs of crates/agents-core/src/internal/tool_execution.rs, and instances of its laws.
use openai_agents_rust.Prelude.{
  String, ◌≡◌, refl, Bool, true, false, Option, none, some, List, [], ◌∷◌, All,
}
use openai_agents_rust.Json.{string, as_str}
use openai_agents_rust.ToolIdentity.{ToolCall}
use openai_agents_rust.RunState.{ApprovalRecord, RunInterruption, tool_approval}
use openai_agents_rust.Errors.{ok, reject_content}
use openai_agents_rust.Tools.{
  SerdeJson, text, FunctionTool, tool_start, tool_approval_required, tool_end, invoke,
  input_guardrail, ToolInputGuardrail, approval_matches_tool_call,
}
use openai_agents_rust.Tools.Exec.{◌>>=◌, pure, lift, ask, attempt, emit, call_user, Ensures}
use openai_agents_rust.Tools.Execute.{ToolEnv, empty_outcome, execute_local_function_tools}
use openai_agents_rust.Tools.Answers.{Outcome, execute-Outcome}
use openai_agents_rust.Tools.Gating.{Allowed, execute-Allowed}

-- An encoding that keeps texts only.
abbrev texts : SerdeJson
texts = record {
  to_string = λ v. unwrap (as_str v);
  to_string_pretty = λ v. unwrap (as_str v);
  from_str = λ s. some (string s);
}
  where
    unwrap : Option String → String
    unwrap none = ""
    unwrap (some s) = s

abbrev tool_named : String → Bool → List ToolInputGuardrail → FunctionTool
tool_named name needs_approval guardrails = record {
  definition = record {
    name = name;
    description = "";
    namespace = none;
    strict_json_schema = false;
    input_json_schema = none;
    defer_loading = false;
  };
  tool_input_guardrails = guardrails;
  tool_output_guardrails = [];
  needs_approval = needs_approval;
  executor = λ log call v. ok (text "done");
}

abbrev refuse : ToolInputGuardrail
refuse log call = ok (record {
  guardrail_name = "refuse";
  output = record { output_info = none; behavior = reject_content "no" };
})

abbrev env : Option (RunInterruption × ApprovalRecord) → ToolEnv
env approved = record {
  serde = texts;
  new_v4 = λ log. "id";
  tool_error_formatter = none;
  runtime_tools =
      tool_named "search" false []
      ∷ tool_named "delete" true []
      ∷ tool_named "read" false (refuse ∷ [])
      ∷ [];
  approved_execution = approved;
}

abbrev call_of : String → String → ToolCall
call_of id name = record { id = id; name = name; arguments = "x"; namespace = none }

abbrev calls : List ToolCall
calls = call_of "1" "search" ∷ call_of "2" "read" ∷ call_of "3" "delete" ∷ call_of "4" "search" ∷ []

abbrev pending : RunInterruption
pending = record {
  kind = some tool_approval;
  approval_id = some "id";
  call_id = some "3";
  tool_name = some "delete";
  namespace = none;
  reason = none;
}

abbrev approval_for_3 : ApprovalRecord
approval_for_3 = record {
  approved = true;
  reason = none;
  approval_id = some "id";
  call_id = some "3";
  tool_name = some "delete";
  namespace = none;
}

-- The refused call runs no tool; the one that needs an approval stops the run.
stops_for_approval :
    (execute_local_function_tools (env none) calls []).1
    ≡ tool_approval_required (call_of "3" "delete")
      ∷ tool_start (call_of "3" "delete")
      ∷ tool_end (call_of "2" "read")
      ∷ input_guardrail (call_of "2" "read")
      ∷ tool_start (call_of "2" "read")
      ∷ tool_end (call_of "1" "search")
      ∷ invoke (call_of "1" "search")
      ∷ tool_start (call_of "1" "search")
      ∷ []
unfolding execute_local_function_tools ◌>>=◌ pure lift ask attempt emit call_user
    approval_matches_tool_call
stops_for_approval = refl

runs_with_approval :
    (execute_local_function_tools
      (env (some (pending, approval_for_3)))
      (call_of "3" "delete" ∷ [])
      []).1
    ≡ tool_end (call_of "3" "delete")
      ∷ invoke (call_of "3" "delete")
      ∷ tool_start (call_of "3" "delete")
      ∷ []
unfolding execute_local_function_tools ◌>>=◌ pure lift ask attempt emit call_user
    approval_matches_tool_call
runs_with_approval = refl

execute-Outcome_example :
    Ensures (Outcome calls empty_outcome) (execute_local_function_tools (env none) calls)
execute-Outcome_example = execute-Outcome (env none) calls

execute-Allowed_example :
    All
      (Allowed (env (some (pending, approval_for_3))))
      (execute_local_function_tools (env (some (pending, approval_for_3))) calls []).1
execute-Allowed_example = execute-Allowed (env (some (pending, approval_for_3))) calls [] tt
