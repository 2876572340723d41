-- ===== src/RunState.antt =====
-- The pause/resume snapshot of crates/agents-core/src/run_state.rs.
-- The state only carries agents, model responses, guardrail results, traces, sandbox sessions and
-- user contexts, so these are the types of `Carried`. Its approvals are a function of the key.
pub mod Approvals
pub mod Merge
pub mod Merging
pub mod Pending
mod Tests
use openai_agents_rust.Prelude.{
  ℕ, ◌+◌, ◌-◌, ◌%◌, ◌^◌, min, String, Bool, true, false, not, ◌&&◌, ◌||◌, Option, none, some, List,
  [], ◌∷◌, ◌++◌, str_eq, str_option_eq, ltb, if◌then◌else◌, is_some, or_option, unwrap_or,
  filter_option, ◌>>=◌,
}
use openai_agents_rust.Json.{Value}
use openai_agents_rust.Items.{InputItem, RunItem, ReasoningItemIdPolicy, preserve}
use openai_agents_rust.Replay.{compose_replay_input_items}

abbrev pub usize_mod : ℕ
usize_mod = 18446744073709551616

-- `a + b` on usize, in a release build
abbrev pub add_usize : ℕ → ℕ → ℕ
add_usize a b = (a + b) % usize_mod

pub record Usage : Type 0 where
  pub input_tokens : ℕ
  pub output_tokens : ℕ

pub record ApprovalRecord : Type 0 where
  pub approved : Bool
  pub reason : Option String
  pub approval_id : Option String
  pub call_id : Option String
  pub tool_name : Option String
  pub namespace : Option String

pub data RunInterruptionKind : Type 0 where
  tool_approval handoff input_guardrail output_guardrail : RunInterruptionKind
  tool_input_guardrail tool_output_guardrail external : RunInterruptionKind

pub record RunInterruption : Type 0 where
  pub kind : Option RunInterruptionKind
  pub approval_id : Option String
  pub call_id : Option String
  pub tool_name : Option String
  pub namespace : Option String
  pub reason : Option String

abbrev pub Approvals : Type 0
Approvals = String → Option ApprovalRecord

-- `HashMap::insert`, `HashMap::remove`, and `HashMap::extend` by another map
abbrev pub insert : String → ApprovalRecord → Approvals → Approvals
insert k r m j = if str_eq k j then some r else m j

abbrev pub remove : String → Approvals → Approvals
remove k m j = if str_eq k j then none else m j

abbrev pub extend : Approvals → Approvals → Approvals
extend m n j = or_option (n j) (m j)

pub record Carried : Type 1 where
  pub Agent : Type 0
  pub ModelResponse : Type 0
  pub InputGuardrailResult : Type 0
  pub OutputGuardrailResult : Type 0
  pub ToolInputGuardrailResult : Type 0
  pub ToolOutputGuardrailResult : Type 0
  pub Trace : Type 0
  pub SandboxRunState : Type 0
  pub Context : Type 0

pub record RunStateContextSnapshot (C : Carried) : Type 0 where
  pub context : C.Context
  pub usage : Usage
  pub turn_input : List InputItem
  pub approvals : Approvals
  pub tool_input : Option Value
  pub agent_tool_state_scope : Option String

pub record RunState (C : Carried) : Type 0 where
  pub schema_version : String
  pub current_turn : ℕ
  pub current_agent : Option C.Agent
  pub original_input : List InputItem
  pub normalized_input : Option (List InputItem)
  pub model_responses : List C.ModelResponse
  pub generated_items : List RunItem
  pub session_items : List RunItem
  pub max_turns : ℕ
  pub conversation_id : Option String
  pub previous_response_id : Option String
  pub auto_previous_response_id : Bool
  pub reasoning_item_id_policy : ReasoningItemIdPolicy
  pub input_guardrail_results : List C.InputGuardrailResult
  pub output_guardrail_results : List C.OutputGuardrailResult
  pub tool_input_guardrail_results : List C.ToolInputGuardrailResult
  pub tool_output_guardrail_results : List C.ToolOutputGuardrailResult
  pub current_step : Option RunInterruption
  pub persisted_item_count : ℕ
  pub trace : Option C.Trace
  pub context_snapshot : RunStateContextSnapshot C
  pub sandbox : Option C.SandboxRunState

module _ {C : Carried} where
  -- `RunState::new`, with the fields that `..Self::default()` fills
  unfoldable pub new : RunStateContextSnapshot C → List InputItem → C.Agent → ℕ → RunState C
  new snapshot original_input starting_agent max_turns = record {
    schema_version = "1.9";
    current_turn = 0;
    current_agent = some starting_agent;
    original_input = original_input;
    normalized_input = none;
    model_responses = [];
    generated_items = [];
    session_items = [];
    max_turns = max_turns;
    conversation_id = none;
    previous_response_id = none;
    auto_previous_response_id = false;
    reasoning_item_id_policy = preserve;
    input_guardrail_results = [];
    output_guardrail_results = [];
    tool_input_guardrail_results = [];
    tool_output_guardrail_results = [];
    current_step = none;
    persisted_item_count = 0;
    trace = none;
    context_snapshot = snapshot;
    sandbox = none;
  }

  unfoldable pub remaining_turns : RunState C → ℕ
  remaining_turns s = s.max_turns - s.current_turn

  unfoldable pub is_interrupted : RunState C → Bool
  is_interrupted s = is_some s.current_step

  unfoldable pub can_continue : RunState C → Bool
  unfolding remaining_turns
  can_continue s = ltb 0 (remaining_turns s) && not (is_some s.current_step)

  unfoldable pub mark_turn_started : RunState C → RunState C
  mark_turn_started s = record s { current_turn = add_usize s.current_turn 1 }

  unfoldable pub extend_generated_items : List RunItem → RunState C → RunState C
  extend_generated_items items s = record s { generated_items = s.generated_items ++ items }

  unfoldable pub extend_session_items : List RunItem → RunState C → RunState C
  extend_session_items items s = record s { session_items = s.session_items ++ items }

  unfoldable pub pending_approval_id : RunState C → Option String
  pending_approval_id s = s.current_step >>= λ step. step.approval_id

  unfoldable pub clear_interruption : RunState C → RunState C
  clear_interruption s = record s { current_step = none }

  unfoldable pub interrupt :
      RunInterruptionKind → Option String → Option String → Option String → RunState C → RunState C
  interrupt kind call_id tool_name reason s = record s {
    current_step = some (record {
      kind = some kind;
      approval_id = none;
      call_id = call_id;
      tool_name = tool_name;
      namespace = none;
      reason = reason;
    });
  }

  unfoldable pub resume_input : RunState C → List InputItem
  resume_input s =
      compose_replay_input_items (unwrap_or s.normalized_input s.original_input) s.generated_items
        s.reasoning_item_id_policy

abbrev pub is_tool_approval : Option RunInterruptionKind → Bool
is_tool_approval (some tool_approval) = true
is_tool_approval _ = false

-- `resolve_approval_key`, over the current step
unfoldable pub resolve_approval_key : Option RunInterruption → String → String
resolve_approval_key step id =
    let key = filter_option (λ (s : RunInterruption). is_tool_approval s.kind) step >>= λ s.
    s.approval_id >>= λ approval_id.
    if str_option_eq s.call_id (some id) || str_eq approval_id id then some approval_id else none in
    unwrap_or key id

-- What `approve_for_tool` and `reject_for_tool` insert.
unfoldable pub decision :
    Bool → String → Option RunInterruption → Option String → Option String → ApprovalRecord
decision approved key step tool_name reason = record {
  approved = approved;
  reason = reason;
  approval_id = some key;
  call_id = step >>= λ s. s.call_id;
  tool_name = tool_name;
  namespace = step >>= λ s. s.namespace;
}

module _ {C : Carried} where
  unfoldable pub approval : String → RunState C → Option ApprovalRecord
  approval id s = s.context_snapshot.approvals (resolve_approval_key s.current_step id)

  unfoldable pub decide_for_tool :
      Bool → String → Option String → Option String → RunState C → RunState C
  unfolding decision
  decide_for_tool approved id tool_name reason s =
      let key = resolve_approval_key s.current_step id in
      record s {
        context_snapshot = record s.context_snapshot {
          approvals =
              insert key (decision approved key s.current_step tool_name reason)
                s.context_snapshot.approvals;
        };
      }

  unfoldable pub approve_for_tool : String → Option String → Option String → RunState C → RunState C
  unfolding decide_for_tool
  approve_for_tool = decide_for_tool true

  unfoldable pub reject_for_tool : String → Option String → Option String → RunState C → RunState C
  unfolding decide_for_tool
  reject_for_tool = decide_for_tool false

  unfoldable pub approve : String → Option String → RunState C → RunState C
  unfolding approve_for_tool
  approve id reason = approve_for_tool id none reason

  unfoldable pub reject : String → Option String → RunState C → RunState C
  unfolding reject_for_tool
  reject id reason = reject_for_tool id none reason
