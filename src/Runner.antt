-- ===== src/Runner.antt =====
-- The agent runner of crates/agents-core/src/run.rs, with the handoffs of handoff/mod.rs, for a run
-- that has no session, no sandbox and no server-side conversation: its conversation tracker is
-- inactive. What a run takes from outside are the model, the guardrails' futures, the JSON text
-- format and the user's callbacks, which may read the log of what has happened so far.
-- `Agent` is a struct that holds agents in its handoffs; here its fields are functions.
pub mod Handoffs
pub mod Turn
pub mod Run
pub mod Approval
pub mod Resume
pub mod Resumed
pub mod Merged
pub mod Transcript
pub mod Solo
pub mod Calls
pub mod Turns
mod ResumeTests
mod Tests
use openai_agents_rust.Prelude.{ℕ, String, Bool, Option, List}
use openai_agents_rust.Json.{Value}
use openai_agents_rust.Items.{InputItem, OutputItem, RunItem, ReasoningItemIdPolicy}
use openai_agents_rust.RunState.{Usage}
use openai_agents_rust.Errors.{Result, InputGuardrailResult, OutputGuardrailResult}
use openai_agents_rust.Guardrails.{InputGuardrail, OutputGuardrail, TryJoinAll}
use openai_agents_rust.ToolIdentity.{ToolCall}
use openai_agents_rust.Tools.{FunctionTool, Log, SerdeJson, ToolUseBehavior}

pub record HandoffInputData : Type 0 where
  pub input_history : List InputItem
  pub pre_handoff_items : List RunItem
  pub new_items : List RunItem
  pub input_items : Option (List RunItem)

abbrev pub HandoffInputFilter : Type 0
HandoffInputFilter = Log → HandoffInputData → HandoffInputData

abbrev pub HandoffHistoryMapper : Type 0
HandoffHistoryMapper = List InputItem → List InputItem

pub record Handoff (Agent : Type 0) : Type 0 where
  pub target : String
  pub enabled : Bool
  pub nest_handoff_history : Option Bool
  pub input_filter : Option HandoffInputFilter
  pub history_mapper : Option HandoffHistoryMapper
  pub agent : Option Agent

-- An agent. `candidate_tools` are its own tools and those of its MCP servers, each with whether it
-- is enabled; `check_output` is the validator of its output schema.
pub record Agents : Type 1 where
  pub Agent : Type 0
  pub name : Agent → String
  pub instructions : Agent → Option String
  pub handoffs : Agent → List (Handoff Agent)
  pub input_guardrails : Agent → List InputGuardrail
  pub output_guardrails : Agent → List OutputGuardrail
  pub tool_use_behavior : Agent → ToolUseBehavior
  pub candidate_tools : Log → Agent → Result (List (FunctionTool × Bool))
  pub check_output : Agent → Value → Result (Unit {0})

pub record ModelInputData : Type 0 where
  pub input : List InputItem
  pub instructions : Option String

pub record ModelResponse : Type 0 where
  pub model : Option String
  pub output : List OutputItem
  pub usage : Usage
  pub response_id : Option String
  pub request_id : Option String

pub record RunErrorHandlerResult : Type 0 where
  pub final_output : Value
  pub include_in_history : Bool

-- `RunErrorData`
pub record RunErrorData (Agent : Type 0) : Type 0 where
  pub input : List InputItem
  pub new_items : List RunItem
  pub history : List InputItem
  pub output : List OutputItem
  pub raw_responses : List ModelResponse
  pub last_agent : Agent

-- The fields of `RunConfig` that such a run reads.
pub record RunConfig (A : Agents) : Type 0 where
  pub max_turns : ℕ
  pub nest_handoff_history : Bool
  pub reasoning_item_id_policy : ReasoningItemIdPolicy
  pub handoff_input_filter : Option HandoffInputFilter
  pub handoff_history_mapper : Option HandoffHistoryMapper
  pub input_guardrails : Option (List InputGuardrail)
  pub output_guardrails : Option (List OutputGuardrail)
  pub call_model_input_filter : Option (Log → A.Agent → ModelInputData → Result ModelInputData)
  pub tool_error_formatter : Option (Log → ToolCall → Result (Option String))
  pub max_turns_handler : Option (Log → RunErrorData A.Agent → Option RunErrorHandlerResult)

pub record AgentRunner (A : Agents) : Type 0 where
  pub config : RunConfig A
  pub serde : SerdeJson
  pub new_v4 : Log → String
  pub join_input : TryJoinAll InputGuardrailResult
  pub join_output : TryJoinAll OutputGuardrailResult
  pub call_model : Log → A.Agent → ModelInputData → Result ModelResponse
