-- ===== src/Runner/Handoffs.antt =====
-- Handoffs: `resolve_handoff` and `apply_handoff_transition` of crates/agents-core/src/run.rs, and
-- `nest_handoff_history_with_mapper` of handoff/history.rs.
use openai_agents_rust.Prelude.{
  String, Bool, true, false, ◌&&◌, Option, none, some, List, [], ◌∷◌, ◌++◌, find, keep_if,
  filter_map, str_eq, or_option, unwrap_or,
}
use openai_agents_rust.Items.{InputItem, OutputItem, RunItem, to_input_item}
use openai_agents_rust.ToolIdentity.{concat}
use openai_agents_rust.Errors.{AgentsError, Result, ok, err, model_behavior, user}
use openai_agents_rust.Runner.Transcript.{
  default_handoff_history_mapper, flatten_nested_history_messages,
}
use openai_agents_rust.Tools.{SerdeJson, filter_handoff}
use openai_agents_rust.Tools.Exec.{Exec, ◌>>=◌, pure, call_user}
use openai_agents_rust.Runner.{
  HandoffInputData, HandoffHistoryMapper, HandoffInputFilter, Handoff, Agents, RunConfig,
}

unfoldable pub handoff_target : List OutputItem → Option String
handoff_target [] = none
handoff_target (OutputItem.handoff target ∷ os) = some target
handoff_target (_ ∷ os) = handoff_target os

module _ (A : Agents) where
  -- `Agent::find_handoff`
  unfoldable pub find_handoff : A.Agent → String → Option (Handoff A.Agent)
  find_handoff agent target =
      find (λ (h : Handoff A.Agent). h.enabled && str_eq h.target target) (A.handoffs agent)

  unfoldable pub runtime_agent_of :
      String → Handoff A.Agent → Result (Option (Handoff A.Agent × A.Agent))
  runtime_agent_of target h = elim h.agent [
    | none ↦ err (
        user
          (concat (concat "handoff target `" target) "` is not bound to a runtime agent instance"))
    | some agent ↦ ok (some (h, agent))
  ]

  abbrev pub unknown_handoff : A.Agent → String → AgentsError
  unknown_handoff current target = model_behavior (
      concat
        (concat (concat (concat "model requested unknown handoff target `" target) "` from agent `")
          (A.name current))
        "`")

  unfoldable pub resolve_target : A.Agent → String → Result (Option (Handoff A.Agent × A.Agent))
  unfolding find_handoff runtime_agent_of
  resolve_target current target = elim (find_handoff current target) [
    | none ↦ err (unknown_handoff current target)
    | some h ↦ runtime_agent_of target h
  ]

  unfoldable pub resolve_handoff :
      A.Agent → List OutputItem → Result (Option (Handoff A.Agent × A.Agent))
  unfolding handoff_target resolve_target
  resolve_handoff current output = elim (handoff_target output) [
    | none ↦ ok none
    | some target ↦ resolve_target current target
  ]

unfoldable pub should_forward_run_item : RunItem → Bool
should_forward_run_item (RunItem.tool_call n a c s) = false
should_forward_run_item (RunItem.tool_call_output n o c s) = false
should_forward_run_item (RunItem.reasoning t) = false
should_forward_run_item (RunItem.message_output o) = true
should_forward_run_item (RunItem.handoff_call t) = true
should_forward_run_item (RunItem.handoff_output s) = true

unfoldable pub build_transcript : List InputItem → List RunItem → List RunItem → List InputItem
unfolding flatten_nested_history_messages
build_transcript input_history pre_handoff_items new_items =
    (flatten_nested_history_messages input_history ++ filter_map to_input_item pre_handoff_items)
    ++ filter_map to_input_item new_items

module _ (serde : SerdeJson) where
  unfoldable pub nest_handoff_history_with_mapper :
      HandoffInputData → Option HandoffHistoryMapper → HandoffInputData
  unfolding build_transcript should_forward_run_item default_handoff_history_mapper
  nest_handoff_history_with_mapper input_data mapper =
      let transcript =
        build_transcript input_data.input_history input_data.pre_handoff_items
          input_data.new_items in
      record {
        input_history = unwrap_or mapper (default_handoff_history_mapper serde) transcript;
        pre_handoff_items = keep_if should_forward_run_item input_data.pre_handoff_items;
        new_items = input_data.new_items;
        input_items = some (keep_if should_forward_run_item input_data.new_items);
      }

pub record HandoffTransition : Type 0 where
  pub input_history : List InputItem
  pub pre_handoff_items : List RunItem
  pub normalized_step_items : List RunItem
  pub session_step_items : List RunItem

-- The transition that a filtered or nested `HandoffInputData` leads to.
unfoldable pub transition_of : HandoffInputData → HandoffTransition
transition_of input_data = record {
  input_history = input_data.input_history;
  pre_handoff_items = input_data.pre_handoff_items;
  normalized_step_items = unwrap_or input_data.input_items input_data.new_items;
  session_step_items = input_data.new_items;
}

module _ {A : Agents} (serde : SerdeJson) (config : RunConfig A) (handoff : Handoff A.Agent) where
  unfoldable pub nested_transition : Bool → HandoffInputData → HandoffTransition
  unfolding nest_handoff_history_with_mapper transition_of
  nested_transition true input_data = transition_of (
      nest_handoff_history_with_mapper serde input_data
        (or_option handoff.history_mapper config.handoff_history_mapper))
  nested_transition false input_data = record {
    input_history = input_data.input_history;
    pre_handoff_items = input_data.pre_handoff_items;
    normalized_step_items = input_data.new_items;
    session_step_items = input_data.new_items;
  }

  unfoldable pub filtered_transition :
      Option HandoffInputFilter → HandoffInputData → Exec HandoffTransition
  unfolding nested_transition transition_of
  filtered_transition none input_data = pure (
      nested_transition (unwrap_or handoff.nest_handoff_history config.nest_handoff_history)
        input_data)
  filtered_transition (some filter) input_data = do
    filtered ← call_user filter_handoff (λ log. ok (filter log input_data))
    pure (transition_of filtered)

  unfoldable pub apply_handoff_transition :
      List InputItem → List RunItem → List RunItem → Exec HandoffTransition
  unfolding filtered_transition
  apply_handoff_transition input_history pre_handoff_items new_step_items =
      filtered_transition (or_option handoff.input_filter config.handoff_input_filter) (record {
        input_history = input_history;
        pre_handoff_items = pre_handoff_items;
        new_items = new_step_items;
        input_items = none;
      })
