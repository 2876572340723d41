-- ===== src/Runner/Approval.antt =====
-- A run never runs a tool that needs an approval, for `run_items_internal` of
-- crates/agents-core/src/run.rs: such a call ends it with an interruption.
use openai_agents_rust.Prelude.{
  refl, ℕ, zero, suc, ◌≡◌, inl, inr, Bool, true, false, Option, none, some, List, [], ◌∷◌, All,
}
use openai_agents_rust.Json.{Value}
use openai_agents_rust.Items.{InputItem, OutputItem, RunItem}
use openai_agents_rust.RunState.{RunInterruption, RunStateContextSnapshot}
use openai_agents_rust.ToolIdentity.{ToolCall}
use openai_agents_rust.Errors.{Result, ok}
use openai_agents_rust.Tools.{
  FunctionTool, Event, Log, ToolsToFinalOutputResult, invoke, call_model,
}
use openai_agents_rust.Tools.Exec.{
  pure, Keeps, Keeps-pure, Keeps-raise, Keeps-lift, Keeps-call_user, Keeps-emit, Keeps-bind,
  Keeps-bind_eq, Keeps-All,
}
use openai_agents_rust.Tools.Execute.{ToolExecutionOutcome, find_tool}
use openai_agents_rust.Tools.Gating.{
  MayRun, Permits, is_quiet, OnInvoke, OnInvoke-quiet, execute-Keeps,
}
use openai_agents_rust.Runner.{
  HandoffInputData, HandoffInputFilter, Handoff, Agents, ModelInputData, AgentRunner, RunErrorData,
  RunErrorHandlerResult,
}
use openai_agents_rust.Runner.Handoffs.{apply_handoff_transition, filtered_transition}
use openai_agents_rust.Runner.Turn.{
  Locals, TurnEnd, next_turn, break_loop, get_all_function_tools, filter_input,
  maybe_filter_model_input, tool_env, hand_over, finish, settle_final, settle_tools, run_tools,
  respond, take_response, turn, run_turns,
}
use openai_agents_rust.Runner.Run.{
  carried, produced_nothing, accept_handler_result, handle_max_turns, conclude_run,
  run_items_internal,
}

module _ (A : Agents) where
  -- Some agent listed a tool for the call that needs no approval.
  abbrev pub NeedsNoApproval : ToolCall → Type 0
  NeedsNoApproval call =
      (agent : A.Agent) × (log : Log) × (tools : List FunctionTool) × (tool : FunctionTool)
      × ((get_all_function_tools A agent log).0 ≡ ok tools)
      × (find_tool tools call ≡ ok tool)
      × (tool.needs_approval ≡ false)

  abbrev pub Ungated : Event → Type 0
  Ungated = OnInvoke NeedsNoApproval

  -- `P` holds of the run of a tool that needs no approval, and of every quiet event.
  pub record RunPermits (P : Event → Type 0) : Type 0 where
    pub runs : (call : ToolCall) → NeedsNoApproval call → P (invoke call)
    pub quiet : (e : Event) → is_quiet e ≡ true → P e

module _ {A : Agents} (R : AgentRunner A) {P : Event → Type 0} (perm : RunPermits A P) where
  -- A run has no approval at hand, so a tool that may run needs none.
  permits :
      (agent : A.Agent) (log : Log) (tools : List FunctionTool)
      → (get_all_function_tools A agent log).0 ≡ ok tools
      → Permits (tool_env R tools) P
  unfolding tool_env
  permits agent log tools e = record { runs = allowed; quiet = perm.quiet }
    where
      allowed : (call : ToolCall) → MayRun (tool_env R tools) call → P (invoke call)
      allowed call (tool, found, inl h) = perm.runs call (agent, log, tools, tool, e, found, h)
      allowed call (tool, found, inr (i, a, h, m)) = cc h

  pub tools-Keeps : (agent : A.Agent) → Keeps P (get_all_function_tools A agent)
  unfolding get_all_function_tools
  tools-Keeps agent =
      Keeps-bind _ _ (Keeps-call_user _ _ (perm.quiet _ refl)) λ candidates. Keeps-lift _

  pub filter-Keeps :
      (f : Option (Log → A.Agent → ModelInputData → Result ModelInputData)) (agent : A.Agent)
      (model_data : ModelInputData)
      → Keeps P (filter_input R f agent model_data)
  unfolding filter_input
  filter-Keeps none agent model_data = Keeps-pure _
  filter-Keeps (some f) agent model_data = Keeps-call_user _ _ (perm.quiet _ refl)

  transition-Keeps :
      (h : Handoff A.Agent) (f : Option HandoffInputFilter) (input_data : HandoffInputData)
      → Keeps P (filtered_transition R.serde R.config h f input_data)
  unfolding filtered_transition
  transition-Keeps h none input_data = Keeps-pure _
  transition-Keeps h (some f) input_data =
      Keeps-bind _ _ (Keeps-call_user _ _ (perm.quiet _ refl)) λ filtered. Keeps-pure _

  hand_over-Keeps :
      (h : Handoff A.Agent) (target : A.Agent) (items : List RunItem) (l : Locals A)
      → Keeps P (hand_over R h target items l)
  unfolding hand_over apply_handoff_transition
  hand_over-Keeps h target items l = Keeps-bind _ _ (Keeps-emit _ (perm.quiet _ refl)) λ u.
      Keeps-bind _ _ (transition-Keeps h _ _)
        λ transition. Keeps-bind _ _ (Keeps-emit _ (perm.quiet _ refl)) λ v. Keeps-pure _

  settle_final-Keeps :
      (decision : ToolsToFinalOutputResult) (outcome : ToolExecutionOutcome) (l : Locals A)
      → Keeps P (settle_final R decision outcome l)
  unfolding settle_final
  settle_final-Keeps decision outcome l = go decision.is_final_output decision.final_output
    where
      go :
          (b : Bool) (o : Option Value)
          → Keeps P (settle_final R (record { is_final_output = b; final_output = o }) outcome l)
      go false o = Keeps-pure _
      go true none = Keeps-pure _
      go true (some v) = Keeps-bind _ _ (Keeps-emit _ (perm.quiet _ refl)) λ u. Keeps-pure _

  settle_tools-Keeps :
      (is : List RunInterruption) (outcome : ToolExecutionOutcome) (l : Locals A)
      → Keeps P (settle_tools R is outcome l)
  unfolding settle_tools
  settle_tools-Keeps [] outcome l =
      Keeps-bind _ _ (Keeps-lift _) λ decision. settle_final-Keeps decision outcome l
  settle_tools-Keeps (i ∷ is) outcome l = Keeps-pure _

  respond-Keeps :
      (calls : List ToolCall) (output : List OutputItem) (l : Locals A)
      → Keeps P (respond R calls output l)
  unfolding respond run_tools finish
  respond-Keeps [] output l =
      Keeps-bind _ _ (Keeps-lift _)
        λ results. Keeps-bind _ _ (Keeps-emit _ (perm.quiet _ refl)) λ u. Keeps-pure _
  respond-Keeps (c ∷ cs) output l = Keeps-bind_eq _ _ (tools-Keeps l.current_agent) λ tools log e.
      Keeps-bind _ _
        (execute-Keeps (tool_env R tools) (permits l.current_agent log tools e) (c ∷ cs))
        λ outcome. settle_tools-Keeps outcome.interruptions outcome l

  pub take_response-Keeps :
      (handed : Option (Handoff A.Agent × A.Agent)) (output : List OutputItem) (l : Locals A)
      → Keeps P (take_response R handed output l)
  unfolding take_response
  take_response-Keeps (some (h, target)) output l = hand_over-Keeps h target _ l
  take_response-Keeps none output l = respond-Keeps _ output _

  turn-Keeps :
      (l : Locals A) → ((input : List InputItem) → P (call_model input)) → Keeps P (turn R l)
  unfolding turn maybe_filter_model_input
  turn-Keeps l models =
      Keeps-bind _ _ (filter-Keeps R.config.call_model_input_filter l.current_agent _) λ model_data.
        Keeps-bind _ _ (Keeps-call_user _ _ (models _)) λ response.
          Keeps-bind _ _ (Keeps-lift _) λ handed. take_response-Keeps handed response.output _

  run_turns-Keeps :
      (n : ℕ) (l : Locals A)
      → ((input : List InputItem) → P (call_model input))
      → Keeps P (run_turns R n l)
  unfolding run_turns
  run_turns-Keeps zero l models = Keeps-pure l
  run_turns-Keeps (suc n) l models =
      Keeps-bind _ _ (turn-Keeps l models) λ end. go end (λ l'. run_turns-Keeps n l' models)
    where
      go :
          (end : TurnEnd A)
          → ((l' : Locals A) → Keeps P (run_turns R n l'))
          → Keeps P (elim end [ next_turn l' ↦ run_turns R n l' | break_loop l' ↦ pure l' ])
      go (next_turn l') ih = ih l'
      go (break_loop l') ih = Keeps-pure l'

  accept-Keeps :
      (agent : A.Agent) (r : Option RunErrorHandlerResult) (l : Locals A)
      → Keeps P (accept_handler_result R agent r l)
  unfolding accept_handler_result
  accept-Keeps agent none l = Keeps-raise _
  accept-Keeps agent (some r) l = Keeps-bind _ _ (Keeps-lift _) λ u. Keeps-pure _

  handle-Keeps :
      (handler : Option (Log → RunErrorData A.Agent → Option RunErrorHandlerResult))
      (agent : A.Agent) (input : List InputItem) (l : Locals A)
      → Keeps P (handle_max_turns R handler agent input l)
  unfolding handle_max_turns
  handle-Keeps none agent input l = Keeps-raise _
  handle-Keeps (some handler) agent input l =
      Keeps-bind _ _ (Keeps-call_user _ _ (perm.quiet _ refl)) λ r. accept-Keeps agent r l

  pub conclude_run-Keeps :
      (agent : A.Agent) (input : List InputItem) (l : Locals A)
      → Keeps P (conclude_run R agent input l)
  unfolding conclude_run
  conclude_run-Keeps agent input l = go (produced_nothing l)
    where
      go :
          (b : Bool)
          → Keeps P (elim b [
            | true ↦ handle_max_turns R R.config.max_turns_handler agent input l
            | false ↦ pure l
          ])
      go true = handle-Keeps R.config.max_turns_handler agent input l
      go false = Keeps-pure l

  module _ {Trace SandboxRunState Context : Type 0}
      (snapshot : RunStateContextSnapshot (carried A Trace SandboxRunState Context)) where
    pub run-Keeps :
        (agent : A.Agent) (original_input base_input : List InputItem)
        → ((input : List InputItem) → P (call_model input))
        → Keeps P (run_items_internal R snapshot agent original_input base_input)
    unfolding run_items_internal
    run-Keeps agent original_input base_input models =
        Keeps-bind _ _ (Keeps-emit _ (perm.quiet _ refl)) λ u.
          Keeps-bind _ _ (Keeps-lift _) λ results.
            Keeps-bind _ _ (run_turns-Keeps _ _ models)
              λ l. Keeps-bind _ _ (conclude_run-Keeps agent original_input l) λ l'. Keeps-pure _

module _ {A : Agents} (R : AgentRunner A) where
  module _ {Trace SandboxRunState Context : Type 0}
      (snapshot : RunStateContextSnapshot (carried A Trace SandboxRunState Context)) where
    -- Whatever the model asks for and the user's code does, and whether the run returns or fails:
    -- each call for which the run invokes a tool is for a tool, listed by an agent, that needs no
    -- approval, if this holds of the events before the run.
    pub run-Ungated :
        (agent : A.Agent) (original_input base_input : List InputItem) (log : Log)
        → All (Ungated A) log
        → All (Ungated A) (run_items_internal R snapshot agent original_input base_input log).1
    run-Ungated agent original_input base_input log h =
        Keeps-All _
          (run-Keeps R
            (record { runs = λ call need. need; quiet = OnInvoke-quiet (NeedsNoApproval A) })
            snapshot agent original_input base_input (λ input. tt))
          log h
