-- ===== src/Runner/Solo.antt =====
-- Runs of an agent without handoffs, for `run_items_internal` of crates/agents-core/src/run.rs.
use openai_agents_rust.Prelude.{
  ℕ, zero, suc, String, if◌then◌else◌, ◌≡◌, refl, ap, sym, subst, Bool, true, false, Option, none,
  some, List, [], ◌∷◌, ◌++◌,
}
use openai_agents_rust.Json.{Value}
use openai_agents_rust.Items.{InputItem, OutputItem, RunItem}
use openai_agents_rust.Items.Laws.{run_items_eq_refl}
use openai_agents_rust.RunState.{RunInterruption, RunStateContextSnapshot}
use openai_agents_rust.ToolIdentity.{ToolCall}
use openai_agents_rust.Errors.{Result, ok, err}
use openai_agents_rust.Tools.{Log, ToolsToFinalOutputResult}
use openai_agents_rust.Tools.Exec.{
  pure, Ensures, Ensures-pure, Ensures-bind, Ensures-after, Ensures-raise, Ensures-lift,
}
use openai_agents_rust.Tools.Execute.{ToolExecutionOutcome}
use openai_agents_rust.Runner.{Handoff, Agents, AgentRunner, RunErrorData, RunErrorHandlerResult}
use openai_agents_rust.Runner.Handoffs.{
  unknown_handoff, resolve_handoff, resolve_target, find_handoff, handoff_target,
}
use openai_agents_rust.Runner.Turn.{
  Locals, TurnEnd, next_turn, break_loop, extend_items, extend_tool_results, finish, settle_final,
  settle_tools, run_tools, respond, take_response, record_response, turn, run_turns,
  create_message_output_item,
}
use openai_agents_rust.Runner.Run.{
  carried, first_locals, produced_nothing, use_handler_result, accept_handler_result,
  handle_max_turns, conclude_run, run_result, run_items_internal,
}
use openai_agents_rust.Runner.Turns.{locals_of}

module _ {A : Agents} (R : AgentRunner A) (agent : A.Agent) (alone : A.handoffs agent ≡ []) where
  -- The agent is still the current one, and both lists of generated items are one.
  record IsSolo (l : Locals A) : Type 0 where
    current : l.current_agent ≡ agent
    same_items : l.normalized_generated_items ≡ l.session_generated_items

  abbrev EndsSolo : TurnEnd A → Type 0
  EndsSolo end = IsSolo (locals_of end)

  extend_items-IsSolo :
      (items : List RunItem) (l : Locals A) → IsSolo l → IsSolo (extend_items items l)
  unfolding extend_items
  extend_items-IsSolo items l h = record {
    current = h.current;
    same_items = ap (λ xs. xs ++ items) h.same_items;
  }

  extend_tool_results-IsSolo :
      (outcome : ToolExecutionOutcome) (l : Locals A)
      → IsSolo l
      → IsSolo (extend_tool_results outcome l)
  unfolding extend_tool_results extend_items
  extend_tool_results-IsSolo outcome l h = record {
    current = h.current;
    same_items = ap (λ xs. xs ++ outcome.new_items) h.same_items;
  }

  finish-EndsSolo :
      (output : List OutputItem) (l : Locals A) → IsSolo l → Ensures EndsSolo (finish R output l)
  unfolding finish
  finish-EndsSolo output l h = Ensures-after _ _ λ results.
      Ensures-after _ _
        λ u. Ensures-pure _ (record { current = h.current; same_items = h.same_items })

  settle_final-EndsSolo :
      (decision : ToolsToFinalOutputResult) (outcome : ToolExecutionOutcome) (l : Locals A)
      → IsSolo l
      → Ensures EndsSolo (settle_final R decision outcome l)
  unfolding settle_final
  settle_final-EndsSolo decision outcome l h =
      go decision.is_final_output decision.final_output (extend_tool_results-IsSolo outcome l h)
    where
      go :
          (b : Bool) (o : Option Value)
          → IsSolo (extend_tool_results outcome l)
          → Ensures EndsSolo
              (settle_final R (record { is_final_output = b; final_output = o }) outcome l)
      go false o k = Ensures-pure _ k
      go true none k = Ensures-pure _ k
      go true (some v) k =
          Ensures-after _ _
            λ u. Ensures-pure _ (record { current = k.current; same_items = k.same_items })

  settle_tools-EndsSolo :
      (is : List RunInterruption) (outcome : ToolExecutionOutcome) (l : Locals A)
      → IsSolo l
      → Ensures EndsSolo (settle_tools R is outcome l)
  unfolding settle_tools
  settle_tools-EndsSolo [] outcome l h =
      Ensures-after _ _ λ decision. settle_final-EndsSolo decision outcome l h
  settle_tools-EndsSolo (i ∷ is) outcome l h =
      let k = extend_tool_results-IsSolo outcome l h in
      Ensures-pure _ (record { current = k.current; same_items = k.same_items })

  respond-EndsSolo :
      (calls : List ToolCall) (output : List OutputItem) (l : Locals A)
      → IsSolo l
      → Ensures EndsSolo (respond R calls output l)
  unfolding respond run_tools
  respond-EndsSolo [] output l h = finish-EndsSolo output l h
  respond-EndsSolo (c ∷ cs) output l h =
      Ensures-after _ _ λ tools.
        Ensures-after _ _ λ outcome. settle_tools-EndsSolo outcome.interruptions outcome l h

  resolve_target-err :
      (current : A.Agent) (target : String)
      → current ≡ agent
      → resolve_target A current target ≡ err (unknown_handoff A current target)
  unfolding resolve_target find_handoff
  resolve_target-err current target h =
      subst (λ c. resolve_target A c target ≡ err (unknown_handoff A c target)) (sym h)
        (rw (resolve_target, find_handoff, alone))

  -- Without handoffs, a response that asks for one is an error.
  resolve_handoff-none :
      (current : A.Agent) (output : List OutputItem) (handed : Option (Handoff A.Agent × A.Agent))
      → current ≡ agent
      → resolve_handoff A current output ≡ ok handed
      → handed ≡ none
  unfolding resolve_handoff
  resolve_handoff-none current output handed h k =
      go (handoff_target output) (λ t. resolve_target-err current t h) k
    where
      go :
          (t : Option String)
          → ((s : String) → resolve_target A current s ≡ err (unknown_handoff A current s))
          → (elim t as (λ _. Result (Option (Handoff A.Agent × A.Agent))) [
            | none ↦ ok none
            | some s ↦ resolve_target A current s
          ])
            ≡ ok handed
          → handed ≡ none
      go none f k' = cc k'
      go (some s) f k' = cc (f s, k')

  take_response-EndsSolo :
      (handed : Option (Handoff A.Agent × A.Agent)) (output : List OutputItem) (l : Locals A)
      → handed ≡ none
      → IsSolo l
      → Ensures EndsSolo (take_response R handed output l)
  unfolding take_response
  take_response-EndsSolo (some x) output l e h = cc e
  take_response-EndsSolo none output l e h = respond-EndsSolo _ output _ (extend_items-IsSolo _ l h)

  turn-EndsSolo : (l : Locals A) → IsSolo l → Ensures EndsSolo (turn R l)
  unfolding turn record_response
  turn-EndsSolo l h = Ensures-after _ _ λ model_data. Ensures-after _ _ λ response.
      Ensures-bind (λ handed. resolve_handoff A l.current_agent response.output ≡ ok handed) _ _
        (Ensures-lift _)
        λ handed e.
          take_response-EndsSolo handed response.output _
            (resolve_handoff-none l.current_agent response.output handed h.current e)
            (record { current = h.current; same_items = h.same_items })

  run_turns-IsSolo : (n : ℕ) (l : Locals A) → IsSolo l → Ensures IsSolo (run_turns R n l)
  unfolding run_turns
  run_turns-IsSolo zero l h = Ensures-pure l h
  run_turns-IsSolo (suc n) l h =
      Ensures-bind EndsSolo _ _ (turn-EndsSolo l h) λ end k. go end k (run_turns-IsSolo n)
    where
      go :
          (end : TurnEnd A)
          → EndsSolo end
          → ((l' : Locals A) → IsSolo l' → Ensures IsSolo (run_turns R n l'))
          → Ensures IsSolo (elim end [ next_turn l' ↦ run_turns R n l' | break_loop l' ↦ pure l' ])
      go (next_turn l') k ih = ih l' k
      go (break_loop l') k ih = Ensures-pure l' k

  accept_handler_result-IsSolo :
      (r : Option RunErrorHandlerResult) (l : Locals A)
      → IsSolo l
      → Ensures IsSolo (accept_handler_result R agent r l)
  unfolding accept_handler_result use_handler_result
  accept_handler_result-IsSolo none l h = Ensures-raise _
  accept_handler_result-IsSolo (some r) l h = Ensures-after _ _ λ u.
      let k =
        extend_items-IsSolo
          (if r.include_in_history
            then RunItem.message_output (create_message_output_item r.final_output) ∷ []
            else [])
          l h in
      Ensures-pure _ (record { current = k.current; same_items = k.same_items })

  handle_max_turns-IsSolo :
      (handler : Option (Log → RunErrorData A.Agent → Option RunErrorHandlerResult))
      (input : List InputItem) (l : Locals A)
      → IsSolo l
      → Ensures IsSolo (handle_max_turns R handler agent input l)
  unfolding handle_max_turns
  handle_max_turns-IsSolo none input l h = Ensures-raise _
  handle_max_turns-IsSolo (some handler) input l h =
      Ensures-after _ _ λ r. accept_handler_result-IsSolo r l h

  conclude_run-IsSolo :
      (input : List InputItem) (l : Locals A)
      → IsSolo l
      → Ensures IsSolo (conclude_run R agent input l)
  unfolding conclude_run
  conclude_run-IsSolo input l h = go (produced_nothing l)
    where
      go :
          (b : Bool)
          → Ensures IsSolo (elim b [
            | true ↦ handle_max_turns R R.config.max_turns_handler agent input l
            | false ↦ pure l
          ])
      go true = handle_max_turns-IsSolo R.config.max_turns_handler input l h
      go false = Ensures-pure l h

  module _ {Trace SandboxRunState Context : Type 0}
      (snapshot : RunStateContextSnapshot (carried A Trace SandboxRunState Context)) where
    -- A run of an agent without handoffs that returns ends with this agent, and its normalized items
    -- are no other than its new items: it reports none of its own, and its run state holds the new
    -- items as both its generated and its session items.
    pub run-solo :
        (original_input base_input : List InputItem)
        → Ensures
            (λ r.
              (r.last_agent ≡ agent)
              × (r.normalized_new_items ≡ none)
              × (r.run_state.generated_items ≡ r.new_items)
              × (r.run_state.session_items ≡ r.new_items))
            (run_items_internal R snapshot agent original_input base_input)
    unfolding run_items_internal run_result
    run-solo original_input base_input = Ensures-after _ _ λ u. Ensures-after _ _ λ results.
        Ensures-bind IsSolo _ _
          (run_turns-IsSolo R.config.max_turns (first_locals agent base_input)
            (record { current = refl; same_items = refl }))
          λ l h. Ensures-bind IsSolo _ _ (conclude_run-IsSolo original_input l h) λ l' k.
            Ensures-pure _ (
              k.current,
              rw (k.same_items, run_items_eq_refl l'.session_generated_items),
              k.same_items,
              refl,
            )
