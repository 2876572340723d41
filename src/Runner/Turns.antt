-- ===== src/Runner/Turns.antt =====
-- How many responses the loop of `run_items_internal` in crates/agents-core/src/run.rs takes, and
-- what a run that returns has produced.
use openai_agents_rust.Prelude.{
  ℕ, zero, suc, ◌+◌, ◌≤◌, ◌≡◌, refl, ap, ◌∙◌, Bool, true, false, not, ◌||◌, Option, none, some,
  List, [], ◌∷◌, length, length-append, is_some, arith,
}
use openai_agents_rust.Json.{Value}
use openai_agents_rust.Items.{InputItem, OutputItem, RunItem}
use openai_agents_rust.RunState.{RunInterruption, RunStateContextSnapshot, remaining_turns, new}
use openai_agents_rust.ToolIdentity.{ToolCall}
use openai_agents_rust.Errors.{InputGuardrailResult}
use openai_agents_rust.Tools.{Log, ToolsToFinalOutputResult}
use openai_agents_rust.Tools.Exec.{
  pure, Ensures, Ensures-pure, Ensures-bind, Ensures-after, Ensures-weaken, Ensures-raise,
}
use openai_agents_rust.Tools.Execute.{ToolExecutionOutcome}
use openai_agents_rust.Runner.{Handoff, Agents, AgentRunner, RunErrorData, RunErrorHandlerResult}
use openai_agents_rust.Runner.Turn.{
  Locals, TurnEnd, next_turn, break_loop, extend_items, extend_tool_results, hand_over, finish,
  settle_final, settle_tools, run_tools, respond, take_response, record_response, turn, run_turns,
}
use openai_agents_rust.Runner.Run.{
  RunResult, carried, is_nil, first_locals, produced_nothing, use_handler_result,
  accept_handler_result, handle_max_turns, conclude_run, run_result, run_items_internal,
}

abbrev pub locals_of : {A : Agents} → TurnEnd A → Locals A
locals_of (next_turn l) = l
locals_of (break_loop l) = l

module _ {A : Agents} (R : AgentRunner A) where
  -- The turn's end has the responses that `l` has.
  abbrev pub KeepsResponses : Locals A → TurnEnd A → Type 0
  KeepsResponses l end = (locals_of end).raw_responses ≡ l.raw_responses

  hand_over-KeepsResponses :
      (h : Handoff A.Agent) (target : A.Agent) (items : List RunItem) (l : Locals A)
      → Ensures (KeepsResponses l) (hand_over R h target items l)
  unfolding hand_over
  hand_over-KeepsResponses h target items l =
      Ensures-after _ _
        λ u. Ensures-after _ _ λ transition. Ensures-after _ _ λ v. Ensures-pure _ refl

  finish-KeepsResponses :
      (output : List OutputItem) (l : Locals A) → Ensures (KeepsResponses l) (finish R output l)
  unfolding finish
  finish-KeepsResponses output l =
      Ensures-after _ _ λ results. Ensures-after _ _ λ u. Ensures-pure _ refl

  extend_tool_results-raw :
      (outcome : ToolExecutionOutcome) (l : Locals A)
      → (extend_tool_results outcome l).raw_responses ≡ l.raw_responses
  unfolding extend_tool_results extend_items
  extend_tool_results-raw outcome l = refl

  settle_final-KeepsResponses :
      (decision : ToolsToFinalOutputResult) (outcome : ToolExecutionOutcome) (l : Locals A)
      → Ensures (KeepsResponses l) (settle_final R decision outcome l)
  unfolding settle_final
  settle_final-KeepsResponses decision outcome l = go decision.is_final_output decision.final_output
    where
      go :
          (b : Bool) (o : Option Value)
          → Ensures
              (KeepsResponses l)
              (settle_final R (record { is_final_output = b; final_output = o }) outcome l)
      go false o = Ensures-pure _ (extend_tool_results-raw outcome l)
      go true none = Ensures-pure _ (extend_tool_results-raw outcome l)
      go true (some v) = Ensures-after _ _ λ u. Ensures-pure _ (extend_tool_results-raw outcome l)

  settle_tools-KeepsResponses :
      (is : List RunInterruption) (outcome : ToolExecutionOutcome) (l : Locals A)
      → Ensures (KeepsResponses l) (settle_tools R is outcome l)
  unfolding settle_tools
  settle_tools-KeepsResponses [] outcome l =
      Ensures-after _ _ λ decision. settle_final-KeepsResponses decision outcome l
  settle_tools-KeepsResponses (i ∷ is) outcome l =
      Ensures-pure _ (extend_tool_results-raw outcome l)

  respond-KeepsResponses :
      (calls : List ToolCall) (output : List OutputItem) (l : Locals A)
      → Ensures (KeepsResponses l) (respond R calls output l)
  unfolding respond run_tools
  respond-KeepsResponses [] output l = finish-KeepsResponses output l
  respond-KeepsResponses (c ∷ cs) output l = Ensures-after _ _ λ tools.
      Ensures-after _ _ λ outcome. settle_tools-KeepsResponses outcome.interruptions outcome l

  pub take_response-KeepsResponses :
      (handed : Option (Handoff A.Agent × A.Agent)) (output : List OutputItem) (l : Locals A)
      → Ensures (KeepsResponses l) (take_response R handed output l)
  unfolding take_response extend_items
  take_response-KeepsResponses (some (h, target)) output l = hand_over-KeepsResponses h target _ l
  take_response-KeepsResponses none output l = respond-KeepsResponses _ output (extend_items _ l)

  -- A turn takes one response.
  abbrev OneMore : Locals A → TurnEnd A → Type 0
  OneMore l end = length (locals_of end).raw_responses ≡ suc (length l.raw_responses)

  turn-OneMore : (l : Locals A) → Ensures (OneMore l) (turn R l)
  unfolding turn record_response
  turn-OneMore l = Ensures-after _ _ λ model_data. Ensures-after _ _ λ response.
      Ensures-after _ _ λ handed.
        Ensures-weaken _ _
          (λ end h. ap length h ∙ (omega (arith, length-append l.raw_responses (response ∷ []))))
          (take_response-KeepsResponses handed response.output
            (record_response R response model_data _ l))

  abbrev AtMost : ℕ → Locals A → Locals A → Type 0
  AtMost n l l' = length l'.raw_responses ≤ n + length l.raw_responses

  run_turns-AtMost : (n : ℕ) (l : Locals A) → Ensures (AtMost n l) (run_turns R n l)
  unfolding run_turns
  run_turns-AtMost zero l = Ensures-pure l (omega arith)
  run_turns-AtMost (suc n) l =
      Ensures-bind (OneMore l) _ _ (turn-OneMore l) λ end h. go end h (run_turns-AtMost n)
    where
      go :
          (end : TurnEnd A)
          → OneMore l end
          → ((l' : Locals A) → Ensures (AtMost n l') (run_turns R n l'))
          → Ensures
              (AtMost (suc n) l)
              (elim end [ next_turn l' ↦ run_turns R n l' | break_loop l' ↦ pure l' ])
      go (next_turn l') h ih = Ensures-weaken (AtMost n l') _ (λ l2 k. omega (arith, h, k)) (ih l')
      go (break_loop l') h ih = Ensures-pure l' (omega (arith, h))

  -- What `conclude_run` leaves: something was produced, and no response is added.
  abbrev pub Concluded : Locals A → Locals A → Type 0
  Concluded l l' = (l'.raw_responses ≡ l.raw_responses) × (produced_nothing l' ≡ false)

  accept_handler_result-Concluded :
      (agent : A.Agent) (r : Option RunErrorHandlerResult) (l : Locals A)
      → Ensures (Concluded l) (accept_handler_result R agent r l)
  unfolding accept_handler_result use_handler_result produced_nothing extend_items
  accept_handler_result-Concluded agent none l = Ensures-raise _
  accept_handler_result-Concluded agent (some r) l =
      Ensures-after _ _ λ u. Ensures-pure _ (refl, refl)

  handle_max_turns-Concluded :
      (handler : Option (Log → RunErrorData A.Agent → Option RunErrorHandlerResult))
      (agent : A.Agent) (input : List InputItem) (l : Locals A)
      → Ensures (Concluded l) (handle_max_turns R handler agent input l)
  unfolding handle_max_turns
  handle_max_turns-Concluded none agent input l = Ensures-raise _
  handle_max_turns-Concluded (some handler) agent input l =
      Ensures-after _ _ λ r. accept_handler_result-Concluded agent r l

  pub conclude_run-Concluded :
      (agent : A.Agent) (input : List InputItem) (l : Locals A)
      → Ensures (Concluded l) (conclude_run R agent input l)
  unfolding conclude_run
  conclude_run-Concluded agent input l = go (produced_nothing l) refl
    where
      go :
          (b : Bool)
          → produced_nothing l ≡ b
          → Ensures (Concluded l) (elim b [
            | true ↦ handle_max_turns R R.config.max_turns_handler agent input l
            | false ↦ pure l
          ])
      go true h = handle_max_turns-Concluded R.config.max_turns_handler agent input l
      go false h = Ensures-pure l (refl, h)

-- The turns taken and the turns left make up the limit, and there is an answer or an interruption.
pub record IsComplete {A : Agents} {Trace SandboxRunState Context : Type 0} (max_turns : ℕ)
    (r : RunResult A (carried A Trace SandboxRunState Context)) : Type 0 where
  pub turns : length r.raw_responses + remaining_turns r.run_state ≡ max_turns
  pub responses : r.run_state.model_responses ≡ r.raw_responses
  pub items : r.run_state.session_items ≡ r.new_items
  pub produced :
      (is_some r.final_output || (not (is_nil r.output) || not (is_nil r.interruptions))) ≡ true

module _ {A : Agents} (R : AgentRunner A) {Trace SandboxRunState Context : Type 0}
    (snapshot : RunStateContextSnapshot (carried A Trace SandboxRunState Context)) where
  complete :
      (agent : A.Agent) (original_input : List InputItem) (l : Locals A)
      (results : List InputGuardrailResult)
      → length l.raw_responses ≤ R.config.max_turns
      → produced_nothing l ≡ false
      → IsComplete R.config.max_turns (run_result R snapshot agent original_input results l)
  unfolding run_result remaining_turns new produced_nothing
  complete agent original_input l results h k = record {
    turns = omega (arith, h);
    responses = refl;
    items = refl;
    produced = ground (arith, k);
  }

  pub run_items_internal-IsComplete :
      (agent : A.Agent) (original_input base_input : List InputItem)
      → Ensures
          (IsComplete R.config.max_turns)
          (run_items_internal R snapshot agent original_input base_input)
  unfolding run_items_internal
  run_items_internal-IsComplete agent original_input base_input = Ensures-after _ _ λ u.
      Ensures-after _ _ λ results.
        Ensures-bind (AtMost R R.config.max_turns (first_locals agent base_input)) _ _
          (run_turns-AtMost R R.config.max_turns (first_locals agent base_input))
          λ l h.
            Ensures-bind (Concluded R l) _ _ (conclude_run-Concluded R agent original_input l)
              λ l' k.
                Ensures-pure _
                  (complete agent original_input l' results (omega (arith, h, ap length k.0)) k.1)
