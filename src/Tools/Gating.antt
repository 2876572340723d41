-- ===== src/Tools/Gating.antt =====
-- When `execute_local_function_tools` of crates/agents-core/src/internal/tool_execution.rs may run
-- the user's tool.
use openai_agents_rust.Prelude.{
  Bool, not, ◌&&◌, String, ◌≡◌, refl, ◌⊎◌, inl, inr, true, false, Option, none, some, List, [], ◌∷◌,
  All, arith, Bool-cases,
}
use openai_agents_rust.ToolIdentity.{ToolCall}
use openai_agents_rust.Errors.{
  AgentsError, Result, ok, err, ToolGuardrailBehavior, ToolGuardrailResult, allow, reject_content,
  raise_exception,
}
use openai_agents_rust.RunState.{ApprovalRecord, RunInterruption}
use openai_agents_rust.Tools.{
  tool_start, tool_approval_required, tool_end, input_guardrail, output_guardrail, format_error,
  agent_start, agent_end, list_tools, handoff, filter_handoff, max_turns_handler,
  filter_model_input, call_model, ToolOutput, text, FunctionTool, Event, invoke, Log,
  ToolInputGuardrail, ToolOutputGuardrail, approval_matches_tool_call,
}
use openai_agents_rust.Tools.Exec.{
  Exec, ◌>>=◌, pure, lift, Keeps, Keeps-bind, Keeps-pure, Keeps-call_user, Keeps-raise, Keeps-ask,
  Keeps-emit, Keeps-attempt, Keeps-All, keeps_rules,
}
use openai_agents_rust.Tools.Execute.{
  ToolExecutionOutcome, empty_outcome, ToolEnv, Flow, next, stop, Gate, open_gate, interrupt_run,
  reject_call, find_tool, approval_gate, gate, message_or, recover_with, recover, settle,
  invoke_tool, invoke_unless_rejected, run_tool_input_guardrails, run_tool_output_guardrails,
  run_approved, interrupt, run_gated, run_call, run_calls, execute_local_function_tools,
}

-- The tool of the call needs no approval, or the approval at hand was given for this call.
abbrev pub MayRun : ToolEnv → ToolCall → Type 0
MayRun env call =
    (tool : FunctionTool) × (find_tool env.runtime_tools call ≡ ok tool)
    × ((tool.needs_approval ≡ false)
        ⊎ ((interruption : RunInterruption) × (approval : ApprovalRecord) × (env.approved_execution
              ≡ some (interruption, approval))
            × (approval_matches_tool_call interruption approval call ≡ true)))

-- `Q` holds of each call for which a tool is invoked.
abbrev pub OnInvoke {ℓ} : (ToolCall → Type ℓ) → Event → Type ℓ
OnInvoke Q (invoke call) = Q call
OnInvoke Q _ = Unit

abbrev pub Allowed : ToolEnv → Event → Type 0
Allowed env = OnInvoke (MayRun env)

abbrev pub is_invoke : Event → Bool
is_invoke (invoke call) = true
is_invoke _ = false

abbrev pub is_call_model : Event → Bool
is_call_model (call_model input) = true
is_call_model _ = false

-- No tool is invoked and no model called.
abbrev pub is_quiet : Event → Bool
is_quiet e = not (is_invoke e) && not (is_call_model e)

pub OnInvoke-quiet {ℓ} : (Q : ToolCall → Type ℓ) (e : Event) → is_quiet e ≡ true → OnInvoke Q e
OnInvoke-quiet Q (invoke call) h = cc h
OnInvoke-quiet Q (tool_start call) h = tt
OnInvoke-quiet Q (tool_approval_required call) h = tt
OnInvoke-quiet Q (tool_end call) h = tt
OnInvoke-quiet Q (input_guardrail call) h = tt
OnInvoke-quiet Q (output_guardrail call) h = tt
OnInvoke-quiet Q (format_error call) h = tt
OnInvoke-quiet Q (agent_start a) h = tt
OnInvoke-quiet Q (agent_end a) h = tt
OnInvoke-quiet Q (list_tools a) h = tt
OnInvoke-quiet Q (handoff a b) h = tt
OnInvoke-quiet Q filter_handoff h = tt
OnInvoke-quiet Q max_turns_handler h = tt
OnInvoke-quiet Q (filter_model_input i) h = tt
OnInvoke-quiet Q (call_model i) h = tt

-- `P` holds of the run of each tool that may run, and of every quiet event.
pub record Permits (env : ToolEnv) (P : Event → Type 0) : Type 0 where
  pub runs : (call : ToolCall) → MayRun env call → P (invoke call)
  pub quiet : (e : Event) → is_quiet e ≡ true → P e

gate-open :
    (tool : FunctionTool) (approved : Option (RunInterruption × ApprovalRecord)) (call : ToolCall)
    → gate tool approved call ≡ open_gate
    → (tool.needs_approval ≡ false)
      ⊎ ((interruption : RunInterruption) × (approval : ApprovalRecord) × (approved
            ≡ some (interruption, approval))
          × (approval_matches_tool_call interruption approval call ≡ true))
unfolding gate approval_gate
gate-open tool none call h = inl (ground arith)
gate-open tool (some (i, a)) call h = elim (Bool-cases (approval_matches_tool_call i a call)) [
  | inl e ↦ inr (i, a, refl, e)
  | inr e ↦ inl (ground arith)
]

Keeps-behavior {ℓ} :
    {P : Event → Type 0} {A : Type ℓ} (b : ToolGuardrailBehavior) (x : Exec A) (y : String → Exec A)
    (z : Exec A)
    → Keeps P x
    → ((m : String) → Keeps P (y m))
    → Keeps P z
    → Keeps P (elim b [ allow ↦ x | reject_content m ↦ y m | raise_exception ↦ z ])
Keeps-behavior allow x y z hx hy hz = hx
Keeps-behavior (reject_content m) x y z hx hy hz = hy m
Keeps-behavior raise_exception x y z hx hy hz = hz

module _ (env : ToolEnv) {P : Event → Type 0} (perm : Permits env P) (call : ToolCall) where
  input-Keeps :
      (gs : List ToolInputGuardrail) (rejected : Option ToolOutput) (rs : List ToolGuardrailResult)
      → Keeps P (run_tool_input_guardrails gs call rejected rs)
  unfolding run_tool_input_guardrails
  input-Keeps [] rejected rs = search keeps_rules
  input-Keeps (g ∷ gs) rejected rs = Keeps-bind _ _ (Keeps-call_user _ _ (perm.quiet _ refl)) λ r.
      Keeps-behavior r.output.behavior _ _ _ (input-Keeps gs rejected _)
        (λ m. input-Keeps gs (some (text m)) _) (Keeps-raise _)

  output-Keeps :
      (gs : List ToolOutputGuardrail) (output : ToolOutput) (rs : List ToolGuardrailResult)
      → Keeps P (run_tool_output_guardrails gs call output rs)
  unfolding run_tool_output_guardrails
  output-Keeps [] output rs = search keeps_rules
  output-Keeps (g ∷ gs) output rs = Keeps-bind _ _ (Keeps-call_user _ _ (perm.quiet _ refl)) λ r.
      Keeps-behavior r.output.behavior _ _ _ (output-Keeps gs output _)
        (λ m. output-Keeps gs (text m) _) (Keeps-raise _)

  message_or-Keeps : (e : AgentsError) (m : Option String) → Keeps P (message_or e m)
  unfolding message_or
  message_or-Keeps e none = search keeps_rules
  message_or-Keeps e (some m) = search keeps_rules

  recover-Keeps :
      (e : AgentsError) (f : Option (Log → ToolCall → Result (Option String)))
      → Keeps P (recover_with call e f)
  unfolding recover_with
  recover-Keeps e none = Keeps-pure _
  recover-Keeps e (some f) =
      Keeps-bind _ _ (Keeps-call_user _ _ (perm.quiet _ refl)) (message_or-Keeps e)

  settle-Keeps : (r : Result ToolOutput) → Keeps P (settle env call r)
  unfolding settle recover
  settle-Keeps (ok output) = Keeps-pure _
  settle-Keeps (err e) = recover-Keeps e env.tool_error_formatter

  module _ (tool : FunctionTool) (may : MayRun env call) where
    invoke-Keeps : (r : Option ToolOutput) → Keeps P (invoke_unless_rejected env tool call r)
    unfolding invoke_unless_rejected invoke_tool
    invoke-Keeps none = Keeps-bind _ _ (Keeps-attempt _ _ (perm.runs call may)) settle-Keeps
    invoke-Keeps (some output) = Keeps-pure _

    run_approved-Keeps : (acc : ToolExecutionOutcome) → Keeps P (run_approved env tool call acc)
    unfolding run_approved
    run_approved-Keeps acc =
        Keeps-bind _ _ (input-Keeps tool.tool_input_guardrails none acc.input_guardrail_results)
          λ rejected. Keeps-bind _ _ (invoke-Keeps rejected.0) λ output.
            Keeps-bind _ _
              (output-Keeps tool.tool_output_guardrails output acc.output_guardrail_results)
              λ final. Keeps-bind _ _ (Keeps-emit _ (perm.quiet _ refl)) λ _. Keeps-pure _

module _ (env : ToolEnv) {P : Event → Type 0} (perm : Permits env P) where
  run_gated-Keeps :
      (call : ToolCall) (tool : FunctionTool) (acc : ToolExecutionOutcome) (g : Gate)
      → find_tool env.runtime_tools call ≡ ok tool
      → gate tool env.approved_execution call ≡ g
      → Keeps P (run_gated env g tool call acc)
  unfolding run_gated interrupt
  run_gated-Keeps call tool acc open_gate found h =
      run_approved-Keeps env perm call tool
        (tool, found, gate-open tool env.approved_execution call h) acc
  run_gated-Keeps call tool acc interrupt_run found h =
      Keeps-bind _ _ (Keeps-ask _)
        λ i. Keeps-bind _ _ (Keeps-emit _ (perm.quiet _ refl)) λ _. Keeps-pure _
  run_gated-Keeps call tool acc (reject_call a) found h = Keeps-pure _

  -- The rest of a block may use that a lifted result is no error.
  Keeps-lift_bind :
      (r : Result FunctionTool) (f : FunctionTool → Exec Flow)
      → ((tool : FunctionTool) → r ≡ ok tool → Keeps P (f tool))
      → Keeps P (lift r >>= f)
  unfolding ◌>>=◌ lift
  Keeps-lift_bind (ok tool) f k = record { at = (k tool refl).at }
  Keeps-lift_bind (err e) f k = record { at = λ log. ([], refl, tt) }

  run_call-Keeps : (call : ToolCall) (acc : ToolExecutionOutcome) → Keeps P (run_call env call acc)
  unfolding run_call
  run_call-Keeps call acc = Keeps-lift_bind _ _ λ tool found.
      Keeps-bind _ _ (Keeps-emit _ (perm.quiet _ refl))
        λ _. run_gated-Keeps call tool acc _ found refl

  flow-Keeps :
      (flow : Flow) (rest : ToolExecutionOutcome → Exec ToolExecutionOutcome)
      → ((acc : ToolExecutionOutcome) → Keeps P (rest acc))
      → Keeps P (elim flow [ next acc ↦ rest acc | stop acc ↦ pure acc ])
  flow-Keeps (next acc) rest h = h acc
  flow-Keeps (stop acc) rest h = Keeps-pure acc

  run_calls-Keeps :
      (calls : List ToolCall) (acc : ToolExecutionOutcome) → Keeps P (run_calls env calls acc)
  unfolding run_calls
  run_calls-Keeps [] acc = Keeps-pure acc
  run_calls-Keeps (call ∷ calls) acc =
      Keeps-bind _ _ (run_call-Keeps call acc)
        λ flow. flow-Keeps flow (run_calls env calls) (run_calls-Keeps calls)

  pub execute-Keeps : (calls : List ToolCall) → Keeps P (execute_local_function_tools env calls)
  unfolding execute_local_function_tools
  execute-Keeps calls = run_calls-Keeps calls empty_outcome

module _ (env : ToolEnv) where
  -- Whatever the calls, the guardrails and the tools do, and whether the run returns or fails: each
  -- call for which a tool is invoked has a tool that needs no approval, or is the call for which
  -- the approval at hand was given, if this holds of the events before.
  pub execute-Allowed :
      (calls : List ToolCall) (log : Log)
      → All (Allowed env) log
      → All (Allowed env) (execute_local_function_tools env calls log).1
  execute-Allowed calls log h =
      Keeps-All _
        (execute-Keeps env (record { runs = λ call may. may; quiet = OnInvoke-quiet (MayRun env) })
          calls)
        log h
