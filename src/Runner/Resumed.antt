-- ===== src/Runner/Resumed.antt =====
-- What `resume` of crates/agents-core/src/run.rs runs and returns.
use openai_agents_rust.Prelude.{
  ◌≡◌, ◌⊎◌, inl, inr, Bool, true, false, Option, none, some, List, [], ◌∷◌, All, String, ℕ, zero,
  suc, ap, ◌∙◌,
}
use openai_agents_rust.RunState.{
  ApprovalRecord, RunInterruption, RunStateContextSnapshot, remaining_turns, approval,
}
use openai_agents_rust.ToolIdentity.{ToolCall}
use openai_agents_rust.Errors.{Result, ok, ok_or, AgentsError}
use openai_agents_rust.Tools.{FunctionTool, Event, Log, approval_matches_tool_call}
use openai_agents_rust.Tools.Exec.{
  lift, Exec, ◌>>=◌, Keeps, Keeps-pure, Keeps-raise, Keeps-lift, Keeps-bind, Keeps-bind_eq,
  Keeps-All,
}
use openai_agents_rust.Tools.Gating.{MayRun, Permits, OnInvoke, OnInvoke-quiet, execute-Keeps}
use openai_agents_rust.Runner.{Agents, AgentRunner}
use openai_agents_rust.Runner.Turn.{get_all_function_tools, tool_env}
use openai_agents_rust.Runner.Run.{carried}
use openai_agents_rust.Runner.Approval.{NeedsNoApproval, RunPermits, tools-Keeps, run-Keeps}
use openai_agents_rust.Runner.Resume.{
  StateOf, resumed_runner, continue_run, resumed_tool_env, run_pending,
  resume_pending_tool_approval, resume_with, resume_turns, resume,
}

abbrev match_of : ToolCall → Option (RunInterruption × ApprovalRecord) → Bool
match_of call none = true
match_of call (some p) = approval_matches_tool_call p.0 p.1 call

module _ {A : Agents} (R : AgentRunner A) {T S C : Type 0} (state : StateOf A T S C) where
  -- The pending call of the state, with a decision of the state that approves it.
  abbrev pub ApprovedCall : ToolCall → Type 0
  ApprovedCall call =
      (interruption : RunInterruption) × (approval_id : String) × (decided : ApprovalRecord)
      × (state.current_step ≡ some interruption)
      × (interruption.approval_id ≡ some approval_id)
      × (approval approval_id state ≡ some decided)
      × (approval_matches_tool_call interruption decided call ≡ true)

  abbrev pub ResumeAllowed : Event → Type 0
  ResumeAllowed = OnInvoke (λ call. NeedsNoApproval A call ⊎ ApprovedCall call)

  module _ (fresh : RunStateContextSnapshot (carried A T S C))
      (restore_context : C → Result (Unit {0})) where
    run_permits : RunPermits A ResumeAllowed
    run_permits = record {
      runs = λ call need. inl need;
      quiet = OnInvoke-quiet (λ call. NeedsNoApproval A call ⊎ ApprovedCall call);
    }

    continue-Keeps :
        (agent : A.Agent) (s : StateOf A T S C)
        → Keeps ResumeAllowed (continue_run R fresh restore_context agent s)
    unfolding continue_run
    continue-Keeps agent s =
        Keeps-bind _ _
          (run-Keeps (resumed_runner R fresh restore_context s) run_permits fresh agent _ _
            (λ input. tt))
          λ r. Keeps-pure _

    permits :
        (agent : A.Agent) (log : Log) (tools : List FunctionTool) (interruption : RunInterruption)
        (approval_id : String) (decided : ApprovalRecord)
        → (get_all_function_tools A agent log).0 ≡ ok tools
        → state.current_step ≡ some interruption
        → interruption.approval_id ≡ some approval_id
        → approval approval_id state ≡ some decided
        → Permits
            (resumed_tool_env R fresh restore_context tools interruption decided)
            ResumeAllowed
    unfolding resumed_tool_env tool_env
    permits agent log tools interruption approval_id decided listed step id found = record {
      runs = allowed;
      quiet = OnInvoke-quiet (λ call. NeedsNoApproval A call ⊎ ApprovedCall call);
    }
      where
        allowed :
            (call : ToolCall)
            → MayRun (resumed_tool_env R fresh restore_context tools interruption decided) call
            → NeedsNoApproval A call ⊎ ApprovedCall call
        allowed call (tool, f, inl h) = inl (agent, log, tools, tool, listed, f, h)
        allowed call (tool, f, inr (i, a, h, m)) =
            inr (interruption, approval_id, decided, step, id, found, ap (match_of call) h ∙ m)

    Keeps-lift_eq :
        {X Y : Type 0} (r : Result X) (f : X → Exec Y)
        → ((x : X) → r ≡ ok x → Keeps ResumeAllowed (f x))
        → Keeps ResumeAllowed (lift r >>= f)
    unfolding lift
    Keeps-lift_eq r f k = Keeps-bind_eq _ _ (Keeps-lift r) λ x log e. k x e

    ok_or-eq-ok :
        {X : Type 0} (o : Option X) (e : AgentsError) (x : X) → ok_or o e ≡ ok x → o ≡ some x
    ok_or-eq-ok none e x h = cc h
    ok_or-eq-ok (some y) e x h = cc h

    run_pending-Keeps :
        (agent : A.Agent) (interruption : RunInterruption) (approval_id : String)
        (decided : ApprovalRecord) (call : ToolCall)
        → state.current_step ≡ some interruption
        → interruption.approval_id ≡ some approval_id
        → approval approval_id state ≡ some decided
        → Keeps ResumeAllowed
            (run_pending R fresh restore_context agent state interruption approval_id decided call)
    unfolding run_pending
    run_pending-Keeps agent interruption approval_id decided call step id found =
        Keeps-bind _ _ (Keeps-lift _) λ u.
          Keeps-bind_eq _ _
            (tools-Keeps (resumed_runner R fresh restore_context state) run_permits agent)
            λ tools log listed.
              Keeps-bind _ _
                (execute-Keeps _
                  (permits agent log tools interruption approval_id decided listed step id found)
                  (call ∷ []))
                λ outcome. Keeps-bind _ _ (Keeps-lift _) λ v. continue-Keeps agent _

    pending-Keeps :
        (agent : A.Agent)
        → Keeps ResumeAllowed (resume_pending_tool_approval R fresh restore_context agent state)
    unfolding resume_pending_tool_approval
    pending-Keeps agent = Keeps-lift_eq _ _ λ interruption step. Keeps-lift_eq _ _ λ approval_id id.
        Keeps-bind _ _ (Keeps-lift _) λ call_id. Keeps-bind _ _ (Keeps-lift _) λ call.
          Keeps-lift_eq _ _ λ decided found. Keeps-bind _ _ (Keeps-lift _) λ u.
            run_pending-Keeps agent interruption approval_id decided call (ok_or-eq-ok _ _ _ step)
              (ok_or-eq-ok _ _ _ id) (ok_or-eq-ok _ _ _ found)

    resume_with-Keeps :
        (b : Bool) (agent : A.Agent)
        → Keeps ResumeAllowed (resume_with R fresh restore_context b agent state)
    unfolding resume_with
    resume_with-Keeps true agent = pending-Keeps agent
    resume_with-Keeps false agent = continue-Keeps agent state

    resume_turns-Keeps :
        (n : ℕ) → Keeps ResumeAllowed (resume_turns R fresh restore_context n state)
    unfolding resume_turns
    resume_turns-Keeps zero = Keeps-raise _
    resume_turns-Keeps (suc n) = Keeps-bind _ _ (Keeps-lift _) λ agent. resume_with-Keeps _ agent

    -- Whatever the model and the user's code do, and whether the resumed run returns or fails: each
    -- call for which a tool is invoked is for a tool that needs no approval, or it is the pending call
    -- of the state, and the state holds a decision for it that approves it, if this holds of the events before.
    pub resume-ResumeAllowed :
        (log : Log)
        → All ResumeAllowed log
        → All ResumeAllowed (resume R fresh restore_context state log).1
    unfolding resume
    resume-ResumeAllowed log h = Keeps-All _ (resume_turns-Keeps (remaining_turns state)) log h
