-- ===== src/RunState/Approvals.antt =====
-- What the approval decisions of crates/agents-core/src/run_state.rs do.
use openai_agents_rust.Prelude.{
  String, ◌≡◌, refl, ap, ◌∙◌, fun_ext, Bool, Option, some, arith, str_eq, eq_iff, if◌then◌else◌,
  ◌>>=◌, ◌⊎◌, inl, inr, Bool-cases,
}
use openai_agents_rust.RunState.{
  Carried, RunState, RunInterruption, ApprovalRecord, Approvals, tool_approval, insert, approval,
  decision, decide_for_tool, approve_for_tool, reject_for_tool, resolve_approval_key,
}
use openai_agents_rust.RunState.Pending.{
  IsPending, SameApproval, key_cases, same_key-SameApproval, SameApproval-same_key,
}

insert-insert :
    (k : String) (r r' : ApprovalRecord) (m : Approvals) → insert k r (insert k r' m) ≡ insert k r m
insert-insert k r r' m = fun_ext (λ j. ground arith)

-- The record of a decision: for a pending approval under its id and for its call, and otherwise
-- under the id given.
pub record Records (step : Option RunInterruption) (approved : Bool) (id : String)
    (tool_name reason : Option String) (r : ApprovalRecord) : Type 0 where
  pub answer : r.approved ≡ approved
  pub because : r.reason ≡ reason
  pub tool : r.tool_name ≡ tool_name
  pub kept :
      ((a : String) × (p : IsPending step a id) × (r.approval_id ≡ some a)
        × (r.call_id ≡ p.interruption.call_id)
        × (r.namespace ≡ p.interruption.namespace))
      ⊎ (((a : String) → ¬ IsPending step a id) × (r.approval_id ≡ some id))

decision-Records :
    (step : Option RunInterruption) (approved : Bool) (id : String)
    (tool_name reason : Option String)
    → Records step approved id tool_name reason
        (decision approved (resolve_approval_key step id) step tool_name reason)
unfolding decision
decision-Records step approved id tool_name reason = record {
  answer = refl;
  because = refl;
  tool = refl;
  kept = elim (key_cases step id) [
    | inl (a, p, e) ↦ inl (
      a,
      p,
      ap some e,
      ap (λ (o : Option RunInterruption). o >>= λ i. i.call_id) p.is_current,
      ap (λ (o : Option RunInterruption). o >>= λ i. i.namespace) p.is_current,
    )
    | inr (n, e) ↦ inr (n, ap some e)
  ];
}

module _ {C : Carried} (s : RunState C) where
  looked_up :
      (approved : Bool) (id j : String) (tool_name reason : Option String)
      → let key = resolve_approval_key s.current_step id in
        approval j (decide_for_tool approved id tool_name reason s) ≡ (
          if str_eq key (resolve_approval_key s.current_step j)
          then some (decision approved key s.current_step tool_name reason)
          else approval j s)
  unfolding approval decide_for_tool
  looked_up approved id j tool_name reason = refl

  -- After a decision under `id`, a lookup under `j` finds a record of this decision, if the two ids
  -- are equal or are both ids of the tool call that waits, its own or its approval's, and otherwise
  -- it finds what it found before. The record has the answer, the reason and the tool's name of the
  -- decision, and the id of the waiting approval with its call id and namespace, or the id of the
  -- decision if none waits under this id.
  pub approval-decide :
      (approved : Bool) (id j : String) (tool_name reason : Option String)
      → (SameApproval s.current_step id j
          × ((r : ApprovalRecord) × (approval j (decide_for_tool approved id tool_name reason s)
                ≡ some r)
              × Records s.current_step approved id tool_name reason r))
        ⊎ ((¬ SameApproval s.current_step id j)
            × (approval j (decide_for_tool approved id tool_name reason s) ≡ approval j s))
  approval-decide approved id j tool_name reason =
      let key = resolve_approval_key s.current_step id in
      let found = looked_up approved id j tool_name reason in
      elim (Bool-cases (str_eq key (resolve_approval_key s.current_step j))) [
        | inl e ↦ inl (
          same_key-SameApproval s.current_step id j ((eq_iff _ _).0 e),
          (
            decision approved key s.current_step tool_name reason,
            found ∙ rw e refl,
            decision-Records s.current_step approved id tool_name reason,
          ),
        )
        | inr e ↦ inr (
          λ same.
              let same_key = (eq_iff _ _).1 (SameApproval-same_key s.current_step id j same) in cc,
          found ∙ rw e refl,
        )
      ]

  -- A rejection replaces an earlier approval under the same id, whatever names and reasons they give:
  -- the state is as if the approval had not been made.
  reject-approve :
      (id : String) (tool_name reason tool_name' reason' : Option String)
      → reject_for_tool id tool_name reason (approve_for_tool id tool_name' reason' s)
        ≡ reject_for_tool id tool_name reason s
  unfolding approve_for_tool reject_for_tool
  reject-approve id tool_name reason tool_name' reason' =
      ap (λ m. record s { context_snapshot = record s.context_snapshot { approvals = m } })
        (insert-insert (resolve_approval_key s.current_step id) _ _ s.context_snapshot.approvals)

-- While a tool approval is pending, deciding under the call's id and deciding under the approval's
-- id lead to the same state.
pub decide-call_id :
    {C : Carried} (s : RunState C) (step : RunInterruption) (a c : String) (approved : Bool)
    (tool_name reason : Option String)
    → s.current_step ≡ some step
    → step.kind ≡ some tool_approval
    → step.approval_id ≡ some a
    → step.call_id ≡ some c
    → decide_for_tool approved c tool_name reason s ≡ decide_for_tool approved a tool_name reason s
unfolding decide_for_tool
decide-call_id s step a c approved tool_name reason cur k h e =
    ap
      (λ key. record s {
        context_snapshot = record s.context_snapshot {
          approvals =
              insert key (decision approved key s.current_step tool_name reason)
                s.context_snapshot.approvals;
        };
      })
      same
  where
    waiting : (id : String) → (step.call_id ≡ some id) ⊎ (a ≡ id) → IsPending s.current_step a id
    waiting id n = record {
      interruption = step;
      is_current = cur;
      waits = k;
      waits_under = h;
      names = n;
    }

    same : resolve_approval_key s.current_step c ≡ resolve_approval_key s.current_step a
    same =
        SameApproval-same_key s.current_step c a (inr (a, waiting c (inl e), waiting a (inr refl)))
