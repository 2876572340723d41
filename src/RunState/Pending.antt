-- ===== src/RunState/Pending.antt =====
-- The pending approval under whose id `resolve_approval_key` of crates/agents-core/src/run_state.rs
-- keeps a decision.
use openai_agents_rust.Prelude.{
  String, ◌≡◌, refl, ap, sym, ◌∙◌, Option, some, arith, str_eq, eq_iff, false, subst, ◌⊎◌, ◌↔◌, inl,
  inr, none, true, ◌||◌, str_option_eq, Bool-cases, Option-cases,
}
use openai_agents_rust.RunState.{
  RunInterruption, RunInterruptionKind, is_tool_approval, handoff, input_guardrail,
  output_guardrail, tool_input_guardrail, tool_output_guardrail, external, tool_approval,
  resolve_approval_key,
}

-- The step waits for the decision on a tool call, and `id` is the id of this call or of its approval,
-- which is `a`.
pub record IsPending (step : Option RunInterruption) (a id : String) : Type 0 where
  pub interruption : RunInterruption
  pub is_current : step ≡ some interruption
  pub waits : interruption.kind ≡ some tool_approval
  pub waits_under : interruption.approval_id ≡ some a
  pub names : (interruption.call_id ≡ some id) ⊎ (a ≡ id)

-- Two ids are equal, or name the same pending approval.
abbrev pub SameApproval : Option RunInterruption → String → String → Type 0
SameApproval step id j = (id ≡ j) ⊎ ((a : String) × IsPending step a id × IsPending step a j)

is_tool_approval-eq :
    (k : Option RunInterruptionKind) → is_tool_approval k ≡ true → k ≡ some tool_approval
is_tool_approval-eq none h = cc
is_tool_approval-eq (some tool_approval) h = refl
is_tool_approval-eq (some handoff) h = cc
is_tool_approval-eq (some input_guardrail) h = cc
is_tool_approval-eq (some output_guardrail) h = cc
is_tool_approval-eq (some tool_input_guardrail) h = cc
is_tool_approval-eq (some tool_output_guardrail) h = cc
is_tool_approval-eq (some external) h = cc

str_option_eq_iff :
    (o : Option String) (s : String) → (str_option_eq o (some s) ≡ true) ↔ (o ≡ some s)
str_option_eq_iff none s = (λ h. cc, λ h. cc)
str_option_eq_iff (some t) s = (λ h. ap some ((eq_iff t s).0 h), λ h. (eq_iff t s).1 cc)

abbrev NotPending : Option RunInterruption → String → Type 0
NotPending step id = (a : String) → ¬ IsPending step a id

-- A decision under `id` is kept under the pending approval's id, or under `id` itself.
abbrev KeyCases : Option RunInterruption → String → Type 0
KeyCases step id =
    ((a : String) × IsPending step a id × (resolve_approval_key step id ≡ a))
    ⊎ (NotPending step id × (resolve_approval_key step id ≡ id))

names_eq :
    (interruption : RunInterruption) (a id : String)
    → (interruption.call_id ≡ some id) ⊎ (a ≡ id)
    → (str_option_eq interruption.call_id (some id) || str_eq a id) ≡ true
names_eq i a id (inl e) = ground (arith, (str_option_eq_iff i.call_id id).1 e)
names_eq i a id (inr e) = ground (arith, (eq_iff a id).1 e)

eq_names :
    (interruption : RunInterruption) (a id : String)
    → (str_option_eq interruption.call_id (some id) || str_eq a id) ≡ true
    → (interruption.call_id ≡ some id) ⊎ (a ≡ id)
eq_names i a id h = elim (Bool-cases (str_option_eq i.call_id (some id))) [
  | inl e ↦ inl ((str_option_eq_iff i.call_id id).0 e)
  | inr e ↦ inr ((eq_iff a id).0 (ground arith))
]

key_of_IsPending :
    (step : Option RunInterruption) (a id : String)
    → IsPending step a id
    → resolve_approval_key step id ≡ a
unfolding resolve_approval_key
key_of_IsPending step a id p =
    rw (p.is_current, p.waits, p.waits_under, names_eq p.interruption a id p.names)

pending_step_eq :
    (s : RunInterruption) (a id : String) (p : IsPending (some s) a id) → p.interruption ≡ s
pending_step_eq s a id p = let same = p.is_current in cc

not_waiting :
    (s : RunInterruption) (id : String) → is_tool_approval s.kind ≡ false → NotPending (some s) id
not_waiting s id other a p =
    let waits : s.kind ≡ some tool_approval =
      ap (λ (i : RunInterruption). i.kind) (sym (pending_step_eq s a id p)) ∙ p.waits in
    let same : is_tool_approval s.kind ≡ true = ap is_tool_approval waits in cc

not_found : (s : RunInterruption) (id : String) → s.approval_id ≡ none → NotPending (some s) id
not_found s id missing a p =
    let found : s.approval_id ≡ some a =
      ap (λ (i : RunInterruption). i.approval_id) (sym (pending_step_eq s a id p))
      ∙ p.waits_under in
    cc

not_named :
    (s : RunInterruption) (id b : String)
    → s.approval_id ≡ some b
    → (str_option_eq s.call_id (some id) || str_eq b id) ≡ false
    → NotPending (some s) id
not_named s id b found other a p =
    let step : p.interruption ≡ s = pending_step_eq s a id p in
    let waits : s.approval_id ≡ some a =
      ap (λ (i : RunInterruption). i.approval_id) (sym step) ∙ p.waits_under in
    let same : a ≡ b = let both = found in cc in
    let names : (s.call_id ≡ some id) ⊎ (b ≡ id) =
      subst (λ (i : RunInterruption). (i.call_id ≡ some id) ⊎ (b ≡ id)) step
        (subst (λ x. (p.interruption.call_id ≡ some id) ⊎ (x ≡ id)) same p.names) in
    let named = names_eq s b id names in cc

pub key_cases : (step : Option RunInterruption) (id : String) → KeyCases step id
unfolding resolve_approval_key
key_cases none id = inr (λ a p. let none_waits = p.is_current in cc, refl)
key_cases (some s) id = elim (Bool-cases (is_tool_approval s.kind)) [
  | inr other ↦ inr (not_waiting s id other, rw other refl)
  | inl waits ↦ elim (Option-cases s.approval_id) [
    | inl missing ↦ inr (not_found s id missing, rw (waits, missing))
    | inr (a, found) ↦ elim (Bool-cases (str_option_eq s.call_id (some id) || str_eq a id)) [
      | inl names ↦ inl (
        a,
        record {
          interruption = s;
          is_current = refl;
          waits = is_tool_approval-eq s.kind waits;
          waits_under = found;
          names = eq_names s a id names;
        },
        rw (waits, found, names),
      )
      | inr other ↦ inr (not_named s id a found other, rw (waits, found, other))
    ]
  ]
]

pub same_key-SameApproval :
    (step : Option RunInterruption) (id j : String)
    → resolve_approval_key step id ≡ resolve_approval_key step j
    → SameApproval step id j
same_key-SameApproval step id j h = go (key_cases step id) (key_cases step j)
  where
    other : (a b k : String) → IsPending step a k → a ≡ b → IsPending step a b
    other a b k p e = record {
      interruption = p.interruption;
      is_current = p.is_current;
      waits = p.waits;
      waits_under = p.waits_under;
      names = inr e;
    }

    go : KeyCases step id → KeyCases step j → SameApproval step id j
    go (inl (a, p, e)) (inl (b, q, f)) =
        let same : b ≡ a = sym f ∙ (sym h ∙ e) in inr (a, p, subst (λ x. IsPending step x j) same q)
    go (inl (a, p, e)) (inr (n, f)) = inr (a, p, other a j id p (sym e ∙ (h ∙ f)))
    go (inr (n, e)) (inl (b, q, f)) = inr (b, other b id j q (sym f ∙ (sym h ∙ e)), q)
    go (inr (n, e)) (inr (m, f)) = inl (sym e ∙ (h ∙ f))

pub SameApproval-same_key :
    (step : Option RunInterruption) (id j : String)
    → SameApproval step id j
    → resolve_approval_key step id ≡ resolve_approval_key step j
SameApproval-same_key step id j (inl e) = ap (resolve_approval_key step) e
SameApproval-same_key step id j (inr (a, p, q)) =
    key_of_IsPending step a id p ∙ sym (key_of_IsPending step a j q)
