-- ===== src/Tools/Answers.antt =====
-- Every tool call is answered: what an outcome of `execute_local_function_tools` of
-- crates/agents-core/src/internal/tool_execution.rs holds for the calls that it was given.
use openai_agents_rust.Prelude.{
  String, ◌≡◌, refl, sym, ap, ◌∙◌, ◌⊎◌, inl, inr, Option, none, some, List, [], ◌∷◌, ◌++◌, map,
  append-nil, append_assoc,
}
use openai_agents_rust.Items.{RunItem}
use openai_agents_rust.ToolIdentity.{ToolCall}
use openai_agents_rust.RunState.{ApprovalRecord, RunInterruption}
use openai_agents_rust.Tools.{FunctionToolResult, FunctionTool}
use openai_agents_rust.Tools.Exec.{
  pure, Ensures, Ensures-ask, Ensures-pure, Ensures-bind, Ensures-after, Ensures-weaken,
}
use openai_agents_rust.Tools.Execute.{
  ToolExecutionOutcome, ToolEnv, Flow, next, stop, Gate, open_gate, interrupt_run, reject_call,
  empty_outcome, run_approved, reject, interrupt, run_gated, run_call, run_calls,
  execute_local_function_tools,
}

abbrev pub item_call_id : RunItem → Option String
item_call_id (RunItem.tool_call_output n o id s) = id
item_call_id _ = none

abbrev pub item_ids : ToolExecutionOutcome → List (Option String)
item_ids o = map item_call_id o.new_items

abbrev pub result_ids : ToolExecutionOutcome → List (Option String)
result_ids o = map (λ (r : FunctionToolResult). r.call_id) o.tool_results

abbrev pub call_ids : List ToolCall → List (Option String)
call_ids = map (λ (c : ToolCall). some c.id)

-- `out` extends `acc` by an answer to each call.
pub record Answered (calls : List ToolCall) (acc out : ToolExecutionOutcome) : Type 0 where
  pub items : item_ids out ≡ item_ids acc ++ call_ids calls
  pub results : result_ids out ≡ result_ids acc ++ call_ids calls

-- `out` extends `acc` by answers to the calls before one call, and by an interruption for that call.
pub record Interrupted (calls : List ToolCall) (acc out : ToolExecutionOutcome) : Type 0 where
  pub before : List ToolCall
  pub call : ToolCall
  pub after : List ToolCall
  pub interruption : RunInterruption
  pub calls_split : calls ≡ before ++ call ∷ after
  pub answered : Answered before acc out
  pub added : out.interruptions ≡ acc.interruptions ++ interruption ∷ []
  pub for_call : interruption.call_id ≡ some call.id
  pub for_name : interruption.tool_name ≡ some call.name

-- What the loop over `calls` from `acc` comes to.
abbrev pub Outcome : List ToolCall → ToolExecutionOutcome → ToolExecutionOutcome → Type 0
Outcome calls acc out =
    (Answered calls acc out × (out.interruptions ≡ acc.interruptions)) ⊎ Interrupted calls acc out

-- What one round comes to.
abbrev Round : ToolCall → ToolExecutionOutcome → Flow → Type 0
Round call acc (next out) = Answered (call ∷ []) acc out × (out.interruptions ≡ acc.interruptions)
Round call acc (stop out) =
    (i : RunInterruption) × Answered [] acc out
    × (out.interruptions ≡ acc.interruptions ++ i ∷ [])
    × (i.call_id ≡ some call.id)
    × (i.tool_name ≡ some call.name)

map-concat {ℓ κ} :
    {A : Type ℓ} {B : Type κ} (f : A → B) (xs : List A) (x : A)
    → map f (xs ++ x ∷ []) ≡ map f xs ++ f x ∷ []
map-concat f [] x = refl
map-concat f (y ∷ ys) x = ap (◌∷◌ (f y)) (map-concat f ys x)

abbrev Answer : ToolCall → RunItem → FunctionToolResult → Type 0
Answer call item result = (item_call_id item ≡ some call.id) × (result.call_id ≡ some call.id)

append-Answered :
    (call : ToolCall) (acc out : ToolExecutionOutcome) (item : RunItem)
    (result : FunctionToolResult)
    → Answer call item result
    → out.new_items ≡ acc.new_items ++ item ∷ []
    → out.tool_results ≡ acc.tool_results ++ result ∷ []
    → Answered (call ∷ []) acc out
append-Answered call acc out item result h e f = record {
  items = rw (e, map-concat item_call_id acc.new_items item, h.0);
  results = rw (f, map-concat (λ (r : FunctionToolResult). r.call_id) acc.tool_results result, h.1);
}

module _ (env : ToolEnv) (tool : FunctionTool) (call : ToolCall) (acc : ToolExecutionOutcome) where
  run_approved-Round : Ensures (Round call acc) (run_approved env tool call acc)
  unfolding run_approved
  run_approved-Round = Ensures-after _ _ λ rejected. Ensures-after _ _ λ output.
      Ensures-after _ _ λ final.
        Ensures-after _ _
          λ _. Ensures-pure _ (append-Answered call acc _ _ _ (refl, refl) refl refl, refl)

  reject-Round : (a : ApprovalRecord) → Ensures (Round call acc) (pure (reject env tool call a acc))
  unfolding reject
  reject-Round a = Ensures-pure _ (append-Answered call acc _ _ _ (refl, refl) refl refl, refl)

  interrupt-Round : Ensures (Round call acc) (interrupt env call acc)
  unfolding interrupt
  interrupt-Round = Ensures-bind names _ _ (Ensures-ask _ (λ log. (refl, refl))) λ i n.
      Ensures-after _ _ λ _.
        Ensures-pure _
          (i, record { items = sym (append-nil _); results = sym (append-nil _) }, refl, n.0, n.1)
    where
      names : RunInterruption → Type 0
      names i = (i.call_id ≡ some call.id) × (i.tool_name ≡ some call.name)

  run_gated-Round : (g : Gate) → Ensures (Round call acc) (run_gated env g tool call acc)
  unfolding run_gated
  run_gated-Round open_gate = run_approved-Round
  run_gated-Round (reject_call a) = reject-Round a
  run_gated-Round interrupt_run = interrupt-Round

regroup :
    (a b c : List (Option String)) {m o : List (Option String)}
    → m ≡ a ++ b
    → o ≡ m ++ c
    → o ≡ a ++ (b ++ c)
regroup a b c h k = k ∙ ap (λ l. l ++ c) h ∙ append_assoc a b c

Answered-cons :
    {call : ToolCall} {calls : List ToolCall} {acc mid out : ToolExecutionOutcome}
    → Answered (call ∷ []) acc mid
    → Answered calls mid out
    → Answered (call ∷ calls) acc out
Answered-cons {call} {calls} {acc} {mid} {out} a b = record {
  items = regroup (item_ids acc) (call_ids (call ∷ [])) (call_ids calls) a.items b.items;
  results = regroup (result_ids acc) (call_ids (call ∷ [])) (call_ids calls) a.results b.results;
}

module _ (env : ToolEnv) where
  run_call-Round :
      (call : ToolCall) (acc : ToolExecutionOutcome)
      → Ensures (Round call acc) (run_call env call acc)
  unfolding run_call
  run_call-Round call acc =
      Ensures-after _ _ λ tool. Ensures-after _ _ λ _. run_gated-Round env tool call acc _

  -- A round that goes on, before the rest of the calls.
  Outcome-cons :
      (call : ToolCall) (calls : List ToolCall) (acc mid out : ToolExecutionOutcome)
      → Round call acc (next mid)
      → Outcome calls mid out
      → Outcome (call ∷ calls) acc out
  Outcome-cons call calls acc mid out (a, i) (inl (b, j)) = inl (Answered-cons a b, j ∙ i)
  Outcome-cons call calls acc mid out (a, i) (inr s) = inr (record {
    before = call ∷ s.before;
    call = s.call;
    after = s.after;
    interruption = s.interruption;
    for_call = s.for_call;
    for_name = s.for_name;
    calls_split = ap (◌∷◌ call) s.calls_split;
    answered = Answered-cons a s.answered;
    added = s.added ∙ ap (λ l. l ++ s.interruption ∷ []) i;
  })

  run_calls-Outcome :
      (calls : List ToolCall) (acc : ToolExecutionOutcome)
      → Ensures (Outcome calls acc) (run_calls env calls acc)
  unfolding run_calls
  run_calls-Outcome [] acc =
      Ensures-pure acc
        (inl (record { items = sym (append-nil _); results = sym (append-nil _) }, refl))
  run_calls-Outcome (call ∷ calls) acc =
      Ensures-bind (Round call acc) _ _ (run_call-Round call acc)
        λ flow r. go flow r (run_calls-Outcome calls)
    where
      go :
          (flow : Flow)
          → Round call acc flow
          → ((mid : ToolExecutionOutcome) → Ensures (Outcome calls mid) (run_calls env calls mid))
          → Ensures
              (Outcome (call ∷ calls) acc)
              (elim flow [ next acc' ↦ run_calls env calls acc' | stop acc' ↦ pure acc' ])
      go (next mid) r ih =
          Ensures-weaken (Outcome calls mid) _ (λ out. Outcome-cons call calls acc mid out r)
            (ih mid)
      go (stop out) (i, answered, added, for_call, for_name) ih = Ensures-pure out (
          inr (record {
            before = [];
            call = call;
            after = calls;
            interruption = i;
            calls_split = refl;
            answered = answered;
            added = added;
            for_call = for_call;
            for_name = for_name;
          }))

-- A run of the tools that returns has answered the calls, one output item and one result to each in
-- order with the call's id: either all of them, with no interruption, or those before one call, with
-- a single interruption that carries this call's id and name.
pub execute-Outcome :
    (env : ToolEnv) (calls : List ToolCall)
    → Ensures (Outcome calls empty_outcome) (execute_local_function_tools env calls)
unfolding execute_local_function_tools
execute-Outcome env calls = run_calls-Outcome env calls empty_outcome
