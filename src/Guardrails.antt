-- ===== src/Guardrails.antt =====
-- `run_input_guardrails` and `run_output_guardrails` of
-- crates/agents-core/src/internal/guardrails.rs. A guardrail is a function of what it checks: the
-- agent and the context that the code clones for each are the same for all of a run.
pub mod InOrder
pub mod Laws
mod Tests
use openai_agents_rust.Prelude.{◌≡◌, Bool, Option, none, some, List, [], ◌∷◌, map, find, any}
use openai_agents_rust.Items.{InputItem, OutputItem}
use openai_agents_rust.Errors.{
  GuardrailFunctionOutput, InputGuardrailResult, OutputGuardrailResult, AgentsError,
  input_guardrail_tripwire, output_guardrail_tripwire, Result, ok, err, ◌>>=◌,
}

-- `futures::future::try_join_all`, over the outcomes of the futures: all values in order, or one of
-- the errors, which depends on the schedule.
pub record TryJoinAll (A : Type 0) : Type 0 where
  pub join : List (Result A) → Result (List A)
  pub join_ok : (xs : List A) → join (map ok xs) ≡ ok xs
  pub ok_join : (rs : List (Result A)) (xs : List A) → join rs ≡ ok xs → rs ≡ map ok xs

abbrev pub input_triggered : InputGuardrailResult → Bool
input_triggered r = r.output.tripwire_triggered

abbrev pub output_triggered : OutputGuardrailResult → Bool
output_triggered r = r.output.tripwire_triggered

abbrev pub InputGuardrail : Type 0
InputGuardrail = List InputItem → Result InputGuardrailResult

abbrev pub OutputGuardrail : Type 0
OutputGuardrail = List OutputItem → Result OutputGuardrailResult

-- The rest of both functions once the results are there.
unfoldable pub check_tripwires {ℓ} :
    {A : Type ℓ} → (A → Bool) → (A → AgentsError) → List A → Result (List A)
check_tripwires triggered error results = elim (find triggered results) [
  | none ↦ ok results
  | some r ↦ err (error r)
]

unfoldable pub run_input_guardrails :
    TryJoinAll InputGuardrailResult
    → List InputGuardrail
    → List InputItem
    → Result (List InputGuardrailResult)
unfolding check_tripwires
run_input_guardrails futures [] input = ok []
run_input_guardrails futures (g ∷ gs) input = do
  results ← futures.join (map (λ (f : InputGuardrail). f input) (g ∷ gs))
  check_tripwires input_triggered input_guardrail_tripwire results

unfoldable pub run_output_guardrails :
    TryJoinAll OutputGuardrailResult
    → List OutputGuardrail
    → List OutputItem
    → Result (List OutputGuardrailResult)
unfolding check_tripwires
run_output_guardrails futures [] output = ok []
run_output_guardrails futures (g ∷ gs) output = do
  results ← futures.join (map (λ (f : OutputGuardrail). f output) (g ∷ gs))
  check_tripwires output_triggered output_guardrail_tripwire results
