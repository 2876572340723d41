-- ===== src/Guardrails/Tests.antt =====
-- Instances of the laws of crates/agents-core/src/internal/guardrails.rs.
use openai_agents_rust.Prelude.{◌≡◌, ◌↔◌, refl, Bool, true, false, none, List, [], ◌∷◌, map, any}
use openai_agents_rust.Items.{text}
use openai_agents_rust.Errors.{
  InputGuardrailResult, OutputGuardrailResult, input_guardrail_tripwire, ok, err,
}
use openai_agents_rust.Guardrails.{
  InputGuardrail, OutputGuardrail, input_triggered, output_triggered, run_input_guardrails,
  run_output_guardrails,
}
use openai_agents_rust.Guardrails.InOrder.{sequential}
use openai_agents_rust.Guardrails.Laws.{
  FirstOf, run_input_guardrails-ok, run_input_guardrails-tripped, run_output_guardrails-ok,
}

abbrev result : Bool → InputGuardrailResult
result triggered = record {
  guardrail_name = "g";
  output = record { output_info = none; tripwire_triggered = triggered };
}

abbrev guardrails : List InputGuardrail
guardrails = (λ input. ok (result false)) ∷ (λ input. ok (result true)) ∷ []

abbrev passing : List InputGuardrail
passing = (λ input. ok (result false)) ∷ []

run_input_guardrails-ok_example :
    (run_input_guardrails sequential passing (text "hi" ∷ []) ≡ ok (result false ∷ [])) ↔ (
      (map (λ (g : InputGuardrail). g (text "hi" ∷ [])) passing ≡ map ok (result false ∷ []))
      × (any input_triggered (result false ∷ []) ≡ false))
run_input_guardrails-ok_example =
    run_input_guardrails-ok sequential passing (text "hi" ∷ []) (result false ∷ [])

run_input_guardrails-tripped_example :
    (run_input_guardrails sequential guardrails (text "hi" ∷ [])
      ≡ err (input_guardrail_tripwire (result true)))
    ↔ FirstOf input_triggered (result false ∷ result true ∷ []) (result true)
run_input_guardrails-tripped_example =
    run_input_guardrails-tripped sequential guardrails (text "hi" ∷ [])
      (result false ∷ result true ∷ []) (result true) refl

abbrev output_result : OutputGuardrailResult
output_result = record {
  guardrail_name = "g";
  agent_name = "assistant";
  agent_output = [];
  output = record { output_info = none; tripwire_triggered = false };
}

abbrev output_guardrails : List OutputGuardrail
output_guardrails = (λ output. ok output_result) ∷ []

run_output_guardrails-ok_example :
    (run_output_guardrails sequential output_guardrails [] ≡ ok (output_result ∷ [])) ↔ (
      (map (λ (g : OutputGuardrail). g []) output_guardrails ≡ map ok (output_result ∷ []))
      × (any output_triggered (output_result ∷ []) ≡ false))
run_output_guardrails-ok_example =
    run_output_guardrails-ok sequential output_guardrails [] (output_result ∷ [])
