-- ===== src/Errors.antt =====
-- The guardrail results of crates/agents-core/src/guardrail.rs and tool_guardrails.rs, and the
-- errors of errors.rs and exceptions.rs that carry them. The seconds of a `ToolTimeoutError` are a
-- float and are left out: no modelled code makes or reads one.
use openai_agents_rust.Prelude.{String, Bool, Option, List, ◌≡◌, refl}
use openai_agents_rust.Json.{Value}
use openai_agents_rust.Items.{OutputItem}

pub record GuardrailFunctionOutput : Type 0 where
  pub output_info : Option Value
  pub tripwire_triggered : Bool

pub record InputGuardrailResult : Type 0 where
  pub guardrail_name : String
  pub output : GuardrailFunctionOutput

pub record OutputGuardrailResult : Type 0 where
  pub guardrail_name : String
  pub agent_name : String
  pub agent_output : List OutputItem
  pub output : GuardrailFunctionOutput

pub data ToolGuardrailBehavior : Type 0 where
  allow : ToolGuardrailBehavior
  reject_content : String → ToolGuardrailBehavior
  raise_exception : ToolGuardrailBehavior

pub record ToolGuardrailFunctionOutput : Type 0 where
  pub output_info : Option Value
  pub behavior : ToolGuardrailBehavior

-- `ToolInputGuardrailResult` and `ToolOutputGuardrailResult`, which have the same fields
pub record ToolGuardrailResult : Type 0 where
  pub guardrail_name : String
  pub output : ToolGuardrailFunctionOutput

pub data AgentsError : Type 0 where
  model_provider_not_configured model_unavailable : AgentsError
  message max_turns_exceeded model_behavior user tool_timeout : String → AgentsError
  input_guardrail_tripwire : InputGuardrailResult → AgentsError
  output_guardrail_tripwire : OutputGuardrailResult → AgentsError
  tool_input_guardrail_tripwire : String → ToolGuardrailFunctionOutput → AgentsError
  tool_output_guardrail_tripwire : String → ToolGuardrailFunctionOutput → AgentsError

-- `Result<T, AgentsError>`
pub data Result {ℓ} (T : Type ℓ) : Type ℓ where
  ok : T → Result T
  err : AgentsError → Result T

-- The `?` operator, before the rest of the function.
infixl 5 ◌>>=◌
abbrev pub ◌>>=◌ {ℓ κ} : {T : Type ℓ} {U : Type κ} → Result T → (T → Result U) → Result U
err error >>= rest = err error
ok value >>= rest = rest value

module _ {ℓ κ} {T : Type ℓ} {U : Type κ} where
  -- A function that returns `Ok` came past its `?`.
  pub >>=-eq-ok :
      {u : U} (r : Result T) (rest : T → Result U)
      → (r >>= rest) ≡ ok u
      → (value : T) × (r ≡ ok value) × (rest value ≡ ok u)
  >>=-eq-ok (err error) rest h = cc
  >>=-eq-ok (ok value) rest h = (value, refl, h)

-- `Option::ok_or_else`
abbrev pub ok_or {ℓ} : {T : Type ℓ} → Option T → AgentsError → Result T
ok_or Option.none error = err error
ok_or (Option.some value) error = ok value
