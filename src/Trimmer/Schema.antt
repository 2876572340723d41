-- ===== src/Trimmer/Schema.antt =====
-- Shorter descriptions of found tools, in
-- crates/agents-extensions/src/extensions/tool_output_trimmer.rs.
use openai_agents_rust.Prelude.{
  ℕ, String, Bool, false, ◌&&◌, ◌||◌, Option, none, some, ltb, str_eq, if◌then◌else◌,
}
use openai_agents_rust.Json.{
  Value, Values, Fields, string, array, object, nil, cons, end, field, lookup,
}
use openai_agents_rust.ToolIdentity.{concat}
use openai_agents_rust.Runner.Transcript.{take_text}
use openai_agents_rust.Trimmer.{byte_len}

-- `trim_json_schema`: what describes a schema is left out, at every depth.
abbrev describes : String → Bool
describes k =
    str_eq k "description" || (str_eq k "title" || (str_eq k "$comment" || str_eq k "examples"))

unfoldable mutual
  pub trim_json_schema : Fields → Fields
  trim_json_schema end = end
  trim_json_schema (field k v fs) =
      let rest = trim_json_schema fs in
      let trimmed = trim_schema_value v in if describes k then rest else field k trimmed rest

  trim_schema_value : Value → Value
  trim_schema_value (object fs) = object (trim_json_schema fs)
  trim_schema_value (array vs) = array (trim_schema_items vs)
  trim_schema_value v = v

  trim_schema_items : Values → Values
  trim_schema_items nil = nil
  trim_schema_items (cons (object fs) vs) =
      cons (object (trim_json_schema fs)) (trim_schema_items vs)
  trim_schema_items (cons v vs) = cons v (trim_schema_items vs)

abbrev shorten : ℕ → String → String
shorten n t = if ltb n (byte_len t) then concat (take_text n t) "..." else take_text n t

abbrev is_type : String → Option Value → Bool
is_type name none = false
is_type name (some v) = elim v [ string s ↦ str_eq s name | _ ↦ false ]

-- `trim_tool_search_tool`. Only fields that the object has are written, so the object keeps its order.
unfoldable mutual
  pub trim_tool_search_tool : ℕ → Value → Value
  trim_tool_search_tool n (object fs) = object (
      trim_tool_fields n (is_type "function" (lookup "type" fs))
        (is_type "namespace" (lookup "type" fs)) fs)
  trim_tool_search_tool n v = v

  -- The fields of a function, of a namespace or of neither.
  trim_tool_fields : ℕ → Bool → Bool → Fields → Fields
  trim_tool_fields n function namespace end = end
  trim_tool_fields n function namespace (field k v fs) =
      field k (trim_tool_field n k function namespace v) (trim_tool_fields n function namespace fs)

  trim_tool_field : ℕ → String → Bool → Bool → Value → Value
  trim_tool_field n k function namespace (string t) =
      if str_eq k "description" then string (shorten n t) else string t
  trim_tool_field n k function namespace (object fs) =
      if function && str_eq k "parameters" then object (trim_json_schema fs) else object fs
  trim_tool_field n k function namespace (array vs) =
      let trimmed = array (trim_tools n vs) in
      if namespace && str_eq k "tools" then trimmed else array vs
  trim_tool_field n k function namespace v = v

  pub trim_tools : ℕ → Values → Values
  trim_tools n nil = nil
  trim_tools n (cons v vs) = cons (trim_tool_search_tool n v) (trim_tools n vs)
