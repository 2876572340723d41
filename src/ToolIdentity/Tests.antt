-- ===== src/ToolIdentity/Tests.antt =====
-- Runs of crates/agents-core/src/_tool_identity.rs, and instances of its laws.
use openai_agents_rust.Prelude.{
  String, ◌≡◌, ◌↔◌, refl, Bool, true, false, not, Option, none, some, List, [], ◌∷◌, any, is_some,
}
use openai_agents_rust.ToolIdentity.{
  ToolDefinition, ToolCall, bare, namespaced, deferred_top_level, is_whitespace, trim,
  get_function_tool_lookup_key, get_function_tool_lookup_key_for_call,
  get_function_tool_lookup_key_for_definition, get_function_tool_lookup_keys, push_key,
  approval_key_value, get_function_tool_approval_keys, is_reserved_synthetic_tool_namespace,
  ToolMap, lookup_tool, insert_keys, build_function_tool_lookup_map,
}
use openai_agents_rust.ToolIdentity.Trim.{trim_idem}
use openai_agents_rust.ToolIdentity.Laws.{
  last_with, distinct, reserved, lookup-build, build-is_some, key_for_call-key_for_definition,
  approval_keys_distinct,
}

abbrev tool : String → Option String → Bool → ToolDefinition
tool name namespace defer_loading = record {
  name = name;
  description = "";
  namespace = namespace;
  strict_json_schema = true;
  input_json_schema = none;
  defer_loading = defer_loading;
}

-- creates_namespaced_and_deferred_lookup_keys
creates_keys :
    (get_function_tool_lookup_key "search" (some "knowledge")
      ≡ some (namespaced "knowledge" "search"))
    × (get_function_tool_lookup_key "search" (some "search") ≡ some (deferred_top_level "search"))
    × (get_function_tool_lookup_key "  search " (some "  ") ≡ some (bare "search"))
unfolding get_function_tool_lookup_key is_reserved_synthetic_tool_namespace trim is_whitespace
creates_keys = (refl, refl, refl)

-- computes_approval_keys
computes_approval_keys :
    get_function_tool_approval_keys "search"
      (some "knowledge")
      true
      (some (namespaced "knowledge" "search"))
    ≡ "search" ∷ "knowledge.search" ∷ []
unfolding get_function_tool_approval_keys push_key approval_key_value trim is_whitespace
computes_approval_keys = refl

abbrev tools : List ToolDefinition
tools = tool "search" none true ∷ tool "search" (some "knowledge") false ∷ []

-- builds_lookup_map_for_deferred_tools
abbrev built : ToolMap
built =
    (namespaced "knowledge" "search", tool "search" (some "knowledge") false)
    ∷ (deferred_top_level "search", tool "search" none true)
    ∷ (bare "search", tool "search" none true)
    ∷ []

builds_map : build_function_tool_lookup_map tools ≡ some built
unfolding build_function_tool_lookup_map insert_keys get_function_tool_lookup_keys
    get_function_tool_lookup_key is_reserved_synthetic_tool_namespace trim is_whitespace
builds_map = refl

lookup-build_example :
    lookup_tool (deferred_top_level "search") built
    ≡ last_with (deferred_top_level "search") tools none
lookup-build_example = lookup-build (deferred_top_level "search") tools built builds_map

build-is_some_example : is_some (build_function_tool_lookup_map tools) ≡ not (any reserved tools)
build-is_some_example = build-is_some tools

abbrev call : ToolCall
call = record { id = "call-1"; name = "search"; arguments = "{}"; namespace = some "knowledge" }

key_for_call-key_for_definition_example :
    get_function_tool_lookup_key_for_call call
    ≡ get_function_tool_lookup_key_for_definition (tool "search" (some "knowledge") false)
key_for_call-key_for_definition_example =
    key_for_call-key_for_definition call (tool "search" (some "knowledge") false) refl refl refl

approval_keys_distinct_example :
    (distinct (get_function_tool_approval_keys "search" none true none) ≡ true)
    × ((get_function_tool_approval_keys "search" none true none ≡ []) ↔ (trim "search" ≡ ""))
approval_keys_distinct_example = approval_keys_distinct "search" none true none

trim_idem_example : trim (trim "  search\t") ≡ trim "  search\t"
trim_idem_example = trim_idem "  search\t"
