-- ===== src/ToolIdentity.antt =====
-- Tool names and lookup keys: crates/agents-core/src/_tool_identity.rs, and the `ToolDefinition` of
-- tool.rs. A `HashMap` of tools is an association list, its newest entry first.
pub mod Laws
pub mod Trim
mod Tests
use openai_agents_rust.Prelude.{
  ℕ, String, Bool, true, false, not, ◌&&◌, ◌||◌, Option, none, some, List, [], ◌∷◌, ◌++◌, str_eq,
  nat_eq, leb, if◌then◌else◌, is_some, or_option, unwrap_or, filter_option, contains, ◌>>=◌,
}
use Prim.Native.Char.{code}
use Prim.Native.String
use mathlib.Core.Option
use openai_agents_rust.Json.{Value}

-- `char::is_whitespace`: the code points with the property White_Space.
unfoldable pub is_whitespace : ℕ → Bool
is_whitespace c =
    (leb 9 c && leb c 13)
    || (nat_eq c 32
        || (nat_eq c 133
            || (nat_eq c 160
                || (nat_eq c 5760
                    || ((leb 8192 c && leb c 8202)
                        || (nat_eq c 8232
                            || (nat_eq c 8233
                                || (nat_eq c 8239 || (nat_eq c 8287 || nat_eq c 12288)))))))))

unfoldable pub trim_start : String → String
trim_start String.[] = String.[]
trim_start (String.◌∷◌ c s) =
    let rest = trim_start s in if is_whitespace (code c) then rest else String.◌∷◌ c s

-- A whitespace character is dropped where nothing is left behind it.
abbrev pub push_trimmed : Bool → Prim.Native.Char.Char → String → String
push_trimmed true c String.[] = String.[]
push_trimmed true c (String.◌∷◌ d s) = String.◌∷◌ c (String.◌∷◌ d s)
push_trimmed false c s = String.◌∷◌ c s

unfoldable pub trim_end : String → String
trim_end String.[] = String.[]
trim_end (String.◌∷◌ c s) = push_trimmed (is_whitespace (code c)) c (trim_end s)

-- `str::trim`
unfoldable pub trim : String → String
unfolding trim_start trim_end
trim s = trim_end (trim_start s)

abbrev pub is_empty : String → Bool
is_empty s = str_eq s ""

abbrev pub concat : String → String → String
concat s t = String.◌++◌ s t

pub record ToolDefinition : Type 0 where
  pub name : String
  pub description : String
  pub namespace : Option String
  pub strict_json_schema : Bool
  pub input_json_schema : Option Value
  pub defer_loading : Bool

pub record ToolCall : Type 0 where
  pub id : String
  pub name : String
  pub arguments : String
  pub namespace : Option String

pub data FunctionToolLookupKey : Type 0 where
  bare : String → FunctionToolLookupKey
  namespaced : String → String → FunctionToolLookupKey
  deferred_top_level : String → FunctionToolLookupKey

-- `namespace.map(str::trim).filter(|value| !value.is_empty())`
unfoldable pub trimmed_namespace : Option String → Option String
trimmed_namespace namespace = filter_option (λ s. not (is_empty s)) (Option.map trim namespace)

-- The tests behind `let name = name.trim()`: `name` is trimmed here.
unfoldable pub is_reserved_trimmed : String → Option String → Bool
is_reserved_trimmed name none = false
is_reserved_trimmed name (some namespace) = not (is_empty name) && str_eq namespace name

unfoldable pub is_reserved_synthetic_tool_namespace : String → Option String → Bool
unfolding is_reserved_trimmed trimmed_namespace
is_reserved_synthetic_tool_namespace name namespace =
    is_reserved_trimmed (trim name) (trimmed_namespace namespace)

unfoldable pub qualify : String → Option String → String
qualify name none = name
qualify name (some namespace) = concat (concat namespace ".") name

unfoldable pub tool_qualified_name : String → Option String → Option String
unfolding qualify trimmed_namespace
tool_qualified_name name namespace =
    let name' = trim name in
    if is_empty name' then none else some (qualify name' (trimmed_namespace namespace))

unfoldable pub tool_trace_name : String → Option String → Option String
unfolding is_reserved_synthetic_tool_namespace tool_qualified_name
tool_trace_name name namespace =
    let name' = trim name in
    if is_empty name'
    then none
    else if is_reserved_synthetic_tool_namespace name' namespace
    then some name'
    else tool_qualified_name name' namespace

unfoldable pub lookup_key_of : String → Option String → FunctionToolLookupKey
lookup_key_of name none = bare name
lookup_key_of name (some namespace) = namespaced namespace name

unfoldable pub get_function_tool_lookup_key : String → Option String → Option FunctionToolLookupKey
unfolding is_reserved_trimmed lookup_key_of
get_function_tool_lookup_key name namespace =
    let name' = trim name in
    if is_empty name'
    then none
    else if is_reserved_synthetic_tool_namespace name' namespace
    then some (deferred_top_level name')
    else some (lookup_key_of name' (trimmed_namespace namespace))

unfoldable pub get_tool_call_namespace : ToolCall → Option String
get_tool_call_namespace call = filter_option (λ s. not (is_empty s)) call.namespace

unfoldable pub get_tool_call_name : ToolCall → Option String
get_tool_call_name call = if is_empty (trim call.name) then none else some call.name

unfoldable pub get_function_tool_lookup_key_for_call : ToolCall → Option FunctionToolLookupKey
unfolding get_function_tool_lookup_key get_tool_call_name get_tool_call_namespace
get_function_tool_lookup_key_for_call call = do
  name ← get_tool_call_name call
  get_function_tool_lookup_key name (get_tool_call_namespace call)

abbrev pub is_deferred_top : ToolDefinition → Bool
is_deferred_top d = d.defer_loading && not (is_some d.namespace)

unfoldable pub get_function_tool_lookup_key_for_definition :
    ToolDefinition → Option FunctionToolLookupKey
unfolding get_function_tool_lookup_key
get_function_tool_lookup_key_for_definition d =
    if is_deferred_top d
    then some (deferred_top_level d.name)
    else get_function_tool_lookup_key d.name d.namespace

abbrev pub not_deferred : Option FunctionToolLookupKey → List FunctionToolLookupKey
not_deferred none = []
not_deferred (some (deferred_top_level n)) = []
not_deferred (some (bare n)) = bare n ∷ []
not_deferred (some (namespaced s n)) = namespaced s n ∷ []

unfoldable pub get_function_tool_lookup_keys : ToolDefinition → List FunctionToolLookupKey
unfolding get_function_tool_lookup_key
get_function_tool_lookup_keys d =
    not_deferred (get_function_tool_lookup_key d.name d.namespace)
    ++ (if is_deferred_top d then deferred_top_level d.name ∷ [] else [])

unfoldable pub approval_key_value : FunctionToolLookupKey → String
unfolding tool_qualified_name
approval_key_value (bare name) = name
approval_key_value (namespaced namespace name) =
    unwrap_or (tool_qualified_name name (some namespace)) name
approval_key_value (deferred_top_level name) = concat "deferred_top_level:" name

-- The two pushes behind `if let Some(key) = resolved_lookup_key`.
unfoldable pub push_key : Option FunctionToolLookupKey → List String → List String
push_key none keys = keys
push_key (some key) keys =
    let value = approval_key_value key in if contains value keys then keys else keys ++ value ∷ []

-- `if approval_keys.is_empty()`
abbrev pub or_bare : String → List String → List String
or_bare name [] = name ∷ []
or_bare name (k ∷ ks) = k ∷ ks

unfoldable pub get_function_tool_approval_keys :
    String → Option String → Bool → Option FunctionToolLookupKey → List String
get_function_tool_approval_keys name namespace allow_bare_name_alias lookup_key =
    let name' = trim name in
    if is_empty name'
    then []
    else or_bare name' (
        push_key (or_option lookup_key (get_function_tool_lookup_key name' namespace))
          (if allow_bare_name_alias then name' ∷ [] else []))

unfoldable pub key_eq : FunctionToolLookupKey → FunctionToolLookupKey → Bool
key_eq (bare a) (bare b) = str_eq a b
key_eq (namespaced s a) (namespaced t b) = str_eq s t && str_eq a b
key_eq (deferred_top_level a) (deferred_top_level b) = str_eq a b
key_eq _ _ = false

abbrev pub ToolMap : Type 0
ToolMap = List (FunctionToolLookupKey × ToolDefinition)

unfoldable pub lookup_tool : FunctionToolLookupKey → ToolMap → Option ToolDefinition
unfolding key_eq
lookup_tool k [] = none
lookup_tool k ((j, d) ∷ m) = if key_eq j k then some d else lookup_tool k m

unfoldable pub insert_keys : List FunctionToolLookupKey → ToolDefinition → ToolMap → ToolMap
insert_keys [] d m = m
insert_keys (k ∷ ks) d m = insert_keys ks d ((k, d) ∷ m)

-- The loop of `build_function_tool_lookup_map`; `none` is the error of
-- `validate_function_tool_namespace_shape`.
unfoldable pub build_from : List ToolDefinition → ToolMap → Option ToolMap
build_from [] m = some m
build_from (d ∷ ds) m = elim (is_reserved_synthetic_tool_namespace (trim d.name) d.namespace) [
  | true ↦ none
  | false ↦ build_from ds (insert_keys (get_function_tool_lookup_keys d) d m)
]

unfoldable pub build_function_tool_lookup_map : List ToolDefinition → Option ToolMap
unfolding build_from
build_function_tool_lookup_map tools = build_from tools []
