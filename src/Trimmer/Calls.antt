-- ===== src/Trimmer/Calls.antt =====
-- Which items count as recent, and which tools were called, in
-- crates/agents-extensions/src/extensions/tool_output_trimmer.rs.
use openai_agents_rust.Prelude.{
  ℕ, suc, String, Bool, true, false, ◌||◌, Option, none, some, List, [], ◌∷◌, reverse, length, leb,
  str_eq, if◌then◌else◌, or_option, unwrap_or, ◌>>=◌,
}
use openai_agents_rust.Json.{Value, get, as_str}
use openai_agents_rust.Items.{InputItem}
use openai_agents_rust.ToolIdentity.{concat}
use openai_agents_rust.Trimmer.{ToolOutputTrimmer}

abbrev is_role_user : Option String → Bool
is_role_user none = false
is_role_user (some role) = str_eq role "user"

unfoldable pub is_user_message : InputItem → Bool
unfolding get as_str
is_user_message (InputItem.text t) = true
is_user_message (InputItem.json v) = is_role_user (get "role" v >>= as_str)

-- The loop from the last item on: the items before and with the present one, in reverse.
unfoldable pub boundary_from : ℕ → ℕ → List InputItem → ℕ
unfolding is_user_message
boundary_from recent_turns count [] = 0
boundary_from recent_turns count (item ∷ before) =
    let next = boundary_from recent_turns (suc count) before in
    let skipped = boundary_from recent_turns count before in
    if is_user_message item
    then if leb recent_turns (suc count) then length before else next
    else skipped

unfoldable pub find_recent_boundary : ToolOutputTrimmer → List InputItem → ℕ
unfolding boundary_from
find_recent_boundary t items = boundary_from t.recent_turns 0 (reverse items)

unfoldable extract_tool_names : Value → List String
unfolding get as_str
extract_tool_names v = elim (or_option (get "tool_name" v) (get "name" v) >>= as_str) [
  | none ↦ []
  | some name ↦ elim (get "namespace" v >>= as_str) [
    | none ↦ name ∷ []
    | some namespace ↦ concat (concat namespace ".") name ∷ name ∷ []
  ]
]

abbrev call_id_of : Value → Option String
call_id_of v = or_option (get "call_id" v) (get "id" v) >>= as_str

-- `BTreeMap<String, Vec<String>>`, the newest entry first
abbrev pub CallNames : Type 0
CallNames = List (String × List String)

unfoldable pub names_of : String → CallNames → Option (List String)
names_of id [] = none
names_of id ((j, names) ∷ m) = let rest = names_of id m in if str_eq j id then some names else rest

abbrev record_names : Option String → List String → CallNames → CallNames
record_names none names m = m
record_names (some id) [] m = m
record_names (some id) (n ∷ names) m = (id, n ∷ names) ∷ m

abbrev names_by_type : String → Value → CallNames → CallNames
names_by_type item_type v m =
    if str_eq item_type "function_call" || str_eq item_type "tool_call"
    then record_names (call_id_of v) (extract_tool_names v) m
    else if str_eq item_type "tool_search_call"
    then record_names (call_id_of v) ("tool_search" ∷ []) m
    else m

unfoldable pub call_names_from : List InputItem → CallNames → CallNames
unfolding get as_str extract_tool_names
call_names_from [] m = m
call_names_from (InputItem.text t ∷ items) m = call_names_from items m
call_names_from (InputItem.json v ∷ items) m =
    call_names_from items
      (elim (get "type" v >>= as_str) [ none ↦ m | some ty ↦ names_by_type ty v m ])

abbrev pub build_call_id_to_names : List InputItem → CallNames
build_call_id_to_names items = call_names_from items []

abbrev default_names : String → List String
default_names item_type = if str_eq item_type "tool_search_output" then "tool_search" ∷ [] else []

abbrev pub tool_names : CallNames → String → Value → List String
tool_names m item_type v =
    unwrap_or (names_of (unwrap_or (call_id_of v) "") m) (default_names item_type)
