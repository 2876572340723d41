-- ===== src/Replay.antt =====
-- `compose_replay_input_items` of crates/agents-core/src/internal/items.rs: the input that replays
-- a stored run. Orphaned hosted-tool items are dropped from the base items, and the generated
-- items that the base already ends with are not sent again.
-- A `BTreeSet` is the list of what was inserted, read through `contains` alone.
pub mod Collects
pub mod Overlap
pub mod Pairing
mod Tests
use openai_agents_rust.Prelude.{
  ℕ, zero, suc, ◌+◌, ◌-◌, String, Bool, true, false, not, ◌&&◌, ◌||◌, Option, none, some, List, [],
  ◌∷◌, ◌++◌, str_eq, str_option_eq, nat_eq, if◌then◌else◌, length, take, drop, all, any, contains,
  min, is_some, or_option, filter_option, ◌>>=◌,
}
use Prim.Native.String
use openai_agents_rust.Json.{Value, get, as_str}
use openai_agents_rust.Items.{
  InputItem, text, json, RunItem, ReasoningItemIdPolicy, input_eq, run_items_to_input_items,
}

pub record HostedPairingInfo : Type 0 where
  pub shell_call_ids : List String
  pub shell_output_ids : List String
  pub tool_search_call_ids : List String
  pub tool_search_output_ids : List String
  pub matched_anonymous_tool_search_call_indexes : List ℕ
  pub matched_anonymous_tool_search_output_indexes : List ℕ

abbrev pub empty_pairing : HostedPairingInfo
empty_pairing = record {
  shell_call_ids = [];
  shell_output_ids = [];
  tool_search_call_ids = [];
  tool_search_output_ids = [];
  matched_anonymous_tool_search_call_indexes = [];
  matched_anonymous_tool_search_output_indexes = [];
}

unfoldable pub input_item_json : InputItem → Option Value
input_item_json (text t) = none
input_item_json (json v) = some v

-- `value.get(key).and_then(Value::as_str)`
abbrev pub get_str : String → Value → Option String
get_str k v = get k v >>= as_str

unfoldable pub item_type : Value → Option String
item_type v = get_str "type" v

abbrev pub is_empty_str : String → Bool
is_empty_str s = str_eq s ""

unfoldable pub call_id : Value → Option String
call_id v =
    filter_option (λ s. not (is_empty_str s)) (or_option (get "call_id" v) (get "id" v) >>= as_str)

unfoldable pub is_completed_hosted_item : Value → Bool
is_completed_hosted_item v = str_option_eq (get_str "status" v) (some "completed")

-- What an item is to the replay: the arms of the two `match item_type(value)`.
pub data HostedKind : Type 0 where
  shell_call shell_call_output tool_search_call tool_search_output : Option String → HostedKind
  other : HostedKind

unfoldable pub kind_of_type : Option String → Option String → HostedKind
kind_of_type none id = other
kind_of_type (some t) id =
    if str_eq t "shell_call"
    then shell_call id
    else if str_eq t "shell_call_output"
    then shell_call_output id
    else if str_eq t "tool_search_call"
    then tool_search_call id
    else if str_eq t "tool_search_output"
    then tool_search_output id
    else other

unfoldable pub hosted_kind : InputItem → HostedKind
unfolding kind_of_type item_type call_id
hosted_kind (text t) = other
hosted_kind (json v) = kind_of_type (item_type v) (call_id v)

-- `input_item_json(item).is_some_and(is_completed_hosted_item)`
unfoldable pub is_completed : InputItem → Bool
unfolding is_completed_hosted_item
is_completed (text t) = false
is_completed (json v) = is_completed_hosted_item v

-- The loop's state: the sets, and the stack of anonymous calls, its top at the head.
pub record PairingState : Type 0 where
  pub info : HostedPairingInfo
  pub anonymous_tool_search_calls : List ℕ

unfoldable pub pairing_step : ℕ → HostedKind → PairingState → PairingState
pairing_step index (shell_call (some id)) s = record s {
  info = record s.info { shell_call_ids = id ∷ s.info.shell_call_ids };
}
pairing_step index (shell_call_output (some id)) s = record s {
  info = record s.info { shell_output_ids = id ∷ s.info.shell_output_ids };
}
pairing_step index (tool_search_call (some id)) s = record s {
  info = record s.info { tool_search_call_ids = id ∷ s.info.tool_search_call_ids };
}
pairing_step index (tool_search_call none) s = record s {
  anonymous_tool_search_calls = index ∷ s.anonymous_tool_search_calls;
}
pairing_step index (tool_search_output (some id)) s = record s {
  info = record s.info { tool_search_output_ids = id ∷ s.info.tool_search_output_ids };
}
pairing_step index (tool_search_output none) s = elim s.anonymous_tool_search_calls [
  | [] ↦ s
  | call_index ∷ rest ↦ record {
    info = record s.info {
      matched_anonymous_tool_search_call_indexes =
          call_index ∷ s.info.matched_anonymous_tool_search_call_indexes;
      matched_anonymous_tool_search_output_indexes =
          index ∷ s.info.matched_anonymous_tool_search_output_indexes;
    };
    anonymous_tool_search_calls = rest;
  }
]
pairing_step index (shell_call none) s = s
pairing_step index (shell_call_output none) s = s
pairing_step index other s = s

-- The loop from position `index` on.
unfoldable pub pairing_from : ℕ → List InputItem → PairingState → PairingState
pairing_from index [] s = s
pairing_from index (item ∷ items) s =
    pairing_from (suc index) items (pairing_step index (hosted_kind item) s)

unfoldable pub hosted_pairing_info : List InputItem → HostedPairingInfo
unfolding pairing_from
hosted_pairing_info items =
    (pairing_from 0 items (record { info = empty_pairing; anonymous_tool_search_calls = [] })).info

unfoldable pub keep_kind : ℕ → HostedKind → Bool → HostedPairingInfo → Bool
keep_kind index (shell_call none) completed p = not completed
keep_kind index (shell_call (some id)) completed p = not completed || contains id p.shell_output_ids
keep_kind index (shell_call_output none) completed p = false
keep_kind index (shell_call_output (some id)) completed p = contains id p.shell_call_ids
keep_kind index (tool_search_call none) completed p =
    not completed || any (nat_eq index) p.matched_anonymous_tool_search_call_indexes
keep_kind index (tool_search_call (some id)) completed p =
    not completed || contains id p.tool_search_output_ids
keep_kind index (tool_search_output none) completed p =
    any (nat_eq index) p.matched_anonymous_tool_search_output_indexes
keep_kind index (tool_search_output (some id)) completed p = contains id p.tool_search_call_ids
keep_kind index other completed p = true

unfoldable pub should_keep_hosted_replay_item : ℕ → InputItem → HostedPairingInfo → Bool
unfolding keep_kind
should_keep_hosted_replay_item index item p =
    keep_kind index (hosted_kind item) (is_completed item) p

unfoldable pub sanitize_from : ℕ → HostedPairingInfo → List InputItem → List InputItem
sanitize_from index p [] = []
sanitize_from index p (item ∷ items) =
    let rest = sanitize_from (suc index) p items in
    if should_keep_hosted_replay_item index item p then item ∷ rest else rest

unfoldable pub sanitize_hosted_tool_replay_items : List InputItem → List InputItem
unfolding sanitize_from hosted_pairing_info
sanitize_hosted_tool_replay_items items = sanitize_from 0 (hosted_pairing_info items) items

-- The key under which two items count as the same call or the same server item.
unfoldable pub dedupe_key_of : Value → String → Option String
dedupe_key_of v kind =
    if is_some (get "role" v) || str_eq kind "message"
    then none
    else or_option
        (filter_option (λ id. not (str_eq id "__fake_id__")) (get_str "id" v) >>= λ id.
          some (String.◌++◌ (String.◌++◌ (String.◌++◌ "id:" kind) ":") id))
        (get_str "call_id" v >>= λ id.
          some (String.◌++◌ (String.◌++◌ (String.◌++◌ "call:" kind) ":") id))

unfoldable pub stable_replay_dedupe_key : InputItem → Option String
unfolding dedupe_key_of
stable_replay_dedupe_key (text t) = none
stable_replay_dedupe_key (json v) =
    or_option (get_str "type" v) (get_str "role" v) >>= dedupe_key_of v

unfoldable pub same_key : InputItem → InputItem → Bool
unfolding stable_replay_dedupe_key
same_key a b = elim (stable_replay_dedupe_key a) [
  | none ↦ false
  | some k ↦ elim (stable_replay_dedupe_key b) [ none ↦ false | some j ↦ str_eq k j ]
]

abbrev pub zip {ℓ} : {A : Type ℓ} → List A → List A → List (A × A)
zip [] ys = []
zip (x ∷ xs) [] = []
zip (x ∷ xs) (y ∷ ys) = (x, y) ∷ zip xs ys

-- The test of the search in `trailing_generated_overlap`.
unfoldable pub is_overlap : List InputItem → List InputItem → ℕ → Bool
is_overlap base generated n =
    let compared = zip (drop (length base - n) base) (take n generated) in
    all (λ p. input_eq p.0 p.1) compared && any (λ p. same_key p.0 p.1) compared

-- `(1..=n).rev().find(…).unwrap_or(0)`
unfoldable pub overlap_from : List InputItem → List InputItem → ℕ → ℕ
overlap_from base generated zero = 0
overlap_from base generated (suc n) =
    let rest = overlap_from base generated n in
    if is_overlap base generated (suc n) then suc n else rest

unfoldable pub trailing_generated_overlap : List InputItem → List InputItem → ℕ
unfolding overlap_from is_overlap
trailing_generated_overlap base generated =
    overlap_from base generated (min (length base) (length generated))

unfoldable pub compose_replay_input_items :
    List InputItem → List RunItem → ReasoningItemIdPolicy → List InputItem
unfolding sanitize_hosted_tool_replay_items trailing_generated_overlap
compose_replay_input_items base generated policy =
    let inputs = run_items_to_input_items generated policy in
    sanitize_hosted_tool_replay_items base ++ drop (trailing_generated_overlap base inputs) inputs
