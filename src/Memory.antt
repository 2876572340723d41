-- ===== src/Memory.antt =====
-- The in-memory session of crates/agents-core/src/memory: session.rs, session_settings.rs and util.rs,
-- and how a run reads and writes a session, internal/session_persistence.rs, without a callback that
-- combines the history with the input.
pub mod History
mod Tests
use openai_agents_rust.Prelude.{
  ℕ, ◌-◌, String, Bool, true, false, not, ◌&&◌, Option, none, some, List, [], ◌∷◌, ◌++◌, length,
  drop, ltb, or_option, unwrap_or, reverse, if◌then◌else◌, is_some, ◌>>=◌,
}
use openai_agents_rust.Items.{InputItem, RunItem, to_input_items}
use openai_agents_rust.Errors.{Result, ok, err, user}

pub record SessionSettings : Type 0 where
  pub limit : Option ℕ

-- `SessionSettings::resolve`
unfoldable pub resolve : SessionSettings → Option SessionSettings → SessionSettings
resolve s none = s
resolve s (some override) = record { limit = or_option override.limit s.limit }

unfoldable pub resolve_session_limit : Option ℕ → Option SessionSettings → Option ℕ
resolve_session_limit explicit settings = or_option explicit (settings >>= λ s. s.limit)

unfoldable pub apply_session_limit : List InputItem → Option ℕ → List InputItem
apply_session_limit items none = items
apply_session_limit items (some limit) =
    if ltb limit (length items) then drop (length items - limit) items else items

pub record MemorySession : Type 0 where
  pub session_id : String
  pub session_settings : Option SessionSettings
  pub items : List InputItem

unfoldable pub new : String → MemorySession
new session_id = record {
  session_id = session_id;
  session_settings = some (record { limit = none });
  items = [];
}

unfoldable pub with_settings : SessionSettings → MemorySession → MemorySession
with_settings settings s = record s { session_settings = some settings }

unfoldable pub get_items_with_limit : Option ℕ → MemorySession → List InputItem
unfolding apply_session_limit resolve_session_limit
get_items_with_limit limit s =
    apply_session_limit s.items (resolve_session_limit limit s.session_settings)

unfoldable pub add_items : List InputItem → MemorySession → MemorySession
add_items items s = record s { items = s.items ++ items }

-- The last item, and the items without it.
unfoldable pub split_last : List InputItem → Option InputItem × List InputItem
split_last [] = (none, [])
split_last (x ∷ []) = (some x, [])
split_last (x ∷ y ∷ xs) = let (last, rest) = split_last (y ∷ xs) in (last, x ∷ rest)

unfoldable pub pop_item : MemorySession → Option InputItem × MemorySession
unfolding split_last
pop_item s = let (last, rest) = split_last s.items in (last, record s { items = rest })

unfoldable pub clear_session : MemorySession → MemorySession
clear_session s = record s { items = [] }

-- `prepare_input_with_session`: the prepared input, and the items that count as the session's new
-- input. An empty history leaves the input alone.
unfoldable pub prepare_input_with_session :
    List InputItem → Option SessionSettings → MemorySession → List InputItem × List InputItem
unfolding resolve get_items_with_limit resolve_session_limit
prepare_input_with_session input settings s =
    let resolved = resolve (unwrap_or s.session_settings (record { limit = none })) settings in
    (get_items_with_limit (resolve_session_limit none (some resolved)) s ++ input, input)

-- `save_result_to_session`: the number of items saved, and the session.
unfoldable pub save_result_to_session :
    List InputItem → List RunItem → MemorySession → ℕ × MemorySession
unfolding to_input_items add_items
save_result_to_session original_input new_items s =
    let items = original_input ++ to_input_items new_items in
    (length items, if ltb 0 (length items) then add_items items s else s)

-- `validate_session_conversation_settings`, for a session that keeps a conversation or not, and the
-- conversation's id, the previous response's id and the automatic use of it
unfoldable pub validate_session_conversation_settings :
    Bool → Option String → Option String → Bool → Result (Unit {0})
validate_session_conversation_settings true conversation_id previous auto = ok tt
validate_session_conversation_settings false none none false = ok tt
validate_session_conversation_settings false conversation_id previous auto = err (
    user
      "Session persistence cannot be combined with conversation_id, previous_response_id, or auto_previous_response_id.")
