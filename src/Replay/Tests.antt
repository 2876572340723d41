-- ===== src/Replay/Tests.antt =====
-- Runs of the replay code of crates/agents-core/src/internal/items.rs, and instances of its laws.
use openai_agents_rust.Prelude.{
  ℕ, ◌<◌, ◌≤◌, ◌-◌, String, ◌≡◌, ◌⊎◌, refl, none, some, List, [], ◌∷◌, ◌++◌, length, take, drop,
  All,
}
use openai_agents_rust.Json.{string, null, object, field, end, get, as_str, value_eq}
use openai_agents_rust.Items.{
  InputItem, text, json, RunItem, OutputItem, preserve, tool_call_value, input_eq, to_input_item,
  run_items_to_input_items, run_item_to_input_item,
}
use openai_agents_rust.Replay.{
  compose_replay_input_items, trailing_generated_overlap, hosted_kind, is_completed,
  sanitize_hosted_tool_replay_items, should_keep_hosted_replay_item, same_key, pairing_step,
}
use openai_agents_rust.Replay.Overlap.{Overlaps, trailing_overlap_complete}
use openai_agents_rust.Replay.Pairing.{IsPaired, sanitize-IsPaired}

abbrev search_call : RunItem
search_call = RunItem.tool_call "search" null (some "call-1") none

abbrev found_output : RunItem
found_output = RunItem.tool_call_output "search" (OutputItem.text "found") (some "call-1") none

abbrev done_message : RunItem
done_message = RunItem.message_output (OutputItem.text "done")

abbrev base_items : List InputItem
base_items =
    text "filtered"
    ∷ json (tool_call_value "search" null (some "call-1") none)
    ∷ json (
        object (
          field "call_id" (string "call-1") (
            field "namespace" null (
              field "output"
                (object (field "text" (string "found") (field "type" (string "text") end)))
                (field "tool_name" (string "search")
                  (field "type" (string "tool_call_output") end))))))
    ∷ []

-- composes_replay_without_duplicating_overlapping_generated_items
replays_without_duplicates :
    compose_replay_input_items base_items (search_call ∷ found_output ∷ done_message ∷ []) preserve
    ≡ base_items ++ text "done" ∷ []
unfolding compose_replay_input_items run_items_to_input_items run_item_to_input_item to_input_item
    trailing_generated_overlap input_eq value_eq same_key get as_str hosted_kind is_completed
    should_keep_hosted_replay_item pairing_step
replays_without_duplicates = refl

abbrev shell : String → String → InputItem
shell kind id = json (
    object (
      field "call_id" (string id)
        (field "status" (string "completed") (field "type" (string kind) end))))

abbrev hosted_items : List InputItem
hosted_items =
    shell "shell_call" "a"
    ∷ shell "shell_call_output" "b"
    ∷ shell "shell_call" "c"
    ∷ shell "shell_call_output" "c"
    ∷ []

drops_orphans :
    sanitize_hosted_tool_replay_items hosted_items
    ≡ shell "shell_call" "c" ∷ shell "shell_call_output" "c" ∷ []
unfolding sanitize_hosted_tool_replay_items get as_str hosted_kind is_completed
    should_keep_hosted_replay_item pairing_step
drops_orphans = refl

trailing_overlap_complete_example :
    let n = trailing_generated_overlap base_items base_items in
    (n ≤ length base_items)
    × (n ≤ length base_items)
    × ((n ≡ 0) ⊎ Overlaps base_items base_items n)
    × ((j : ℕ)
        → n < j
        → j ≤ length base_items
        → j ≤ length base_items
        → ¬ Overlaps base_items base_items j)
    × (base_items ++ drop n base_items ≡ take (length base_items - n) base_items ++ base_items)
trailing_overlap_complete_example = trailing_overlap_complete base_items base_items

sanitize-IsPaired_example :
    All
      (IsPaired (sanitize_hosted_tool_replay_items hosted_items))
      (sanitize_hosted_tool_replay_items hosted_items)
sanitize-IsPaired_example = sanitize-IsPaired hosted_items
