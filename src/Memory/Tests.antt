-- ===== src/Memory/Tests.antt =====
-- Runs of the code of crates/agents-core/src/memory, and instances of its laws.
use openai_agents_rust.Prelude.{String, ◌≡◌, refl, none, some, List, [], ◌∷◌, ◌++◌, length, min}
use openai_agents_rust.Items.{InputItem, OutputItem, RunItem, to_input_items}
use openai_agents_rust.Memory.{
  MemorySession, new, with_settings, add_items, apply_session_limit, get_items_with_limit, pop_item,
  prepare_input_with_session, save_result_to_session,
}
use openai_agents_rust.Memory.History.{limit-IsSuffix, pop-add, prepare-save}

abbrev say : String → InputItem
say t = InputItem.text t

abbrev session : MemorySession
session = add_items (say "a" ∷ say "b" ∷ say "c" ∷ []) (new "s")

shows_the_last :
    get_items_with_limit none (with_settings (record { limit = some 2 }) session)
    ≡ say "b" ∷ say "c" ∷ []
unfolding new add_items with_settings get_items_with_limit
shows_the_last = refl

limit-IsSuffix_example :
    (length (apply_session_limit (say "a" ∷ say "b" ∷ []) (some 1))
      ≡ min 1 (length (say "a" ∷ say "b" ∷ [])))
    × ((hidden : List InputItem) × (say "a" ∷ say "b" ∷ []
          ≡ hidden ++ apply_session_limit (say "a" ∷ say "b" ∷ []) (some 1)))
limit-IsSuffix_example = limit-IsSuffix (say "a" ∷ say "b" ∷ []) 1

pop-add_example :
    pop_item (add_items ((say "d" ∷ []) ++ say "e" ∷ []) session)
    ≡ (some (say "e"), add_items (say "d" ∷ []) session)
pop-add_example = pop-add session (say "d" ∷ []) (say "e")

prepare-save_example :
    (prepare_input_with_session
      (say "e" ∷ [])
      none
      (save_result_to_session
        (say "d" ∷ [])
        (RunItem.message_output (OutputItem.text "hi") ∷ [])
        session).1).0
    ≡ session.items
      ++ ((say "d" ∷ [])
          ++ (to_input_items (RunItem.message_output (OutputItem.text "hi") ∷ []) ++ say "e" ∷ []))
unfolding new add_items
prepare-save_example =
    prepare-save session (say "d" ∷ []) (RunItem.message_output (OutputItem.text "hi") ∷ [])
      (say "e" ∷ []) refl
