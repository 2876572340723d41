-- ===== src/Conversation/Tests.antt =====
-- Runs of the code of crates/agents-core/src/internal/oai_conversation.rs, and instances of its laws.
use openai_agents_rust.Prelude.{
  ℕ, ◌+◌, String, true, none, some, List, [], ◌∷◌, ◌≡◌, refl, map, All,
}
use openai_agents_rust.Json.{string}
use openai_agents_rust.Items.{
  InputItem, OutputItem, RunItem, preserve, run_item_to_input_item, to_input_item,
}
use openai_agents_rust.Runner.Transcript.{decimal, decimal_from}
use openai_agents_rust.Conversation.Sources.{Placed, source_indices}
use openai_agents_rust.Conversation.Matching.{IsAssignment, source_indices-IsAssignment}
use openai_agents_rust.Conversation.Tracker.{
  Tracker, Received, new, prepare_input, mark_input_as_sent_with_sources, rewind_input,
  apply_response,
}
use openai_agents_rust.Conversation.Once.{Unseen, prepare_input-apply_response}

abbrev print : InputItem → String
print (InputItem.text t) = t
print (InputItem.json (string s)) = s
print (InputItem.json v) = "json"

abbrev address : ℕ → ℕ
address n = 100 + n

abbrev text_at : String → ℕ → Placed
text_at t a = record { item = InputItem.text t; address = a }

abbrev three : List Placed
three = text_at "a" 10 ∷ text_at "b" 11 ∷ text_at "a" 12 ∷ []

-- The filter moves the last item, rewrites one and adds one.
abbrev four : List Placed
four = text_at "a" 12 ∷ text_at "new" 20 ∷ text_at "b" 21 ∷ text_at "more" 22 ∷ []

traces_back : source_indices print three four ≡ some 2 ∷ some 0 ∷ some 1 ∷ none ∷ []
unfolding source_indices
traces_back = refl

source_indices-IsAssignment_example : IsAssignment three four (source_indices print three four)
source_indices-IsAssignment_example = source_indices-IsAssignment print three four

abbrev started : Tracker
started =
    (prepare_input print decimal address (InputItem.text "q" ∷ []) [] preserve
      (new (some "conversation") none true)).1

abbrev sent : Tracker
sent = mark_input_as_sent_with_sources print decimal address (text_at "q" 100 ∷ []) [] started

abbrev answered : Received
answered = record { response_id = some "r1"; items = InputItem.text "answer" ∷ [] }

abbrev answer_item : RunItem
answer_item = RunItem.message_output (OutputItem.text "answer")

nothing_left :
    (prepare_input print decimal address
      (InputItem.text "q" ∷ [])
      (answer_item ∷ [])
      preserve
      (apply_response print decimal address answered sent)).0
    ≡ []
unfolding new prepare_input mark_input_as_sent_with_sources apply_response decimal_from
    run_item_to_input_item to_input_item
nothing_left = refl

rewound :
    map
      (λ p. p.item)
      (prepare_input print decimal address
        (InputItem.text "q" ∷ [])
        []
        preserve
        (rewind_input print decimal address (text_at "q" 100 ∷ []) sent)).0
    ≡ InputItem.text "q" ∷ []
unfolding new prepare_input mark_input_as_sent_with_sources rewind_input decimal_from
rewound = refl

prepare_input-apply_response_example :
    All
      (λ p. Unseen print decimal address answered.items p.item)
      (prepare_input print decimal address []
        (answer_item ∷ [])
        preserve
        (apply_response print decimal address answered sent)).0
unfolding new prepare_input mark_input_as_sent_with_sources
prepare_input-apply_response_example =
    prepare_input-apply_response print decimal address answered sent [] (answer_item ∷ []) preserve
      refl
