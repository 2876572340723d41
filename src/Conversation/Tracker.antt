-- ===== src/Conversation/Tracker.antt =====
-- `OpenAIServerConversationTracker` of crates/agents-core/src/internal/oai_conversation.rs. Its sets
-- and maps are lists. Every prepared item is a clone with a buffer of its own, so the tracker keeps
-- items without addresses and gives each item that it prepares a new one.
use openai_agents_rust.Prelude.{
  ℕ, zero, suc, String, Bool, true, false, not, ◌&&◌, ◌||◌, Option, none, some, List, [], ◌∷◌, ◌++◌,
  map, str_eq, if◌then◌else◌, keep_if, filter_map, or_option, unwrap_or, is_some, ◌>>=◌, contains,
}
use openai_agents_rust.Json.{get, as_str}
use openai_agents_rust.Items.{InputItem, RunItem, ReasoningItemIdPolicy, run_item_to_input_item}
use openai_agents_rust.Conversation.Sources.{
  InputItemIdentity, identity_eq, Placed, Matches, identity_of_item, input_item_identity,
}

pub record OpenAiServerConversationTracker : Type 0 where
  pub conversation_id : Option String
  pub previous_response_id : Option String
  pub auto_previous_response_id : Bool
  pub sent_initial_input : Bool
  pub remaining_initial_input : Option (List InputItem)
  pub sent_item_fingerprints : List String
  pub server_item_ids : List String
  pub server_tool_call_ids : List String
  pub source_ids_by_identity : List (InputItemIdentity × String)
  pub source_ids_by_fingerprint : List (String × List String)
  pub sources_by_id : List (String × InputItem)
  pub clones : ℕ

pub record OpenAiConversationSessionState : Type 0 where
  pub conversation_id : Option String
  pub previous_response_id : Option String
  pub auto_previous_response_id : Bool

-- What a tracker reads of a `ModelResponse`: its id, and its output as input items.
pub record Received : Type 0 where
  pub response_id : Option String
  pub items : List InputItem

abbrev pub Tracker : Type 0
Tracker = OpenAiServerConversationTracker

unfoldable pub new : Option String → Option String → Bool → Tracker
new conversation_id previous_response_id auto_previous_response_id = record {
  conversation_id = conversation_id;
  previous_response_id = previous_response_id;
  auto_previous_response_id = auto_previous_response_id;
  sent_initial_input = false;
  remaining_initial_input = none;
  sent_item_fingerprints = [];
  server_item_ids = [];
  server_tool_call_ids = [];
  source_ids_by_identity = [];
  source_ids_by_fingerprint = [];
  sources_by_id = [];
  clones = 0;
}

unfoldable pub is_active : Tracker → Bool
is_active t =
    is_some t.conversation_id || (is_some t.previous_response_id || t.auto_previous_response_id)

unfoldable pub apply_session_state : OpenAiConversationSessionState → Tracker → Tracker
apply_session_state state t = record t {
  conversation_id = or_option t.conversation_id state.conversation_id;
  previous_response_id = or_option t.previous_response_id state.previous_response_id;
  auto_previous_response_id = t.auto_previous_response_id || state.auto_previous_response_id;
}

unfoldable pub session_state : Tracker → OpenAiConversationSessionState
session_state t = record {
  conversation_id = t.conversation_id;
  previous_response_id = t.previous_response_id;
  auto_previous_response_id = t.auto_previous_response_id;
}

unfoldable pub extract_item_id : InputItem → Option String
unfolding get as_str
extract_item_id (InputItem.text t) = none
extract_item_id (InputItem.json v) = get "id" v >>= as_str

unfoldable pub extract_output_call_id : InputItem → Option String
unfolding get as_str
extract_output_call_id (InputItem.text t) = none
extract_output_call_id (InputItem.json v) =
    (get "call_id" v >>= as_str) >>= λ id. if is_some (get "output" v) then some id else none

abbrev pub is_known : Option String → List String → Bool
is_known none ids = false
is_known (some id) ids = contains id ids

-- Maps by identity and by text.
unfoldable pub find_identity : InputItemIdentity → List (InputItemIdentity × String) → Option String
find_identity id [] = none
find_identity id ((j, v) ∷ m) =
    let rest = find_identity id m in if identity_eq j id then some v else rest

unfoldable pub put_identity :
    InputItemIdentity
    → String
    → List (InputItemIdentity × String)
    → List (InputItemIdentity × String)
put_identity id v [] = (id, v) ∷ []
put_identity id v ((j, w) ∷ m) =
    let rest = put_identity id v m in if identity_eq j id then (j, v) ∷ m else (j, w) ∷ rest

module _ {V : Type 0} where
  unfoldable pub find_text_key : String → List (String × V) → Option V
  find_text_key k [] = none
  find_text_key k ((j, v) ∷ m) = let rest = find_text_key k m in if str_eq j k then some v else rest

  unfoldable pub put_text_key : String → V → List (String × V) → List (String × V)
  put_text_key k v [] = (k, v) ∷ []
  put_text_key k v ((j, w) ∷ m) =
      let rest = put_text_key k v m in if str_eq j k then (j, v) ∷ m else (j, w) ∷ rest

  unfoldable pub remove_text_key : String → List (String × V) → List (String × V)
  remove_text_key k m = keep_if (λ e. not (str_eq e.0 k)) m

abbrev pub is_empty_list {ℓ} : {A : Type ℓ} → List A → Bool
is_empty_list [] = true
is_empty_list (x ∷ xs) = false

abbrev pub non_empty {ℓ} : {A : Type ℓ} → List A → Option (List A)
non_empty [] = none
non_empty (x ∷ xs) = some (x ∷ xs)

-- `remaining.remove(index)` of the first item with the fingerprint
unfoldable pub remove_first : (InputItem → String) → String → List InputItem → List InputItem
remove_first fingerprint f [] = []
remove_first fingerprint f (i ∷ is) =
    let rest = remove_first fingerprint f is in if str_eq (fingerprint i) f then is else i ∷ rest

-- internal/turn_preparation.rs: the sources of the filtered items, by their matches.
abbrev pub ref_at : ℕ → List (Option String) → Option String
ref_at i [] = none
ref_at zero (r ∷ rs) = r
ref_at (suc i) (r ∷ rs) = ref_at i rs

unfoldable pub filtered_source_items : List (Option String) → Matches → List (Option String)
filtered_source_items refs matches = map (λ m. m >>= λ i. ref_at i refs) matches

-- The fingerprint of an item, the n-th new UUID, and the address of the n-th clone's buffer.
module _ (fingerprint : InputItem → String) (new_v4 : ℕ → String) (allocate : ℕ → ℕ) where
  abbrev pub with_identity :
      Option InputItemIdentity
      → String
      → List (InputItemIdentity × String)
      → List (InputItemIdentity × String)
  with_identity none id m = m
  with_identity (some identity) id m = put_identity identity id m

  unfoldable pub register_prepared_item_source : Placed → InputItem → Tracker → Tracker
  unfolding put_identity put_text_key find_text_key identity_of_item
  register_prepared_item_source prepared source t =
      let source_id = new_v4 t.clones in
      let f = fingerprint prepared.item in
      record t {
        source_ids_by_identity =
            with_identity (input_item_identity prepared) source_id t.source_ids_by_identity;
        source_ids_by_fingerprint =
            put_text_key f
              (unwrap_or (find_text_key f t.source_ids_by_fingerprint) [] ++ source_id ∷ [])
              t.source_ids_by_fingerprint;
        sources_by_id = put_text_key source_id source t.sources_by_id;
        clones = suc t.clones;
      }

  abbrev pub clone : InputItem → Tracker → Placed
  clone item t = record { item = item; address = allocate t.clones }

  -- Each item is cloned, registered with itself as its source, and prepared.
  unfoldable pub prepare_each : List InputItem → Tracker → List Placed × Tracker
  unfolding register_prepared_item_source
  prepare_each [] t = ([], t)
  prepare_each (item ∷ items) t =
      let (prepared, t') =
        prepare_each items (register_prepared_item_source (clone item t) item t) in
      (clone item t ∷ prepared, t')

  -- What the server has, or was sent, is not prepared again.
  unfoldable pub is_new : Tracker → InputItem → Bool
  unfolding extract_item_id extract_output_call_id
  is_new t item =
      not (is_known (extract_item_id item) t.server_item_ids)
      && (not (is_known (extract_output_call_id item) t.server_tool_call_ids)
          && not (contains (fingerprint item) t.sent_item_fingerprints))

  abbrev pub prepare_initial : List InputItem → Tracker → List Placed × Tracker
  prepare_initial original t = elim t.sent_initial_input [
    | false ↦
        let (prepared, t') = prepare_each original t in
        (
          prepared,
          record t' { remaining_initial_input = non_empty original; sent_initial_input = true },
        )
    | true ↦ prepare_each (unwrap_or t.remaining_initial_input []) t
  ]

  unfoldable pub prepare_input :
      List InputItem → List RunItem → ReasoningItemIdPolicy → Tracker → List Placed × Tracker
  unfolding prepare_each is_new
  prepare_input original generated policy t =
      let (initial, t1) = prepare_initial original t in
      let (rest, t2) =
        prepare_each
          (keep_if (is_new t1) (filter_map (λ i. run_item_to_input_item i policy) generated)) t1 in
      (initial ++ rest, t2)

  unfoldable pub resolve_prepared_item_source_id : Placed → Tracker → Option String
  unfolding find_identity find_text_key identity_of_item
  resolve_prepared_item_source_id p t =
      or_option (input_item_identity p >>= λ id. find_identity id t.source_ids_by_identity) (
        find_text_key (fingerprint p.item) t.source_ids_by_fingerprint >>= λ ids. elim ids [
          | [] ↦ none
          | id ∷ _ ↦ some id
        ])

  unfoldable pub prepared_source_refs : List Placed → Tracker → List (Option String)
  unfolding resolve_prepared_item_source_id
  prepared_source_refs items t = map (λ p. resolve_prepared_item_source_id p t) items

  unfoldable pub consume_prepared_item_source_id : String → Tracker → Option InputItem × Tracker
  unfolding find_text_key remove_text_key
  consume_prepared_item_source_id source_id t = (
    find_text_key source_id t.sources_by_id,
    record t {
      source_ids_by_identity = keep_if (λ e. not (str_eq e.1 source_id)) t.source_ids_by_identity;
      source_ids_by_fingerprint =
          keep_if (λ e. not (is_empty_list e.1))
            (map (λ e. (e.0, keep_if (λ id. not (str_eq id source_id)) e.1))
              t.source_ids_by_fingerprint);
      sources_by_id = remove_text_key source_id t.sources_by_id;
    },
  )

  unfoldable pub consume_prepared_item_source : Placed → Tracker → InputItem × Tracker
  unfolding resolve_prepared_item_source_id consume_prepared_item_source_id
  consume_prepared_item_source p t = elim (resolve_prepared_item_source_id p t) [
    | none ↦ (p.item, t)
    | some id ↦
        let (source, t') = consume_prepared_item_source_id id t in (unwrap_or source p.item, t')
  ]

  unfoldable pub remove_remaining_initial_item : InputItem → Tracker → Tracker
  unfolding remove_first
  remove_remaining_initial_item item t = record t {
    remaining_initial_input = t.remaining_initial_input >>= λ remaining.
        non_empty (remove_first fingerprint (fingerprint item) remaining);
  }

  -- The source by its given id, or else the one that the item resolves to.
  abbrev pub source_of : Option String → Placed → Tracker → InputItem × Tracker
  source_of none p t = consume_prepared_item_source p t
  source_of (some id) p t =
      let (source, t') = consume_prepared_item_source_id id t in
      elim source [ none ↦ consume_prepared_item_source p t' | some item ↦ (item, t') ]

  abbrev pub next_ref : List (Option String) → Option String
  next_ref [] = none
  next_ref (r ∷ rs) = r

  abbrev pub other_refs : List (Option String) → List (Option String)
  other_refs [] = []
  other_refs (r ∷ rs) = rs

  unfoldable pub mark_input_as_sent_with_sources :
      List Placed → List (Option String) → Tracker → Tracker
  unfolding consume_prepared_item_source consume_prepared_item_source_id
      remove_remaining_initial_item
  mark_input_as_sent_with_sources [] refs t = t
  mark_input_as_sent_with_sources (p ∷ ps) refs t =
      let (source, t') = source_of (next_ref refs) p t in
      mark_input_as_sent_with_sources ps (other_refs refs) (
        remove_remaining_initial_item source
          (record t' { sent_item_fingerprints = fingerprint source ∷ t'.sent_item_fingerprints }))

  -- The sources of the items, which are no longer counted as sent.
  unfoldable pub take_back : List Placed → Tracker → List InputItem × Tracker
  unfolding consume_prepared_item_source
  take_back [] t = ([], t)
  take_back (p ∷ ps) t =
      let (source, t') = consume_prepared_item_source p t in
      let (sources, t'') = take_back ps (record t' {
        sent_item_fingerprints =
            keep_if (λ f. not (str_eq f (fingerprint source))) t'.sent_item_fingerprints;
      }) in
      (source ∷ sources, t'')

  unfoldable pub rewind_input : List Placed → Tracker → Tracker
  unfolding take_back
  rewind_input items t =
      let (sources, t') = take_back items t in
      if is_empty_list sources then t' else record t' {
        remaining_initial_input = some (sources ++ unwrap_or t'.remaining_initial_input []);
      }

  abbrev pub add_id : Option String → List String → List String
  add_id none ids = ids
  add_id (some id) ids = id ∷ ids

  unfoldable pub track_each : List InputItem → Tracker → Tracker
  unfolding extract_item_id extract_output_call_id
  track_each [] t = t
  track_each (item ∷ items) t = track_each items (record t {
    server_item_ids = add_id (extract_item_id item) t.server_item_ids;
    server_tool_call_ids = add_id (extract_output_call_id item) t.server_tool_call_ids;
    sent_item_fingerprints = fingerprint item ∷ t.sent_item_fingerprints;
  })

  unfoldable pub track_server_items : List InputItem → Tracker → Tracker
  unfolding track_each
  track_server_items items t =
      let t' = track_each items t in
      record t' {
        remaining_initial_input = t'.remaining_initial_input >>= λ remaining.
            non_empty
              (keep_if (λ i. not (contains (fingerprint i) (map fingerprint items))) remaining);
      }

  unfoldable pub apply_response : Received → Tracker → Tracker
  unfolding track_server_items
  apply_response response t =
      let t' = track_server_items response.items t in
      record t' {
        previous_response_id =
            if (t'.auto_previous_response_id || is_some t'.previous_response_id)
              && is_some response.response_id
            then response.response_id
            else t'.previous_response_id;
      }
