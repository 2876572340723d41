-- ===== src/Replay/Collects.antt =====
-- What `hosted_pairing_info` of crates/agents-core/src/internal/items.rs collects, and what the
-- filter of `sanitize_hosted_tool_replay_items` does to tests over the items.
use openai_agents_rust.Prelude.{
  ℕ, suc, String, ◌≡◌, Bool, true, false, ◌||◌, none, some, List, [], ◌∷◌, arith, str_eq,
  Bool-cases, inl, inr, any, All, contains,
}
use openai_agents_rust.Items.{InputItem}
use openai_agents_rust.Replay.{
  HostedKind, shell_call, shell_call_output, tool_search_call, tool_search_output, other,
  HostedPairingInfo, PairingState, empty_pairing, hosted_kind, pairing_step, pairing_from,
  hosted_pairing_info, should_keep_hosted_replay_item, sanitize_from,
}

abbrev pub kind_is_shell_call : String → HostedKind → Bool
kind_is_shell_call id (shell_call (some j)) = str_eq id j
kind_is_shell_call id _ = false

abbrev pub kind_is_shell_output : String → HostedKind → Bool
kind_is_shell_output id (shell_call_output (some j)) = str_eq id j
kind_is_shell_output id _ = false

abbrev pub kind_is_search_call : String → HostedKind → Bool
kind_is_search_call id (tool_search_call (some j)) = str_eq id j
kind_is_search_call id _ = false

abbrev pub kind_is_search_output : String → HostedKind → Bool
kind_is_search_output id (tool_search_output (some j)) = str_eq id j
kind_is_search_output id _ = false

abbrev pub is_shell_call : String → InputItem → Bool
is_shell_call id item = kind_is_shell_call id (hosted_kind item)

abbrev pub is_shell_output : String → InputItem → Bool
is_shell_output id item = kind_is_shell_output id (hosted_kind item)

abbrev pub is_search_call : String → InputItem → Bool
is_search_call id item = kind_is_search_call id (hosted_kind item)

abbrev pub is_search_output : String → InputItem → Bool
is_search_output id item = kind_is_search_output id (hosted_kind item)

-- The four sets of ids hold what they held and what the kind adds.
pub record Collects (id : String) (a b : HostedPairingInfo) (c o sc so : Bool) : Type 0 where
  pub calls : contains id b.shell_call_ids ≡ (contains id a.shell_call_ids || c)
  pub outputs : contains id b.shell_output_ids ≡ (contains id a.shell_output_ids || o)
  pub search_calls : contains id b.tool_search_call_ids ≡ (contains id a.tool_search_call_ids || sc)
  pub search_outputs :
      contains id b.tool_search_output_ids ≡ (contains id a.tool_search_output_ids || so)

pairing_step-Collects :
    (id : String) (index : ℕ) (k : HostedKind) (s : PairingState)
    → Collects id s.info
        (pairing_step index k s).info
        (kind_is_shell_call id k)
        (kind_is_shell_output id k)
        (kind_is_search_call id k)
        (kind_is_search_output id k)
unfolding pairing_step
pairing_step-Collects id index (shell_call (some j)) s = ground arith
pairing_step-Collects id index (shell_call none) s = ground arith
pairing_step-Collects id index (shell_call_output (some j)) s = ground arith
pairing_step-Collects id index (shell_call_output none) s = ground arith
pairing_step-Collects id index (tool_search_call (some j)) s = ground arith
pairing_step-Collects id index (tool_search_call none) s = ground arith
pairing_step-Collects id index (tool_search_output (some j)) s = ground arith
pairing_step-Collects id index (tool_search_output none) s = ground arith
pairing_step-Collects id index other s = ground arith

or_step : (a b c d e : Bool) → b ≡ (a || c) → d ≡ (b || e) → d ≡ (a || (c || e))
or_step a b c d e h k = ground arith

pairing_from-Collects :
    (id : String) (index : ℕ) (xs : List InputItem) (s : PairingState)
    → Collects id s.info
        (pairing_from index xs s).info
        (any (is_shell_call id) xs)
        (any (is_shell_output id) xs)
        (any (is_search_call id) xs)
        (any (is_search_output id) xs)
unfolding pairing_from
pairing_from-Collects id index [] s = ground arith
pairing_from-Collects id index (x ∷ xs) s =
    let one = pairing_step-Collects id index (hosted_kind x) s in
    let rest = pairing_from-Collects id (suc index) xs (pairing_step index (hosted_kind x) s) in
    record {
      calls = or_step _ _ _ _ _ one.calls rest.calls;
      outputs = or_step _ _ _ _ _ one.outputs rest.outputs;
      search_calls = or_step _ _ _ _ _ one.search_calls rest.search_calls;
      search_outputs = or_step _ _ _ _ _ one.search_outputs rest.search_outputs;
    }

-- A set of ids of `hosted_pairing_info` holds an id exactly if an item of that kind carries it.
pub info-Collects :
    (id : String) (xs : List InputItem)
    → Collects id empty_pairing
        (hosted_pairing_info xs)
        (any (is_shell_call id) xs)
        (any (is_shell_output id) xs)
        (any (is_search_call id) xs)
        (any (is_search_output id) xs)
unfolding hosted_pairing_info
info-Collects id xs = pairing_from-Collects id 0 xs _

module _ (p : HostedPairingInfo) where
  -- If the test keeps all items of a kind, a list that has one still has one afterwards.
  pub any-sanitize :
      (q : InputItem → Bool)
      → ((i : ℕ) (x : InputItem) → q x ≡ true → should_keep_hosted_replay_item i x p ≡ true)
      → (i : ℕ) (xs : List InputItem) → any q xs ≡ true
      → any q (sanitize_from i p xs) ≡ true
  unfolding sanitize_from
  any-sanitize q keep i [] h = h
  any-sanitize q keep i (x ∷ xs) h = ground (arith, keep i x, any-sanitize q keep (suc i) xs)

  pub All-sanitize {κ} :
      (P Q : InputItem → Type κ)
      → ((i : ℕ) (x : InputItem) → should_keep_hosted_replay_item i x p ≡ true → Q x → P x)
      → (i : ℕ) (xs : List InputItem) → All Q xs
      → All P (sanitize_from i p xs)
  unfolding sanitize_from
  All-sanitize P Q keep i [] h = tt
  All-sanitize P Q keep i (x ∷ xs) (hx, hxs) =
      elim (Bool-cases (should_keep_hosted_replay_item i x p)) [
        | inl e ↦ rw (e, sanitize_from) (keep i x e hx, All-sanitize P Q keep (suc i) xs hxs)
        | inr e ↦ rw (e, sanitize_from) (All-sanitize P Q keep (suc i) xs hxs)
      ]
