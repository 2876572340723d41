-- ===== src/Replay/Pairing.antt =====
-- What `sanitize_hosted_tool_replay_items` of crates/agents-core/src/internal/items.rs leaves:
-- hosted calls and outputs that carry an id and find their partner in what is kept.
use openai_agents_rust.Prelude.{
  ℕ, String, ◌≡◌, Bool, true, not, ◌||◌, none, some, List, [], ◌∷◌, arith, eq_iff, any, All,
  contains,
}
use openai_agents_rust.Items.{InputItem}
use openai_agents_rust.Replay.{
  HostedKind, shell_call, shell_call_output, tool_search_call, tool_search_output,
  HostedPairingInfo, hosted_kind, is_completed, hosted_pairing_info, keep_kind,
  should_keep_hosted_replay_item, sanitize_from, sanitize_hosted_tool_replay_items,
}
use openai_agents_rust.Replay.Collects.{
  kind_is_shell_call, kind_is_shell_output, kind_is_search_call, kind_is_search_output,
  is_shell_call, is_shell_output, is_search_call, is_search_output, info-Collects, any-sanitize,
  All-sanitize,
}

module _ (id : String) (i : ℕ) (c : Bool) (p : HostedPairingInfo) where
  keep-shell_output :
      (k : HostedKind)
      → kind_is_shell_output id k ≡ true
      → keep_kind i k c p ≡ contains id p.shell_call_ids
  unfolding keep_kind
  keep-shell_output (shell_call_output (some j)) h = ground (arith, eq_iff id j)
  keep-shell_output (shell_call_output none) h = cc
  keep-shell_output _ h = cc

  keep-shell_call :
      (k : HostedKind)
      → kind_is_shell_call id k ≡ true
      → keep_kind i k c p ≡ (not c || contains id p.shell_output_ids)
  unfolding keep_kind
  keep-shell_call (shell_call (some j)) h = ground (arith, eq_iff id j)
  keep-shell_call (shell_call none) h = cc
  keep-shell_call _ h = cc

  keep-search_output :
      (k : HostedKind)
      → kind_is_search_output id k ≡ true
      → keep_kind i k c p ≡ contains id p.tool_search_call_ids
  unfolding keep_kind
  keep-search_output (tool_search_output (some j)) h = ground (arith, eq_iff id j)
  keep-search_output (tool_search_output none) h = cc
  keep-search_output _ h = cc

  keep-search_call :
      (k : HostedKind)
      → kind_is_search_call id k ≡ true
      → keep_kind i k c p ≡ (not c || contains id p.tool_search_output_ids)
  unfolding keep_kind
  keep-search_call (tool_search_call (some j)) h = ground (arith, eq_iff id j)
  keep-search_call (tool_search_call none) h = cc
  keep-search_call _ h = cc

-- `x` stands in `xs`: each test that it passes finds an item there.
abbrev In : List InputItem → InputItem → Type 0
In xs x = (q : InputItem → Bool) → q x ≡ true → any q xs ≡ true

All-In :
    (zs xs : List InputItem)
    → ((q : InputItem → Bool) → any q xs ≡ true → any q zs ≡ true)
    → All (In zs) xs
All-In zs [] h = tt
All-In zs (x ∷ xs) h = (λ q e. h q (ground arith), All-In zs xs (λ q e. h q (ground arith)))

-- Each hosted item with an id has its partner in the list, but for calls that are not completed.
pub record IsPaired (ys : List InputItem) (x : InputItem) : Type 0 where
  pub shell_output : (id : String) → is_shell_output id x ≡ true → any (is_shell_call id) ys ≡ true
  pub shell_call :
      (id : String)
      → is_shell_call id x ≡ true
      → is_completed x ≡ true
      → any (is_shell_output id) ys ≡ true
  pub search_output :
      (id : String) → is_search_output id x ≡ true → any (is_search_call id) ys ≡ true
  pub search_call :
      (id : String)
      → is_search_call id x ≡ true
      → is_completed x ≡ true
      → any (is_search_output id) ys ≡ true

module _ (xs : List InputItem) (id : String) where
  abbrev Kept : (InputItem → Bool) → Type 0
  Kept q = any q (sanitize_from 0 (hosted_pairing_info xs) xs) ≡ true

  shell_calls-Kept :
      any (is_shell_output id) xs ≡ true
      → any (is_shell_call id) xs ≡ true
      → Kept (is_shell_call id)
  unfolding should_keep_hosted_replay_item
  shell_calls-Kept o =
      any-sanitize (hosted_pairing_info xs) (is_shell_call id)
        (λ i x h. ground (
          arith,
          keep-shell_call id i (is_completed x) (hosted_pairing_info xs) (hosted_kind x) h,
          (info-Collects id xs).outputs,
        ))
        0 xs

  shell_outputs-Kept :
      any (is_shell_call id) xs ≡ true
      → any (is_shell_output id) xs ≡ true
      → Kept (is_shell_output id)
  unfolding should_keep_hosted_replay_item
  shell_outputs-Kept c =
      any-sanitize (hosted_pairing_info xs) (is_shell_output id)
        (λ i x h. ground (
          arith,
          keep-shell_output id i (is_completed x) (hosted_pairing_info xs) (hosted_kind x) h,
          (info-Collects id xs).calls,
        ))
        0 xs

  search_calls-Kept :
      any (is_search_output id) xs ≡ true
      → any (is_search_call id) xs ≡ true
      → Kept (is_search_call id)
  unfolding should_keep_hosted_replay_item
  search_calls-Kept o =
      any-sanitize (hosted_pairing_info xs) (is_search_call id)
        (λ i x h. ground (
          arith,
          keep-search_call id i (is_completed x) (hosted_pairing_info xs) (hosted_kind x) h,
          (info-Collects id xs).search_outputs,
        ))
        0 xs

  search_outputs-Kept :
      any (is_search_call id) xs ≡ true
      → any (is_search_output id) xs ≡ true
      → Kept (is_search_output id)
  unfolding should_keep_hosted_replay_item
  search_outputs-Kept c =
      any-sanitize (hosted_pairing_info xs) (is_search_output id)
        (λ i x h. ground (
          arith,
          keep-search_output id i (is_completed x) (hosted_pairing_info xs) (hosted_kind x) h,
          (info-Collects id xs).search_calls,
        ))
        0 xs

module _ (xs : List InputItem) (i : ℕ) (x : InputItem) where
  keep-IsPaired :
      should_keep_hosted_replay_item i x (hosted_pairing_info xs) ≡ true
      → In xs x
      → IsPaired (sanitize_from 0 (hosted_pairing_info xs) xs) x
  unfolding should_keep_hosted_replay_item
  keep-IsPaired keep here = record {
    shell_output = λ id h. shell_calls-Kept xs id (here (is_shell_output id) h) (
        ground (
          arith,
          keep-shell_output id i (is_completed x) (hosted_pairing_info xs) (hosted_kind x) h,
          (info-Collects id xs).calls,
        ));
    shell_call = λ id h c. shell_outputs-Kept xs id (here (is_shell_call id) h) (
        ground (
          arith,
          keep-shell_call id i (is_completed x) (hosted_pairing_info xs) (hosted_kind x) h,
          (info-Collects id xs).outputs,
        ));
    search_output = λ id h. search_calls-Kept xs id (here (is_search_output id) h) (
        ground (
          arith,
          keep-search_output id i (is_completed x) (hosted_pairing_info xs) (hosted_kind x) h,
          (info-Collects id xs).search_calls,
        ));
    search_call = λ id h c. search_outputs-Kept xs id (here (is_search_call id) h) (
        ground (
          arith,
          keep-search_call id i (is_completed x) (hosted_pairing_info xs) (hosted_kind x) h,
          (info-Collects id xs).search_outputs,
        ));
  }

-- In the sanitized items every hosted shell or tool-search output that carries an id has a call of
-- its kind with that id, and every completed call with an id has an output with it.
pub sanitize-IsPaired :
    (xs : List InputItem)
    → All (IsPaired (sanitize_hosted_tool_replay_items xs)) (sanitize_hosted_tool_replay_items xs)
unfolding sanitize_hosted_tool_replay_items
sanitize-IsPaired xs =
    All-sanitize (hosted_pairing_info xs) (IsPaired (sanitize_from 0 (hosted_pairing_info xs) xs))
      (In xs) (keep-IsPaired xs) 0 xs (All-In xs xs (λ q h. h))
