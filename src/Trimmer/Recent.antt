-- ===== src/Trimmer/Recent.antt =====
-- Which items the trimmer of Trimmer.antt leaves as they are.
use mathlib.Core.List.{reverse_aux, reverse-reverse}
use openai_agents_rust.Prelude.{
  ℕ, suc, ◌+◌, ◌<◌, leb, ltb, true, false, List, [], ◌∷◌, ◌++◌, map, reverse, length, unwrap_or,
  if◌then◌else◌, ◌≡◌, refl, sym, ap, subst, ◌⊎◌, inl, inr, Bool-cases, arith,
}
use openai_agents_rust.Items.{InputItem}
use openai_agents_rust.Errors.{ok}
use openai_agents_rust.Tools.{SerdeJson}
use openai_agents_rust.Runner.{ModelInputData}
use openai_agents_rust.Trimmer.{ToolOutputTrimmer, validate}
use openai_agents_rust.Trimmer.Apply.{trim_item, trim_before, apply_trimmer}
use openai_agents_rust.Trimmer.Calls.{
  is_user_message, boundary_from, find_recent_boundary, build_call_id_to_names,
}

abbrev user_messages : List InputItem → ℕ
user_messages [] = 0
user_messages (item ∷ items) =
    let rest = user_messages items in if is_user_message item then suc rest else rest

-- The items begin with a user message, and hold `n` user messages.
abbrev pub StartsRecent : ℕ → List InputItem → Type 0
StartsRecent n items =
    (user : InputItem) × (later : List InputItem) × (items ≡ user ∷ later)
    × (is_user_message user ≡ true)
    × (user_messages items ≡ n)

-- The items from the boundary on begin with the `n`-th user message from the end, or all are kept
-- and hold fewer.
record IsBoundary (n boundary : ℕ) (items : List InputItem) : Type 0 where
  old : List InputItem
  kept : List InputItem
  items_split : items ≡ old ++ kept
  old_length : length old ≡ boundary
  recent : StartsRecent n kept ⊎ ((old ≡ []) × (user_messages kept < n))

reverse_aux-append :
    (xs ys zs : List InputItem) → reverse_aux xs (ys ++ zs) ≡ reverse_aux xs ys ++ zs
reverse_aux-append [] ys zs = refl
reverse_aux-append (x ∷ xs) ys zs = reverse_aux-append xs (x ∷ ys) zs

length-reverse_aux : (xs ys : List InputItem) → length (reverse_aux xs ys) ≡ length xs + length ys
length-reverse_aux [] ys = omega arith
length-reverse_aux (x ∷ xs) ys = omega (arith, length-reverse_aux xs (x ∷ ys))

module _ (n : ℕ) where
  user_messages-user :
      (item : InputItem) (items : List InputItem)
      → is_user_message item ≡ true
      → user_messages (item ∷ items) ≡ suc (user_messages items)
  user_messages-user item items e = rw e

  user_messages-other :
      (item : InputItem) (items : List InputItem)
      → is_user_message item ≡ false
      → user_messages (item ∷ items) ≡ user_messages items
  user_messages-other item items e = rw e

  boundary_from-IsBoundary :
      (before after : List InputItem)
      → user_messages after < n
      → IsBoundary n (boundary_from n (user_messages after) before) (reverse_aux before after)
  unfolding boundary_from
  boundary_from-IsBoundary [] after h = record {
    old = [];
    kept = after;
    items_split = refl;
    old_length = refl;
    recent = inr (refl, h);
  }
  boundary_from-IsBoundary (item ∷ before) after h = elim (Bool-cases (is_user_message item)) [
    | inl user ↦ elim (Bool-cases (leb n (suc (user_messages after)))) [
      | inl enough ↦ rw user (
          rw enough record {
            old = reverse before;
            kept = item ∷ after;
            items_split = reverse_aux-append before [] (item ∷ after);
            old_length = omega (arith, length-reverse_aux before []);
            recent =
                inl (item, after, refl, user, ground (arith, user_messages-user item after user));
          })
      | inr more ↦ rw user (
          rw more (
            subst (λ k. IsBoundary n (boundary_from n k before) (reverse_aux before (item ∷ after)))
              (user_messages-user item after user)
              (boundary_from-IsBoundary before (item ∷ after)
                (ground (arith, user_messages-user item after user)))))
    ]
    | inr other ↦ rw other (
        subst (λ k. IsBoundary n (boundary_from n k before) (reverse_aux before (item ∷ after)))
          (user_messages-other item after other)
          (boundary_from-IsBoundary before (item ∷ after)
            (ground (arith, user_messages-other item after other))))
  ]

-- `out` has the items with a last part kept, which begins with the `n`-th user message from the end
-- or, if there are fewer, is all of them, and with `trim` applied to each item before it.
pub record IsRecent (trim : InputItem → InputItem) (n : ℕ) (items out : List InputItem)
    : Type 0 where
  pub old : List InputItem
  pub kept : List InputItem
  pub items_split : items ≡ old ++ kept
  pub out_split : out ≡ map trim old ++ kept
  pub recent : StartsRecent n kept ⊎ ((old ≡ []) × (user_messages kept < n))

module _ (serde : SerdeJson) (t : ToolOutputTrimmer) where
  abbrev pub trimmed : List InputItem → InputItem → InputItem
  trimmed items item = unwrap_or (trim_item serde t (build_call_id_to_names items) item) item

  trim_before-append :
      (items old kept : List InputItem)
      → trim_before serde t (build_call_id_to_names items) (length old) (old ++ kept)
        ≡ map (trimmed items) old ++ kept
  unfolding trim_before
  trim_before-append items [] kept = refl
  trim_before-append items (item ∷ old) kept =
      ap (◌∷◌ (trimmed items item)) (trim_before-append items old kept)

  find_recent_boundary-IsBoundary :
      (items : List InputItem)
      → 0 < t.recent_turns
      → IsBoundary t.recent_turns (find_recent_boundary t items) items
  unfolding find_recent_boundary
  find_recent_boundary-IsBoundary items h =
      subst (IsBoundary t.recent_turns (find_recent_boundary t items)) (reverse-reverse items)
        (boundary_from-IsBoundary t.recent_turns (reverse items) [] h)

  abbrev trimmed_input : List InputItem → List InputItem
  trimmed_input items =
      trim_before serde t (build_call_id_to_names items) (find_recent_boundary t items) items

  apply_trimmer-ok :
      (model_data : ModelInputData)
      → 0 < t.recent_turns
      → 0 < t.max_output_chars
      → apply_trimmer serde t model_data
        ≡ ok (record model_data { input = trimmed_input model_data.input })
  unfolding apply_trimmer validate
  apply_trimmer-ok model_data h k =
      let turns : ltb t.recent_turns 1 ≡ false = ground arith in
      let chars : ltb t.max_output_chars 1 ≡ false = ground arith in
      rw (apply_trimmer, validate, turns, chars)

  trimmed_input-IsRecent :
      (items : List InputItem)
      → 0 < t.recent_turns
      → IsRecent (trimmed items) t.recent_turns items (trimmed_input items)
  trimmed_input-IsRecent items h =
      let b = find_recent_boundary-IsBoundary items h in
      record {
        old = b.old;
        kept = b.kept;
        items_split = b.items_split;
        out_split =
            subst
              (λ n.
                trim_before serde t (build_call_id_to_names items) n items
                ≡ map (trimmed items) b.old ++ b.kept)
              b.old_length
              (subst
                (λ l.
                  trim_before serde t (build_call_id_to_names items) (length b.old) l
                  ≡ map (trimmed items) b.old ++ b.kept)
                (sym b.items_split) (trim_before-append items b.old b.kept));
        recent = b.recent;
      }

  -- A trimmer whose `recent_turns` and `max_output_chars` are not zero returns the input with its
  -- length, order and instructions: the items from the `recent_turns`-th user message from the end
  -- on are unchanged, each earlier item is trimmed by itself, and an input with fewer user messages
  -- stays as it is.
  pub apply_trimmer-IsRecent :
      (model_data : ModelInputData)
      → 0 < t.recent_turns
      → 0 < t.max_output_chars
      → (out : ModelInputData) × (apply_trimmer serde t model_data ≡ ok out)
        × ((out.instructions ≡ model_data.instructions)
            × IsRecent (trimmed model_data.input) t.recent_turns model_data.input out.input)
  apply_trimmer-IsRecent model_data h k = (
    record model_data { input = trimmed_input model_data.input },
    apply_trimmer-ok model_data h k,
    (refl, trimmed_input-IsRecent model_data.input h),
  )
