-- ===== src/Memory/History.antt =====
-- What a session of crates/agents-core/src/memory remembers from run to run.
use openai_agents_rust.Prelude.{
  ℕ, suc, ◌+◌, ◌-◌, ◌≤◌, ◌≡◌, refl, sym, ap, ◌∙◌, inl, inr, true, none, some, List, [], ◌∷◌, ◌++◌,
  length, drop, take, min, length-append, length-drop, take-append-drop, unwrap_or, if◌then◌else◌,
  append_assoc, append-nil, ltb, arith, Bool-cases,
}
use openai_agents_rust.Items.{InputItem, RunItem, to_input_items}
use openai_agents_rust.Memory.{
  SessionSettings, MemorySession, apply_session_limit, resolve_session_limit, resolve,
  get_items_with_limit, add_items, split_last, pop_item, prepare_input_with_session,
  save_result_to_session,
}

drop-append : (n : ℕ) (xs ys : List InputItem) → drop (length xs + n) (xs ++ ys) ≡ drop n ys
drop-append n [] ys = let e : 0 + n ≡ n = omega arith in ap (λ k. drop k ys) e
drop-append n (x ∷ xs) ys =
    let e : length (x ∷ xs) + n ≡ suc (length xs + n) = omega arith in
    ap (λ k. drop k (x ∷ (xs ++ ys))) e ∙ drop-append n xs ys

-- The limit in one formula.
limit-drop :
    (items : List InputItem) (n : ℕ)
    → apply_session_limit items (some n) ≡ drop (length items - n) items
unfolding apply_session_limit
limit-drop items n = elim (Bool-cases (ltb n (length items))) [
  | inl e ↦ rw e
  | inr e ↦
      let z : length items - n ≡ 0 = ground (arith, e) in rw e (ap (λ k. drop k items) (sym z))
]

-- A limited session shows the last items, as many as the limit says or as there are, and what it
-- does not show came before them.
pub limit-IsSuffix :
    (items : List InputItem) (n : ℕ)
    → (length (apply_session_limit items (some n)) ≡ min n (length items))
      × ((hidden : List InputItem) × (items ≡ hidden ++ apply_session_limit items (some n)))
limit-IsSuffix items n = (
  ap length (limit-drop items n) ∙ length-drop (length items - n) items ∙ (omega arith),
  (
    take (length items - n) items,
    sym (take-append-drop (length items - n) items)
        ∙ ap (λ xs. take (length items - n) items ++ xs) (sym (limit-drop items n)),
  ),
)

-- Items that were added hide all earlier ones from a limit that they fill.
limit-add :
    (s : MemorySession) (added : List InputItem) (n : ℕ)
    → n ≤ length added
    → get_items_with_limit (some n) (add_items added s) ≡ apply_session_limit added (some n)
unfolding get_items_with_limit add_items resolve_session_limit
limit-add s added n h =
    let index : length (s.items ++ added) - n ≡ length s.items + (length added - n) =
      omega (arith, h, length-append s.items added) in
    limit-drop (s.items ++ added) n
    ∙ ap (λ k. drop k (s.items ++ added)) index
    ∙ drop-append (length added - n) s.items added
    ∙ sym (limit-drop added n)

split_last-append : (xs : List InputItem) (x : InputItem) → split_last (xs ++ x ∷ []) ≡ (some x, xs)
unfolding split_last
split_last-append [] x = refl
split_last-append (y ∷ []) x = refl
split_last-append (y ∷ z ∷ xs) x = rw (split_last-append (z ∷ xs) x)

-- A session pops what was added to it last, and is then as it was before.
pub pop-add :
    (s : MemorySession) (items : List InputItem) (x : InputItem)
    → pop_item (add_items (items ++ x ∷ []) s) ≡ (some x, add_items items s)
unfolding pop_item add_items
pop-add s items x =
    rw (sym (append_assoc s.items items (x ∷ [])), split_last-append (s.items ++ items) x)

abbrev pub default_settings : SessionSettings
default_settings = record { limit = none }

-- The history that the next run reads.
history : MemorySession → List InputItem
history s =
    get_items_with_limit
      (resolve_session_limit none
        (some (resolve (unwrap_or s.session_settings default_settings) none)))
      s

history-all : (s : MemorySession) → s.session_settings ≡ some default_settings → history s ≡ s.items
unfolding history get_items_with_limit resolve_session_limit resolve apply_session_limit
history-all s h = rw h

save-items :
    (s : MemorySession) (input : List InputItem) (new_items : List RunItem)
    → ((save_result_to_session input new_items s).1.items
        ≡ s.items ++ (input ++ to_input_items new_items))
      × ((save_result_to_session input new_items s).1.session_settings ≡ s.session_settings)
unfolding save_result_to_session add_items
save-items s input new_items = go (input ++ to_input_items new_items)
  where
    go :
        (items : List InputItem)
        → ((if ltb 0 (length items) then add_items items s else s).items ≡ s.items ++ items)
          × ((if ltb 0 (length items) then add_items items s else s).session_settings
              ≡ s.session_settings)
    go [] = (sym (append-nil s.items), refl)
    go (x ∷ xs) = let e : ltb 0 (length (x ∷ xs)) ≡ true = ground arith in (rw e, rw e)

-- Without a limit of the session or of the next run, this run reads the session's items, the input and the new items of the run
-- that was saved, and its own input.
pub prepare-save :
    (s : MemorySession) (input : List InputItem) (new_items : List RunItem) (next : List InputItem)
    → s.session_settings ≡ some default_settings
    → (prepare_input_with_session next none (save_result_to_session input new_items s).1).0
      ≡ s.items ++ (input ++ (to_input_items new_items ++ next))
unfolding prepare_input_with_session history
prepare-save s input new_items next h =
    ap (λ xs. xs ++ next)
      (history-all (save_result_to_session input new_items s).1
          ((save-items s input new_items).1 ∙ h)
        ∙ (save-items s input new_items).0)
    ∙ append_assoc s.items (input ++ to_input_items new_items) next
    ∙ ap (λ xs. s.items ++ xs) (append_assoc input (to_input_items new_items) next)
