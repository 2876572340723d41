-- ===== src/Conversation/Once.antt =====
-- What a tracker of crates/agents-core/src/internal/oai_conversation.rs prepares after a response.
use openai_agents_rust.Prelude.{
  ℕ, String, Bool, true, false, not, ◌&&◌, ◌||◌, Option, none, some, List, [], ◌∷◌, ◌++◌, map,
  str_eq, keep_if, filter_map, unwrap_or, ◌>>=◌, contains, All, All-append, All-weaken, ◌≡◌, refl,
  ap, sym, ◌∙◌, arith, inl, inr, Bool-cases, subst,
}
use openai_agents_rust.Items.{InputItem, RunItem, ReasoningItemIdPolicy, run_item_to_input_item}
use openai_agents_rust.Conversation.Tracker.{
  Tracker, Received, register_prepared_item_source, prepare_each, is_new, prepare_initial,
  prepare_input, clone, track_each, track_server_items, apply_response, non_empty,
}

keep_if-All : {A : Type 0} (p : A → Bool) (xs : List A) → All (λ x. p x ≡ true) (keep_if p xs)
keep_if-All p [] = tt
keep_if-All p (x ∷ xs) = elim (Bool-cases (p x)) [
  | inl e ↦ rw e (e, keep_if-All p xs)
  | inr e ↦ rw e (keep_if-All p xs)
]

or_shift : (a b c : Bool) → (a || (b || c)) ≡ ((b || a) || c)
or_shift a b c = ground arith

false_of_not : (b : Bool) → not b ≡ true → b ≡ false
false_of_not b h = ground (arith, h)

last_of_and : (a b c : Bool) → (a && (b && c)) ≡ true → c ≡ true
last_of_and a b c h = ground (arith, h)

first_of_or : (a b : Bool) → (a || b) ≡ false → a ≡ false
first_of_or a b h = ground (arith, h)

module _ (fingerprint : InputItem → String) (new_v4 : ℕ → String) (allocate : ℕ → ℕ) where
  prepare_each-items :
      (P : InputItem → Type 0) (items : List InputItem) (t : Tracker)
      → All P items
      → All (λ p. P p.item) (prepare_each fingerprint new_v4 allocate items t).0
  unfolding prepare_each
  prepare_each-items P [] t h = tt
  prepare_each-items P (i ∷ items) t h = (
    h.0,
    prepare_each-items P items
        (register_prepared_item_source fingerprint new_v4 allocate
          (clone fingerprint new_v4 allocate i t) i t)
        h.1,
  )

  prepare_each-sent :
      (items : List InputItem) (t : Tracker)
      → (prepare_each fingerprint new_v4 allocate items t).1.sent_item_fingerprints
        ≡ t.sent_item_fingerprints
  unfolding prepare_each
  prepare_each-sent [] t = refl
  prepare_each-sent (i ∷ items) t = prepare_each-sent items (
      register_prepared_item_source fingerprint new_v4 allocate
        (clone fingerprint new_v4 allocate i t) i t)

  -- Not among the items of a response.
  abbrev pub Unseen : List InputItem → InputItem → Type 0
  Unseen received item = contains (fingerprint item) (map fingerprint received) ≡ false

  track_each-sent :
      (f : String) (items : List InputItem) (t : Tracker)
      → contains f (track_each fingerprint new_v4 allocate items t).sent_item_fingerprints
        ≡ (contains f (map fingerprint items) || contains f t.sent_item_fingerprints)
  unfolding track_each
  track_each-sent f [] t = refl
  track_each-sent f (i ∷ items) t =
      track_each-sent f items _
      ∙ or_shift (contains f (map fingerprint items)) (str_eq f (fingerprint i))
          (contains f t.sent_item_fingerprints)

  track_each-sent_initial :
      (items : List InputItem) (t : Tracker)
      → (track_each fingerprint new_v4 allocate items t).sent_initial_input ≡ t.sent_initial_input
  unfolding track_each
  track_each-sent_initial [] t = refl
  track_each-sent_initial (i ∷ items) t = track_each-sent_initial items _

  is_new-Unseen :
      (r : Received) (t t' : Tracker) (i : InputItem)
      → t'.sent_item_fingerprints
        ≡ (track_each fingerprint new_v4 allocate r.items t).sent_item_fingerprints
      → is_new fingerprint new_v4 allocate t' i ≡ true
      → Unseen r.items i
  unfolding is_new
  is_new-Unseen r t t' i same h =
      let sent : contains (fingerprint i) t'.sent_item_fingerprints ≡ false =
        false_of_not _ (last_of_and _ _ _ h) in
      first_of_or (contains (fingerprint i) (map fingerprint r.items))
        (contains (fingerprint i) t.sent_item_fingerprints)
        (sym (track_each-sent (fingerprint i) r.items t)
          ∙ ap (contains (fingerprint i)) (sym same)
          ∙ sent)

  remaining-Unseen :
      (received : List InputItem) (remaining : Option (List InputItem))
      → All (Unseen received) (
          unwrap_or
            (remaining >>= λ is.
              non_empty
                (keep_if (λ i. not (contains (fingerprint i) (map fingerprint received))) is))
            [])
  remaining-Unseen received none = tt
  remaining-Unseen received (some is) =
      go (keep_if (λ i. not (contains (fingerprint i) (map fingerprint received))) is)
        (keep_if-All (λ i. not (contains (fingerprint i) (map fingerprint received))) is)
    where
      go :
          (kept : List InputItem)
          → All (λ i. not (contains (fingerprint i) (map fingerprint received)) ≡ true) kept
          → All (Unseen received) (unwrap_or (non_empty kept) [])
      go [] h = tt
      go (i ∷ is) h = All-weaken (λ x e. false_of_not _ e) (i ∷ is) h

  later_input :
      (original : List InputItem) (t : Tracker)
      → t.sent_initial_input ≡ true
      → prepare_initial fingerprint new_v4 allocate original t
        ≡ prepare_each fingerprint new_v4 allocate (unwrap_or t.remaining_initial_input []) t
  later_input original t h = rw h

  -- Once the first input was prepared, what is prepared after a response holds no item with the
  -- fingerprint of an item of this response: neither what is left of the first input, nor an item
  -- that was generated.
  pub prepare_input-apply_response :
      (r : Received) (t : Tracker) (original : List InputItem) (generated : List RunItem)
      (policy : ReasoningItemIdPolicy)
      → t.sent_initial_input ≡ true
      → All
          (λ p. Unseen r.items p.item)
          (prepare_input fingerprint new_v4 allocate original generated policy
            (apply_response fingerprint new_v4 allocate r t)).0
  unfolding prepare_input apply_response track_server_items
  prepare_input-apply_response r t original generated policy h =
      let t1 = apply_response fingerprint new_v4 allocate r t in
      let left = unwrap_or t1.remaining_initial_input [] in
      let initial = prepare_each fingerprint new_v4 allocate left t1 in
      let later =
        keep_if (is_new fingerprint new_v4 allocate initial.1)
          (filter_map (λ i. run_item_to_input_item i policy) generated) in
      subst
        (λ x.
          All (λ p. Unseen r.items p.item)
            (x.0
              ++ (prepare_each fingerprint new_v4 allocate
                  (keep_if (is_new fingerprint new_v4 allocate x.1)
                    (filter_map (λ i. run_item_to_input_item i policy) generated))
                  x.1).0))
        (sym (later_input original t1 (track_each-sent_initial r.items t ∙ h)))
        (All-append (λ p. Unseen r.items p.item) initial.0
          (prepare_each fingerprint new_v4 allocate later initial.1).0
          (prepare_each-items (Unseen r.items) left t1 (
            remaining-Unseen r.items
              (track_each fingerprint new_v4 allocate r.items t).remaining_initial_input))
          (prepare_each-items (Unseen r.items) later initial.1 (
            All-weaken (λ i e. is_new-Unseen r t initial.1 i (prepare_each-sent left t1) e) later
              (keep_if-All (is_new fingerprint new_v4 allocate initial.1)
                (filter_map (λ i. run_item_to_input_item i policy) generated)))))
