-- ===== src/Replay/Overlap.antt =====
-- What `trailing_generated_overlap` of crates/agents-core/src/internal/items.rs finds.
use mathlib.Core.Path.{◌≡⟨◌⟩◌, ◌∎}
use openai_agents_rust.Prelude.{
  ℕ, zero, suc, ◌-◌, ◌≤◌, ◌<◌, ◌≡◌, refl, sym, ap, ◌⊎◌, inl, inr, true, false, List, [], ◌∷◌, ◌++◌,
  arith, Bool-cases, Option, none, some, String, str_eq, true_of_and, Bool, is_some, any, ◌∙◌,
  eq_iff, length, take, drop, all, min, append_assoc, take-append-drop, length-take, length-drop,
}
use openai_agents_rust.Items.{InputItem, input_eq}
use openai_agents_rust.Items.Laws.{input_eq_iff}
use openai_agents_rust.Replay.{
  zip, is_overlap, overlap_from, same_key, stable_replay_dedupe_key, trailing_generated_overlap,
}

-- What the search from `n` down returns: a match, or 0, with no match above it.
pub record Found (base generated : List InputItem) (n k : ℕ) : Type 0 where
  pub le : k ≤ n
  pub hit : (k ≡ 0) ⊎ (is_overlap base generated k ≡ true)
  pub greatest : (j : ℕ) → k < j → j ≤ n → is_overlap base generated j ≡ false

module _ (base generated : List InputItem) where
  overlap_from-Found : (n : ℕ) → Found base generated n (overlap_from base generated n)
  unfolding overlap_from
  overlap_from-Found zero = record {
    le = omega arith;
    hit = inl refl;
    greatest = λ j h k. absurd (omega arith);
  }
  overlap_from-Found (suc n) = elim (Bool-cases (is_overlap base generated (suc n))) [
    | inl yes' ↦
        rw (yes', overlap_from)
          (record { le = omega arith; hit = inr yes'; greatest = λ j h k. absurd (omega arith) })
    | inr no' ↦ rw (no', overlap_from) (extend no' (overlap_from-Found n))
  ]
    where
      extend :
          is_overlap base generated (suc n) ≡ false
          → Found base generated n (overlap_from base generated n)
          → Found base generated (suc n) (overlap_from base generated n)
      extend no' f = record {
        le = omega (arith, f.le);
        hit = f.hit;
        greatest = λ j h k. elim (split j k) [ inl e ↦ rw e no' | inr l ↦ f.greatest j h l ];
      }
        where
          split : (j : ℕ) → j ≤ suc n → (j ≡ suc n) ⊎ (j ≤ n)
          split j k = grind arith

-- Lists of one length that agree at each place are equal.
zip-eq :
    (xs ys : List InputItem)
    → length xs ≡ length ys
    → all (λ p. input_eq p.0 p.1) (zip xs ys) ≡ true
    → xs ≡ ys
zip-eq [] [] e h = refl
zip-eq [] (y ∷ ys) e h = absurd (omega arith)
zip-eq (x ∷ xs) [] e h = absurd (omega arith)
zip-eq (x ∷ xs) (y ∷ ys) e h =
    let t = true_of_and (input_eq x y) (all (λ p. input_eq p.0 p.1) (zip xs ys)) h in
    cc ((input_eq_iff x y).0 t.0, zip-eq xs ys (omega arith) t.1)

module _ (base generated : List InputItem) (n : ℕ) where
  is_overlap-eq :
      n ≤ length base
      → n ≤ length generated
      → is_overlap base generated n ≡ true
      → drop (length base - n) base ≡ take n generated
  unfolding is_overlap
  is_overlap-eq h k e =
      zip-eq (drop (length base - n) base) (take n generated)
        (omega (arith, length-drop (length base - n) base, length-take n generated))
        (true_of_and _ _ e).0

  overlap-append :
      drop (length base - n) base ≡ take n generated
      → take (length base - n) base ++ generated ≡ base ++ drop n generated
  overlap-append e =
      take (length base - n) base ++ generated
      ≡⟨ ap (λ g. take (length base - n) base ++ g) (sym (take-append-drop n generated)) ⟩
        take (length base - n) base ++ (take n generated ++ drop n generated)
      ≡⟨ sym (append_assoc (take (length base - n) base) (take n generated) (drop n generated)) ⟩
        (take (length base - n) base ++ take n generated) ++ drop n generated
      ≡⟨ ap (λ t. (take (length base - n) base ++ t) ++ drop n generated) (sym e) ⟩
        (take (length base - n) base ++ drop (length base - n) base) ++ drop n generated
      ≡⟨ ap (λ t. t ++ drop n generated) (take-append-drop (length base - n) base) ⟩
        base ++ drop n generated ∎

drop-length : (xs : List InputItem) → drop (length xs) xs ≡ []
drop-length [] = refl
drop-length (x ∷ xs) = drop-length xs

none_overlap : (base generated : List InputItem) → drop (length base - 0) base ≡ take 0 generated
none_overlap base generated =
    let e : length base - 0 ≡ length base = omega arith in rw e (drop-length base)

abbrev has_key : InputItem → Bool
has_key item = is_some (stable_replay_dedupe_key item)

-- The last `n` items of the base are the first `n` generated inputs, and one of them has a key by
-- which a replayed item is recognized.
pub record Overlaps (base generated : List InputItem) (n : ℕ) : Type 0 where
  pub same : drop (length base - n) base ≡ take n generated
  pub recognized : any (λ item. is_some (stable_replay_dedupe_key item)) (take n generated) ≡ true

same_key_self : (x : InputItem) → same_key x x ≡ has_key x
unfolding same_key
same_key_self x = go (stable_replay_dedupe_key x) (stable_replay_dedupe_key x) refl
  where
    go :
        (o p : Option String)
        → o ≡ p
        → (elim o [ none ↦ false | some k ↦ elim p [ none ↦ false | some j ↦ str_eq k j ] ])
          ≡ is_some o
    go none p e = refl
    go (some k) none e = cc
    go (some k) (some j) e = (eq_iff k j).1 cc

any-zip : (xs : List InputItem) → any (λ p. same_key p.0 p.1) (zip xs xs) ≡ any has_key xs
any-zip [] = refl
any-zip (x ∷ xs) = ground (arith, same_key_self x, any-zip xs)

all-zip : (xs : List InputItem) → all (λ p. input_eq p.0 p.1) (zip xs xs) ≡ true
all-zip [] = refl
all-zip (x ∷ xs) = ground (arith, (input_eq_iff x x).1 refl, all-zip xs)

module _ (base generated : List InputItem) (n : ℕ) where
  -- The test of the search is true exactly of overlaps.
  Overlaps-is_overlap : Overlaps base generated n → is_overlap base generated n ≡ true
  unfolding is_overlap
  Overlaps-is_overlap o =
      rw o.same
        (ground (arith, all-zip (take n generated), any-zip (take n generated), o.recognized))

  is_overlap-Overlaps :
      n ≤ length base
      → n ≤ length generated
      → is_overlap base generated n ≡ true
      → Overlaps base generated n
  unfolding is_overlap
  is_overlap-Overlaps h k e =
      let same = is_overlap-eq base generated n h k e in
      record {
        same = same;
        recognized =
            sym (any-zip (take n generated))
            ∙ (ap (λ d. any (λ p. same_key p.0 p.1) (zip d (take n generated))) (sym same)
                ∙ (true_of_and _ _ e).1);
      }

-- The number found is 0 or an overlap: the last items of the base are the first generated inputs, as
-- many as the number says, and one of them has a dedupe key. No greater number within both lists is
-- one. So the base followed by the generated inputs that it leaves is the base without its last
-- items, as many as the number says, followed by all generated inputs.
pub trailing_overlap_complete :
    (base generated : List InputItem)
    → let n = trailing_generated_overlap base generated in
      (n ≤ length base)
      × (n ≤ length generated)
      × ((n ≡ 0) ⊎ Overlaps base generated n)
      × ((j : ℕ) → n < j → j ≤ length base → j ≤ length generated → ¬ Overlaps base generated j)
      × (base ++ drop n generated ≡ take (length base - n) base ++ generated)
unfolding trailing_generated_overlap
trailing_overlap_complete base generated =
    let f = overlap_from-Found base generated (min (length base) (length generated)) in
    let hit = overlaps f.le f.hit in
    (
      omega (arith, f.le),
      omega (arith, f.le),
      hit,
      λ j h k l o.
          let t : true ≡ false =
            sym (Overlaps-is_overlap base generated j o) ∙ f.greatest j h (omega arith) in
          cc,
      sym (split hit),
    )
  where
    n : ℕ
    n = overlap_from base generated (min (length base) (length generated))

    overlaps :
        n ≤ min (length base) (length generated)
        → (n ≡ 0) ⊎ (is_overlap base generated n ≡ true)
        → (n ≡ 0) ⊎ Overlaps base generated n
    overlaps h (inl e) = inl e
    overlaps h (inr e) = inr (is_overlap-Overlaps base generated n (omega arith) (omega arith) e)

    split :
        (n ≡ 0) ⊎ Overlaps base generated n
        → take (length base - n) base ++ generated ≡ base ++ drop n generated
    split (inl e) = overlap-append base generated n (rw e (none_overlap base generated))
    split (inr o) = overlap-append base generated n o.same
