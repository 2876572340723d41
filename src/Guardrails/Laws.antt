-- ===== src/Guardrails/Laws.antt =====
-- When the guardrail runs of crates/agents-core/src/internal/guardrails.rs pass, and what they
-- report when they do not.
use openai_agents_rust.Prelude.{
  ◌≡◌, ◌↔◌, refl, ap, ◌∙◌, Bool, true, false, Option, none, some, List, [], ◌∷◌, ◌++◌, map, find,
  any, sym, if◌then◌else◌, arith,
}
use openai_agents_rust.Items.{InputItem, OutputItem}
use openai_agents_rust.Errors.{
  InputGuardrailResult, OutputGuardrailResult, AgentsError, input_guardrail_tripwire,
  output_guardrail_tripwire, Result, ok, err, ◌>>=◌, >>=-eq-ok,
}
use openai_agents_rust.Guardrails.{
  TryJoinAll, InputGuardrail, OutputGuardrail, input_triggered, output_triggered, check_tripwires,
  run_input_guardrails, run_output_guardrails,
}

module _ {ℓ} {A : Type ℓ} (triggered : A → Bool) (error : A → AgentsError) where
  find-none : (xs : List A) → any triggered xs ≡ false → find triggered xs ≡ none
  find-none [] h = refl
  find-none (x ∷ xs) h = ground (arith, find-none xs)

  any-find : (xs : List A) → find triggered xs ≡ none → any triggered xs ≡ false
  any-find [] h = refl
  any-find (x ∷ xs) h = ground (arith, any-find xs)

  check-ok :
      (xs ys : List A)
      → (check_tripwires triggered error xs ≡ ok ys) ↔ ((xs ≡ ys) × (any triggered xs ≡ false))
  unfolding check_tripwires
  check-ok xs ys =
      (λ h. ground (arith, any-find xs), λ h. rw (find-none xs h.1, check_tripwires) (ground arith))

-- `x` is in the list, `p` holds of it and of nothing before it.
pub record FirstOf {ℓ} {A : Type ℓ} (p : A → Bool) (xs : List A) (x : A) : Type ℓ where
  pub before : List A
  pub after : List A
  pub split : xs ≡ before ++ x ∷ after
  pub earlier : any p before ≡ false
  pub holds : p x ≡ true

module _ {ℓ} {A : Type ℓ} (p : A → Bool) where
  FirstOf-find : (xs : List A) (x : A) → find p xs ≡ some x → FirstOf p xs x
  FirstOf-find [] x h = cc
  FirstOf-find (y ∷ ys) x h = go (p y) refl h (FirstOf-find ys x)
    where
      go :
          (b : Bool)
          → p y ≡ b
          → (if b then some y else find p ys) ≡ some x
          → (find p ys ≡ some x → FirstOf p ys x)
          → FirstOf p (y ∷ ys) x
      go true e h ih =
          let same : y ≡ x = cc in
          record {
            before = [];
            after = ys;
            split = ap (λ z. z ∷ ys) same;
            earlier = refl;
            holds = ap p (sym same) ∙ e;
          }
      go false e h ih =
          let f = ih h in
          record {
            before = y ∷ f.before;
            after = f.after;
            split = ap (λ zs. y ∷ zs) f.split;
            earlier = ground (arith, e, f.earlier);
            holds = f.holds;
          }

  find-append :
      (before after : List A) (x : A)
      → any p before ≡ false
      → p x ≡ true
      → find p (before ++ x ∷ after) ≡ some x
  find-append [] after x h e = rw e refl
  find-append (y ∷ ys) after x h e =
      let no : p y ≡ false = ground arith in rw no (find-append ys after x (ground arith) e)

  find_of_FirstOf : (xs : List A) (x : A) → FirstOf p xs x → find p xs ≡ some x
  find_of_FirstOf xs x f = ap (find p) f.split ∙ find-append f.before f.after x f.earlier f.holds

module _ {A : Type 0} (futures : TryJoinAll A) (triggered : A → Bool) (error : A → AgentsError)
    (rs : List (Result A)) (xs : List A) where
  join-check :
      ((futures.join rs >>= check_tripwires triggered error) ≡ ok xs)
      ↔ ((rs ≡ map ok xs) × (any triggered xs ≡ false))
  join-check = (
    λ h.
        let (ys, joined, checked) =
          >>=-eq-ok (futures.join rs) (check_tripwires triggered error) h in
        let same = (check-ok triggered error ys xs).0 checked in
        (futures.ok_join rs xs (joined ∙ ap ok same.0), rw (← same.0) same.1),
    λ h. rw (h.0, futures.join_ok xs) ((check-ok triggered error xs xs).1 (refl, h.1)),
  )

  check-tripped :
      (x : A)
      → ((a b : A) → error a ≡ error b → a ≡ b)
      → (check_tripwires triggered error xs ≡ err (error x)) ↔ (find triggered xs ≡ some x)
  unfolding check_tripwires
  check-tripped x injective = (go (find triggered xs), λ e. rw (e, check_tripwires) refl)
    where
      go :
          (o : Option A)
          → (elim o [ some y ↦ err (error y) | none ↦ ok xs ]) ≡ err (error x)
          → o ≡ some x
      go none h = cc
      go (some y) h = let same : error y ≡ error x = cc in ap some (injective y x same)

  join-tripped :
      (x : A)
      → ((a b : A) → error a ≡ error b → a ≡ b)
      → rs ≡ map ok xs
      → ((futures.join rs >>= check_tripwires triggered error) ≡ err (error x))
        ↔ FirstOf triggered xs x
  join-tripped x injective h =
      let joined : futures.join rs ≡ ok xs = ap futures.join h ∙ futures.join_ok xs in
      let e = ap (λ r. r >>= check_tripwires triggered error) joined in
      let c = check-tripped x injective in
      (
        λ t. FirstOf-find triggered xs x (c.0 (sym e ∙ t)),
        λ f. e ∙ c.1 (find_of_FirstOf triggered xs x f),
      )

-- The input guardrails pass with some results exactly if each guardrail returned its result without
-- an error and no result has its tripwire triggered.
pub run_input_guardrails-ok :
    (futures : TryJoinAll InputGuardrailResult) (guardrails : List InputGuardrail)
    (input : List InputItem) (results : List InputGuardrailResult)
    → (run_input_guardrails futures guardrails input ≡ ok results) ↔ (
        (map (λ (g : InputGuardrail). g input) guardrails ≡ map ok results)
        × (any input_triggered results ≡ false))
unfolding run_input_guardrails
run_input_guardrails-ok futures [] input [] = (λ h. (refl, refl), λ h. refl)
run_input_guardrails-ok futures [] input (r ∷ rs) = (λ h. cc, λ h. cc h.0)
run_input_guardrails-ok futures (g ∷ gs) input results =
    join-check futures input_triggered input_guardrail_tripwire
      (map (λ (f : InputGuardrail). f input) (g ∷ gs)) results

-- The output guardrails pass with some results exactly if each guardrail returned its result without
-- an error and no result has its tripwire triggered.
pub run_output_guardrails-ok :
    (futures : TryJoinAll OutputGuardrailResult) (guardrails : List OutputGuardrail)
    (output : List OutputItem) (results : List OutputGuardrailResult)
    → (run_output_guardrails futures guardrails output ≡ ok results) ↔ (
        (map (λ (g : OutputGuardrail). g output) guardrails ≡ map ok results)
        × (any output_triggered results ≡ false))
unfolding run_output_guardrails
run_output_guardrails-ok futures [] output [] = (λ h. (refl, refl), λ h. refl)
run_output_guardrails-ok futures [] output (r ∷ rs) = (λ h. cc, λ h. cc h.0)
run_output_guardrails-ok futures (g ∷ gs) output results =
    join-check futures output_triggered output_guardrail_tripwire
      (map (λ (f : OutputGuardrail). f output) (g ∷ gs)) results

tripwire_injective :
    (a b : InputGuardrailResult) → input_guardrail_tripwire a ≡ input_guardrail_tripwire b → a ≡ b
tripwire_injective a b h = cc

none_first :
    (results : List InputGuardrailResult) (first : InputGuardrailResult)
    → [] ≡ map ok results
    → ¬ FirstOf input_triggered results first
none_first [] first h f = go f.before f.split
  where
    go : (before : List InputGuardrailResult) → [] ≡ before ++ first ∷ f.after → ⊥
    go [] e = cc
    go (r ∷ rs) e = cc
none_first (r ∷ rs) first h f = cc

-- If every input guardrail returns a result, then the run fails with the tripwire of some result
-- exactly if this result triggers it and no result of an earlier guardrail does.
pub run_input_guardrails-tripped :
    (futures : TryJoinAll InputGuardrailResult) (guardrails : List InputGuardrail)
    (input : List InputItem) (results : List InputGuardrailResult) (first : InputGuardrailResult)
    → map (λ (g : InputGuardrail). g input) guardrails ≡ map ok results
    → (run_input_guardrails futures guardrails input ≡ err (input_guardrail_tripwire first))
      ↔ FirstOf input_triggered results first
unfolding run_input_guardrails
run_input_guardrails-tripped futures [] input results first h =
    (λ e. cc, λ f. absurd (none_first results first h f))
run_input_guardrails-tripped futures (g ∷ gs) input results first h =
    join-tripped futures input_triggered input_guardrail_tripwire _ results first tripwire_injective
      h
