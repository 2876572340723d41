-- ===== src/Runner/Calls.antt =====
-- How often `run_items_internal` of crates/agents-core/src/run.rs calls the model.
use openai_agents_rust.Prelude.{
  ℕ, zero, suc, ◌+◌, ◌≤◌, ◌≡◌, refl, ap, ◌∙◌, true, false, List, [], ◌∷◌, ◌++◌, length,
  length-append, All, if◌then◌else◌, arith,
}
use openai_agents_rust.Items.{InputItem}
use openai_agents_rust.RunState.{RunStateContextSnapshot}
use openai_agents_rust.Errors.{Result, ok, err}
use openai_agents_rust.Tools.{Event, Log, call_model}
use openai_agents_rust.Tools.Exec.{
  Exec, ◌>>=◌, pure, call_user, Post, Ensures, Ensures-pure, Ensures-weaken, Ensures-bind, Keeps,
  Keeps-pure, Keeps-bind, Keeps-lift, Keeps-emit,
}
use openai_agents_rust.Tools.Gating.{is_call_model, is_quiet}
use openai_agents_rust.Runner.{Agents, AgentRunner}
use openai_agents_rust.Runner.Turn.{
  Locals, TurnEnd, next_turn, break_loop, record_response, turn, run_turns,
  maybe_filter_model_input,
}
use openai_agents_rust.Runner.Run.{carried, RunResult, first_locals, run_result, run_items_internal}
use openai_agents_rust.Runner.Turns.{
  locals_of, take_response-KeepsResponses, IsComplete, Concluded, conclude_run-Concluded,
  run_items_internal-IsComplete,
}
use openai_agents_rust.Runner.Approval.{
  RunPermits, filter-Keeps, take_response-Keeps, conclude_run-Keeps,
}

abbrev pub model_calls : Log → ℕ
model_calls [] = 0
model_calls (e ∷ log) =
    let earlier = model_calls log in if is_call_model e then suc earlier else earlier

abbrev NoCall : Event → Type 0
NoCall e = is_call_model e ≡ false

model_calls-append : (new log : Log) → All NoCall new → model_calls (new ++ log) ≡ model_calls log
model_calls-append [] log p = refl
model_calls-append (e ∷ new) log p = rw p.0 (model_calls-append new log p.1)

-- `m` calls the model at most `h` times, and if it returns, then `Q` holds of the number of its calls
-- and of the value.
record Calls {A : Type 0} (h : ℕ) (Q : ℕ → A → Type 0) (m : Exec A) : Type 0 where
  at :
      (log : Log)
      → (k : ℕ) × (model_calls (m log).1 ≡ k + model_calls log) × (k ≤ h) × Post (Q k) (m log)

module _ {A : Type 0} (h : ℕ) (Q : ℕ → A → Type 0) where
  Calls-quiet : (m : Exec A) → Keeps NoCall m → Ensures (Q 0) m → Calls h Q m
  Calls-quiet m keeps ensures = record {
    at = λ log.
        let (new, eq, p) = keeps.at log in
        let e = model_calls-append new log p in
        (0, omega (arith, ap model_calls eq, e), omega arith, ensures.at log);
  }

  Calls-pure : (a : A) → Q 0 a → Calls h Q (pure a)
  Calls-pure a q = Calls-quiet (pure a) (Keeps-pure a) (Ensures-pure a q)

  -- One call, whether the model answers or fails.
  Calls-call_model :
      (input : List InputItem) (f : Log → Result A)
      → 1 ≤ h
      → ((a : A) → Q 1 a)
      → Calls h Q (call_user (call_model input) f)
  unfolding call_user
  Calls-call_model input f l q = record {
    at = λ log.
        let e : suc (model_calls log) ≡ 1 + model_calls log = omega arith in
        (1, e, l, post log (f log));
  }
    where
      post : (log : Log) (r : Result A) → Post (Q 1) (r, call_model input ∷ log)
      post log (ok a) = q a
      post log (err e) = tt

Calls-weaken :
    {A : Type 0} (h i : ℕ) (Q R : ℕ → A → Type 0) (m : Exec A)
    → h ≤ i
    → ((k : ℕ) (a : A) → k ≤ h → Q k a → R k a)
    → Calls h Q m
    → Calls i R m
Calls-weaken {A = A} h i Q R m le f c = record {
  at = λ log. let (k, e, l, q) = c.at log in (k, e, omega arith, post (m log) k l q);
}
  where
    post : (x : Result A × Log) (k : ℕ) → k ≤ h → Post (Q k) x → Post (R k) x
    post (ok a, log) k l q = f k a l q
    post (err e, log) k l q = tt

module _ {A B : Type 0} where
  -- With a bound for the rest of the block that depends on the calls made so far
  Calls-bind :
      (h : ℕ) (Q : ℕ → A → Type 0) (R : ℕ → B → Type 0) (m : Exec A) (f : A → Exec B)
      → Calls h Q m
      → ((k : ℕ) (a : A)
          → k ≤ h
          → Q k a
          → (h' : ℕ) × (k + h' ≤ h) × Calls h' (λ j. R (j + k)) (f a))
      → Calls h R (m >>= f)
  unfolding ◌>>=◌
  Calls-bind h Q R m f c next = record { at = λ log. go log (m log).0 (m log).1 (c.at log) }
    where
      go :
          (log : Log) (r : Result A) (log' : Log)
          → ((k : ℕ) × (model_calls log' ≡ k + model_calls log) × (k ≤ h) × Post (Q k) (r, log'))
          → (k : ℕ) × (model_calls (◌>>=◌ (λ (_ : Log). (r, log')) f log').1 ≡ k + model_calls log)
            × (k ≤ h)
            × Post (R k) (◌>>=◌ (λ (_ : Log). (r, log')) f log')
      go log (ok a) log' (k, e, l, q) =
          let (h', b, rest) = next k a l q in
          let (j, e', l', q') = rest.at log' in (j + k, omega arith, omega arith, q')
      go log (err x) log' (k, e, l, q) = (k, e, l, tt)

  -- A quiet part before the rest
  Calls-after :
      (h : ℕ) (R : ℕ → B → Type 0) (m : Exec A) (f : A → Exec B)
      → Keeps NoCall m
      → ((a : A) → Calls h R (f a))
      → Calls h R (m >>= f)
  unfolding ◌>>=◌
  Calls-after h R m f keeps next = record { at = λ log. go log (m log).0 (m log).1 (keeps.at log) }
    where
      go :
          (log : Log) (r : Result A) (log' : Log)
          → ((new : List Event) × (log' ≡ new ++ log) × All NoCall new)
          → (k : ℕ) × (model_calls (◌>>=◌ (λ (_ : Log). (r, log')) f log').1 ≡ k + model_calls log)
            × (k ≤ h)
            × Post (R k) (◌>>=◌ (λ (_ : Log). (r, log')) f log')
      go log (ok a) log' (new, e, p) =
          let (j, e', l', q') = (next a).at log' in
          let same = ap model_calls e ∙ model_calls-append new log p in
          (j, omega (arith, same, e'), l', q')
      go log (err x) log' (new, e, p) =
          (0, omega (arith, ap model_calls e, model_calls-append new log p), omega arith, tt)

module _ {A : Agents} (R : AgentRunner A) where
  quiet : RunPermits A NoCall
  quiet = record { runs = λ call need. refl; quiet = no_call }
    where
      no_call : (e : Event) → is_quiet e ≡ true → NoCall e
      no_call e h = ground arith

  -- As many responses are added as there are calls.
  abbrev Adds : Locals A → ℕ → Locals A → Type 0
  Adds l k l' = length l'.raw_responses ≡ k + length l.raw_responses

  turn-Calls : (l : Locals A) → Calls 1 (λ k end. Adds l k (locals_of end)) (turn R l)
  unfolding turn maybe_filter_model_input
  turn-Calls l =
      Calls-after 1 _ _ _ (filter-Keeps R quiet R.config.call_model_input_filter l.current_agent _)
        λ model_data.
          Calls-bind 1 (λ k response. k ≡ 1) _ _ _
            (Calls-call_model 1 (λ k response. k ≡ 1) model_data.input _ (omega arith)
              (λ response. refl))
            λ k response le one. (
              0,
              omega arith,
              Calls-after 0 _ _ _ (Keeps-lift _) λ handed.
                  Calls-quiet 0 _ _ (take_response-Keeps R quiet handed response.output _) (
                    Ensures-weaken _ _
                      (λ end h.
                        ap length h
                        ∙ omega (arith, length-append l.raw_responses (response ∷ []), one))
                      (take_response-KeepsResponses R handed response.output
                        (record_response R response model_data _ l))),
            )

  run_turns-Calls : (n : ℕ) (l : Locals A) → Calls n (Adds l) (run_turns R n l)
  unfolding run_turns
  run_turns-Calls zero l = Calls-pure 0 (Adds l) l (omega arith)
  run_turns-Calls (suc n) l =
      Calls-bind (suc n) (λ k end. (k ≤ 1) × Adds l k (locals_of end)) (Adds l) _ _
        (Calls-weaken 1 (suc n) _ _ _ (omega arith) (λ k end le q. (le, q)) (turn-Calls l))
        λ k end le q. (n, omega (arith, q.0), go k end q.1 (run_turns-Calls n))
    where
      go :
          (k : ℕ) (end : TurnEnd A)
          → Adds l k (locals_of end)
          → ((l' : Locals A) → Calls n (Adds l') (run_turns R n l'))
          → Calls n
              (λ j. Adds l (j + k))
              (elim end [ next_turn l' ↦ run_turns R n l' | break_loop l' ↦ pure l' ])
      go k (next_turn l') h ih =
          Calls-weaken n n (Adds l') _ _ (omega arith) (λ j l2 le q. omega (arith, h, q)) (ih l')
      go k (break_loop l') h ih = Calls-pure n _ l' (omega (arith, h))

  module _ {Trace SandboxRunState Context : Type 0}
      (snapshot : RunStateContextSnapshot (carried A Trace SandboxRunState Context)) where
    abbrev CountsResponses : ℕ → RunResult A (carried A Trace SandboxRunState Context) → Type 0
    CountsResponses k r = length r.raw_responses ≡ k

    run-Calls :
        (agent : A.Agent) (original_input base_input : List InputItem)
        → Calls R.config.max_turns CountsResponses
            (run_items_internal R snapshot agent original_input base_input)
    unfolding run_items_internal run_result
    run-Calls agent original_input base_input =
        Calls-after R.config.max_turns _ _ _ (Keeps-emit _ refl) λ u.
          Calls-after R.config.max_turns _ _ _ (Keeps-lift _) λ results.
            Calls-bind R.config.max_turns (Adds (first_locals agent base_input)) _ _ _
              (run_turns-Calls R.config.max_turns (first_locals agent base_input))
              λ k l le q. (
                0,
                omega (arith, le),
                Calls-quiet 0 _ _
                    (Keeps-bind _ _ (conclude_run-Keeps R quiet agent original_input l)
                      λ l'. Keeps-pure _)
                    (Ensures-bind (Concluded R l) _ _
                      (conclude_run-Concluded R agent original_input l)
                      λ l' same. Ensures-pure _ (omega (arith, q, ap length same.0))),
              )

    -- A run calls the model at most `max_turns` times, whether it returns or fails. A run that
    -- returns has one response for each call of the model, the responses and the turns that its run
    -- state has left make up the limit, its responses and its new items are those of its run state,
    -- and it has a final output, an output item or an interruption.
    pub run-IsComplete :
        (agent : A.Agent) (original_input base_input : List InputItem) (log : Log)
        → let x = run_items_internal R snapshot agent original_input base_input log in
          (model_calls x.1 ≤ R.config.max_turns + model_calls log)
          × Post
              (λ r.
                (model_calls x.1 ≡ length r.raw_responses + model_calls log)
                × IsComplete R.config.max_turns r)
              x
    run-IsComplete agent original_input base_input log =
        let (k, e, l, q) = (run-Calls agent original_input base_input).at log in
        (
          omega arith,
          both (run_items_internal R snapshot agent original_input base_input log) k e q
              ((run_items_internal-IsComplete R snapshot agent original_input base_input).at log),
        )
      where
        both :
            (x : Result (RunResult A (carried A Trace SandboxRunState Context)) × Log) (k : ℕ)
            → model_calls x.1 ≡ k + model_calls log
            → Post (CountsResponses k) x
            → Post (IsComplete R.config.max_turns) x
            → Post
                (λ r.
                  (model_calls x.1 ≡ length r.raw_responses + model_calls log)
                  × IsComplete R.config.max_turns r)
                x
        both (ok r, log') k e q c = (omega (arith, e, q), c)
        both (err error, log') k e q c = tt
