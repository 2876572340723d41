-- ===== src/Tools/Exec.antt =====
-- Computations that may fail and that write to the log, with one rule of proof for each way to
-- build one: for the code of crates/agents-core/src/internal/tool_execution.rs.
use openai_agents_rust.Prelude.{
  ◌≡◌, refl, sym, ap, ◌∙◌, subst, List, [], ◌∷◌, ◌++◌, All, All-append, append_assoc,
}
use openai_agents_rust.Errors.{AgentsError, Result, ok, err}
use openai_agents_rust.Tools.{Event, Log}

abbrev pub Exec {ℓ} : Type ℓ → Type ℓ
Exec A = Log → Result A × Log

infixl 5 ◌>>=◌ ◌>>◌
unfoldable pub ◌>>=◌ {ℓ κ} : {A : Type ℓ} {B : Type κ} → Exec A → (A → Exec B) → Exec B
◌>>=◌ m f log = let (r, log') = m log in elim r [ ok a ↦ f a log' | err e ↦ (err e, log') ]

abbrev pub ◌>>◌ {ℓ κ} : {A : Type ℓ} {B : Type κ} → Exec A → Exec B → Exec B
m >> k = m >>= λ _. k

module _ {ℓ} {A : Type ℓ} where
  unfoldable pub pure : A → Exec A
  pure a log = (ok a, log)

  unfoldable pub raise : AgentsError → Exec A
  raise e log = (err e, log)

  unfoldable pub lift : Result A → Exec A
  lift r log = (r, log)

  -- A value that depends on what has happened.
  unfoldable pub ask : (Log → A) → Exec A
  ask f log = (ok (f log), log)

  -- Run the user's code: it reads the log, and the event records that it ran.
  unfoldable pub call_user : Event → (Log → Result A) → Exec A
  call_user e f log = (f log, e ∷ log)

  -- The same, with an error as a value.
  unfoldable pub attempt : Event → (Log → Result A) → Exec (Result A)
  attempt e f log = (ok (f log), e ∷ log)

unfoldable pub emit : Event → Exec (Unit {0})
emit e log = (ok tt, e ∷ log)

-- `P` holds of the value, if there is one.
abbrev pub Post {ℓ κ} : {A : Type ℓ} → (A → Type κ) → Result A × Log → Type κ
Post P r = elim r.0 [ ok a ↦ P a | err e ↦ Unit ]

pub record Ensures {ℓ κ} {A : Type ℓ} (P : A → Type κ) (m : Exec A) : Type κ where
  pub at : (log : Log) → Post P (m log)

module _ {ℓ κ} {A : Type ℓ} {P : A → Type κ} where
  pub Ensures-pure : (a : A) → P a → Ensures P (pure a)
  unfolding pure
  Ensures-pure a h = record { at = λ log. h }

  pub Ensures-raise : (e : AgentsError) → Ensures P (raise e)
  unfolding raise
  Ensures-raise e = record { at = λ log. tt }

  pub Ensures-weaken :
      (Q : A → Type κ) (m : Exec A) → ((a : A) → Q a → P a) → Ensures Q m → Ensures P m
  Ensures-weaken Q m k h = record { at = λ log. go (m log) (h.at log) }
    where
      go : (r : Result A × Log) → Post Q r → Post P r
      go (ok a, log) q = k a q
      go (err e, log) q = tt

  pub Ensures-ask : (f : Log → A) → ((log : Log) → P (f log)) → Ensures P (ask f)
  unfolding ask
  Ensures-ask f h = record { at = λ log. h log }

pub Ensures-lift {ℓ} : {A : Type ℓ} (r : Result A) → Ensures (λ a. r ≡ ok a) (lift r)
unfolding lift
Ensures-lift (ok a) = record { at = λ log. refl }
Ensures-lift (err e) = record { at = λ log. tt }

module _ {ℓ κ} {A B : Type ℓ} {P : B → Type κ} where
  pub Ensures-bind :
      (Q : A → Type κ) (m : Exec A) (f : A → Exec B)
      → Ensures Q m
      → ((a : A) → Q a → Ensures P (f a))
      → Ensures P (m >>= f)
  unfolding ◌>>=◌
  Ensures-bind Q m f h k = record { at = λ log. go (m log).0 (m log).1 (h.at log) }
    where
      go :
          (r : Result A) (log' : Log)
          → Post Q (r, log')
          → Post P (◌>>=◌ (λ (_ : Log). (r, log')) f log')
      go (ok a) log' h' = (k a h').at log'
      go (err e) log' h' = tt

  -- Whatever `m` returns.
  pub Ensures-after :
      (m : Exec A) (f : A → Exec B) → ((a : A) → Ensures P (f a)) → Ensures P (m >>= f)
  unfolding ◌>>=◌
  Ensures-after m f k = record { at = λ log. go (m log).0 (m log).1 }
    where
      go : (r : Result A) (log' : Log) → Post P (◌>>=◌ (λ (_ : Log). (r, log')) f log')
      go (ok a) log' = (k a).at log'
      go (err e) log' = tt

-- `m` writes to the log, and only events of which `P` holds, whether it returns or fails.
pub record Keeps {ℓ κ} (P : Event → Type κ) {A : Type ℓ} (m : Exec A) : Type κ where
  pub at : (log : Log) → (new : List Event) × ((m log).1 ≡ new ++ log) × All P new

module _ {ℓ κ} {P : Event → Type κ} {A : Type ℓ} where
  pub Keeps-pure : (a : A) → Keeps P (pure a)
  unfolding pure
  Keeps-pure a = record { at = λ log. ([], refl, tt) }

  pub Keeps-raise : (e : AgentsError) → Keeps P (raise {A = A} e)
  unfolding raise
  Keeps-raise e = record { at = λ log. ([], refl, tt) }

  pub Keeps-lift : (r : Result A) → Keeps P (lift r)
  unfolding lift
  Keeps-lift r = record { at = λ log. ([], refl, tt) }

  pub Keeps-ask : (f : Log → A) → Keeps P (ask f)
  unfolding ask
  Keeps-ask f = record { at = λ log. ([], refl, tt) }

  pub Keeps-call_user : (e : Event) (f : Log → Result A) → P e → Keeps P (call_user e f)
  unfolding call_user
  Keeps-call_user e f p = record { at = λ log. (e ∷ [], refl, (p, tt)) }

  pub Keeps-attempt : (e : Event) (f : Log → Result A) → P e → Keeps P (attempt e f)
  unfolding attempt
  Keeps-attempt e f p = record { at = λ log. (e ∷ [], refl, (p, tt)) }

  -- What holds of all earlier events then holds of all events.
  pub Keeps-All : (m : Exec A) → Keeps P m → (log : Log) → All P log → All P (m log).1
  Keeps-All m h log p =
      let (new, e, q) = h.at log in subst (All P) (sym e) (All-append P new log q p)

module _ {κ} {P : Event → Type κ} where
  pub Keeps-emit : (e : Event) → P e → Keeps P (emit e)
  unfolding emit
  Keeps-emit e p = record { at = λ log. (e ∷ [], refl, (p, tt)) }

abbrev Extends {κ} : (Event → Type κ) → Log → Log → Type κ
Extends P log log' = (new : List Event) × (log' ≡ new ++ log) × All P new

Extends-trans {κ} :
    (P : Event → Type κ) (log1 log2 log3 : Log)
    → Extends P log1 log2
    → Extends P log2 log3
    → Extends P log1 log3
Extends-trans P log1 log2 log3 (new, e, p) (new', e', p') = (
  new' ++ new,
  e' ∙ (ap (λ l. new' ++ l) e ∙ sym (append_assoc new' new log1)),
  All-append P new' new p' p,
)

module _ {ℓ κ} {P : Event → Type κ} {A B : Type ℓ} where
  -- The rest of a block may use which value `m` returned.
  pub Keeps-bind_eq :
      (m : Exec A) (f : A → Exec B)
      → Keeps P m
      → ((a : A) (log : Log) → (m log).0 ≡ ok a → Keeps P (f a))
      → Keeps P (m >>= f)
  unfolding ◌>>=◌
  Keeps-bind_eq m f h k = record {
    at = λ log. go log (m log).0 (m log).1 (λ a. k a log) (h.at log);
  }
    where
      go :
          (log : Log) (r : Result A) (log' : Log)
          → ((a : A) → r ≡ ok a → Keeps P (f a))
          → Extends P log log'
          → Extends P log (◌>>=◌ (λ (_ : Log). (r, log')) f log').1
      go log (ok a) log' k' h' = Extends-trans P log log' (f a log').1 h' ((k' a refl).at log')
      go log (err e) log' k' h' = h'

  pub Keeps-bind :
      (m : Exec A) (f : A → Exec B) → Keeps P m → ((a : A) → Keeps P (f a)) → Keeps P (m >>= f)
  Keeps-bind m f h k = Keeps-bind_eq m f h (λ a log e. k a)

pub ruleset keeps_rules = (
  Keeps-pure, Keeps-raise, Keeps-lift, Keeps-ask, Keeps-call_user, Keeps-attempt, Keeps-emit,
  Keeps-bind,
)
