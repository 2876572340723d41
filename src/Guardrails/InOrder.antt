-- ===== src/Guardrails/InOrder.antt =====
-- One behaviour of `try_join_all` that fits what crates/agents-core/src/internal/guardrails.rs needs.
use openai_agents_rust.Prelude.{◌≡◌, refl, List, [], ◌∷◌, map, arith}
use openai_agents_rust.Errors.{Result, ok, err, ◌>>=◌}
use openai_agents_rust.Guardrails.{TryJoinAll}

-- The schedule on which the futures end in order.
abbrev pub in_order : {A : Type 0} → List (Result A) → Result (List A)
in_order [] = ok []
in_order (r ∷ rs) = do x ← r; xs ← in_order rs; ok (x ∷ xs)

pub in_order-ok : {A : Type 0} (xs : List A) → in_order (map ok xs) ≡ ok xs
in_order-ok [] = refl
in_order-ok (x ∷ xs) = rw (in_order-ok xs)

pub ok-in_order :
    {A : Type 0} (rs : List (Result A)) (xs : List A) → in_order rs ≡ ok xs → rs ≡ map ok xs
ok-in_order [] [] h = refl
ok-in_order [] (x ∷ xs) h = cc
ok-in_order (err e ∷ rs) xs h = cc
ok-in_order (ok y ∷ rs) [] h = ground arith
ok-in_order (ok y ∷ rs) (x ∷ xs) h = ground (arith, ok-in_order rs xs)

abbrev pub sequential : {A : Type 0} → TryJoinAll A
sequential = record { join = in_order; join_ok = in_order-ok; ok_join = ok-in_order }
