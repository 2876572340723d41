-- ===== src/StrictSchema/Sizes.antt =====
-- The size of a schema, for the recursion of crates/agents-core/src/strict_schema.rs.
use openai_agents_rust.Prelude.{
  ℕ, suc, ◌+◌, ◌≤◌, ◌<◌, String, Bool, true, false, not, ◌&&◌, Option, none, some, [], ◌∷◌,
  contains, str_eq, eq_iff, ◌≡◌, ◌≢◌, refl, subst, sym, ap, ◌∙◌, arith, inl, inr, Bool-cases,
  true_of_and,
}
use openai_agents_rust.Json.{
  Value, Values, Fields, null, bool, number, string, array, object, nil, cons, end, field, lookup,
}
use openai_agents_rust.StrictSchema.{Outcome, done, failed, exhausted, ◌>>=◌}

-- How many values there are, and whether `allOf` and `$ref` are absent at every depth
unfoldable mutual
  pub size : Value → ℕ
  size (object fs) = suc (size_fields fs)
  size (array vs) = suc (size_values vs)
  size v = 1

  pub size_fields : Fields → ℕ
  size_fields end = 0
  size_fields (field k v fs) = size v + size_fields fs

  pub size_values : Values → ℕ
  size_values nil = 0
  size_values (cons v vs) = size v + size_values vs

unfoldable mutual
  pub plain : Value → Bool
  plain (object fs) = plain_fields fs
  plain (array vs) = plain_values vs
  plain v = true

  pub plain_fields : Fields → Bool
  plain_fields end = true
  plain_fields (field k v fs) =
      not (contains k ("allOf" ∷ "$ref" ∷ [])) && (plain v && plain_fields fs)

  pub plain_values : Values → Bool
  plain_values nil = true
  plain_values (cons v vs) = plain v && plain_values vs

pub size_positive : (v : Value) → 0 < size v
unfolding size
size_positive null = omega arith
size_positive (bool b) = omega arith
size_positive (number n) = omega arith
size_positive (string s) = omega arith
size_positive (array vs) = omega arith
size_positive (object fs) = omega arith

-- A field of a plain object is plain and not larger.
abbrev pub Small : ℕ → Value → Type 0
Small n v = (plain v ≡ true) × (size v ≤ n)

pub lookup-Small :
    (n : ℕ) (k : String) (fs : Fields) (v : Value)
    → plain_fields fs ≡ true
    → size_fields fs ≤ n
    → lookup k fs ≡ some v
    → Small n v
unfolding lookup plain_fields size_fields
lookup-Small n k end v p l e = cc
lookup-Small n k (field j w fs) v p l e =
    let a = true_of_and (not (contains j ("allOf" ∷ "$ref" ∷ []))) (plain w && plain_fields fs) p in
    let b = true_of_and (plain w) (plain_fields fs) a.1 in
    elim (Bool-cases (str_eq j k)) [
      | inl y ↦
          let f : some w ≡ some v = rw y at e in
          let s : w ≡ v = cc in subst (Small n) s (b.0, omega arith)
      | inr y ↦
          let f : lookup k fs ≡ some v = rw y at e in lookup-Small n k fs v b.1 (omega arith) f
    ]

pub lookup_plain :
    (k : String) (fs : Fields)
    → contains k ("allOf" ∷ "$ref" ∷ []) ≡ true
    → plain_fields fs ≡ true
    → lookup k fs ≡ none
unfolding lookup plain_fields
lookup_plain k end c p = refl
lookup_plain k (field j w fs) c p =
    let a = true_of_and (not (contains j ("allOf" ∷ "$ref" ∷ []))) _ p in
    let b = true_of_and (plain w) (plain_fields fs) a.1 in
    elim (Bool-cases (str_eq j k)) [
      | inl y ↦
          let d : contains j ("allOf" ∷ "$ref" ∷ []) ≡ true = rw ((eq_iff j k).0 y) c in
          absurd (let f : false ≡ true = ap not (sym d) ∙ a.0 in cc)
      | inr y ↦ rw y (lookup_plain k fs c b.1)
    ]

pub bind_ends {ℓ κ} :
    {A : Type ℓ} {B : Type κ} (o : Outcome A) (f : A → Outcome B)
    → o ≢ exhausted
    → ((a : A) → o ≡ done a → f a ≢ exhausted)
    → (o >>= f) ≢ exhausted
bind_ends (done a) f n k = k a refl
bind_ends (failed e) f n k = λ p. cc
bind_ends exhausted f n k = λ p. n refl

abbrev pub SmallField : ℕ → Option Value → Type 0
SmallField n o = (v : Value) → o ≡ some v → Small n v
