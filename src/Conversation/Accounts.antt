-- ===== src/Conversation/Accounts.antt =====
-- The loops of `derive_filtered_input_source_indices`, crates/agents-core/src/internal/
-- oai_conversation.rs, fill a slot with an index exactly as often as they mark the index.
use openai_agents_rust.Prelude.{
  ℕ, zero, suc, ◌+◌, Bool, true, Option, none, some, List, [], ◌∷◌, length, nat_eq, if◌then◌else◌,
  ◌>>=◌, ◌≡◌, refl, ap, ◌∙◌, subst, arith, inl, inr, Bool-cases, Option-cases, All,
}
use openai_agents_rust.Conversation.Sources.{
  Placed, IdentityIndex, Matches, is_free, mark, take_free, exact_match, exact_pass, fill_exactly,
  fill, input_item_identity, lookup_index,
}

-- How often an index is assigned, and how often it is marked.
abbrev pub same : ℕ → ℕ → ℕ
same i j = if nat_eq i j then 1 else 0

abbrev pub count : ℕ → Matches → ℕ
count i [] = 0
count i (none ∷ ms) = count i ms
count i (some j ∷ ms) = same i j + count i ms

abbrev pub filled : Matches → ℕ
filled [] = 0
filled (none ∷ ms) = filled ms
filled (some j ∷ ms) = suc (filled ms)

abbrev pub marked : List Bool → ℕ → ℕ
marked [] i = 0
marked (b ∷ m) zero = if b then 1 else 0
marked (b ∷ m) (suc i) = marked m i

abbrev pub marks : List Bool → ℕ
marks [] = 0
marks (b ∷ m) = (if b then 1 else 0) + marks m

-- A loop fills slots with indices that it marks, and changes nothing else.
pub record Accounts (ins outs : Matches) (m m' : List Bool) : Type 0 where
  pub by_index : (i : ℕ) → count i outs + marked m i ≡ count i ins + marked m' i
  pub in_all : filled outs + marks m ≡ filled ins + marks m'
  pub slots : length outs ≡ length ins
  pub size : length m' ≡ length m

pub Accounts-refl : (ms : Matches) (m : List Bool) → Accounts ms ms m m
Accounts-refl ms m = record { by_index = λ i. refl; in_all = refl; slots = refl; size = refl }

pub Accounts-trans :
    (a b c : Matches) (m n o : List Bool) → Accounts a b m n → Accounts b c n o → Accounts a c m o
Accounts-trans a b c m n o h k = record {
  by_index = λ i. omega (arith, h.by_index i, k.by_index i);
  in_all = omega (arith, h.in_all, k.in_all);
  slots = k.slots ∙ h.slots;
  size = k.size ∙ h.size;
}

marked-mark :
    (j : ℕ) (m : List Bool) (i : ℕ)
    → is_free m j ≡ true
    → marked (mark j m) i ≡ same i j + marked m i
unfolding is_free mark
marked-mark j [] i h = cc
marked-mark zero (b ∷ m) zero h = ground (arith, h)
marked-mark zero (b ∷ m) (suc i) h = ground arith
marked-mark (suc j) (b ∷ m) zero h = ground arith
marked-mark (suc j) (b ∷ m) (suc i) h = ground (arith, marked-mark j m i h)

marks-mark : (j : ℕ) (m : List Bool) → is_free m j ≡ true → marks (mark j m) ≡ suc (marks m)
unfolding is_free mark
marks-mark j [] h = cc
marks-mark zero (b ∷ m) h = ground (arith, h)
marks-mark (suc j) (b ∷ m) h = ground (arith, marks-mark j m h)

length-mark : (j : ℕ) (m : List Bool) → length (mark j m) ≡ length m
unfolding mark
length-mark j [] = refl
length-mark zero (b ∷ m) = refl
length-mark (suc j) (b ∷ m) = ap suc (length-mark j m)

module _ (ins outs : Matches) (m m' : List Bool) where
  Accounts-some :
      (j : ℕ)
      → is_free m j ≡ true
      → Accounts ins outs (mark j m) m'
      → Accounts (none ∷ ins) (some j ∷ outs) m m'
  Accounts-some j free h = record {
    by_index = λ i. omega (arith, h.by_index i, marked-mark j m i free);
    in_all = omega (arith, h.in_all, marks-mark j m free);
    slots = ap suc h.slots;
    size = h.size ∙ length-mark j m;
  }

  Accounts-none : Accounts ins outs m m' → Accounts (none ∷ ins) (none ∷ outs) m m'
  Accounts-none h = record {
    by_index = h.by_index;
    in_all = h.in_all;
    slots = ap suc h.slots;
    size = h.size;
  }

  pub Accounts-kept :
      (j : ℕ) → Accounts ins outs m m' → Accounts (some j ∷ ins) (some j ∷ outs) m m'
  Accounts-kept j h = record {
    by_index = λ i. omega (arith, h.by_index i);
    in_all = omega (arith, h.in_all);
    slots = ap suc h.slots;
    size = h.size;
  }

take_free-is_free :
    (m : List Bool) (is : List ℕ) (i : ℕ) (rest : List ℕ)
    → take_free m is ≡ some (i, rest)
    → is_free m i ≡ true
unfolding take_free
take_free-is_free m [] i rest h = cc
take_free-is_free m (j ∷ is) i rest h = elim (Bool-cases (is_free m j)) [
  | inl e ↦ ground (arith, e, h)
  | inr e ↦ elim (Option-cases (take_free m is)) [
    | inl n ↦ ground (arith, e, h, n)
    | inr (found, s) ↦ ground (arith, e, h, s, take_free-is_free m is found.0 found.1)
  ]
]

some_of_bind :
    {A B : Type 0} (o : Option A) (f : A → Option B) {b : B}
    → (o >>= f) ≡ some b
    → (a : A) × (o ≡ some a) × (f a ≡ some b)
some_of_bind none f h = cc
some_of_bind (some a) f h = (a, refl, h)

exact_match-is_free :
    (p : Placed) (m : List Bool) (x : IdentityIndex) (i : ℕ) (x' : IdentityIndex)
    → exact_match p m x ≡ some (i, x')
    → is_free m i ≡ true
unfolding exact_match
exact_match-is_free p m x i x' h =
    let (id, e, h1) = some_of_bind (input_item_identity p) _ h in
    let (is, f, h2) = some_of_bind (lookup_index id x) _ h1 in
    let ((j, rest), g, h3) = some_of_bind (take_free m is) _ h2 in
    let same_index : j ≡ i = cc in
    subst (λ k. is_free m k ≡ true) same_index (take_free-is_free m is j rest g)

abbrev pub no_matches : List Placed → Matches
no_matches [] = []
no_matches (p ∷ ps) = none ∷ no_matches ps

fill_exactly-Accounts :
    (o : Option (ℕ × IdentityIndex)) (rest : List Bool → IdentityIndex → Matches × List Bool)
    (ms : Matches) (m : List Bool) (x : IdentityIndex)
    → ((i : ℕ) (x' : IdentityIndex) → o ≡ some (i, x') → is_free m i ≡ true)
    → ((n : List Bool) (y : IdentityIndex) → Accounts ms (rest n y).0 n (rest n y).1)
    → Accounts (none ∷ ms) (fill_exactly o rest m x).0 m (fill_exactly o rest m x).1
fill_exactly-Accounts none rest ms m x free h = Accounts-none ms (rest m x).0 m (rest m x).1 (h m x)
fill_exactly-Accounts (some (i, x')) rest ms m x free h =
    Accounts-some ms (rest (mark i m) x').0 m (rest (mark i m) x').1 i (free i x' refl)
      (h (mark i m) x')

pub exact_pass-Accounts :
    (ps : List Placed) (m : List Bool) (x : IdentityIndex)
    → Accounts (no_matches ps) (exact_pass ps m x).0 m (exact_pass ps m x).1
unfolding exact_pass
exact_pass-Accounts [] m x = Accounts-refl [] m
exact_pass-Accounts (p ∷ ps) m x =
    fill_exactly-Accounts (exact_match p m x) (exact_pass ps) (no_matches ps) m x
      (λ i x' e. exact_match-is_free p m x i x' e) (exact_pass-Accounts ps)

-- A loop that fills the first slot with a free index, if it finds one.
pub fill-Accounts :
    (o : Option ℕ) (rest : Option ℕ → List Bool → Matches × List Bool) (ms : Matches)
    (m : List Bool)
    → All (λ i. is_free m i ≡ true) (elim o [ none ↦ [] | some i ↦ i ∷ [] ])
    → ((found : Option ℕ) (n : List Bool) → Accounts ms (rest found n).0 n (rest found n).1)
    → Accounts (none ∷ ms) (fill o rest m).0 m (fill o rest m).1
fill-Accounts none rest ms m free h = Accounts-none ms (rest none m).0 m (rest none m).1 (h none m)
fill-Accounts (some i) rest ms m free h =
    Accounts-some ms (rest (some i) (mark i m)).0 m (rest (some i) (mark i m)).1 i free.0
      (h (some i) (mark i m))
