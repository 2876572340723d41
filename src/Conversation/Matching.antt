-- ===== src/Conversation/Matching.antt =====
-- What `derive_filtered_input_source_indices` of crates/agents-core/src/internal/oai_conversation.rs
-- assigns to the filtered items.
use openai_agents_rust.Prelude.{
  ℕ, zero, suc, ◌+◌, ◌-◌, ◌≤◌, String, Bool, true, false, Option, none, some, List, [], ◌∷◌, map,
  length, ltb, str_eq, if◌then◌else◌, keep_if, or_option, ◌≡◌, refl, ap, ◌∙◌, arith, inl, inr,
  Bool-cases, All,
}
use openai_agents_rust.Items.{InputItem}
use openai_agents_rust.Conversation.Sources.{
  Placed, Matches, is_free, exact_pass, only_one, unmatched, non_empty_or,
  unmatched_prepared_candidates, first_some, position_pass, last_pass, none_matched,
  same_fingerprint, fingerprint_pass, derive_filtered_input_source_indices, source_indices,
  build_filtered_input_identity_index,
}
use openai_agents_rust.Conversation.Accounts.{
  same, count, filled, marked, marks, Accounts, Accounts-refl, Accounts-trans, Accounts-kept,
  no_matches, exact_pass-Accounts, fill-Accounts,
}

abbrev AllFree : List Bool → List ℕ → Type 0
AllFree m is = All (λ i. is_free m i ≡ true) is

only_one-AllFree :
    (m : List Bool) (is : List ℕ)
    → AllFree m is
    → AllFree m (elim (only_one is) [ none ↦ [] | some i ↦ i ∷ [] ])
only_one-AllFree m [] h = tt
only_one-AllFree m (i ∷ []) h = h
only_one-AllFree m (i ∷ j ∷ is) h = tt

map-suc-AllFree :
    (b : Bool) (m : List Bool) (is : List ℕ) → AllFree m is → AllFree (b ∷ m) (map suc is)
unfolding is_free
map-suc-AllFree b m [] h = tt
map-suc-AllFree b m (i ∷ is) h = (h.0, map-suc-AllFree b m is h.1)

unmatched-AllFree : (m : List Bool) → AllFree m (unmatched m)
unfolding unmatched is_free
unmatched-AllFree [] = tt
unmatched-AllFree (true ∷ m) = map-suc-AllFree true m (unmatched m) (unmatched-AllFree m)
unmatched-AllFree (false ∷ m) = (refl, map-suc-AllFree false m (unmatched m) (unmatched-AllFree m))

keep_if-AllFree :
    (p : ℕ → Bool) (m : List Bool) (is : List ℕ) → AllFree m is → AllFree m (keep_if p is)
keep_if-AllFree p m [] h = tt
keep_if-AllFree p m (i ∷ is) h = elim (Bool-cases (p i)) [
  | inl e ↦ rw e (h.0, keep_if-AllFree p m is h.1)
  | inr e ↦ rw e (keep_if-AllFree p m is h.1)
]

non_empty_or-AllFree :
    (m : List Bool) (is all : List ℕ)
    → AllFree m is
    → AllFree m all
    → AllFree m (non_empty_or is all)
non_empty_or-AllFree m [] all h k = k
non_empty_or-AllFree m (i ∷ is) all h k = h

candidates-AllFree :
    (m : List Bool) (previous next : Option ℕ)
    → AllFree m (unmatched_prepared_candidates m previous next)
unfolding unmatched_prepared_candidates
candidates-AllFree m none none = unmatched-AllFree m
candidates-AllFree m (some p) none =
    non_empty_or-AllFree m _ _ (keep_if-AllFree _ m (unmatched m) (unmatched-AllFree m))
      (unmatched-AllFree m)
candidates-AllFree m none (some n) =
    non_empty_or-AllFree m _ _ (keep_if-AllFree _ m (unmatched m) (unmatched-AllFree m))
      (unmatched-AllFree m)
candidates-AllFree m (some p) (some n) =
    non_empty_or-AllFree m _ _ (keep_if-AllFree _ m (unmatched m) (unmatched-AllFree m))
      (unmatched-AllFree m)

position_pass-Accounts :
    (previous : Option ℕ) (ms : Matches) (m : List Bool)
    → Accounts ms (position_pass previous ms m).0 m (position_pass previous ms m).1
unfolding position_pass
position_pass-Accounts previous [] m = Accounts-refl [] m
position_pass-Accounts previous (some i ∷ ms) m =
    Accounts-kept ms (position_pass (some i) ms m).0 m (position_pass (some i) ms m).1 i
      (position_pass-Accounts (some i) ms m)
position_pass-Accounts previous (none ∷ ms) m =
    fill-Accounts (only_one (unmatched_prepared_candidates m previous (first_some ms)))
      (λ found. position_pass (or_option found previous) ms) ms m
      (only_one-AllFree m _ (candidates-AllFree m previous (first_some ms)))
      (λ found n. position_pass-Accounts (or_option found previous) ms n)

module _ (fingerprint : InputItem → String) where
  same_fingerprint-AllFree :
      (f : String) (ps : List Placed) (m : List Bool)
      → AllFree m (same_fingerprint fingerprint f ps m)
  unfolding same_fingerprint is_free
  same_fingerprint-AllFree f [] m = tt
  same_fingerprint-AllFree f (p ∷ ps) [] = tt
  same_fingerprint-AllFree f (p ∷ ps) (true ∷ m) =
      map-suc-AllFree true m (same_fingerprint fingerprint f ps m) (same_fingerprint-AllFree f ps m)
  same_fingerprint-AllFree f (p ∷ ps) (false ∷ m) =
      elim (Bool-cases (str_eq (fingerprint p.item) f)) [
        | inl e ↦ rw e (
          refl,
          map-suc-AllFree false m (same_fingerprint fingerprint f ps m)
              (same_fingerprint-AllFree f ps m),
        )
        | inr e ↦ rw e (
            map-suc-AllFree false m (same_fingerprint fingerprint f ps m)
              (same_fingerprint-AllFree f ps m))
      ]

  fingerprint_pass-Accounts :
      (prepared ps : List Placed) (ms : Matches) (m : List Bool)
      → Accounts ms
          (fingerprint_pass fingerprint prepared ps ms m).0
          m
          (fingerprint_pass fingerprint prepared ps ms m).1
  unfolding fingerprint_pass
  fingerprint_pass-Accounts prepared [] ms m = Accounts-refl ms m
  fingerprint_pass-Accounts prepared (p ∷ ps) [] m = Accounts-refl [] m
  fingerprint_pass-Accounts prepared (p ∷ ps) (some i ∷ ms) m =
      Accounts-kept ms (fingerprint_pass fingerprint prepared ps ms m).0 m
        (fingerprint_pass fingerprint prepared ps ms m).1 i
        (fingerprint_pass-Accounts prepared ps ms m)
  fingerprint_pass-Accounts prepared (p ∷ ps) (none ∷ ms) m =
      fill-Accounts (only_one (same_fingerprint fingerprint (fingerprint p.item) prepared m))
        (λ found. fingerprint_pass fingerprint prepared ps ms) ms m
        (only_one-AllFree m _ (same_fingerprint-AllFree (fingerprint p.item) prepared m))
        (λ found n. fingerprint_pass-Accounts prepared ps ms n)

-- The last loop.
abbrev occurs : ℕ → List ℕ → ℕ
occurs i [] = 0
occurs i (j ∷ is) = same i j + occurs i is

abbrev missing : Matches → ℕ
missing [] = 0
missing (none ∷ ms) = suc (missing ms)
missing (some i ∷ ms) = missing ms

last_pass-count :
    (ms : Matches) (is : List ℕ) (i : ℕ) → count i (last_pass ms is) ≤ count i ms + occurs i is
unfolding last_pass
last_pass-count [] is i = omega arith
last_pass-count (some j ∷ ms) is i = omega (arith, last_pass-count ms is i)
last_pass-count (none ∷ ms) [] i = last_pass-count ms [] i
last_pass-count (none ∷ ms) (j ∷ is) i = omega (arith, last_pass-count ms is i)

last_pass-missing :
    (ms : Matches) (is : List ℕ) → missing (last_pass ms is) ≡ missing ms - length is
unfolding last_pass
last_pass-missing [] is = omega arith
last_pass-missing (some j ∷ ms) is = last_pass-missing ms is
last_pass-missing (none ∷ ms) [] = omega (arith, last_pass-missing ms [])
last_pass-missing (none ∷ ms) (j ∷ is) = omega (arith, last_pass-missing ms is)

last_pass-length : (ms : Matches) (is : List ℕ) → length (last_pass ms is) ≡ length ms
unfolding last_pass
last_pass-length [] is = refl
last_pass-length (some j ∷ ms) is = ap suc (last_pass-length ms is)
last_pass-length (none ∷ ms) [] = ap suc (last_pass-length ms [])
last_pass-length (none ∷ ms) (j ∷ is) = ap suc (last_pass-length ms is)

occurs-map-suc :
    (is : List ℕ) (i : ℕ)
    → (occurs zero (map suc is) ≡ 0) × (occurs (suc i) (map suc is) ≡ occurs i is)
occurs-map-suc [] i = (refl, refl)
occurs-map-suc (j ∷ is) i = ground (arith, occurs-map-suc is i)

-- An index below the length, or not.
abbrev pub below : ℕ → ℕ → ℕ
below i n = if ltb i n then 1 else 0

occurs-unmatched :
    (m : List Bool) (i : ℕ) → occurs i (unmatched m) + marked m i ≡ below i (length m)
unfolding unmatched
occurs-unmatched [] i = ground arith
occurs-unmatched (true ∷ m) zero = ground (arith, occurs-map-suc (unmatched m) 0)
occurs-unmatched (true ∷ m) (suc i) =
    ground (arith, occurs-map-suc (unmatched m) i, occurs-unmatched m i)
occurs-unmatched (false ∷ m) zero = ground (arith, occurs-map-suc (unmatched m) 0)
occurs-unmatched (false ∷ m) (suc i) =
    ground (arith, occurs-map-suc (unmatched m) i, occurs-unmatched m i)

length-map-suc : (is : List ℕ) → length (map suc is) ≡ length is
length-map-suc [] = refl
length-map-suc (i ∷ is) = ap suc (length-map-suc is)

length-unmatched : (m : List Bool) → length (unmatched m) + marks m ≡ length m
unfolding unmatched
length-unmatched [] = refl
length-unmatched (true ∷ m) = omega (arith, length-unmatched m, length-map-suc (unmatched m))
length-unmatched (false ∷ m) = omega (arith, length-unmatched m, length-map-suc (unmatched m))

missing-filled : (ms : Matches) → missing ms + filled ms ≡ length ms
missing-filled [] = refl
missing-filled (none ∷ ms) = omega (arith, missing-filled ms)
missing-filled (some i ∷ ms) = omega (arith, missing-filled ms)

none_matched-free :
    (ps : List Placed) → (marks (none_matched ps) ≡ 0) × (length (none_matched ps) ≡ length ps)
none_matched-free [] = (refl, refl)
none_matched-free (p ∷ ps) =
    (omega (arith, (none_matched-free ps).0), ap suc (none_matched-free ps).1)

none_matched-marked : (ps : List Placed) (i : ℕ) → marked (none_matched ps) i ≡ 0
none_matched-marked [] i = refl
none_matched-marked (p ∷ ps) zero = refl
none_matched-marked (p ∷ ps) (suc i) = none_matched-marked ps i

no_matches-empty :
    (ps : List Placed) (i : ℕ)
    → (count i (no_matches ps) ≡ 0)
      × (filled (no_matches ps) ≡ 0)
      × (length (no_matches ps) ≡ length ps)
no_matches-empty [] i = (refl, refl, refl)
no_matches-empty (p ∷ ps) i = let h = no_matches-empty ps i in (h.0, h.1, ap suc h.2)

-- Every filtered item has a slot. A slot names a prepared item, and no prepared item stands in two
-- slots. A slot is left open only if there are fewer prepared items than filtered ones, and then as
-- many as are too few.
pub record IsAssignment (prepared filtered : List Placed) (ms : Matches) : Type 0 where
  pub one_each : length ms ≡ length filtered
  pub at_most_once : (i : ℕ) → count i ms ≤ below i (length prepared)
  pub all_used : missing ms ≡ length filtered - length prepared

-- The prepared items that the items of a filter are traced back to are assigned: each filtered item
-- has its own, whatever the filter returns, whichever addresses its items have and whatever the
-- fingerprints are, and none is left out while a prepared item is free.
pub source_indices-IsAssignment :
    (fingerprint : InputItem → String) (prepared filtered : List Placed)
    → IsAssignment prepared filtered (source_indices fingerprint prepared filtered)
unfolding source_indices derive_filtered_input_source_indices
source_indices-IsAssignment fingerprint prepared filtered =
    let m0 = none_matched prepared in
    let p1 = exact_pass filtered m0 (build_filtered_input_identity_index prepared) in
    let p2 = fingerprint_pass fingerprint prepared filtered p1.0 p1.1 in
    let p3 = position_pass none p2.0 p2.1 in
    let a =
      Accounts-trans (no_matches filtered) p2.0 p3.0 m0 p2.1 p3.1
        (Accounts-trans (no_matches filtered) p1.0 p2.0 m0 p1.1 p2.1
          (exact_pass-Accounts filtered m0 (build_filtered_input_identity_index prepared))
          (fingerprint_pass-Accounts fingerprint prepared filtered p1.0 p1.1))
        (position_pass-Accounts none p2.0 p2.1) in
    record {
      one_each = last_pass-length p3.0 (unmatched p3.1) ∙ a.slots ∙ (no_matches-empty filtered 0).2;
      at_most_once = λ i. omega (
        arith,
        last_pass-count p3.0 (unmatched p3.1) i,
        occurs-unmatched p3.1 i,
        a.by_index i,
        none_matched-marked prepared i,
        (no_matches-empty filtered i).0,
        ap (below i) (a.size ∙ (none_matched-free prepared).1),
      );
      all_used = omega (
        arith,
        last_pass-missing p3.0 (unmatched p3.1),
        length-unmatched p3.1,
        missing-filled p3.0,
        a.in_all,
        a.slots,
        a.size,
        no_matches-empty filtered 0,
        none_matched-free prepared,
      );
    }
