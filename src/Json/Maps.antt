-- ===== src/Json/Maps.antt =====
-- `insert` and `lookup` of Json.antt.
use Prim.Native.Nat.{Ordering}
use Prim.Native.String
use text.Mathlib.TextEquality.{path_by_compare}
use text.Mathlib.TextPositions.{compare_refl}
use openai_agents_rust.Prelude.{
  String, true, false, some, str_eq, ◌≡◌, ◌≢◌, refl, inl, inr, Bool-cases, eq_iff, eq_refl, ◌↔◌,
  sym, ◌∙◌,
}
use openai_agents_rust.Json.{Value, Fields, end, field, lookup, insert}

pub differ : (j i : String) → str_eq j i ≡ false → j ≢ i
differ j i e p = let f : str_eq j i ≡ true = (eq_iff j i).1 p in cc

pub lookup_miss :
    (j k : String) (v : Value) (fs : Fields) → j ≢ k → lookup j (field k v fs) ≡ lookup j fs
unfolding lookup
lookup_miss j k v fs h = elim (Bool-cases (str_eq k j)) [
  | inl e ↦ absurd (h (rw ((eq_iff k j).0 e) refl))
  | inr e ↦ rw e refl
]

lookup_hit : (k : String) (v : Value) (fs : Fields) → lookup k (field k v fs) ≡ some v
unfolding lookup
lookup_hit k v fs = rw (eq_refl k) refl

compare_iff : (k j : String) (o : Ordering) → String.compare k j ≡ o → (o ≡ Ordering.eq) ↔ (k ≡ j)
compare_iff k j o e = (λ h. path_by_compare k j (e ∙ h), λ p. sym e ∙ (rw p (compare_refl j)))

module _ (k : String) (v : Value) where
  abbrev placed : String → Value → Fields → Ordering → Fields
  placed j w fs o = elim o [
    | Ordering.lt ↦ field k v (field j w fs)
    | Ordering.eq ↦ field j v fs
    | Ordering.gt ↦ field j w (insert k v fs)
  ]

  pub lookup-insert : (fs : Fields) → lookup k (insert k v fs) ≡ some v
  unfolding insert
  lookup-insert end = lookup_hit k v end
  lookup-insert (field j w fs) =
      go (String.compare k j) (compare_iff k j (String.compare k j) refl) (lookup-insert fs)
    where
      go :
          (o : Ordering)
          → (o ≡ Ordering.eq) ↔ (k ≡ j)
          → lookup k (insert k v fs) ≡ some v
          → lookup k (placed j w fs o) ≡ some v
      go Ordering.lt iff rest = lookup_hit k v (field j w fs)
      go Ordering.eq iff rest = rw (sym (iff.0 refl)) (lookup_hit k v fs)
      go Ordering.gt iff rest =
          lookup_miss k j w (insert k v fs) (λ p. let e : Ordering.gt ≡ Ordering.eq = iff.1 p in cc)
          ∙ rest

  pub lookup-insert_other :
      (i : String) (fs : Fields) → i ≢ k → lookup i (insert k v fs) ≡ lookup i fs
  unfolding insert
  lookup-insert_other i end h = lookup_miss i k v end h
  lookup-insert_other i (field j w fs) h =
      go (String.compare k j) (compare_iff k j (String.compare k j) refl)
        (lookup-insert_other i fs h)
    where
      go :
          (o : Ordering)
          → (o ≡ Ordering.eq) ↔ (k ≡ j)
          → lookup i (insert k v fs) ≡ lookup i fs
          → lookup i (placed j w fs o) ≡ lookup i (field j w fs)
      go Ordering.lt iff rest = lookup_miss i k v (field j w fs) h
      go Ordering.eq iff rest =
          let n : i ≢ j = λ p. h (p ∙ sym (iff.0 refl)) in
          lookup_miss i j v fs n ∙ sym (lookup_miss i j w fs n)
      go Ordering.gt iff rest = elim (Bool-cases (str_eq j i)) [
        | inl e ↦ rw ((eq_iff j i).0 e) (lookup_hit i w (insert k v fs) ∙ sym (lookup_hit i w fs))
        | inr e ↦
            let n : i ≢ j = λ p. differ j i e (sym p) in
            lookup_miss i j w (insert k v fs) n ∙ (rest ∙ sym (lookup_miss i j w fs n))
      ]
