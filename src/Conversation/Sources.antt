-- ===== src/Conversation/Sources.antt =====
-- Which prepared input a filter's items come from: `derive_filtered_input_source_indices` of
-- crates/agents-core/src/internal/oai_conversation.rs, and the filter's place in a turn,
-- internal/turn_preparation.rs. Two equal items may stand at different addresses, so an item is taken
-- with the address of the buffer that it owns, which the code reads by `as_ptr`.
use openai_agents_rust.Prelude.{
  ℕ, zero, suc, String, Bool, true, false, not, ◌&&◌, Option, none, some, List, [], ◌∷◌, ◌++◌, map,
  nat_eq, ltb, min, str_eq, if◌then◌else◌, keep_if, or_option, ◌>>=◌,
}
use Prim.Native.Nat.{max}
use openai_agents_rust.Json.{Value, Fields, end, field, string, array, object}
use openai_agents_rust.Items.{InputItem}

pub data InputItemIdentity : Type 0 where
  text json_string json_array : ℕ → InputItemIdentity
  json_object : ℕ → ℕ → InputItemIdentity

abbrev pub identity_eq : InputItemIdentity → InputItemIdentity → Bool
identity_eq (text a) (text b) = nat_eq a b
identity_eq (json_string a) (json_string b) = nat_eq a b
identity_eq (json_array a) (json_array b) = nat_eq a b
identity_eq (json_object a n) (json_object b m) = nat_eq a b && nat_eq n m
identity_eq _ _ = false

-- The buffer is that of the text, the string, the array or the object's first key.
pub record Placed : Type 0 where
  pub item : InputItem
  pub address : ℕ

abbrev pub fields_count : Fields → ℕ
fields_count end = 0
fields_count (field k v fs) = suc (fields_count fs)

unfoldable pub json_value_identity : ℕ → Value → Option InputItemIdentity
json_value_identity address (string s) = some (json_string address)
json_value_identity address (array vs) = some (json_array address)
json_value_identity address (object (field k v fs)) =
    some (json_object address (fields_count (field k v fs)))
json_value_identity address _ = none

unfoldable pub identity_of_item : ℕ → InputItem → Option InputItemIdentity
unfolding json_value_identity
identity_of_item address (InputItem.text t) = some (text address)
identity_of_item address (InputItem.json v) = json_value_identity address v

abbrev pub input_item_identity : Placed → Option InputItemIdentity
input_item_identity p = identity_of_item p.address p.item

-- `HashMap<InputItemIdentity, Vec<usize>>`
abbrev pub IdentityIndex : Type 0
IdentityIndex = List (InputItemIdentity × List ℕ)

unfoldable pub lookup_index : InputItemIdentity → IdentityIndex → Option (List ℕ)
lookup_index id [] = none
lookup_index id ((j, is) ∷ x) =
    let rest = lookup_index id x in if identity_eq j id then some is else rest

unfoldable pub set_index : InputItemIdentity → List ℕ → IdentityIndex → IdentityIndex
set_index id is [] = (id, is) ∷ []
set_index id is ((j, js) ∷ x) =
    let rest = set_index id is x in if identity_eq j id then (j, is) ∷ x else (j, js) ∷ rest

abbrev pub pushed : Option (List ℕ) → ℕ → List ℕ
pushed none n = n ∷ []
pushed (some is) n = is ++ n ∷ []

abbrev pub push_index : Option InputItemIdentity → ℕ → IdentityIndex → IdentityIndex
push_index none n x = x
push_index (some id) n x = set_index id (pushed (lookup_index id x) n) x

unfoldable pub index_from : ℕ → List Placed → IdentityIndex → IdentityIndex
unfolding lookup_index set_index identity_of_item
index_from n [] x = x
index_from n (p ∷ ps) x = index_from (suc n) ps (push_index (input_item_identity p) n x)

unfoldable pub build_filtered_input_identity_index : List Placed → IdentityIndex
unfolding index_from
build_filtered_input_identity_index items = index_from 0 items []

-- `!matched_prepared[index]`. Out of range the code would panic; no such index is asked for, since
-- every index is a position of a prepared item.
unfoldable pub is_free : List Bool → ℕ → Bool
is_free [] i = false
is_free (b ∷ m) zero = not b
is_free (b ∷ m) (suc i) = is_free m i

-- `matched_prepared[index] = true`
unfoldable pub mark : ℕ → List Bool → List Bool
mark i [] = []
mark zero (b ∷ m) = true ∷ m
mark (suc i) (b ∷ m) = b ∷ mark i m

-- The first index that is free, and the others.
unfoldable pub take_free : List Bool → List ℕ → Option (ℕ × List ℕ)
take_free m [] = none
take_free m (i ∷ is) = elim (is_free m i) [
  | true ↦ some (i, is)
  | false ↦ take_free m is >>= λ (j, js). some (j, i ∷ js)
]

abbrev pub Matches : Type 0
Matches = List (Option ℕ)

unfoldable pub exact_match : Placed → List Bool → IdentityIndex → Option (ℕ × IdentityIndex)
unfolding lookup_index set_index take_free is_free identity_of_item
exact_match p m x = input_item_identity p >>= λ id.
    lookup_index id x >>= λ is. take_free m is >>= λ (i, rest). some (i, set_index id rest x)

-- A slot that is filled by an exact match, if there is one, and the other slots.
abbrev pub fill_exactly :
    Option (ℕ × IdentityIndex)
    → (List Bool → IdentityIndex → Matches × List Bool)
    → List Bool
    → IdentityIndex
    → Matches × List Bool
fill_exactly none rest m x = let (ms, m') = rest m x in (none ∷ ms, m')
fill_exactly (some (i, x')) rest m x = let (ms, m') = rest (mark i m) x' in (some i ∷ ms, m')

-- The first loop: the matches of the filtered items, and what is matched.
unfoldable pub exact_pass : List Placed → List Bool → IdentityIndex → Matches × List Bool
exact_pass [] m x = ([], m)
exact_pass (p ∷ ps) m x = fill_exactly (exact_match p m x) (exact_pass ps) m x

abbrev pub only_one : List ℕ → Option ℕ
only_one (i ∷ []) = some i
only_one _ = none

-- The indices of the free prepared items.
unfoldable pub unmatched : List Bool → List ℕ
unmatched [] = []
unmatched (true ∷ m) = map suc (unmatched m)
unmatched (false ∷ m) = zero ∷ map suc (unmatched m)

abbrev pub non_empty_or : List ℕ → List ℕ → List ℕ
non_empty_or [] all = all
non_empty_or (i ∷ is) all = i ∷ is

unfoldable pub unmatched_prepared_candidates : List Bool → Option ℕ → Option ℕ → List ℕ
unmatched_prepared_candidates m (some previous) (some next) =
    non_empty_or
      (keep_if (λ i. ltb (min previous next) i && ltb i (max previous next)) (unmatched m))
      (unmatched m)
unmatched_prepared_candidates m (some previous) none =
    non_empty_or (keep_if (λ i. ltb previous i) (unmatched m)) (unmatched m)
unmatched_prepared_candidates m none (some next) =
    non_empty_or (keep_if (λ i. ltb i next) (unmatched m)) (unmatched m)
unmatched_prepared_candidates m none none = unmatched m

abbrev pub first_some : Matches → Option ℕ
first_some [] = none
first_some (m ∷ ms) = or_option m (first_some ms)

-- A slot that is filled, if something is found, and the other slots.
abbrev pub fill :
    Option ℕ → (Option ℕ → List Bool → Matches × List Bool) → List Bool → Matches × List Bool
fill none rest m = let (ms, m') = rest none m in (none ∷ ms, m')
fill (some i) rest m = let (ms, m') = rest (some i) (mark i m) in (some i ∷ ms, m')

-- The third loop, from the last match before the slot.
unfoldable pub position_pass : Option ℕ → Matches → List Bool → Matches × List Bool
position_pass previous [] m = ([], m)
position_pass previous (some i ∷ ms) m =
    let (ms', m') = position_pass (some i) ms m in (some i ∷ ms', m')
position_pass previous (none ∷ ms) m =
    fill (only_one (unmatched_prepared_candidates m previous (first_some ms)))
      (λ found. position_pass (or_option found previous) ms) m

-- The last loop: the free indices in order.
unfoldable pub last_pass : Matches → List ℕ → Matches
last_pass [] remaining = []
last_pass (some i ∷ ms) remaining = some i ∷ last_pass ms remaining
last_pass (none ∷ ms) [] = none ∷ last_pass ms []
last_pass (none ∷ ms) (i ∷ remaining) = some i ∷ last_pass ms remaining

abbrev pub none_matched : List Placed → List Bool
none_matched [] = []
none_matched (p ∷ ps) = false ∷ none_matched ps

-- `serde_json::to_string` of an item is not in the repository.
module _ (fingerprint : InputItem → String) where
  -- The free prepared items with the fingerprint.
  unfoldable pub same_fingerprint : String → List Placed → List Bool → List ℕ
  same_fingerprint f [] m = []
  same_fingerprint f (p ∷ ps) [] = []
  same_fingerprint f (p ∷ ps) (b ∷ m) =
      let rest = map suc (same_fingerprint f ps m) in
      if not b && str_eq (fingerprint p.item) f then zero ∷ rest else rest

  -- The second loop.
  unfoldable pub fingerprint_pass :
      List Placed → List Placed → Matches → List Bool → Matches × List Bool
  fingerprint_pass prepared [] ms m = (ms, m)
  fingerprint_pass prepared (p ∷ ps) [] m = ([], m)
  fingerprint_pass prepared (p ∷ ps) (some i ∷ ms) m =
      let (ms', m') = fingerprint_pass prepared ps ms m in (some i ∷ ms', m')
  fingerprint_pass prepared (p ∷ ps) (none ∷ ms) m =
      fill (only_one (same_fingerprint (fingerprint p.item) prepared m))
        (λ found. fingerprint_pass prepared ps ms) m

  unfoldable pub derive_filtered_input_source_indices :
      List Placed → List Placed → IdentityIndex → Matches
  unfolding exact_pass fingerprint_pass position_pass last_pass unmatched exact_match mark
      same_fingerprint unmatched_prepared_candidates
  derive_filtered_input_source_indices prepared filtered exact =
      let (exactly, m1) = exact_pass filtered (none_matched prepared) exact in
      let (by_fingerprint, m2) = fingerprint_pass prepared filtered exactly m1 in
      let (by_position, m3) = position_pass none by_fingerprint m2 in
      last_pass by_position (unmatched m3)

  -- The index is that of the prepared items themselves.
  unfoldable pub source_indices : List Placed → List Placed → Matches
  unfolding derive_filtered_input_source_indices build_filtered_input_identity_index
  source_indices prepared filtered =
      derive_filtered_input_source_indices prepared filtered
        (build_filtered_input_identity_index prepared)
