-- ===== src/ToolIdentity/Laws.antt =====
-- What the lookup map and the keys of crates/agents-core/src/_tool_identity.rs promise.
use openai_agents_rust.Prelude.{
  String, ◌≡◌, ◌≢◌, ◌↔◌, refl, ap, ◌∙◌, inl, inr, Bool, true, false, not, ◌&&◌, Option, none, some,
  List, [], ◌∷◌, arith, eq_iff, Bool-cases, any, if◌then◌else◌, is_some, filter_option, or_option,
  contains,
}
use openai_agents_rust.ToolIdentity.{
  ToolDefinition, ToolCall, FunctionToolLookupKey, trim, is_empty, trimmed_namespace,
  is_deferred_top, is_reserved_synthetic_tool_namespace, get_function_tool_lookup_key,
  get_function_tool_lookup_key_for_call, get_function_tool_lookup_key_for_definition,
  get_function_tool_lookup_keys, get_tool_call_name, get_tool_call_namespace, key_eq, ToolMap,
  lookup_tool, insert_keys, build_from, build_function_tool_lookup_map,
  get_function_tool_approval_keys, push_key, or_bare, approval_key_value,
}

-- The last definition in a list that has a key, an independent reading of the map.
abbrev pub last_with :
    FunctionToolLookupKey → List ToolDefinition → Option ToolDefinition → Option ToolDefinition
last_with k [] found = found
last_with k (d ∷ ds) found =
    last_with k ds
      (if any (λ j. key_eq j k) (get_function_tool_lookup_keys d) then some d else found)

lookup-insert_keys :
    (k : FunctionToolLookupKey) (ks : List FunctionToolLookupKey) (d : ToolDefinition) (m : ToolMap)
    → lookup_tool k (insert_keys ks d m)
      ≡ (if any (λ j. key_eq j k) ks then some d else lookup_tool k m)
unfolding lookup_tool insert_keys
lookup-insert_keys k [] d m = refl
lookup-insert_keys k (j ∷ ks) d m = ground (arith, lookup-insert_keys k ks d ((j, d) ∷ m))

module _ (d : ToolDefinition) (ds : List ToolDefinition) (m r : ToolMap) where
  build_from-some :
      build_from (d ∷ ds) m ≡ some r
      → (is_reserved_synthetic_tool_namespace (trim d.name) d.namespace ≡ false)
        × (build_from ds (insert_keys (get_function_tool_lookup_keys d) d m) ≡ some r)
  unfolding build_from
  build_from-some h = ground arith

lookup-build_from :
    (k : FunctionToolLookupKey) (ds : List ToolDefinition) (m r : ToolMap)
    → build_from ds m ≡ some r
    → lookup_tool k r ≡ last_with k ds (lookup_tool k m)
lookup-build_from k [] m r h = unfold build_from in ground arith
lookup-build_from k (d ∷ ds) m r h =
    let next = insert_keys (get_function_tool_lookup_keys d) d m in
    lookup-build_from k ds next r (build_from-some d ds m r h).1
    ∙ ap (last_with k ds) (lookup-insert_keys k (get_function_tool_lookup_keys d) d m)

-- A map that is built returns, for every key, the last definition that lists the key, and none if
-- no definition does.
pub lookup-build :
    (k : FunctionToolLookupKey) (ds : List ToolDefinition) (r : ToolMap)
    → build_function_tool_lookup_map ds ≡ some r
    → lookup_tool k r ≡ last_with k ds none
unfolding build_function_tool_lookup_map
lookup-build k ds r h = lookup-build_from k ds [] r h ∙ (unfold lookup_tool in refl)

abbrev pub reserved : ToolDefinition → Bool
reserved d = is_reserved_synthetic_tool_namespace (trim d.name) d.namespace

is_some-build_from :
    (ds : List ToolDefinition) (m : ToolMap) → is_some (build_from ds m) ≡ not (any reserved ds)
unfolding build_from
is_some-build_from [] m = refl
is_some-build_from (d ∷ ds) m =
    ground (arith, is_some-build_from ds (insert_keys (get_function_tool_lookup_keys d) d m))

-- The map is built exactly if no definition sits in the synthetic namespace of its own name.
pub build-is_some :
    (ds : List ToolDefinition) → is_some (build_function_tool_lookup_map ds) ≡ not (any reserved ds)
unfolding build_function_tool_lookup_map
build-is_some ds = is_some-build_from ds []

trimmed_namespace-filter :
    (n : Option String)
    → trimmed_namespace (filter_option (λ s. not (is_empty s)) n) ≡ trimmed_namespace n
unfolding trimmed_namespace trim
trimmed_namespace-filter none = refl
trimmed_namespace-filter (some s) = elim (Bool-cases (is_empty s)) [
  | inl e ↦ rw ((eq_iff s "").0 e)
  | inr e ↦ rw e
]

key-trimmed :
    (name : String) (n n' : Option String)
    → trimmed_namespace n ≡ trimmed_namespace n'
    → get_function_tool_lookup_key name n ≡ get_function_tool_lookup_key name n'
unfolding get_function_tool_lookup_key is_reserved_synthetic_tool_namespace
key-trimmed name n n' h = rw h

key-blank :
    (name : String) (n : Option String)
    → is_empty (trim name) ≡ true
    → get_function_tool_lookup_key name n ≡ none
unfolding get_function_tool_lookup_key
key-blank name n h = rw h

key_for_call_cases :
    (c : ToolCall)
    → get_function_tool_lookup_key_for_call c
      ≡ get_function_tool_lookup_key c.name (get_tool_call_namespace c)
unfolding get_function_tool_lookup_key_for_call get_tool_call_name
key_for_call_cases c = ground (arith, key-blank c.name (get_tool_call_namespace c))

-- A call and a definition of one name and namespace have one key, unless the definition is a
-- deferred top-level tool, whose key is its name's.
pub key_for_call-key_for_definition :
    (c : ToolCall) (d : ToolDefinition)
    → c.name ≡ d.name
    → c.namespace ≡ d.namespace
    → is_deferred_top d ≡ false
    → get_function_tool_lookup_key_for_call c ≡ get_function_tool_lookup_key_for_definition d
unfolding get_function_tool_lookup_key_for_definition get_tool_call_namespace
key_for_call-key_for_definition c d n s t =
    key_for_call_cases c
    ∙ rw (t, n, s) (key-trimmed d.name _ d.namespace (trimmed_namespace-filter d.namespace))

abbrev pub distinct : List String → Bool
distinct [] = true
distinct (x ∷ xs) = not (contains x xs) && distinct xs

push_key-distinct :
    (o : Option FunctionToolLookupKey) (alias : Bool) (name : String)
    → let keys = or_bare name (push_key o (if alias then name ∷ [] else [])) in
      (distinct keys ≡ true) × (keys ≢ [])
unfolding push_key
push_key-distinct none true name = (refl, λ e. cc)
push_key-distinct none false name = (refl, λ e. cc)
push_key-distinct (some k) true name =
    ground (arith, eq_iff (approval_key_value k) name, eq_iff name (approval_key_value k))
push_key-distinct (some k) false name = (refl, λ e. cc)

-- The approval keys of a name hold no key twice, and there are none exactly for a blank name.
pub approval_keys_distinct :
    (name : String) (namespace : Option String) (alias : Bool) (key : Option FunctionToolLookupKey)
    → let keys = get_function_tool_approval_keys name namespace alias key in
      (distinct keys ≡ true) × ((keys ≡ []) ↔ (trim name ≡ ""))
unfolding get_function_tool_approval_keys
approval_keys_distinct name namespace alias key = elim (Bool-cases (is_empty (trim name))) [
  | inl e ↦ rw e (refl, (λ _. (eq_iff (trim name) "").0 e, λ _. refl))
  | inr e ↦ rw e (
      let d =
        push_key-distinct (or_option key (get_function_tool_lookup_key (trim name) namespace)) alias
          (trim name) in
      (d.0, (λ h. absurd (d.1 h), λ h. cc (e, (eq_iff (trim name) "").1 h))))
]
