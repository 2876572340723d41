-- ===== src/StrictSchema/Ensure.antt =====
-- `ensure_node` and `resolve_ref` of crates/agents-core/src/strict_schema.rs, step by step.
use Prim.Native.Char.{code}
use openai_agents_rust.Prelude.{
  ℕ, zero, suc, String, Bool, true, false, Option, none, some, List, [], ◌∷◌, nat_eq, if◌then◌else◌,
}
use openai_agents_rust.Json.{
  Value, Values, Fields, bool, string, array, object, nil, cons, end, field, lookup, insert, get,
}
use openai_agents_rust.ToolIdentity.{concat}
use openai_agents_rust.Sandbox.Paths.{segments}
use openai_agents_rust.StrictSchema.{
  Outcome, done, failed, exhausted, ◌>>=◌, remove, insert_all, append, close_object, require_all,
  drop_null_default,
}

-- `str::strip_prefix`
unfoldable pub strip_prefix : String → String → Option String
strip_prefix String.[] s = some s
strip_prefix (String.◌∷◌ c p) String.[] = none
strip_prefix (String.◌∷◌ c p) (String.◌∷◌ d s) =
    let rest = strip_prefix p s in if nat_eq (code c) (code d) then rest else none

unfoldable follow : List String → Value → Option Value
unfolding get
follow [] current = some current
follow (segment ∷ path) current = elim (get segment current) [
  | none ↦ none
  | some next ↦ follow path next
]

unfoldable pub resolve_ref : Value → String → Option Value
unfolding strip_prefix segments follow
resolve_ref root reference = elim (strip_prefix "#/" reference) [
  | none ↦ none
  | some path ↦ follow (segments path) root
]

abbrev pub unresolved : String → String
unresolved reference = concat "could not resolve schema reference `" (concat reference "`")

-- The steps of `ensure_node` on the fields of a node, `ensure` being `ensure_node` itself.
module _ (ensure : Value → Outcome Value) where
  unfoldable pub each_field : Fields → Outcome Fields
  each_field end = done end
  each_field (field k v fs) = ensure v >>= λ w. each_field fs >>= λ gs. done (field k w gs)

  unfoldable pub each_item : Values → Outcome Values
  each_item nil = done nil
  each_item (cons v vs) = ensure v >>= λ w. each_item vs >>= λ ws. done (cons w ws)

  -- `if let Some(Value::Object(..)) = object.get_mut(key)`
  abbrev pub in_object : String → Option Value → Fields → Outcome Fields
  in_object k (some (object gs)) fs = each_field gs >>= λ hs. done (insert k (object hs) fs)
  in_object k _ fs = done fs

  abbrev pub in_array : String → Option Value → Fields → Outcome Fields
  in_array k (some (array vs)) fs = each_item vs >>= λ ws. done (insert k (array ws) fs)
  in_array k _ fs = done fs

  abbrev pub in_node : String → Option Value → Fields → Outcome Fields
  in_node k none fs = done fs
  in_node k (some v) fs = ensure v >>= λ w. done (insert k w fs)

  -- The members of `oneOf` go to the end of `anyOf`, if that is absent or an array.
  abbrev pub extend_any_of : Option Value → Values → Fields → Fields
  extend_any_of none ws fs = insert "anyOf" (array ws) fs
  extend_any_of (some (array vs)) ws fs = insert "anyOf" (array (append vs ws)) fs
  extend_any_of (some _) ws fs = fs

  abbrev pub one_of : Option Value → Fields → Outcome Fields
  one_of (some (array vs)) fs = each_item vs >>= λ ws.
      done (extend_any_of (lookup "anyOf" (remove "oneOf" fs)) ws (remove "oneOf" fs))
  one_of none fs = done fs
  one_of (some _) fs = done (remove "oneOf" fs)

  abbrev merge_node : Value → Fields → Fields
  merge_node (object gs) fs = insert_all gs fs
  merge_node _ fs = fs

  abbrev pub one_field : Fields → Bool
  one_field (field k v end) = true
  one_field _ = false

  abbrev pub expand : String → Option Value → Fields → Outcome Value
  expand reference none fs = failed (unresolved reference)
  expand reference (some (object gs)) fs =
      ensure (object (remove "$ref" (insert_all (remove "$ref" fs) gs)))
  expand reference (some _) fs = done (object fs)

  abbrev pub expand_ref : Value → Option Value → Fields → Outcome Value
  expand_ref root (some (string reference)) fs = elim (one_field fs) [
    | true ↦ done (object fs)
    | false ↦ expand reference (resolve_ref root reference) fs
  ]
  expand_ref root _ fs = done (object fs)

  unfoldable pub finish_node : Value → Fields → Outcome Value
  unfolding drop_null_default lookup resolve_ref insert_all remove
  finish_node root fs =
      expand_ref root (lookup "$ref" (drop_null_default fs)) (drop_null_default fs)

  abbrev pub all_of : Value → Option Value → Fields → Outcome Value
  all_of root none fs = finish_node root fs
  all_of root (some (array (cons v nil))) fs =
      ensure v >>= λ w. ensure (object (merge_node w (remove "allOf" fs)))
  all_of root (some (array vs)) fs =
      each_item vs >>= λ ws. finish_node root (insert "allOf" (array ws) (remove "allOf" fs))
  all_of root (some _) fs = finish_node root (remove "allOf" fs)

  -- What stands below a node is rewritten, in the order of the code.
  unfoldable pub ensure_parts : Fields → Outcome Fields
  unfolding lookup each_field each_item close_object require_all remove append
  ensure_parts fs = in_object "$defs" (lookup "$defs" fs) fs >>= λ f1.
      in_object "definitions" (lookup "definitions" f1) f1 >>= λ f2. close_object f2 >>= λ f3.
      in_object "properties" (lookup "properties" (require_all f3)) (require_all f3) >>= λ f4.
      in_node "items" (lookup "items" f4) f4 >>= λ f5.
      in_array "anyOf" (lookup "anyOf" f5) f5 >>= λ f6. one_of (lookup "oneOf" f6) f6

  unfoldable pub ensure_object : Value → Fields → Outcome Value
  unfolding ensure_parts finish_node lookup each_item remove insert_all
  ensure_object root fs = ensure_parts fs >>= λ gs. all_of root (lookup "allOf" gs) gs

unfoldable pub ensure_node : ℕ → Value → Value → Outcome Value
unfolding ensure_object
ensure_node zero root node = exhausted
ensure_node (suc fuel) root (object fs) = ensure_object (ensure_node fuel root) root fs
ensure_node (suc fuel) root node = done node

abbrev pub empty_schema : Value
empty_schema = object (
    field "additionalProperties" (bool false) (
      field "properties" (object end)
        (field "required" (array nil) (field "type" (string "object") end))))

unfoldable pub ensure_strict_json_schema : ℕ → Value → Outcome Value
unfolding ensure_node
ensure_strict_json_schema fuel (object end) = done empty_schema
ensure_strict_json_schema fuel schema = ensure_node fuel schema schema
