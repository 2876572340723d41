-- ===== src/StrictSchema/Tests.antt =====
-- Runs of the code of crates/agents-core/src/strict_schema.rs, and instances of its laws.
use openai_agents_rust.Prelude.{ℕ, zero, suc, true, false, ◌≡◌, ◌≢◌, refl, arith}
use openai_agents_rust.Json.{Value, bool, string, array, object, nil, cons, end, field, lookup}
use openai_agents_rust.StrictSchema.{done, failed, exhausted, open_error}
use openai_agents_rust.StrictSchema.Ensure.{ensure_node, ensure_strict_json_schema, unresolved}
use openai_agents_rust.StrictSchema.Objects.{IsStrict}
use openai_agents_rust.StrictSchema.Strict.{InFields, SubSchema, ensure_strict_json_schema-IsStrict}
use openai_agents_rust.StrictSchema.Sizes.{plain, size}
use openai_agents_rust.StrictSchema.Terminates.{ensure_strict_json_schema_terminates}

abbrev text : Value
text = object (field "type" (string "string") end)

abbrev person : Value
person =
    object
      (field "properties" (object (field "name" text end)) (field "type" (string "object") end))

abbrev strict_person : Value
strict_person = object (
    field "additionalProperties" (bool false) (
      field "properties" (object (field "name" text end))
        (field "required" (array (cons (string "name") nil)) (field "type" (string "object") end))))

makes_object_schema_strict : ensure_strict_json_schema 9 person ≡ done strict_person
unfolding ensure_strict_json_schema
makes_object_schema_strict = refl

-- A reference with a sibling to a schema that holds the reference
abbrev next : Value
next =
    object
      (field "$ref" (string "#/definitions/node") (field "description" (string "the rest") end))

abbrev node : Value
node = object (field "properties" (object (field "next" next end)) end)

abbrev list_schema : Value
list_schema = object (field "definitions" (object (field "node" node end)) end)

expands_references :
    ensure_node 9
      (object (field "definitions" (object (field "text" text end)) end))
      (object (field "$ref" (string "#/definitions/text") (field "title" (string "t") end)))
    ≡ done (object (field "title" (string "t") (field "type" (string "string") end)))
unfolding ensure_node
expands_references = refl

abbrev expanded : Value
expanded = object (
    field "description" (string "the rest")
      (field "properties" (object (field "next" next end)) end))

expanded_again :
    (fuel : ℕ)
    → ensure_node fuel list_schema next ≡ exhausted
    → ensure_node (suc fuel) list_schema expanded ≡ exhausted
unfolding ensure_node
expanded_again fuel e = rw e refl

-- Such a reference is expanded without end, whatever the fuel.
recursive_reference : (fuel : ℕ) → ensure_node fuel list_schema next ≡ exhausted
unfolding ensure_node
recursive_reference zero = refl
recursive_reference (suc zero) = refl
recursive_reference (suc (suc fuel)) = expanded_again fuel (recursive_reference fuel)

abbrev team : Value
team = object (field "properties" (object (field "lead" person end)) end)

abbrev strict_team : Value
strict_team = object (
    field "properties" (object (field "lead" strict_person end))
      (field "required" (array (cons (string "lead") nil)) end))

ensure_strict_json_schema-IsStrict_example : IsStrict strict_person
unfolding ensure_strict_json_schema lookup
ensure_strict_json_schema-IsStrict_example =
    ensure_strict_json_schema-IsStrict 9 team strict_team strict_person refl
      (SubSchema.below_fields "properties" refl refl InFields.first SubSchema.itself)

ensure_strict_json_schema_terminates_example : ensure_strict_json_schema 9 person ≢ exhausted
unfolding plain size
ensure_strict_json_schema_terminates_example =
    ensure_strict_json_schema_terminates person 9 refl (omega arith)

refuses_open_objects :
    ensure_strict_json_schema 9
      (object (field "additionalProperties" (bool true) (field "type" (string "object") end)))
    ≡ failed open_error
unfolding ensure_strict_json_schema
refuses_open_objects = refl

refuses_unknown_references :
    ensure_strict_json_schema 9
      (object (field "$ref" (string "#/a") (field "title" (string "t") end)))
    ≡ failed (unresolved "#/a")
unfolding ensure_strict_json_schema
refuses_unknown_references = refl
