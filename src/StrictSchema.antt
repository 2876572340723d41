-- ===== src/StrictSchema.antt =====
-- `ensure_strict_json_schema` of crates/agents-core/src/strict_schema.rs, which rewrites a JSON schema
-- into the strict subset of structured outputs. A node that is rewritten in place is returned. The
-- code recurs without a bound, also into a schema that a reference names, so the recursion is on fuel.
pub mod Ensure
pub mod Steps
pub mod Branches
pub mod Objects
pub mod Stages
pub mod Strict
pub mod Sizes
pub mod Ends
pub mod Terminates
mod Tests
use openai_agents_rust.Prelude.{
  ℕ, zero, suc, String, Bool, true, false, Option, none, some, str_eq, if◌then◌else◌,
}
use openai_agents_rust.Json.{
  Value, Values, Fields, null, bool, number, string, array, object, nil, cons, end, field, lookup,
  insert, get, value_eq,
}
use openai_agents_rust.ToolIdentity.{concat}
use openai_agents_rust.Runner.Transcript.{starts_with}
use openai_agents_rust.Sandbox.Paths.{segments}

-- The result of a rewriting: a `UserError` holds its message.
pub data Outcome {ℓ} (A : Type ℓ) : Type ℓ where
  done : A → Outcome A
  failed : String → Outcome A
  exhausted : Outcome A

-- The `?` operator, before the rest of the function.
infixl 5 ◌>>=◌
abbrev pub ◌>>=◌ {ℓ κ} : {A : Type ℓ} {B : Type κ} → Outcome A → (A → Outcome B) → Outcome B
done a >>= f = f a
failed e >>= f = failed e
exhausted >>= f = exhausted

-- `Map::remove`
unfoldable pub remove : String → Fields → Fields
remove k end = end
remove k (field j v fs) = let rest = remove k fs in if str_eq j k then rest else field j v rest

-- `insert` for every field, in order
unfoldable pub insert_all : Fields → Fields → Fields
unfolding insert
insert_all end fs = fs
insert_all (field k v gs) fs = insert_all gs (insert k v fs)

unfoldable pub key_names : Fields → Values
key_names end = nil
key_names (field k v fs) = cons (string k) (key_names fs)

abbrev pub key_list : Value → Values
key_list (object fs) = key_names fs
key_list _ = nil

unfoldable pub append : Values → Values → Values
append nil ws = ws
append (cons v vs) ws = cons v (append vs ws)

abbrev pub is_object_type : Option Value → Bool
is_object_type (some (string s)) = str_eq s "object"
is_object_type _ = false

abbrev pub open_error : String
open_error = "additionalProperties must be false for strict object schemas"

-- The field `additionalProperties` of an object schema
abbrev pub close_with : Option Value → Fields → Outcome Fields
close_with none fs = done (insert "additionalProperties" (bool false) fs)
close_with (some (bool true)) fs = failed open_error
close_with (some _) fs = done fs

unfoldable pub close_object : Fields → Outcome Fields
unfolding lookup insert
close_object fs =
    if is_object_type (lookup "type" fs)
    then close_with (lookup "additionalProperties" fs) fs
    else done fs

abbrev pub require_keys : Option Value → Fields → Fields
require_keys none fs = fs
require_keys (some v) fs = insert "required" (array (key_list v)) fs

unfoldable pub require_all : Fields → Fields
unfolding lookup insert key_names
require_all fs = require_keys (lookup "properties" fs) fs

abbrev pub drop_null : Option Value → Fields → Fields
drop_null (some null) fs = remove "default" fs
drop_null _ fs = fs

unfoldable pub drop_null_default : Fields → Fields
unfolding lookup remove
drop_null_default fs = drop_null (lookup "default" fs) fs
