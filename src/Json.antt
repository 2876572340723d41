-- ===== src/Json.antt =====
-- JSON values, for `serde_json::Value` as crates/agents-core/src reads and builds it.
-- A number is kept as its literal text: the modelled code never computes with one. An object
-- lists its fields in key order, as the map of `serde_json` without `preserve_order` does.
pub mod Laws
pub mod Maps
use Prim.Native.Nat.{Ordering}
use Prim.Native.String
use openai_agents_rust.Prelude.{
  String, Bool, true, false, ◌&&◌, Option, none, some, str_eq, if◌then◌else◌,
}

mutual
  pub data Value : Type 0 where
    null : Value
    bool : Bool → Value
    number : String → Value
    string : String → Value
    array : Values → Value
    object : Fields → Value

  pub data Values : Type 0 where
    nil : Values
    cons : Value → Values → Values

  pub data Fields : Type 0 where
    end : Fields
    field : String → Value → Fields → Fields

abbrev pub bool_eq : Bool → Bool → Bool
bool_eq true b = b
bool_eq false true = false
bool_eq false false = true

-- `PartialEq for Value`
unfoldable mutual
  pub value_eq : Value → Value → Bool
  value_eq null null = true
  value_eq (bool a) (bool b) = bool_eq a b
  value_eq (number a) (number b) = str_eq a b
  value_eq (string a) (string b) = str_eq a b
  value_eq (array a) (array b) = values_eq a b
  value_eq (object a) (object b) = fields_eq a b
  value_eq _ _ = false

  pub values_eq : Values → Values → Bool
  values_eq nil nil = true
  values_eq (cons a as') (cons b bs) = value_eq a b && values_eq as' bs
  values_eq _ _ = false

  pub fields_eq : Fields → Fields → Bool
  fields_eq end end = true
  fields_eq (field k a as') (field j b bs) = str_eq k j && (value_eq a b && fields_eq as' bs)
  fields_eq _ _ = false

unfoldable pub lookup : String → Fields → Option Value
lookup k end = none
lookup k (field j v fs) = if str_eq j k then some v else lookup k fs

-- `Map::insert`: an old value is replaced, and a new key stands in its place in the order.
unfoldable pub insert : String → Value → Fields → Fields
insert k v end = field k v end
insert k v (field j w fs) = elim (String.compare k j) [
  | Ordering.lt ↦ field k v (field j w fs)
  | Ordering.eq ↦ field j v fs
  | Ordering.gt ↦ field j w (insert k v fs)
]

-- `Value::get`
unfoldable pub get : String → Value → Option Value
unfolding lookup
get k (object fs) = lookup k fs
get k _ = none

-- `Value::as_str`
unfoldable pub as_str : Value → Option String
as_str (string s) = some s
as_str _ = none

abbrev pub opt_string : Option String → Value
opt_string none = null
opt_string (some s) = string s
