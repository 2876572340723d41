-- ===== src/Json/Laws.antt =====
-- `value_eq` of Json.antt decides equality.
use openai_agents_rust.Prelude.{
  ◌≡◌, refl, ◌↔◌, Bool, true, ◌&&◌, arith, eq_iff, eq_refl, str_eq, true_of_and,
}
use openai_agents_rust.Json.{
  Value, Values, Fields, null, bool, number, string, array, object, nil, cons, end, field, bool_eq,
  value_eq, values_eq, fields_eq,
}

bool_eq-eq : (a b : Bool) → bool_eq a b ≡ true → a ≡ b
bool_eq-eq a b h = ground arith

mutual
  unfolding value_eq

  eq_of_value_eq : (a b : Value) → value_eq a b ≡ true → a ≡ b
  eq_of_value_eq null null h = refl
  eq_of_value_eq (bool a) (bool b) h = ground (arith, bool_eq-eq a b)
  eq_of_value_eq (number a) (number b) h = ground (arith, eq_iff a b)
  eq_of_value_eq (string a) (string b) h = ground (arith, eq_iff a b)
  eq_of_value_eq (array a) (array b) h = ground (arith, eq_of_values_eq a b)
  eq_of_value_eq (object a) (object b) h = ground (arith, eq_of_fields_eq a b)
  eq_of_value_eq _ _ h = cc

  eq_of_values_eq : (a b : Values) → values_eq a b ≡ true → a ≡ b
  eq_of_values_eq nil nil h = refl
  eq_of_values_eq (cons a as') (cons b bs) h =
      let t = true_of_and (value_eq a b) (values_eq as' bs) h in
      cc (eq_of_value_eq a b t.0, eq_of_values_eq as' bs t.1)
  eq_of_values_eq _ _ h = cc

  eq_of_fields_eq : (a b : Fields) → fields_eq a b ≡ true → a ≡ b
  eq_of_fields_eq end end h = refl
  eq_of_fields_eq (field k a as') (field j b bs) h =
      let t = true_of_and (str_eq k j) (value_eq a b && fields_eq as' bs) h in
      let u = true_of_and (value_eq a b) (fields_eq as' bs) t.1 in
      cc ((eq_iff k j).0 t.0, eq_of_value_eq a b u.0, eq_of_fields_eq as' bs u.1)
  eq_of_fields_eq _ _ h = cc

mutual
  unfolding value_eq

  value_eq_refl : (a : Value) → value_eq a a ≡ true
  value_eq_refl null = refl
  value_eq_refl (bool a) = ground arith
  value_eq_refl (number a) = eq_refl a
  value_eq_refl (string a) = eq_refl a
  value_eq_refl (array a) = values_eq_refl a
  value_eq_refl (object a) = fields_eq_refl a

  values_eq_refl : (a : Values) → values_eq a a ≡ true
  values_eq_refl nil = refl
  values_eq_refl (cons a as') = ground (arith, value_eq_refl a, values_eq_refl as')

  fields_eq_refl : (a : Fields) → fields_eq a a ≡ true
  fields_eq_refl end = refl
  fields_eq_refl (field k a as') = ground (arith, eq_refl k, value_eq_refl a, fields_eq_refl as')

-- The equality test of JSON values holds exactly between equal values.
pub value_eq_iff : (a b : Value) → (value_eq a b ≡ true) ↔ (a ≡ b)
value_eq_iff a b = (eq_of_value_eq a b, λ e. rw e (value_eq_refl b))
