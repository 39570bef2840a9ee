-- ===== src/Policy/Condition/Polarity.antt =====
-- The positive and the negated operators.
use flux7_mesh.Base.{
  ◌≡◌, Bool, true, false, not, ◌&&◌, ◌||◌, Option, none, some, List, [], ◌∷◌, arith,
}
use flux7_mesh.Policy.Value.{FloatOps, Value, Params, extract_field}
use flux7_mesh.Policy.Condition.{
  Operator, contains, not_contains, starts_with, not_starts_with, ends_with, not_ends_with, eq, ne,
  Condition, is_string_operator, is_nil, string_test, evaluate_string, compare_texts,
  compare_numbers, compare_value, evaluate_present, evaluate_condition,
}

-- The operator that the documentation calls the negation of this one.
abbrev pub negation : Operator → Option Operator
negation contains = some not_contains
negation starts_with = some not_starts_with
negation ends_with = some not_ends_with
negation eq = some ne
negation _ = none

abbrev pub has_any {ℓ} : {A : Type ℓ} → List A → Bool
has_any [] = false
has_any (x ∷ xs) = true

module _ {N : Type 0} (ops : FloatOps N) where
  -- The field is there, and a string operator has an operand.
  abbrev pub is_evaluable : Condition N → Params N → Bool
  is_evaluable c params =
      not (is_nil ops (extract_field c.field params))
      && (not (is_string_operator c.operator) || has_any c.value.strings)

  compare_value-negation :
      (c : Condition N) (v : Value N)
      → c.operator ≡ eq
      → compare_value ops (record c { operator = ne }) v ≡ not (compare_value ops c v)
  unfolding compare_value compare_texts compare_numbers
  compare_value-negation c v h = rw h (ground arith)

  -- A condition and the one with the negated operator never hold together, and one of them holds
  -- if the condition can be evaluated; where the field is missing, or where an operator on texts has
  -- no operand, neither does.
  pub evaluate_condition-negation :
      (c : Condition N) (op : Operator) (params : Params N)
      → negation c.operator ≡ some op
      → (evaluate_condition ops (record c { operator = op }) params
          ≡ (is_evaluable c params && not (evaluate_condition ops c params)))
        × ((evaluate_condition ops c params && not (is_evaluable c params)) ≡ false)
  unfolding evaluate_condition evaluate_present evaluate_string string_test
  evaluate_condition-negation c op params h =
      ground (arith, compare_value-negation c (extract_field c.field params))
