-- ===== src/Policy/Condition.antt =====
-- Conditions on a field of the arguments: `evaluateCondition` and `evaluateString` of
-- policy/engine.go, `Condition` and `CondValue` of config/config.go.
pub mod Polarity
use flux7_mesh.Base.{
  Bool, true, false, not, none, some, List, [], ◌∷◌, if◌then◌else◌, Text, text_eq, has_prefix,
  has_suffix, contains as text_contains, any,
}
use flux7_mesh.Policy.Value.{FloatOps, Value, null, Params, extract_field, render, to_float}

pub data Operator : Type 0 where
  contains not_contains starts_with not_starts_with ends_with not_ends_with : Operator
  lt le gt ge eq ne : Operator
  unknown : Text → Operator

-- The right-hand side of a condition.
pub record CondValue (N : Type 0) : Type 0 where
  pub num : N
  pub is_num : Bool
  pub strings : List Text

pub record Condition (N : Type 0) : Type 0 where
  pub field : Text
  pub operator : Operator
  pub value : CondValue N

abbrev pub is_string_operator : Operator → Bool
is_string_operator contains = true
is_string_operator not_contains = true
is_string_operator starts_with = true
is_string_operator not_starts_with = true
is_string_operator ends_with = true
is_string_operator not_ends_with = true
is_string_operator _ = false

-- The `switch` of `evaluateString`.
unfoldable pub string_test : Operator → Text → List Text → Bool
string_test contains s needles = any (λ n. text_contains s n) needles
string_test not_contains s needles = not (any (λ n. text_contains s n) needles)
string_test starts_with s needles = any (λ n. has_prefix s n) needles
string_test not_starts_with s needles = not (any (λ n. has_prefix s n) needles)
string_test ends_with s needles = any (λ n. has_suffix s n) needles
string_test not_ends_with s needles = not (any (λ n. has_suffix s n) needles)
string_test _ s needles = false

unfoldable pub evaluate_string : Operator → Text → List Text → Bool
unfolding string_test
evaluate_string op s [] = false
evaluate_string op s (n ∷ ns) = string_test op s (n ∷ ns)

-- A comparison as text: only equality means something.
unfoldable pub compare_texts : Operator → Text → List Text → Bool
compare_texts eq s strings = any (λ t. text_eq s t) strings
compare_texts ne s strings = not (any (λ t. text_eq s t) strings)
compare_texts _ s strings = false

module _ {N : Type 0} (ops : FloatOps N) where
  unfoldable pub compare_numbers : Operator → N → N → Bool
  compare_numbers lt a b = ops.lt a b
  compare_numbers le a b = ops.le a b
  compare_numbers gt a b = ops.lt b a
  compare_numbers ge a b = ops.le b a
  compare_numbers eq a b = ops.eq a b
  compare_numbers ne a b = not (ops.eq a b)
  compare_numbers _ a b = false

  -- The part of `evaluateCondition` after the string operators.
  unfoldable pub compare_value : Condition N → Value N → Bool
  unfolding compare_texts compare_numbers to_float
  compare_value c v = elim (to_float ops v) [
    | none ↦ compare_texts c.operator (render ops v) c.value.strings
    | some n ↦
        if c.value.is_num
        then compare_numbers c.operator n c.value.num
        else compare_texts c.operator (render ops v) c.value.strings
  ]

  unfoldable pub evaluate_present : Condition N → Value N → Bool
  unfolding evaluate_string compare_value
  evaluate_present c v =
      if is_string_operator c.operator
      then evaluate_string c.operator (render ops v) c.value.strings
      else compare_value c v

  abbrev pub is_nil : Value N → Bool
  is_nil null = true
  is_nil _ = false

  unfoldable pub evaluate_condition : Condition N → Params N → Bool
  unfolding evaluate_present
  evaluate_condition c params =
      let v = extract_field c.field params in if is_nil v then false else evaluate_present c v
