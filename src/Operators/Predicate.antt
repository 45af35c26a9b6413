-- ===== src/Operators/Predicate.antt =====
-- operators/predicates/simple_predicate.cpp: a leaf of a condition as a test of a document.
use rocket_joe.Base.{ℕ, Bool, true, false, not, ◌&&◌, ◌||◌, Option, none, some}
use rocket_joe.Document.{Compare, Documents, Value, compare_value}
use rocket_joe.Expression.{CompareType}

abbrev pub is_less : Compare → Bool
is_less Compare.less = true
is_less _ = false

abbrev pub is_equals : Compare → Bool
is_equals Compare.equals = true
is_equals _ = false

abbrev pub is_more : Compare → Bool
is_more Compare.more = true
is_more _ = false

module _ (D : Documents) where
  open D use {Document, Key, is_string, regex_match}

  -- `storage_parameters::parameters`, an unordered map from the id of a parameter to its value
  abbrev pub Parameters : Type 0
  Parameters = ℕ → Option (Value D)

  -- `it == parameters->parameters.end()` gives false
  abbrev pub with_parameter : Option (Value D) → (Value D → Bool) → Bool
  with_parameter none test = false
  with_parameter (some v) test = test v

  abbrev pub compares : CompareType → Document → Key → Value D → Bool
  compares CompareType.eq d k v = is_equals (compare_value D d k v)
  compares CompareType.ne d k v = not (is_equals (compare_value D d k v))
  compares CompareType.gt d k v = is_more (compare_value D d k v)
  compares CompareType.gte d k v =
      is_equals (compare_value D d k v) || is_more (compare_value D d k v)
  compares CompareType.lt d k v = is_less (compare_value D d k v)
  compares CompareType.lte d k v =
      is_equals (compare_value D d k v) || is_less (compare_value D d k v)
  compares CompareType.regex d k v = is_string d k && regex_match d k v
  compares _ d k v = true

  -- The function that `create_simple_predicate` makes for an expression, applied.
  unfoldable pub check_predicate : CompareType → Key → ℕ → Parameters → Document → Bool
  check_predicate CompareType.all_true k v ps d = true
  check_predicate CompareType.all_false k v ps d = false
  check_predicate CompareType.invalid k v ps d = true
  check_predicate CompareType.any k v ps d = true
  check_predicate CompareType.all k v ps d = true
  check_predicate CompareType.union_and k v ps d = true
  check_predicate CompareType.union_or k v ps d = true
  check_predicate CompareType.union_not k v ps d = true
  check_predicate t k v ps d = with_parameter (ps v) (compares t d k)
