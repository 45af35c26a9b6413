-- ===== src/Operators/People.antt =====
-- Documents that are an id and an age, for the tests.
use rocket_joe.Base.{ℕ, refl, true, false, none, some, [], ◌∷◌, arith, ltb, ◌==◌, if◌then◌else◌}
use rocket_joe.Storage.{BtreeMap}
use rocket_joe.Storage.Assoc.{Ordered, assoc_map}
use rocket_joe.Document.{Compare, Documents}
use rocket_joe.Expression.{CompareType, Expr, expr, nil, cons}
use rocket_joe.Operators.Predicate.{Parameters}
use rocket_joe.Operators.ById.{IsKeyed}

abbrev pub compare_ages : ℕ → ℕ → Compare
compare_ages a b =
    if ltb a b then Compare.less else if ltb b a then Compare.more else Compare.equals

abbrev pub person_id : ℕ × ℕ → ℕ
person_id d = d.0

-- The age stands under the key 0.
abbrev pub people : Documents
people = record {
  Document = ℕ × ℕ;
  Node = ℕ;
  Element = ℕ;
  Key = ℕ;
  get_document_id = person_id;
  is_valid = λ d. true;
  find_node_const = λ d k. if k == 0 then some d.1 else none;
  get_mut = λ n. some n;
  compare_element = compare_ages;
  is_string = λ d k. false;
  regex_match = λ d k v. false;
}

abbrev pub people_map : BtreeMap (ℕ × ℕ)
people_map = assoc_map

-- three people, by id
abbrev pub crowd : Ordered (ℕ × ℕ)
crowd = record {
  items = (1, (1, 30)) ∷ (2, (2, 17)) ∷ (3, (3, 45)) ∷ [];
  ordered = ((omega arith, (omega arith, tt)), ((omega arith, tt), (tt, tt)));
}

-- the parameter 0 is 18, the parameter 1 is 40
abbrev pub ages : Parameters people
ages k = if k == 0 then some (some 18) else if k == 1 then some (some 40) else none

abbrev pub adult : Expr ℕ
adult = expr CompareType.gte 0 0 nil false

abbrev pub old : Expr ℕ
old = expr CompareType.gt 0 1 nil false

abbrev pub adult_not_old : Expr ℕ
adult_not_old =
    expr CompareType.union_and 0 0
      (cons adult (cons (expr CompareType.union_not 0 0 (cons old nil) true) nil)) true

pub crowd-IsKeyed : IsKeyed person_id crowd.items
crowd-IsKeyed = (refl, (refl, (refl, tt)))
