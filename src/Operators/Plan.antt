-- ===== src/Operators/Plan.antt =====
-- physical_plan_generator/impl/create_plan_match.cpp: the operators for a condition, and
-- `operator_t::on_execute` on them where no operator waits for the disk: the children are executed,
-- then the operator itself.
use rocket_joe.Base.{ℕ, Bool, true, false, ◌&&◌, Option, none, some, List, [], ◌∷◌, if◌then◌else◌}
use rocket_joe.Limit.{Limit, unlimit}
use rocket_joe.Storage.{BtreeMap}
use rocket_joe.Document.{Documents}
use rocket_joe.Expression.{CompareType, Expr, Exprs, expr, nil, cons}
use rocket_joe.Operators.{Output}
use rocket_joe.Operators.Predicate.{Parameters, check_predicate}
use rocket_joe.Operators.Scan.{full_scan, transfer_scan}
use rocket_joe.Operators.Merge.{merge_and, merge_or, merge_not}

pub data MergeType : Type 0 where
  and_ or_ not_ : MergeType

-- The operators that a match is made of. A scan keeps its expression: type, key, parameter.
pub data Operator (Key : Type 0) : Type 0 where
  transfer : Limit → Operator Key
  full : CompareType → Key → ℕ → Limit → Operator Key
  index : CompareType → Key → ℕ → Limit → Operator Key
  merge_one : MergeType → Limit → Operator Key → Operator Key
  merge_two : MergeType → Limit → Operator Key → Operator Key → Operator Key

abbrev pub has_children : {Key : Type 0} → Exprs Key → Bool
has_children nil = false
has_children (cons e es) = true

abbrev pub is_operator_merge : {Key : Type 0} → Expr Key → Bool
is_operator_merge (expr t k v cs u) = u && has_children cs

-- none where `create_operator_merge` returns null
abbrev pub create_operator_merge : CompareType → Option MergeType
create_operator_merge CompareType.union_and = some MergeType.and_
create_operator_merge CompareType.union_or = some MergeType.or_
create_operator_merge CompareType.union_not = some MergeType.not_
create_operator_merge _ = none

abbrev pub is_can_index_find_by_predicate : CompareType → Bool
is_can_index_find_by_predicate CompareType.eq = true
is_can_index_find_by_predicate CompareType.ne = true
is_can_index_find_by_predicate CompareType.gt = true
is_can_index_find_by_predicate CompareType.lt = true
is_can_index_find_by_predicate CompareType.gte = true
is_can_index_find_by_predicate CompareType.lte = true
is_can_index_find_by_predicate _ = false

module _ {Key : Type 0} (has_index : Key → Bool) where
  -- `op->set_children(left, right)`; `right` is null where there is one child. Without an operator
  -- or a child the program faults: `none`.
  abbrev pub with_children :
      Option MergeType
      → Limit
      → Option (Operator Key)
      → Option (Option (Operator Key))
      → Option (Operator Key)
  with_children (some m) limit (some left) none = some (merge_one m limit left)
  with_children (some m) limit (some left) (some (some right)) = some (merge_two m limit left right)
  with_children _ limit _ _ = none

  abbrev pub create_scan : CompareType → Key → ℕ → Limit → Operator Key
  create_scan t k v limit =
      if is_can_index_find_by_predicate t && has_index k
      then index t k v limit
      else full t k v limit

  -- Children beyond the second are not looked at.
  unfoldable pub create_plan_match_ : Expr Key → Limit → Option (Operator Key)
  create_plan_match_ (expr t k v nil u) limit = some (create_scan t k v limit)
  create_plan_match_ (expr t k v (cons e nil) u) limit =
      let left = create_plan_match_ e unlimit in
      if u
      then with_children (create_operator_merge t) limit left none
      else some (create_scan t k v limit)
  create_plan_match_ (expr t k v (cons e (cons f rest)) u) limit =
      let left = create_plan_match_ e unlimit in
      let right = create_plan_match_ f unlimit in
      if u
      then with_children (create_operator_merge t) limit left (some right)
      else some (create_scan t k v limit)

  -- A node without expressions is a scan of the whole collection.
  abbrev pub create_plan_match : List (Expr Key) → Limit → Option (Operator Key)
  create_plan_match [] limit = some (transfer limit)
  create_plan_match (e ∷ es) limit = create_plan_match_ e limit

module _ (D : Documents) (S : BtreeMap D.Document)
    (index_scan : CompareType → D.Key → ℕ → Limit → S.Map → Output D.Document)
    (parameters : Parameters D) where
  open D use {Document, Key, get_document_id}

  -- `on_merge_impl` of the three operators
  abbrev pub merge :
      MergeType
      → Limit
      → Option (Output Document)
      → Option (Output Document)
      → S.Map
      → Output Document
  merge MergeType.and_ limit left right storage = merge_and get_document_id limit left right
  merge MergeType.or_ limit left right storage = merge_or get_document_id limit left right
  merge MergeType.not_ limit left right storage = merge_not get_document_id S limit left storage

  unfoldable pub on_execute : Operator Key → S.Map → Output Document
  on_execute (transfer limit) storage = transfer_scan S limit storage
  on_execute (full t k v limit) storage =
      full_scan S (check_predicate D t k v parameters) limit storage
  on_execute (index t k v limit) storage = index_scan t k v limit storage
  on_execute (merge_one m limit left) storage =
      merge m limit (some (on_execute left storage)) none storage
  on_execute (merge_two m limit left right) storage =
      merge m limit (some (on_execute left storage)) (some (on_execute right storage)) storage
