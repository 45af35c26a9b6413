-- ===== src/Expression.antt =====
-- components/expressions/compare_expression.cpp: the tree of a condition.
use rocket_joe.Base.{ℕ, Bool, true, false}

-- `compare_type` (forward.hpp)
pub data CompareType : Type 0 where
  invalid eq ne gt lt gte lte regex any all union_and union_or union_not : CompareType
  all_true all_false : CompareType

abbrev pub is_union_compare_condition : CompareType → Bool
is_union_compare_condition CompareType.union_and = true
is_union_compare_condition CompareType.union_or = true
is_union_compare_condition CompareType.union_not = true
is_union_compare_condition _ = false

-- `compare_expression_t`: type_, key_, value_ (the id of a parameter), children_, union_
mutual
  pub data Expr (Key : Type 0) : Type 0 where
    expr : CompareType → Key → ℕ → Exprs Key → Bool → Expr Key

  pub data Exprs (Key : Type 0) : Type 0 where
    nil : Exprs Key
    cons : Expr Key → Exprs Key → Exprs Key

module _ {Key : Type 0} where
  -- the constructor: `union_` is computed once
  abbrev pub make : CompareType → Key → ℕ → Expr Key
  make type key id = expr type key id nil (is_union_compare_condition type)

  abbrev pub type : Expr Key → CompareType
  type (expr t k v cs u) = t

  abbrev pub key : Expr Key → Key
  key (expr t k v cs u) = k

  abbrev pub value : Expr Key → ℕ
  value (expr t k v cs u) = v

  abbrev pub is_union : Expr Key → Bool
  is_union (expr t k v cs u) = u

  abbrev pub set_type : CompareType → Expr Key → Expr Key
  set_type t' (expr t k v cs u) = expr t' k v cs u

  abbrev pub push_back : Exprs Key → Expr Key → Exprs Key
  push_back nil c = cons c nil
  push_back (cons e es) c = cons e (push_back es c)

  abbrev pub append_child : Expr Key → Expr Key → Expr Key
  append_child c (expr t k v cs u) = expr t k v (push_back cs c) u
