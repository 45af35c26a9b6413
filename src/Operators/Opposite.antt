-- ===== src/Operators/Opposite.antt =====
-- Comparisons and their opposites.
use rocket_joe.Base.{ℕ, ◌≡◌, refl, true, not, ◌||◌, some, arith}
use rocket_joe.Document.{Compare, Documents, Value, compare_value}
use rocket_joe.Expression.{CompareType}
use rocket_joe.Operators.Predicate.{Parameters, check_predicate, is_less, is_equals, is_more}
use rocket_joe.Operators.Plan.{is_can_index_find_by_predicate}

-- The opposite of a comparison.
abbrev pub opposite : CompareType → CompareType
opposite CompareType.eq = CompareType.ne
opposite CompareType.ne = CompareType.eq
opposite CompareType.gt = CompareType.lte
opposite CompareType.lte = CompareType.gt
opposite CompareType.lt = CompareType.gte
opposite CompareType.gte = CompareType.lt
opposite t = t

not-is_equals :
    (c : Compare)
    → (is_less c ≡ not (is_equals c || is_more c)) × (is_more c ≡ not (is_equals c || is_less c))
not-is_equals Compare.less = (refl, refl)
not-is_equals Compare.equals = (refl, refl)
not-is_equals Compare.more = (refl, refl)

module _ (D : Documents) where
  open D use {Document, Key}

  -- Where its parameter is known, a comparison accepts a document exactly where its opposite, `ne`
  -- for `eq`, `lte` for `gt`, `gte` for `lt` and back, rejects it.
  pub check_predicate-opposite :
      (t : CompareType) (k : Key) (v : ℕ) (ps : Parameters D) (d : Document) (x : Value D)
      → is_can_index_find_by_predicate t ≡ true
      → ps v ≡ some x
      → check_predicate D (opposite t) k v ps d ≡ not (check_predicate D t k v ps d)
  unfolding check_predicate
  check_predicate-opposite CompareType.eq k v ps d x h e = rw e
  check_predicate-opposite CompareType.ne k v ps d x h e = rw e (ground arith)
  check_predicate-opposite CompareType.gt k v ps d x h e =
      rw e (ground (arith, not-is_equals (compare_value D d k x)))
  check_predicate-opposite CompareType.lte k v ps d x h e =
      rw e (ground (arith, not-is_equals (compare_value D d k x)))
  check_predicate-opposite CompareType.lt k v ps d x h e =
      rw e (ground (arith, not-is_equals (compare_value D d k x)))
  check_predicate-opposite CompareType.gte k v ps d x h e =
      rw e (ground (arith, not-is_equals (compare_value D d k x)))
  check_predicate-opposite _ k v ps d x h e = ground (arith, h)
