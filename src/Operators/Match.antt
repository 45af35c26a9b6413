-- ===== src/Operators/Match.antt =====
-- The plan of a condition, executed, against the meaning of the condition.
use rocket_joe.Base.{
  ℕ, ◌≡◌, Bool, true, false, not, ◌&&◌, ◌||◌, Option, none, some, List, ◌++◌, filter, arith,
  if◌then◌else◌, Bool-cases, inl, inr,
}
use rocket_joe.Limit.{Limit, check, unlimit}
use rocket_joe.Limit.Bounded.{bounded}
use rocket_joe.Storage.{BtreeMap, lookup}
use rocket_joe.Document.{Documents}
use rocket_joe.Expression.{CompareType, Expr, Exprs, expr, nil, cons}
use rocket_joe.Operators.{Output}
use rocket_joe.Operators.Predicate.{Parameters, check_predicate}
use rocket_joe.Operators.Scan.{full_scan_lem, values}
use rocket_joe.Operators.Merge.{has_id, added, merge_and_lem, merge_or_lem, merge_not_lem}
use rocket_joe.Operators.ById.{
  keep, IsKeyed, find_by_id, IsDistinct, has_id-eq-is_some, find_by_id-filter,
  find_by_id-added_from, find_by_id-values, find_by_id-scan, IsDistinct-filter, IsDistinct-added,
  IsDistinct-values, IsDistinct-values-filter,
}
use rocket_joe.Operators.Plan.{
  Operator, merge_one, merge_two, MergeType, is_operator_merge, create_plan_match_, create_scan,
  is_can_index_find_by_predicate, on_execute,
}

-- The value of a parameter is given, and it is one of those in question.
abbrev pub is_given : {A : Type 0} → (A → Bool) → Option (Option A) → Bool
is_given suits (some (some x)) = suits x
is_given suits _ = false

module _ (D : Documents) (has_index : D.Key → Bool) (parameters : Parameters D) where
  open D use {Document, Key}

  abbrev pub leaf_test : Expr Key → Document → Bool
  leaf_test (expr t k v cs u) d = check_predicate D t k v parameters d

-- `suits` says which values an index over a key can be asked for.
module _ (D : Documents) (has_index : D.Key → Bool) (parameters : Parameters D)
    (suits : D.Key → D.Element → Bool) where
  open D use {Document, Key}

  -- The scan of an index needs a value to look for.
  abbrev pub leaf_given : Expr Key → Bool
  leaf_given (expr t k v cs u) =
      not (is_can_index_find_by_predicate t && has_index k) || is_given (suits k) (parameters v)

  -- What a condition asks of a document, where `$and` and `$or` have two children and `$not` one.
  pub data Means : Expr Key → (Document → Bool) → Type 0 where
    leaf :
        (e : Expr Key)
        → is_operator_merge e ≡ false
        → leaf_given e ≡ true
        → Means e (leaf_test D has_index parameters e)
    both :
        {a b : Expr Key} {p q : Document → Bool} (k : Key) (v : ℕ)
        → Means a p
        → Means b q
        → Means (expr CompareType.union_and k v (cons a (cons b nil)) true) (λ d. p d && q d)
    either :
        {a b : Expr Key} {p q : Document → Bool} (k : Key) (v : ℕ)
        → Means a p
        → Means b q
        → Means (expr CompareType.union_or k v (cons a (cons b nil)) true) (λ d. p d || q d)
    neither :
        {a : Expr Key} {p : Document → Bool} (k : Key) (v : ℕ)
        → Means a p
        → Means (expr CompareType.union_not k v (cons a nil) true) (λ d. not (p d))

module _ (D : Documents) (S : BtreeMap D.Document) (has_index : D.Key → Bool)
    (index_scan : CompareType → D.Key → ℕ → Limit → S.Map → Output D.Document)
    (parameters : Parameters D) (storage : S.Map)
    (keyed : IsKeyed D.get_document_id (S.elements storage)) where
  open D use {Document, Key, get_document_id}

  -- `docs` holds, once each, exactly the documents of the storage that satisfy `p`.
  pub record Finds (p : Document → Bool) (docs : List Document) : Type 0 where
    pub by_id : (k : ℕ) → find_by_id get_document_id k docs ≡ keep p (lookup k (S.elements storage))
    pub distinct : IsDistinct get_document_id docs

  Finds-scan : (p : Document → Bool) → Finds p (filter p (values (S.elements storage)))
  Finds-scan p = record {
    by_id = λ k.
        find_by_id-scan get_document_id k p (S.elements storage) keyed
          (S.elements-IsAscending storage);
    distinct = IsDistinct-filter get_document_id p (values (S.elements storage)) (
        IsDistinct-values get_document_id (S.elements storage) keyed
          (S.elements-IsAscending storage));
  }

  Finds-and :
      {p q : Document → Bool} (left right : List Document)
      → Finds p left
      → Finds q right
      → Finds
          (λ d. p d && q d)
          (filter (λ d. has_id get_document_id (get_document_id d) right) left)
  Finds-and left right l r = record {
    by_id = λ k. ground (
      arith,
      find_by_id-filter get_document_id k (λ j. has_id get_document_id j right) left,
      has_id-eq-is_some get_document_id k right,
      l.by_id k,
      r.by_id k,
    );
    distinct = IsDistinct-filter get_document_id _ left l.distinct;
  }

  Finds-or :
      {p q : Document → Bool} (left right : List Document)
      → Finds p left
      → Finds q right
      → Finds (λ d. p d || q d) (left ++ added get_document_id left right)
  Finds-or left right l r = record {
    by_id = λ k.
        ground (arith, find_by_id-added_from get_document_id k left right, l.by_id k, r.by_id k);
    distinct = IsDistinct-added get_document_id left right l.distinct;
  }

  Finds-not :
      {p : Document → Bool} (left : List Document)
      → Finds p left
      → Finds
          (λ d. not (p d))
          (values (filter (λ e. not (has_id get_document_id e.0 left)) (S.elements storage)))
  Finds-not left l = record {
    by_id = λ k. ground (
      arith,
      find_by_id-values get_document_id k (λ j. not (has_id get_document_id j left))
          (S.elements storage) keyed,
      has_id-eq-is_some get_document_id k left,
      l.by_id k,
    );
    distinct =
        IsDistinct-values-filter get_document_id (λ e. not (has_id get_document_id e.0 left))
          (S.elements storage) keyed (S.elements-IsAscending storage);
  }

  -- The plan of `e` under a limit returns the first of `docs`, as many as the limit lets by.
  pub record Runs (e : Expr Key) (docs : List Document) : Type 0 where
    pub under :
        (limit : Limit)
        → (op : Operator Key) × (create_plan_match_ has_index e limit ≡ some op)
          × (on_execute D S index_scan parameters op storage
              ≡ (if check limit 0 then some (bounded limit docs) else none))

  run_unlimit :
      {e : Expr Key} {docs : List Document}
      → Runs e docs
      → (op : Operator Key) × (create_plan_match_ has_index e unlimit ≡ some op)
        × (on_execute D S index_scan parameters op storage ≡ some docs)
  unfolding check
  run_unlimit run = run.under unlimit

  -- The scan of an index finds what the comparison accepts, and keeps to its limit.
  pub record ScanFinds (t : CompareType) (k : Key) (v : ℕ) : Type 0 where
    pub docs : List Document
    pub finds : Finds (check_predicate D t k v parameters) docs
    pub scan :
        (limit : Limit)
        → index_scan t k v limit storage
          ≡ (if check limit 0 then some (bounded limit docs) else none)

  -- for every comparison that the plan hands to an index
  abbrev pub IndexFinds : (Key → D.Element → Bool) → Type 0
  IndexFinds suits =
      (t : CompareType) (k : Key) (v : ℕ)
      → is_can_index_find_by_predicate t && has_index k ≡ true
      → is_given (suits k) (parameters v) ≡ true
      → ScanFinds t k v

  planned :
      (t : CompareType) (k : Key) (v : ℕ) (cs : Exprs Key) (u : Bool) (limit : Limit)
      → is_operator_merge (expr t k v cs u) ≡ false
      → create_plan_match_ has_index (expr t k v cs u) limit
        ≡ some (create_scan has_index t k v limit)
  unfolding create_plan_match_
  planned t k v nil u limit h = ground arith
  planned t k v (cons a nil) u limit h = ground arith
  planned t k v (cons a (cons b r)) u limit h = ground arith

  scan_docs :
      (suits : Key → D.Element → Bool) (t : CompareType) (k : Key) (v : ℕ)
      → IndexFinds suits
      → not (is_can_index_find_by_predicate t && has_index k) || is_given (suits k) (parameters v)
        ≡ true
      → (docs : List Document) × Finds (check_predicate D t k v parameters) docs
        × ((limit : Limit)
            → on_execute D S index_scan parameters (create_scan has_index t k v limit) storage
              ≡ (if check limit 0 then some (bounded limit docs) else none))
  unfolding on_execute
  scan_docs suits t k v indexed g =
      elim (Bool-cases (is_can_index_find_by_predicate t && has_index k)) [
        | inl e ↦
            let found = indexed t k v e (ground (arith, e, g)) in
            (found.docs, found.finds, λ limit. rw e (found.scan limit))
        | inr e ↦ (
          filter (check_predicate D t k v parameters) (values (S.elements storage)),
          Finds-scan (check_predicate D t k v parameters),
          λ limit. rw e (full_scan_lem S (check_predicate D t k v parameters) limit storage),
        )
      ]

  -- a leaf is a scan of the index for its key, where there is one, or else of the storage
  leaf_docs :
      (suits : Key → D.Element → Bool) (e : Expr Key)
      → is_operator_merge e ≡ false
      → leaf_given D has_index parameters suits e ≡ true
      → IndexFinds suits
      → (docs : List Document) × Finds (leaf_test D has_index parameters e) docs × Runs e docs
  leaf_docs suits (expr t k v cs u) h g indexed =
      let (docs, finds, runs) = scan_docs suits t k v indexed g in
      (
        docs,
        finds,
        record {
          under =
              λ limit. (create_scan has_index t k v limit, planned t k v cs u limit h, runs limit);
        },
      )

  module _ {a b : Expr Key} {left right : List Document} (run_a : Runs a left)
      (run_b : Runs b right) where
    Runs-and :
        (k : Key) (v : ℕ)
        → Runs
            (expr CompareType.union_and k v (cons a (cons b nil)) true)
            (filter (λ d. has_id get_document_id (get_document_id d) right) left)
    unfolding create_plan_match_ on_execute
    Runs-and k v =
        let (op_a, plan_a, out_a) = run_unlimit run_a in
        let (op_b, plan_b, out_b) = run_unlimit run_b in
        record {
          under = λ limit. (
            merge_two MergeType.and_ limit op_a op_b,
            rw (plan_a, plan_b),
            rw (out_a, out_b) (merge_and_lem get_document_id limit left right),
          );
        }

    Runs-or :
        (k : Key) (v : ℕ)
        → Runs
            (expr CompareType.union_or k v (cons a (cons b nil)) true)
            (left ++ added get_document_id left right)
    unfolding create_plan_match_ on_execute
    Runs-or k v =
        let (op_a, plan_a, out_a) = run_unlimit run_a in
        let (op_b, plan_b, out_b) = run_unlimit run_b in
        record {
          under = λ limit. (
            merge_two MergeType.or_ limit op_a op_b,
            rw (plan_a, plan_b),
            rw (out_a, out_b) (merge_or_lem get_document_id limit left right),
          );
        }

  Runs-not :
      {a : Expr Key} {left : List Document}
      → Runs a left
      → (k : Key) (v : ℕ)
      → Runs
          (expr CompareType.union_not k v (cons a nil) true)
          (values (filter (λ e. not (has_id get_document_id e.0 left)) (S.elements storage)))
  unfolding create_plan_match_ on_execute
  Runs-not {left = left} run k v =
      let (op, plan, out) = run_unlimit run in
      record {
        under = λ limit. (
          merge_one MergeType.not_ limit op,
          rw plan,
          rw out (merge_not_lem get_document_id S limit left storage),
        );
      }

  -- Where the scan of every index in use finds what its comparison accepts for the values in question,
  -- and the values that these comparisons ask for are given and in question, the plan of a condition
  -- whose `$and` and `$or` have two children and whose `$not` has one finds the documents that the
  -- condition asks for, each once: there is a list of exactly these documents such that under every
  -- limit the plan exists and, executed, returns as much of that list as the limit lets by (a null
  -- output where it forbids the first document).
  pub match_plan :
      (suits : Key → D.Element → Bool) {e : Expr Key} {p : Document → Bool}
      → IndexFinds suits
      → Means D has_index parameters suits e p
      → (docs : List Document) × Finds p docs × Runs e docs
  match_plan suits indexed (Means.leaf e h g) = leaf_docs suits e h g indexed
  match_plan suits indexed (Means.both k v m n) =
      let (left, finds_left, run_left) = match_plan suits indexed m in
      let (right, finds_right, run_right) = match_plan suits indexed n in
      (
        filter (λ d. has_id get_document_id (get_document_id d) right) left,
        Finds-and left right finds_left finds_right,
        Runs-and run_left run_right k v,
      )
  match_plan suits indexed (Means.either k v m n) =
      let (left, finds_left, run_left) = match_plan suits indexed m in
      let (right, finds_right, run_right) = match_plan suits indexed n in
      (
        left ++ added get_document_id left right,
        Finds-or left right finds_left finds_right,
        Runs-or run_left run_right k v,
      )
  match_plan suits indexed (Means.neither k v m) =
      let (left, finds_left, run_left) = match_plan suits indexed m in
      (
        values (filter (λ e. not (has_id get_document_id e.0 left)) (S.elements storage)),
        Finds-not left finds_left,
        Runs-not run_left k v,
      )
