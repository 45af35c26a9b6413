-- ===== src/Index/Synced.antt =====
-- An index in step with the storage of its collection, and what the plan of a condition finds with it.
use rocket_joe.Base.{
  ℕ, ◌≡◌, refl, sym, ap, ◌∙◌, Bool, true, false, Option, none, some, List, [], ◌∷◌, filter, arith,
  All, if◌then◌else◌, ◌>>=◌,
}
use rocket_joe.Limit.{Limit, check}
use rocket_joe.Limit.Bounded.{bounded}
use rocket_joe.Storage.{BtreeMap, lookup}
use rocket_joe.Document.{Documents, Value, compare_value, is_some}
use rocket_joe.Expression.{CompareType, Expr}
use rocket_joe.Operators.{Output}
use rocket_joe.Operators.Predicate.{Parameters, check_predicate}
use rocket_joe.Operators.Plan.{is_can_index_find_by_predicate}
use native.Mathlib.Decide.{ℕ_discrete}
use rocket_joe.Operators.ById.{
  has_id-eq-is_some, keep, IsKeyed, find_by_id, IsDistinct, IsDistinct-filter,
}
use rocket_joe.Operators.Merge.{has_id}
use mathlib.Core.Path.{subst}
use rocket_joe.Operators.Match.{Finds, ScanFinds, IndexFinds, Runs, Means, is_given, match_plan}
use rocket_joe.Index.{Fields, Tree, Index, IndexValue, is_disk}
use rocket_joe.Index.Engine.{IndexEngine, matching_keys, deref}
use rocket_joe.Index.Scan.{Scanned, on_execute_impl, finish, search_index_memory}
use rocket_joe.Index.Search.{docs_of}
use rocket_joe.Index.Split.{accepts, compare_keys}
use rocket_joe.Index.Ranges.{accepted, search_by_index_lem}

module _ {Doc : Type 0} (id : Doc → ℕ) where
  find_by_id_absent :
      (k : ℕ) (p : Doc → Bool) (ds : List Doc)
      → is_some (find_by_id id k ds) ≡ false
      → find_by_id id k (filter p ds) ≡ none
  find_by_id_absent k p [] h = refl
  find_by_id_absent k p (d ∷ ds) h = ground (arith, find_by_id_absent k p ds)

  find_by_id-filter_distinct :
      (k : ℕ) (p : Doc → Bool) (ds : List Doc)
      → IsDistinct id ds
      → find_by_id id k (filter p ds) ≡ keep p (find_by_id id k ds)
  find_by_id-filter_distinct k p [] h = refl
  find_by_id-filter_distinct k p (d ∷ ds) h = elim (ℕ_discrete (id d) k) [
    | yes e ↦ ground (
      arith,
      e,
      find_by_id_absent k p ds,
      has_id-eq-is_some id k ds,
      ap (λ j. has_id id j ds) e,
      h.0,
    )
    | no ne ↦ ground (arith, ne, find_by_id-filter_distinct k p ds h.1)
  ]

module _ (D : Documents) (F : Fields D) (M : Tree D F) where
  open D use {Document, Key, get_document_id}

  -- `search_index(engine, {key})`; the plan asks whether it is null, the scan looks into it
  abbrev pub has_index : IndexEngine D F M → Key → Bool
  has_index engine k = is_some (matching_keys D F M engine (k ∷ []))

  abbrev pub search_index : IndexEngine D F M → Key → Option (Index D F M)
  search_index engine k = matching_keys D F M engine (k ∷ []) >>= deref D F M engine

  -- `output_` of a scan that does not wait for a disk
  abbrev pub scanned_output : Option (Scanned D F M) → Output Document
  scanned_output (some (Scanned.done out)) = out
  scanned_output _ = none

  module _ (S : BtreeMap Document) where
    abbrev pub index_scan :
        IndexEngine D F M → Parameters D → CompareType → Key → ℕ → Limit → S.Map → Output Document
    index_scan engine parameters t k v limit storage =
        scanned_output (on_execute_impl D F M (search_index engine k) t (parameters v) limit)

    -- The index over the field `k` holds the documents of the storage, once each, under the values
    -- of that field, and the order of the index agrees with the comparison of documents for the values
    -- that the index is asked for (`suits`), as those of the one type that the field has.
    pub record InSync (suits : Key → D.Element → Bool) (storage : S.Map) (k : Key)
        (index : Index D F M) : Type 0 where
      pub keys : index.keys ≡ k ∷ []
      pub in_memory : is_disk D F M index ≡ false
      pub by_id :
          (i : ℕ)
          → find_by_id get_document_id i (docs_of (M.elements index.storage_))
            ≡ lookup i (S.elements storage)
      pub distinct : IsDistinct get_document_id (docs_of (M.elements index.storage_))
      pub agrees :
          (x : D.Element)
          → suits k x ≡ true
          → All
              (λ e. compare_value D e.1.doc k (some x) ≡ compare_keys F.less e.0 (some x))
              (M.elements index.storage_)

    -- Every index that the plan may use is found, and is in step.
    abbrev pub AllInSync : (Key → D.Element → Bool) → IndexEngine D F M → S.Map → Type 0
    AllInSync suits engine storage =
        (k : Key)
        → has_index engine k ≡ true
        → (index : Index D F M) × (search_index engine k ≡ some index)
          × InSync suits storage k index

  module _ (less-asym : (a b : Value D) → F.less a b ≡ true → F.less b a ≡ false) where
    check_predicate-eq-accepts :
        (t : CompareType) (k : Key) (v : ℕ) (ps : Parameters D) (x : Value D) (d : Document)
        → is_can_index_find_by_predicate t ≡ true
        → ps v ≡ some x
        → check_predicate D t k v ps d ≡ accepts t (compare_value D d k x)
    unfolding check_predicate
    check_predicate-eq-accepts CompareType.eq k v ps x d c e = rw e refl
    check_predicate-eq-accepts CompareType.ne k v ps x d c e = rw e refl
    check_predicate-eq-accepts CompareType.gt k v ps x d c e = rw e refl
    check_predicate-eq-accepts CompareType.gte k v ps x d c e = rw e refl
    check_predicate-eq-accepts CompareType.lt k v ps x d c e = rw e refl
    check_predicate-eq-accepts CompareType.lte k v ps x d c e = rw e refl
    check_predicate-eq-accepts t k v ps x d c e = ground (arith, c)

    accepted-filter :
        (t : CompareType) (k : Key) (v : ℕ) (ps : Parameters D) (x : D.Element)
        (es : List (Value D × IndexValue Document))
        → is_can_index_find_by_predicate t ≡ true
        → ps v ≡ some (some x)
        → All (λ e. compare_value D e.1.doc k (some x) ≡ compare_keys F.less e.0 (some x)) es
        → docs_of (filter (λ e. accepts t (compare_keys F.less e.0 (some x))) es)
          ≡ filter (check_predicate D t k v ps) (docs_of es)
    accepted-filter t k v ps x [] c p a = refl
    accepted-filter t k v ps x (e ∷ es) c p a = ground (
      arith,
      check_predicate-eq-accepts t k v ps (some x) e.1.doc c p ∙ ap (accepts t) a.0,
      accepted-filter t k v ps x es c p a.1,
    )

    module _ (S : BtreeMap Document) (engine : IndexEngine D F M) (parameters : Parameters D)
        (storage : S.Map) (keyed : IsKeyed get_document_id (S.elements storage))
        (suits : Key → D.Element → Bool) (in_sync : AllInSync S suits engine storage) where
      index_finds :
          (t : CompareType) (k : Key) (v : ℕ) (x : D.Element) (index : Index D F M)
          → is_can_index_find_by_predicate t ≡ true
          → parameters v ≡ some (some x)
          → search_index engine k ≡ some index
          → suits k x ≡ true
          → InSync S suits storage k index
          → ScanFinds D S
              (has_index engine)
              (index_scan S engine parameters)
              parameters
              storage
              keyed
              t
              k
              v
      unfolding on_execute_impl
      index_finds t k v x index c p found asked sync =
          let same =
            accepted-filter t k v parameters x (M.elements index.storage_) c p
              (sync.agrees x asked) in
          record {
            docs = accepted D F M less-asym index t (some x);
            finds = record {
              by_id = λ i.
                  ap (find_by_id get_document_id i) same
                  ∙ find_by_id-filter_distinct get_document_id i
                      (check_predicate D t k v parameters) (docs_of (M.elements index.storage_))
                      sync.distinct
                  ∙ ap (keep (check_predicate D t k v parameters)) (sync.by_id i);
              distinct = subst (IsDistinct get_document_id) (sym same) (
                  IsDistinct-filter get_document_id (check_predicate D t k v parameters)
                    (docs_of (M.elements index.storage_)) sync.distinct);
            };
            scan = λ limit. rw (found, p, sync.in_memory) (at_limit limit (check limit 0));
          }
        where
          at_limit :
              (limit : Limit) (b : Bool)
              → scanned_output (
                  finish D F M (
                    if b
                    then search_index_memory D F M (some index) t (some (some x)) limit
                    else some none))
                ≡ (if b
                    then some (bounded limit (accepted D F M less-asym index t (some x)))
                    else none)
          at_limit limit true = ap some (search_by_index_lem D F M less-asym index (some x) t limit)
          at_limit limit false = refl

      IndexFinds-all :
          IndexFinds D S
            (has_index engine)
            (index_scan S engine parameters)
            parameters
            storage
            keyed
            suits
      IndexFinds-all t k v c g =
          let (index, found, sync) = in_sync k (ground (arith, c)) in
          let (x, p, asked) = given_value (parameters v) g in
          index_finds t k v x index (ground (arith, c)) p found asked sync
        where
          given_value :
              (o : Option (Value D))
              → is_given (suits k) o ≡ true
              → (x : D.Element) × (o ≡ some (some x)) × (suits k x ≡ true)
          given_value (some (some x)) g = (x, refl, g)
          given_value (some none) g = ground (arith, g)
          given_value none g = ground (arith, g)

      -- Where the order of the indexes is asymmetric, every index in use is in memory and in step with
      -- the storage, and orders its documents as their comparison does for the values in question, and
      -- the values that the scans of indexes look for are given and in question: the plan of a condition
      -- whose `$and` and `$or` have two children and whose `$not` has one finds through the engine's
      -- indexes exactly the documents that the condition asks for, each once, and under every limit
      -- the plan exists and, executed, returns as much of that list as the limit lets by.
      pub match_plan_indexed :
          {e : Expr Key} {q : Document → Bool}
          → Means D (has_index engine) parameters suits e q
          → (docs : List Document) × Finds D S
              (has_index engine)
              (index_scan S engine parameters)
              parameters
              storage
              keyed
              q
              docs
            × Runs D S
                (has_index engine)
                (index_scan S engine parameters)
                parameters
                storage
                keyed
                e
                docs
      match_plan_indexed means =
          match_plan D S (has_index engine) (index_scan S engine parameters) parameters storage
            keyed suits IndexFinds-all means
