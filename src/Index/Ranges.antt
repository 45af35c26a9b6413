-- ===== src/Index/Ranges.antt =====
-- The ranges that a comparison reads, against a test of the values in the index.
use rocket_joe.Base.{
  ℕ, ◌≡◌, refl, ap, ◌∙◌, true, false, List, [], ◌++◌, filter, arith, take, drop, length, append-nil,
  drop-of_le,
}
use mathlib.Core.List.{map-append}
use rocket_joe.Limit.{Limit}
use rocket_joe.Limit.Bounded.{bounded}
use rocket_joe.Document.{Compare, Documents, Value}
use rocket_joe.Expression.{CompareType}
use rocket_joe.Index.{Fields, Tree, Index, IndexValue, range_elements}
use rocket_joe.Index.Search.{docs_of, ranged, search_by_index-ranged}
use rocket_joe.Index.Scan.{search_range_by_index, search_by_index}
use rocket_joe.Index.Split.{
  accepts, compare_keys, Bounds, if_accepts, filter-parts, take_rest, sub_zero,
}

module _ (D : Documents) (F : Fields D) (M : Tree D F)
    (less-asym : (a b : Value D) → F.less a b ≡ true → F.less b a ≡ false) where
  open D use {Document}

  storage-Bounds :
      (m : M.Map) (v : Value D)
      → Bounds F.less less-asym v (M.elements m) (M.lower_bound m v) (M.upper_bound m v)
  storage-Bounds m v = record {
    before_lower = M.take-lower_bound m v;
    behind_lower = M.drop-lower_bound m v;
    before_upper = M.take-upper_bound m v;
    behind_upper = M.drop-upper_bound m v;
  }

  -- the documents whose values the comparison accepts
  abbrev pub accepted : Index D F M → CompareType → Value D → List Document
  accepted index t v =
      docs_of (filter (λ e. accepts t (compare_keys F.less e.0 v)) (M.elements index.storage_))

  module _ (index : Index D F M) (v : Value D) where
    abbrev all_elements : List (Value D × IndexValue Document)
    all_elements = M.elements index.storage_

    abbrev lower : ℕ
    lower = M.lower_bound index.storage_ v

    abbrev upper : ℕ
    upper = M.upper_bound index.storage_ v

    abbrev piece : CompareType → Compare → List (Value D × IndexValue Document) → List Document
    piece t c es = docs_of (
        if_accepts F.less less-asym v all_elements lower upper (storage-Bounds index.storage_ v) t c
          es)

    accepted-parts :
        (t : CompareType)
        → accepted index t v
          ≡ piece t Compare.less (take lower all_elements)
            ++ (piece t Compare.equals (range_elements D F M index (lower, upper))
                ++ piece t Compare.more (drop upper all_elements))
    accepted-parts t =
        ap docs_of (
          filter-parts F.less less-asym v all_elements lower upper (storage-Bounds index.storage_ v)
            t)
        ∙ rw (map-append, map-append) refl

    range-lower : range_elements D F M index (0, lower) ≡ take lower all_elements
    range-lower = ap (λ n. take n all_elements) (sub_zero lower)

    range-upper : range_elements D F M index (upper, length all_elements) ≡ drop upper all_elements
    range-upper = take_rest upper all_elements

    range-end : range_elements D F M index (length all_elements, length all_elements) ≡ []
    range-end =
        take_rest (length all_elements) all_elements
        ∙ drop-of_le (length all_elements) all_elements (omega arith)

    ranged-search_range_by_index :
        (t : CompareType)
        → ranged D F M index (search_range_by_index D F M index t v) ≡ accepted index t v
    unfolding search_range_by_index
    ranged-search_range_by_index CompareType.eq = rw (accepted-parts CompareType.eq) refl
    ranged-search_range_by_index CompareType.ne =
        rw (accepted-parts CompareType.ne, range-lower, range-upper, append-nil) refl
    ranged-search_range_by_index CompareType.gt =
        rw (accepted-parts CompareType.gt, range-upper, append-nil) refl
    ranged-search_range_by_index CompareType.lt =
        rw (accepted-parts CompareType.lt, range-lower, append-nil) refl
    ranged-search_range_by_index CompareType.gte =
        rw (accepted-parts CompareType.gte, range-upper, append-nil) refl
    ranged-search_range_by_index CompareType.lte =
        rw (accepted-parts CompareType.lte, range-lower, append-nil) refl
    ranged-search_range_by_index t = rw (accepted-parts t, range-end) refl

    -- A search in an index returns the documents whose value the comparison accepts, in the order of
    -- the index, as far as the limit lets.
    pub search_by_index_lem :
        (t : CompareType) (limit : Limit)
        → search_by_index D F M index t v limit ≡ bounded limit (accepted index t v)
    search_by_index_lem t limit =
        search_by_index-ranged D F M index t v limit
        ∙ ap (bounded limit) (ranged-search_range_by_index t)
