-- ===== src/Index/Tests.antt =====
-- The people of the tests of the operators, with an index over their ages.
use rocket_joe.Base.{
  ℕ, zero, suc, ◌≡◌, refl, true, false, not, ◌&&◌, Option, none, some, List, [], ◌∷◌, arith, ◌==◌,
  if◌then◌else◌,
}
use rocket_joe.Limit.{limit_one}
use rocket_joe.Limit.Bounded.{bounded}
use rocket_joe.Storage.MultiList.{less_by, multi_list}
use rocket_joe.Document.{compare_value}
use rocket_joe.Expression.{CompareType}
use rocket_joe.Operators.Match.{Means, Finds, Runs, leaf_test}
use rocket_joe.Operators.Write.{operator_insert}
use rocket_joe.Operators.People.{
  person_id, people, people_map, crowd, crowd-IsKeyed, ages, adult, old, adult_not_old,
}
use rocket_joe.Index.{Fields, Tree, Index, IndexValue}
use rocket_joe.Index.Engine.{
  IndexEngine, make_index_engine, add_index, drop_index, matching_id, deref, vector_eq,
}
use rocket_joe.Index.Owned.{Reached, matching_keys-owned}
use rocket_joe.Index.Scan.{search_by_index}
use rocket_joe.Index.Ranges.{accepted, search_by_index_lem}
use rocket_joe.Index.Synced.{InSync, AllInSync, has_index, index_scan, match_plan_indexed}
use rocket_joe.Index.Inserted.{HasFields, Performed, operator_insert-AllInSync}

-- a missing value stands before all others
abbrev rank : Option ℕ → ℕ
rank none = 0
rank (some n) = suc n

abbrev fields : Fields people
fields = record {
  get_value = λ d k. if k == 0 then some d.1 else none;
  less = less_by rank;
  key_eq = ◌==◌;
}

abbrev tree : Tree people fields
tree = multi_list (IndexValue (ℕ × ℕ)) rank

less-asym : (a b : Option ℕ) → less_by rank a b ≡ true → less_by rank b a ≡ false
less-asym a b h = ground (arith, h)

abbrev by_age : Index people fields tree
by_age = record {
  name = 97 ∷ [];
  keys = 0 ∷ [];
  disk_agent = 0;
  storage_ = record {
    items =
        (some 17, record { id = 2; doc = (2, 17) })
        ∷ (some 30, record { id = 1; doc = (1, 30) })
        ∷ (some 45, record { id = 3; doc = (3, 45) })
        ∷ [];
    sorted = ((omega arith, (omega arith, tt)), ((omega arith, tt), (tt, tt)));
  };
}

search_by_index_lem_example :
    search_by_index people fields tree by_age CompareType.gte (some 18) limit_one
    ≡ bounded limit_one (accepted people fields tree less-asym by_age CompareType.gte (some 18))
search_by_index_lem_example =
    search_by_index_lem people fields tree less-asym by_age (some 18) CompareType.gte limit_one

-- the engine with that index
ages_index : IndexEngine people fields tree
ages_index =
    (add_index people fields tree (make_index_engine people fields tree) (0 ∷ []) 7 by_age).0

by_age-InSync : InSync people fields tree people_map (λ k x. true) crowd 0 by_age
unfolding compare_value
by_age-InSync = record {
  keys = refl;
  in_memory = refl;
  by_id = λ i. ground arith;
  distinct = (refl, (refl, (refl, tt)));
  agrees = λ x asked. (ground arith, (ground arith, (ground arith, tt)));
}

ages_index-AllInSync : AllInSync people fields tree people_map (λ k x. true) ages_index crowd
unfolding ages_index add_index
ages_index-AllInSync zero h = (by_age, refl, by_age-InSync)
ages_index-AllInSync (suc k) h = ground (arith, h)

match_plan_indexed_example :
    (docs : List (ℕ × ℕ)) × Finds people people_map
      (has_index people fields tree ages_index)
      (index_scan people fields tree people_map ages_index ages)
      ages
      crowd
      crowd-IsKeyed
      (λ d.
        leaf_test people (has_index people fields tree ages_index) ages adult d
        && not (leaf_test people (has_index people fields tree ages_index) ages old d))
      docs
    × Runs people people_map
        (has_index people fields tree ages_index)
        (index_scan people fields tree people_map ages_index ages)
        ages
        crowd
        crowd-IsKeyed
        adult_not_old
        docs
match_plan_indexed_example =
    match_plan_indexed people fields tree less-asym people_map ages_index ages crowd crowd-IsKeyed
      (λ k x. true) ages_index-AllInSync
      (Means.both 0 0 (Means.leaf adult refl (ground arith))
        (Means.neither 0 0 (Means.leaf old refl (ground arith))))

abbrev newcomers : List (ℕ × ℕ)
newcomers = (5, 20) ∷ (4, 18) ∷ []

has_age : (d : ℕ × ℕ) → HasFields people fields tree people_map (λ k x. true) ages_index d
unfolding ages_index add_index compare_value
has_age d zero h = record { exists = refl; agrees = λ x asked. ground arith }
has_age d (suc k) h = ground (arith, h)

operator_insert-AllInSync_example :
    Performed people fields tree people_map
      (λ k x. true)
      true
      ages_index
      (operator_insert person_id people_map newcomers none crowd)
operator_insert-AllInSync_example =
    operator_insert-AllInSync people fields tree people_map (λ k x. true) true ages_index newcomers
      crowd (refl, (refl, tt)) (refl, (refl, tt)) (has_age (5, 20), (has_age (4, 18), tt))
      ages_index-AllInSync

key_eq_refl : (k : ℕ) → (k == k) ≡ true
key_eq_refl k = ground arith

ages_index-Reached : Reached people fields tree ages_index
unfolding ages_index
ages_index-Reached = Reached.added 7 by_age refl Reached.made

matching_keys-owned_example :
    (index : Index people fields tree) × (deref people fields tree ages_index 7 ≡ some index)
    × (vector_eq ◌==◌ index.keys (0 ∷ []) ≡ true)
unfolding ages_index add_index
matching_keys-owned_example =
    matching_keys-owned people fields tree key_eq_refl (0 ∷ []) 7 ages_index-Reached refl

-- an index that is dropped is still found by its id, at an address that is free
dropped_id :
    (engine : IndexEngine people fields tree) × (drop_index people fields tree ages_index 7
      ≡ some engine)
    × (matching_id people fields tree engine 0 ≡ some 7)
    × (deref people fields tree engine 7 ≡ none)
unfolding ages_index add_index drop_index
dropped_id = (_, refl, refl, refl)
