-- ===== src/Operators/Tests.antt =====
-- Conditions on documents that are an id and an age.
use rocket_joe.Base.{
  true, ℕ, ◌≡◌, refl, Bool, false, not, ◌&&◌, none, some, List, [], ◌∷◌, ◌++◌, filter, map, arith,
  if◌then◌else◌,
}
use rocket_joe.Limit.{Limit, check, limit_one}
use rocket_joe.Limit.Bounded.{bounded}
use rocket_joe.Storage.{lookup}
use rocket_joe.Storage.Assoc.{Ordered}
use rocket_joe.Document.{compare_document}
use rocket_joe.Document.Mirror.{mirror, compare_document-mirror}
use rocket_joe.Expression.{CompareType}
use rocket_joe.Operators.{Output}
use rocket_joe.Operators.Predicate.{check_predicate}
use rocket_joe.Operators.Opposite.{check_predicate-opposite}
use rocket_joe.Operators.Scan.{full_scan, full_scan_lem, values}
use rocket_joe.Operators.Merge.{merge_or, has_id, added, merge_or_lem}
use rocket_joe.Operators.ById.{IsKeyed, or_else}
use rocket_joe.Operators.Write.{operator_insert, operator_delete}
use rocket_joe.Operators.Stored.{
  find_last, operator_insert_lem, operator_delete_lem, Reached, Reached-IsKeyed,
}
use rocket_joe.Operators.People.{
  compare_ages, person_id, people, people_map, crowd, crowd-IsKeyed, ages, adult, old,
  adult_not_old,
}
use rocket_joe.Operators.Match.{Means, Finds, Runs, IndexFinds, leaf_test, match_plan}

abbrev no_index : ℕ → Bool
no_index k = false

abbrev no_index_scan : CompareType → ℕ → ℕ → Limit → Ordered (ℕ × ℕ) → Output (ℕ × ℕ)
no_index_scan t k v limit storage = none

compare_ages-mirror : (a b : ℕ) → compare_ages a b ≡ mirror (compare_ages b a)
compare_ages-mirror a b = ground arith

compare_document-mirror_example :
    compare_document people (1, 30) 0 (2, 17) 0
    ≡ mirror (compare_document people (2, 17) 0 (1, 30) 0)
compare_document-mirror_example =
    compare_document-mirror people compare_ages-mirror (1, 30) 0 (2, 17) 0

full_scan_lem_example :
    full_scan people_map (leaf_test people no_index ages adult) limit_one crowd ≡ (
      if check limit_one 0
      then some
          (bounded limit_one (filter (leaf_test people no_index ages adult) (values crowd.items)))
      else none)
full_scan_lem_example =
    full_scan_lem people_map (leaf_test people no_index ages adult) limit_one crowd

merge_or_lem_example :
    merge_or person_id limit_one (some (some ((1, 30) ∷ []))) (some (some ((2, 17) ∷ []))) ≡ (
      if check limit_one 0
      then some
          (bounded limit_one (((1, 30) ∷ []) ++ added person_id ((1, 30) ∷ []) ((2, 17) ∷ [])))
      else none)
merge_or_lem_example = merge_or_lem person_id limit_one ((1, 30) ∷ []) ((2, 17) ∷ [])

no_index_finds :
    IndexFinds people people_map no_index no_index_scan ages crowd crowd-IsKeyed (λ k x. true)
no_index_finds t k v h g = ground (arith, h)

match_plan_example :
    (docs : List (ℕ × ℕ)) × Finds people people_map no_index no_index_scan ages crowd crowd-IsKeyed
      (λ d. leaf_test people no_index ages adult d && not (leaf_test people no_index ages old d))
      docs
    × Runs people people_map no_index no_index_scan ages crowd crowd-IsKeyed adult_not_old docs
match_plan_example =
    match_plan people people_map no_index no_index_scan ages crowd crowd-IsKeyed (λ k x. true)
      no_index_finds
      (Means.both 0 0 (Means.leaf adult refl refl) (Means.neither 0 0 (Means.leaf old refl refl)))

abbrev nobody : Ordered (ℕ × ℕ)
nobody = record { items = []; ordered = tt }

abbrev two_people : List (ℕ × ℕ)
two_people = (4, 20) ∷ (2, 18) ∷ []

operator_insert_lem_example :
    (lookup 2 (operator_insert person_id people_map two_people none crowd).storage.items
      ≡ or_else (find_last person_id 2 two_people) (lookup 2 crowd.items))
    × ((operator_insert person_id people_map two_people none crowd).output_ ≡ some two_people)
    × ((operator_insert person_id people_map two_people none crowd).modified_
        ≡ some (map person_id two_people))
operator_insert_lem_example = operator_insert_lem person_id people_map two_people none crowd 2

operator_delete_lem_example :
    lookup 2 (operator_delete person_id people_map (some (some two_people)) crowd).storage.items
    ≡ (if has_id person_id 2 two_people then none else lookup 2 crowd.items)
operator_delete_lem_example =
    operator_delete_lem person_id people_map (some (some two_people)) crowd 2

abbrev after_writes : Ordered (ℕ × ℕ)
after_writes =
    (operator_delete person_id people_map (some (some ((4, 20) ∷ [])))
      (operator_insert person_id people_map two_people none nobody).storage).storage

Reached-IsKeyed_example : IsKeyed person_id after_writes.items
Reached-IsKeyed_example = Reached-IsKeyed person_id people_map after_writes (
    Reached.deleted (some (some ((4, 20) ∷ [])))
      (Reached.inserted two_people none (Reached.empty nobody refl)))

check_predicate-opposite_example :
    check_predicate people CompareType.lte 0 0 ages (1, 30)
    ≡ not (check_predicate people CompareType.gt 0 0 ages (1, 30))
check_predicate-opposite_example =
    check_predicate-opposite people CompareType.gt 0 0 ages (1, 30) (some 18) refl refl
