-- ===== src/Operators/Aggregate/Tests.antt =====
-- The least and the greatest age of people.
use rocket_joe.Base.{◌≡◌, refl, some, List, [], ◌∷◌, ℕ, arith}
use rocket_joe.Document.{compare_document}
use rocket_joe.Operators.People.{people}
use rocket_joe.Operators.Aggregate
use rocket_joe.Operators.Aggregate.{Aggregate, less, execute_aggregate}
use rocket_joe.Operators.Aggregate.Extreme.{IsOrder, Holds, execute_aggregate-Holds}

abbrev some_people : List (ℕ × ℕ)
some_people = (1, 30) ∷ (2, 17) ∷ (3, 45) ∷ []

people-IsOrder : (key : ℕ) → IsOrder (less people key)
unfolding less compare_document
people-IsOrder key = record {
  asymmetric = λ a b h. ground (arith, h);
  below = λ a b c h k. ground (arith, h, k);
  above = λ a b c h k. ground (arith, h, k);
}

execute_aggregate-Holds_example :
    (r : Aggregate.Result people) × ((execute_aggregate people
          (Aggregate.min 0)
          (some (some some_people))
        ≡ some (r ∷ []))
      × Holds people some_people (Aggregate.min 0) r)
execute_aggregate-Holds_example =
    execute_aggregate-Holds people (Aggregate.min 0) some_people people-IsOrder

oldest :
    execute_aggregate people (Aggregate.max 0) (some (some some_people))
    ≡ some (Aggregate.value_of (3, 45) 0 ∷ [])
unfolding execute_aggregate compare_document
oldest = refl
