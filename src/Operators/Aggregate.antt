-- ===== src/Operators/Aggregate.antt =====
-- operators/aggregate: operator_aggregate.cpp, operator_count.cpp, operator_min.cpp and
-- operator_max.cpp. The document of a result is shown by the one value that is set in it.
pub mod Extreme
mod Tests
use rocket_joe.Base.{ℕ, Bool, Option, none, some, List, [], ◌∷◌, length, if◌then◌else◌}
use rocket_joe.Document.{Documents, compare_document}
use rocket_joe.Operators.{Output}
use rocket_joe.Operators.Predicate.{is_less}

-- The aggregates modelled, with the key of a minimum and of a maximum.
pub data Aggregate (Key : Type 0) : Type 0 where
  count : Aggregate Key
  min max : Key → Aggregate Key

-- `doc->set(key_result_, …)`: a number, or the value of a document under a key
pub data Result (D : Documents) : Type 0 where
  number : ℕ → Result D
  value_of : Documents.Document D → Documents.Key D → Result D

module _ (D : Documents) where
  open D use {Document, Key}

  -- the comparison that `min_element` and `max_element` get
  unfoldable pub less : Key → Document → Document → Bool
  less key doc1 doc2 = is_less (compare_document D doc1 key doc2 key)

  -- `std::min_element` and `std::max_element` behind the first element, `best` so far
  abbrev pub min_element : (Document → Document → Bool) → Document → List Document → Document
  min_element comp best [] = best
  min_element comp best (d ∷ ds) = min_element comp (if comp d best then d else best) ds

  abbrev pub max_element : (Document → Document → Bool) → Document → List Document → Document
  max_element comp best [] = best
  max_element comp best (d ∷ ds) = max_element comp (if comp best d then d else best) ds

  abbrev pub of_documents : Aggregate Key → List Document → Result D
  of_documents Aggregate.count ds = number (length ds)
  of_documents (Aggregate.min key) [] = number 0
  of_documents (Aggregate.min key) (d ∷ ds) = value_of (min_element (less key) d ds) key
  of_documents (Aggregate.max key) [] = number 0
  of_documents (Aggregate.max key) (d ∷ ds) = value_of (max_element (less key) d ds) key

  -- from the output of the child, `none` where there is no child
  unfoldable pub aggregate_impl : Aggregate Key → Option (Output Document) → Result D
  unfolding less
  aggregate_impl a (some (some ds)) = of_documents a ds
  aggregate_impl a _ = number 0

  -- `on_execute_impl`: the one document of the output
  unfoldable pub execute_aggregate : Aggregate Key → Option (Output Document) → Output (Result D)
  unfolding aggregate_impl
  execute_aggregate a child = some (aggregate_impl a child ∷ [])
