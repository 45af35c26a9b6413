-- ===== src/Operators.antt =====
-- components/physical_plan/collection/operators: the operators of a physical plan.
pub mod Collect
pub mod Predicate
pub mod Scan
pub mod Merge
pub mod ById
pub mod Plan
pub mod Match
pub mod Opposite
pub mod Write
pub mod Stored
pub mod Join
pub mod Aggregate
pub mod People
mod Tests
use rocket_joe.Base.{Option, none, some, List, []}

-- `output()` of an operator: `operator_data_t` behind a pointer that may be null.
abbrev pub Output : Type 0 → Type 0
Output Doc = Option (List Doc)

-- What a reader of the output finds.
abbrev pub documents : {Doc : Type 0} → Output Doc → List Doc
documents none = []
documents (some ds) = ds
