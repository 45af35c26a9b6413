-- ===== src/Storage.antt =====
-- The storage of a collection (services/collection/collection.hpp: `storage_t`), as far as the
-- operators use it. core/btree/btree.hpp defines it as `absl::btree_map`, which is not code of the
-- repository: a parameter, with what its documentation promises of the calls.
-- A document's key is its id, an `oid_t` of 12 bytes, taken as the number that the bytes spell.
pub mod Assoc
pub mod Multi
pub mod MultiList
use rocket_joe.Base.{ℕ, ◌≡◌, ◌<◌, Option, none, some, List, [], ◌∷◌, ◌==◌, if◌then◌else◌, All}

abbrev pub lookup : {V : Type 0} → ℕ → List (ℕ × V) → Option V
lookup k [] = none
lookup k ((j, v) ∷ m) = if j == k then some v else lookup k m

-- Strictly increasing keys, all above `k`.
abbrev pub IsAscending : {V : Type 0} → List (ℕ × V) → Type 0
IsAscending [] = Unit
IsAscending ((k, v) ∷ m) = All (λ p. k < p.0) m × IsAscending m

pub record BtreeMap (V : Type 0) : Type 1 where
  pub Map : Type 0
  -- what a loop over the map goes through
  pub elements : Map → List (ℕ × V)
  pub find : Map → ℕ → Option V
  pub insert_or_assign : Map → ℕ → V → Map
  pub erase : Map → ℕ → Map
  pub elements-IsAscending : (m : Map) → IsAscending (elements m)
  pub find-eq-lookup : (m : Map) (k : ℕ) → find m k ≡ lookup k (elements m)
  pub find-insert_or_assign :
      (m : Map) (k : ℕ) (v : V) (j : ℕ)
      → find (insert_or_assign m k v) j ≡ (if k == j then some v else find m j)
  pub find-erase : (m : Map) (k j : ℕ) → find (erase m k) j ≡ (if k == j then none else find m j)
