-- ===== src/Storage/Multi.antt =====
-- core/btree/btree.hpp: `multi_btree_t`, which is `absl::btree_multimap`: a parameter, with what its
-- documentation promises of the calls. An iterator is a position in the order of the elements.
use rocket_joe.Base.{
  ℕ, suc, ◌≡◌, ◌<◌, Bool, true, false, Option, none, some, List, [], ◌∷◌, ◌++◌, All, take, drop,
  length, get_elem?,
}

pub record MultiBtree (K V : Type 0) (less : K → K → Bool) : Type 1 where
  pub Map : Type 0
  pub elements : Map → List (K × V)
  pub empty : Map
  pub insert : Map → K → V → Map
  -- `none` is `end()`
  pub find : Map → K → Option ℕ
  pub erase : Map → ℕ → Map
  pub lower_bound : Map → K → ℕ
  pub upper_bound : Map → K → ℕ
  pub elements-empty : elements empty ≡ []
  -- the first element whose key is not less than `k`
  pub take-lower_bound :
      (m : Map) (k : K) → All (λ e. less e.0 k ≡ true) (take (lower_bound m k) (elements m))
  pub drop-lower_bound :
      (m : Map) (k : K) → All (λ e. less e.0 k ≡ false) (drop (lower_bound m k) (elements m))
  -- the first element whose key is greater than `k`
  pub take-upper_bound :
      (m : Map) (k : K) → All (λ e. less k e.0 ≡ false) (take (upper_bound m k) (elements m))
  pub drop-upper_bound :
      (m : Map) (k : K) → All (λ e. less k e.0 ≡ true) (drop (upper_bound m k) (elements m))
  -- a new element stands behind those with an equivalent key
  pub elements-insert :
      (m : Map) (k : K) (v : V)
      → elements (insert m k v)
        ≡ take (upper_bound m k) (elements m) ++ ((k, v) ∷ drop (upper_bound m k) (elements m))
  pub elements-erase :
      (m : Map) (i : ℕ)
      → i < length (elements m)
      → elements (erase m i) ≡ take i (elements m) ++ drop (suc i) (elements m)
  -- one of the elements with an equivalent key, where there is one
  pub find-equivalent :
      (m : Map) (k : K) (i : ℕ)
      → find m k ≡ some i
      → (e : K × V) × (get_elem? (elements m) i ≡ some e)
        × (less e.0 k ≡ false)
        × (less k e.0 ≡ false)
  pub find-absent :
      (m : Map) (k : K)
      → find m k ≡ none
      → All (λ e. (less e.0 k ≡ false) → less k e.0 ≡ true) (elements m)
