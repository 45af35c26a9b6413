-- ===== src/Base/Maps.antt =====
-- Maps from keys to values as lists, and the addresses of a heap: `std::map`, `std::unordered_map` and
-- `core::pmr::btree`, as far as their callers see them.
use Prim.Native.Nat.{ℕ}
use mathlib.Core.Path.{◌≡◌, refl}
use mathlib.Core.Bool.{Bool, false}
use mathlib.Core.Option.{Option, none, some}
use mathlib.Core.List.{List, [], ◌∷◌, ◌++◌}
use native.Mathlib.Omega.{arith}
use rocket_joe.Base.Tests.{◌==◌, if◌then◌else◌}

-- `eq` is the equality of the keys. `emplace` keeps what stands under the key already.
module _ {K V : Type 0} (eq : K → K → Bool) where
  abbrev pub find_key : K → List (K × V) → Option V
  find_key k [] = none
  find_key k ((j, v) ∷ m) = if eq j k then some v else find_key k m

  abbrev pub emplaced : List (K × V) → K → V → Option V → List (K × V)
  emplaced m k v none = m ++ ((k, v) ∷ [])
  emplaced m k v (some w) = m

  abbrev pub emplace : List (K × V) → K → V → List (K × V)
  emplace m k v = emplaced m k v (find_key k m)

  -- a new value for a key that is there
  abbrev pub update_key : List (K × V) → K → V → List (K × V)
  update_key [] k w = []
  update_key ((j, v) ∷ m) k w = if eq j k then (j, w) ∷ m else (j, v) ∷ update_key m k w

  abbrev pub erase_key : K → List (K × V) → List (K × V)
  erase_key k [] = []
  erase_key k ((j, v) ∷ m) = let rest = erase_key k m in if eq j k then rest else (j, v) ∷ rest

module _ {I : Type 0} where
  pub find_key-append :
      (p : ℕ) (heap more : List (ℕ × I)) (i : I)
      → find_key ◌==◌ p heap ≡ some i
      → find_key ◌==◌ p (heap ++ more) ≡ some i
  find_key-append p [] more i h = ground (arith, h)
  find_key-append p ((q, j) ∷ heap) more i h = ground (arith, find_key-append p heap more i, h)

  pub find_key-last :
      (p : ℕ) (heap : List (ℕ × I)) (i : I)
      → find_key ◌==◌ p heap ≡ none
      → find_key ◌==◌ p (heap ++ ((p, i) ∷ [])) ≡ some i
  find_key-last p [] i h = ground arith
  find_key-last p ((q, j) ∷ heap) i h = ground (arith, find_key-last p heap i, h)

  pub find_key-erase_ne :
      (p q : ℕ) (heap : List (ℕ × I))
      → (q == p) ≡ false
      → find_key ◌==◌ q (erase_key ◌==◌ p heap) ≡ find_key ◌==◌ q heap
  find_key-erase_ne p q [] h = refl
  find_key-erase_ne p q ((r, j) ∷ heap) h = ground (arith, find_key-erase_ne p q heap h, h)

  -- a key that was not there is there once it is placed, and gone once it is erased
  pub find_key-emplace :
      (p : ℕ) (m : List (ℕ × I)) (i : I)
      → find_key ◌==◌ p m ≡ none
      → find_key ◌==◌ p (emplace ◌==◌ m p i) ≡ some i
  find_key-emplace p m i h = rw h (find_key-last p m i h)

  pub find_key-erase : (p : ℕ) (m : List (ℕ × I)) → find_key ◌==◌ p (erase_key ◌==◌ p m) ≡ none
  find_key-erase p [] = refl
  find_key-erase p ((q, j) ∷ m) = ground (arith, find_key-erase p m)

  pub find_key-update :
      (p : ℕ) (m : List (ℕ × I)) (i j : I)
      → find_key ◌==◌ p m ≡ some i
      → find_key ◌==◌ p (update_key ◌==◌ m p j) ≡ some j
  find_key-update p [] i j h = ground (arith, h)
  find_key-update p ((q, k) ∷ m) i j h = ground (arith, find_key-update p m i j, h)
