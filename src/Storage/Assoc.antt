-- ===== src/Storage/Assoc.antt =====
-- A map that meets the interface: a list in the order of the keys. The tests run on it.
use rocket_joe.Base.{
  ℕ, ◌≡◌, ◌<◌, refl, none, some, List, [], ◌∷◌, ◌==◌, if◌then◌else◌, ltb, All, arith,
}
use rocket_joe.Storage.{BtreeMap, lookup, IsAscending}

pub record Ordered (V : Type 0) : Type 0 where
  pub items : List (ℕ × V)
  pub ordered : IsAscending items

module _ {V : Type 0} where
  abbrev pub put : List (ℕ × V) → ℕ → V → List (ℕ × V)
  put [] k v = (k, v) ∷ []
  put ((j, w) ∷ m) k v =
      if k == j then (k, v) ∷ m else if ltb k j then (k, v) ∷ (j, w) ∷ m else (j, w) ∷ put m k v

  abbrev pub remove : List (ℕ × V) → ℕ → List (ℕ × V)
  remove [] k = []
  remove ((j, w) ∷ m) k = if j == k then m else (j, w) ∷ remove m k

  pub lookup-put :
      (m : List (ℕ × V)) (k : ℕ) (v : V) (j : ℕ)
      → lookup j (put m k v) ≡ (if k == j then some v else lookup j m)
  lookup-put [] k v j = refl
  lookup-put ((i, w) ∷ m) k v j = ground (arith, lookup-put m k v j)

  All-put :
      (b : ℕ) (m : List (ℕ × V)) (k : ℕ) (v : V)
      → b < k
      → All (λ p. b < p.0) m
      → All (λ p. b < p.0) (put m k v)
  All-put b [] k v h all = (h, tt)
  All-put b ((i, w) ∷ m) k v h all = ground (arith, all, All-put b m k v h all.1)

  All-weaken : (b c : ℕ) (m : List (ℕ × V)) → b < c → All (λ p. c < p.0) m → All (λ p. b < p.0) m
  All-weaken b c [] h all = tt
  All-weaken b c ((i, w) ∷ m) h all = (omega (arith, all.0), All-weaken b c m h all.1)

  pub put-IsAscending : (m : List (ℕ × V)) (k : ℕ) (v : V) → IsAscending m → IsAscending (put m k v)
  put-IsAscending [] k v h = (tt, tt)
  put-IsAscending ((i, w) ∷ m) k v h =
      ground (arith, h, put-IsAscending m k v h.1, All-put i m k v, All-weaken k i m)

  All-remove :
      (b : ℕ) (m : List (ℕ × V)) (k : ℕ) → All (λ p. b < p.0) m → All (λ p. b < p.0) (remove m k)
  All-remove b [] k all = tt
  All-remove b ((i, w) ∷ m) k all = ground (arith, all, All-remove b m k all.1)

  pub remove-IsAscending : (m : List (ℕ × V)) (k : ℕ) → IsAscending m → IsAscending (remove m k)
  remove-IsAscending [] k h = tt
  remove-IsAscending ((i, w) ∷ m) k h =
      ground (arith, h, remove-IsAscending m k h.1, All-remove i m k h.0)

  lookup_below : (m : List (ℕ × V)) (k : ℕ) → All (λ p. k < p.0) m → lookup k m ≡ none
  lookup_below [] k all = refl
  lookup_below ((i, w) ∷ m) k all = ground (arith, all.0, lookup_below m k all.1)

  pub lookup-remove :
      (m : List (ℕ × V)) (k j : ℕ)
      → IsAscending m
      → lookup j (remove m k) ≡ (if k == j then none else lookup j m)
  lookup-remove [] k j h = ground arith
  lookup-remove ((i, w) ∷ m) k j h = ground (arith, lookup-remove m k j h.1, lookup_below m i h.0)

  abbrev pub assoc_map : BtreeMap V
  assoc_map = record {
    Map = Ordered V;
    elements = λ m. m.items;
    find = λ m k. lookup k m.items;
    insert_or_assign = λ m k v. record {
      items = put m.items k v;
      ordered = put-IsAscending m.items k v m.ordered;
    };
    erase = λ m k. record {
      items = remove m.items k;
      ordered = remove-IsAscending m.items k m.ordered;
    };
    elements-IsAscending = λ m. m.ordered;
    find-eq-lookup = λ m k. refl;
    find-insert_or_assign = λ m k v j. lookup-put m.items k v j;
    find-erase = λ m k j. lookup-remove m.items k j m.ordered;
  }
