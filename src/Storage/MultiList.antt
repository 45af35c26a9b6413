-- ===== src/Storage/MultiList.antt =====
-- A multimap that meets the interface: a list in the order of the ranks of its keys. The tests run on it.
use rocket_joe.Base.{
  ℕ, zero, suc, ◌≡◌, ◌≤◌, ◌<◌, refl, ap, Bool, true, false, Option, none, some, List, [], ◌∷◌, ◌++◌,
  arith, All, take, drop, length, get_elem?, ltb, ◌==◌, if◌then◌else◌, Option-cases, inl, inr,
}
use mathlib.Core.Path.{subst}
use mathlib.Core.Option
use rocket_joe.Storage.Multi.{MultiBtree}

abbrev pub less_by : {K : Type 0} → (K → ℕ) → K → K → Bool
less_by rank a b = ltb (rank a) (rank b)

module _ {A : Type 0} where
  abbrev pub remove_at : List A → ℕ → List A
  remove_at [] i = []
  remove_at (e ∷ es) zero = es
  remove_at (e ∷ es) (suc i) = e ∷ remove_at es i

  pub remove_at-take :
      (es : List A) (i : ℕ) → i < length es → remove_at es i ≡ take i es ++ drop (suc i) es
  remove_at-take [] i h = absurd (omega arith)
  remove_at-take (e ∷ es) zero h = refl
  remove_at-take (e ∷ es) (suc i) h = ap (λ r. e ∷ r) (remove_at-take es i (omega arith))

module _ {K V : Type 0} (rank : K → ℕ) where
  abbrev pub IsSorted : List (K × V) → Type 0
  IsSorted [] = Unit
  IsSorted (e ∷ es) = All (λ x. rank e.0 ≤ rank x.0) es × IsSorted es

  abbrev pub put : List (K × V) → K → V → List (K × V)
  put [] k v = (k, v) ∷ []
  put (e ∷ es) k v = if less_by rank k e.0 then (k, v) ∷ e ∷ es else e ∷ put es k v

  abbrev pub lower : List (K × V) → K → ℕ
  lower [] k = 0
  lower (e ∷ es) k = if less_by rank e.0 k then suc (lower es k) else 0

  abbrev pub upper : List (K × V) → K → ℕ
  upper [] k = 0
  upper (e ∷ es) k = if less_by rank k e.0 then 0 else suc (upper es k)

  abbrev pub find_first : List (K × V) → K → Option ℕ
  find_first [] k = none
  find_first (e ∷ es) k = if rank e.0 == rank k then some 0 else Option.map suc (find_first es k)

  pub put-take :
      (es : List (K × V)) (k : K) (v : V)
      → put es k v ≡ take (upper es k) es ++ ((k, v) ∷ drop (upper es k) es)
  put-take [] k v = refl
  put-take (e ∷ es) k v = ground (arith, put-take es k v)

  All-put :
      (n : ℕ) (es : List (K × V)) (k : K) (v : V)
      → n ≤ rank k
      → All (λ x. n ≤ rank x.0) es
      → All (λ x. n ≤ rank x.0) (put es k v)
  All-put n [] k v h a = (h, tt)
  All-put n (e ∷ es) k v h a = ground (arith, a, All-put n es k v h a.1)

  All-weaken :
      (m n : ℕ) (es : List (K × V))
      → m ≤ n
      → All (λ x. n ≤ rank x.0) es
      → All (λ x. m ≤ rank x.0) es
  All-weaken m n [] h a = tt
  All-weaken m n (e ∷ es) h a = (omega (arith, a.0), All-weaken m n es h a.1)

  pub put-IsSorted : (es : List (K × V)) (k : K) (v : V) → IsSorted es → IsSorted (put es k v)
  put-IsSorted [] k v h = (tt, tt)
  put-IsSorted (e ∷ es) k v h = ground (
    arith,
    h,
    put-IsSorted es k v h.1,
    All-put (rank e.0) es k v,
    All-weaken (rank k) (rank e.0) es,
  )

  All-remove_at :
      (n : ℕ) (es : List (K × V)) (i : ℕ)
      → All (λ x. n ≤ rank x.0) es
      → All (λ x. n ≤ rank x.0) (remove_at es i)
  All-remove_at n [] i a = tt
  All-remove_at n (e ∷ es) zero a = a.1
  All-remove_at n (e ∷ es) (suc i) a = (a.0, All-remove_at n es i a.1)

  pub remove_at-IsSorted : (es : List (K × V)) (i : ℕ) → IsSorted es → IsSorted (remove_at es i)
  remove_at-IsSorted [] i h = tt
  remove_at-IsSorted (e ∷ es) zero h = h.1
  remove_at-IsSorted (e ∷ es) (suc i) h =
      (All-remove_at (rank e.0) es i h.0, remove_at-IsSorted es i h.1)

  pub before_lower :
      (es : List (K × V)) (k : K) → All (λ e. less_by rank e.0 k ≡ true) (take (lower es k) es)
  before_lower [] k = tt
  before_lower (e ∷ es) k = ground (arith, before_lower es k)

  All-above :
      (n : ℕ) (es : List (K × V)) (k : K)
      → rank k ≤ n
      → All (λ x. n ≤ rank x.0) es
      → All (λ e. less_by rank e.0 k ≡ false) es
  All-above n [] k h a = tt
  All-above n (e ∷ es) k h a = (ground (arith, h, a.0), All-above n es k h a.1)

  pub behind_lower :
      (es : List (K × V)) (k : K)
      → IsSorted es
      → All (λ e. less_by rank e.0 k ≡ false) (drop (lower es k) es)
  behind_lower [] k h = tt
  behind_lower (e ∷ es) k h = ground (arith, behind_lower es k h.1, All-above (rank e.0) es k)

  pub before_upper :
      (es : List (K × V)) (k : K) → All (λ e. less_by rank k e.0 ≡ false) (take (upper es k) es)
  before_upper [] k = tt
  before_upper (e ∷ es) k = ground (arith, before_upper es k)

  All-beyond :
      (n : ℕ) (es : List (K × V)) (k : K)
      → rank k < n
      → All (λ x. n ≤ rank x.0) es
      → All (λ e. less_by rank k e.0 ≡ true) es
  All-beyond n [] k h a = tt
  All-beyond n (e ∷ es) k h a = (ground (arith, h, a.0), All-beyond n es k h a.1)

  pub behind_upper :
      (es : List (K × V)) (k : K)
      → IsSorted es
      → All (λ e. less_by rank k e.0 ≡ true) (drop (upper es k) es)
  behind_upper [] k h = tt
  behind_upper (e ∷ es) k h = ground (arith, behind_upper es k h.1, All-beyond (rank e.0) es k)

  abbrev pub Found : List (K × V) → K → ℕ → Type 0
  Found es k i =
      (e : K × V) × (get_elem? es i ≡ some e)
      × (less_by rank e.0 k ≡ false)
      × (less_by rank k e.0 ≡ false)

  pub found : (es : List (K × V)) (k : K) (i : ℕ) → find_first es k ≡ some i → Found es k i
  found [] k i h = ground (arith, h)
  found (e ∷ es) k i h = at_first (rank e.0 == rank k) refl (find_first es k) (found es k) h
    where
      at_first :
          (b : Bool)
          → (rank e.0 == rank k) ≡ b
          → (o : Option ℕ) → ((j : ℕ) → o ≡ some j → Found es k j)
          → (if b then some 0 else Option.map suc o) ≡ some i
          → Found (e ∷ es) k i
      at_first true same o ih g =
          let first : 0 ≡ i = ground (arith, g) in
          subst (Found (e ∷ es) k) first (e, refl, ground (arith, same), ground (arith, same))
      at_first false same none ih g = ground (arith, g)
      at_first false same (some j) ih g =
          let next : suc j ≡ i = ground (arith, g) in subst (Found (e ∷ es) k) next (ih j refl)

  pub not_found :
      (es : List (K × V)) (k : K)
      → find_first es k ≡ none
      → All (λ e. (less_by rank e.0 k ≡ false) → less_by rank k e.0 ≡ true) es
  not_found [] k h = tt
  not_found (e ∷ es) k h = elim (Option-cases (find_first es k)) [
    | inl none_ ↦ (λ l. ground (arith, h, l), not_found es k none_)
    | inr some_ ↦ absurd (ground (arith, h, some_.1))
  ]

module _ {K : Type 0} (V : Type 0) (rank : K → ℕ) where
  pub record Sorted : Type 0 where
    pub items : List (K × V)
    pub sorted : IsSorted rank items

  abbrev pub multi_list : MultiBtree K V (less_by rank)
  multi_list = record {
    Map = Sorted;
    elements = λ m. m.items;
    empty = record { items = []; sorted = tt };
    insert = λ m k v. record {
      items = put rank m.items k v;
      sorted = put-IsSorted rank m.items k v m.sorted;
    };
    find = λ m k. find_first rank m.items k;
    erase = λ m i. record {
      items = remove_at m.items i;
      sorted = remove_at-IsSorted rank m.items i m.sorted;
    };
    lower_bound = λ m k. lower rank m.items k;
    upper_bound = λ m k. upper rank m.items k;
    elements-empty = refl;
    take-lower_bound = λ m k. before_lower rank m.items k;
    drop-lower_bound = λ m k. behind_lower rank m.items k m.sorted;
    take-upper_bound = λ m k. before_upper rank m.items k;
    drop-upper_bound = λ m k. behind_upper rank m.items k m.sorted;
    elements-insert = λ m k v. put-take rank m.items k v;
    elements-erase = λ m i h. remove_at-take m.items i h;
    find-equivalent = λ m k i h. found rank m.items k i h;
    find-absent = λ m k h. not_found rank m.items k h;
  }
