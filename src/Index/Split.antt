-- ===== src/Index/Split.antt =====
-- A list in the order of its keys, split where the keys that are equivalent to one begin and end.
use rocket_joe.Base.{
  ℕ, zero, suc, ◌-◌, ◌≡◌, refl, sym, ap, ap₂, ◌∙◌, Bool, true, false, not, ◌||◌, List, [], ◌∷◌,
  ◌++◌, filter, arith, All, All-map, take, drop, length, length-drop, if◌then◌else◌,
  take-append-drop,
}
use rocket_joe.Limit.Bounded.{take-of_le}
use rocket_joe.Document.{Compare}
use rocket_joe.Expression.{CompareType}
use rocket_joe.Operators.Predicate.{is_less, is_equals, is_more}

-- The comparison of a leaf, on the result of comparing a document's value with the parameter.
abbrev pub accepts : CompareType → Compare → Bool
accepts CompareType.eq c = is_equals c
accepts CompareType.ne c = not (is_equals c)
accepts CompareType.gt c = is_more c
accepts CompareType.gte c = is_equals c || is_more c
accepts CompareType.lt c = is_less c
accepts CompareType.lte c = is_equals c || is_less c
accepts _ c = false

module _ {K : Type 0} (less : K → K → Bool) where
  -- the comparison that the order of an index makes
  abbrev pub compare_keys : K → K → Compare
  compare_keys a b =
      if less a b then Compare.less else if less b a then Compare.more else Compare.equals

module _ {ℓ} {A : Type ℓ} where
  filter-append : (p : A → Bool) (xs ys : List A) → filter p (xs ++ ys) ≡ filter p xs ++ filter p ys
  filter-append p [] ys = refl
  filter-append p (x ∷ xs) ys = ground (arith, filter-append p xs ys)

  -- a list whose elements all pass, or all fail
  filter-const :
      (p : A → Bool) (b : Bool) (xs : List A)
      → All (λ x. p x ≡ b) xs
      → filter p xs ≡ (if b then xs else [])
  filter-const p b [] h = ground arith
  filter-const p b (x ∷ xs) h = ground (arith, h.0, filter-const p b xs h.1)

pub sub_zero : (n : ℕ) → n - 0 ≡ n
sub_zero n = omega arith

sub_suc : (m n : ℕ) → suc n - suc m ≡ n - m
sub_suc m n = omega arith

module _ {ℓ} {A : Type ℓ} where
  pub take_rest : (n : ℕ) (xs : List A) → take (length xs - n) (drop n xs) ≡ drop n xs
  take_rest n xs = take-of_le (length xs - n) (drop n xs) (omega (arith, length-drop n xs))

  take-nil : (n : ℕ) → ◌≡◌ {A = List A} (take n []) []
  take-nil zero = refl
  take-nil (suc n) = refl

  drop-nil : (n : ℕ) → ◌≡◌ {A = List A} (drop n []) []
  drop-nil zero = refl
  drop-nil (suc n) = refl

module _ {K V : Type 0} (less : K → K → Bool)
    (less-asym : (a b : K) → less a b ≡ true → less b a ≡ false) (k : K) where
  abbrev pub IsAt : Compare → K × V → Type 0
  IsAt c e = compare_keys less e.0 k ≡ c

  pub record Bounds (es : List (K × V)) (l u : ℕ) : Type 0 where
    pub before_lower : All (λ e. less e.0 k ≡ true) (take l es)
    pub behind_lower : All (λ e. less e.0 k ≡ false) (drop l es)
    pub before_upper : All (λ e. less k e.0 ≡ false) (take u es)
    pub behind_upper : All (λ e. less k e.0 ≡ true) (drop u es)

  crossed : {X : Type 0} (e : K × V) → less e.0 k ≡ true → less k e.0 ≡ true → X
  crossed e a b = absurd (ground (arith, less-asym e.0 k a, b))

  Bounds-tail_upper :
      (e : K × V) (es : List (K × V)) (u : ℕ) → Bounds (e ∷ es) 0 (suc u) → Bounds es 0 u
  Bounds-tail_upper e es u h = record {
    before_lower = tt;
    behind_lower = h.behind_lower.1;
    before_upper = h.before_upper.1;
    behind_upper = h.behind_upper;
  }

  Bounds-tail :
      (e : K × V) (es : List (K × V)) (l u : ℕ) → Bounds (e ∷ es) (suc l) (suc u) → Bounds es l u
  Bounds-tail e es l u h = record {
    before_lower = h.before_lower.1;
    behind_lower = h.behind_lower;
    before_upper = h.before_upper.1;
    behind_upper = h.behind_upper;
  }

  within :
      (es : List (K × V)) (l u : ℕ)
      → Bounds es l u
      → All (IsAt Compare.equals) (take (u - l) (drop l es))
  within [] l u h = rw (drop-nil l, take-nil (u - l)) tt
  within (e ∷ es) zero zero h = tt
  within (e ∷ es) zero (suc u) h = rw (sub_zero (suc u)) (
    ground (arith, h.behind_lower.0, h.before_upper.0),
    rw (sub_zero u) at (within es zero u (Bounds-tail_upper e es u h)),
  )
  within (e ∷ es) (suc l) zero h = crossed e h.before_lower.0 h.behind_upper.0
  within (e ∷ es) (suc l) (suc u) h = rw (sub_suc l u) (within es l u (Bounds-tail e es l u h))

  from_lower :
      (es : List (K × V)) (l u : ℕ)
      → Bounds es l u
      → drop l es ≡ take (u - l) (drop l es) ++ drop u es
  from_lower [] l u h = rw (drop-nil l, drop-nil u, take-nil (u - l)) refl
  from_lower (e ∷ es) zero zero h = refl
  from_lower (e ∷ es) zero (suc u) h =
      rw (sub_zero (suc u))
        (ap (λ r. e ∷ r) (rw (sub_zero u) at (from_lower es zero u (Bounds-tail_upper e es u h))))
  from_lower (e ∷ es) (suc l) zero h = crossed e h.before_lower.0 h.behind_upper.0
  from_lower (e ∷ es) (suc l) (suc u) h =
      rw (sub_suc l u) (from_lower es l u (Bounds-tail e es l u h))

  to_upper :
      (es : List (K × V)) (l u : ℕ)
      → Bounds es l u
      → take u es ≡ take l es ++ take (u - l) (drop l es)
  to_upper [] l u h = rw (drop-nil l, take-nil u, take-nil l, take-nil (u - l)) refl
  to_upper (e ∷ es) zero zero h = refl
  to_upper (e ∷ es) zero (suc u) h =
      rw (sub_zero (suc u))
        (ap (λ r. e ∷ r) (rw (sub_zero u) at (to_upper es zero u (Bounds-tail_upper e es u h))))
  to_upper (e ∷ es) (suc l) zero h = crossed e h.before_lower.0 h.behind_upper.0
  to_upper (e ∷ es) (suc l) (suc u) h =
      rw (sub_suc l u) (ap (λ r. e ∷ r) (to_upper es l u (Bounds-tail e es l u h)))

  -- The elements below `k`, those equivalent to it, and those above it.
  module _ (es : List (K × V)) (l u : ℕ) (bounds : Bounds es l u) (t : CompareType) where
    abbrev pub is_accepted : K × V → Bool
    is_accepted e = accepts t (compare_keys less e.0 k)

    abbrev pub if_accepts : Compare → List (K × V) → List (K × V)
    if_accepts c xs = if accepts t c then xs else []

    below : filter is_accepted (take l es) ≡ if_accepts Compare.less (take l es)
    below =
        filter-const is_accepted (accepts t Compare.less) (take l es)
          (All-map (take l es) (λ e h. rw h refl) bounds.before_lower)

    middle :
        filter is_accepted (take (u - l) (drop l es))
        ≡ if_accepts Compare.equals (take (u - l) (drop l es))
    middle =
        filter-const is_accepted (accepts t Compare.equals) (take (u - l) (drop l es))
          (All-map (take (u - l) (drop l es)) (λ e h. ap (accepts t) h) (within es l u bounds))

    above : filter is_accepted (drop u es) ≡ if_accepts Compare.more (drop u es)
    above =
        filter-const is_accepted (accepts t Compare.more) (drop u es)
          (All-map (drop u es) (λ e h. rw (less-asym k e.0 h, h) refl) bounds.behind_upper)

    pub filter-parts :
        filter is_accepted es
        ≡ if_accepts Compare.less (take l es)
          ++ (if_accepts Compare.equals (take (u - l) (drop l es))
              ++ if_accepts Compare.more (drop u es))
    filter-parts =
        ap (filter is_accepted)
          (sym (take-append-drop l es) ∙ ap (λ r. take l es ++ r) (from_lower es l u bounds))
        ∙ filter-append is_accepted (take l es) (take (u - l) (drop l es) ++ drop u es)
        ∙ ap₂ ◌++◌ below (
            filter-append is_accepted (take (u - l) (drop l es)) (drop u es)
            ∙ ap₂ ◌++◌ middle above)
