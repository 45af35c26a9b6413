-- ===== src/Limit/Bounded.antt =====
-- What a limit means for a list of documents: `bounded l xs` is the part of `xs` that it lets by.
use rocket_joe.Base.{
  ℕ, zero, suc, ◌≤◌, ◌<◌, ◌≡◌, refl, ap, true, false, List, [], ◌∷◌, ◌++◌, arith, take, length,
  length-append,
}
use rocket_joe.Base.Int.{ℤ, pos, negsuc}
use rocket_joe.Limit.{Limit, check}

module _ {ℓ} {A : Type ℓ} where
  abbrev pub bounded_by : ℤ → List A → List A
  bounded_by (pos n) xs = take n xs
  bounded_by (negsuc zero) xs = xs
  bounded_by (negsuc (suc n)) xs = []

  abbrev pub bounded : Limit → List A → List A
  bounded l xs = bounded_by l.limit_ xs

  pub take-of_le : (n : ℕ) (xs : List A) → length xs ≤ n → take n xs ≡ xs
  take-of_le zero [] h = refl
  take-of_le zero (x ∷ xs) h = absurd (omega arith)
  take-of_le (suc n) [] h = refl
  take-of_le (suc n) (x ∷ xs) h = ap (λ r. x ∷ r) (take-of_le n xs (omega arith))

  take-append_of_full :
      (n : ℕ) (xs ys : List A) → n ≤ length (take n xs) → take n (xs ++ ys) ≡ take n xs
  take-append_of_full zero xs ys h = refl
  take-append_of_full (suc n) [] ys h = absurd (omega arith)
  take-append_of_full (suc n) (x ∷ xs) ys h =
      ap (λ r. x ∷ r) (take-append_of_full n xs ys (omega arith))

  take-of_room : (n : ℕ) (xs : List A) → length (take n xs) < n → take n xs ≡ xs
  take-of_room zero xs h = absurd (omega arith)
  take-of_room (suc n) [] h = refl
  take-of_room (suc n) (x ∷ xs) h = ap (λ r. x ∷ r) (take-of_room n xs (omega arith))

  -- once the limit is reached, further documents change nothing
  pub bounded-append_of_full :
      (l : Limit) (xs ys : List A)
      → check l (length (bounded l xs)) ≡ false
      → bounded l (xs ++ ys) ≡ bounded l xs
  unfolding check
  bounded-append_of_full l xs ys = by_sign l.limit_
    where
      by_sign :
          (z : ℤ)
          → check (record { limit_ = z }) (length (bounded_by z xs)) ≡ false
          → bounded_by z (xs ++ ys) ≡ bounded_by z xs
      by_sign (pos n) h = take-append_of_full n xs ys (ground arith)
      by_sign (negsuc zero) h = ground arith
      by_sign (negsuc (suc n)) h = refl

  -- while it is not, nothing was cut off, and one more document fits
  pub bounded-of_room :
      (l : Limit) (xs : List A) → check l (length (bounded l xs)) ≡ true → bounded l xs ≡ xs
  unfolding check
  bounded-of_room l xs = by_sign l.limit_
    where
      by_sign :
          (z : ℤ)
          → check (record { limit_ = z }) (length (bounded_by z xs)) ≡ true
          → bounded_by z xs ≡ xs
      by_sign (pos n) h = take-of_room n xs (ground arith)
      by_sign (negsuc zero) h = refl
      by_sign (negsuc (suc n)) h = ground arith

  pub bounded-append_one :
      (l : Limit) (xs : List A) (x : A)
      → check l (length xs) ≡ true
      → bounded l (xs ++ (x ∷ [])) ≡ xs ++ (x ∷ [])
  unfolding check
  bounded-append_one l xs x = by_sign l.limit_
    where
      by_sign :
          (z : ℤ)
          → check (record { limit_ = z }) (length xs) ≡ true
          → bounded_by z (xs ++ (x ∷ [])) ≡ xs ++ (x ∷ [])
      by_sign (pos n) h = take-of_le n (xs ++ (x ∷ [])) (ground (arith, length-append xs (x ∷ [])))
      by_sign (negsuc zero) h = refl
      by_sign (negsuc (suc n)) h = ground arith

  pub bounded-nil : (l : Limit) → ◌≡◌ {A = List A} (bounded l []) []
  bounded-nil l = by_sign l.limit_
    where
      by_sign : (z : ℤ) → ◌≡◌ {A = List A} (bounded_by z []) []
      by_sign (pos zero) = refl
      by_sign (pos (suc n)) = refl
      by_sign (negsuc zero) = refl
      by_sign (negsuc (suc n)) = refl
