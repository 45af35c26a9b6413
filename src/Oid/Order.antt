-- ===== src/Oid/Order.antt =====
-- The order of ids, and the time in them.
use rocket_joe.Base.{
  ℕ, zero, suc, ◌+◌, ◌*◌, ◌/◌, ◌%◌, ◌^◌, ◌<◌, ◌≡◌, refl, sym, ap, ◌∙◌, List, [], ◌∷◌, ◌++◌, arith,
  length, take, All, ltb, ◌==◌, if◌then◌else◌, take-length, length-append,
}
use native.Mathlib.Decide.{dec_lt}
use rocket_joe.Base.Int.{pos, negsuc}
use rocket_joe.Oid.{
  compare, is_equal, is_less, write, read_timestamp, get_timestamp, from_timestamp,
}

-- The number whose digits, to the base 256, are those of `high` and then the bytes.
abbrev pub number_from : ℕ → List ℕ → ℕ
number_from high [] = high
number_from high (b ∷ bs) = number_from (high * 256 + b) bs

abbrev pub number : List ℕ → ℕ
number bs = number_from 0 bs

number_from-lt :
    (m n : ℕ) (xs ys : List ℕ)
    → m < n
    → length xs ≡ length ys
    → All (λ b. b < 256) xs
    → number_from m xs < number_from n ys
number_from-lt m n [] [] h len bytes = h
number_from-lt m n [] (y ∷ ys) h len bytes = absurd (omega arith)
number_from-lt m n (x ∷ xs) [] h len bytes = absurd (omega arith)
number_from-lt m n (x ∷ xs) (y ∷ ys) h len bytes =
    number_from-lt (m * 256 + x) (n * 256 + y) xs ys (omega (arith, bytes.0)) (omega (arith, len))
      bytes.1

compare-number_from :
    (m : ℕ) (xs ys : List ℕ)
    → length xs ≡ length ys
    → All (λ b. b < 256) xs
    → All (λ b. b < 256) ys
    → compare xs ys ≡ (
        if ltb (number_from m xs) (number_from m ys)
        then negsuc 0
        else if ltb (number_from m ys) (number_from m xs)
        then pos 1
        else pos 0)
unfolding compare
compare-number_from m [] [] len h j = ground arith
compare-number_from m [] (y ∷ ys) len h j = absurd (omega arith)
compare-number_from m (x ∷ xs) [] len h j = absurd (omega arith)
compare-number_from m (x ∷ xs) (y ∷ ys) len h j = elim (dec_lt x y) [
  | yes lt ↦ ground (
    arith,
    lt,
    number_from-lt (m * 256 + x) (m * 256 + y) xs ys (omega (arith, lt)) (omega (arith, len)) h.1,
  )
  | no ge ↦ elim (dec_lt y x) [
    | yes gt ↦ ground (
      arith,
      gt,
      number_from-lt (m * 256 + y) (m * 256 + x) ys xs (omega (arith, gt)) (omega (arith, len)) j.1,
    )
    | no le ↦ ground (
      arith,
      ge,
      le,
      ap (λ z. number_from (m * 256 + z) ys) (same ge le),
      compare-number_from (m * 256 + x) xs ys (omega (arith, len)) h.1 j.1,
    )
  ]
]
  where
    same : ¬ (x < y) → ¬ (y < x) → x ≡ y
    same ge le = omega arith

-- Ids of one length are ordered as the numbers that their bytes spell: they are equal, or the one
-- is less than the other, exactly where the numbers are.
pub is_less-number :
    (xs ys : List ℕ)
    → length xs ≡ length ys
    → All (λ b. b < 256) xs
    → All (λ b. b < 256) ys
    → (is_less xs ys ≡ ltb (number xs) (number ys)) × (is_equal xs ys ≡ (number xs == number ys))
unfolding is_less is_equal
is_less-number xs ys len h j = ground (arith, compare-number_from 0 xs ys len h j)

-- the bytes that hold `value`
abbrev pub power : ℕ → ℕ
power zero = 1
power (suc n) = 256 * power n

length-write : (n value : ℕ) → length (write n value) ≡ n
unfolding write
length-write zero value = refl
length-write (suc n) value = omega (
  arith,
  length-append (write n (value / 2 ^ 8)) (value % 256 ∷ []),
  length-write n (value / 2 ^ 8),
)

read_timestamp-append :
    (value : ℕ) (xs ys : List ℕ)
    → read_timestamp value (xs ++ ys) ≡ read_timestamp (read_timestamp value xs) ys
unfolding read_timestamp
read_timestamp-append value [] ys = refl
read_timestamp-append value (x ∷ xs) ys = read_timestamp-append ((value * 2 ^ 8 + x) % 2 ^ 32) xs ys

read_timestamp-write :
    (n value : ℕ) → value < power n → value < 2 ^ 32 → read_timestamp 0 (write n value) ≡ value
unfolding read_timestamp write
read_timestamp-write zero value h small = omega arith
read_timestamp-write (suc n) value h small =
    rw
      (
        read_timestamp-append 0 (write n (value / 2 ^ 8)) (value % 256 ∷ []),
        read_timestamp-write n (value / 2 ^ 8) (omega arith) (omega arith),
      )
      (omega arith)

prefix : (n value : ℕ) (rest : List ℕ) → take n (write n value ++ rest) ≡ write n value
prefix n value rest =
    ap (λ k. take k (write n value ++ rest)) (sym (length-write n value))
    ∙ take-length (write n value) rest

-- The timestamp of an id that was made from one is that timestamp, where it has the bytes for it.
pub get_timestamp-from_timestamp :
    (size_timestamp size_random size_increment timestamp random increment : ℕ)
    → timestamp < power size_timestamp
    → timestamp < 2 ^ 32
    → get_timestamp size_timestamp size_random size_increment
        (from_timestamp size_timestamp size_random size_increment timestamp random increment)
      ≡ timestamp
unfolding get_timestamp from_timestamp
get_timestamp-from_timestamp size_timestamp size_random size_increment timestamp random increment h
      small =
    rw
      (prefix size_timestamp timestamp
        (write size_random random ++ write size_increment ((increment + 1) % 2 ^ 32)))
      (read_timestamp-write size_timestamp timestamp h small)
