-- ===== src/File/Reads.antt =====
-- What a positioned read returns.
use rocket_joe.Base.{
  ℕ, zero, suc, ◌+◌, ◌-◌, ◌≤◌, ◌<◌, ◌≡◌, refl, ap, ◌∙◌, Bool, true, Option, none, some, List, [],
  ◌∷◌, arith, length, take, drop, length-append, length-take, length-drop, append-nil, drop-of_le,
  ltb,
}
use rocket_joe.File.{pread, after_read, read_loop, read}

read_loop_zero :
    (fuel : ℕ) (system : ℕ → Option ℕ) (file : List ℕ) (location : ℕ)
    → read_loop fuel system file 0 location ≡ ([], true)
unfolding read_loop
read_loop_zero zero system file location = refl
read_loop_zero (suc fuel) system file location = refl

take_all : (n : ℕ) (xs : List ℕ) → length xs ≤ n → take n xs ≡ xs
take_all zero [] h = refl
take_all zero (x ∷ xs) h = absurd (omega arith)
take_all (suc n) [] h = refl
take_all (suc n) (x ∷ xs) h = ap (λ r. x ∷ r) (take_all n xs (omega arith))

positive : (n : ℕ) → ltb 0 (suc n) ≡ true
positive n = ground arith

take_nil : (n : ℕ) → take {A = ℕ} n [] ≡ []
take_nil zero = refl
take_nil (suc n) = refl

after_read_done :
    (bytes : List ℕ) → 0 < length bytes → after_read (some bytes) ([], true) ≡ (bytes, true)
after_read_done [] h = absurd (omega arith)
after_read_done (b ∷ bs) h = ap (λ r. (b ∷ r, true)) (append-nil bs)

-- A read that the file covers returns those bytes and succeeds, where the first `pread` is not cut
-- short.
pub read-covered :
    (system : ℕ → Option ℕ) (file : List ℕ) (n location most : ℕ)
    → system 0 ≡ some most
    → n ≤ most
    → location + n ≤ length file
    → read system file n location ≡ (take n (drop location file), true)
unfolding read read_loop
read-covered system file zero location most e le h = refl
read-covered system file (suc n) location most e le h =
    let bytes = take (suc n) (drop location file) in
    let many : length bytes ≡ suc n =
      omega (arith, length-take (suc n) (drop location file), length-drop location file) in
    let whole : take most bytes ≡ bytes = take_all most bytes (omega arith) in
    let none_left : suc n - length bytes ≡ 0 = omega arith in
    rw
      (
        e,
        positive n,
        whole,
        none_left,
        read_loop_zero n (λ round. system (suc round)) file location,
      )
      (after_read_done bytes (omega arith))

-- A read at the end of the file, or after it, returns nothing.
pub read-at_end :
    (system : ℕ → Option ℕ) (file : List ℕ) (n location : ℕ)
    → length file ≤ location
    → (read system file n location).0 ≡ []
unfolding read read_loop
read-at_end system file zero location h = refl
read-at_end system file (suc n) location h = rw (positive n) (at_first (system 0) _)
  where
    at_first :
        (o : Option ℕ) (rest : List ℕ × Bool)
        → (after_read (pread o file (suc n) location) rest).0 ≡ []
    at_first none rest = refl
    at_first (some most) rest = rw (drop-of_le location file h, take_nil most) refl

after_read-some :
    (bytes : List ℕ) (rest : List ℕ × Bool)
    → 0 < length bytes
    → ((after_read (some bytes) rest).1 ≡ rest.1)
      × (length (after_read (some bytes) rest).0 ≡ length bytes + length rest.0)
after_read-some [] rest h = absurd (omega arith)
after_read-some (b ∷ bs) rest h = (refl, omega (arith, length-append bs rest.0))

-- Every call of `pread` is answered with a byte at least, where there is one.
abbrev pub Answers : (ℕ → Option ℕ) → Type 0
Answers system = (round : ℕ) → (most : ℕ) × (system round ≡ some most) × (0 < most)

read_loop_inside :
    (fuel : ℕ) (system : ℕ → Option ℕ) (file : List ℕ) (n location : ℕ)
    → Answers system
    → n ≤ fuel
    → location < length file
    → ((read_loop fuel system file n location).1 ≡ true)
      × (length (read_loop fuel system file n location).0 ≡ n)
unfolding read_loop
read_loop_inside zero system file n location ok h inside = (refl, omega arith)
read_loop_inside (suc fuel) system file zero location ok h inside = (refl, refl)
read_loop_inside (suc fuel) system file (suc n) location ok h inside =
    let (most, e, one) = ok 0 in
    let bytes = take most (take (suc n) (drop location file)) in
    let asked = length-take (suc n) (drop location file) in
    let given = length-take most (take (suc n) (drop location file)) in
    let some_bytes : 0 < length bytes =
      omega (arith, one, given, asked, length-drop location file) in
    let few : length bytes ≤ suc n = omega (arith, given, asked) in
    let again =
      read_loop_inside fuel (λ round. system (suc round)) file (suc n - length bytes) location
        (λ round. ok (suc round)) (omega arith) inside in
    let (done, many) =
      after_read-some bytes
        (read_loop fuel (λ round. system (suc round)) file (suc n - length bytes) location)
        some_bytes in
    rw (e, positive n) (done ∙ again.0, omega (arith, many, again.1, few))

-- A read that starts inside the file, where every `pread` may give one byte at least, does not fail,
-- whether it crosses the end of the file or is cut short: it reports success and puts as many bytes
-- into the buffer as were asked for.
pub read_inside :
    (system : ℕ → Option ℕ) (file : List ℕ) (n location : ℕ)
    → Answers system
    → location < length file
    → ((read system file n location).1 ≡ true) × (length (read system file n location).0 ≡ n)
unfolding read
read_inside system file n location ok h =
    read_loop_inside n system file n location ok (omega arith) h
