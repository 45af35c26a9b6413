-- ===== src/File/Tests.antt =====
-- Reads of a file of three bytes.
use rocket_joe.Base.{
  ℕ, ◌≡◌, refl, true, false, none, some, List, [], ◌∷◌, arith, length, take, drop,
}
use rocket_joe.File.{read}
use rocket_joe.File.Reads.{read-covered, read_inside}

abbrev three_bytes : List ℕ
three_bytes = 10 ∷ 20 ∷ 30 ∷ []

read-covered_example : read (λ round. some 8) three_bytes 2 1 ≡ (take 2 (drop 1 three_bytes), true)
read-covered_example =
    read-covered (λ round. some 8) three_bytes 2 1 8 refl (omega arith) (omega arith)

-- every call gives one byte
read_inside_example :
    ((read (λ round. some 1) three_bytes 4 1).1 ≡ true)
    × (length (read (λ round. some 1) three_bytes 4 1).0 ≡ 4)
read_inside_example =
    read_inside (λ round. some 1) three_bytes 4 1 (λ round. (1, refl, omega arith)) (omega arith)

-- a call that is cut short gives the first byte twice
cut_short : read (λ round. some 1) three_bytes 2 1 ≡ (20 ∷ 20 ∷ [], true)
unfolding read
cut_short = refl

failed : read (λ round. none) three_bytes 2 1 ≡ ([], false)
unfolding read
failed = refl
