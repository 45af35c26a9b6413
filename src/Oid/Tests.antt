-- ===== src/Oid/Tests.antt =====
-- Ids of three bytes, one each for the time, the random part and the increment, and of twelve.
use rocket_joe.Base.{ℕ, ◌≡◌, refl, true, List, [], ◌∷◌, arith, ltb, ◌==◌, map}
use rocket_joe.Oid.{
  init, to_string, is_valid, is_hex, is_less, is_equal, get_timestamp, from_timestamp,
}
use rocket_joe.Oid.Text.{lower, init-to_string, to_string-init}
use rocket_joe.Oid.Order.{number, is_less-number, get_timestamp-from_timestamp}

init-to_string_example : init 1 1 1 (to_string (1 ∷ 160 ∷ 255 ∷ [])) ≡ 1 ∷ 160 ∷ 255 ∷ []
init-to_string_example =
    init-to_string 1 1 1 (1 ∷ 160 ∷ 255 ∷ []) refl (omega arith, (omega arith, (omega arith, tt)))

-- "01aBCd"
abbrev mixed_case : List ℕ
mixed_case = b'0' ∷ b'1' ∷ b'a' ∷ b'B' ∷ b'C' ∷ b'd' ∷ []

mixed_case-is_valid : is_valid 1 1 1 mixed_case ≡ true
unfolding is_valid is_hex
mixed_case-is_valid = refl

to_string-init_example : to_string (init 1 1 1 mixed_case) ≡ map lower mixed_case
to_string-init_example = to_string-init 1 1 1 mixed_case mixed_case-is_valid

is_less-number_example :
    (is_less (1 ∷ 160 ∷ []) (2 ∷ 3 ∷ []) ≡ ltb (number (1 ∷ 160 ∷ [])) (number (2 ∷ 3 ∷ [])))
    × (is_equal (1 ∷ 160 ∷ []) (2 ∷ 3 ∷ []) ≡ (number (1 ∷ 160 ∷ []) == number (2 ∷ 3 ∷ [])))
is_less-number_example =
    is_less-number (1 ∷ 160 ∷ []) (2 ∷ 3 ∷ []) refl (omega arith, (omega arith, tt))
      (omega arith, (omega arith, tt))

get_timestamp-from_timestamp_example :
    get_timestamp 4 5 3 (from_timestamp 4 5 3 1700000000 7 41) ≡ 1700000000
get_timestamp-from_timestamp_example =
    get_timestamp-from_timestamp 4 5 3 1700000000 7 41 (omega arith) (omega arith)
