-- ===== src/Oid.antt =====
-- components/oid/oid.hpp: the id of a document. An `oid_t` is its bytes, each below 256, `size` of
-- them; a text is the list of its characters. The sizes of the template's parameter are arguments.
pub mod Text
pub mod Order
mod Tests
use rocket_joe.Base.{
  ℕ, zero, suc, ◌+◌, ◌-◌, ◌*◌, ◌/◌, ◌%◌, ◌^◌, Bool, true, false, ◌&&◌, ◌||◌, List, [], ◌∷◌, ◌++◌,
  length, replicate, take, ltb, leb, ◌==◌, if◌then◌else◌,
}
use rocket_joe.Base.Int.{ℤ, pos, negsuc, ltb_ℤ, eqb_ℤ}

unfoldable pub to_char_ : ℕ → ℕ
to_char_ value = if ltb value 10 then b'0' + value else b'a' + value - 10

-- `uint8_t` of what stands before or behind the letters wraps.
unfoldable pub from_char_ : ℕ → ℕ
from_char_ c =
    if leb b'0' c && leb c b'9'
    then c - b'0'
    else if leb b'a' c && leb c b'f'
    then c + 10 - b'a'
    else (c + 10 + 256 - b'A') % 256

unfoldable pub is_hex : ℕ → Bool
is_hex c = (leb b'0' c && leb c b'9') || (leb b'a' c && leb c b'f') || (leb b'A' c && leb c b'F')

abbrev pub all_of : (ℕ → Bool) → List ℕ → Bool
all_of p [] = true
all_of p (c ∷ cs) = p c && all_of p cs

-- the loops of `init` and `to_string`, two characters for each byte
unfoldable pub read_bytes : List ℕ → List ℕ
unfolding from_char_
read_bytes [] = []
read_bytes (c ∷ []) = []
read_bytes (c ∷ d ∷ str) = (from_char_ c * 0x10 + from_char_ d) % 256 ∷ read_bytes str

unfoldable pub to_string : List ℕ → List ℕ
unfolding to_char_
to_string [] = []
to_string (b ∷ data_) = to_char_ (b / 0x10) ∷ to_char_ (b % 0x10) ∷ to_string data_

-- the loops of the three generators: the most significant byte first
unfoldable pub write : ℕ → ℕ → List ℕ
write zero value = []
write (suc n) value = write n (value / 2 ^ 8) ++ (value % 256 ∷ [])

-- `memcmp`: the sign of the first difference
unfoldable pub compare : List ℕ → List ℕ → ℤ
compare (x ∷ xs) (y ∷ ys) = if ltb x y then negsuc 0 else if ltb y x then pos 1 else compare xs ys
compare _ _ = pos 0

unfoldable pub is_equal : List ℕ → List ℕ → Bool
unfolding compare
is_equal a b = eqb_ℤ (compare a b) (pos 0)

unfoldable pub is_less : List ℕ → List ℕ → Bool
unfolding compare
is_less a b = ltb_ℤ (compare a b) (pos 0)

unfoldable pub is_null : List ℕ → Bool
is_null [] = true
is_null (b ∷ data_) = if ltb 0 b then false else is_null data_

-- the loop of `get_timestamp`
unfoldable pub read_timestamp : ℕ → List ℕ → ℕ
read_timestamp value [] = value
read_timestamp value (b ∷ data_) = read_timestamp ((value * 2 ^ 8 + b) % 2 ^ 32) data_

module _ (size_timestamp size_random size_increment : ℕ) where
  abbrev pub size : ℕ
  size = size_timestamp + size_random + size_increment

  abbrev pub null : List ℕ
  null = replicate size 0

  abbrev pub max : List ℕ
  max = replicate size 0xff

  unfoldable pub is_valid : List ℕ → Bool
  unfolding is_hex
  is_valid str = (length str == 2 * size) && all_of is_hex str

  unfoldable pub init : List ℕ → List ℕ
  unfolding is_valid read_bytes
  init str = if is_valid str then read_bytes str else null

  unfoldable pub get_timestamp : List ℕ → ℕ
  unfolding read_timestamp
  get_timestamp data_ = read_timestamp 0 (take size_timestamp data_)

  -- `oid_t(timestamp)`, where the generators hold the given values; the increment is advanced first.
  unfoldable pub from_timestamp : ℕ → ℕ → ℕ → List ℕ
  unfolding write
  from_timestamp timestamp random increment =
      write size_timestamp timestamp
      ++ (write size_random random ++ write size_increment ((increment + 1) % 2 ^ 32))
