-- ===== src/Oid/Text.antt =====
-- Ids as texts.
use rocket_joe.Base.{
  ℕ, zero, suc, ◌+◌, ◌*◌, ◌/◌, ◌%◌, ◌<◌, ◌≡◌, refl, ap, ap₂, true, ◌&&◌, List, [], ◌∷◌, arith,
  length, map, All, leb, if◌then◌else◌,
}
use rocket_joe.Oid.{
  to_char_, from_char_, is_hex, all_of, read_bytes, to_string, is_valid, init, size,
}

from_char_-to_char_ : (n : ℕ) → n < 16 → from_char_ (to_char_ n) ≡ n
unfolding from_char_ to_char_
from_char_-to_char_ n h = ground (arith, h)

is_hex-to_char_ : (n : ℕ) → n < 16 → is_hex (to_char_ n) ≡ true
unfolding is_hex to_char_
is_hex-to_char_ n h = ground (arith, h)

length-to_string : (o : List ℕ) → length (to_string o) ≡ 2 * length o
unfolding to_string
length-to_string [] = refl
length-to_string (b ∷ o) = omega (arith, length-to_string o)

all_of-to_string : (o : List ℕ) → All (λ b. b < 256) o → all_of is_hex (to_string o) ≡ true
unfolding to_string
all_of-to_string [] h = refl
all_of-to_string (b ∷ o) h =
    rw (is_hex-to_char_ (b / 0x10) (omega (arith, h.0)), is_hex-to_char_ (b % 0x10) (omega arith))
      (all_of-to_string o h.1)

read_bytes-to_string : (o : List ℕ) → All (λ b. b < 256) o → read_bytes (to_string o) ≡ o
unfolding read_bytes to_string
read_bytes-to_string [] h = refl
read_bytes-to_string (b ∷ o) h =
    rw
      (
        from_char_-to_char_ (b / 0x10) (omega (arith, h.0)),
        from_char_-to_char_ (b % 0x10) (omega arith),
      )
      (ap₂ ◌∷◌ (omega (arith, h.0)) (read_bytes-to_string o h.1))

-- The lower case of a hexadecimal digit.
abbrev pub lower : ℕ → ℕ
lower c = if leb b'A' c && leb c b'F' then c + 0x20 else c

from_char_-lt : (c : ℕ) → is_hex c ≡ true → from_char_ c < 16
unfolding is_hex from_char_
from_char_-lt c h = ground (arith, h)

to_char_-from_char_ : (c : ℕ) → is_hex c ≡ true → to_char_ (from_char_ c) ≡ lower c
unfolding is_hex from_char_ to_char_
to_char_-from_char_ c h = ground (arith, h)

halves :
    (c d : ℕ)
    → is_hex c ≡ true
    → is_hex d ≡ true
    → (((from_char_ c * 0x10 + from_char_ d) % 256 / 0x10) ≡ from_char_ c)
      × (((from_char_ c * 0x10 + from_char_ d) % 256 % 0x10) ≡ from_char_ d)
halves c d h j =
    let high : from_char_ c < 16 = from_char_-lt c h in
    let low : from_char_ d < 16 = from_char_-lt d j in (omega arith, omega arith)

-- Two digits at a time.
to_string-read_bytes :
    (n : ℕ) (str : List ℕ)
    → length str ≡ 2 * n
    → all_of is_hex str ≡ true
    → to_string (read_bytes str) ≡ map lower str
unfolding to_string read_bytes
to_string-read_bytes n [] len h = refl
to_string-read_bytes n (c ∷ []) len h = absurd (omega (arith, len))
to_string-read_bytes zero (c ∷ d ∷ str) len h = absurd (omega (arith, len))
to_string-read_bytes (suc n) (c ∷ d ∷ str) len h =
    let hex_c : is_hex c ≡ true = ground (arith, h) in
    let hex_d : is_hex d ≡ true = ground (arith, h) in
    rw
      (
        (halves c d hex_c hex_d).0,
        (halves c d hex_c hex_d).1,
        to_char_-from_char_ c hex_c,
        to_char_-from_char_ d hex_d,
      )
      (ap (λ r. lower c ∷ lower d ∷ r)
        (to_string-read_bytes n str (omega (arith, len)) (ground (arith, h))))

module _ (size_timestamp size_random size_increment : ℕ) where
  -- An id of the right length, written as a text and read again, is the same id.
  pub init-to_string :
      (o : List ℕ)
      → length o ≡ size size_timestamp size_random size_increment
      → All (λ b. b < 256) o
      → init size_timestamp size_random size_increment (to_string o) ≡ o
  unfolding init is_valid
  init-to_string o len h =
      rw (all_of-to_string o h, read_bytes-to_string o h) (ground (arith, length-to_string o, len))

  -- A valid text, read as an id and written again, is the text in lower case.
  pub to_string-init :
      (str : List ℕ)
      → is_valid size_timestamp size_random size_increment str ≡ true
      → to_string (init size_timestamp size_random size_increment str) ≡ map lower str
  unfolding init is_valid
  to_string-init str h =
      let hex : all_of is_hex str ≡ true = ground (arith, h) in
      let len : length str ≡ 2 * size size_timestamp size_random size_increment =
        ground (arith, h) in
      ground (
        arith,
        h,
        to_string-read_bytes (size size_timestamp size_random size_increment) str len hex,
      )
