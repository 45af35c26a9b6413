-- ===== src/Wal/Digits.antt =====
-- A codec for the tests of the log: the numbers of an entry as bytes, the least significant first.
use rocket_joe.Base.{
  ℕ, zero, suc, ◌+◌, ◌*◌, ◌/◌, ◌%◌, ◌^◌, ◌<◌, ◌≡◌, refl, ap, ◌∙◌, Bool, true, false, Option, none,
  some, List, [], ◌∷◌, arith, All, length, ◌==◌, if◌then◌else◌,
}
use rocket_joe.Wal.{Codec, StatementType}

abbrev pub power : ℕ → ℕ
power zero = 1
power (suc w) = 256 * power w

abbrev pub digits : ℕ → ℕ → List ℕ → List ℕ
digits zero n rest = rest
digits (suc w) n rest = n % 256 ∷ digits w (n / 256) rest

abbrev pub higher : ℕ → Option (ℕ × List ℕ) → Option (ℕ × List ℕ)
higher x none = none
higher x (some (n, rest)) = some (x + 256 * n, rest)

abbrev pub number : ℕ → List ℕ → Option (ℕ × List ℕ)
number zero xs = some (0, xs)
number (suc w) [] = none
number (suc w) (x ∷ xs) = higher x (number w xs)

All-digits :
    (w n : ℕ) (rest : List ℕ) → All (λ b. b < 256) rest → All (λ b. b < 256) (digits w n rest)
All-digits zero n rest h = h
All-digits (suc w) n rest h = (omega arith, All-digits w (n / 256) rest h)

length-digits : (w n : ℕ) (rest : List ℕ) → length (digits w n rest) ≡ w + length rest
length-digits zero n rest = omega arith
length-digits (suc w) n rest = omega (arith, length-digits w (n / 256) rest)

number-digits :
    (w n : ℕ) (rest : List ℕ) → n < power w → number w (digits w n rest) ≡ some (n, rest)
number-digits zero n rest h = let e : n ≡ 0 = omega arith in rw e
number-digits (suc w) n rest h =
    let e : n % 256 + 256 * (n / 256) ≡ n = omega arith in
    rw (number-digits w (n / 256) rest (omega arith), e)

abbrev pub sum : List ℕ → ℕ
sum [] = 0
sum (x ∷ xs) = x + sum xs

abbrev pub entry_of : ℕ → Option (ℕ × List ℕ) → Option (ℕ × ℕ × ℕ)
entry_of last_crc32 (some (id, s ∷ [])) = some (last_crc32, id, s)
entry_of last_crc32 _ = none

abbrev pub unpack_crc32 : Option (ℕ × List ℕ) → Option (ℕ × ℕ × ℕ)
unpack_crc32 none = none
unpack_crc32 (some (last_crc32, rest)) = entry_of last_crc32 (number 8 rest)

-- Statements of one byte: a `create_database` and a `create_index`.
abbrev pub statement_byte : Bool → ℕ
statement_byte b = if b then 1 else 0

abbrev pub statement : Option (ℕ × ℕ × ℕ) → Option (ℕ × ℕ × Bool)
statement none = none
statement (some (last_crc32, id, s)) = some (last_crc32, id, s == 1)

abbrev pub entry : ℕ → ℕ → Bool → List ℕ
entry last_crc32 id s = digits 4 last_crc32 (digits 8 id (statement_byte s ∷ []))

entry_of-byte :
    (last_crc32 id : ℕ) (s : Bool)
    → statement (entry_of last_crc32 (some (id, statement_byte s ∷ []))) ≡ some (last_crc32, id, s)
entry_of-byte last_crc32 id true = refl
entry_of-byte last_crc32 id false = refl

pub unpack-entry :
    (last_crc32 id : ℕ) (s : Bool)
    → last_crc32 < 2 ^ 32
    → id < 2 ^ 64
    → statement (unpack_crc32 (number 4 (entry last_crc32 id s))) ≡ some (last_crc32, id, s)
unpack-entry last_crc32 id s h j =
    ap (λ r. statement (unpack_crc32 r))
      (number-digits 4 last_crc32 (digits 8 id (statement_byte s ∷ [])) (omega arith))
    ∙ ap (λ r. statement (entry_of last_crc32 r))
        (number-digits 8 id (statement_byte s ∷ []) (omega arith))
    ∙ entry_of-byte last_crc32 id s

pub entry-bytes : (last_crc32 id : ℕ) (s : Bool) → All (λ b. b < 256) (entry last_crc32 id s)
entry-bytes last_crc32 id s =
    All-digits 4 last_crc32 (digits 8 id (statement_byte s ∷ []))
      (All-digits 8 id (statement_byte s ∷ []) (ground arith))

pub entry-nonempty : (last_crc32 id : ℕ) (s : Bool) → 0 < length (entry last_crc32 id s)
entry-nonempty last_crc32 id s =
    omega (arith, length-digits 4 last_crc32 (digits 8 id (statement_byte s ∷ [])))

pub sum-lt : (bytes : List ℕ) → sum bytes % 2 ^ 32 < 2 ^ 32
sum-lt bytes = omega arith

abbrev pub bytes_codec : Codec
bytes_codec = record {
  Statement = Bool;
  type_of = λ b. if b then StatementType.create_database else StatementType.create_index;
  crc32c = λ bytes. sum bytes % 2 ^ 32;
  pack_entry = entry;
  unpack_entry = λ bytes. statement (unpack_crc32 (number 4 bytes));
  crc32c-lt = sum-lt;
  pack_entry-bytes = entry-bytes;
  pack_entry-nonempty = entry-nonempty;
  unpack_entry-pack_entry = unpack-entry;
}
