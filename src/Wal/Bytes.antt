-- ===== src/Wal/Bytes.antt =====
-- The bytes of one record, and what the readers find where it stands in a file.
use rocket_joe.Base.{
  ℕ, suc, ◌+◌, ◌-◌, ◌/◌, ◌%◌, ◌^◌, ◌≤◌, ◌<◌, ◌≡◌, refl, ap, ◌∙◌, some, List, [], ◌∷◌, ◌++◌, arith,
  length, take, get_or, replicate, length-append, length-take, append-nil, drop-length,
}
use native.Mathlib.Nat.{add-zero, zero-add}
use rocket_joe.File
use rocket_joe.File.Reads.{read-covered, read-at_end}
use rocket_joe.Wal.{Codec, read_crc32, read_size_impl, read_buffer}

abbrev pub crc_bytes : ℕ → List ℕ
crc_bytes c = c / 2 ^ 24 % 256 ∷ c / 2 ^ 16 % 256 ∷ c / 2 ^ 8 % 256 ∷ c % 256 ∷ []

abbrev pub frame : Codec → List ℕ → List ℕ
frame C payload =
    length payload % 2 ^ 16 / 2 ^ 8 % 256 ∷ length payload % 2 ^ 16 % 256 ∷ payload
    ++ crc_bytes (C.crc32c payload)

pub get_or-append : (xs ys : List ℕ) (i d : ℕ) → get_or (xs ++ ys) (length xs + i) d ≡ get_or ys i d
get_or-append [] ys i d = rw zero-add
get_or-append (x ∷ xs) ys i d =
    let e : suc (length xs) + i ≡ suc (length xs + i) = omega arith in
    rw e (get_or-append xs ys i d)

-- Reading `n` bytes just behind `pre`.
pub read_buffer-at :
    (file pre rest : List ℕ) (i n : ℕ)
    → file ≡ pre ++ rest
    → i ≡ length pre
    → n ≤ length rest
    → read_buffer file i n ≡ take n rest
unfolding read_buffer
read_buffer-at file pre rest i n f e h =
    let bytes : (File.read (λ round. some n) (pre ++ rest) n (length pre)).0 ≡ take n rest =
      ap (λ r. r.0)
        (read-covered (λ round. some n) (pre ++ rest) n (length pre) n refl (omega arith)
          (omega (arith, length-append pre rest)))
      ∙ ap (take n) (drop-length pre rest) in
    let whole : n - length (take n rest) ≡ 0 = omega (arith, length-take n rest) in
    rw (f, e, bytes, whole) (append-nil (take n rest))

-- Behind the last byte the buffer keeps its zeros.
pub read_buffer-end :
    (file : List ℕ) (i n : ℕ) → i ≡ length file → read_buffer file i n ≡ replicate n 0
unfolding read_buffer
read_buffer-end file i n e =
    rw (read-at_end (λ round. some n) file n i (omega arith))
      (ap (λ m. replicate m 0) (omega arith))

-- A size that fits 16 bits is read back.
pub read_size_bytes :
    (n : ℕ) (rest : List ℕ)
    → n < 2 ^ 16
    → read_size_impl (take 2 (n % 2 ^ 16 / 2 ^ 8 % 256 ∷ n % 2 ^ 16 % 256 ∷ rest)) 0 ≡ n
unfolding read_size_impl
read_size_bytes n rest h = omega arith

-- A crc is read back behind the payload.
pub read_crc32-crc_bytes :
    (payload : List ℕ) (c : ℕ)
    → c < 2 ^ 32
    → read_crc32 (payload ++ crc_bytes c) (length payload) ≡ c
unfolding read_crc32
read_crc32-crc_bytes payload c h = omega (
  arith,
  get_or-append payload (crc_bytes c) 0 0,
  get_or-append payload (crc_bytes c) 1 0,
  get_or-append payload (crc_bytes c) 2 0,
  get_or-append payload (crc_bytes c) 3 0,
  ap (λ i. get_or (payload ++ crc_bytes c) i 0) (add-zero (length payload)),
)
