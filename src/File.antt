-- ===== src/File.antt =====
-- core/file/local_file_system.cpp (the POSIX part): a positioned read of an open file. The file is
-- its bytes, each a number below 256.
pub mod Reads
mod Tests
use rocket_joe.Base.{
  ℕ, zero, suc, ◌-◌, ◌<◌, Bool, true, false, Option, none, some, List, [], ◌∷◌, ◌++◌, length, take,
  drop, ltb, if◌then◌else◌,
}

-- `pread` of a regular file, which the system answers: `none` is -1, and `some most` gives as many
-- bytes as there are, up to the number asked for and to `most`.
abbrev pub pread : Option ℕ → List ℕ → ℕ → ℕ → Option (List ℕ)
pread none file nr_bytes location = none
pread (some most) file nr_bytes location = some (take most (take nr_bytes (drop location file)))

-- `bytes_read`, where it is not -1
abbrev pub bytes_read : Option (List ℕ) → ℕ
bytes_read none = 0
bytes_read (some bytes) = length bytes

-- what one `pread` adds to the rest of the loop
abbrev pub after_read : Option (List ℕ) → List ℕ × Bool → List ℕ × Bool
after_read none rest = ([], false)
after_read (some []) rest = ([], false)
after_read (some (b ∷ bs)) (rest, done) = (b ∷ bs ++ rest, done)

-- `while (nr_bytes > 0)`, with what the system answers in each round; a read that fails or returns
-- nothing ends the loop with `false`. The buffer and the number of bytes advance, the location does
-- not. A round that goes on reads a byte at least, so `nr_bytes` rounds are enough.
read_loop : ℕ → (ℕ → Option ℕ) → List ℕ → ℕ → ℕ → List ℕ × Bool
read_loop zero system file nr_bytes location = ([], true)
read_loop (suc fuel) system file nr_bytes location =
    let bytes = pread (system 0) file nr_bytes location in
    let rest =
      read_loop fuel (λ round. system (suc round)) file (nr_bytes - bytes_read bytes) location in
    if ltb 0 nr_bytes then after_read bytes rest else ([], true)

-- `read(fs, handle, buffer, nr_bytes, location)`: the bytes put into the buffer, and the result.
unfoldable pub read : (ℕ → Option ℕ) → List ℕ → ℕ → ℕ → List ℕ × Bool
unfolding read_loop
read system file nr_bytes location = read_loop nr_bytes system file nr_bytes location
