-- ===== src/Wal/Frames.antt =====
-- A log as the records of a list of statements, one after the other.
use rocket_joe.Base.{
  ℕ, ◌+◌, ◌-◌, ◌/◌, ◌%◌, ◌^◌, ◌<◌, ◌≡◌, refl, sym, ap, ◌∙◌, Bool, true, false, if◌then◌else◌, none,
  some, List, [], ◌∷◌, ◌++◌, arith, length, length-append, append-nil, append_assoc, take-length,
}
use rocket_joe.Wal.{
  Codec, StatementType, Entry, Record, set_data, read_size, read, next_index, read_id, read_record,
}
use rocket_joe.Wal.Bytes.{
  crc_bytes, frame, read_buffer-at, read_buffer-end, read_size_bytes, read_crc32-crc_bytes,
}

module _ (C : Codec) where
  open C use {
    Statement, crc32c, pack_entry, crc32c-lt, pack_entry-nonempty, unpack_entry-pack_entry,
  }

  -- The bytes that the statements add behind a record with crc `last` and id `id`.
  abbrev pub log_bytes : ℕ → ℕ → List Statement → List ℕ
  log_bytes last id [] = []
  log_bytes last id (s ∷ ss) =
      frame C (pack_entry last (id + 1) s)
      ++ log_bytes (crc32c (pack_entry last (id + 1) s)) (id + 1) ss

  -- Every payload is shorter than 2^16 bytes: its length fits the field `size`.
  abbrev pub Fits : ℕ → ℕ → List Statement → Type 0
  Fits last id [] = Unit
  Fits last id (s ∷ ss) =
      (length (pack_entry last (id + 1) s) < 2 ^ 16)
      × Fits (crc32c (pack_entry last (id + 1) s)) (id + 1) ss

  -- the types whose data is read back: not those behind `update_many`
  abbrev pub is_kept : StatementType → Bool
  is_kept StatementType.unused = false
  is_kept StatementType.create_index = false
  is_kept StatementType.drop_index = false
  is_kept StatementType.aggregate = false
  is_kept StatementType.join = false
  is_kept _ = true

  -- what a record gives back of a statement with the id `id` behind a record with crc `last`
  abbrev pub entry_for : ℕ → ℕ → Statement → Entry Statement
  entry_for last id s = record {
    last_crc32 = last;
    id = id;
    type = C.type_of s;
    data_ = if is_kept (C.type_of s) then some s else none;
  }

  set_data-eq-is_kept :
      (t : StatementType) (s : Statement) → set_data C t s ≡ (if is_kept t then some s else none)
  unfolding set_data
  set_data-eq-is_kept StatementType.unused s = refl
  set_data-eq-is_kept StatementType.create_database s = refl
  set_data-eq-is_kept StatementType.drop_database s = refl
  set_data-eq-is_kept StatementType.create_collection s = refl
  set_data-eq-is_kept StatementType.drop_collection s = refl
  set_data-eq-is_kept StatementType.insert_one s = refl
  set_data-eq-is_kept StatementType.insert_many s = refl
  set_data-eq-is_kept StatementType.delete_one s = refl
  set_data-eq-is_kept StatementType.delete_many s = refl
  set_data-eq-is_kept StatementType.update_one s = refl
  set_data-eq-is_kept StatementType.update_many s = refl
  set_data-eq-is_kept StatementType.create_index s = refl
  set_data-eq-is_kept StatementType.drop_index s = refl
  set_data-eq-is_kept StatementType.aggregate s = refl
  set_data-eq-is_kept StatementType.join s = refl

  -- The records to be read back: each holds the crc of the one before it, its id, its type, and its
  -- data where the type is kept.
  abbrev pub records : ℕ → ℕ → List Statement → List (Record Statement)
  records last id [] = []
  records last id (s ∷ ss) =
      record {
        size = length (pack_entry last (id + 1) s);
        crc32 = crc32c (pack_entry last (id + 1) s);
        entry = some (entry_for last (id + 1) s);
      }
      ∷ records (crc32c (pack_entry last (id + 1) s)) (id + 1) ss

  abbrev pub head_id : ℕ → List Statement → ℕ
  head_id id [] = 0
  head_id id (s ∷ ss) = id + 1

  -- In `file`, from `start` on to the end, stand the records of `ss`.
  pub record At (file : List ℕ) (start last id : ℕ) (ss : List Statement) : Type 0 where
    pub before : List ℕ
    pub bytes : file ≡ before ++ log_bytes last id ss
    pub position : start ≡ length before
    pub fits : Fits last id ss
    pub ids : id + length ss < 2 ^ 64
    pub crc : last < 2 ^ 32

  pub At-size-cons :
      (file : List ℕ) (start last id : ℕ) (s : Statement) (ss : List Statement)
      → At file start last id (s ∷ ss)
      → read_size file start ≡ length (pack_entry last (id + 1) s)
  unfolding read_size
  At-size-cons file start last id s ss at =
      rw
        (read_buffer-at file at.before (log_bytes last id (s ∷ ss)) start 2 at.bytes at.position
          (omega arith))
        (read_size_bytes (length (pack_entry last (id + 1) s))
          ((pack_entry last (id + 1) s ++ crc_bytes (crc32c (pack_entry last (id + 1) s)))
            ++ log_bytes (crc32c (pack_entry last (id + 1) s)) (id + 1) ss)
          at.fits.0)

  pub At-size-nil :
      (file : List ℕ) (start last id : ℕ) → At file start last id [] → read_size file start ≡ 0
  unfolding read_size
  At-size-nil file start last id at = rw (
      read_buffer-end file start 2
        (at.position ∙ ap length (sym (at.bytes ∙ append-nil at.before))))

  module _ (file : List ℕ) (start last id : ℕ) (s : Statement) (ss : List Statement)
      (at : At file start last id (s ∷ ss)) where
    abbrev payload : List ℕ
    payload = pack_entry last (id + 1) s

    abbrev size_bytes : List ℕ
    size_bytes = length payload % 2 ^ 16 / 2 ^ 8 % 256 ∷ length payload % 2 ^ 16 % 256 ∷ []

    abbrev tail_bytes : List ℕ
    tail_bytes = log_bytes (crc32c payload) (id + 1) ss

    behind_size : start + 2 ≡ length (at.before ++ size_bytes)
    behind_size = omega (arith, at.position, length-append at.before size_bytes)

    abbrev crc : List ℕ
    crc = crc_bytes (crc32c payload)

    file-output : file ≡ (at.before ++ size_bytes) ++ ((payload ++ crc) ++ tail_bytes)
    file-output =
        at.bytes ∙ sym (append_assoc at.before size_bytes ((payload ++ crc) ++ tail_bytes))

    file-payload : file ≡ (at.before ++ size_bytes) ++ (payload ++ (crc ++ tail_bytes))
    file-payload =
        file-output ∙ ap (λ r. (at.before ++ size_bytes) ++ r) (append_assoc payload crc tail_bytes)

    pub At-payload : read file (start + 2) (start + 2 + length payload) ≡ payload
    unfolding read
    At-payload =
        let n : start + 2 + length payload - (start + 2) ≡ length payload = omega arith in
        rw n (
          read_buffer-at file (at.before ++ size_bytes) (payload ++ (crc ++ tail_bytes)) (start + 2)
            (length payload) file-payload behind_size
            (omega (arith, length-append payload (crc ++ tail_bytes)))
          ∙ take-length payload (crc ++ tail_bytes))

    pub At-output : read file (start + 2) (start + 2 + length payload + 4) ≡ payload ++ crc
    unfolding read
    At-output =
        let n : start + 2 + length payload + 4 - (start + 2) ≡ length (payload ++ crc) =
          omega (arith, length-append payload crc) in
        rw n (
          read_buffer-at file (at.before ++ size_bytes) ((payload ++ crc) ++ tail_bytes) (start + 2)
            (length (payload ++ crc)) file-output behind_size
            (omega (arith, length-append (payload ++ crc) tail_bytes))
          ∙ take-length (payload ++ crc) tail_bytes)

  pub At-next :
      (file : List ℕ) (start last id : ℕ) (s : Statement) (ss : List Statement)
      → At file start last id (s ∷ ss)
      → At file
          (next_index start (length (pack_entry last (id + 1) s)))
          (crc32c (pack_entry last (id + 1) s))
          (id + 1)
          ss
  unfolding next_index
  At-next file start last id s ss at = record {
    before = at.before ++ frame C (pack_entry last (id + 1) s);
    bytes =
        at.bytes
        ∙ sym (
            append_assoc at.before (frame C (pack_entry last (id + 1) s))
              (log_bytes (crc32c (pack_entry last (id + 1) s)) (id + 1) ss));
    position = omega (
      arith,
      at.position,
      length-append at.before (frame C (pack_entry last (id + 1) s)),
      length-append (pack_entry last (id + 1) s) (crc_bytes (crc32c (pack_entry last (id + 1) s))),
    );
    fits = at.fits.1;
    ids = omega (arith, at.ids);
    crc = crc32c-lt (pack_entry last (id + 1) s);
  }

  pub At-id :
      (file : List ℕ) (start last id : ℕ) (ss : List Statement)
      → At file start last id ss
      → read_id C file start ≡ some (head_id id ss)
  unfolding read_id
  At-id file start last id [] at = rw (At-size-nil file start last id at)
  At-id file start last id (s ∷ ss) at = rw (At-size-cons file start last id s ss at) (
      rw
        (
          At-payload file start last id s ss at,
          unpack_entry-pack_entry last (id + 1) s at.crc (omega (arith, at.ids)),
        )
        (ground (arith, pack_entry-nonempty last (id + 1) s)))

  pub At-record-nil :
      (file : List ℕ) (start last id : ℕ)
      → At file start last id []
      → read_record C file start ≡ some (record { size = 0; crc32 = 0; entry = none })
  unfolding read_record
  At-record-nil file start last id at = rw (At-size-nil file start last id at)

  pub At-record-cons :
      (file : List ℕ) (start last id : ℕ) (s : Statement) (ss : List Statement)
      → At file start last id (s ∷ ss)
      → read_record C file start
        ≡ some (record {
          size = length (pack_entry last (id + 1) s);
          crc32 = crc32c (pack_entry last (id + 1) s);
          entry = some (entry_for last (id + 1) s);
        })
  unfolding read_record
  At-record-cons file start last id s ss at = rw (At-size-cons file start last id s ss at) (
      rw
        (
          At-payload file start last id s ss at,
          At-output file start last id s ss at,
          read_crc32-crc_bytes (pack_entry last (id + 1) s) (crc32c (pack_entry last (id + 1) s))
              (crc32c-lt (pack_entry last (id + 1) s)),
          unpack_entry-pack_entry last (id + 1) s at.crc (omega (arith, at.ids)),
          set_data-eq-is_kept (C.type_of s) s,
        )
        (ground (arith, pack_entry-nonempty last (id + 1) s)))
