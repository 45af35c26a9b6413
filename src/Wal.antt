-- ===== src/Wal.antt =====
-- services/wal: dto.cpp (the bytes of a record), wal.cpp (the log of one `wal_replicate_t`), base.hpp
-- and record.hpp. A byte (`char`) is a number below 256. msgpack and crc32c are not code of the
-- repository: the parameter `Codec`, with what the log relies on.
-- A call of `msgpack::unpack` or `as` that throws is `none`; it ends the operation.
-- The actor framework, the trace and the answer to the sender are left out.
pub mod Bytes
pub mod Frames
pub mod Loops
pub mod Recovery
pub mod Acknowledged
pub mod Digits
mod Tests
use rocket_joe.File
use rocket_joe.Base.{
  ℕ, zero, suc, ◌+◌, ◌*◌, ◌/◌, ◌%◌, ◌^◌, ◌-◌, ◌<◌, ◌≡◌, Bool, Option, none, some, List, [], ◌∷◌,
  ◌++◌, All, length, get_or, replicate, ltb, ◌==◌, if◌then◌else◌, ◌>>=◌,
}

-- `components::ql::statement_type`
pub data StatementType : Type 0 where
  unused create_database drop_database create_collection drop_collection : StatementType
  insert_one insert_many delete_one delete_many update_one update_many : StatementType
  create_index drop_index aggregate join : StatementType

-- The messages of a log entry and their bytes: `pack_array(4)` of the last crc, the id, the type and
-- the data. A `Statement` is a type with its data; the bytes of the data of each type, which msgpack
-- takes from the statement itself, are left to the codec.
pub record Codec : Type 1 where
  pub Statement : Type 0
  pub type_of : Statement → StatementType
  pub crc32c : List ℕ → ℕ
  pub pack_entry : ℕ → ℕ → Statement → List ℕ
  pub unpack_entry : List ℕ → Option (ℕ × ℕ × Statement)
  pub crc32c-lt : (bytes : List ℕ) → crc32c bytes < 2 ^ 32
  pub pack_entry-bytes :
      (last_crc32 id : ℕ) (s : Statement) → All (λ b. b < 256) (pack_entry last_crc32 id s)
  pub pack_entry-nonempty :
      (last_crc32 id : ℕ) (s : Statement) → 0 < length (pack_entry last_crc32 id s)
  pub unpack_entry-pack_entry :
      (last_crc32 id : ℕ) (s : Statement)
      → last_crc32 < 2 ^ 32
      → id < 2 ^ 64
      → unpack_entry (pack_entry last_crc32 id s) ≡ some (last_crc32, id, s)

-- base.hpp
unfoldable pub next_id : ℕ → ℕ
next_id id = (id + 1) % 2 ^ 64

-- dto.cpp: the most significant byte first
unfoldable pub append_crc32 : List ℕ → ℕ → List ℕ
append_crc32 storage crc32 =
    storage
    ++ (crc32 / 2 ^ 24 % 256 ∷ crc32 / 2 ^ 16 % 256 ∷ crc32 / 2 ^ 8 % 256 ∷ crc32 % 256 ∷ [])

unfoldable pub append_size : List ℕ → ℕ → List ℕ
append_size storage size = storage ++ (size / 2 ^ 8 % 256 ∷ size % 256 ∷ [])

unfoldable pub append_payload : List ℕ → List ℕ → List ℕ
append_payload storage payload = storage ++ payload

-- Every caller has resized the buffer to hold the bytes that are read.
unfoldable pub read_crc32 : List ℕ → ℕ → ℕ
read_crc32 input index_start =
    get_or input index_start 0 * 2 ^ 24
    + get_or input (index_start + 1) 0 * 2 ^ 16
    + get_or input (index_start + 2) 0 * 2 ^ 8
    + get_or input (index_start + 3) 0

unfoldable pub read_size_impl : List ℕ → ℕ → ℕ
read_size_impl input index_start =
    get_or input index_start 0 * 2 ^ 8 + get_or input (index_start + 1) 0

-- The size is a `uint16_t`: `size_tt(data_size)` drops what does not fit.
unfoldable pub pack : (C : Codec) → List ℕ → List ℕ → List ℕ × ℕ
unfolding append_size append_payload append_crc32
pack C storage input =
    let last_crc32 = C.crc32c input in
    (
      append_crc32 (append_payload (append_size storage (length input % 2 ^ 16)) input) last_crc32,
      last_crc32,
    )

-- `wal_replicate_t`: the file, whose position stays at its end, `id_` and `last_crc32_`
pub record Wal : Type 0 where
  pub file : List ℕ
  pub id_ : ℕ
  pub last_crc32_ : ℕ

unfoldable pub write_buffer : Wal → List ℕ → Wal
write_buffer w buffer = record w { file = w.file ++ buffer }

-- `write_data_`, which every kind of statement calls
unfoldable pub write_data_ : (C : Codec) → Wal → C.Statement → Wal
unfolding next_id pack write_buffer
write_data_ C w s =
    let id = next_id w.id_ in
    let (buffer, crc32) = pack C [] (C.pack_entry w.last_crc32_ id s) in
    write_buffer (record w { id_ = id; last_crc32_ = crc32 }) buffer

-- `create_database`, `drop_database`, `create_collection`, `drop_collection`, `insert_one`,
-- `insert_many`, `delete_one`, `delete_many`, `update_one`, `update_many` and `create_index` do the
-- same on a statement of their type: it is written, and `send_success` answers with the id.
unfoldable pub handle : (C : Codec) → Wal → C.Statement → Wal × ℕ
unfolding write_data_
handle C w s = let w' = write_data_ C w s in (w', w'.id_)

-- `buffer.resize(size)` zeroes the buffer; the read fills it as far as it goes. No `pread` of the log
-- fails or is cut short.
unfoldable pub read_buffer : List ℕ → ℕ → ℕ → List ℕ
read_buffer file start_index size =
    let bytes = (File.read (λ round. some size) file size start_index).0 in
    bytes ++ replicate (size - length bytes) 0

unfoldable pub read_size : List ℕ → ℕ → ℕ
unfolding read_size_impl
read_size file start_index = read_size_impl (read_buffer file start_index 2) 0

unfoldable pub read : List ℕ → ℕ → ℕ → List ℕ
read file start_index finish_index = read_buffer file start_index (finish_index - start_index)

unfoldable pub next_index : ℕ → ℕ → ℕ
next_index index size = index + size + 2 + 4

-- what is unpacked of a record: the last crc, the id, the type and the data, where the record takes it
pub record Entry (Statement : Type 0) : Type 0 where
  pub last_crc32 : ℕ
  pub id : ℕ
  pub type : StatementType
  pub data_ : Option Statement

-- `record_t`; its entry is `none` where nothing is unpacked.
pub record Record (Statement : Type 0) : Type 0 where
  pub size : ℕ
  pub crc32 : ℕ
  pub entry : Option (Entry Statement)

abbrev pub is_valid : {Statement : Type 0} → Record Statement → Bool
is_valid r = ltb 0 r.size

module _ (C : Codec) where
  open C use {Statement, crc32c, unpack_entry}

  -- `unpack_wal_id`
  abbrev unpack_wal_id : Option (ℕ × ℕ × Statement) → Option ℕ
  unpack_wal_id none = none
  unpack_wal_id (some (last_crc32, id, s)) = some id

  unfoldable pub read_id : List ℕ → ℕ → Option ℕ
  unfolding read_size read
  read_id file start_index =
      let size = read_size file start_index in
      let start = start_index + 2 in
      if ltb 0 size then unpack_wal_id (unpack_entry (read file start (start + size))) else some 0

  -- `set_data`: the switch on the type of the record
  unfoldable pub set_data : StatementType → Statement → Option Statement
  set_data StatementType.create_database object = some object
  set_data StatementType.drop_database object = some object
  set_data StatementType.create_collection object = some object
  set_data StatementType.drop_collection object = some object
  set_data StatementType.insert_one object = some object
  set_data StatementType.insert_many object = some object
  set_data StatementType.delete_one object = some object
  set_data StatementType.delete_many object = some object
  set_data StatementType.update_one object = some object
  set_data StatementType.update_many object = some object
  set_data _ object = none

  abbrev pub entry_of : ℕ × ℕ × Statement → Entry Statement
  entry_of (last_crc32, id, s) = record {
    last_crc32 = last_crc32;
    id = id;
    type = C.type_of s;
    data_ = set_data (C.type_of s) s;
  }

  -- the record whose bytes `output` are the payload and the crc
  abbrev record_of : ℕ → List ℕ → List ℕ → Option (Record Statement)
  record_of size payload output =
      if read_crc32 output size == crc32c payload
      then (do
        e ← unpack_entry payload
        some (record { size = size; crc32 = read_crc32 output size; entry = some (entry_of e) }))
      else some (record { size = size; crc32 = read_crc32 output size; entry = none })

  unfoldable pub read_record : List ℕ → ℕ → Option (Record Statement)
  unfolding read_size read read_crc32
  read_record file start_index =
      let size = read_size file start_index in
      let start = start_index + 2 in
      if ltb 0 size
      then record_of size (read file start (start + size)) (read file start (start + size + 4))
      else some (record { size = 0; crc32 = 0; entry = none })

  -- the loop of `init_id`; the fuel bounds its rounds
  pub init_id_loop : ℕ → List ℕ → ℕ → ℕ → ℕ → Option ℕ
  init_id_loop zero file start_index id id_ = none
  init_id_loop (suc fuel) file start_index id id_ =
      if ltb 0 id
      then (do
        let start_index' = next_index start_index (read_size file start_index)
        id' ← read_id file start_index'
        init_id_loop fuel file start_index' id' id)
      else some id_

  -- the id of the last record
  unfoldable pub init_id : List ℕ → Option ℕ
  unfolding init_id_loop next_index
  init_id file = do id ← read_id file 0; init_id_loop (suc (length file)) file 0 id 0

  -- The constructor, with `sync_to_disk`, on a file that is there.
  unfoldable pub open_wal : List ℕ → Option Wal
  open_wal file = do id ← init_id file; some (record { file = file; id_ = id; last_crc32_ = 0 })

  -- the rounds of `for (n = first_id; n < wal_id; ++n)`; `none` is the `return false`
  pub skip_records : ℕ → List ℕ → ℕ → Option ℕ
  skip_records zero file start_index = some start_index
  skip_records (suc rounds) file start_index =
      let size = read_size file start_index in
      let rest = skip_records rounds file (next_index start_index size) in
      if ltb 0 size then rest else none

  -- `return wal_id == read_id(start_index)`
  abbrev start_of : List ℕ → ℕ → Option ℕ → Option (Option ℕ)
  start_of file wal_id none = some none
  start_of file wal_id (some start_index) = do
    id ← read_id file start_index
    some (if wal_id == id then some start_index else none)

  -- the start of the record with the id, if there is one
  unfoldable pub find_start_record : List ℕ → ℕ → Option (Option ℕ)
  unfolding skip_records next_index
  find_start_record file wal_id = do
    first_id ← read_id file 0
    if ltb 0 first_id
        then start_of file wal_id (skip_records (wal_id - first_id) file 0)
        else some none

  -- `do records.emplace_back(read_record(...)) while (valid)`, less the last record, which is not
  pub load_loop : ℕ → List ℕ → ℕ → Option (List (Record Statement))
  load_loop zero file start_index = none
  load_loop (suc fuel) file start_index = do
    r ← read_record file start_index
    if is_valid r
        then (do rs ← load_loop fuel file (next_index start_index r.size); some (r ∷ rs))
        else some []

  abbrev load_from : List ℕ → Option ℕ → Option (List (Record Statement))
  load_from file none = some []
  load_from file (some start_index) = load_loop (suc (length file)) file start_index

  unfoldable pub load : List ℕ → ℕ → Option (List (Record Statement))
  unfolding load_loop next_index next_id
  load file wal_id = do start ← find_start_record file (next_id wal_id); load_from file start
