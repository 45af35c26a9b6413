-- ===== src/Metadata.antt =====
-- services/disk/metadata.cpp: the databases of a disk, with the collections of each, and the file
-- that keeps them. `data_` is an unordered map; it is a list of entries here, in the order in which
-- a loop goes through it. The file is its bytes: `flush_` writes the text at 0 and cuts what is
-- behind it.
pub mod Names
pub mod Reload
pub mod Clean
pub mod Flush
mod Tests
use rocket_joe.Base.{
  ℕ, zero, suc, ◌+◌, ◌-◌, Bool, true, false, not, Option, none, some, List, [], ◌∷◌, ◌++◌, map,
  filter, any, length, take, drop, ltb, if◌then◌else◌,
}
use rocket_joe.Base.Bytes.{Bytes, bytes_eq, find_byte}

abbrev pub Collections : Type 0
Collections = List Bytes

abbrev pub Data : Type 0
Data = List (Bytes × Collections)

pub record Metadata : Type 0 where
  pub data_ : Data
  pub file_ : Bytes

unfoldable pub find : Bytes → Data → Option Collections
find database [] = none
find database ((name, cs) ∷ rest) = if bytes_eq name database then some cs else find database rest

-- `insert_or_assign`
unfoldable pub assign : Bytes → Collections → Data → Data
assign database cs [] = (database, cs) ∷ []
assign database cs ((name, old) ∷ rest) =
    if bytes_eq name database then (name, cs) ∷ rest else (name, old) ∷ assign database cs rest

unfoldable pub erase : Bytes → Data → Data
erase database [] = []
erase database ((name, cs) ∷ rest) =
    if bytes_eq name database then rest else (name, cs) ∷ erase database rest

abbrev pub contains : Collections → Bytes → Bool
contains cs collection = any (λ c. bytes_eq c collection) cs

-- `collection + ";"` of each
abbrev pub collections_text : Collections → Bytes
collections_text [] = []
collections_text (c ∷ cs) = c ++ (b';' ∷ collections_text cs)

-- the text that `flush_` writes
abbrev pub text : Data → Bytes
text [] = []
text ((name, cs) ∷ rest) = name ++ (b':' ∷ (collections_text cs ++ (0x0a ∷ text rest)))

unfoldable pub flush_ : Metadata → Metadata
flush_ m = record m { file_ = text m.data_ }

unfoldable pub databases : Metadata → List Bytes
databases m = map (λ e. e.0) m.data_

unfoldable pub collections : Metadata → Bytes → Collections
unfolding find
collections m database = elim (find database m.data_) [ none ↦ [] | some cs ↦ cs ]

unfoldable pub is_exists_database : Metadata → Bytes → Bool
unfolding find
is_exists_database m database = elim (find database m.data_) [ none ↦ false | some cs ↦ true ]

unfoldable pub is_exists_collection : Metadata → Bytes → Bytes → Bool
unfolding find
is_exists_collection m database collection = elim (find database m.data_) [
  | none ↦ false
  | some cs ↦ contains cs collection
]

abbrev flush_if : Bool → Metadata → Metadata
flush_if is_flush m = if is_flush then flush_ m else m

unfoldable pub append_database : Metadata → Bytes → Bool → Metadata × Bool
unfolding is_exists_database assign flush_
append_database m database is_flush =
    if not (is_exists_database m database)
    then (flush_if is_flush (record m { data_ = assign database [] m.data_ }), true)
    else (m, false)

unfoldable pub remove_database : Metadata → Bytes → Bool → Metadata × Bool
unfolding is_exists_database erase flush_
remove_database m database is_flush =
    if is_exists_database m database
    then (flush_if is_flush (record m { data_ = erase database m.data_ }), true)
    else (m, false)

-- `it->second.push_back(collection)`, where the database is found
abbrev push_collection : Metadata → Bytes → Bytes → Bool → Option Collections → Metadata × Bool
push_collection m database collection is_flush none = (m, false)
push_collection m database collection is_flush (some cs) = (
  flush_if is_flush (record m { data_ = assign database (cs ++ (collection ∷ [])) m.data_ }),
  true,
)

unfoldable pub append_collection : Metadata → Bytes → Bytes → Bool → Metadata × Bool
unfolding is_exists_collection find assign flush_
append_collection m database collection is_flush =
    if not (is_exists_collection m database collection)
    then push_collection m database collection is_flush (find database m.data_)
    else (m, false)

-- `std::remove` and `erase` of every equal name
abbrev drop_collection : Metadata → Bytes → Bytes → Bool → Option Collections → Metadata × Bool
drop_collection m database collection is_flush none = (m, false)
drop_collection m database collection is_flush (some cs) =
    if contains cs collection
    then (
      flush_if is_flush (record m {
        data_ = assign database (filter (λ c. not (bytes_eq c collection)) cs) m.data_;
      }),
      true,
    )
    else (m, false)

unfoldable pub remove_collection : Metadata → Bytes → Bytes → Bool → Metadata × Bool
unfolding find assign flush_
remove_collection m database collection is_flush =
    drop_collection m database collection is_flush (find database m.data_)

-- The constructor reads the text from the left; `rest` is what stands from `pos` on, and the end of
-- the line counts from there. `npos` is `none`, which is behind every position.
abbrev before_end : ℕ → Option ℕ → Bool
before_end pos_col none = true
before_end pos_col (some pos_end_line) = ltb pos_col pos_end_line

abbrev moved : ℕ → Option ℕ → Option ℕ
moved n none = none
moved n (some pos_end_line) = some (pos_end_line - n)

-- `pos == npos`, or what is done at the position
abbrev at_position : Option ℕ → Metadata → (ℕ → Metadata) → Metadata
at_position none m found = m
at_position (some pos) m found = found pos

pub read_collections : ℕ → Bytes → Bytes → Option ℕ → Metadata → Metadata
read_collections zero database rest pos_end_line m = m
read_collections (suc fuel) database rest pos_end_line m =
    at_position (find_byte b';' rest) m λ pos_col.
      let next =
        read_collections fuel database (drop (pos_col + 1) rest) (moved (pos_col + 1) pos_end_line)
          (append_collection m database (take pos_col rest) false).0 in
      if before_end pos_col pos_end_line then next else m

-- the collections of one database, whose line is `line`
pub read_line : Bytes → Bytes → Metadata → Metadata
read_line database line m =
    read_collections (suc (length line)) database line (find_byte 0x0a line)
      (append_database m database false).0

pub read_databases : ℕ → Bytes → Metadata → Metadata
read_databases zero rest m = m
read_databases (suc fuel) rest m = at_position (find_byte b':' rest) m λ pos_db.
    let line = drop (pos_db + 1) rest in
    let m' = read_line (take pos_db rest) line m in
    at_position (find_byte 0x0a line) m'
      λ pos_end_line. read_databases fuel (drop (pos_end_line + 1) line) m'

-- `open` on a file that is there
unfoldable pub open_metadata : Bytes → Metadata
unfolding read_databases read_line read_collections append_database append_collection
open_metadata file = read_databases (suc (length file)) file (record { data_ = []; file_ = file })
