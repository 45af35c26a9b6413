-- ===== src/Index.antt =====
-- components/index: single_field_index.cpp and index.cpp, an index over one field of the documents of
-- a collection. A document is `document_ptr`; a value is `value_t`.
pub mod Ranges
pub mod Scan
pub mod Search
pub mod Split
pub mod Engine
pub mod Live
pub mod Owned
pub mod Synced
pub mod Kept
pub mod Inserted
mod Tests
use rocket_joe.Base.{
  ℕ, Bool, Option, none, some, List, [], ◌∷◌, not, ◌==◌, length, map, take, drop, ◌-◌,
}
use rocket_joe.Base.Bytes.{Bytes}
use rocket_joe.Storage.Multi.{MultiBtree}
use rocket_joe.Document.{Documents, Value}

-- What an index asks of documents: `get_value`, the order `std::less<value_t>` and the equality of
-- keys (`key_t::operator==`).
pub record Fields (D : Documents) : Type 0 where
  pub get_value : D.Document → D.Key → Value D
  pub less : Value D → Value D → Bool
  pub key_eq : D.Key → D.Key → Bool

pub record IndexValue (Doc : Type 0) : Type 0 where
  pub id : ℕ
  pub doc : Doc

abbrev pub Tree : (D : Documents) → Fields D → Type 1
Tree D F = MultiBtree (Value D) (IndexValue D.Document) F.less

-- the agent of an index that is kept in memory only
abbrev pub empty_address : ℕ
empty_address = 0

module _ (D : Documents) (F : Fields D) (M : Tree D F) where
  open D use {Document, Key, get_document_id}
  open F use {get_value}

  -- `index_t` with the `storage_` of `single_field_index_t`
  pub record Index : Type 0 where
    pub name : Bytes
    pub keys : List Key
    pub disk_agent : ℕ
    pub storage_ : M.Map

  abbrev pub is_disk : Index → Bool
  is_disk index = not (index.disk_agent == empty_address)

  abbrev pub make_single_field_index : Bytes → List Key → Index
  make_single_field_index name keys = record {
    name = name;
    keys = keys;
    disk_agent = empty_address;
    storage_ = M.empty;
  }

  abbrev pub with_storage : Index → M.Map → Index
  with_storage index m = record index { storage_ = m }

  -- `insert(value_t, index_value_t)`
  abbrev pub insert_impl : Index → Value D → IndexValue Document → Index
  insert_impl index key value = with_storage index (M.insert index.storage_ key value)

  -- `insert(value_t, document_ptr)`
  abbrev pub insert_key_document : Index → Value D → Document → Index
  insert_key_document index key doc =
      insert_impl index key (record { id = get_document_id doc; doc = doc })

  -- `insert(document_ptr)`; `none` where the index has no key, which the code does not check
  abbrev pub insert_by_key : List Key → Index → Document → Option Index
  insert_by_key [] index doc = none
  insert_by_key (key ∷ keys) index doc =
      some (insert_impl index (get_value doc key) (record { id = get_document_id doc; doc = doc }))

  -- `storage_.erase(storage_.find(key))`; `none` where `end()` would be erased
  abbrev pub erase_found : Index → Option ℕ → Option Index
  erase_found index none = none
  erase_found index (some i) = some (with_storage index (M.erase index.storage_ i))

  abbrev pub remove_impl : Index → Value D → Option Index
  remove_impl index key = erase_found index (M.find index.storage_ key)

  -- the first position of a range and the one behind its last
  abbrev pub Range : Type 0
  Range = ℕ × ℕ

  -- what `for (auto it = range.first; it != range.second; ++it)` goes through
  abbrev pub range_elements : Index → Range → List (Value D × IndexValue Document)
  range_elements index r = take (r.1 - r.0) (drop r.0 (M.elements index.storage_))

  abbrev pub cend : Index → ℕ
  cend index = length (M.elements index.storage_)

  abbrev pub find_impl : Index → Value D → Range
  find_impl index v = (M.lower_bound index.storage_ v, M.upper_bound index.storage_ v)

  abbrev pub lower_bound_impl : Index → Value D → Range
  lower_bound_impl index v = (0, M.lower_bound index.storage_ v)

  abbrev pub upper_bound_impl : Index → Value D → Range
  upper_bound_impl index v = (M.upper_bound index.storage_ v, cend index)

  abbrev pub clean_memory_to_new_elements_impl : Index → Index
  clean_memory_to_new_elements_impl index = with_storage index M.empty
