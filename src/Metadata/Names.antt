-- ===== src/Metadata/Names.antt =====
-- What the operations on databases and collections do, in terms of what exists afterwards, and
-- what they keep.
use rocket_joe.Base.{
  ◌≡◌, refl, Bool, false, not, ◌&&◌, ◌||◌, some, [], ◌∷◌, ◌++◌, arith, filter, any-append,
  if◌then◌else◌, Option-cases, inl, inr,
}
use rocket_joe.Base.Bytes.{Bytes, bytes_eq, bytes_eq_iff}
use rocket_joe.Metadata.{
  Metadata, Data, Collections, find, assign, erase, contains, is_exists_database,
  is_exists_collection, append_database, append_collection, remove_collection,
}

-- Names are distinct: databases by `find`, collections of each database.
abbrev pub AreDistinct : Collections → Type 0
AreDistinct [] = Unit
AreDistinct (c ∷ cs) = (contains cs c ≡ false) × AreDistinct cs

pub find-assign :
    (k j : Bytes) (cs : Collections) (d : Data)
    → find j (assign k cs d) ≡ (if bytes_eq k j then some cs else find j d)
unfolding find assign
find-assign k j cs [] = refl
find-assign k j cs ((i, old) ∷ d) =
    ground (arith, find-assign k j cs d, bytes_eq_iff i k, bytes_eq_iff i j, bytes_eq_iff k j)

pub contains-remove :
    (c x : Bytes) (cs : Collections)
    → contains (filter (λ y. not (bytes_eq y c)) cs) x ≡ contains cs x && not (bytes_eq c x)
contains-remove c x [] = refl
contains-remove c x (y ∷ cs) =
    ground (arith, contains-remove c x cs, bytes_eq_iff y c, bytes_eq_iff y x, bytes_eq_iff c x)

pub find-erase_ne : (k j : Bytes) (d : Data) → bytes_eq k j ≡ false → find j (erase k d) ≡ find j d
unfolding find erase
find-erase_ne k j [] h = refl
find-erase_ne k j ((i, cs) ∷ d) h =
    ground (arith, h, find-erase_ne k j d h, bytes_eq_iff i k, bytes_eq_iff i j, bytes_eq_iff k j)

-- After appending a collection there exist those of before, and the new one where its database
-- exists. The result tells whether it was added: its database existed and it did not.
pub append_collection_lem :
    (m : Metadata) (db c : Bytes) (is_flush : Bool) (db' c' : Bytes)
    → (is_exists_collection (append_collection m db c is_flush).0 db' c'
        ≡ is_exists_collection m db' c'
          || (is_exists_database m db && bytes_eq db db' && bytes_eq c c'))
      × ((append_collection m db c is_flush).1
          ≡ is_exists_database m db && not (is_exists_collection m db c))
unfolding append_collection is_exists_database is_exists_collection
append_collection_lem m db c is_flush db' c' = elim (Option-cases (find db m.data_)) [
  | inl e ↦ ground (arith, e)
  | inr found ↦ ground (
    arith,
    found.1,
    find-assign db db' (found.0 ++ (c ∷ [])) m.data_,
    any-append (λ x. bytes_eq x c') found.0 (c ∷ []),
    bytes_eq_iff db db',
    bytes_eq_iff c c',
  )
]

-- After removing a collection there exist those of before but it. The result tells whether it
-- existed.
pub remove_collection_lem :
    (m : Metadata) (db c : Bytes) (is_flush : Bool) (db' c' : Bytes)
    → (is_exists_collection (remove_collection m db c is_flush).0 db' c'
        ≡ is_exists_collection m db' c' && not (bytes_eq db db' && bytes_eq c c'))
      × ((remove_collection m db c is_flush).1 ≡ is_exists_collection m db c)
unfolding remove_collection is_exists_collection
remove_collection_lem m db c is_flush db' c' = elim (Option-cases (find db m.data_)) [
  | inl e ↦ ground (arith, e, bytes_eq_iff db db')
  | inr found ↦ ground (
    arith,
    found.1,
    find-assign db db' (filter (λ y. not (bytes_eq y c)) found.0) m.data_,
    contains-remove c c' found.0,
    bytes_eq_iff db db',
    bytes_eq_iff c c',
  )
]

-- After appending a database the old ones and it exist, without collections where it is new; the
-- result tells whether it was new.
pub append_database_lem :
    (m : Metadata) (db : Bytes) (is_flush : Bool) (db' c' : Bytes)
    → (is_exists_database (append_database m db is_flush).0 db'
        ≡ is_exists_database m db' || bytes_eq db db')
      × (is_exists_collection (append_database m db is_flush).0 db' c'
          ≡ is_exists_collection m db' c')
      × ((append_database m db is_flush).1 ≡ not (is_exists_database m db))
unfolding append_database is_exists_database is_exists_collection
append_database_lem m db is_flush db' c' = elim (Option-cases (find db m.data_)) [
  | inl e ↦ ground (arith, e, find-assign db db' [] m.data_, bytes_eq_iff db db')
  | inr found ↦ ground (arith, found.1, bytes_eq_iff db db')
]
