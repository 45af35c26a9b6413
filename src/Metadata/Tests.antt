-- ===== src/Metadata/Tests.antt =====
-- The metadata of two databases.
use rocket_joe.Base.{◌≡◌, refl, true, false, not, ◌&&◌, ◌||◌, [], ◌∷◌}
use rocket_joe.Base.Bytes.{bytes_eq}
use rocket_joe.Metadata.{
  Metadata, find, flush_, remove_database, open_metadata, append_database, append_collection,
  remove_collection, is_exists_database, is_exists_collection,
}
use rocket_joe.Metadata.Flush.{Reached, open-file_}
use rocket_joe.Metadata.Names.{append_collection_lem, remove_collection_lem, append_database_lem}
use rocket_joe.Metadata.Reload.{IsClean, open-flush}

-- "a" with "x" and "y", "b" without collections
abbrev two_databases : Metadata
two_databases = record {
  data_ = (b'a' ∷ [], (b'x' ∷ []) ∷ (b'y' ∷ []) ∷ []) ∷ (b'b' ∷ [], []) ∷ [];
  file_ = [];
}

two_databases-IsClean : IsClean two_databases.data_
unfolding find bytes_eq
two_databases-IsClean =
    (refl, refl, (refl, refl, (refl, refl, tt)), (refl, (refl, tt)), (refl, refl, tt, tt, tt))

open-flush_example : open_metadata (flush_ two_databases).file_ ≡ flush_ two_databases
open-flush_example = open-flush two_databases two_databases-IsClean

append_collection_lem_example :
    (is_exists_collection
        (append_collection two_databases (b'b' ∷ []) (b'z' ∷ []) true).0
        (b'b' ∷ [])
        (b'z' ∷ [])
      ≡ is_exists_collection two_databases (b'b' ∷ []) (b'z' ∷ [])
        || (is_exists_database two_databases (b'b' ∷ [])
            && bytes_eq (b'b' ∷ []) (b'b' ∷ [])
            && bytes_eq (b'z' ∷ []) (b'z' ∷ [])))
    × ((append_collection two_databases (b'b' ∷ []) (b'z' ∷ []) true).1
        ≡ is_exists_database two_databases (b'b' ∷ [])
          && not (is_exists_collection two_databases (b'b' ∷ []) (b'z' ∷ [])))
append_collection_lem_example =
    append_collection_lem two_databases (b'b' ∷ []) (b'z' ∷ []) true (b'b' ∷ []) (b'z' ∷ [])

remove_collection_lem_example :
    (is_exists_collection
        (remove_collection two_databases (b'a' ∷ []) (b'x' ∷ []) true).0
        (b'a' ∷ [])
        (b'x' ∷ [])
      ≡ is_exists_collection two_databases (b'a' ∷ []) (b'x' ∷ [])
        && not (bytes_eq (b'a' ∷ []) (b'a' ∷ []) && bytes_eq (b'x' ∷ []) (b'x' ∷ [])))
    × ((remove_collection two_databases (b'a' ∷ []) (b'x' ∷ []) true).1
        ≡ is_exists_collection two_databases (b'a' ∷ []) (b'x' ∷ []))
remove_collection_lem_example =
    remove_collection_lem two_databases (b'a' ∷ []) (b'x' ∷ []) true (b'a' ∷ []) (b'x' ∷ [])

append_database_lem_example :
    (is_exists_database (append_database two_databases (b'c' ∷ []) false).0 (b'a' ∷ [])
      ≡ is_exists_database two_databases (b'a' ∷ []) || bytes_eq (b'c' ∷ []) (b'a' ∷ []))
    × (is_exists_collection
          (append_database two_databases (b'c' ∷ []) false).0
          (b'a' ∷ [])
          (b'x' ∷ [])
        ≡ is_exists_collection two_databases (b'a' ∷ []) (b'x' ∷ []))
    × ((append_database two_databases (b'c' ∷ []) false).1
        ≡ not (is_exists_database two_databases (b'c' ∷ [])))
append_database_lem_example =
    append_database_lem two_databases (b'c' ∷ []) false (b'a' ∷ []) (b'x' ∷ [])

-- "a" with "x", after "b" came and went
abbrev after_steps : Metadata
after_steps =
    (append_collection
      (remove_database
        (append_database (append_database (open_metadata []) (b'b' ∷ []) true).0 (b'a' ∷ []) true).0
        (b'b' ∷ []) true).0
      (b'a' ∷ []) (b'x' ∷ []) true).0

open-file__example : open_metadata after_steps.file_ ≡ after_steps
open-file__example = open-file_ after_steps (
    Reached.collection_appended (b'a' ∷ []) (b'x' ∷ []) refl refl (
      Reached.database_removed (b'b' ∷ []) (
        Reached.database_appended (b'a' ∷ []) refl
          (Reached.database_appended (b'b' ∷ []) refl Reached.opened))))
