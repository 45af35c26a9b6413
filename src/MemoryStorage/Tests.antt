-- ===== src/MemoryStorage/Tests.antt =====
-- A storage with one database `a` and one collection `a.c`; documents are numbers.
use rocket_joe.Base.{ℕ, refl, false, none, List, [], ◌∷◌, ◌>>=◌, arith}
use rocket_joe.MemoryStorage
use rocket_joe.MemoryStorage.{
  FullName, NodeType, Node, Answer, LoadedDatabase, count_collections, is_exists_collection_,
  handle_plan, load,
}
use rocket_joe.MemoryStorage.Answers.{IsAnswered, then_finish, handle_plan-IsAnswered}
use rocket_joe.MemoryStorage.Names.{Behind, handle_plan-Behind}
use rocket_joe.MemoryStorage.Load.{IsLoaded, named, load-IsLoaded}

abbrev a_c : FullName
a_c = record { database = 97 ∷ []; collection = 99 ∷ [] }

abbrev one_collection : MemoryStorage.MemoryStorage ℕ ℕ ℕ ℕ
one_collection = record {
  databases_ = (97 ∷ []) ∷ [];
  collections_ = (a_c, record { dropped_ = false; storage = 1 ∷ 2 ∷ [] }) ∷ [];
  sessions_ = [];
  load_buffer_ = none;
}

abbrev find_all : Node ℕ ℕ ℕ ℕ
find_all = record {
  type = NodeType.other_t;
  name = a_c;
  collection_dependencies = a_c ∷ [];
  plan = 0;
}

abbrev drop_a : Node ℕ ℕ ℕ ℕ
drop_a = record {
  type = NodeType.drop_database_t;
  name = a_c;
  collection_dependencies = [];
  plan = 0;
}

handle_plan-IsAnswered_example : IsAnswered ℕ ℕ ℕ ℕ 8 5 (
    handle_plan ℕ ℕ ℕ ℕ one_collection 8 5 find_all 0 >>= λ h.
    then_finish ℕ ℕ ℕ ℕ 8 5 h (Answer.given 7))
handle_plan-IsAnswered_example =
    handle_plan-IsAnswered ℕ ℕ ℕ ℕ 8 5 one_collection find_all 0 (Answer.given 7) refl

handle_plan-Behind_example :
    Behind ℕ ℕ ℕ ℕ one_collection 8 5 drop_a 0 NodeType.drop_database_t
      (handle_plan ℕ ℕ ℕ ℕ one_collection 8 5 drop_a 0)
handle_plan-Behind_example = handle_plan-Behind ℕ ℕ ℕ ℕ one_collection 8 5 drop_a 0

abbrev on_disk : List (LoadedDatabase ℕ ℕ ℕ ℕ)
on_disk =
    record {
      name = 98 ∷ [];
      collections =
          record { name = 99 ∷ []; documents = 3 ∷ [] }
          ∷ record { name = 100 ∷ []; documents = [] }
          ∷ [];
    }
    ∷ []

load-IsLoaded_example :
    IsLoaded ℕ ℕ ℕ ℕ 8 5
      (count_collections ℕ ℕ ℕ ℕ on_disk)
      (is_exists_collection_ ℕ ℕ ℕ ℕ one_collection)
      (named ℕ ℕ ℕ ℕ on_disk)
      (load ℕ ℕ ℕ ℕ one_collection 8 5 on_disk)
load-IsLoaded_example = load-IsLoaded ℕ ℕ ℕ ℕ one_collection 8 5 on_disk refl (omega arith)
