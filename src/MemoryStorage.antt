-- ===== src/MemoryStorage.antt =====
-- services/memory_storage/memory_storage.cpp: the actor that owns databases and collections. A handler
-- takes the state and a message's arguments and gives the state behind it and the messages sent;
-- `none` is a call of `at` that throws. Sessions and addresses of actors are numbers.
pub mod Answers
pub mod Names
pub mod Load
mod Tests
use rocket_joe.Base.{
  ℕ, ◌+◌, ◌-◌, ◌^◌, ◌%◌, Bool, true, false, not, ◌&&◌, Option, none, some, List, [], ◌∷◌, ◌++◌,
  ◌==◌, if◌then◌else◌, any, filter, length, map, ◌>>=◌,
}
use rocket_joe.Base.Bytes.{Bytes, bytes_eq}
use rocket_joe.Base.Maps.{find_key, emplace, update_key, erase_key}

-- `collection_full_name_t`
pub record FullName : Type 0 where
  pub database : Bytes
  pub collection : Bytes

abbrev pub name_eq : FullName → FullName → Bool
name_eq a b = bytes_eq a.database b.database && bytes_eq a.collection b.collection

-- `node_type`, as far as the storage looks at it
pub data NodeType : Type 0 where
  create_database_t drop_database_t create_collection_t drop_collection_t other_t : NodeType

-- `error_code_t`, those that the storage uses
pub data ErrorCode : Type 0 where
  database_already_exists database_not_exists collection_already_exists : ErrorCode
  collection_not_exists collection_dropped other_error : ErrorCode

-- `--s.count_answers`, a `size_t`
abbrev pub decrement : ℕ → ℕ
decrement n = (n + (2 ^ 64 - 1)) % 2 ^ 64

module _ (Doc Plan Params Cursor : Type 0) where
  -- a node of the logical plan; the rest of it goes to the executor as it is
  pub record Node : Type 0 where
    pub type : NodeType
    pub name : FullName
    pub collection_dependencies : List FullName
    pub plan : Plan

  -- `context_collection_t`
  pub record Collection : Type 0 where
    pub dropped_ : Bool
    pub storage : List Doc

  pub record Session : Type 0 where
    pub logical_plan : Option Node
    pub sender : ℕ
    pub count_answers : ℕ

  pub record MemoryStorage : Type 0 where
    pub databases_ : List Bytes
    pub collections_ : List (FullName × Collection)
    pub sessions_ : List (ℕ × Session)
    pub load_buffer_ : Option (List FullName)

  -- `cursor_t` as the storage makes it, or as it came from the executor
  pub data Answer : Type 0 where
    success : Answer
    error : ErrorCode → Answer
    documents_found : List Doc → Answer
    given : Cursor → Answer

  -- the messages sent: to the executor, or to the address named first
  pub data Sent : Type 0 where
    execute_plan_finish : ℕ → ℕ → Answer → Sent
    size_finish : ℕ → ℕ → Answer → Sent
    load_finish : ℕ → ℕ → Sent
    create_documents : ℕ → Option FullName → List Doc → Sent
    execute_plan : ℕ → Node → Params → List FullName → Sent

  abbrev pub Handled : Type 0
  Handled = MemoryStorage × List Sent

  abbrev pub is_exists_database_ : MemoryStorage → Bytes → Bool
  is_exists_database_ s name = any (λ d. bytes_eq d name) s.databases_

  abbrev pub is_exists_collection_ : MemoryStorage → FullName → Bool
  is_exists_collection_ s name = elim (find_key name_eq name s.collections_) [
    | none ↦ false
    | some c ↦ true
  ]

  -- the messages, and whether the check holds
  abbrev pub check_database_ : MemoryStorage → ℕ → ℕ → Bytes → List Sent × Bool
  check_database_ s sender session name =
      if not (is_exists_database_ s name)
      then (
        execute_plan_finish sender session (Answer.error ErrorCode.database_not_exists) ∷ [],
        false,
      )
      else ([], true)

  abbrev pub check_collection_ : MemoryStorage → ℕ → ℕ → FullName → List Sent × Bool
  check_collection_ s sender session name =
      let (sent, database_exists) = check_database_ s sender session name.database in
      if database_exists
      then (if not (is_exists_collection_ s name)
          then (
            execute_plan_finish sender session (Answer.error ErrorCode.collection_not_exists) ∷ [],
            false,
          )
          else ([], true))
      else (sent, false)

  unfoldable pub create_database_ : MemoryStorage → ℕ → ℕ → Node → Handled
  create_database_ s sender session node =
      if is_exists_database_ s node.name.database
      then (
        s,
        execute_plan_finish sender session (Answer.error ErrorCode.database_already_exists) ∷ [],
      )
      else (
        record s { databases_ = s.databases_ ++ (node.name.database ∷ []) },
        execute_plan_finish sender session Answer.success ∷ [],
      )

  unfoldable pub drop_database_ : MemoryStorage → ℕ → ℕ → Node → Handled
  drop_database_ s sender session node =
      let (sent, exists) = check_database_ s sender session node.name.database in
      if exists
      then (
        record s { databases_ = filter (λ d. not (bytes_eq d node.name.database)) s.databases_ },
        execute_plan_finish sender session Answer.success ∷ [],
      )
      else (s, sent)

  unfoldable pub create_collection_ : MemoryStorage → ℕ → ℕ → Node → Handled
  create_collection_ s sender session node =
      let (sent, exists) = check_database_ s sender session node.name.database in
      if exists
      then (if is_exists_collection_ s node.name
          then (
            s,
            execute_plan_finish sender session (Answer.error ErrorCode.collection_already_exists)
                ∷ [],
          )
          else (
            record s {
              collections_ =
                  emplace name_eq s.collections_ node.name
                    (record { dropped_ = false; storage = [] });
            },
            execute_plan_finish sender session Answer.success ∷ [],
          ))
      else (s, sent)

  -- `drop()`: false where it was dropped before. The collection goes right behind it.
  abbrev pub drop : Collection → Bool
  drop c = not c.dropped_

  -- `sessions_.emplace`, the message, `sessions_.erase` and `collections_.erase`
  abbrev pub drop_found : MemoryStorage → ℕ → ℕ → Node → Collection → Handled
  drop_found s sender session node c = (
    record s {
      sessions_ = erase_key ◌==◌ session (
          emplace ◌==◌ s.sessions_ session
            (record { logical_plan = some node; sender = sender; count_answers = 1 }));
      collections_ = erase_key name_eq node.name s.collections_;
    },
    execute_plan_finish sender session
          (if drop c then Answer.success else Answer.error ErrorCode.other_error)
        ∷ [],
  )

  unfoldable pub drop_collection_ : MemoryStorage → ℕ → ℕ → Node → Option Handled
  drop_collection_ s sender session node =
      let (sent, exists) = check_collection_ s sender session node.name in
      if exists
      then (find_key name_eq node.name s.collections_ >>= λ c.
          some (drop_found s sender session node c))
      else some (s, sent)

  -- The loop over the dependencies: the contexts, or the messages of the check that fails.
  unfoldable pub check_dependencies : MemoryStorage → ℕ → ℕ → List FullName → List Sent × Bool
  check_dependencies s sender session [] = ([], true)
  check_dependencies s sender session (name ∷ names) =
      let rest = check_dependencies s sender session names in
      let (sent, exists) = check_collection_ s sender session name in
      if exists then rest else (sent, false)

  unfoldable pub execute_plan_impl : MemoryStorage → ℕ → ℕ → Node → Params → Handled
  unfolding check_dependencies
  execute_plan_impl s sender session node parameters =
      let (sent, all_exist) = check_dependencies s sender session node.collection_dependencies in
      if all_exist
      then (
        record s {
          sessions_ =
              emplace ◌==◌ s.sessions_ session
                (record { logical_plan = some node; sender = sender; count_answers = 1 });
        },
        execute_plan session node parameters node.collection_dependencies ∷ [],
      )
      else (s, sent)

  -- `execute_plan`
  unfoldable pub handle_plan : MemoryStorage → ℕ → ℕ → Node → Params → Option Handled
  unfolding create_database_ drop_database_ create_collection_ drop_collection_ execute_plan_impl
  handle_plan s sender session node parameters = elim node.type [
    | NodeType.create_database_t ↦ some (create_database_ s sender session node)
    | NodeType.drop_database_t ↦ some (drop_database_ s sender session node)
    | NodeType.create_collection_t ↦ some (create_collection_ s sender session node)
    | NodeType.drop_collection_t ↦ drop_collection_ s sender session node
    | NodeType.other_t ↦ some (execute_plan_impl s sender session node parameters)
  ]

  -- `execute_plan_finish`
  unfoldable pub handle_plan_finish : MemoryStorage → ℕ → Answer → Option Handled
  handle_plan_finish s session result = find_key ◌==◌ session s.sessions_ >>= λ found. some (
    record s { sessions_ = erase_key ◌==◌ session s.sessions_ },
    execute_plan_finish found.sender session result ∷ [],
  )

  -- `result_database_t` and `result_collection_t`: what the disk gives to load
  pub record LoadedCollection : Type 0 where
    pub name : Bytes
    pub documents : List Doc

  pub record LoadedDatabase : Type 0 where
    pub name : Bytes
    pub collections : List LoadedCollection

  abbrev pub full_name : LoadedDatabase → LoadedCollection → FullName
  full_name d c = record { database = d.name; collection = c.name }

  abbrev pub count_collections : List LoadedDatabase → ℕ
  count_collections [] = 0
  count_collections (d ∷ ds) = length d.collections + count_collections ds

  abbrev pub insert_database : List Bytes → Bytes → List Bytes
  insert_database ds name = if any (λ d. bytes_eq d name) ds then ds else ds ++ (name ∷ [])

  abbrev pub push_name : Option (List FullName) → FullName → Option (List FullName)
  push_name none n = none
  push_name (some ns) n = some (ns ++ (n ∷ []))

  -- The pointer that is sent: to the context that `emplace` has stored under the name, or `none`, to
  -- one that it has not taken and that is gone, where there was a collection of the name.
  abbrev pub context_of : MemoryStorage → FullName → Option FullName
  context_of s name = if is_exists_collection_ s name then none else some name

  -- one collection of the inner loop
  abbrev pub load_collection : LoadedDatabase → LoadedCollection → MemoryStorage → MemoryStorage
  load_collection d c s = record s {
    collections_ =
        emplace name_eq s.collections_ (full_name d c) (record { dropped_ = false; storage = [] });
    load_buffer_ = push_name s.load_buffer_ (full_name d c);
  }

  unfoldable pub load_collections :
      ℕ → LoadedDatabase → List LoadedCollection → MemoryStorage → Handled
  load_collections session d [] s = (s, [])
  load_collections session d (c ∷ cs) s =
      let (next, sent) = load_collections session d cs (load_collection d c s) in
      (next, create_documents session (context_of s (full_name d c)) c.documents ∷ sent)

  unfoldable pub load_databases : ℕ → List LoadedDatabase → MemoryStorage → Handled
  unfolding load_collections
  load_databases session [] s = (s, [])
  load_databases session (d ∷ ds) s =
      let (one, sent) =
        load_collections session d d.collections
          (record s { databases_ = insert_database s.databases_ d.name }) in
      let (next, more) = load_databases session ds one in (next, sent ++ more)

  abbrev pub load_session : ℕ → ℕ → ℕ → List (ℕ × Session) → List (ℕ × Session)
  load_session sender session count sessions =
      if not (count == 0)
      then emplace ◌==◌ sessions session
          (record { logical_plan = none; sender = sender; count_answers = count })
      else sessions

  unfoldable pub load : MemoryStorage → ℕ → ℕ → List LoadedDatabase → Handled
  unfolding load_databases
  load s sender session result =
      let count = count_collections result in
      let (next, sent) = load_databases session result (record s {
        sessions_ = load_session sender session count s.sessions_;
        load_buffer_ = some [];
      }) in
      if count == 0
      then (record next { load_buffer_ = none }, sent ++ (load_finish sender session ∷ []))
      else (next, sent)

  abbrev pub finish_one : MemoryStorage → ℕ → Session → Handled
  finish_one s session found =
      let rest = decrement found.count_answers in
      if rest == 0
      then (
        record s { sessions_ = erase_key ◌==◌ session s.sessions_; load_buffer_ = none },
        load_finish found.sender session ∷ [],
      )
      else (
        record s {
          sessions_ = update_key ◌==◌ s.sessions_ session (record found { count_answers = rest });
        },
        [],
      )

  unfoldable pub create_documents_finish : MemoryStorage → ℕ → Handled
  create_documents_finish s session = elim (find_key ◌==◌ session s.sessions_) [
    | none ↦ (s, [])
    | some found ↦ finish_one s session found
  ]

  unfoldable pub size : MemoryStorage → ℕ → ℕ → FullName → Option (List Sent)
  size s sender session name =
      let (sent, exists) = check_collection_ s sender session name in
      if exists
      then (find_key name_eq name s.collections_ >>= λ c. some (
          size_finish sender session (
            if c.dropped_
            then Answer.error ErrorCode.collection_dropped
            else Answer.documents_found c.storage)
          ∷ []))
      else some sent
