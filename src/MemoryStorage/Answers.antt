-- ===== src/MemoryStorage/Answers.antt =====
-- Every plan that comes to the storage is answered once.
use rocket_joe.Base.{
  ℕ, ◌≡◌, refl, Bool, true, false, not, Option, none, some, List, [], ◌∷◌, ◌++◌, ◌==◌,
  if◌then◌else◌, ◌>>=◌, filter,
}
use rocket_joe.Base.Bytes.{Bytes}
use rocket_joe.Base.Maps.{find_key, emplace, erase_key, find_key-emplace, find_key-erase}
use rocket_joe.MemoryStorage
use rocket_joe.MemoryStorage.{
  FullName, NodeType, ErrorCode, name_eq, Node, Collection, Session, Answer, Sent, check_database_,
  check_collection_, check_dependencies, create_database_, drop_database_, create_collection_,
  drop_collection_, drop_found, execute_plan_impl, handle_plan, handle_plan_finish,
  is_exists_collection_, is_exists_database_, Handled,
}

module _ (Doc Plan Params Cursor : Type 0) where
  abbrev Storage : Type 0
  Storage = MemoryStorage.MemoryStorage Doc Plan Params Cursor

  abbrev Message : Type 0
  Message = Sent Doc Plan Params Cursor

  abbrev Reply : Type 0
  Reply = Answer Doc Plan Params Cursor

  module _ (sender session : ℕ) where
    abbrev pub reply : Reply → Message
    reply a = Sent.execute_plan_finish sender session a

    -- A handler answers at once and keeps no session, or hands the plan to the executor and
    -- remembers who asked.
    pub data Outcome (node : Node Doc Plan Params Cursor) (parameters : Params)
        : Option (Handled Doc Plan Params Cursor) → Type 0 where
      answered :
          (next : Storage) (a : Reply)
          → find_key ◌==◌ session next.sessions_ ≡ none
          → Outcome node parameters (some (next, reply a ∷ []))
      pending :
          (next : Storage) (names : List FullName)
          → find_key ◌==◌ session next.sessions_
            ≡ some (record { logical_plan = some node; sender = sender; count_answers = 1 })
          → Outcome node parameters
              (some (next, Sent.execute_plan session node parameters names ∷ []))

    -- A check holds and sends nothing, or fails and answers.
    data Checked : List Message × Bool → Type 0 where
      holds : Checked ([], true)
      fails : (a : Reply) → Checked (reply a ∷ [], false)

    check_database_-Checked :
        (s : Storage) (name : Bytes)
        → Checked (check_database_ Doc Plan Params Cursor s sender session name)
    check_database_-Checked s name = at_exists (is_exists_database_ Doc Plan Params Cursor s name)
      where
        at_exists :
            (b : Bool)
            → Checked (
                if not b
                then (reply (Answer.error ErrorCode.database_not_exists) ∷ [], false)
                else ([], true))
        at_exists true = Checked.holds
        at_exists false = Checked.fails (Answer.error ErrorCode.database_not_exists)

    check_collection_-Checked :
        (s : Storage) (name : FullName)
        → Checked (check_collection_ Doc Plan Params Cursor s sender session name)
    check_collection_-Checked s name =
        behind (check_database_ Doc Plan Params Cursor s sender session name.database)
          (check_database_-Checked s name.database)
          (is_exists_collection_ Doc Plan Params Cursor s name)
      where
        behind :
            (r : List Message × Bool)
            → Checked r
            → (b : Bool)
            → Checked (
                if r.1
                then (if not b
                    then (reply (Answer.error ErrorCode.collection_not_exists) ∷ [], false)
                    else ([], true))
                else (r.0, false))
        behind r Checked.holds true = Checked.holds
        behind r Checked.holds false = Checked.fails (Answer.error ErrorCode.collection_not_exists)
        behind r (Checked.fails a) b = Checked.fails a

    check_dependencies-Checked :
        (s : Storage) (names : List FullName)
        → Checked (check_dependencies Doc Plan Params Cursor s sender session names)
    unfolding check_dependencies
    check_dependencies-Checked s [] = Checked.holds
    check_dependencies-Checked s (name ∷ names) =
        behind (check_collection_ Doc Plan Params Cursor s sender session name)
          (check_collection_-Checked s name)
          (check_dependencies Doc Plan Params Cursor s sender session names)
          (check_dependencies-Checked s names)
      where
        behind :
            (r : List Message × Bool)
            → Checked r
            → (rest : List Message × Bool) → Checked rest
            → Checked (if r.1 then rest else (r.0, false))
        behind r Checked.holds rest h = h
        behind r (Checked.fails a) rest h = Checked.fails a

    module _ (s : Storage) (node : Node Doc Plan Params Cursor) (parameters : Params)
        (unknown : find_key ◌==◌ session s.sessions_ ≡ none) where
      -- behind a check that fails, its answer is all
      checked :
          (r : List Message × Bool)
          → Checked r
          → (then_ : Handled Doc Plan Params Cursor) → Outcome node parameters (some then_)
          → Outcome node parameters (some (if r.1 then then_ else (s, r.0)))
      checked r Checked.holds then_ h = h
      checked r (Checked.fails a) then_ h = Outcome.answered s a unknown

      either :
          (b : Bool) (x y : Handled Doc Plan Params Cursor)
          → Outcome node parameters (some x)
          → Outcome node parameters (some y)
          → Outcome node parameters (some (if b then x else y))
      either true x y h k = h
      either false x y h k = k

      create_database_-Outcome :
          Outcome node parameters
            (some (create_database_ Doc Plan Params Cursor s sender session node))
      unfolding create_database_
      create_database_-Outcome =
          either (is_exists_database_ Doc Plan Params Cursor s node.name.database) _ _
            (Outcome.answered s (Answer.error ErrorCode.database_already_exists) unknown)
            (Outcome.answered _ Answer.success unknown)

      drop_database_-Outcome :
          Outcome node parameters
            (some (drop_database_ Doc Plan Params Cursor s sender session node))
      unfolding drop_database_
      drop_database_-Outcome =
          checked (check_database_ Doc Plan Params Cursor s sender session node.name.database)
            (check_database_-Checked s node.name.database) _
            (Outcome.answered _ Answer.success unknown)

      create_collection_-Outcome :
          Outcome node parameters
            (some (create_collection_ Doc Plan Params Cursor s sender session node))
      unfolding create_collection_
      create_collection_-Outcome =
          checked (check_database_ Doc Plan Params Cursor s sender session node.name.database)
            (check_database_-Checked s node.name.database) _
            (either (is_exists_collection_ Doc Plan Params Cursor s node.name) _ _
              (Outcome.answered s (Answer.error ErrorCode.collection_already_exists) unknown)
              (Outcome.answered _ Answer.success unknown))

      execute_plan_impl-Outcome :
          Outcome node parameters
            (some (execute_plan_impl Doc Plan Params Cursor s sender session node parameters))
      unfolding execute_plan_impl
      execute_plan_impl-Outcome =
          checked
            (check_dependencies Doc Plan Params Cursor s sender session
              node.collection_dependencies)
            (check_dependencies-Checked s node.collection_dependencies) _
            (Outcome.pending _ node.collection_dependencies
              (find_key-emplace session s.sessions_ _ unknown))

      drop_found-Outcome :
          (c : Collection Doc Plan Params Cursor)
          → Outcome node parameters
              (some (drop_found Doc Plan Params Cursor s sender session node c))
      drop_found-Outcome c =
          Outcome.answered _
            (if MemoryStorage.drop Doc Plan Params Cursor c
              then Answer.success
              else Answer.error ErrorCode.other_error)
            (find_key-erase session (emplace ◌==◌ s.sessions_ session _))

      drop_collection_-Outcome :
          Outcome node parameters (drop_collection_ Doc Plan Params Cursor s sender session node)
      unfolding drop_collection_
      drop_collection_-Outcome =
          at_found (check_database_ Doc Plan Params Cursor s sender session node.name.database)
            (check_database_-Checked s node.name.database)
            (find_key name_eq node.name s.collections_)
        where
          collection_check :
              List Message × Bool → Option (Collection Doc Plan Params Cursor) → List Message × Bool
          collection_check r o =
              if r.1
              then (if not (elim o [ none ↦ false | some c ↦ true ])
                  then (reply (Answer.error ErrorCode.collection_not_exists) ∷ [], false)
                  else ([], true))
              else (r.0, false)

          at_found :
              (r : List Message × Bool)
              → Checked r
              → (o : Option (Collection Doc Plan Params Cursor))
              → Outcome node parameters (
                  if (collection_check r o).1
                  then (o >>= λ c. some (drop_found Doc Plan Params Cursor s sender session node c))
                  else some (s, (collection_check r o).0))
          at_found r Checked.holds none =
              Outcome.answered s (Answer.error ErrorCode.collection_not_exists) unknown
          at_found r Checked.holds (some c) = drop_found-Outcome c
          at_found r (Checked.fails a) o = Outcome.answered s a unknown

      by_type :
          (t : NodeType)
          → Outcome node parameters (elim t [
            | NodeType.create_database_t ↦
                some (create_database_ Doc Plan Params Cursor s sender session node)
            | NodeType.drop_database_t ↦
                some (drop_database_ Doc Plan Params Cursor s sender session node)
            | NodeType.create_collection_t ↦
                some (create_collection_ Doc Plan Params Cursor s sender session node)
            | NodeType.drop_collection_t ↦
                drop_collection_ Doc Plan Params Cursor s sender session node
            | NodeType.other_t ↦
                some (execute_plan_impl Doc Plan Params Cursor s sender session node parameters)
          ])
      by_type NodeType.create_database_t = create_database_-Outcome
      by_type NodeType.drop_database_t = drop_database_-Outcome
      by_type NodeType.create_collection_t = create_collection_-Outcome
      by_type NodeType.drop_collection_t = drop_collection_-Outcome
      by_type NodeType.other_t = execute_plan_impl-Outcome

      -- A plan of a session that is not waiting for an answer, whatever the plan is and whatever
      -- exists: the handler does not throw, and either answers at once, to the sender, and keeps no
      -- session, or sends the plan to the executor alone and remembers the sender.
      pub handle_plan-Outcome :
          Outcome node parameters
            (handle_plan Doc Plan Params Cursor s sender session node parameters)
      unfolding handle_plan
      handle_plan-Outcome = by_type node.type

    -- the answer of the executor to a plan that is pending
    abbrev pub then_finish :
        Handled Doc Plan Params Cursor → Reply → Option (Handled Doc Plan Params Cursor)
    then_finish h a = elim (find_key ◌==◌ session h.0.sessions_) [
      | none ↦ some h
      | some w ↦ handle_plan_finish Doc Plan Params Cursor h.0 session a >>= λ last.
          some (last.0, h.1 ++ last.1)
    ]

    -- the replies to plans among the messages
    abbrev pub is_reply : Message → Bool
    is_reply (Sent.execute_plan_finish to of a) = true
    is_reply _ = false

    -- A plan is answered: one reply is sent, to its sender and for its session, and the session is
    -- forgotten.
    pub record IsAnswered (run : Option (Handled Doc Plan Params Cursor)) : Type 0 where
      pub last : Storage
      pub sent : List Message
      pub answer : Reply
      pub ran : run ≡ some (last, sent)
      pub replies : filter is_reply sent ≡ reply answer ∷ []
      pub forgotten : find_key ◌==◌ session last.sessions_ ≡ none

    handle_plan_finish-of_some :
        (s : Storage) (w : Session Doc Plan Params Cursor) (a : Reply)
        → find_key ◌==◌ session s.sessions_ ≡ some w
        → handle_plan_finish Doc Plan Params Cursor s session a
          ≡ some (
            record s { sessions_ = erase_key ◌==◌ session s.sessions_ },
            Sent.execute_plan_finish w.sender session a ∷ [],
          )
    unfolding handle_plan_finish
    handle_plan_finish-of_some s w a h = rw h refl

    -- A plan of a session that is not waiting for an answer gets exactly one reply, to its sender:
    -- from the storage itself or, once the executor has answered, from there; then the session is
    -- forgotten.
    pub handle_plan-IsAnswered :
        (s : Storage) (node : Node Doc Plan Params Cursor) (parameters : Params) (a : Reply)
        → find_key ◌==◌ session s.sessions_ ≡ none
        → IsAnswered (
            handle_plan Doc Plan Params Cursor s sender session node parameters >>= λ h.
            then_finish h a)
    handle_plan-IsAnswered s node parameters a unknown =
        at_outcome (handle_plan Doc Plan Params Cursor s sender session node parameters)
          (handle_plan-Outcome s node parameters unknown)
      where
        at_outcome :
            (r : Option (Handled Doc Plan Params Cursor))
            → Outcome node parameters r
            → IsAnswered (r >>= λ h. then_finish h a)
        at_outcome r (Outcome.answered next b h) = record {
          last = next;
          sent = reply b ∷ [];
          answer = b;
          ran = rw (h, then_finish) refl;
          replies = refl;
          forgotten = h;
        }
        at_outcome r (Outcome.pending next names h) = record {
          last = record next { sessions_ = erase_key ◌==◌ session next.sessions_ };
          sent = Sent.execute_plan session node parameters names ∷ reply a ∷ [];
          answer = a;
          ran = rw (h, then_finish, handle_plan_finish-of_some next _ a h) refl;
          replies = refl;
          forgotten = find_key-erase session next.sessions_;
        }
