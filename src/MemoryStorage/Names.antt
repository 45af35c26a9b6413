-- ===== src/MemoryStorage/Names.antt =====
-- Which databases and collections exist behind a plan.
use rocket_joe.Base.{
  ℕ, ◌≡◌, refl, sym, ap, ap₂, ◌∙◌, Bool, true, false, not, ◌&&◌, ◌||◌, Option, none, some, List, [],
  ◌∷◌, arith, ◌==◌, Option-cases, Bool-cases, inl, inr, any, filter, any-append,
}
use rocket_joe.Base.Bytes.{Bytes, bytes_eq, eq_of_bytes_eq}
use rocket_joe.Base.Maps.{find_key, emplace, emplaced, erase_key}
use rocket_joe.MemoryStorage
use rocket_joe.MemoryStorage.{
  FullName, NodeType, check_collection_, check_dependencies, name_eq, Node, Collection,
  create_database_, drop_database_, create_collection_, drop_collection_, drop_found,
  execute_plan_impl, handle_plan, is_exists_collection_, is_exists_database_, Handled,
}

-- What a plan of a type does to the databases: whether `name` exists behind it, where it existed or
-- not before, and `asked` says whether it is the name of the plan.
abbrev pub database_behind : NodeType → Bool → Bool → Bool
database_behind NodeType.create_database_t asked before = asked || before
database_behind NodeType.drop_database_t asked before = not asked && before
database_behind _ asked before = before

-- The same for collections; `open` says whether the plan's database exists.
abbrev pub collection_behind : NodeType → Bool → Bool → Bool → Bool
collection_behind NodeType.create_collection_t open_ asked before = (open_ && asked) || before
collection_behind NodeType.drop_collection_t open_ asked before = not (open_ && asked) && before
collection_behind _ open_ asked before = before

module _ {A K : Type 0} (eq : K → K → Bool)
    (eq_cong : (a b : K) → eq a b ≡ true → (c : K) → eq a c ≡ eq b c)
    (eq_join : (a b c : K) → eq a c ≡ true → eq b c ≡ true → eq a b ≡ true) (f : A → K) where
  any-filter-not :
      (xs : List A) (n m : K)
      → any (λ x. eq (f x) m) (filter (λ x. not (eq (f x) n)) xs)
        ≡ (not (eq n m) && any (λ x. eq (f x) m) xs)
  any-filter-not [] n m = ground arith
  any-filter-not (x ∷ xs) n m = elim (Bool-cases (eq (f x) n)) [
    | inl e ↦ ground (arith, e, eq_cong (f x) n e m, any-filter-not xs n m)
    | inr e ↦ ground (arith, e, eq_join (f x) n m, any-filter-not xs n m)
  ]

bytes_eq_cong : (a b : Bytes) → bytes_eq a b ≡ true → (c : Bytes) → bytes_eq a c ≡ bytes_eq b c
bytes_eq_cong a b h c = ap (λ x. bytes_eq x c) (eq_of_bytes_eq a b h)

bytes_eq_join : (a b c : Bytes) → bytes_eq a c ≡ true → bytes_eq b c ≡ true → bytes_eq a b ≡ true
bytes_eq_join a b c h k = ap (λ x. bytes_eq a x) (eq_of_bytes_eq b c k) ∙ h

eq_of_name_eq : (a b : FullName) → name_eq a b ≡ true → a ≡ b
eq_of_name_eq a b h =
    ap₂ (λ d c. record { database = d; collection = c })
      (eq_of_bytes_eq a.database b.database (ground (arith, h)))
      (eq_of_bytes_eq a.collection b.collection (ground (arith, h)))

name_eq_cong : (a b : FullName) → name_eq a b ≡ true → (c : FullName) → name_eq a c ≡ name_eq b c
name_eq_cong a b h c = ap (λ x. name_eq x c) (eq_of_name_eq a b h)

name_eq_join : (a b c : FullName) → name_eq a c ≡ true → name_eq b c ≡ true → name_eq a b ≡ true
name_eq_join a b c h k = ap (λ x. name_eq a x) (eq_of_name_eq b c k) ∙ h

module _ {V : Type 0} where
  erase_key-filter :
      (k : FullName) (m : List (FullName × V))
      → erase_key name_eq k m ≡ filter (λ e. not (name_eq e.0 k)) m
  erase_key-filter k [] = refl
  erase_key-filter k (e ∷ m) = ground (arith, erase_key-filter k m)

  pub exists-any :
      (k : FullName) (m : List (FullName × V))
      → (elim (find_key name_eq k m) [ none ↦ false | some c ↦ true ]) ≡ any (λ e. name_eq e.0 k) m
  exists-any k [] = refl
  exists-any k (e ∷ m) = ground (arith, exists-any k m)

  pub any-emplace :
      (m : List (FullName × V)) (k n : FullName) (v : V)
      → any (λ e. name_eq e.0 n) (emplace name_eq m k v)
        ≡ (name_eq k n || any (λ e. name_eq e.0 n) m)
  any-emplace m k n v = placed (find_key name_eq k m) refl
    where
      placed :
          (o : Option V)
          → find_key name_eq k m ≡ o
          → any (λ e. name_eq e.0 n) (emplaced name_eq m k v o)
            ≡ (name_eq k n || any (λ e. name_eq e.0 n) m)
      placed none h = ground (arith, any-append (λ e. name_eq e.0 n) m ((k, v) ∷ []))
      placed (some w) h = elim (Bool-cases (name_eq k n)) [
        | inl same ↦
            let there : any (λ e. name_eq e.0 k) m ≡ true =
              sym (exists-any k m) ∙ ap (λ o. elim o [ none ↦ false | some c ↦ true ]) h in
            ground
              (arith, same, there, ap (λ x. any (λ e. name_eq e.0 x) m) (eq_of_name_eq k n same))
        | inr other ↦ ground (arith, other)
      ]

module _ (Doc Plan Params Cursor : Type 0) (s : MemoryStorage.MemoryStorage Doc Plan Params Cursor)
    (sender session : ℕ) (node : Node Doc Plan Params Cursor) (parameters : Params) where
  -- whether a name exists behind a handler that ends
  abbrev pub database_exists : Option (Handled Doc Plan Params Cursor) → Bytes → Option Bool
  database_exists none name = none
  database_exists (some h) name = some (is_exists_database_ Doc Plan Params Cursor h.0 name)

  abbrev pub collection_exists : Option (Handled Doc Plan Params Cursor) → FullName → Option Bool
  collection_exists none name = none
  collection_exists (some h) name = some (is_exists_collection_ Doc Plan Params Cursor h.0 name)

  create_database_-exists :
      (name : Bytes)
      → is_exists_database_ Doc Plan Params Cursor
          (create_database_ Doc Plan Params Cursor s sender session node).0
          name
        ≡ (bytes_eq node.name.database name || is_exists_database_ Doc Plan Params Cursor s name)
  unfolding create_database_
  create_database_-exists name =
      elim (Bool-cases (is_exists_database_ Doc Plan Params Cursor s node.name.database)) [
        | inl there ↦ elim (Bool-cases (bytes_eq node.name.database name)) [
          | inl same ↦ ground (
            arith,
            there,
            same,
            ap (λ x. any (λ d. bytes_eq d x) s.databases_)
                (eq_of_bytes_eq node.name.database name same),
          )
          | inr other ↦ ground (arith, there, other)
        ]
        | inr new ↦
            ground
              (arith, new, any-append (λ d. bytes_eq d name) s.databases_ (node.name.database ∷ []))
      ]

  drop_database_-exists :
      (name : Bytes)
      → is_exists_database_ Doc Plan Params Cursor
          (drop_database_ Doc Plan Params Cursor s sender session node).0
          name
        ≡ (not (bytes_eq node.name.database name)
            && is_exists_database_ Doc Plan Params Cursor s name)
  unfolding drop_database_
  drop_database_-exists name =
      elim (Bool-cases (is_exists_database_ Doc Plan Params Cursor s node.name.database)) [
        | inl there ↦ ground (
          arith,
          there,
          any-filter-not bytes_eq bytes_eq_cong bytes_eq_join (λ d. d) s.databases_
              node.name.database name,
        )
        | inr gone ↦ elim (Bool-cases (bytes_eq node.name.database name)) [
          | inl same ↦ ground (
            arith,
            gone,
            same,
            ap (λ x. any (λ d. bytes_eq d x) s.databases_)
                (eq_of_bytes_eq node.name.database name same),
          )
          | inr other ↦ ground (arith, gone, other)
        ]
      ]

  abbrev is_open : Bool
  is_open = is_exists_database_ Doc Plan Params Cursor s node.name.database

  abbrev there : FullName → Bool
  there name = any (λ e. name_eq e.0 name) s.collections_

  create_collection_-exists :
      (name : FullName)
      → any
          (λ e. name_eq e.0 name)
          (create_collection_ Doc Plan Params Cursor s sender session node).0.collections_
        ≡ ((is_open && name_eq node.name name) || there name)
  unfolding create_collection_
  create_collection_-exists name = elim (Bool-cases is_open) [
    | inr closed ↦ ground (arith, closed)
    | inl open_ ↦ elim (Bool-cases (there node.name)) [
      | inl known ↦ elim (Bool-cases (name_eq node.name name)) [
        | inl same ↦ ground (
          arith,
          open_,
          known,
          same,
          exists-any node.name s.collections_,
          ap there (eq_of_name_eq node.name name same),
        )
        | inr other ↦ ground (arith, open_, known, other, exists-any node.name s.collections_)
      ]
      | inr new ↦ ground (
        arith,
        open_,
        new,
        exists-any node.name s.collections_,
        any-emplace s.collections_ node.name name (record { dropped_ = false; storage = [] }),
      )
    ]
  ]

  drop_found-exists :
      (c : Collection Doc Plan Params Cursor) (name : FullName)
      → any
          (λ e. name_eq e.0 name)
          (drop_found Doc Plan Params Cursor s sender session node c).0.collections_
        ≡ (not (name_eq node.name name) && there name)
  drop_found-exists c name =
      ap (any (λ e. name_eq e.0 name)) (erase_key-filter node.name s.collections_)
      ∙ any-filter-not name_eq name_eq_cong name_eq_join (λ e. e.0) s.collections_ node.name name

  -- A handler ends, and behind it the databases and the collections are as a plan of type `t` has
  -- it.
  pub record Behind (t : NodeType) (r : Option (Handled Doc Plan Params Cursor)) : Type 0 where
    pub behind : Handled Doc Plan Params Cursor
    pub ended : r ≡ some behind
    pub databases :
        (name : Bytes)
        → is_exists_database_ Doc Plan Params Cursor behind.0 name
          ≡ database_behind t
              (bytes_eq node.name.database name)
              (is_exists_database_ Doc Plan Params Cursor s name)
    pub collections :
        (name : FullName)
        → is_exists_collection_ Doc Plan Params Cursor behind.0 name
          ≡ collection_behind t is_open
              (name_eq node.name name)
              (is_exists_collection_ Doc Plan Params Cursor s name)

  -- the collections of a state, counted in the other way
  recount :
      (next : MemoryStorage.MemoryStorage Doc Plan Params Cursor) (t : NodeType)
      → ((name : FullName)
          → any (λ e. name_eq e.0 name) next.collections_
            ≡ collection_behind t is_open (name_eq node.name name) (there name))
      → (name : FullName)
      → is_exists_collection_ Doc Plan Params Cursor next name
        ≡ collection_behind t is_open
            (name_eq node.name name)
            (is_exists_collection_ Doc Plan Params Cursor s name)
  recount next t h name =
      exists-any name next.collections_
      ∙ h name
      ∙ ap (collection_behind t is_open (name_eq node.name name))
          (sym (exists-any name s.collections_))

  Behind-create_database :
      Behind NodeType.create_database_t
        (some (create_database_ Doc Plan Params Cursor s sender session node))
  unfolding create_database_
  Behind-create_database = record {
    behind = create_database_ Doc Plan Params Cursor s sender session node;
    ended = refl;
    databases = create_database_-exists;
    collections = λ name. elim (Bool-cases is_open) [ inl e ↦ rw e refl | inr e ↦ rw e refl ];
  }

  Behind-drop_database :
      Behind NodeType.drop_database_t
        (some (drop_database_ Doc Plan Params Cursor s sender session node))
  unfolding drop_database_
  Behind-drop_database = record {
    behind = drop_database_ Doc Plan Params Cursor s sender session node;
    ended = refl;
    databases = drop_database_-exists;
    collections = λ name. elim (Bool-cases is_open) [ inl e ↦ rw e refl | inr e ↦ rw e refl ];
  }

  Behind-create_collection :
      Behind NodeType.create_collection_t
        (some (create_collection_ Doc Plan Params Cursor s sender session node))
  unfolding create_collection_
  Behind-create_collection = record {
    behind = create_collection_ Doc Plan Params Cursor s sender session node;
    ended = refl;
    databases = λ name. ground (
      arith,
      Bool-cases is_open,
      Bool-cases (is_exists_collection_ Doc Plan Params Cursor s node.name),
    );
    collections =
        recount (create_collection_ Doc Plan Params Cursor s sender session node).0
          NodeType.create_collection_t create_collection_-exists;
  }

  Behind-drop_collection :
      Behind NodeType.drop_collection_t
        (drop_collection_ Doc Plan Params Cursor s sender session node)
  unfolding drop_collection_
  Behind-drop_collection = elim (Bool-cases is_open) [
    | inr closed ↦ record {
      behind = (s, (check_collection_ Doc Plan Params Cursor s sender session node.name).0);
      ended = rw closed refl;
      databases = λ name. refl;
      collections = λ name. ground (arith, closed);
    }
    | inl open_ ↦ elim (Option-cases (find_key name_eq node.name s.collections_)) [
      | inl none_ ↦ record {
        behind = (s, (check_collection_ Doc Plan Params Cursor s sender session node.name).0);
        ended = rw (open_, is_exists_collection_, none_) refl;
        databases = λ name. refl;
        collections = recount s NodeType.drop_collection_t (λ name. absent name none_);
      }
      | inr c ↦ record {
        behind = drop_found Doc Plan Params Cursor s sender session node c.0;
        ended = rw (open_, is_exists_collection_, c.1) refl;
        databases = λ name. refl;
        collections =
            recount (drop_found Doc Plan Params Cursor s sender session node c.0).0
              NodeType.drop_collection_t
              (λ name. ground (arith, open_, drop_found-exists c.0 name));
      }
    ]
  ]
    where
      absent :
          (name : FullName)
          → find_key name_eq node.name s.collections_ ≡ none
          → there name ≡ (not (is_open && name_eq node.name name) && there name)
      absent name h = elim (Bool-cases (name_eq node.name name)) [
        | inl same ↦ ground (
          arith,
          same,
          sym (exists-any node.name s.collections_)
              ∙ ap (λ o. elim o [ none ↦ false | some c ↦ true ]) h,
          ap there (eq_of_name_eq node.name name same),
        )
        | inr other ↦ ground (arith, other)
      ]

  Behind-execute_plan_impl :
      Behind NodeType.other_t
        (some (execute_plan_impl Doc Plan Params Cursor s sender session node parameters))
  unfolding execute_plan_impl
  Behind-execute_plan_impl = record {
    behind = execute_plan_impl Doc Plan Params Cursor s sender session node parameters;
    ended = refl;
    databases = λ name. same (λ next. is_exists_database_ Doc Plan Params Cursor next name) refl;
    collections =
        λ name. same (λ next. is_exists_collection_ Doc Plan Params Cursor next name) refl;
  }
    where
      same :
          (view : MemoryStorage.MemoryStorage Doc Plan Params Cursor → Bool)
          → view (record s {
            sessions_ =
                emplace ◌==◌ s.sessions_ session
                  (record { logical_plan = some node; sender = sender; count_answers = 1 });
          })
            ≡ view s
          → view (execute_plan_impl Doc Plan Params Cursor s sender session node parameters).0
            ≡ view s
      same view h =
          elim (Bool-cases
            (check_dependencies Doc Plan Params Cursor s sender session
              node.collection_dependencies).1) [ inl e ↦ rw e h | inr e ↦ rw e refl ]

  -- A plan is handled without a throw, and behind it the databases and collections are those before,
  -- with the one that it creates, where its database exists, and without the one that it drops. A
  -- database that is dropped leaves its collections.
  pub handle_plan-Behind :
      Behind node.type (handle_plan Doc Plan Params Cursor s sender session node parameters)
  unfolding handle_plan
  handle_plan-Behind = by_type node.type
    where
      by_type :
          (t : NodeType)
          → Behind t (elim t [
            | NodeType.create_database_t ↦
                some (create_database_ Doc Plan Params Cursor s sender session node)
            | NodeType.drop_database_t ↦
                some (drop_database_ Doc Plan Params Cursor s sender session node)
            | NodeType.create_collection_t ↦
                some (create_collection_ Doc Plan Params Cursor s sender session node)
            | NodeType.drop_collection_t ↦
                drop_collection_ Doc Plan Params Cursor s sender session node
            | NodeType.other_t ↦
                some (execute_plan_impl Doc Plan Params Cursor s sender session node parameters)
          ])
      by_type NodeType.create_database_t = Behind-create_database
      by_type NodeType.drop_database_t = Behind-drop_database
      by_type NodeType.create_collection_t = Behind-create_collection
      by_type NodeType.drop_collection_t = Behind-drop_collection
      by_type NodeType.other_t = Behind-execute_plan_impl
