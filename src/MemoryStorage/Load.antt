-- ===== src/MemoryStorage/Load.antt =====
-- Loading: the sender hears that it is over once, when every collection has its documents.
use rocket_joe.Base.{
  ℕ, zero, suc, ◌<◌, ◌≡◌, ◌^◌, refl, sym, ap, ◌∙◌, Bool, true, false, none, some, List, [], ◌∷◌,
  ◌++◌, arith, ap₂, append-nil, append_assoc, ◌==◌, ◌||◌, if◌then◌else◌, filter,
}
use mathlib.Core.Path.{subst}
use rocket_joe.Base.Maps.{
  find_key, emplace, erase_key, update_key, find_key-emplace, find_key-erase, find_key-update,
}
use rocket_joe.MemoryStorage.Names.{exists-any, any-emplace}
use rocket_joe.MemoryStorage
use rocket_joe.MemoryStorage.{
  Session, Sent, Handled, LoadedDatabase, LoadedCollection, count_collections, load_collections,
  load_databases, load, load_session, load_collection, insert_database, decrement, finish_one,
  create_documents_finish, FullName, name_eq, full_name, is_exists_collection_,
}

decrement-suc : (n : ℕ) → suc n < 2 ^ 64 → decrement (suc n) ≡ n
decrement-suc n h = omega arith

suc_ne_zero : (n : ℕ) → (suc n == 0) ≡ false
suc_ne_zero n = ground arith

module _ (Doc Plan Params Cursor : Type 0) where
  abbrev Storage : Type 0
  Storage = MemoryStorage.MemoryStorage Doc Plan Params Cursor

  abbrev Message : Type 0
  Message = Sent Doc Plan Params Cursor

  -- `n` answers of the executor to `create_documents`
  unfoldable pub run_finishes : ℕ → ℕ → Storage → Handled Doc Plan Params Cursor
  run_finishes zero session s = (s, [])
  run_finishes (suc n) session s =
      let (next, sent) = create_documents_finish Doc Plan Params Cursor s session in
      let (last, more) = run_finishes n session next in (last, sent ++ more)

  abbrev pub is_load_finish : Message → Bool
  is_load_finish (Sent.load_finish to session) = true
  is_load_finish _ = false

  abbrev pub is_create_documents : Message → Bool
  is_create_documents (Sent.create_documents session name documents) = true
  is_create_documents _ = false

  create_documents_finish-of_some :
      (s : Storage) (session : ℕ) (w : Session Doc Plan Params Cursor)
      → find_key ◌==◌ session s.sessions_ ≡ some w
      → create_documents_finish Doc Plan Params Cursor s session
        ≡ finish_one Doc Plan Params Cursor s session w
  unfolding create_documents_finish
  create_documents_finish-of_some s session w h = rw (h, create_documents_finish) refl

  finish_one-last :
      (s : Storage) (session : ℕ) (w : Session Doc Plan Params Cursor)
      → w.count_answers ≡ 1
      → finish_one Doc Plan Params Cursor s session w ≡ (
        record s { sessions_ = erase_key ◌==◌ session s.sessions_; load_buffer_ = none },
        Sent.load_finish w.sender session ∷ [],
      )
  finish_one-last s session w h = rw (finish_one, h) refl

  abbrev counted : Session Doc Plan Params Cursor → ℕ → Session Doc Plan Params Cursor
  counted w n = record w { count_answers = n }

  finish_one-more :
      (s : Storage) (session n : ℕ) (w : Session Doc Plan Params Cursor)
      → w.count_answers ≡ suc (suc n)
      → suc (suc n) < 2 ^ 64
      → finish_one Doc Plan Params Cursor s session w
        ≡ (record s { sessions_ = update_key ◌==◌ s.sessions_ session (counted w (suc n)) }, [])
  finish_one-more s session n w h lt =
      rw (finish_one, ap decrement h ∙ decrement-suc (suc n) lt, suc_ne_zero n) refl

  -- the last of `n` answers, and no other, is followed by the message
  record Finishes (session sender : ℕ) (r : Handled Doc Plan Params Cursor) : Type 0 where
    sent : r.1 ≡ Sent.load_finish sender session ∷ []
    forgotten : find_key ◌==◌ session r.0.sessions_ ≡ none

  finishes :
      (n session : ℕ) (s : Storage) (w : Session Doc Plan Params Cursor)
      → find_key ◌==◌ session s.sessions_ ≡ some w
      → w.count_answers ≡ suc n
      → suc n < 2 ^ 64
      → Finishes session w.sender (run_finishes (suc n) session s)
  unfolding run_finishes
  finishes zero session s w h c lt =
      subst (λ r. Finishes session w.sender (r.0, r.1 ++ []))
        (sym (create_documents_finish-of_some s session w h ∙ finish_one-last s session w c))
        (record { sent = refl; forgotten = find_key-erase session s.sessions_ })
  finishes (suc n) session s w h c lt =
      let next : Storage = record s {
        sessions_ = update_key ◌==◌ s.sessions_ session (counted w (suc n));
      } in
      let rest =
        finishes n session next (counted w (suc n))
          (find_key-update session s.sessions_ w (counted w (suc n)) h) refl (omega (arith, lt)) in
      subst
        (λ r.
          Finishes session w.sender
            ((run_finishes (suc n) session r.0).0, r.1 ++ (run_finishes (suc n) session r.0).1))
        (sym (create_documents_finish-of_some s session w h ∙ finish_one-more s session n w c lt))
        (record { sent = rest.sent; forgotten = rest.forgotten })

  -- the collections of the databases with their documents, in order
  abbrev named_in :
      LoadedDatabase Doc Plan Params Cursor
      → List (LoadedCollection Doc Plan Params Cursor)
      → List (FullName × List Doc)
  named_in d [] = []
  named_in d (c ∷ cs) =
      (record { database = d.name; collection = c.name }, c.documents) ∷ named_in d cs

  abbrev pub named : List (LoadedDatabase Doc Plan Params Cursor) → List (FullName × List Doc)
  named [] = []
  named (d ∷ ds) = named_in d d.collections ++ named ds

  -- The requests of a loading, where `known` are the names of the collections that exist: each asks to
  -- create the documents in the new collection, or, where there is one of the name, in none.
  abbrev pub requested : ℕ → (FullName → Bool) → List (FullName × List Doc) → List Message
  requested session known [] = []
  requested session known ((n, docs) ∷ rest) =
      Sent.create_documents session (if known n then none else some n) docs
      ∷ requested session (λ m. name_eq n m || known m) rest

  abbrev after : (FullName → Bool) → List (FullName × List Doc) → FullName → Bool
  after known [] = known
  after known ((n, docs) ∷ rest) = after (λ m. name_eq n m || known m) rest

  after-append :
      (known : FullName → Bool) (xs ys : List (FullName × List Doc))
      → after known (xs ++ ys) ≡ after (after known xs) ys
  after-append known [] ys = refl
  after-append known ((n, docs) ∷ xs) ys = after-append (λ m. name_eq n m || known m) xs ys

  abbrev exists_in : Storage → FullName → Bool
  exists_in s = is_exists_collection_ Doc Plan Params Cursor s

  -- the loops send no `load_finish`, make the requests of `xs`, and keep the sessions
  record Loads (session : ℕ) (known : FullName → Bool) (xs : List (FullName × List Doc))
      (s : Storage) (r : Handled Doc Plan Params Cursor) : Type 0 where
    quiet : filter is_load_finish r.1 ≡ []
    requests :
        (rest : List (FullName × List Doc))
        → filter is_create_documents r.1 ++ requested session (after known xs) rest
          ≡ requested session known (xs ++ rest)
    kept : r.0.sessions_ ≡ s.sessions_
    exist : (m : FullName) → exists_in r.0 m ≡ after known xs m

  exists-load_collection :
      (d : LoadedDatabase Doc Plan Params Cursor) (c : LoadedCollection Doc Plan Params Cursor)
      (s : Storage) (m : FullName)
      → exists_in (load_collection Doc Plan Params Cursor d c s) m
        ≡ (name_eq (full_name Doc Plan Params Cursor d c) m || exists_in s m)
  exists-load_collection d c s m =
      let k = full_name Doc Plan Params Cursor d c in
      exists-any m (emplace name_eq s.collections_ k (record { dropped_ = false; storage = [] }))
      ∙ any-emplace s.collections_ k m (record { dropped_ = false; storage = [] })
      ∙ ap (λ b. name_eq k m || b) (sym (exists-any m s.collections_))

  load_collections-Loads :
      (session : ℕ) (d : LoadedDatabase Doc Plan Params Cursor)
      (cs : List (LoadedCollection Doc Plan Params Cursor)) (known : FullName → Bool) (s : Storage)
      → ((m : FullName) → exists_in s m ≡ known m)
      → Loads session known
          (named_in d cs)
          s
          (load_collections Doc Plan Params Cursor session d cs s)
  unfolding load_collections
  load_collections-Loads session d [] known s h = record {
    quiet = refl;
    requests = λ rest. refl;
    kept = refl;
    exist = h;
  }
  load_collections-Loads session d (c ∷ cs) known s h =
      let k = full_name Doc Plan Params Cursor d c in
      let rest =
        load_collections-Loads session d cs (λ m. name_eq k m || known m)
          (load_collection Doc Plan Params Cursor d c s)
          (λ m. exists-load_collection d c s m ∙ ap (λ b. name_eq k m || b) (h m)) in
      record {
        quiet = rest.quiet;
        requests = λ more.
            ap₂ (λ b r. Sent.create_documents session (if b then none else some k) c.documents ∷ r)
              (h k) (rest.requests more);
        kept = rest.kept;
        exist = rest.exist;
      }

  filter-append :
      (p : Message → Bool) (xs ys : List Message) → filter p (xs ++ ys) ≡ filter p xs ++ filter p ys
  filter-append p [] ys = refl
  filter-append p (x ∷ xs) ys = ground (arith, filter-append p xs ys)

  load_databases-Loads :
      (session : ℕ) (ds : List (LoadedDatabase Doc Plan Params Cursor)) (known : FullName → Bool)
      (s : Storage)
      → ((m : FullName) → exists_in s m ≡ known m)
      → Loads session known (named ds) s (load_databases Doc Plan Params Cursor session ds s)
  unfolding load_databases
  load_databases-Loads session [] known s h = record {
    quiet = refl;
    requests = λ rest. refl;
    kept = refl;
    exist = h;
  }
  load_databases-Loads session (d ∷ ds) known s h =
      let opened : Storage = record s {
        databases_ = insert_database Doc Plan Params Cursor s.databases_ d.name;
      } in
      let a = named_in d d.collections in
      let first = load_collections-Loads session d d.collections known opened h in
      let one = load_collections Doc Plan Params Cursor session d d.collections opened in
      let rest = load_databases-Loads session ds (after known a) one.0 first.exist in
      let more = load_databases Doc Plan Params Cursor session ds one.0 in
      record {
        quiet = filter-append is_load_finish one.1 more.1 ∙ ap₂ ◌++◌ first.quiet rest.quiet;
        requests = λ xs.
            ap₂ (λ ms f. ms ++ requested session f xs)
              (filter-append is_create_documents one.1 more.1) (after-append known a (named ds))
            ∙ append_assoc (filter is_create_documents one.1) (filter is_create_documents more.1)
                (requested session (after (after known a) (named ds)) xs)
            ∙ ap (λ r. filter is_create_documents one.1 ++ r) (rest.requests xs)
            ∙ first.requests (named ds ++ xs)
            ∙ ap (requested session known) (sym (append_assoc a (named ds) xs));
        kept = rest.kept ∙ first.kept;
        exist = λ m. rest.exist m ∙ ap (λ f. f m) (sym (after-append known a (named ds)));
      }

  -- the requests of the whole loading
  all_requested :
      (session : ℕ) (known : FullName → Bool) (xs : List (FullName × List Doc)) (s : Storage)
      (r : Handled Doc Plan Params Cursor)
      → Loads session known xs s r
      → filter is_create_documents r.1 ≡ requested session known xs
  all_requested session known xs s r h =
      sym (append-nil (filter is_create_documents r.1))
      ∙ h.requests []
      ∙ ap (requested session known) (append-nil xs)

  -- A loading that makes the requests of `xs`, and what `count` answers of the executor make of it.
  pub record IsLoaded (sender session count : ℕ) (known : FullName → Bool)
      (xs : List (FullName × List Doc)) (h : Handled Doc Plan Params Cursor) : Type 0 where
    pub requests : filter is_create_documents h.1 ≡ requested session known xs
    pub finished :
        filter is_load_finish (h.1 ++ (run_finishes count session h.0).1)
        ≡ Sent.load_finish sender session ∷ []
    pub forgotten : find_key ◌==◌ session (run_finishes count session h.0).0.sessions_ ≡ none

  module _ (s : Storage) (sender session : ℕ)
      (result : List (LoadedDatabase Doc Plan Params Cursor))
      (unknown : find_key ◌==◌ session s.sessions_ ≡ none) where
    abbrev begun : ℕ → Storage
    begun n = record s {
      sessions_ = load_session Doc Plan Params Cursor sender session n s.sessions_;
      load_buffer_ = some [];
    }

    abbrev loaded : ℕ → Handled Doc Plan Params Cursor
    loaded n = load_databases Doc Plan Params Cursor session result (begun n)

    find_key-begun :
        (n : ℕ)
        → find_key ◌==◌ session (begun (suc n)).sessions_
          ≡ some (record { logical_plan = none; sender = sender; count_answers = suc n })
    find_key-begun n = rw (suc_ne_zero n) (find_key-emplace session s.sessions_ _ unknown)

    at_count :
        (n : ℕ)
        → count_collections Doc Plan Params Cursor result ≡ n
        → n < 2 ^ 64
        → IsLoaded sender session n (exists_in s) (named result) (
            if n == 0
            then (
              record (loaded n).0 { load_buffer_ = none },
              (loaded n).1 ++ (Sent.load_finish sender session ∷ []),
            )
            else loaded n)
    unfolding run_finishes
    at_count zero c lt =
        let loads = load_databases-Loads session result (exists_in s) (begun 0) (λ m. refl) in
        record {
          requests =
              filter-append is_create_documents (loaded 0).1 (Sent.load_finish sender session ∷ [])
              ∙ append-nil (filter is_create_documents (loaded 0).1)
              ∙ all_requested session (exists_in s) (named result) (begun 0) (loaded 0) loads;
          finished =
              ap (filter is_load_finish)
                (append-nil ((loaded 0).1 ++ (Sent.load_finish sender session ∷ [])))
              ∙ filter-append is_load_finish (loaded 0).1 (Sent.load_finish sender session ∷ [])
              ∙ ap (λ r. r ++ (Sent.load_finish sender session ∷ [])) loads.quiet;
          forgotten = ap (find_key ◌==◌ session) loads.kept ∙ unknown;
        }
    at_count (suc n) c lt =
        let loads = load_databases-Loads session result (exists_in s) (begun (suc n)) (λ m. refl) in
        let all =
          finishes n session (loaded (suc n)).0
            (record { logical_plan = none; sender = sender; count_answers = suc n })
            (ap (find_key ◌==◌ session) loads.kept ∙ find_key-begun n) refl lt in
        subst
          (λ b. IsLoaded sender session (suc n) (exists_in s) (named result) (
            if b
            then (
              record (loaded (suc n)).0 { load_buffer_ = none },
              (loaded (suc n)).1 ++ (Sent.load_finish sender session ∷ []),
            )
            else loaded (suc n)))
          (sym (suc_ne_zero n))
          (record {
            requests =
                all_requested session (exists_in s) (named result) (begun (suc n)) (loaded (suc n))
                  loads;
            finished =
                filter-append is_load_finish (loaded (suc n)).1
                  (run_finishes (suc n) session (loaded (suc n)).0).1
                ∙ ap₂ ◌++◌ loads.quiet (ap (filter is_load_finish) all.sent);
            forgotten = all.forgotten;
          })

    -- Loading in a session that is not in use, of fewer than 2^64 collections: for
    -- each of them, in order, one `create_documents` with its documents goes to the executor, for the
    -- collection of its name, or for a context that is gone where the name exists already; and when the
    -- executor has answered as many as there are collections, exactly one `load_finish` has been sent,
    -- to the sender, and the session is forgotten.
    pub load-IsLoaded :
        count_collections Doc Plan Params Cursor result < 2 ^ 64
        → IsLoaded sender session
            (count_collections Doc Plan Params Cursor result)
            (is_exists_collection_ Doc Plan Params Cursor s)
            (named result)
            (load Doc Plan Params Cursor s sender session result)
    unfolding load
    load-IsLoaded lt = at_count (count_collections Doc Plan Params Cursor result) refl lt
