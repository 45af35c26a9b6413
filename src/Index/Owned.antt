-- ===== src/Index/Owned.antt =====
-- What the engine's searches find, whatever was added, dropped, inserted and deleted before.
use rocket_joe.Base.{
  ℕ, ◌≡◌, refl, sym, ap, ◌∙◌, Bool, true, false, Option, none, some, List, [], ◌∷◌, arith, All,
  All-map, ◌==◌, if◌then◌else◌, inl, inr, Bool-cases, ◌>>=◌,
}
use mathlib.Core.Path.{subst}
use mathlib.Core.Option
use mathlib.Core.Option.{some-injective}
use rocket_joe.Base.Bytes.{Bytes, bytes_eq}
use rocket_joe.Base.Maps.{find_key}
use rocket_joe.Document.{Documents, Value}
use rocket_joe.Index.{Fields, Tree, Index, insert_key_document, erase_found}
use rocket_joe.Index.Engine.{
  IndexEngine, vector_eq, add_index, drop_index, insert_into, insert_document, remove_from,
  delete_loop, is_match_document, get_value_by_index, Send, delete_document, make_index_engine,
  deref, matching_name, matching_keys,
}
use rocket_joe.Index.Engine
use rocket_joe.Index.Live.{Points, IsLive, keys_of, name_of, add_index-IsLive, drop_index-IsLive}

module _ (D : Documents) (F : Fields D) (M : Tree D F) where
  open D use {Document, Key}

  pub find_key-insert_loop :
      (p : ℕ) (d : Document) (es : List (ℕ × Index D F M))
      → find_key ◌==◌ p (Engine.insert_loop D F M es d)
        ≡ Option.map (λ index. insert_into D F M index d) (find_key ◌==◌ p es)
  unfolding Engine.insert_loop
  find_key-insert_loop p d [] = refl
  find_key-insert_loop p d ((q, index) ∷ es) = ground (arith, find_key-insert_loop p d es)

  -- both loops keep the name and the keys of every index
  module _ {K : Type 0} (field : Index D F M → K)
      (field_kept : (index : Index D F M) (m : M.Map)
        → field (record index { storage_ = m }) ≡ field index) where
    field-insert_into :
        (index : Index D F M) (d : Document) → field (insert_into D F M index d) ≡ field index
    field-insert_into index d = at_match (is_match_document D F M index d)
      where
        at_match :
            (b : Bool)
            → field (
                if b
                then insert_key_document D F M index (get_value_by_index D F M index d) d
                else index)
              ≡ field index
        at_match true = field_kept index _
        at_match false = refl

    field-remove_from :
        (index next : Index D F M) (d : Document)
        → remove_from D F M index d ≡ some next
        → field next ≡ field index
    field-remove_from index next d h =
        at_match (is_match_document D F M index d)
          (M.find index.storage_ (get_value_by_index D F M index d)) h
      where
        at_match :
            (b : Bool) (o : Option ℕ)
            → (if b then erase_found D F M index o else some index) ≡ some next
            → field next ≡ field index
        at_match true none g = ground (arith, g)
        at_match true (some i) g = ap field (sym (some-injective _ next g)) ∙ field_kept index _
        at_match false o g = ap field (sym (some-injective _ next g))

    insert_loop-Points :
        (heap : List (ℕ × Index D F M)) (d : Document) (e : K × ℕ)
        → Points field heap e
        → Points field (Engine.insert_loop D F M heap d) e
    insert_loop-Points heap d e h = record {
      index = insert_into D F M h.index d;
      found =
          find_key-insert_loop e.1 d heap
          ∙ ap (Option.map (λ index. insert_into D F M index d)) h.found;
      same = field-insert_into h.index d ∙ h.same;
    }

    -- a deletion that succeeds succeeds on the first index and on the others
    record Deleted (p : ℕ) (index : Index D F M) (rest next : List (ℕ × Index D F M)) (d : Document)
        : Type 0 where
      removed : Index D F M
      done : List (ℕ × Index D F M)
      first : remove_from D F M index d ≡ some removed
      others : delete_loop D F M rest d ≡ some done
      all : next ≡ (p, removed) ∷ done

    Deleted-of_some :
        (p : ℕ) (index : Index D F M) (rest next : List (ℕ × Index D F M)) (d : Document)
        → delete_loop D F M ((p, index) ∷ rest) d ≡ some next
        → Deleted p index rest next d
    unfolding delete_loop
    Deleted-of_some p index rest next d g =
        at_results (remove_from D F M index d) (delete_loop D F M rest d) refl refl g
      where
        at_results :
            (o : Option (Index D F M)) (r : Option (List (ℕ × Index D F M)))
            → remove_from D F M index d ≡ o
            → delete_loop D F M rest d ≡ r
            → (o >>= λ removed. r >>= λ done. some ((p, removed) ∷ done)) ≡ some next
            → Deleted p index rest next d
        at_results none r e f g = ground (arith, g)
        at_results (some removed) none e f g = ground (arith, g)
        at_results (some removed) (some done) e f g = record {
          removed = removed;
          done = done;
          first = e;
          others = f;
          all = sym (some-injective _ next g);
        }

    delete_loop-Points :
        (heap next : List (ℕ × Index D F M)) (d : Document) (e : K × ℕ)
        → delete_loop D F M heap d ≡ some next
        → Points field heap e
        → Points field next e
    delete_loop-Points [] next d e g h = ground (arith, h.found)
    delete_loop-Points ((p, index) ∷ rest) next d e g h =
        let deleted = Deleted-of_some p index rest next d g in
        elim (Bool-cases (p == e.1)) [
          | inl here ↦
              let one : index ≡ h.index =
                some-injective index h.index (ground (arith, here, h.found)) in
              record {
                index = deleted.removed;
                found = rw deleted.all (ground (arith, here));
                same =
                    field-remove_from index deleted.removed d deleted.first ∙ ap field one ∙ h.same;
              }
          | inr there ↦
              let behind = delete_loop-Points rest deleted.done d e deleted.others (record {
                index = h.index;
                found = ground (arith, there, h.found);
                same = h.same;
              }) in
              record {
                index = behind.index;
                found = rw deleted.all (ground (arith, there, behind.found));
                same = behind.same;
              }
        ]

  insert_document-IsLive :
      (has_context : Bool) (engine : IndexEngine D F M) (d : Document)
      → IsLive D F M engine
      → IsLive D F M (insert_document D F M has_context engine d).0
  unfolding insert_document
  insert_document-IsLive has_context engine d live = record {
    mapper_ =
        All-map engine.mapper_
          (λ e h. insert_loop-Points (keys_of D F M) (λ i m. refl) engine.storage_ d e h)
          live.mapper_;
    index_to_name_ =
        All-map engine.index_to_name_
          (λ e h. insert_loop-Points (name_of D F M) (λ i m. refl) engine.storage_ d e h)
          live.index_to_name_;
  }

  delete_document-IsLive :
      (has_context : Bool) (engine : IndexEngine D F M) (d : Document)
      (r : IndexEngine D F M × List (Send (Value D)))
      → delete_document D F M has_context engine d ≡ some r
      → IsLive D F M engine
      → IsLive D F M r.0
  unfolding delete_document
  delete_document-IsLive has_context engine d r g live =
      at_result (delete_loop D F M engine.storage_ d) refl g
    where
      at_result :
          (o : Option (List (ℕ × Index D F M)))
          → delete_loop D F M engine.storage_ d ≡ o
          → (o >>= λ done. some (
            record engine { storage_ = done },
            Engine.delete_sends D F M has_context engine.storage_ d,
          ))
            ≡ some r
          → IsLive D F M r.0
      at_result none e h = ground (arith, h)
      at_result (some done) e h =
          subst (λ x. IsLive D F M x.0) (some-injective _ r h)
            (record {
              mapper_ =
                  All-map engine.mapper_
                    (λ e' p.
                      delete_loop-Points (keys_of D F M) (λ i m. refl) engine.storage_ done d e' e
                        p)
                    live.mapper_;
              index_to_name_ =
                  All-map engine.index_to_name_
                    (λ e' p.
                      delete_loop-Points (name_of D F M) (λ i m. refl) engine.storage_ done d e' e
                        p)
                    live.index_to_name_;
            })

  -- What happens to an engine: indexes are added, at an address that is free, and dropped, and
  -- documents are inserted and deleted.
  pub data Reached : IndexEngine D F M → Type 0 where
    made : Reached (make_index_engine D F M)
    added :
        {engine : IndexEngine D F M} (address : ℕ) (index : Index D F M)
        → deref D F M engine address ≡ none
        → Reached engine
        → Reached (add_index D F M engine index.keys address index).0
    dropped :
        {engine next : IndexEngine D F M} (p : ℕ)
        → drop_index D F M engine p ≡ some next
        → Reached engine
        → Reached next
    inserted :
        {engine : IndexEngine D F M} (has_context : Bool) (d : Document)
        → Reached engine
        → Reached (insert_document D F M has_context engine d).0
    deleted :
        {engine : IndexEngine D F M} (has_context : Bool) (d : Document)
        (r : IndexEngine D F M × List (Send (Value D)))
        → delete_document D F M has_context engine d ≡ some r
        → Reached engine
        → Reached r.0

  module _ (key_eq_refl : (k : Key) → F.key_eq k k ≡ true) where
    Reached-IsLive : {engine : IndexEngine D F M} → Reached engine → IsLive D F M engine
    Reached-IsLive Reached.made = record { mapper_ = tt; index_to_name_ = tt }
    Reached-IsLive (Reached.added {engine} address index fresh r) =
        add_index-IsLive D F M key_eq_refl engine address index fresh (Reached-IsLive r)
    Reached-IsLive (Reached.dropped {engine} {next} p h r) =
        drop_index-IsLive D F M key_eq_refl engine next p h (Reached-IsLive r)
    Reached-IsLive (Reached.inserted {engine} has_context d r) =
        insert_document-IsLive has_context engine d (Reached-IsLive r)
    Reached-IsLive (Reached.deleted {engine} has_context d x h r) =
        delete_document-IsLive has_context engine d x h (Reached-IsLive r)

    find_key-Points :
        {K : Type 0} (field : Index D F M → K) (eq : K → K → Bool) (heap : List (ℕ × Index D F M))
        (m : List (K × ℕ)) (k : K) (p : ℕ)
        → find_key eq k m ≡ some p
        → All (Points field heap) m
        → (index : Index D F M) × (find_key ◌==◌ p heap ≡ some index) × (eq (field index) k ≡ true)
    find_key-Points field eq heap [] k p h a = ground (arith, h)
    find_key-Points field eq heap (e ∷ m) k p h a = elim (Bool-cases (eq e.0 k)) [
      | inl same ↦
          let at : e.1 ≡ p = some-injective e.1 p (rw same at h) in
          (
            a.0.index,
            ap (λ q. find_key ◌==◌ q heap) (sym at) ∙ a.0.found,
            ap (λ j. eq j k) a.0.same ∙ same,
          )
      | inr other ↦ find_key-Points field eq heap m k p (rw other at h) a.1
    ]

    -- Whatever was added, dropped, inserted and deleted: what the engine finds by a name is an index
    -- that it owns, with this name.
    pub matching_name-owned :
        {engine : IndexEngine D F M} (name : Bytes) (p : ℕ)
        → Reached engine
        → matching_name D F M engine name ≡ some p
        → (index : Index D F M) × (deref D F M engine p ≡ some index)
          × (bytes_eq index.name name ≡ true)
    matching_name-owned {engine} name p r h =
        find_key-Points (name_of D F M) bytes_eq engine.storage_ engine.index_to_name_ name p h
          (Reached-IsLive r).index_to_name_

    -- Whatever was added, dropped, inserted and deleted: what the engine finds by keys is an index
    -- that it owns, over these keys.
    pub matching_keys-owned :
        {engine : IndexEngine D F M} (query : List Key) (p : ℕ)
        → Reached engine
        → matching_keys D F M engine query ≡ some p
        → (index : Index D F M) × (deref D F M engine p ≡ some index)
          × (vector_eq F.key_eq index.keys query ≡ true)
    matching_keys-owned {engine} query p r h =
        find_key-Points (keys_of D F M) (vector_eq F.key_eq) engine.storage_ engine.mapper_ query p
          h (Reached-IsLive r).mapper_
