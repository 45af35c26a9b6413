-- ===== src/Index/Engine.antt =====
-- components/index/index_engine.cpp: the indexes of a collection. The engine owns them in `storage_`,
-- and its maps give pointers: an index is found by its address there.
use rocket_joe.Base.{
  ℕ, Bool, true, false, ◌&&◌, Option, none, some, List, [], ◌∷◌, ◌++◌, ◌==◌, if◌then◌else◌, map,
  length, ◌>>=◌,
}
use rocket_joe.Base.Maps.{find_key, emplace, erase_key}
use rocket_joe.Base.Bytes.{Bytes, bytes_eq}
use rocket_joe.Document.{Documents, Value, is_some}
use rocket_joe.Index.{Fields, Tree, Index, insert_key_document, remove_impl, is_disk}

-- equality of vectors
abbrev pub vector_eq : {K : Type 0} → (K → K → Bool) → List K → List K → Bool
vector_eq eq [] [] = true
vector_eq eq (j ∷ js) (k ∷ ks) = eq j k && vector_eq eq js ks
vector_eq eq _ _ = false

-- what is sent to the agent of an index
pub data Send (Value : Type 0) : Type 0 where
  insert remove : ℕ → Value → ℕ → Send Value

module _ (D : Documents) (F : Fields D) (M : Tree D F) where
  open D use {Document, Key, get_document_id, find_node_const}
  open F use {get_value, key_eq}

  pub record IndexEngine : Type 0 where
    pub mapper_ : List (List Key × ℕ)
    pub index_to_mapper_ : List (ℕ × ℕ)
    pub index_to_address_ : List (ℕ × ℕ)
    pub index_to_name_ : List (Bytes × ℕ)
    pub storage_ : List (ℕ × Index D F M)

  abbrev pub make_index_engine : IndexEngine
  make_index_engine = record {
    mapper_ = [];
    index_to_mapper_ = [];
    index_to_address_ = [];
    index_to_name_ = [];
    storage_ = [];
  }

  -- the index at an address; `none` where it is gone
  abbrev pub deref : IndexEngine → ℕ → Option (Index D F M)
  deref engine p = find_key ◌==◌ p engine.storage_

  -- `matching`, by what the index is found
  abbrev pub matching_id : IndexEngine → ℕ → Option ℕ
  matching_id engine id = find_key ◌==◌ id engine.index_to_mapper_

  abbrev pub matching_keys : IndexEngine → List Key → Option ℕ
  matching_keys engine query = find_key (vector_eq key_eq) query engine.mapper_

  abbrev pub matching_address : IndexEngine → ℕ → Option ℕ
  matching_address engine address = find_key ◌==◌ address engine.index_to_address_

  abbrev pub matching_name : IndexEngine → Bytes → Option ℕ
  matching_name engine name = find_key bytes_eq name engine.index_to_name_

  abbrev pub has_index : IndexEngine → Bytes → Bool
  has_index engine name = is_some (matching_name engine name)

  abbrev pub size : IndexEngine → ℕ
  size engine = length engine.mapper_

  -- `address` is where the allocator puts the new index. The result has the new id.
  unfoldable pub add_index : IndexEngine → List Key → ℕ → Index D F M → IndexEngine × ℕ
  add_index engine keys address index =
      let new_id = length engine.index_to_mapper_ in
      (
        record {
          mapper_ = emplace (vector_eq key_eq) engine.mapper_ keys address;
          index_to_mapper_ = emplace ◌==◌ engine.index_to_mapper_ new_id address;
          index_to_address_ = engine.index_to_address_;
          index_to_name_ = emplace bytes_eq engine.index_to_name_ index.name address;
          storage_ = engine.storage_ ++ ((address, index) ∷ []);
        },
        new_id,
      )

  -- `none` where the address is of no index
  unfoldable pub drop_index : IndexEngine → ℕ → Option IndexEngine
  drop_index engine p = deref engine p >>= λ index. some (record {
    mapper_ = erase_key (vector_eq key_eq) index.keys engine.mapper_;
    index_to_mapper_ = engine.index_to_mapper_;
    index_to_address_ =
        (if is_disk D F M index
          then erase_key ◌==◌ index.disk_agent engine.index_to_address_
          else engine.index_to_address_);
    index_to_name_ = erase_key bytes_eq index.name engine.index_to_name_;
    storage_ = erase_key ◌==◌ p engine.storage_;
  })

  abbrev pub indexes : IndexEngine → List Bytes
  indexes engine = map (λ e. e.1.name) engine.storage_

  -- every key of the index is in the document
  abbrev pub is_match_keys : List Key → Document → Bool
  is_match_keys [] document = true
  is_match_keys (key ∷ keys) document =
      is_some (find_node_const document key) && is_match_keys keys document

  abbrev pub is_match_document : Index D F M → Document → Bool
  is_match_document index document = is_match_keys index.keys document

  abbrev pub get_value_by_keys : List Key → Document → Value D
  get_value_by_keys [] document = none
  get_value_by_keys (key ∷ keys) document = get_value document key

  abbrev pub get_value_by_index : Index D F M → Document → Value D
  get_value_by_index index document = get_value_by_keys index.keys document

  -- `pipeline_context` is null or not
  abbrev pub send_insert : Bool → Index D F M → Document → List (Send (Value D))
  send_insert has_context index document =
      if is_disk D F M index && has_context
      then insert index.disk_agent (get_value_by_index index document) (get_document_id document)
        ∷ []
      else []

  abbrev pub send_remove : Bool → Index D F M → Document → List (Send (Value D))
  send_remove has_context index document =
      if is_disk D F M index && has_context
      then remove index.disk_agent (get_value_by_index index document) (get_document_id document)
        ∷ []
      else []

  -- one index of the loop of `insert_document`
  abbrev pub insert_into : Index D F M → Document → Index D F M
  insert_into index document =
      if is_match_document index document
      then insert_key_document D F M index (get_value_by_index index document) document
      else index

  unfoldable pub insert_loop : List (ℕ × Index D F M) → Document → List (ℕ × Index D F M)
  insert_loop [] document = []
  insert_loop ((p, index) ∷ rest) document =
      (p, insert_into index document) ∷ insert_loop rest document

  unfoldable pub insert_sends : Bool → List (ℕ × Index D F M) → Document → List (Send (Value D))
  insert_sends has_context [] document = []
  insert_sends has_context ((p, index) ∷ rest) document =
      (if is_match_document index document then send_insert has_context index document else [])
      ++ insert_sends has_context rest document

  unfoldable pub insert_document :
      Bool → IndexEngine → Document → IndexEngine × List (Send (Value D))
  unfolding insert_loop insert_sends
  insert_document has_context engine document = (
    record engine { storage_ = insert_loop engine.storage_ document },
    insert_sends has_context engine.storage_ document,
  )

  -- one index of the loop of `delete_document`: an entry with the document's value goes
  abbrev pub remove_from : Index D F M → Document → Option (Index D F M)
  remove_from index document =
      if is_match_document index document
      then remove_impl D F M index (get_value_by_index index document)
      else some index

  unfoldable pub delete_loop : List (ℕ × Index D F M) → Document → Option (List (ℕ × Index D F M))
  delete_loop [] document = some []
  delete_loop ((p, index) ∷ rest) document = remove_from index document >>= λ removed.
      delete_loop rest document >>= λ done. some ((p, removed) ∷ done)

  unfoldable pub delete_sends : Bool → List (ℕ × Index D F M) → Document → List (Send (Value D))
  delete_sends has_context [] document = []
  delete_sends has_context ((p, index) ∷ rest) document =
      (if is_match_document index document then send_remove has_context index document else [])
      ++ delete_sends has_context rest document

  unfoldable pub delete_document :
      Bool → IndexEngine → Document → Option (IndexEngine × List (Send (Value D)))
  unfolding delete_loop delete_sends
  delete_document has_context engine document = delete_loop engine.storage_ document >>= λ done.
      some (record engine { storage_ = done }, delete_sends has_context engine.storage_ document)
