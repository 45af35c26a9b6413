-- ===== src/Index/Kept.antt =====
-- Inserting documents keeps the indexes in step with the storage.
use rocket_joe.Base.{
  ℕ, ◌≡◌, refl, sym, ap, ◌∙◌, Bool, true, false, none, some, List, [], ◌∷◌, ◌++◌, arith, All, ◌==◌,
  if◌then◌else◌, take, drop, take-append-drop,
}
use mathlib.Core.List.{map-append}
use mathlib.Core.Path.{subst}
use rocket_joe.Storage.{BtreeMap, lookup}
use rocket_joe.Document.{Documents, Value, compare_value, is_some}
use rocket_joe.Operators.Merge.{has_id}
use rocket_joe.Operators.ById.{find_by_id, IsDistinct, has_id-eq-is_some}
use rocket_joe.Index.{Fields, Tree, Index, IndexValue, insert_key_document}
use rocket_joe.Index.Engine.{insert_into}
use rocket_joe.Index.Search.{doc_of, docs_of}
use rocket_joe.Index.Split.{compare_keys}
use rocket_joe.Index.Synced.{InSync}

module _ {Doc : Type 0} (id : Doc → ℕ) where
  -- one more document between two parts of a list
  find_by_id_inserted :
      (k : ℕ) (d : Doc) (xs ys : List Doc)
      → find_by_id id (id d) (xs ++ ys) ≡ none
      → find_by_id id k (xs ++ (d ∷ ys))
        ≡ (if id d == k then some d else find_by_id id k (xs ++ ys))
  find_by_id_inserted k d [] ys h = refl
  find_by_id_inserted k d (x ∷ xs) ys h = ground (arith, find_by_id_inserted k d xs ys)

  has_id_inserted :
      (k : ℕ) (d : Doc) (xs ys : List Doc)
      → has_id id k (xs ++ (d ∷ ys)) ≡ (if id d == k then true else has_id id k (xs ++ ys))
  has_id_inserted k d [] ys = ground arith
  has_id_inserted k d (x ∷ xs) ys = ground (arith, has_id_inserted k d xs ys)

  IsDistinct-inserted :
      (d : Doc) (xs ys : List Doc)
      → has_id id (id d) (xs ++ ys) ≡ false
      → IsDistinct id (xs ++ ys)
      → IsDistinct id (xs ++ (d ∷ ys))
  IsDistinct-inserted d [] ys n h = (n, h)
  IsDistinct-inserted d (x ∷ xs) ys n h = (
    ground (arith, has_id_inserted (id x) d xs ys, h.0),
    IsDistinct-inserted d xs ys (ground arith) h.1,
  )

All-inserted :
    {A : Type 0} (P : A → Type 0) (a : A) (xs ys : List A)
    → P a
    → All P (xs ++ ys)
    → All P (xs ++ (a ∷ ys))
All-inserted P a [] ys p h = (p, h)
All-inserted P a (x ∷ xs) ys p h = (h.0, All-inserted P a xs ys p h.1)

module _ (D : Documents) (F : Fields D) (M : Tree D F) (S : BtreeMap D.Document)
    (suits : D.Key → D.Element → Bool) where
  open D use {Document, Key, get_document_id, find_node_const}
  open F use {get_value}

  -- A document with the field, whose value there compares with the values in question as the order of
  -- the indexes has it.
  pub record HasField (k : Key) (d : Document) : Type 0 where
    pub exists : is_some (find_node_const d k) ≡ true
    pub agrees :
        (x : D.Element)
        → suits k x ≡ true
        → compare_value D d k (some x) ≡ compare_keys F.less (get_value d k) (some x)

  pub lookup-inserted :
      (storage : S.Map) (d : Document) (i : ℕ)
      → lookup i (S.elements (S.insert_or_assign storage (get_document_id d) d))
        ≡ (if get_document_id d == i then some d else lookup i (S.elements storage))
  lookup-inserted storage d i =
      sym (S.find-eq-lookup (S.insert_or_assign storage (get_document_id d) d) i)
      ∙ S.find-insert_or_assign storage (get_document_id d) d i
      ∙ ap (λ o. if get_document_id d == i then some d else o) (S.find-eq-lookup storage i)

  module _ (storage : S.Map) (k : Key) (index : Index D F M) (d : Document)
      (fresh : lookup (get_document_id d) (S.elements storage) ≡ none) (field : HasField k d)
      (sync : InSync D F M S suits storage k index) where
    abbrev entries : List (Value D × IndexValue Document)
    entries = M.elements index.storage_

    abbrev place : ℕ
    place = M.upper_bound index.storage_ (get_value d k)

    abbrev new_entry : Value D × IndexValue Document
    new_entry = (get_value d k, record { id = get_document_id d; doc = d })

    abbrev with_entry : Index D F M
    with_entry = insert_key_document D F M index (get_value d k) d

    insert_into-eq : insert_into D F M index d ≡ with_entry
    insert_into-eq = rw (sync.keys, field.exists) refl

    docs-split : docs_of entries ≡ docs_of (take place entries) ++ docs_of (drop place entries)
    docs-split =
        ap docs_of (sym (take-append-drop place entries))
        ∙ map-append doc_of (take place entries) (drop place entries)

    docs-inserted :
        docs_of (M.elements with_entry.storage_)
        ≡ docs_of (take place entries) ++ (d ∷ docs_of (drop place entries))
    docs-inserted =
        ap docs_of (M.elements-insert index.storage_ (get_value d k) new_entry.1)
        ∙ map-append doc_of (take place entries) (new_entry ∷ drop place entries)

    absent :
        find_by_id get_document_id
          (get_document_id d)
          (docs_of (take place entries) ++ docs_of (drop place entries))
        ≡ none
    absent =
        ap (find_by_id get_document_id (get_document_id d)) (sym docs-split)
        ∙ sync.by_id (get_document_id d)
        ∙ fresh

    pub insert_into-InSync :
        InSync D F M S suits
          (S.insert_or_assign storage (get_document_id d) d)
          k
          (insert_into D F M index d)
    insert_into-InSync =
        subst (InSync D F M S suits (S.insert_or_assign storage (get_document_id d) d) k)
          (sym insert_into-eq)
          (record {
            keys = sync.keys;
            in_memory = sync.in_memory;
            by_id = λ i.
                ap (find_by_id get_document_id i) docs-inserted
                ∙ find_by_id_inserted get_document_id i d (docs_of (take place entries))
                    (docs_of (drop place entries)) absent
                ∙ ap (λ o. if get_document_id d == i then some d else o)
                    (ap (find_by_id get_document_id i) (sym docs-split) ∙ sync.by_id i)
                ∙ sym (lookup-inserted storage d i);
            distinct = subst (IsDistinct get_document_id) (sym docs-inserted) (
                IsDistinct-inserted get_document_id d (docs_of (take place entries))
                  (docs_of (drop place entries))
                  (has_id-eq-is_some get_document_id (get_document_id d)
                      (docs_of (take place entries) ++ docs_of (drop place entries))
                    ∙ ap is_some absent)
                  (subst (IsDistinct get_document_id) docs-split sync.distinct));
            agrees = λ x asked.
                subst
                  (All (λ e. compare_value D e.1.doc k (some x) ≡ compare_keys F.less e.0 (some x)))
                  (sym (M.elements-insert index.storage_ (get_value d k) new_entry.1))
                  (All-inserted _ new_entry (take place entries) (drop place entries)
                    (field.agrees x asked)
                    (subst (All _) (sym (take-append-drop place entries)) (sync.agrees x asked)));
          })
