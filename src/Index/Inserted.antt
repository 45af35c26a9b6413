-- ===== src/Index/Inserted.antt =====
-- Inserting through the operator (operators/operator_insert.cpp) with the engine's indexes: the calls
-- that the operator lists, made on the engine.
use rocket_joe.Base.{
  ℕ, ◌≡◌, refl, sym, ap, ◌∙◌, Bool, true, false, Option, none, some, List, [], ◌∷◌, ◌++◌, arith,
  All, ◌==◌, ◌>>=◌,
}
use mathlib.Core.Option
use rocket_joe.Storage.{BtreeMap, lookup}
use rocket_joe.Base.Maps.{find_key}
use rocket_joe.Document.{Documents}
use rocket_joe.Operators.Merge.{has_id}
use rocket_joe.Operators.ById.{IsDistinct}
use rocket_joe.Operators.Write.{IndexCall, Written, insert_step, insert_loop, operator_insert}
use rocket_joe.Index.{Fields, Tree}
use rocket_joe.Index.Engine.{
  IndexEngine, insert_document, delete_document, insert_into, matching_keys, deref,
}
use rocket_joe.Index.Engine
use rocket_joe.Index.Owned.{find_key-insert_loop}
use rocket_joe.Index.Synced.{AllInSync, has_index, search_index}
use rocket_joe.Index.Kept.{HasField, insert_into-InSync, lookup-inserted}

module _ (D : Documents) (F : Fields D) (M : Tree D F) where
  open D use {Document, Key, get_document_id}

  search_index-insert_document :
      (has_context : Bool) (engine : IndexEngine D F M) (d : Document) (k : Key)
      → search_index D F M (insert_document D F M has_context engine d).0 k
        ≡ Option.map (λ index. insert_into D F M index d) (search_index D F M engine k)
  unfolding insert_document
  search_index-insert_document has_context engine d k =
      by_address (matching_keys D F M engine (k ∷ []))
    where
      by_address :
          (o : Option ℕ)
          → (o >>= λ p. find_key ◌==◌ p (Engine.insert_loop D F M engine.storage_ d))
            ≡ Option.map (λ index. insert_into D F M index d) (o >>= deref D F M engine)
      by_address none = refl
      by_address (some p) = find_key-insert_loop D F M p d engine.storage_

  module _ (S : BtreeMap Document) (suits : Key → D.Element → Bool) where
    -- a document with every field that an index is over
    abbrev pub HasFields : IndexEngine D F M → Document → Type 0
    HasFields engine d = (k : Key) → has_index D F M engine k ≡ true → HasField D F M S suits k d

    pub insert_document-AllInSync :
        (has_context : Bool) (engine : IndexEngine D F M) (storage : S.Map) (d : Document)
        → lookup (get_document_id d) (S.elements storage) ≡ none
        → HasFields engine d
        → AllInSync D F M S suits engine storage
        → AllInSync D F M S suits
            (insert_document D F M has_context engine d).0
            (S.insert_or_assign storage (get_document_id d) d)
    unfolding insert_document
    insert_document-AllInSync has_context engine storage d fresh fields sync k h =
        let (index, found, in_sync) = sync k h in
        (
          insert_into D F M index d,
          search_index-insert_document has_context engine d k
              ∙ ap (Option.map (λ i. insert_into D F M i d)) found,
          insert_into-InSync D F M S suits storage k index d fresh (fields k h) in_sync,
        )

    -- the calls of an operator on the engine, one after the other
    abbrev pub perform : Bool → IndexEngine D F M → IndexCall Document → Option (IndexEngine D F M)
    perform has_context engine (IndexCall.insert_document d) =
        some (insert_document D F M has_context engine d).0
    perform has_context engine (IndexCall.delete_document d) =
        Option.map (λ r. r.0) (delete_document D F M has_context engine d)

    unfoldable pub perform_all :
        Bool → IndexEngine D F M → List (IndexCall Document) → Option (IndexEngine D F M)
    perform_all has_context engine [] = some engine
    perform_all has_context engine (c ∷ cs) =
        perform has_context engine c >>= λ next. perform_all has_context next cs

    perform_all-append :
        (has_context : Bool) (engine : IndexEngine D F M) (cs : List (IndexCall Document))
        (c : IndexCall Document)
        → perform_all has_context engine (cs ++ (c ∷ []))
          ≡ (perform_all has_context engine cs >>= λ next. perform has_context next c)
    unfolding perform_all
    perform_all-append has_context engine [] c = bind_some (perform has_context engine c)
      where
        bind_some : (o : Option (IndexEngine D F M)) → (o >>= λ next. some next) ≡ o
        bind_some none = refl
        bind_some (some next) = refl
    perform_all-append has_context engine (b ∷ cs) c =
        behind (perform has_context engine b) λ next. perform_all-append has_context next cs c
      where
        behind :
            (o : Option (IndexEngine D F M))
            → ((next : IndexEngine D F M)
                → perform_all has_context next (cs ++ (c ∷ []))
                  ≡ (perform_all has_context next cs >>= λ last. perform has_context last c))
            → (o >>= λ next. perform_all has_context next (cs ++ (c ∷ []))) ≡ (
                (o >>= λ next. perform_all has_context next cs) >>= λ last.
                perform has_context last c)
        behind none ih = refl
        behind (some next) ih = ih next

    -- The calls so far, made on the engine, keep its indexes in step with the storage so far.
    pub record Performed (has_context : Bool) (engine : IndexEngine D F M)
        (w : Written S.Map Document) : Type 0 where
      pub current : IndexEngine D F M
      pub performed : perform_all has_context engine w.calls ≡ some current
      pub in_sync : AllInSync D F M S suits current w.storage
      pub same_keys : (k : Key) → has_index D F M current k ≡ has_index D F M engine k

    still_fresh :
        (storage : S.Map) (d : Document) (ds : List Document)
        → has_id get_document_id (get_document_id d) ds ≡ false
        → All (λ x. lookup (get_document_id x) (S.elements storage) ≡ none) ds
        → All
            (λ x.
              lookup
                (get_document_id x)
                (S.elements (S.insert_or_assign storage (get_document_id d) d))
              ≡ none)
            ds
    still_fresh storage d [] n h = tt
    still_fresh storage d (x ∷ ds) n h = (
      ground (arith, lookup-inserted D F M S suits storage d (get_document_id x), n, h.0),
      still_fresh storage d ds (ground (arith, n)) h.1,
    )

    module _ (has_context : Bool) (engine : IndexEngine D F M) where
      insert_step-Performed :
          (d : Document) (w : Written S.Map Document)
          → lookup (get_document_id d) (S.elements w.storage) ≡ none
          → HasFields engine d
          → Performed has_context engine w
          → Performed has_context engine (insert_step get_document_id S d w)
      unfolding insert_step insert_document
      insert_step-Performed d w fresh fields p = record {
        current = (insert_document D F M has_context p.current d).0;
        performed =
            perform_all-append has_context engine w.calls (IndexCall.insert_document d)
            ∙ ap (λ o. o >>= λ last. perform has_context last (IndexCall.insert_document d))
                p.performed;
        in_sync =
            insert_document-AllInSync has_context p.current w.storage d fresh
              (λ k h. fields k (sym (p.same_keys k) ∙ h)) p.in_sync;
        same_keys = p.same_keys;
      }

      insert_loop-Performed :
          (ds : List Document) (w : Written S.Map Document)
          → All (λ d. lookup (get_document_id d) (S.elements w.storage) ≡ none) ds
          → IsDistinct get_document_id ds
          → All (HasFields engine) ds
          → Performed has_context engine w
          → Performed has_context engine (insert_loop get_document_id S ds w)
      unfolding insert_loop insert_step
      insert_loop-Performed [] w fresh distinct fields p = p
      insert_loop-Performed (d ∷ ds) w fresh distinct fields p =
          insert_loop-Performed ds (insert_step get_document_id S d w)
            (still_fresh w.storage d ds distinct.0 fresh.1) distinct.1 fields.1
            (insert_step-Performed d w fresh.0 fields.0 p)

      -- Documents with new and different ids that have every field an index is over, whose values there
      -- compare with the values in question as the order of the indexes has it: where the indexes are
      -- in step with the storage for these values, the calls that inserting them makes succeed on the
      -- engine and leave its indexes, over the same fields, in step with the storage that inserting
      -- leaves.
      pub operator_insert-AllInSync :
          (ds : List Document) (storage : S.Map)
          → All (λ d. lookup (get_document_id d) (S.elements storage) ≡ none) ds
          → IsDistinct get_document_id ds
          → All (HasFields engine) ds
          → AllInSync D F M S suits engine storage
          → Performed has_context engine (operator_insert get_document_id S ds none storage)
      unfolding operator_insert perform_all
      operator_insert-AllInSync ds storage fresh distinct fields in_sync =
          insert_loop-Performed ds
            (record { storage = storage; calls = []; output_ = some []; modified_ = some [] }) fresh
            distinct fields
            (record {
              current = engine;
              performed = refl;
              in_sync = in_sync;
              same_keys = λ k. refl;
            })
