-- ===== src/Operators/Stored.antt =====
-- What the storage holds after inserting and deleting.
use rocket_joe.Base.{
  ℕ, ◌≡◌, ◌<◌, refl, sym, ap, ◌∙◌, Option, none, some, List, [], ◌∷◌, ◌++◌, ◌==◌, if◌then◌else◌,
  arith, All, Option-cases, ◌⊎◌, inl, inr, map, append-nil, append_assoc,
}
use native.Mathlib.Decide.{ℕ_discrete}
use rocket_joe.Storage.{BtreeMap, lookup, IsAscending}
use rocket_joe.Operators.{Output, documents}
use rocket_joe.Operators.Merge.{has_id, output_of}
use rocket_joe.Operators.ById.{IsKeyed, or_else}
use rocket_joe.Operators.Write.{
  Written, has_documents, insert_step, insert_loop, push_to, operator_insert, delete_found,
  delete_loop, operator_delete,
}

module _ {Doc : Type 0} (id : Doc → ℕ) where
  -- The last document with an id, which is the one that stays.
  abbrev pub find_last : ℕ → List Doc → Option Doc
  find_last k [] = none
  find_last k (d ∷ ds) = or_else (find_last k ds) (if id d == k then some d else none)

  abbrev id_or : ℕ → Option Doc → ℕ
  id_or k none = k
  id_or k (some d) = id d

  module _ (S : BtreeMap Doc) where
    open S use {Map, find, elements}

    -- Every document is stored under its id.
    pub record IsKeyedMap (storage : Map) : Type 0 where
      pub id_of : (k : ℕ) (d : Doc) → find storage k ≡ some d → id d ≡ k

    find-insert_loop :
        (ds : List Doc) (w : Written Map Doc) (k : ℕ)
        → find (insert_loop id S ds w).storage k ≡ or_else (find_last k ds) (find w.storage k)
    unfolding insert_loop insert_step
    find-insert_loop [] w k = refl
    find-insert_loop (d ∷ ds) w k = ground (
      arith,
      find-insert_loop ds (insert_step id S d w) k,
      S.find-insert_or_assign w.storage (id d) d k,
    )

    insert_loop-outputs :
        (ds done : List Doc) (ids : List ℕ) (w : Written Map Doc)
        → w.output_ ≡ some done
        → w.modified_ ≡ some ids
        → ((insert_loop id S ds w).output_ ≡ some (done ++ ds))
          × ((insert_loop id S ds w).modified_ ≡ some (ids ++ map id ds))
    unfolding insert_loop insert_step
    insert_loop-outputs [] done ids w e f =
        (e ∙ ap some (sym (append-nil done)), f ∙ ap some (sym (append-nil ids)))
    insert_loop-outputs (d ∷ ds) done ids w e f =
        let rest =
          insert_loop-outputs ds (done ++ (d ∷ [])) (ids ++ (id d ∷ [])) (insert_step id S d w)
            (ap (λ o. push_to o d) e) (ap (λ o. push_to o (id d)) f) in
        (
          rest.0 ∙ ap some (append_assoc done (d ∷ []) ds),
          rest.1 ∙ ap some (append_assoc ids (id d ∷ []) (map id ds)),
        )

    -- Where the child found no document, inserting stores under each id the last document that has
    -- it, keeps the other documents, and reports the documents and their ids in order; else nothing
    -- changes and nothing is reported.
    pub operator_insert_lem :
        (ds : List Doc) (left : Option (Output Doc)) (storage : Map) (k : ℕ)
        → (find (operator_insert id S ds left storage).storage k ≡ (
            if has_documents left
            then find storage k
            else or_else (find_last k ds) (find storage k)))
          × ((operator_insert id S ds left storage).output_
              ≡ (if has_documents left then none else some ds))
          × ((operator_insert id S ds left storage).modified_
              ≡ (if has_documents left then none else some (map id ds)))
    unfolding operator_insert
    operator_insert_lem ds left storage k =
        let w : Written Map Doc = record {
          storage = storage;
          calls = [];
          output_ = some [];
          modified_ = some [];
        } in
        ground (arith, find-insert_loop ds w k, insert_loop-outputs ds [] [] w refl refl)

    find-delete_loop :
        (ds : List Doc) (w : Written Map Doc) (k : ℕ)
        → find (delete_loop id S ds w).storage k
          ≡ (if has_id id k ds then none else find w.storage k)
    unfolding delete_loop
    find-delete_loop [] w k = refl
    find-delete_loop (d ∷ ds) w k = elim (Option-cases (find w.storage (id d))) [
      | inl e ↦
          rw (e, delete_loop) (ground (arith, find-delete_loop ds w k, gone w.storage (id d) k e))
      | inr found ↦
          rw (found.1, delete_loop)
            (ground (
              arith,
              find-delete_loop ds (delete_found id S d w (some found.0)) k,
              S.find-erase w.storage (id d) k,
            ))
    ]
      where
        gone :
            (m : Map) (i j : ℕ) → find m i ≡ none → find m j ≡ (if i == j then none else find m j)
        gone m i j e = elim (ℕ_discrete i j) [
          | yes same ↦ ground (arith, same, ap (λ n. find m n) same, e)
          | no ne ↦ ground (arith, ne)
        ]

    -- Deleting removes exactly the documents whose ids the child's output has.
    pub operator_delete_lem :
        (left : Option (Output Doc)) (storage : Map) (k : ℕ)
        → find (operator_delete id S left storage).storage k
          ≡ (if has_id id k (documents (output_of left)) then none else find storage k)
    unfolding operator_delete
    operator_delete_lem none storage k = refl
    operator_delete_lem (some none) storage k = refl
    operator_delete_lem (some (some [])) storage k = refl
    operator_delete_lem (some (some (d ∷ ds))) storage k =
        find-delete_loop (d ∷ ds)
          (record { storage = storage; calls = []; output_ = none; modified_ = some [] }) k

    find_last-id : (k : ℕ) (ds : List Doc) (d : Doc) → find_last k ds ≡ some d → id d ≡ k
    find_last-id k [] d h = cc
    find_last-id k (x ∷ ds) d h = elim (Option-cases (find_last k ds)) [
      | inl e ↦ last_one x (rw e at h)
      | inr found ↦ find_last-id k ds d (ground (arith, found.1, h))
    ]
      where
        last_one : (y : Doc) → or_else none (if id y == k then some y else none) ≡ some d → id d ≡ k
        last_one y g = ground (arith, ap (id_or k) g)

    -- Inserting keeps every document under its id.
    pub operator_insert-IsKeyedMap :
        (ds : List Doc) (left : Option (Output Doc)) (storage : Map)
        → IsKeyedMap storage
        → IsKeyedMap (operator_insert id S ds left storage).storage
    operator_insert-IsKeyedMap ds left storage h = record {
      id_of = λ k d e.
          kept k d (sym (operator_insert_lem ds left storage k).0 ∙ e)
            (Option-cases (find_last k ds));
    }
      where
        kept :
            (k : ℕ) (d : Doc)
            → (if has_documents left
                then find storage k
                else or_else (find_last k ds) (find storage k))
              ≡ some d
            → (find_last k ds ≡ none) ⊎ ((x : Doc) × (find_last k ds ≡ some x))
            → id d ≡ k
        kept k d e (inl new) = ground (arith, e, new, h.id_of k d)
        kept k d e (inr (x, last)) = ground (arith, e, last, find_last-id k ds d, h.id_of k d)

    -- So does deleting.
    pub operator_delete-IsKeyedMap :
        (left : Option (Output Doc)) (storage : Map)
        → IsKeyedMap storage
        → IsKeyedMap (operator_delete id S left storage).storage
    operator_delete-IsKeyedMap left storage h = record {
      id_of = λ k d e. ground (arith, sym (operator_delete_lem left storage k) ∙ e, h.id_of k d);
    }

    absent_below : (k : ℕ) (es : List (ℕ × Doc)) → All (λ e. k < e.0) es → lookup k es ≡ none
    absent_below k [] all = refl
    absent_below k ((j, d) ∷ es) all = ground (arith, all.0, absent_below k es all.1)

    IsKeyed_of_lookup :
        (es : List (ℕ × Doc))
        → IsAscending es
        → ((k : ℕ) (d : Doc) → lookup k es ≡ some d → id d ≡ k)
        → IsKeyed id es
    IsKeyed_of_lookup [] asc h = tt
    IsKeyed_of_lookup ((j, d) ∷ es) asc h = (
      h j d (ground arith),
      IsKeyed_of_lookup es asc.1 (λ k x e. h k x (ground (arith, e, absent_below k es, asc.0))),
    )

    -- What a map that keeps every document under its id goes through has its keys as ids.
    pub IsKeyed_of_map : (storage : Map) → IsKeyedMap storage → IsKeyed id (elements storage)
    IsKeyed_of_map storage h =
        IsKeyed_of_lookup (elements storage) (S.elements-IsAscending storage)
          (λ k d e. h.id_of k d (S.find-eq-lookup storage k ∙ e))

    -- The storages that inserting and deleting lead to, from an empty one.
    pub data Reached : Map → Type 0 where
      empty : (storage : Map) → elements storage ≡ [] → Reached storage
      inserted :
          {storage : Map} (ds : List Doc) (left : Option (Output Doc))
          → Reached storage
          → Reached (operator_insert id S ds left storage).storage
      deleted :
          {storage : Map} (left : Option (Output Doc))
          → Reached storage
          → Reached (operator_delete id S left storage).storage

    Reached-IsKeyedMap : (storage : Map) → Reached storage → IsKeyedMap storage
    Reached-IsKeyedMap storage (Reached.empty m e) = record {
      id_of = λ k d f.
          ground (arith, ap (λ es. lookup k es) e, S.find-eq-lookup m k, f, ap (id_or k) f);
    }
    Reached-IsKeyedMap storage (Reached.inserted ds left r) =
        operator_insert-IsKeyedMap ds left _ (Reached-IsKeyedMap _ r)
    Reached-IsKeyedMap storage (Reached.deleted left r) =
        operator_delete-IsKeyedMap left _ (Reached-IsKeyedMap _ r)

    -- In a storage that inserting and deleting led to from an empty one, whatever the documents and
    -- outputs were, every document stands under its own id.
    pub Reached-IsKeyed : (storage : Map) → Reached storage → IsKeyed id (elements storage)
    Reached-IsKeyed storage r = IsKeyed_of_map storage (Reached-IsKeyedMap storage r)
