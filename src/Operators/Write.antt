-- ===== src/Operators/Write.antt =====
-- operators/operator_insert.cpp and operator_delete.cpp: documents written to the storage of a
-- collection. The calls of the index engine are kept in their order, as `calls`; what the engine
-- does on a call has no model here.
use rocket_joe.Base.{ℕ, Bool, true, false, Option, none, some, List, [], ◌∷◌, ◌++◌, if◌then◌else◌}
use rocket_joe.Storage.{BtreeMap}
use rocket_joe.Operators.{Output}

pub data IndexCall (Doc : Type 0) : Type 0 where
  insert_document : Doc → IndexCall Doc
  delete_document : Doc → IndexCall Doc

-- What an operator changes: the storage, the calls made, `output_` and the ids of `modified_`,
-- `none` where a pointer stays null.
pub record Written (Map Doc : Type 0) : Type 0 where
  pub storage : Map
  pub calls : List (IndexCall Doc)
  pub output_ : Output Doc
  pub modified_ : Option (List ℕ)

-- `left_ && left_->output() && left_->output()->size() > 0`
abbrev pub has_documents : {Doc : Type 0} → Option (Output Doc) → Bool
has_documents (some (some (d ∷ ds))) = true
has_documents _ = false

abbrev pub push_to {ℓ} : {A : Type ℓ} → Option (List A) → A → Option (List A)
push_to none a = none
push_to (some xs) a = some (xs ++ (a ∷ []))

module _ {Doc : Type 0} (id : Doc → ℕ) (S : BtreeMap Doc) where
  open S use {Map, find, insert_or_assign, erase}

  -- one round of the loop of `operator_insert`
  unfoldable pub insert_step : Doc → Written Map Doc → Written Map Doc
  insert_step d w = record {
    storage = insert_or_assign w.storage (id d) d;
    calls = w.calls ++ (insert_document d ∷ []);
    output_ = push_to w.output_ d;
    modified_ = push_to w.modified_ (id d);
  }

  unfoldable pub insert_loop : List Doc → Written Map Doc → Written Map Doc
  unfolding insert_step
  insert_loop [] w = w
  insert_loop (d ∷ ds) w = insert_loop ds (insert_step d w)

  abbrev pub untouched : Map → Written Map Doc
  untouched storage = record { storage = storage; calls = []; output_ = none; modified_ = none }

  -- `documents_` and the operator's left child
  unfoldable pub operator_insert : List Doc → Option (Output Doc) → Map → Written Map Doc
  unfolding insert_loop
  operator_insert documents_ left_ storage =
      if has_documents left_
      then untouched storage
      else insert_loop documents_
          (record { storage = storage; calls = []; output_ = some []; modified_ = some [] })

  -- one round of the loop of `operator_delete`
  abbrev pub delete_found : Doc → Written Map Doc → Option Doc → Written Map Doc
  delete_found d w none = w
  delete_found d w (some found) = record w {
    storage = erase w.storage (id d);
    calls = w.calls ++ (delete_document d ∷ []);
    modified_ = push_to w.modified_ (id d);
  }

  unfoldable pub delete_loop : List Doc → Written Map Doc → Written Map Doc
  delete_loop [] w = w
  delete_loop (d ∷ ds) w = delete_loop ds (delete_found d w (find w.storage (id d)))

  unfoldable pub operator_delete : Option (Output Doc) → Map → Written Map Doc
  unfolding delete_loop
  operator_delete (some (some (d ∷ ds))) storage =
      delete_loop (d ∷ ds)
        (record { storage = storage; calls = []; output_ = none; modified_ = some [] })
  operator_delete _ storage = untouched storage
