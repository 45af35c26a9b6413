-- ===== src/Executor.antt =====
-- services/collection/executor.cpp: the actor that runs the operators of a plan. `traverse_plan_` cuts
-- the tree of operators into sub-plans, which `execute_sub_plan_` runs one after the other.
pub mod Order
pub mod Chain
mod Tests
use rocket_joe.Base.{
  ℕ, zero, suc, ◌+◌, Bool, true, false, not, ◌||◌, Option, none, some, List, [], ◌∷◌, ◌++◌, map,
  ◌==◌, if◌then◌else◌, ◌>>=◌, length,
}
use rocket_joe.Base.Maps.{find_key, emplace, update_key, erase_key}
use rocket_joe.Operators.{Output}

-- An operator and its children, `null` where a pointer is null.
pub data Plan (I : Type 0) : Type 0 where
  null : Plan I
  operator_ : I → Plan I → Plan I → Plan I

module _ {I : Type 0} where
  -- the inner loop: down the left children, to the first operator with a right child
  unfoldable pub find_right : Plan I → Plan I
  find_right null = null
  find_right (operator_ i left null) = find_right left
  find_right (operator_ i left (operator_ j l r)) = operator_ i left (operator_ j l r)

  -- `look_up.push(check_op->right()); look_up.push(check_op->left());`
  abbrev pub push_children : Plan I → List (Plan I) → List (Plan I)
  push_children null look_up = look_up
  push_children (operator_ i left right) look_up = left ∷ right ∷ look_up

  -- The outer loop, on fuel; both stacks have their top first. `none` where a null pointer is
  -- looked into, or at the end of the fuel.
  unfoldable pub traverse_loop : ℕ → List (Plan I) → List (Plan I) → Option (List (Plan I))
  unfolding find_right
  traverse_loop zero look_up sub_plans = none
  traverse_loop (suc fuel) [] sub_plans = some sub_plans
  traverse_loop (suc fuel) (null ∷ look_up) sub_plans = none
  traverse_loop (suc fuel) (operator_ i l r ∷ look_up) sub_plans =
      traverse_loop fuel (push_children (find_right (operator_ i l r)) look_up)
        (operator_ i l r ∷ sub_plans)

  abbrev pub count_operators : Plan I → ℕ
  count_operators null = 0
  count_operators (operator_ i l r) = suc (count_operators l + count_operators r)

  -- the sub-plans of a plan, the next one to run first
  unfoldable pub traverse_plan_ : Plan I → Option (List (Plan I))
  unfolding traverse_loop
  traverse_plan_ plan = traverse_loop (suc (count_operators plan)) (plan ∷ []) []

-- `operator_type`
pub data OperatorType : Type 0 where
  unused empty match insert remove update sort join aggregate add_index drop_index : OperatorType

-- What the handlers read of an operator that has been executed, with the storage of its collection.
pub record Executed (Doc : Type 0) : Type 0 where
  pub type : OperatorType
  pub root : Bool
  pub output_ : Output Doc
  pub modified_ : Option (List ℕ)
  pub storage : List (ℕ × Doc)

-- `cursor_t` as the executor makes it; a document of a deletion is null
pub data Cursor (Doc : Type 0) : Type 0 where
  success failure : Cursor Doc
  collection_dropped create_phisical_plan_error : Cursor Doc
  documents : List (Option Doc) → Cursor Doc

-- `is_error()`: the status `failure` is none
abbrev pub is_error : {Doc : Type 0} → Cursor Doc → Bool
is_error Cursor.collection_dropped = true
is_error Cursor.create_phisical_plan_error = true
is_error _ = false

-- messages: to the disk, and the answer to the storage
pub data Sent (Doc : Type 0) : Type 0 where
  write_documents : List Doc → Sent Doc
  remove_documents : List ℕ → Sent Doc
  execute_plan_finish : ℕ → Cursor Doc → Sent Doc

-- What a handler gives: the messages to the disk and the cursor; `none` where it faults.
abbrev pub Finished : Type 0 → Type 0
Finished Doc = Option (List (Sent Doc) × Cursor Doc)

module _ {Doc : Type 0} where
  abbrev pub output_documents : Output Doc → List Doc
  output_documents none = []
  output_documents (some ds) = ds

  -- `collection->storage().at(id)` for each id; `none` where it throws
  abbrev pub at_all : List (ℕ × Doc) → List ℕ → Option (List (Option Doc))
  at_all storage [] = some []
  at_all storage (id ∷ ids) =
      find_key ◌==◌ id storage >>= λ d. at_all storage ids >>= λ ds. some (some d ∷ ds)

  abbrev pub aggregate_document_impl : Executed Doc → Finished Doc
  aggregate_document_impl plan =
      if plan.root
      then elim (output_documents plan.output_) [
        | [] ↦ some ([], Cursor.failure)
        | d ∷ ds ↦ some ([], Cursor.documents (map some (d ∷ ds)))
      ]
      else some ([], Cursor.success)

  abbrev pub update_modified : Executed Doc → Option (List ℕ) → Finished Doc
  update_modified plan none = some (Sent.remove_documents [] ∷ [], Cursor.documents [])
  update_modified plan (some ids) =
      at_all plan.storage ids >>= λ ds. some (Sent.remove_documents ids ∷ [], Cursor.documents ds)

  abbrev pub update_output : (Doc → ℕ) → Executed Doc → Output Doc → Finished Doc
  update_output id plan none = update_modified plan plan.modified_
  update_output id plan (some []) = none
  update_output id plan (some (d ∷ ds)) = at_all plan.storage (id d ∷ []) >>= λ found.
      some (Sent.remove_documents (id d ∷ []) ∷ [], Cursor.documents found)

  abbrev pub update_document_impl : (Doc → ℕ) → Executed Doc → Finished Doc
  update_document_impl id plan = update_output id plan plan.output_

  abbrev pub inserted : Executed Doc → Option (List ℕ) → Option (List (Option Doc))
  inserted plan none = some (map (λ e. some e.1) plan.storage)
  inserted plan (some ids) = at_all plan.storage ids

  abbrev pub insert_document_impl : Executed Doc → Finished Doc
  insert_document_impl plan = inserted plan plan.modified_ >>= λ ds.
      some (Sent.write_documents (output_documents plan.output_) ∷ [], Cursor.documents ds)

  -- `modified()` is looked into without a check
  abbrev pub delete_document_impl : Executed Doc → Finished Doc
  delete_document_impl plan = plan.modified_ >>= λ ids.
      some (Sent.remove_documents ids ∷ [], Cursor.documents (map (λ id. none) ids))

  -- the switch of `execute_sub_plan_`: the inner `none` where nothing is left to do
  abbrev pub by_type :
      (Doc → ℕ) → Executed Doc → OperatorType → Option (Option (List (Sent Doc) × Cursor Doc))
  by_type id plan OperatorType.insert = insert_document_impl plan >>= λ f. some (some f)
  by_type id plan OperatorType.remove = delete_document_impl plan >>= λ f. some (some f)
  by_type id plan OperatorType.update = update_document_impl id plan >>= λ f. some (some f)
  by_type id plan OperatorType.join = aggregate_document_impl plan >>= λ f. some (some f)
  by_type id plan OperatorType.aggregate = aggregate_document_impl plan >>= λ f. some (some f)
  by_type id plan OperatorType.add_index = some none
  by_type id plan OperatorType.drop_index = some none
  by_type id plan _ = some (some ([], Cursor.success))

-- The actor: the stacks of sub-plans of the sessions, and the messages sent so far. `world` is what
-- the operators change.
pub record Executor (World I Doc : Type 0) : Type 0 where
  pub plans_ : List (ℕ × List (Plan I))
  pub world : World
  pub sent : List (Sent Doc)

-- Where a chain of calls of `execute_sub_plan_` and `execute_sub_plan_finish_` comes to: to its end,
-- to an operator that waits or whose work goes on at the disk, to a call of `at` on a session that
-- has no plan, to a fault, or to the end of the fuel.
pub data End (World I Doc : Type 0) : Type 0 where
  ended waiting threw : Executor World I Doc → End World I Doc
  faulted out_of_fuel : End World I Doc

-- `plan->on_execute`: whether the collection was dropped before, and else the world behind it and,
-- where the operator has been executed, what the handlers read.
pub data Run (World Doc : Type 0) : Type 0 where
  dropped : Run World Doc
  ran : World → Option (Executed Doc) → Run World Doc

module _ {World I Doc : Type 0} (id : Doc → ℕ) (on_execute : Plan I → World → Run World Doc)
    (session : ℕ) where
  abbrev pub Actor : Type 0
  Actor = Executor World I Doc

  abbrev pub send : List (Sent Doc) → Actor → Actor
  send ms s = record s { sent = s.sent ++ ms }

  unfoldable pub execute_plan_finish_ : Cursor Doc → Actor → Actor
  execute_plan_finish_ cursor s = record s {
    plans_ = erase_key ◌==◌ session s.plans_;
    sent = s.sent ++ (Sent.execute_plan_finish session cursor ∷ []);
  }

  abbrev pub contains : Actor → Bool
  contains s = elim (find_key ◌==◌ session s.plans_) [ none ↦ false | some p ↦ true ]

  -- the first `if` of `execute_sub_plan_finish_`, which does not return
  abbrev pub finish_on_error : Cursor Doc → Actor → Actor
  finish_on_error result s =
      if is_error result || not (contains s) then execute_plan_finish_ result s else s

  -- what `execute_sub_plan_finish_` does last: nothing, or the next call of `execute_sub_plan_`
  pub data Step : Type 0 where
    stop : End World I Doc → Step
    next : Plan I → Actor → Step

  abbrev pub finish_stack : Cursor Doc → Actor → List (Plan I) → Step
  finish_stack result s [] = stop End.faulted
  finish_stack result s (p ∷ []) = stop (End.ended (execute_plan_finish_ result s))
  finish_stack result s (p ∷ q ∷ rest) =
      next q (record s { plans_ = update_key ◌==◌ s.plans_ session (q ∷ rest) })

  abbrev pub finish_found : Cursor Doc → Actor → Option (List (Plan I)) → Step
  finish_found result s none = stop (End.threw s)
  finish_found result s (some stack) = finish_stack result s stack

  unfoldable pub execute_sub_plan_finish_ : Cursor Doc → Actor → Step
  execute_sub_plan_finish_ result s =
      let after = finish_on_error result s in
      finish_found result after (find_key ◌==◌ session after.plans_)

  abbrev pub handle_type : Option (Option (List (Sent Doc) × Cursor Doc)) → Actor → Step
  handle_type none s = stop End.faulted
  handle_type (some none) s = stop (End.waiting s)
  handle_type (some (some f)) s = execute_sub_plan_finish_ f.1 (send f.0 s)

  abbrev pub handle_run : Run World Doc → Actor → Step
  handle_run dropped s = execute_sub_plan_finish_ Cursor.collection_dropped s
  handle_run (ran world none) s = stop (End.waiting (record s { world = world }))
  handle_run (ran world (some e)) s = handle_type (by_type id e e.type) (record s { world = world })

  unfoldable pub execute_sub_plan_ : Plan I → Actor → Step
  unfolding execute_sub_plan_finish_
  execute_sub_plan_ plan s = handle_run (on_execute plan s.world) s

  -- the chain of the calls, on fuel
  unfoldable pub run_sub_plans : ℕ → Plan I → Actor → End World I Doc
  unfolding execute_sub_plan_
  run_sub_plans zero plan s = End.out_of_fuel
  run_sub_plans (suc fuel) plan s = elim (execute_sub_plan_ plan s) [
    | stop e ↦ e
    | next p t ↦ run_sub_plans fuel p t
  ]

  -- `first->second.sub_plans.top()`
  abbrev pub run_top : Actor → Option (List (Plan I)) → End World I Doc
  run_top s none = End.faulted
  run_top s (some []) = End.faulted
  run_top s (some (p ∷ stack)) = run_sub_plans (length (p ∷ stack)) p s

  -- `traverse_plan_` to its end: the stack is stored, unless there is one, and the top is run
  abbrev pub start : Actor → Option (List (Plan I)) → End World I Doc
  start s none = End.faulted
  start s (some sub_plans) =
      let plans = emplace ◌==◌ s.plans_ session sub_plans in
      run_top (record s { plans_ = plans }) (find_key ◌==◌ session plans)

  -- from the plan that the planner made, which is null where there is none
  unfoldable pub execute_plan : Plan I → Actor → End World I Doc
  unfolding run_sub_plans traverse_plan_
  execute_plan null s =
      End.ended (send (Sent.execute_plan_finish session Cursor.create_phisical_plan_error ∷ []) s)
  execute_plan (operator_ i l r) s = start s (traverse_plan_ (operator_ i l r))
