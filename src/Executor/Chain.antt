-- ===== src/Executor/Chain.antt =====
-- The answers of the executor to a plan.
use rocket_joe.Base.{
  ℕ, zero, suc, ◌≤◌, ◌≡◌, refl, sym, ap, Bool, true, false, not, ◌||◌, Option, none, some, List, [],
  ◌∷◌, ◌++◌, arith, ◌==◌, if◌then◌else◌, ◌>>=◌, length, filter, map,
}
use mathlib.Core.Path.{subst}
use rocket_joe.Base.Maps.{
  find_key, emplace, update_key, find_key-emplace, find_key-erase, find_key-update,
}
use rocket_joe.Operators.{Output}
use rocket_joe.Executor
use rocket_joe.Executor.Order.{IsWhole, ordered, ordered_below, traverse_plan_-ordered}
use rocket_joe.Executor.{
  Plan, null, operator_, Executed, OperatorType, Cursor, is_error, Finished, Run, End, by_type,
  at_all, inserted, update_output, update_modified, aggregate_document_impl, output_documents,
}

module _ {Doc : Type 0} where
  abbrev pub is_answer : Executor.Sent Doc → Bool
  is_answer (Executor.execute_plan_finish session c) = true
  is_answer _ = false

  -- the messages of a handler hold no answer, and its cursor is no error
  abbrev Quiet : Option (Option (List (Executor.Sent Doc) × Cursor Doc)) → Type 0
  Quiet none = Unit
  Quiet (some none) = Unit
  Quiet (some (some f)) = (filter is_answer f.0 ≡ []) × (is_error f.1 ≡ false)

  Quiet-bind :
      (o : Option (List (Option Doc))) (m : Executor.Sent Doc)
      → is_answer m ≡ false
      → Quiet ((o >>= λ ds. some (m ∷ [], Cursor.documents ds)) >>= λ f. some (some f))
  Quiet-bind none m h = tt
  Quiet-bind (some ds) m h = (ground (arith, h), refl)

  Quiet-aggregate : (e : Executed Doc) → Quiet (aggregate_document_impl e >>= λ f. some (some f))
  Quiet-aggregate e = at_root e.root (output_documents e.output_)
    where
      at_root :
          (b : Bool) (ds : List Doc)
          → Quiet (
              (if b
                then elim ds [
                  | [] ↦ some ([], Cursor.failure)
                  | d ∷ rest ↦ some ([], Cursor.documents (map some (d ∷ rest)))
                ]
                else some ([], Cursor.success))
              >>= λ f. some (some f))
      at_root true [] = (refl, refl)
      at_root true (d ∷ ds) = (refl, refl)
      at_root false ds = (refl, refl)

  Quiet-modified :
      (e : Executed Doc) (m : Option (List ℕ)) → Quiet (update_modified e m >>= λ f. some (some f))
  Quiet-modified e none = (refl, refl)
  Quiet-modified e (some ids) =
      Quiet-bind (at_all e.storage ids) (Executor.remove_documents ids) refl

  Quiet-update :
      (id : Doc → ℕ) (e : Executed Doc) (o : Output Doc)
      → Quiet (update_output id e o >>= λ f. some (some f))
  Quiet-update id e none = Quiet-modified e e.modified_
  Quiet-update id e (some []) = tt
  Quiet-update id e (some (d ∷ ds)) =
      Quiet-bind (at_all e.storage (id d ∷ [])) (Executor.remove_documents (id d ∷ [])) refl

  Quiet-remove :
      (e : Executed Doc) (o : Option (List ℕ))
      → Quiet (
          (o >>= λ ids.
          some (Executor.remove_documents ids ∷ [], Cursor.documents (map (λ id. none) ids)))
          >>= λ f. some (some f))
  Quiet-remove e none = tt
  Quiet-remove e (some ids) = (refl, refl)

  by_type-Quiet : (id : Doc → ℕ) (e : Executed Doc) (t : OperatorType) → Quiet (by_type id e t)
  by_type-Quiet id e OperatorType.insert =
      Quiet-bind (inserted e e.modified_) (Executor.write_documents (output_documents e.output_))
        refl
  by_type-Quiet id e OperatorType.remove = Quiet-remove e e.modified_
  by_type-Quiet id e OperatorType.update = Quiet-update id e e.output_
  by_type-Quiet id e OperatorType.join = Quiet-aggregate e
  by_type-Quiet id e OperatorType.aggregate = Quiet-aggregate e
  by_type-Quiet id e OperatorType.add_index = tt
  by_type-Quiet id e OperatorType.drop_index = tt
  by_type-Quiet id e _ = (refl, refl)

module _ {World I Doc : Type 0} (id : Doc → ℕ) (on_execute : Plan I → World → Run World Doc)
    (session : ℕ) where
  abbrev Actor : Type 0
  Actor = Executor.Executor World I Doc

  abbrev pub answer : Cursor Doc → Executor.Sent Doc
  answer c = Executor.execute_plan_finish session c

  -- behind the message of the answer, the session is forgotten
  pub record IsAnswered (w : World) (sent : List (Executor.Sent Doc)) (c : Cursor Doc) (s : Actor)
      : Type 0 where
    pub world : s.world ≡ w
    pub messages : s.sent ≡ sent ++ (answer c ∷ [])
    pub forgotten : find_key ◌==◌ session s.plans_ ≡ none

  -- no answer is sent, and the sub-plans are kept
  pub record IsKept (w : World) (sent : List (Executor.Sent Doc)) (stack : List (Plan I))
      (s : Actor) : Type 0 where
    pub world : s.world ≡ w
    pub messages : s.sent ≡ sent
    pub stored : find_key ◌==◌ session s.plans_ ≡ some stack

  -- the operator has been executed, and its handler sends messages that are no answer, and gives a
  -- cursor that is no error
  pub record IsHandled (p : Plan I) (w : World) (next : World)
      (f : List (Executor.Sent Doc) × Cursor Doc) : Type 0 where
    pub executed : Executed Doc
    pub ran : on_execute p w ≡ Run.ran next (some executed)
    pub handled : by_type id executed executed.type ≡ some (some f)
    pub quiet : filter is_answer f.0 ≡ []
    pub succeeded : is_error f.1 ≡ false

  -- What running sub-plans in the order of a list comes to, from a world and the messages sent.
  pub data Ends : List (Plan I) → World → List (Executor.Sent Doc) → End World I Doc → Type 0 where
    -- there is no plan
    invalid :
        (w : World) (sent : List (Executor.Sent Doc)) (s : Actor)
        → IsAnswered w sent Cursor.create_phisical_plan_error s
        → Ends (null ∷ []) w sent (End.ended s)
    -- the last operator answers with the cursor of its handler
    ended :
        (p : Plan I) (w next : World) (sent : List (Executor.Sent Doc))
        (f : List (Executor.Sent Doc) × Cursor Doc) (s : Actor)
        → IsHandled p w next f
        → IsAnswered next (sent ++ f.0) f.1 s
        → Ends (p ∷ []) w sent (End.ended s)
    -- another one lets the next one run
    goes :
        (p q : Plan I) (rest : List (Plan I)) (w next : World) (sent : List (Executor.Sent Doc))
        (f : List (Executor.Sent Doc) × Cursor Doc) (x : End World I Doc)
        → IsHandled p w next f
        → Ends (q ∷ rest) next (sent ++ f.0) x
        → Ends (p ∷ q ∷ rest) w sent x
    -- the collection was dropped
    threw :
        (p : Plan I) (rest : List (Plan I)) (w : World) (sent : List (Executor.Sent Doc))
        (s : Actor)
        → on_execute p w ≡ Run.dropped
        → IsAnswered w sent Cursor.collection_dropped s
        → Ends (p ∷ rest) w sent (End.threw s)
    -- the operator waits
    suspended :
        (p : Plan I) (rest : List (Plan I)) (w next : World) (sent : List (Executor.Sent Doc))
        (s : Actor)
        → on_execute p w ≡ Run.ran next none
        → IsKept next sent (p ∷ rest) s
        → Ends (p ∷ rest) w sent (End.waiting s)
    -- the work of the operator goes on at the disk
    left_to_disk :
        (p : Plan I) (rest : List (Plan I)) (w next : World) (sent : List (Executor.Sent Doc))
        (e : Executed Doc) (s : Actor)
        → on_execute p w ≡ Run.ran next (some e)
        → by_type id e e.type ≡ some none
        → IsKept next sent (p ∷ rest) s
        → Ends (p ∷ rest) w sent (End.waiting s)
    -- the handler faults
    faulted :
        (p : Plan I) (rest : List (Plan I)) (w next : World) (sent : List (Executor.Sent Doc))
        (e : Executed Doc)
        → on_execute p w ≡ Run.ran next (some e)
        → by_type id e e.type ≡ none
        → Ends (p ∷ rest) w sent End.faulted

  IsAnswered-finish :
      (c : Cursor Doc) (s : Actor)
      → IsAnswered s.world s.sent c (Executor.execute_plan_finish_ id on_execute session c s)
  unfolding Executor.execute_plan_finish_
  IsAnswered-finish c s = record {
    world = refl;
    messages = refl;
    forgotten = find_key-erase session s.plans_;
  }

  -- where the chain goes on from a step
  abbrev end_from : ℕ → Executor.Step id on_execute session → End World I Doc
  end_from n r = elim r [
    | Executor.stop x ↦ x
    | Executor.next q t ↦ Executor.run_sub_plans id on_execute session n q t
  ]

  -- What the chain does from the next sub-plan on.
  abbrev GoesOn : ℕ → Type 0
  GoesOn n =
      (q : Plan I) (t : Actor) (rest : List (Plan I))
      → find_key ◌==◌ session t.plans_ ≡ some (q ∷ rest)
      → length (q ∷ rest) ≤ n
      → Ends (q ∷ rest) t.world t.sent (Executor.run_sub_plans id on_execute session n q t)

  module _ (n : ℕ) (p : Plan I) (stack : List (Plan I)) (enough : length (p ∷ stack) ≤ suc n)
      (ih : GoesOn n) where
    Ends-finish :
        (w : World) (sent : List (Executor.Sent Doc)) (f : List (Executor.Sent Doc) × Cursor Doc)
        (t : Actor)
        → IsHandled p w t.world f
        → t.sent ≡ sent ++ f.0
        → find_key ◌==◌ session t.plans_ ≡ some (p ∷ stack)
        → Ends
            (p ∷ stack)
            w
            sent
            (end_from n (Executor.execute_sub_plan_finish_ id on_execute session f.1 t))
    unfolding Executor.execute_sub_plan_finish_
    Ends-finish w sent f t h e stored =
        subst
          (λ b. Ends (p ∷ stack) w sent (
            end_from n (
              Executor.finish_found id on_execute session f.1
                (if b then Executor.execute_plan_finish_ id on_execute session f.1 t else t)
                (find_key ◌==◌ session
                  (if b
                    then Executor.execute_plan_finish_ id on_execute session f.1 t
                    else t).plans_))))
          (sym going)
          (subst
            (λ o.
              Ends (p ∷ stack) w sent
                (end_from n (Executor.finish_found id on_execute session f.1 t o)))
            (sym stored) (at_stack stack enough stored))
      where
        contained : Executor.contains id on_execute session t ≡ true
        contained = ap (λ o. elim o [ none ↦ false | some x ↦ true ]) stored

        going : is_error f.1 || not (Executor.contains id on_execute session t) ≡ false
        going = ground (arith, h.succeeded, contained)

        at_stack :
            (rest : List (Plan I))
            → length (p ∷ rest) ≤ suc n
            → find_key ◌==◌ session t.plans_ ≡ some (p ∷ rest)
            → Ends
                (p ∷ rest)
                w
                sent
                (end_from n (Executor.finish_stack id on_execute session f.1 t (p ∷ rest)))
        at_stack [] l there = Ends.ended p w t.world sent f _ h (
            subst
              (λ ms.
                IsAnswered t.world ms f.1
                  (Executor.execute_plan_finish_ id on_execute session f.1 t))
              e (IsAnswered-finish f.1 t))
        at_stack (q ∷ rest) l there = Ends.goes p q rest w t.world sent f _ h (
            subst
              (λ ms. Ends (q ∷ rest) t.world ms (
                Executor.run_sub_plans id on_execute session n q
                  (record t { plans_ = update_key ◌==◌ t.plans_ session (q ∷ rest) })))
              e
              (ih q (record t { plans_ = update_key ◌==◌ t.plans_ session (q ∷ rest) }) rest
                (find_key-update session t.plans_ (p ∷ q ∷ rest) (q ∷ rest) there)
                (omega (arith, l))))

    module _ (s : Actor) (stored : find_key ◌==◌ session s.plans_ ≡ some (p ∷ stack)) where
      Ends-handle_type :
          (next : World) (e : Executed Doc)
          (o : Option (Option (List (Executor.Sent Doc) × Cursor Doc)))
          → on_execute p s.world ≡ Run.ran next (some e)
          → by_type id e e.type ≡ o
          → Quiet o
          → Ends (p ∷ stack) s.world s.sent (
              end_from n (Executor.handle_type id on_execute session o (record s { world = next })))
      Ends-handle_type next e none r x q = Ends.faulted p stack s.world next s.sent e r x
      Ends-handle_type next e (some none) r x q =
          Ends.left_to_disk p stack s.world next s.sent e _ r x
            (record { world = refl; messages = refl; stored = stored })
      Ends-handle_type next e (some (some f)) r x q =
          Ends-finish s.world s.sent f (record s { world = next; sent = s.sent ++ f.0 })
            (record { executed = e; ran = r; handled = x; quiet = q.0; succeeded = q.1 }) refl
            stored

      Ends-handle_run :
          (r : Run World Doc)
          → on_execute p s.world ≡ r
          → Ends
              (p ∷ stack)
              s.world
              s.sent
              (end_from n (Executor.handle_run id on_execute session r s))
      unfolding Executor.execute_sub_plan_finish_
      Ends-handle_run Run.dropped x =
          subst
            (λ o. Ends (p ∷ stack) s.world s.sent (
              end_from n (
                Executor.finish_found id on_execute session Cursor.collection_dropped
                  (Executor.execute_plan_finish_ id on_execute session Cursor.collection_dropped s)
                  o)))
            (sym (IsAnswered.forgotten (IsAnswered-finish Cursor.collection_dropped s)))
            (Ends.threw p stack s.world s.sent _ x (IsAnswered-finish Cursor.collection_dropped s))
      Ends-handle_run (Run.ran next none) x =
          Ends.suspended p stack s.world next s.sent _ x
            (record { world = refl; messages = refl; stored = stored })
      Ends-handle_run (Run.ran next (some e)) x =
          Ends-handle_type next e (by_type id e e.type) x refl (by_type-Quiet id e e.type)

  -- As many rounds as there are sub-plans are enough.
  run_sub_plans-Ends : (n : ℕ) → GoesOn n
  unfolding Executor.run_sub_plans Executor.execute_sub_plan_
  run_sub_plans-Ends zero p s stack stored e = absurd (omega (arith, e))
  run_sub_plans-Ends (suc n) p s stack stored e =
      Ends-handle_run n p stack e (run_sub_plans-Ends n) s stored (on_execute p s.world) refl

  -- A plan whose operators with a right child have a left one, or none, of a session that has no plan
  -- yet, whatever its operators do, comes to an end before the fuel does: its sub-plans are run one
  -- after the other in their order, each in the world that the one before has left, up to the first
  -- that does not go on. The last one is answered with the cursor of its handler; where the collection
  -- was dropped, the answer is that, and then `at` throws; both forget the session. Where an operator
  -- waits or its work goes on at the disk, no answer is sent and the sub-plans are kept from it on. The
  -- chain faults only where the handler of an operator that was run does. Other messages are those of
  -- the handlers, and no answers. No plan at all is answered with an error.
  pub execute_plan-Ends :
      (plan : Plan I) (s : Actor)
      → IsWhole plan
      → find_key ◌==◌ session s.plans_ ≡ none
      → Ends (ordered plan) s.world s.sent (Executor.execute_plan id on_execute session plan s)
  unfolding Executor.execute_plan
  execute_plan-Ends null s w unknown =
      Ends.invalid s.world s.sent _ (record { world = refl; messages = refl; forgotten = unknown })
  execute_plan-Ends (operator_ i l r) s w unknown =
      subst
        (λ o.
          Ends (ordered (operator_ i l r)) s.world s.sent
            (Executor.start id on_execute session s o))
        (sym (traverse_plan_-ordered (operator_ i l r) tt w))
        (at_stack (ordered_below (operator_ i l r)))
    where
      from_top :
          (p : Plan I) (stack : List (Plan I))
          → Ends
              (p ∷ stack)
              s.world
              s.sent
              (Executor.start id on_execute session s (some (p ∷ stack)))
      from_top p stack =
          let there = find_key-emplace session s.plans_ (p ∷ stack) unknown in
          subst
            (λ o. Ends (p ∷ stack) s.world s.sent (
              Executor.run_top id on_execute session
                (record s { plans_ = emplace ◌==◌ s.plans_ session (p ∷ stack) }) o))
            (sym there) (run_sub_plans-Ends (length (p ∷ stack)) p _ stack there (omega arith))

      at_stack :
          (first : List (Plan I))
          → Ends
              (first ++ (operator_ i l r ∷ []))
              s.world
              s.sent
              (Executor.start id on_execute session s (some (first ++ (operator_ i l r ∷ []))))
      at_stack [] = from_top (operator_ i l r) []
      at_stack (p ∷ rest) = from_top p (rest ++ (operator_ i l r ∷ []))
