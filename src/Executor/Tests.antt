-- ===== src/Executor/Tests.antt =====
-- A join of two scans, whose operators are numbers and whose documents are their ids.
use rocket_joe.Base.{ℕ, zero, suc, ◌≡◌, refl, true, false, none, some, [], ◌∷◌}
use rocket_joe.Executor
use rocket_joe.Executor.{
  Plan, null, operator_, OperatorType, Run, Cursor, End, traverse_plan_, execute_plan,
}
use rocket_joe.Executor.Order.{ordered, traverse_plan_-ordered}
use rocket_joe.Executor.Chain.{Ends, execute_plan-Ends}

abbrev joined : Plan ℕ
joined = operator_ 1 (operator_ 2 null null) (operator_ 3 null null)

traverse_plan_-ordered_example : traverse_plan_ joined ≡ some (ordered joined)
traverse_plan_-ordered_example = traverse_plan_-ordered joined tt (tt, tt, tt)

-- the join is the root and finds one document, the scans are matches
abbrev run_one : Plan ℕ → ℕ → Run ℕ ℕ
run_one (operator_ (suc zero) l r) world = Run.ran (suc world) (
    some (record {
      type = OperatorType.join;
      root = true;
      output_ = some (7 ∷ []);
      modified_ = none;
      storage = [];
    }))
run_one p world = Run.ran (suc world) (
    some (record {
      type = OperatorType.match;
      root = false;
      output_ = none;
      modified_ = none;
      storage = [];
    }))

abbrev idle : Executor.Executor ℕ ℕ ℕ
idle = record { plans_ = []; world = 0; sent = [] }

execute_plan-Ends_example :
    Ends (λ d. d) run_one 5 (ordered joined) 0 [] (execute_plan (λ d. d) run_one 5 joined idle)
execute_plan-Ends_example = execute_plan-Ends (λ d. d) run_one 5 joined idle (tt, tt, tt) refl

-- the three operators are run and the answer has the document
run_joined :
    execute_plan (λ d. d) run_one 5 joined idle
    ≡ End.ended (record {
      plans_ = [];
      world = 3;
      sent = Executor.execute_plan_finish 5 (Cursor.documents (some 7 ∷ [])) ∷ [];
    })
unfolding execute_plan Executor.execute_plan_finish_
run_joined = refl
