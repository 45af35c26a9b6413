-- ===== src/Executor/Order.antt =====
-- The order in which the sub-plans of a plan are run.
use Prim.{⊥}
use rocket_joe.Base.{
  ℕ, zero, suc, ◌+◌, ◌<◌, ◌≡◌, refl, sym, ap, ◌∙◌, some, List, [], ◌∷◌, ◌++◌, arith, All,
  append_assoc, append-nil,
}
use rocket_joe.Executor.{
  Plan, null, operator_, find_right, push_children, traverse_loop, count_operators, traverse_plan_,
}

module _ {I : Type 0} where
  -- The sub-plans below an operator, those on its right first, each behind those below it.
  abbrev pub ordered_below : Plan I → List (Plan I)
  ordered_below null = []
  ordered_below (operator_ i left null) = ordered_below left
  ordered_below (operator_ i left (operator_ j l r)) =
      let behind = ordered_below left in
      let first = ordered_below (operator_ j l r) in
      (first ++ (operator_ j l r ∷ [])) ++ (behind ++ (left ∷ []))

  abbrev pub ordered : Plan I → List (Plan I)
  ordered plan = ordered_below plan ++ (plan ∷ [])

  abbrev pub IsOperator : Plan I → Type 0
  IsOperator null = ⊥
  IsOperator (operator_ i l r) = Unit

  -- Where there is a right child, there is a left one.
  abbrev pub IsWhole : Plan I → Type 0
  IsWhole null = Unit
  IsWhole (operator_ i left null) = IsWhole left
  IsWhole (operator_ i left (operator_ j l r)) =
      IsOperator left × IsWhole left × IsWhole (operator_ j l r)

  -- what the outer loop does with a stack, the last operator of the stack first
  abbrev ordered_all : List (Plan I) → List (Plan I)
  ordered_all [] = []
  ordered_all (p ∷ ps) = ordered_all ps ++ ordered p

  abbrev total : List (Plan I) → ℕ
  total [] = 0
  total (p ∷ ps) = count_operators p + total ps

  record IsSubPlan (p : Plan I) : Type 0 where
    operator : IsOperator p
    whole : IsWhole p

  -- what the inner loop finds
  data Found (p : Plan I) : Type 0 where
    nothing : find_right p ≡ null → ordered_below p ≡ [] → Found p
    branch :
        (i : I) (l r : Plan I)
        → find_right p ≡ operator_ i l r
        → ordered_below p ≡ ordered r ++ ordered l
        → IsSubPlan l
        → IsSubPlan r
        → count_operators l + count_operators r < count_operators p
        → Found p

  find_right-Found : (p : Plan I) → IsWhole p → Found p
  unfolding find_right
  find_right-Found null h = Found.nothing refl refl
  find_right-Found (operator_ i left null) h = at_left (find_right-Found left h)
    where
      at_left : Found left → Found (operator_ i left null)
      at_left (Found.nothing e o) = Found.nothing e o
      at_left (Found.branch j l r e o a b lt) = Found.branch j l r e o a b (omega (arith, lt))
  find_right-Found (operator_ i left (operator_ j l r)) h =
      Found.branch i left (operator_ j l r) refl refl (record { operator = h.0; whole = h.1 })
        (record { operator = tt; whole = h.2 }) (omega arith)

  regroup :
      (xs b a : List (Plan I)) (p : Plan I) (sub : List (Plan I))
      → ((xs ++ b) ++ a) ++ (p ∷ sub) ≡ (xs ++ ((b ++ a) ++ (p ∷ []))) ++ sub
  regroup xs b a p sub = simp append_assoc

  traverse_loop-ordered :
      (fuel : ℕ) (look_up sub : List (Plan I))
      → All IsSubPlan look_up
      → total look_up < fuel
      → traverse_loop fuel look_up sub ≡ some (ordered_all look_up ++ sub)
  unfolding traverse_loop
  traverse_loop-ordered zero look_up sub h lt = absurd (omega (arith, lt))
  traverse_loop-ordered (suc fuel) [] sub h lt = refl
  traverse_loop-ordered (suc fuel) (null ∷ look_up) sub h lt = absurd h.0.operator
  traverse_loop-ordered (suc fuel) (operator_ i l r ∷ look_up) sub h lt =
      at_found (find_right-Found (operator_ i l r) h.0.whole)
        (λ next a b. traverse_loop-ordered fuel next (operator_ i l r ∷ sub) a b)
    where
      at_found :
          Found (operator_ i l r)
          → ((next : List (Plan I))
              → All IsSubPlan next
              → total next < fuel
              → traverse_loop fuel next (operator_ i l r ∷ sub)
                ≡ some (ordered_all next ++ (operator_ i l r ∷ sub)))
          → traverse_loop fuel
              (push_children (find_right (operator_ i l r)) look_up)
              (operator_ i l r ∷ sub)
            ≡ some (
                (ordered_all look_up ++ (ordered_below (operator_ i l r) ++ (operator_ i l r ∷ [])))
                ++ sub)
      at_found (Found.nothing e o) ih =
          rw (e, o)
            (ih look_up h.1 (omega (arith, lt))
              ∙ ap some (sym (append_assoc (ordered_all look_up) (operator_ i l r ∷ []) sub)))
      at_found (Found.branch j a b e o ha hb c) ih =
          rw (e, o)
            (ih (a ∷ b ∷ look_up) (ha, (hb, h.1)) (omega (arith, lt, c))
              ∙ ap some
                  (regroup (ordered_all look_up) (ordered b) (ordered a) (operator_ i l r) sub))

  -- A plan whose operators with a right child have a left one is cut without a null pointer looked
  -- into and before the fuel ends: each operator that has two children gives its children as
  -- sub-plans, which come before it, those on the right first, and the plan itself comes last.
  pub traverse_plan_-ordered :
      (plan : Plan I) → IsOperator plan → IsWhole plan → traverse_plan_ plan ≡ some (ordered plan)
  unfolding traverse_plan_
  traverse_plan_-ordered plan o w =
      traverse_loop-ordered (suc (count_operators plan)) (plan ∷ []) []
        (record { operator = o; whole = w }, tt) (omega arith)
      ∙ ap some (append-nil (ordered plan))
