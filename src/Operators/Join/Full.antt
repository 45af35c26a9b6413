-- ===== src/Operators/Join/Full.antt =====
-- The loops of the full join, and every join against its rows.
use rocket_joe.Base.{
  ℕ, ◌+◌, ◌≡◌, refl, sym, ap, ap₂, ◌∙◌, Bool, true, false, not, ◌||◌, some, List, [], ◌∷◌, ◌++◌,
  map, append-nil, append_assoc, arith, set, length, length-append, replicate, if◌then◌else◌,
  filter, any,
}
use rocket_joe.Document.{Documents}
use rocket_joe.Operators.Join
use rocket_joe.Operators.Join.{JoinType, Merging, empty_of, on_execute_impl}
use rocket_joe.Operators.Join.Rows.{
  flat_map, or_false, now, accepts, or_one, matches, joined, add_kept, inner_loop_lem,
  cross_loop_lem, outer_lem, visit_rows, append_unless_lem,
}

set-append :
    (xs : List Bool) (y : Bool) (ys : List Bool) (v : Bool)
    → set (xs ++ (y ∷ ys)) (length xs) v ≡ xs ++ (v ∷ ys)
set-append [] y ys v = refl
set-append (x ∷ xs) y ys v = ap (λ r. x ∷ r) (set-append xs y ys v)

module _ {A : Type 0} where
  map_cong :
      {B : Type 0} (f g : A → B) → ((a : A) → f a ≡ g a) → (xs : List A) → map f xs ≡ map g xs
  map_cong f g h [] = refl
  map_cong f g h (x ∷ xs) = ap₂ (λ a b. a ∷ b) (h x) (map_cong f g h xs)

  replicate-map : (xs : List A) → replicate (length xs) false ≡ map (λ x. false) xs
  replicate-map [] = refl
  replicate-map (x ∷ xs) = ap (λ r. false ∷ r) (replicate-map xs)

or_assoc : (a b c : Bool) → (a || b) || c ≡ a || (b || c)
or_assoc a b c = ground arith

module _ (D : Documents) (M : Merging D)
    (expressions_ : List (Documents.Key D × Documents.Key D)) where
  open D use {Document}
  open M use {merge}

  abbrev Visited : Type 0
  Visited = Join.Visited D M expressions_

  abbrev visited : Bool → List Bool → List Document → Visited
  visited a b c = record { visited_left = a; visited_right = b; output_ = c }

  full_step_lem :
      (l r : Document) (pre : List Bool) (f : Bool) (rest : List Bool) (a : Bool)
      (out : List Document)
      → Join.full_step D M expressions_ l r (length pre) (visited a (pre ++ (f ∷ rest)) out)
        ≡ visited
            (if accepts D M expressions_ l r then true else a)
            (pre ++ ((f || accepts D M expressions_ l r) ∷ rest))
            (if accepts D M expressions_ l r then out ++ (merge l r ∷ []) else out)
  full_step_lem l r pre f rest a out = at (accepts D M expressions_ l r)
    where
      at :
          (b : Bool)
          → (if b
              then visited true
                  (set (pre ++ (f ∷ rest)) (length pre) true)
                  (out ++ (merge l r ∷ []))
              else visited a (pre ++ (f ∷ rest)) out)
            ≡ visited
                (if b then true else a)
                (pre ++ ((f || b) ∷ rest))
                (if b then out ++ (merge l r ∷ []) else out)
      at true =
          ap (λ v. visited true v (out ++ (merge l r ∷ [])))
            (set-append pre f rest true ∙ ap (λ t. pre ++ (t ∷ rest)) (sym (or_true f)))
        where
          or_true : (t : Bool) → t || true ≡ true
          or_true t = ground arith
      at false = ap (λ t. visited a (pre ++ (t ∷ rest)) out) (sym (or_false f))

  -- `pre` is behind the index, `f` says what was visited from there on
  full_inner_lem :
      (l : Document) (rs : List Document) (f : Document → Bool) (pre : List Bool) (i : ℕ) (a : Bool)
      (out : List Document)
      → i ≡ length pre
      → Join.full_inner D M expressions_ l rs i (visited a (pre ++ map f rs) out)
        ≡ visited
            (a || any (accepts D M expressions_ l) rs)
            (pre ++ map (λ r. f r || accepts D M expressions_ l r) rs)
            (out ++ matches D M expressions_ l rs)
  full_inner_lem l [] f pre i a out h =
      ap₂ (λ t o. visited t (pre ++ []) o) (sym (or_false a)) (sym (append-nil out))
  full_inner_lem l (r ∷ rs) f pre i a out h =
      let c = accepts D M expressions_ l r in
      let b = if c then true else a in
      let kept = if c then out ++ (merge l r ∷ []) else out in
      let behind = pre ++ ((f r || c) ∷ []) in
      ap
        (λ k.
          Join.full_inner D M expressions_ l rs (i + 1)
            (Join.full_step D M expressions_ l r k (visited a (pre ++ map f (r ∷ rs)) out)))
        h
      ∙ ap (Join.full_inner D M expressions_ l rs (i + 1)) (
          full_step_lem l r pre (f r) (map f rs) a out
          ∙ ap (λ v. visited b v kept) (sym (append_assoc pre ((f r || c) ∷ []) (map f rs))))
      ∙ full_inner_lem l rs f behind (i + 1) b kept
          (omega (arith, h, length-append pre ((f r || c) ∷ [])))
      ∙ ap
          (λ v.
            visited (b || any (accepts D M expressions_ l) rs) v
              (kept ++ matches D M expressions_ l rs))
          (append_assoc pre ((f r || c) ∷ []) (map (λ d. f d || accepts D M expressions_ l d) rs))
      ∙ ap₂ (λ t o. visited t (pre ++ map (λ d. f d || accepts D M expressions_ l d) (r ∷ rs)) o)
          (now c a (any (accepts D M expressions_ l) rs))
          (add_kept D M expressions_ c (merge l) out (filter (accepts D M expressions_ l) rs) r)

  full_rest_lem :
      (pad : Document) (g : Document → Bool) (rs out : List Document)
      → Join.full_rest D M expressions_ pad (map g rs) rs out
        ≡ out ++ map (merge pad) (filter (λ r. not (g r)) rs)
  full_rest_lem pad g [] out = sym (append-nil out)
  full_rest_lem pad g (r ∷ rs) out =
      full_rest_lem pad g rs (if g r then out else out ++ (merge pad r ∷ []))
      ∙ at (g r) (filter (λ d. not (g d)) rs)
    where
      at :
          (b : Bool) (kept : List Document)
          → (if b then out else out ++ (merge pad r ∷ [])) ++ map (merge pad) kept
            ≡ out ++ map (merge pad) (if not b then r ∷ kept else kept)
      at true kept = refl
      at false kept = append_assoc out (merge pad r ∷ []) (map (merge pad) kept)

  -- what one left document appends
  abbrev row : Document → List Document → Document → List Document
  row pad rs l = or_one D M expressions_ (matches D M expressions_ l rs) (merge l pad)

  -- `f` says what was visited before
  full_outer_lem :
      (pad : Document) (ls rs : List Document) (f : Document → Bool) (out : List Document)
      → Join.full_outer D M expressions_ pad ls rs (map f rs) out ≡ (
        map (λ r. f r || any (λ l. accepts D M expressions_ l r) ls) rs,
        out ++ flat_map (row pad rs) ls,
      )
  full_outer_lem pad [] rs f out =
      ap₂ (λ a b. (a, b)) (map_cong f _ (λ r. sym (or_false (f r))) rs) (sym (append-nil out))
  full_outer_lem pad (l ∷ ls) rs f out =
      ap
        (λ v.
          Join.full_outer D M expressions_ pad ls rs v.visited_right
            (Join.append_unless D M expressions_ (v.visited_left, v.output_) (merge l pad)))
        (full_inner_lem l rs f [] 0 false out refl)
      ∙ ap
          (Join.full_outer D M expressions_ pad ls rs
            (map (λ r. f r || accepts D M expressions_ l r) rs))
          (append_unless_lem D M expressions_ (accepts D M expressions_ l) (merge l) (merge l pad)
            rs out)
      ∙ full_outer_lem pad ls rs (λ r. f r || accepts D M expressions_ l r) (out ++ row pad rs l)
      ∙ ap₂ (λ a b. (a, b))
          (map_cong _ _
            (λ r.
              or_assoc (f r) (accepts D M expressions_ l r)
                (any (λ d. accepts D M expressions_ d r) ls))
            rs)
          (append_assoc out (row pad rs l) (flat_map (row pad rs) ls))

  outer_full_join_-rows :
      (ls rs : List Document)
      → Join.outer_full_join_ D M expressions_ ls rs []
        ≡ joined D M expressions_ JoinType.full ls rs
  outer_full_join_-rows ls rs =
      let pad = empty_of D M expressions_ rs in
      ap
        (λ v.
          let u = Join.full_outer D M expressions_ pad ls rs v [] in
          Join.full_rest D M expressions_ (empty_of D M expressions_ ls) u.0 rs u.1)
        (replicate-map rs)
      ∙ ap (λ u. Join.full_rest D M expressions_ (empty_of D M expressions_ ls) u.0 rs u.1)
          (full_outer_lem pad ls rs (λ r. false) [])
      ∙ full_rest_lem (empty_of D M expressions_ ls)
          (λ r. any (λ l. accepts D M expressions_ l r) ls) rs (flat_map (row pad rs) ls)

  join_-rows :
      (t : JoinType) (ls rs : List Document)
      → Join.join_ D M expressions_ t ls rs [] ≡ joined D M expressions_ t ls rs
  join_-rows JoinType.inner ls rs =
      outer_lem D M expressions_ (λ l. Join.inner_loop D M expressions_ l rs)
        (λ ds. Join.inner_join_ D M expressions_ ds rs) (λ l. matches D M expressions_ l rs)
        (λ out. refl) (λ d ds out. refl) (λ l. inner_loop_lem D M expressions_ l rs) ls []
  join_-rows JoinType.cross ls rs =
      outer_lem D M expressions_ (λ l. Join.cross_loop D M expressions_ l rs)
        (λ ds. Join.cross_join_ D M expressions_ ds rs) (λ l. map (merge l) rs) (λ out. refl)
        (λ d ds out. refl) (λ l. cross_loop_lem D M expressions_ l rs) ls []
  join_-rows JoinType.left ls rs =
      let pad = empty_of D M expressions_ rs in
      outer_lem D M expressions_ _ (λ ds. Join.left_loop D M expressions_ pad ds rs) (row pad rs)
        (λ out. refl) (λ d ds out. refl)
        (λ l. visit_rows D M expressions_ (accepts D M expressions_ l) (merge l) (merge l pad) rs)
        ls []
  join_-rows JoinType.right ls rs =
      let pad = empty_of D M expressions_ ls in
      outer_lem D M expressions_ _ (Join.right_loop D M expressions_ pad ls) _ (λ out. refl)
        (λ d ds out. refl)
        (λ r.
          visit_rows D M expressions_ (λ l. accepts D M expressions_ l r) (λ l. merge l r)
            (merge pad r) ls)
        rs []
  join_-rows JoinType.full ls rs = outer_full_join_-rows ls rs

  -- A join of each type outputs its rows in their order: for an inner join the merges of each left
  -- document with those on the right that the expressions accept, for a cross join with all; for a
  -- left join also each left document without a match, and for a right join, which goes by the right
  -- documents, each right one without, with nulls for the fields of the other side's first document;
  -- for a full join the rows of the left join, then the right documents without a match.
  pub on_execute_impl-joined :
      (t : JoinType) (ls rs : List Document)
      → on_execute_impl D M expressions_ t (some (some ls)) (some (some rs))
        ≡ some (joined D M expressions_ t ls rs)
  unfolding on_execute_impl
  on_execute_impl-joined t ls rs = ap some (join_-rows t ls rs)
