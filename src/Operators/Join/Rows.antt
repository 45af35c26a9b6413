-- ===== src/Operators/Join/Rows.antt =====
-- The rows of a join, without loops and flags.
use rocket_joe.Base.{
  ◌≡◌, refl, sym, ap, ap₂, ◌∙◌, Bool, true, false, not, ◌||◌, List, [], ◌∷◌, ◌++◌, map, append-nil,
  append_assoc, arith, if◌then◌else◌, filter, any,
}
use rocket_joe.Document.{Documents}
use rocket_joe.Operators.Join
use rocket_joe.Operators.Join.{JoinType, Merging, check_expressions_, empty_of}

abbrev pub flat_map {ℓ κ} : {A : Type ℓ} {B : Type κ} → (A → List B) → List A → List B
flat_map f [] = []
flat_map f (x ∷ xs) = f x ++ flat_map f xs

pub or_false : (b : Bool) → b || false ≡ b
or_false b = ground arith

pub now : (t v a : Bool) → (if t then true else v) || a ≡ v || (t || a)
now t v a = ground arith

module _ (D : Documents) (M : Merging D)
    (expressions_ : List (Documents.Key D × Documents.Key D)) where
  open D use {Document, Key}
  open M use {merge}

  abbrev pub accepts : Document → Document → Bool
  accepts = check_expressions_ D M expressions_

  -- the rows, or the one row where there is none
  abbrev pub or_one : List Document → Document → List Document
  or_one [] d = d ∷ []
  or_one (x ∷ xs) d = x ∷ xs

  abbrev pub matches : Document → List Document → List Document
  matches l rs = map (merge l) (filter (accepts l) rs)

  -- the rows of each left document: its matches, or itself with nulls
  abbrev pub left_rows : List Document → List Document → List Document
  left_rows ls rs =
      flat_map (λ l. or_one (matches l rs) (merge l (empty_of D M expressions_ rs))) ls

  -- The documents of a join: for the full join, behind those of the left join, each right document
  -- without a match, with nulls.
  abbrev pub joined : JoinType → List Document → List Document → List Document
  joined JoinType.inner ls rs = flat_map (λ l. matches l rs) ls
  joined JoinType.cross ls rs = flat_map (λ l. map (merge l) rs) ls
  joined JoinType.left ls rs = left_rows ls rs
  joined JoinType.right ls rs =
      flat_map
        (λ r.
          or_one (map (λ l. merge l r) (filter (λ l. accepts l r) ls))
            (merge (empty_of D M expressions_ ls) r))
        rs
  joined JoinType.full ls rs =
      left_rows ls rs
      ++ map (merge (empty_of D M expressions_ ls))
          (filter (λ r. not (any (λ l. accepts l r) ls)) rs)

  -- one more row, where the test lets it by
  pub add_row :
      (b : Bool) (out rows : List Document) (d : Document)
      → (if b then out ++ (d ∷ []) else out) ++ rows ≡ out ++ (if b then d ∷ rows else rows)
  add_row true out rows d = append_assoc out (d ∷ []) rows
  add_row false out rows d = refl

  pub map_if :
      (b : Bool) (f : Document → Document) (d : Document) (ds : List Document)
      → map f (if b then d ∷ ds else ds) ≡ (if b then f d ∷ map f ds else map f ds)
  map_if true f d ds = refl
  map_if false f d ds = refl

  pub add_kept :
      (b : Bool) (f : Document → Document) (out kept : List Document) (d : Document)
      → (if b then out ++ (f d ∷ []) else out) ++ map f kept
        ≡ out ++ map f (if b then d ∷ kept else kept)
  add_kept b f out kept d =
      add_row b out (map f kept) (f d) ∙ ap (λ r. out ++ r) (sym (map_if b f d kept))

  pub inner_loop_lem :
      (l : Document) (rs out : List Document)
      → Join.inner_loop D M expressions_ l rs out ≡ out ++ matches l rs
  inner_loop_lem l [] out = sym (append-nil out)
  inner_loop_lem l (r ∷ rs) out =
      inner_loop_lem l rs (if accepts l r then out ++ (merge l r ∷ []) else out)
      ∙ add_kept (accepts l r) (merge l) out (filter (accepts l) rs) r

  pub cross_loop_lem :
      (l : Document) (rs out : List Document)
      → Join.cross_loop D M expressions_ l rs out ≡ out ++ map (merge l) rs
  cross_loop_lem l [] out = sym (append-nil out)
  cross_loop_lem l (r ∷ rs) out =
      cross_loop_lem l rs (out ++ (merge l r ∷ []))
      ∙ append_assoc out (merge l r ∷ []) (map (merge l) rs)

  -- an outer loop whose body appends rows
  pub outer_lem :
      (body : Document → List Document → List Document)
      (loop : List Document → List Document → List Document) (rows : Document → List Document)
      → ((out : List Document) → loop [] out ≡ out)
      → ((d : Document) (ds out : List Document) → loop (d ∷ ds) out ≡ loop ds (body d out))
      → ((d : Document) (out : List Document) → body d out ≡ out ++ rows d)
      → (ds out : List Document) → loop ds out ≡ out ++ flat_map rows ds
  outer_lem body loop rows e f g [] out = e out ∙ sym (append-nil out)
  outer_lem body loop rows e f g (d ∷ ds) out =
      f d ds out
      ∙ ap (loop ds) (g d out)
      ∙ outer_lem body loop rows e f g ds (out ++ rows d)
      ∙ append_assoc out (rows d) (flat_map rows ds)

  visit_loop_lem :
      (test : Document → Bool) (row : Document → Document) (ds : List Document) (visited : Bool)
      (out : List Document)
      → Join.visit_loop D M expressions_ test row ds visited out
        ≡ (visited || any test ds, out ++ map row (filter test ds))
  visit_loop_lem test row [] visited out =
      ap₂ (λ a b. (a, b)) (sym (or_false visited)) (sym (append-nil out))
  visit_loop_lem test row (d ∷ ds) visited out =
      visit_loop_lem test row ds (if test d then true else visited)
        (if test d then out ++ (row d ∷ []) else out)
      ∙ ap₂ (λ a b. (a, b)) (now (test d) visited (any test ds))
          (add_kept (test d) row out (filter test ds) d)

  -- the row of nulls, where nothing was visited
  pub append_unless_lem :
      (test : Document → Bool) (row : Document → Document) (pad : Document) (ds out : List Document)
      → Join.append_unless D M expressions_ (any test ds, out ++ map row (filter test ds)) pad
        ≡ out ++ or_one (map row (filter test ds)) pad
  append_unless_lem test row pad [] out = ap (λ r. r ++ (pad ∷ [])) (append-nil out)
  append_unless_lem test row pad (d ∷ ds) out = at (test d) (append_unless_lem test row pad ds out)
    where
      at :
          (b : Bool)
          → Join.append_unless D M expressions_ (any test ds, out ++ map row (filter test ds)) pad
            ≡ out ++ or_one (map row (filter test ds)) pad
          → Join.append_unless D M expressions_
              (b || any test ds, out ++ map row (if b then d ∷ filter test ds else filter test ds))
              pad
            ≡ out ++ or_one (map row (if b then d ∷ filter test ds else filter test ds)) pad
      at true h = refl
      at false h = h

  pub visit_rows :
      (test : Document → Bool) (row : Document → Document) (pad : Document) (ds out : List Document)
      → Join.append_unless D M expressions_
          (Join.visit_loop D M expressions_ test row ds false out)
          pad
        ≡ out ++ or_one (map row (filter test ds)) pad
  visit_rows test row pad ds out =
      ap (λ v. Join.append_unless D M expressions_ v pad) (visit_loop_lem test row ds false out)
      ∙ append_unless_lem test row pad ds out
