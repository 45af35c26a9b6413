-- ===== src/Operators/Join.antt =====
-- operators/operator_join.cpp: the joins of the documents of two operators. The merge of two documents,
-- the names of the fields of one and the write of a null are parameters here, with the empty document.
pub mod Rows
pub mod Full
mod Tests
use rocket_joe.Base.{
  ℕ, zero, suc, ◌+◌, Bool, true, false, Option, none, some, List, [], ◌∷◌, ◌++◌, map, set, length,
  replicate, if◌then◌else◌,
}
use rocket_joe.Document.{Documents, compare_document}
use rocket_joe.Operators.{Output}
use rocket_joe.Operators.Predicate.{is_equals}

-- `join_type`
pub data JoinType : Type 0 where
  inner full left right cross : JoinType

-- `document_t::merge`, `make_document`, the keys of `json_trie()->as_object()`, `set(key, nullptr)`
pub record Merging (D : Documents) : Type 0 where
  pub merge : Documents.Document D → Documents.Document D → Documents.Document D
  pub make_document : Documents.Document D
  pub fields : Documents.Document D → List (Documents.Key D)
  pub set_null : Documents.Document D → Documents.Key D → Documents.Document D

-- The expressions of a join are the keys of both sides.
module _ (D : Documents) (M : Merging D)
    (expressions_ : List (Documents.Key D × Documents.Key D)) where
  open D use {Document, Key}
  open M use {merge, make_document, fields, set_null}

  abbrev check_all : List (Key × Key) → Document → Document → Bool
  check_all [] l r = true
  check_all (e ∷ es) l r =
      if is_equals (compare_document D l e.0 r e.1) then check_all es l r else false

  unfoldable pub check_expressions_ : Document → Document → Bool
  check_expressions_ l r = check_all expressions_ l r

  abbrev set_nulls : List Key → Document → Document
  set_nulls [] d = d
  set_nulls (k ∷ ks) d = set_nulls ks (set_null d k)

  -- the document of nulls for a side: with the fields of its first document
  abbrev pub empty_of : List Document → Document
  empty_of [] = make_document
  empty_of (d ∷ ds) = set_nulls (fields d) make_document

  -- the inner loop of `inner_join_`, which goes on behind `out`
  abbrev pub inner_loop : Document → List Document → List Document → List Document
  inner_loop l [] out = out
  inner_loop l (r ∷ rs) out =
      inner_loop l rs (if check_expressions_ l r then out ++ (merge l r ∷ []) else out)

  abbrev pub inner_join_ : List Document → List Document → List Document → List Document
  inner_join_ [] rs out = out
  inner_join_ (l ∷ ls) rs out = inner_join_ ls rs (inner_loop l rs out)

  abbrev pub cross_loop : Document → List Document → List Document → List Document
  cross_loop l [] out = out
  cross_loop l (r ∷ rs) out = cross_loop l rs (out ++ (merge l r ∷ []))

  abbrev pub cross_join_ : List Document → List Document → List Document → List Document
  cross_join_ [] rs out = out
  cross_join_ (l ∷ ls) rs out = cross_join_ ls rs (cross_loop l rs out)

  -- the inner loop of the left and of the right join: whether there was a match, and the output
  abbrev pub visit_loop :
      (Document → Bool)
      → (Document → Document)
      → List Document
      → Bool
      → List Document
      → Bool × List Document
  visit_loop check row [] visited out = (visited, out)
  visit_loop check row (d ∷ ds) visited out =
      visit_loop check row ds (if check d then true else visited)
        (if check d then out ++ (row d ∷ []) else out)

  -- `if (!visited)`
  abbrev pub append_unless : Bool × List Document → Document → List Document
  append_unless (visited, out) d = if visited then out else out ++ (d ∷ [])

  abbrev pub left_loop : Document → List Document → List Document → List Document → List Document
  left_loop empty_right [] rs out = out
  left_loop empty_right (l ∷ ls) rs out = left_loop empty_right ls rs (
      append_unless (visit_loop (check_expressions_ l) (merge l) rs false out)
        (merge l empty_right))

  abbrev pub outer_left_join_ : List Document → List Document → List Document → List Document
  outer_left_join_ ls rs out = left_loop (empty_of rs) ls rs out

  abbrev pub right_loop : Document → List Document → List Document → List Document → List Document
  right_loop empty_left ls [] out = out
  right_loop empty_left ls (r ∷ rs) out = right_loop empty_left ls rs (
      append_unless (visit_loop (λ l. check_expressions_ l r) (λ l. merge l r) ls false out)
        (merge empty_left r))

  abbrev pub outer_right_join_ : List Document → List Document → List Document → List Document
  outer_right_join_ ls rs out = right_loop (empty_of ls) ls rs out

  -- what the loops of the full join change
  pub record Visited : Type 0 where
    pub visited_left : Bool
    pub visited_right : List Bool
    pub output_ : List Document

  abbrev pub full_step : Document → Document → ℕ → Visited → Visited
  full_step l r right_index v =
      if check_expressions_ l r
      then record {
        visited_left = true;
        visited_right = set v.visited_right right_index true;
        output_ = v.output_ ++ (merge l r ∷ []);
      }
      else v

  abbrev pub full_inner : Document → List Document → ℕ → Visited → Visited
  full_inner l [] right_index v = v
  full_inner l (r ∷ rs) right_index v =
      full_inner l rs (right_index + 1) (full_step l r right_index v)

  abbrev pub full_outer :
      Document
      → List Document
      → List Document
      → List Bool
      → List Document
      → List Bool × List Document
  full_outer empty_right [] rs visited out = (visited, out)
  full_outer empty_right (l ∷ ls) rs visited out =
      let v =
        full_inner l rs 0
          (record { visited_left = false; visited_right = visited; output_ = out }) in
      full_outer empty_right ls rs v.visited_right
        (append_unless (v.visited_left, v.output_) (merge l empty_right))

  -- the last loop of the full join; the flags and the documents are as many
  abbrev pub full_rest : Document → List Bool → List Document → List Document → List Document
  full_rest empty_left (visited ∷ vs) (r ∷ rs) out =
      full_rest empty_left vs rs (append_unless (visited, out) (merge empty_left r))
  full_rest empty_left _ _ out = out

  abbrev pub outer_full_join_ : List Document → List Document → List Document → List Document
  outer_full_join_ ls rs out =
      let v = full_outer (empty_of rs) ls rs (replicate (length rs) false) out in
      full_rest (empty_of ls) v.0 rs v.1

  abbrev pub join_ : JoinType → List Document → List Document → List Document → List Document
  join_ JoinType.inner = inner_join_
  join_ JoinType.full = outer_full_join_
  join_ JoinType.left = outer_left_join_
  join_ JoinType.right = outer_right_join_
  join_ JoinType.cross = cross_join_

  -- the outputs of the children, `none` where there is no child
  unfoldable pub on_execute_impl :
      JoinType → Option (Output Document) → Option (Output Document) → Output Document
  unfolding check_expressions_
  on_execute_impl join_type_ (some (some ls)) (some (some rs)) = some (join_ join_type_ ls rs [])
  on_execute_impl join_type_ _ _ = none
