-- ===== src/Operators/Merge.antt =====
-- operators/merge/operator_and.cpp, operator_or.cpp and operator_not.cpp: outputs joined by id.
-- `left` and `right` are the outputs of the children; `none` stands for a child that is null.
use rocket_joe.Base.{
  ℕ, ◌≡◌, refl, ◌∙◌, ap, Bool, true, not, Option, none, some, List, [], ◌∷◌, ◌++◌, filter, any,
  arith, ◌==◌, if◌then◌else◌,
}
use mathlib.Core.Path.{subst}
use rocket_joe.Limit.{Limit, check}
use rocket_joe.Limit.Bounded.{bounded}
use rocket_joe.Storage.{BtreeMap}
use rocket_joe.Operators.{Output}
use rocket_joe.Operators.Scan.{document_of, values}
use rocket_joe.Operators.Collect.{
  start, collect, selected, IsAt, IsAt-start, IsAt-collect, docs-collect, if_some_cong,
}

-- `left_ && left_->output()`
abbrev pub output_of : {Doc : Type 0} → Option (Output Doc) → Output Doc
output_of none = none
output_of (some output) = output

abbrev pub this_document : {Doc : Type 0} → Doc → Doc
this_document d = d

abbrev pub always : {Doc : Type 0} → List Doc → Doc → Bool
always out d = true

module _ {Doc : Type 0} (id : Doc → ℕ) where
  -- `std::find_if` by id, compared with the end
  abbrev pub has_id : ℕ → List Doc → Bool
  has_id k docs = any (λ d. id d == k) docs

  abbrev pub in_right : List Doc → List Doc → Doc → Bool
  in_right right out d = has_id (id d) right

  abbrev pub is_new : List Doc → Doc → Bool
  is_new out d = not (has_id (id d) out)

  abbrev pub not_in_left : List Doc → List Doc → ℕ × Doc → Bool
  not_in_left left out e = not (has_id e.0 left)

  and_outputs : Limit → Output Doc → Output Doc → Output Doc
  and_outputs limit (some left) (some right) =
      some (collect this_document (in_right right) limit left start).docs
  and_outputs limit _ _ = none

  unfoldable pub merge_and : Limit → Option (Output Doc) → Option (Output Doc) → Output Doc
  unfolding and_outputs
  merge_and limit left right =
      if check limit 0 then and_outputs limit (output_of left) (output_of right) else none

  -- the first loop appends every document, the second those whose id is not yet in the output
  or_outputs : Limit → Output Doc → Output Doc → Output Doc
  or_outputs limit (some left) (some right) =
      some
        (collect this_document is_new limit right
          (collect this_document always limit left start)).docs
  or_outputs limit _ _ = none

  unfoldable pub merge_or : Limit → Option (Output Doc) → Option (Output Doc) → Output Doc
  unfolding or_outputs
  merge_or limit left right =
      if check limit 0 then or_outputs limit (output_of left) (output_of right) else none

module _ {Doc : Type 0} (id : Doc → ℕ) (S : BtreeMap Doc) where
  not_outputs : Limit → Output Doc → S.Map → Output Doc
  not_outputs limit (some left) storage =
      some (collect document_of (not_in_left id left) limit (S.elements storage) start).docs
  not_outputs limit none storage = none

  unfoldable pub merge_not : Limit → Option (Output Doc) → S.Map → Output Doc
  unfolding not_outputs
  merge_not limit left storage =
      if check limit 0 then not_outputs limit (output_of left) storage else none

module _ {Doc : Type 0} (id : Doc → ℕ) where
  selected-in_right :
      (right out left : List Doc)
      → selected this_document (in_right id right) out left
        ≡ filter (λ d. has_id id (id d) right) left
  selected-in_right right out [] = refl
  selected-in_right right out (d ∷ left) =
      ground
        (arith, selected-in_right right out left, selected-in_right right (out ++ (d ∷ [])) left)

  selected-always : (out left : List Doc) → selected this_document always out left ≡ left
  selected-always out [] = refl
  selected-always out (d ∷ left) = ap (λ r. d ∷ r) (selected-always (out ++ (d ∷ [])) left)

  selected-not_in_left :
      (left out : List Doc) (es : List (ℕ × Doc))
      → selected document_of (not_in_left id left) out es
        ≡ values (filter (λ e. not (has_id id e.0 left)) es)
  selected-not_in_left left out [] = refl
  selected-not_in_left left out (e ∷ es) =
      ground
        (arith, selected-not_in_left left out es, selected-not_in_left left (out ++ (e.1 ∷ [])) es)

  -- The documents of `right` whose id is neither in `out` nor earlier in `right`.
  abbrev pub added : List Doc → List Doc → List Doc
  added out [] = []
  added out (d ∷ ds) =
      if any (λ e. id e == id d) out then added out ds else d ∷ added (out ++ (d ∷ [])) ds

  selected-is_new :
      (right out : List Doc) → selected this_document (is_new id) out right ≡ added out right
  selected-is_new [] out = refl
  selected-is_new (d ∷ right) out =
      ground (arith, selected-is_new right out, selected-is_new right (out ++ (d ∷ [])))

  -- The intersection returns the documents of the left output whose id occurs in the right one, in
  -- their order, as many as the limit lets by; with a limit that forbids the first document its
  -- output stays null.
  pub merge_and_lem :
      (limit : Limit) (left right : List Doc)
      → merge_and id limit (some (some left)) (some (some right)) ≡ (
          if check limit 0
          then some (bounded limit (filter (λ d. has_id id (id d) right) left))
          else none)
  unfolding merge_and
  merge_and_lem limit left right = if_some_cong (check limit 0) λ h.
      docs-collect this_document (in_right id right) limit left h
      ∙ ap (λ r. bounded limit r) (selected-in_right right [] left)

  -- The union returns the whole left output and then the documents of the right one whose id has
  -- not been returned, as many as the limit lets by; its output stays null where the limit forbids
  -- the first document.
  pub merge_or_lem :
      (limit : Limit) (left right : List Doc)
      → merge_or id limit (some (some left)) (some (some right))
        ≡ (if check limit 0 then some (bounded limit (left ++ added left right)) else none)
  unfolding merge_or
  merge_or_lem limit left right = if_some_cong (check limit 0) λ h. (both_loops h).docs
    where
      first_loop :
          check limit 0 ≡ true → IsAt limit left (collect this_document always limit left start)
      first_loop h =
          rw selected-always at
            (IsAt-collect this_document always limit left [] start (IsAt-start limit h))

      both_loops :
          check limit 0 ≡ true
          → IsAt limit (left ++ added left right) (
              collect this_document
                (is_new id)
                limit
                right
                (collect this_document always limit left start))
      both_loops h =
          subst
            (λ r. IsAt limit (left ++ r) (
              collect this_document (is_new id) limit right
                (collect this_document always limit left start)))
            (selected-is_new right left)
            (IsAt-collect this_document (is_new id) limit right left _ (first_loop h))

  -- The complement returns the documents of the storage whose key is the id of no document of the
  -- left output, in the order of the storage, as many as the limit lets by; its output stays null
  -- where the limit forbids the first document.
  pub merge_not_lem :
      (S : BtreeMap Doc) (limit : Limit) (left : List Doc) (storage : S.Map)
      → merge_not id S limit (some (some left)) storage ≡ (
          if check limit 0
          then some
              (bounded limit (values (filter (λ e. not (has_id id e.0 left)) (S.elements storage))))
          else none)
  unfolding merge_not
  merge_not_lem S limit left storage = if_some_cong (check limit 0) λ h.
      docs-collect document_of (not_in_left id left) limit (S.elements storage) h
      ∙ ap (λ r. bounded limit r) (selected-not_in_left left [] (S.elements storage))
