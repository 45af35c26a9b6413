-- ===== src/Operators/Join/Tests.antt =====
-- Joins of documents that are lists of fields, a field without a value being a null.
use rocket_joe.Base.{ℕ, ◌≡◌, refl, true, false, Option, none, some, List, [], ◌∷◌, ◌++◌, map, ◌==◌}
use rocket_joe.Base.Maps.{find_key}
use rocket_joe.Document.{Documents, compare_document}
use rocket_joe.Operators.People.{compare_ages}
use rocket_joe.Operators.Join.{JoinType, Merging, on_execute_impl}
use rocket_joe.Operators.Join.Rows.{joined}
use rocket_joe.Operators.Join.Full.{on_execute_impl-joined}

abbrev Fields : Type 0
Fields = List (ℕ × Option ℕ)

abbrev fielded : Documents
fielded = record {
  Document = Fields;
  Node = Option ℕ;
  Element = ℕ;
  Key = ℕ;
  get_document_id = λ d. 0;
  is_valid = λ d. true;
  find_node_const = λ d k. find_key ◌==◌ k d;
  get_mut = λ n. n;
  compare_element = compare_ages;
  is_string = λ d k. false;
  regex_match = λ d k v. false;
}

abbrev merging : Merging fielded
merging = record {
  merge = λ l r. l ++ r;
  make_document = [];
  fields = λ d. map (λ f. f.0) d;
  set_null = λ d k. d ++ ((k, none) ∷ []);
}

-- the left documents have the field 1, the right ones the field 2
abbrev lefts : List Fields
lefts = ((1, some 5) ∷ []) ∷ ((1, some 6) ∷ []) ∷ []

abbrev rights : List Fields
rights = ((2, some 6) ∷ []) ∷ ((2, some 7) ∷ []) ∷ []

on_execute_impl-joined_example :
    on_execute_impl fielded merging
      ((1, 2) ∷ [])
      JoinType.full
      (some (some lefts))
      (some (some rights))
    ≡ some (joined fielded merging ((1, 2) ∷ []) JoinType.full lefts rights)
on_execute_impl-joined_example =
    on_execute_impl-joined fielded merging ((1, 2) ∷ []) JoinType.full lefts rights

full_join :
    on_execute_impl fielded merging
      ((1, 2) ∷ [])
      JoinType.full
      (some (some lefts))
      (some (some rights))
    ≡ some (
        ((1, some 5) ∷ (2, none) ∷ [])
        ∷ ((1, some 6) ∷ (2, some 6) ∷ [])
        ∷ ((1, none) ∷ (2, some 7) ∷ [])
        ∷ [])
unfolding on_execute_impl compare_document
full_join = refl
