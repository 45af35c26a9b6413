-- ===== src/Cursor/Tests.antt =====
-- A cursor over two sub-cursors of numbers.
use rocket_joe.Base.{
  ℕ, ◌≡◌, refl, true, false, some, List, [], ◌∷◌, ◌++◌, get_elem?, length, ltb, if◌then◌else◌,
  arith,
}
use rocket_joe.Cursor.{Cursor, start_index, push, get_at, sort, all_documents}
use rocket_joe.Cursor.Reads.{
  IsSized, contents, get_at-contents, contents-push, read_all, read_all-contents, read_all-sort,
}

abbrev two_subs : Cursor ℕ
two_subs = record {
  size_ = 3;
  current_index_ = start_index;
  sub_cursor_ = (7 ∷ 5 ∷ []) ∷ (9 ∷ []) ∷ [];
  sorted_ = [];
}

pub two_subs-IsSized : IsSized two_subs
two_subs-IsSized = record { size_ = refl; sorted_ = λ f. absurd (no_empty f) }
  where
    no_empty : true ≡ false → ⊥
    no_empty f = cc

get_at-contents_example : get_at two_subs 2 ≡ some (get_elem? (contents two_subs) 2)
get_at-contents_example = get_at-contents two_subs 2 two_subs-IsSized

contents-push_example :
    IsSized (push two_subs (8 ∷ []))
    × (contents (push two_subs (8 ∷ [])) ≡ contents two_subs ++ (8 ∷ []))
contents-push_example = contents-push two_subs (8 ∷ []) two_subs-IsSized refl

read_all-contents_example : read_all 4 two_subs ≡ some (contents two_subs)
read_all-contents_example = read_all-contents two_subs two_subs-IsSized (omega arith) refl

-- insertion sort
abbrev put_in : ℕ → List ℕ → List ℕ
put_in x [] = x ∷ []
put_in x (y ∷ ys) = if ltb y x then y ∷ put_in x ys else x ∷ y ∷ ys

abbrev in_order : List ℕ → List ℕ
in_order [] = []
in_order (x ∷ xs) = put_in x (in_order xs)

length-put_in : (x : ℕ) (ys : List ℕ) → length (put_in x ys) ≡ length (x ∷ ys)
length-put_in x [] = refl
length-put_in x (y ∷ ys) = ground (arith, length-put_in x ys)

length-in_order : (xs : List ℕ) → length (in_order xs) ≡ length xs
length-in_order [] = refl
length-in_order (x ∷ xs) = omega (arith, length-put_in x (in_order xs), length-in_order xs)

read_all-sort_example :
    read_all 4 (sort in_order two_subs) ≡ some (in_order (all_documents two_subs.sub_cursor_))
read_all-sort_example =
    read_all-sort in_order two_subs length-in_order two_subs-IsSized (omega arith) refl
