-- ===== src/Cursor.antt =====
-- components/cursor/cursor.cpp: the result of a query, read document by document. The names of the
-- collections of the sub-cursors and the error are data that is only kept and given back.
pub mod Reads
mod Tests
use rocket_joe.Base.{
  ℕ, zero, suc, ◌+◌, ◌-◌, ◌^◌, Bool, true, false, Option, none, some, List, [], ◌∷◌, ◌++◌, length,
  get_elem?, ltb, if◌then◌else◌,
}
use rocket_joe.Base.Int.{ℤ, pos, negsuc, ltb_ℤ}

-- `++` and `+ 1` of an `int32_t`, which wraps behind 2^31 - 1
abbrev pub succ_ℤ : ℤ → ℤ
succ_ℤ (pos n) = if ltb (n + 1) (2 ^ 31) then pos (n + 1) else negsuc (2 ^ 31 - 1)
succ_ℤ (negsuc zero) = pos 0
succ_ℤ (negsuc (suc n)) = negsuc n

-- `static_cast<std::size_t>`
abbrev pub to_size_t : ℤ → ℕ
to_size_t (pos n) = n
to_size_t (negsuc n) = 2 ^ 64 - suc n

abbrev pub start_index : ℤ
start_index = negsuc 0

-- `cursor_t` over the data of its sub-cursors; `none` is a null pointer
pub record Cursor (A : Type 0) : Type 0 where
  pub size_ : ℕ
  pub current_index_ : ℤ
  pub sub_cursor_ : List (List A)
  pub sorted_ : List A

module _ {A : Type 0} where
  abbrev pub make_cursor : Cursor A
  make_cursor = record { size_ = 0; current_index_ = start_index; sub_cursor_ = []; sorted_ = [] }

  -- `sub_cursor_t::append`
  abbrev pub append : List A → A → List A
  append data_ document = data_ ++ (document ∷ [])

  unfoldable pub push : Cursor A → List A → Cursor A
  push c sub = record c { size_ = c.size_ + length sub; sub_cursor_ = c.sub_cursor_ ++ (sub ∷ []) }

  unfoldable pub has_next : Cursor A → Bool
  has_next c = ltb (to_size_t (succ_ℤ c.current_index_)) c.size_

  -- the loop over the sub-cursors
  unfoldable pub find_in : List (List A) → ℕ → Option A
  find_in [] i = none
  find_in (sub ∷ subs) i =
      let rest = find_in subs (i - length sub) in
      if ltb i (length sub) then get_elem? sub i else rest

  unfoldable pub get_unsorted : Cursor A → ℕ → Option A
  unfolding find_in
  get_unsorted c index = if ltb index c.size_ then find_in c.sub_cursor_ index else none

  -- `sorted_.at(index)` throws out of range: the outer `none`.
  abbrev pub at : List A → ℕ → Option (Option A)
  at [] i = none
  at (x ∷ xs) zero = some (some x)
  at (x ∷ xs) (suc i) = at xs i

  unfoldable pub get_sorted : Cursor A → ℕ → Option (Option A)
  get_sorted c index = if ltb index c.size_ then at c.sorted_ index else some none

  abbrev pub is_empty : List A → Bool
  is_empty [] = true
  is_empty (x ∷ xs) = false

  unfoldable pub get_at : Cursor A → ℕ → Option (Option A)
  unfolding get_unsorted get_sorted
  get_at c index = if is_empty c.sorted_ then some (get_unsorted c index) else get_sorted c index

  unfoldable pub get : Cursor A → Option (Option A)
  unfolding get_at
  get c = get_at c (to_size_t (if ltb_ℤ c.current_index_ (pos 0) then pos 0 else c.current_index_))

  -- the cursor afterwards, and the document
  unfoldable pub next : Cursor A → Cursor A × Option (Option A)
  unfolding get_at
  next c = (
    record c { current_index_ = succ_ℤ c.current_index_ },
    get_at c (to_size_t (succ_ℤ c.current_index_)),
  )

  abbrev pub all_documents : List (List A) → List A
  all_documents [] = []
  all_documents (sub ∷ subs) = sub ++ all_documents subs

  unfoldable pub create_list_by_sort : Cursor A → Cursor A
  create_list_by_sort c =
      if is_empty c.sorted_ then record c { sorted_ = all_documents c.sub_cursor_ } else c

  -- `std_sort` stands for `std::sort` with the caller's order.
  unfoldable pub sort : (List A → List A) → Cursor A → Cursor A
  unfolding create_list_by_sort
  sort std_sort c = record (create_list_by_sort c) {
    sorted_ = std_sort (create_list_by_sort c).sorted_;
    current_index_ = start_index;
  }
