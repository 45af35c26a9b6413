-- ===== src/Cursor/Reads.antt =====
-- What a cursor gives out: the documents of its sub-cursors in order, or sorted.
use rocket_joe.Base.{
  ℕ, zero, suc, ◌+◌, ◌-◌, ◌^◌, lt→ltb, ◌≤◌, ◌<◌, ◌≡◌, refl, sym, ap, ◌∙◌, true, false, Option, none,
  some, List, [], ◌∷◌, ◌++◌, arith, length, length-append, get_elem?, drop, drop-of_le, ltb,
  if◌then◌else◌, append-nil, append_assoc,
}
use native.Mathlib.Decide.{dec_lt}
use rocket_joe.Base.Int.{ℤ, pos}
use rocket_joe.Cursor.{
  Cursor, succ_ℤ, start_index, push, has_next, find_in, get_unsorted, at, get_sorted, is_empty,
  get_at, next, all_documents, create_list_by_sort, sort,
}

-- The index of a cursor that has given out `k` documents.
abbrev pub index_after : ℕ → ℤ
index_after zero = start_index
index_after (suc k) = pos k

succ-index_after : (k : ℕ) → k < 2 ^ 31 → succ_ℤ (index_after k) ≡ index_after (suc k)
succ-index_after zero h = refl
succ-index_after (suc k) h =
    let next : k + 1 ≡ suc k = omega arith in rw (next, lt→ltb (suc k) (2 ^ 31) h) refl

full_of_nil : true ≡ false → ⊥
full_of_nil f = cc

module _ {A : Type 0} where
  -- `size_` counts the documents, and the sorted list is not filled or has all of them.
  pub record IsSized (c : Cursor A) : Type 0 where
    pub size_ : c.size_ ≡ length (all_documents c.sub_cursor_)
    pub sorted_ : is_empty c.sorted_ ≡ false → length c.sorted_ ≡ c.size_

  abbrev pub contents : Cursor A → List A
  contents c = if is_empty c.sorted_ then all_documents c.sub_cursor_ else c.sorted_

  get_elem?-append :
      (xs ys : List A) (i : ℕ)
      → get_elem? (xs ++ ys) i
        ≡ (if ltb i (length xs) then get_elem? xs i else get_elem? ys (i - length xs))
  get_elem?-append [] ys i = ground arith
  get_elem?-append (x ∷ xs) ys zero = ground arith
  get_elem?-append (x ∷ xs) ys (suc i) = ground (arith, get_elem?-append xs ys i)

  get_elem?-of_le : (xs : List A) (i : ℕ) → length xs ≤ i → get_elem? xs i ≡ none
  get_elem?-of_le [] i h = refl
  get_elem?-of_le (x ∷ xs) zero h = absurd (omega (arith, h))
  get_elem?-of_le (x ∷ xs) (suc i) h = get_elem?-of_le xs i (omega (arith, h))

  find_in-eq-get_elem? :
      (subs : List (List A)) (i : ℕ) → find_in subs i ≡ get_elem? (all_documents subs) i
  unfolding find_in
  find_in-eq-get_elem? [] i = refl
  find_in-eq-get_elem? (sub ∷ subs) i = ground (
    arith,
    find_in-eq-get_elem? subs (i - length sub),
    get_elem?-append sub (all_documents subs) i,
  )

  at-get_elem? : (xs : List A) (i : ℕ) → i < length xs → at xs i ≡ some (get_elem? xs i)
  at-get_elem? [] i h = absurd (omega (arith, h))
  at-get_elem? (x ∷ xs) zero h = refl
  at-get_elem? (x ∷ xs) (suc i) h = at-get_elem? xs i (omega (arith, h))

  -- In a cursor whose size is right, the document at an index is that of the documents of the
  -- sub-cursors in order, or of the sorted list once there is one, and null behind the last: `at`
  -- never throws.
  pub get_at-contents :
      (c : Cursor A) (i : ℕ) → IsSized c → get_at c i ≡ some (get_elem? (contents c) i)
  unfolding get_at get_unsorted get_sorted
  get_at-contents c i h = ground (
    arith,
    h.size_,
    h.sorted_,
    find_in-eq-get_elem? c.sub_cursor_ i,
    get_elem?-of_le (all_documents c.sub_cursor_) i,
    get_elem?-of_le c.sorted_ i,
    at-get_elem? c.sorted_ i,
  )

  all_documents-append :
      (subs : List (List A)) (sub : List A)
      → all_documents (subs ++ (sub ∷ [])) ≡ all_documents subs ++ sub
  all_documents-append [] sub = append-nil sub
  all_documents-append (s ∷ subs) sub =
      ap (λ r. s ++ r) (all_documents-append subs sub)
      ∙ sym (append_assoc s (all_documents subs) sub)

  -- Pushing a sub-cursor on a cursor that is not sorted puts its documents behind the others and
  -- keeps the size right.
  pub contents-push :
      (c : Cursor A) (sub : List A)
      → IsSized c
      → c.sorted_ ≡ []
      → IsSized (push c sub) × (contents (push c sub) ≡ contents c ++ sub)
  unfolding push
  contents-push c sub h e = (
    record {
      size_ =
          ap (λ n. n + length sub) h.size_
          ∙ sym (length-append (all_documents c.sub_cursor_) sub)
          ∙ ap length (sym (all_documents-append c.sub_cursor_ sub));
      sorted_ = λ f. absurd (full_of_nil (sym (ap is_empty e) ∙ f));
    },
    rw e (all_documents-append c.sub_cursor_ sub),
  )

  -- What `while (has_next()) next()` goes through; none where a document is null or `at` throws.
  abbrev pub put_first : Option (Option A) → Option (List A) → Option (List A)
  put_first (some (some d)) (some ds) = some (d ∷ ds)
  put_first _ _ = none

  unfoldable pub read_all : ℕ → Cursor A → Option (List A)
  unfolding has_next next
  read_all zero c = none
  read_all (suc fuel) c =
      let rest = read_all fuel (next c).0 in
      if has_next c then put_first (next c).1 rest else some []

  split_at :
      (xs : List A) (k : ℕ)
      → k < length xs
      → (x : A) × (get_elem? xs k ≡ some x) × (drop k xs ≡ x ∷ drop (suc k) xs)
  split_at [] k h = absurd (omega (arith, h))
  split_at (x ∷ xs) zero h = (x, refl, refl)
  split_at (x ∷ xs) (suc k) h = split_at xs k (omega (arith, h))

  length-contents : (c : Cursor A) → IsSized c → length (contents c) ≡ c.size_
  length-contents c h = ground (arith, h.size_, h.sorted_)

  moved-IsSized : (c : Cursor A) (z : ℤ) → IsSized c → IsSized (record c { current_index_ = z })
  moved-IsSized c z h = record { size_ = h.size_; sorted_ = h.sorted_ }

  read_all-drop :
      (fuel k : ℕ) (c : Cursor A)
      → IsSized c
      → c.current_index_ ≡ index_after k
      → c.size_ < 2 ^ 31
      → k ≤ c.size_
      → c.size_ < fuel + k
      → read_all fuel c ≡ some (drop k (contents c))
  unfolding read_all has_next next
  read_all-drop zero k c h e small le f = absurd (omega arith)
  read_all-drop (suc fuel) k c h e small le f =
      let index : succ_ℤ c.current_index_ ≡ pos k =
        ap succ_ℤ e ∙ succ-index_after k (omega (arith, small, le)) in
      rw index (elim (dec_lt k c.size_) [
        | yes lt ↦
            let (x, there, split) = split_at (contents c) k (omega (arith, length-contents c h)) in
            ground (
              arith,
              lt,
              get_at-contents c k h,
              there,
              split,
              read_all-drop fuel (suc k) (record c { current_index_ = pos k })
                  (moved-IsSized c (pos k) h) refl small (omega (arith, lt)) (omega arith),
            )
        | no ge ↦ ground (arith, ge, drop-of_le k (contents c) (omega (arith, length-contents c h)))
      ])

  -- From the start, in a cursor of fewer than 2^31 documents whose size is right, a loop of
  -- `has_next` and `next` gives out every document once, in the order of
  -- the sub-cursors, or in that of the sorted list once there is one, and ends.
  pub read_all-contents :
      (c : Cursor A)
      → IsSized c
      → c.size_ < 2 ^ 31
      → c.current_index_ ≡ start_index
      → read_all (suc c.size_) c ≡ some (contents c)
  read_all-contents c h small e =
      read_all-drop (suc c.size_) 0 c h e small (omega arith) (omega arith)

  sorted_or_all : (xs ys : List A) → length ys ≡ length xs → (if is_empty ys then xs else ys) ≡ ys
  sorted_or_all [] [] h = refl
  sorted_or_all (x ∷ xs) [] h = absurd (omega (arith, h))
  sorted_or_all xs (y ∷ ys) h = refl

  -- Sorting a cursor of fewer than 2^31 documents whose size is right for the first time puts its documents in the order of the sort and goes back
  -- to the start, where the sort loses no document.
  pub read_all-sort :
      (std_sort : List A → List A) (c : Cursor A)
      → ((xs : List A) → length (std_sort xs) ≡ length xs)
      → IsSized c
      → c.size_ < 2 ^ 31
      → c.sorted_ ≡ []
      → read_all (suc c.size_) (sort std_sort c) ≡ some (std_sort (all_documents c.sub_cursor_))
  unfolding sort create_list_by_sort
  read_all-sort std_sort c keeps h small e = rw e (
      read_all-contents
        (record {
          size_ = c.size_;
          current_index_ = start_index;
          sub_cursor_ = c.sub_cursor_;
          sorted_ = std_sort (all_documents c.sub_cursor_);
        })
        (record {
          size_ = h.size_;
          sorted_ = λ f. keeps (all_documents c.sub_cursor_) ∙ sym h.size_;
        })
        small refl
      ∙ ap some (
          sorted_or_all (all_documents c.sub_cursor_) (std_sort (all_documents c.sub_cursor_))
            (keeps (all_documents c.sub_cursor_))))
