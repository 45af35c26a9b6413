-- ===== src/Index/Search.antt =====
-- The loop of an index scan: the ranges that it reads, and the limit.
use rocket_joe.Base.{
  ◌+◌, ◌≡◌, refl, sym, ap, ◌∙◌, Bool, true, false, List, [], ◌∷◌, ◌++◌, map, arith, length,
  length-append, if◌then◌else◌, Bool-cases, inl, inr, append_assoc, append-nil,
}
use mathlib.Core.Path.{subst}
use rocket_joe.Limit.{Limit, check}
use rocket_joe.Limit.Bounded.{
  bounded, bounded-append_of_full, bounded-of_room, bounded-append_one, bounded-nil,
}
use rocket_joe.Document.{Documents, Value}
use rocket_joe.Expression.{CompareType}
use rocket_joe.Index.{Fields, Tree, Index, IndexValue, Range, range_elements}
use rocket_joe.Index.Scan.{
  Search, append_checked, append_range, search_ranges, search_range_by_index, search_by_index,
}

module _ {K Doc : Type 0} where
  abbrev pub doc_of : K × IndexValue Doc → Doc
  doc_of e = e.1.doc

  abbrev pub docs_of : List (K × IndexValue Doc) → List Doc
  docs_of = map doc_of

module _ {Doc : Type 0} where
  -- `full` is what the ranges gave so far, the limit left aside.
  pub record IsSearch (l : Limit) (full : List Doc) (s : Search Doc) : Type 0 where
    pub docs : s.docs ≡ bounded l full
    pub count : s.count ≡ length s.docs
    pub returned : s.returned ≡ true → check l (length (bounded l full)) ≡ false

  IsSearch-append_of_full :
      (l : Limit) (full more : List Doc) (s : Search Doc)
      → IsSearch l full s
      → check l (length (bounded l full)) ≡ false
      → IsSearch l (full ++ more) s
  IsSearch-append_of_full l full more s h c = record {
    docs = h.docs ∙ sym (bounded-append_of_full l full more c);
    count = h.count;
    returned = λ r. ap (λ ds. check l (length ds)) (bounded-append_of_full l full more c) ∙ c;
  }

  IsSearch-append_of_room :
      (l : Limit) (full : List Doc) (d : Doc) (s : Search Doc)
      → s.returned ≡ false
      → IsSearch l full s
      → check l (length (bounded l full)) ≡ true
      → IsSearch l
          (full ++ (d ∷ []))
          (record { docs = s.docs ++ (d ∷ []); count = s.count + 1; returned = s.returned })
  IsSearch-append_of_room l full d s r h c =
      let all = bounded-of_room l full c in
      record {
        docs =
            ap (λ ds. ds ++ (d ∷ [])) (h.docs ∙ all)
            ∙ sym (bounded-append_one l full d (ap (λ ds. check l (length ds)) (sym all) ∙ c));
        count = ground (arith, h.count, length-append s.docs (d ∷ []));
        returned = λ t. ground (arith, r);
      }

  check_count :
      (l : Limit) (full : List Doc) (s : Search Doc)
      → IsSearch l full s
      → check l (length (bounded l full)) ≡ check l s.count
  check_count l full s h = ap (check l) (sym (h.count ∙ ap length h.docs))

  IsSearch-append_checked :
      (l : Limit) (full : List Doc) (v : IndexValue Doc) (s : Search Doc)
      → s.returned ≡ false
      → IsSearch l full s
      → IsSearch l (full ++ (v.doc ∷ [])) (append_checked l v s)
  IsSearch-append_checked l full v s r h = elim (Bool-cases (check l s.count)) [
    | inl c ↦ rw c (IsSearch-append_of_room l full v.doc s r h (check_count l full s h ∙ c))
    | inr c ↦
        let more = IsSearch-append_of_full l full (v.doc ∷ []) s h (check_count l full s h ∙ c) in
        rw c (record {
          docs = more.docs;
          count = more.count;
          returned = λ t.
              ap (λ ds. check l (length ds))
                (bounded-append_of_full l full (v.doc ∷ []) (check_count l full s h ∙ c))
              ∙ check_count l full s h
              ∙ c;
        })
  ]

  pub IsSearch-append_range :
      {K : Type 0} (l : Limit) (full : List Doc) (es : List (K × IndexValue Doc)) (s : Search Doc)
      → IsSearch l full s
      → IsSearch l (full ++ docs_of es) (append_range l es s)
  unfolding append_range
  IsSearch-append_range l full [] s h = rw append-nil h
  IsSearch-append_range l full (e ∷ es) s h = at_flag s.returned refl λ r.
      IsSearch-append_range l (full ++ (doc_of e ∷ [])) es (append_checked l e.1 s)
        (IsSearch-append_checked l full e.1 s r h)
    where
      at_flag :
          (b : Bool)
          → s.returned ≡ b
          → (s.returned ≡ false
              → IsSearch l
                  ((full ++ (doc_of e ∷ [])) ++ docs_of es)
                  (append_range l es (append_checked l e.1 s)))
          → IsSearch l
              (full ++ docs_of (e ∷ es))
              (if b then s else append_range l es (append_checked l e.1 s))
      at_flag true r rest = IsSearch-append_of_full l full (docs_of (e ∷ es)) s h (h.returned r)
      at_flag false r rest =
          subst (λ f. IsSearch l f (append_range l es (append_checked l e.1 s)))
            (append_assoc full (doc_of e ∷ []) (docs_of es)) (rest r)

-- the documents of the ranges, one behind the other
module _ (D : Documents) (F : Fields D) (M : Tree D F) where
  open D use {Document}

  abbrev pub ranged : Index D F M → List (Range D F M) → List Document
  ranged index [] = []
  ranged index (r ∷ rs) = docs_of (range_elements D F M index r) ++ ranged index rs

  IsSearch-search_ranges :
      (l : Limit) (index : Index D F M) (rs : List (Range D F M)) (full : List Document)
      (s : Search Document)
      → IsSearch l full s
      → IsSearch l (full ++ ranged index rs) (search_ranges D F M l index rs s)
  unfolding search_ranges
  IsSearch-search_ranges l index [] full s h = rw append-nil h
  IsSearch-search_ranges l index (r ∷ rs) full s h =
      let es = range_elements D F M index r in
      subst (λ f. IsSearch l f (search_ranges D F M l index (r ∷ rs) s))
        (append_assoc full (docs_of es) (ranged index rs))
        (IsSearch-search_ranges l index rs (full ++ docs_of es) (append_range l es s)
          (IsSearch-append_range l full es s h))

  -- The ranges are read in order, as far as the limit lets.
  pub search_by_index-ranged :
      (index : Index D F M) (t : CompareType) (v : Value D) (l : Limit)
      → search_by_index D F M index t v l
        ≡ bounded l (ranged index (search_range_by_index D F M index t v))
  unfolding search_by_index
  search_by_index-ranged index t v l =
      (IsSearch-search_ranges l index (search_range_by_index D F M index t v) []
        (record { docs = []; count = 0; returned = false })
        (record { docs = sym (bounded-nil l); count = refl; returned = λ r. ground arith })).docs
