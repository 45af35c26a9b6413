-- ===== src/Operators/Scan.antt =====
-- operators/scan/full_scan.cpp, transfer_scan.cpp and primary_key_scan.cpp: documents read from the
-- storage of a collection.
use rocket_joe.Base.{
  ℕ, ◌≡◌, refl, ◌∙◌, Bool, true, none, some, List, [], ◌∷◌, ◌++◌, map, filter, arith, ap,
  if◌then◌else◌,
}
use rocket_joe.Limit.{Limit, check}
use rocket_joe.Limit.Bounded.{bounded}
use rocket_joe.Storage.{BtreeMap}
use rocket_joe.Operators.{Output}
use rocket_joe.Operators.Collect.{start, collect, selected, docs-collect, if_some_cong}

abbrev pub document_of : {Doc : Type 0} → ℕ × Doc → Doc
document_of e = e.1

abbrev pub passes : {Doc : Type 0} → (Doc → Bool) → List Doc → ℕ × Doc → Bool
passes predicate out e = predicate e.1

abbrev pub all_of : {Doc : Type 0} → List Doc → ℕ × Doc → Bool
all_of out e = true

module _ {Doc : Type 0} (S : BtreeMap Doc) where
  open S use {Map, elements, find}

  unfoldable pub full_scan : (Doc → Bool) → Limit → Map → Output Doc
  full_scan predicate limit storage =
      if check limit 0
      then some (collect document_of (passes predicate) limit (elements storage) start).docs
      else none

  unfoldable pub transfer_scan : Limit → Map → Output Doc
  transfer_scan limit storage =
      if check limit 0
      then some (collect document_of all_of limit (elements storage) start).docs
      else none

  -- `ids_`, and what is found of them
  primary_key_loop : List ℕ → Map → List Doc → List Doc
  primary_key_loop [] storage out = out
  primary_key_loop (id ∷ ids) storage out =
      primary_key_loop ids storage
        (elim (find storage id) [ none ↦ out | some doc ↦ out ++ (doc ∷ []) ])

  unfoldable pub primary_key_scan : List ℕ → Map → Output Doc
  unfolding primary_key_loop
  primary_key_scan ids storage = some (primary_key_loop ids storage [])

module _ {Doc : Type 0} where
  abbrev pub values : List (ℕ × Doc) → List Doc
  values = map document_of

  selected-passes :
      (predicate : Doc → Bool) (out : List Doc) (es : List (ℕ × Doc))
      → selected document_of (passes predicate) out es ≡ filter predicate (values es)
  selected-passes predicate out [] = refl
  selected-passes predicate out (e ∷ es) =
      ground
        (arith, selected-passes predicate out es, selected-passes predicate (out ++ (e.1 ∷ [])) es)

  selected-all_of :
      (out : List Doc) (es : List (ℕ × Doc)) → selected document_of all_of out es ≡ values es
  selected-all_of out [] = refl
  selected-all_of out (e ∷ es) = ap (λ r. e.1 ∷ r) (selected-all_of (out ++ (e.1 ∷ [])) es)

module _ {Doc : Type 0} (S : BtreeMap Doc) where
  open S use {Map, elements, find}

  -- A scan stops with a null output where the limit forbids the first document. Else it returns
  -- the documents of the storage that pass the predicate, in the order of the storage, as many as
  -- the limit lets by.
  pub full_scan_lem :
      (predicate : Doc → Bool) (limit : Limit) (storage : Map)
      → full_scan S predicate limit storage ≡ (
          if check limit 0
          then some (bounded limit (filter predicate (values (elements storage))))
          else none)
  unfolding full_scan
  full_scan_lem predicate limit storage = if_some_cong (check limit 0) λ h.
      docs-collect document_of (passes predicate) limit (elements storage) h
      ∙ ap (λ r. bounded limit r) (selected-passes predicate [] (elements storage))

  -- A transfer scan returns the whole storage in order, as far as the limit lets.
  pub transfer_scan_lem :
      (limit : Limit) (storage : Map)
      → transfer_scan S limit storage
        ≡ (if check limit 0 then some (bounded limit (values (elements storage))) else none)
  unfolding transfer_scan
  transfer_scan_lem limit storage = if_some_cong (check limit 0) λ h.
      docs-collect document_of all_of limit (elements storage) h
      ∙ ap (λ r. bounded limit r) (selected-all_of [] (elements storage))
