-- ===== src/Operators/ById.antt =====
-- Outputs read by id: `find_by_id` is the view in which the scans and the merges are specified.
use rocket_joe.Base.{
  ℕ, ◌<◌, ◌≡◌, refl, sym, ◌∙◌, ap, Bool, true, false, Option, none, some, List, [], ◌∷◌, ◌++◌,
  filter, any-append, Bool-cases, inl, inr, All, arith, ◌==◌, if◌then◌else◌, append_assoc,
  append-nil,
}
use mathlib.Core.Path.{subst}
use native.Mathlib.Decide.{ℕ_discrete}
use rocket_joe.Storage.{lookup, IsAscending}
use rocket_joe.Document.{is_some}
use rocket_joe.Operators.Scan.{values}
use rocket_joe.Operators.Merge.{has_id, added}

abbrev pub keep : {A : Type 0} → (A → Bool) → Option A → Option A
keep p none = none
keep p (some a) = if p a then some a else none

abbrev pub or_else : {A : Type 0} → Option A → Option A → Option A
or_else none o = o
or_else (some a) o = some a

-- The keys of the storage are the ids of its documents.
abbrev pub IsKeyed : {Doc : Type 0} → (Doc → ℕ) → List (ℕ × Doc) → Type 0
IsKeyed id es = All (λ e. id e.1 ≡ e.0) es

module _ {Doc : Type 0} (id : Doc → ℕ) where
  abbrev pub find_by_id : ℕ → List Doc → Option Doc
  find_by_id k [] = none
  find_by_id k (d ∷ ds) = if id d == k then some d else find_by_id k ds

  -- No two documents have one id.
  abbrev pub IsDistinct : List Doc → Type 0
  IsDistinct [] = Unit
  IsDistinct (d ∷ ds) = (has_id id (id d) ds ≡ false) × IsDistinct ds

  pub has_id-eq-is_some : (k : ℕ) (ds : List Doc) → has_id id k ds ≡ is_some (find_by_id k ds)
  has_id-eq-is_some k [] = refl
  has_id-eq-is_some k (d ∷ ds) = ground (arith, has_id-eq-is_some k ds)

  pub find_by_id-append :
      (k : ℕ) (xs ys : List Doc)
      → find_by_id k (xs ++ ys) ≡ or_else (find_by_id k xs) (find_by_id k ys)
  find_by_id-append k [] ys = refl
  find_by_id-append k (x ∷ xs) ys = ground (arith, find_by_id-append k xs ys)

  pub find_by_id-filter :
      (k : ℕ) (q : ℕ → Bool) (ds : List Doc)
      → find_by_id k (filter (λ d. q (id d)) ds) ≡ (if q k then find_by_id k ds else none)
  find_by_id-filter k q [] = ground arith
  find_by_id-filter k q (d ∷ ds) = ground (arith, find_by_id-filter k q ds)

  -- one document that is in `out` already, or is not
  or_else_seen :
      (k : ℕ) (out : List Doc) (d : Doc) (o : Option Doc)
      → has_id id (id d) out ≡ true
      → or_else (find_by_id k out) o ≡ or_else (find_by_id k out) (if id d == k then some d else o)
  or_else_seen k out d o seen = elim (ℕ_discrete (id d) k) [
    | yes e ↦ ground (arith, has_id-eq-is_some k out, ap (λ j. has_id id j out) e)
    | no ne ↦ ground (arith, ne)
  ]

  or_else_new :
      (k : ℕ) (out : List Doc) (d : Doc) (o : Option Doc)
      → has_id id (id d) out ≡ false
      → or_else (find_by_id k (out ++ (d ∷ []))) o
        ≡ or_else (find_by_id k out) (if id d == k then some d else o)
  or_else_new k out d o new = ground (arith, find_by_id-append k out (d ∷ []))

  pub find_by_id-added_from :
      (k : ℕ) (out right : List Doc)
      → find_by_id k (out ++ added id out right) ≡ or_else (find_by_id k out) (find_by_id k right)
  find_by_id-added_from k out [] = find_by_id-append k out []
  find_by_id-added_from k out (d ∷ right) = elim (Bool-cases (has_id id (id d) out)) [
    | inl seen ↦
        rw seen (find_by_id-added_from k out right ∙ or_else_seen k out d (find_by_id k right) seen)
    | inr new ↦ rw new (
        ap (find_by_id k) (sym (append_assoc out (d ∷ []) (added id (out ++ (d ∷ [])) right)))
        ∙ find_by_id-added_from k (out ++ (d ∷ [])) right
        ∙ or_else_new k out d (find_by_id k right) new)
  ]

  pub find_by_id-values :
      (k : ℕ) (q : ℕ → Bool) (es : List (ℕ × Doc))
      → IsKeyed id es
      → find_by_id k (values (filter (λ e. q e.0) es)) ≡ (if q k then lookup k es else none)
  find_by_id-values k q [] h = ground arith
  find_by_id-values k q (e ∷ es) h = ground (arith, h.0, find_by_id-values k q es h.1)

  find_by_id_above :
      (k : ℕ) (p : Doc → Bool) (es : List (ℕ × Doc))
      → IsKeyed id es
      → All (λ e. k < e.0) es
      → find_by_id k (filter p (values es)) ≡ none
  find_by_id_above k p [] h a = refl
  find_by_id_above k p (e ∷ es) h a = ground (arith, h.0, a.0, find_by_id_above k p es h.1 a.1)

  pub find_by_id-scan :
      (k : ℕ) (p : Doc → Bool) (es : List (ℕ × Doc))
      → IsKeyed id es
      → IsAscending es
      → find_by_id k (filter p (values es)) ≡ keep p (lookup k es)
  find_by_id-scan k p [] h a = refl
  find_by_id-scan k p (e ∷ es) h a =
      ground (arith, h.0, find_by_id-scan k p es h.1 a.1, find_by_id_above e.0 p es h.1 a.0)

  has_id-filter :
      (k : ℕ) (r : Doc → Bool) (ds : List Doc)
      → has_id id k ds ≡ false
      → has_id id k (filter r ds) ≡ false
  has_id-filter k r [] h = refl
  has_id-filter k r (d ∷ ds) h = ground (arith, has_id-filter k r ds)

  pub IsDistinct-filter :
      (r : Doc → Bool) (ds : List Doc) → IsDistinct ds → IsDistinct (filter r ds)
  IsDistinct-filter r [] h = tt
  IsDistinct-filter r (d ∷ ds) h =
      ground (arith, IsDistinct-filter r ds h.1, has_id-filter (id d) r ds h.0)

  IsDistinct-snoc :
      (ds : List Doc) (d : Doc)
      → IsDistinct ds
      → has_id id (id d) ds ≡ false
      → IsDistinct (ds ++ (d ∷ []))
  IsDistinct-snoc [] d h n = (refl, tt)
  IsDistinct-snoc (e ∷ ds) d h n = (
    ground (arith, any-append (λ x. id x == id e) ds (d ∷ []), h.0),
    IsDistinct-snoc ds d h.1 (ground arith),
  )

  pub IsDistinct-added :
      (out right : List Doc) → IsDistinct out → IsDistinct (out ++ added id out right)
  IsDistinct-added out [] h = rw append-nil h
  IsDistinct-added out (d ∷ right) h = elim (Bool-cases (has_id id (id d) out)) [
    | inl seen ↦ rw seen (IsDistinct-added out right h)
    | inr new ↦ rw new (
        subst IsDistinct (append_assoc out (d ∷ []) (added id (out ++ (d ∷ [])) right))
          (IsDistinct-added (out ++ (d ∷ [])) right (IsDistinct-snoc out d h new)))
  ]

  has_id_above :
      (k : ℕ) (es : List (ℕ × Doc))
      → IsKeyed id es
      → All (λ e. k < e.0) es
      → has_id id k (values es) ≡ false
  has_id_above k [] h a = refl
  has_id_above k (e ∷ es) h a = ground (arith, h.0, a.0, has_id_above k es h.1 a.1)

  pub IsDistinct-values :
      (es : List (ℕ × Doc)) → IsKeyed id es → IsAscending es → IsDistinct (values es)
  IsDistinct-values [] h a = tt
  IsDistinct-values (e ∷ es) h a =
      (rw h.0 (has_id_above e.0 es h.1 a.0), IsDistinct-values es h.1 a.1)

  -- a part of the storage is keyed and ascending too
  All-filter :
      (P : ℕ × Doc → Type 0) (r : ℕ × Doc → Bool) (es : List (ℕ × Doc))
      → All P es
      → All P (filter r es)
  All-filter P r [] a = tt
  All-filter P r (e ∷ es) a = elim (Bool-cases (r e)) [
    | inl in_ ↦ rw in_ (a.0, All-filter P r es a.1)
    | inr out ↦ rw out (All-filter P r es a.1)
  ]

  IsAscending-filter :
      (r : ℕ × Doc → Bool) (es : List (ℕ × Doc)) → IsAscending es → IsAscending (filter r es)
  IsAscending-filter r [] a = tt
  IsAscending-filter r (e ∷ es) a = elim (Bool-cases (r e)) [
    | inl in_ ↦ rw in_ (All-filter (λ x. e.0 < x.0) r es a.0, IsAscending-filter r es a.1)
    | inr out ↦ rw out (IsAscending-filter r es a.1)
  ]

  pub IsDistinct-values-filter :
      (r : ℕ × Doc → Bool) (es : List (ℕ × Doc))
      → IsKeyed id es
      → IsAscending es
      → IsDistinct (values (filter r es))
  IsDistinct-values-filter r es h a =
      IsDistinct-values (filter r es) (All-filter (λ e. id e.1 ≡ e.0) r es h)
        (IsAscending-filter r es a)
