-- ===== src/Operators/Collect.antt =====
-- The loop that the scans and the merges of components/physical_plan/collection/operators share:
-- append a document that passes a test, count it, and return once `limit_.check(count)` fails.
use rocket_joe.Base.{
  ℕ, ◌+◌, ◌≡◌, refl, sym, ◌∙◌, ap, Bool, true, false, not, none, some, List, [], ◌∷◌, ◌++◌, arith,
  if◌then◌else◌, length, length-append, append-nil, append_assoc, Bool-cases, inl, inr,
}
use mathlib.Core.Path.{subst, subst₂}
use rocket_joe.Limit.{Limit, check}
use rocket_joe.Limit.Bounded.{
  bounded, bounded-append_of_full, bounded-of_room, bounded-append_one, bounded-nil,
}

-- `output_`, `count`, and whether the operator has returned
pub record Progress {ℓ} (A : Type ℓ) : Type ℓ where
  pub docs : List A
  pub count : ℕ
  pub returned : Bool

module _ {ℓ} {A : Type ℓ} where
  abbrev pub start : Progress A
  start = record { docs = []; count = 0; returned = false }

  -- `output_->append(x); ++count; if (!limit_.check(count)) return;`
  unfoldable pub append_counted : Limit → A → Progress A → Progress A
  append_counted l x s = record {
    docs = s.docs ++ (x ∷ []);
    count = s.count + 1;
    returned = not (check l (s.count + 1));
  }

  -- `full` is what was selected so far, the limit left aside.
  pub record IsAt (l : Limit) (full : List A) (s : Progress A) : Type ℓ where
    pub docs : s.docs ≡ bounded l full
    pub count : s.count ≡ length s.docs
    pub returned : s.returned ≡ not (check l s.count)

  pub IsAt-start : (l : Limit) → check l 0 ≡ true → IsAt l [] start
  IsAt-start l h = record { docs = sym (bounded-nil l); count = refl; returned = ground (arith, h) }

  check_count :
      (l : Limit) (full : List A) (s : Progress A)
      → IsAt l full s
      → check l (length (bounded l full)) ≡ not s.returned
  check_count l full s at =
      ground
        (arith, at.returned, ap length at.docs, ap (λ n. check l n) (at.count ∙ ap length at.docs))

  IsAt-returned :
      (l : Limit) (full more : List A) (s : Progress A)
      → IsAt l full s
      → s.returned ≡ true
      → IsAt l (full ++ more) s
  IsAt-returned l full more s at r = record {
    docs =
        at.docs
        ∙ sym (bounded-append_of_full l full more (ground (arith, check_count l full s at)));
    count = at.count;
    returned = at.returned;
  }

  docs-eq-full :
      (l : Limit) (full : List A) (s : Progress A)
      → IsAt l full s
      → s.returned ≡ false
      → s.docs ≡ full
  docs-eq-full l full s at r =
      at.docs ∙ bounded-of_room l full (ground (arith, check_count l full s at))

  IsAt-append :
      (l : Limit) (full : List A) (x : A) (s : Progress A)
      → IsAt l full s
      → s.returned ≡ false
      → IsAt l (full ++ (x ∷ [])) (append_counted l x s)
  unfolding append_counted
  IsAt-append l full x s at r =
      let whole : s.docs ≡ full = docs-eq-full l full s at r in
      let room : check l (length full) ≡ true = ground (
        arith,
        at.returned,
        at.count ∙ ap length whole,
        ap (λ n. check l n) (at.count ∙ ap length whole),
      ) in
      record {
        docs = rw whole (sym (bounded-append_one l full x room));
        count = omega (arith, at.count, length-append s.docs (x ∷ []));
        returned = refl;
      }

-- `for (x : xs) if (test(x)) append(item(x))`; `item` is the document of an entry of the storage,
-- or the document itself.
module _ {ℓ κ} {A : Type ℓ} {B : Type κ} (item : B → A) (test : List A → B → Bool) where
  -- One round of the loop; after a `return` there is none.
  unfoldable pub collect_step : Limit → B → Progress A → Progress A
  collect_step l x s =
      if s.returned then s else if test s.docs x then append_counted l (item x) s else s

  unfoldable pub collect : Limit → List B → Progress A → Progress A
  collect l [] s = s
  collect l (x ∷ xs) s = collect l xs (collect_step l x s)

  -- The documents that the loop is to take, when nothing limits it.
  abbrev pub selected : List A → List B → List A
  selected out [] = []
  selected out (x ∷ xs) =
      if test out x then item x ∷ selected (out ++ (item x ∷ [])) xs else selected out xs

  abbrev taken : List A → B → List A
  taken out x = if test out x then item x ∷ [] else []

  IsAt-step :
      (l : Limit) (x : B) (full : List A) (s : Progress A)
      → IsAt l full s
      → IsAt l (full ++ taken full x) (collect_step l x s)
  unfolding collect_step
  IsAt-step l x full s at = by_cases s.returned refl (test full x) refl
    where
      by_cases :
          (r : Bool)
          → s.returned ≡ r
          → (t : Bool) → test full x ≡ t
          → IsAt l (full ++ taken full x) (collect_step l x s)
      by_cases true e t f =
          subst (IsAt l (full ++ taken full x)) (ground (arith, e))
            (IsAt-returned l full (taken full x) s at e)
      by_cases false e true f =
          subst₂ (IsAt l) (ground (arith, f))
            (ground (arith, e, f, ap (λ d. test d x) (docs-eq-full l full s at e)))
            (IsAt-append l full (item x) s at e)
      by_cases false e false f =
          subst₂ (IsAt l) (rw (f, append-nil))
            (ground (arith, e, f, ap (λ d. test d x) (docs-eq-full l full s at e))) at

  selected-cons :
      (full : List A) (x : B) (xs : List B)
      → (full ++ taken full x) ++ selected (full ++ taken full x) xs
        ≡ full ++ selected full (x ∷ xs)
  selected-cons full x xs = elim (Bool-cases (test full x)) [
    | inl e ↦ rw (e, append_assoc)
    | inr e ↦ rw (e, append-nil)
  ]

  -- The loop keeps the invariant, and what it selects is added.
  pub IsAt-collect :
      (l : Limit) (xs : List B) (full : List A) (s : Progress A)
      → IsAt l full s
      → IsAt l (full ++ selected full xs) (collect l xs s)
  unfolding collect
  IsAt-collect l [] full s at = rw append-nil at
  IsAt-collect l (x ∷ xs) full s at =
      subst (λ d. IsAt l d (collect l (x ∷ xs) s)) (selected-cons full x xs)
        (IsAt-collect l xs (full ++ taken full x) (collect_step l x s) (IsAt-step l x full s at))

  -- What the loop has appended in the end.
  pub docs-collect :
      (l : Limit) (xs : List B)
      → check l 0 ≡ true
      → (collect l xs start).docs ≡ bounded l (selected [] xs)
  docs-collect l xs h = (IsAt-collect l xs [] start (IsAt-start l h)).docs

-- Two operators that differ only where the limit lets a document by.
pub if_some_cong {ℓ} :
    {A : Type ℓ} (b : Bool) {x y : A}
    → (b ≡ true → x ≡ y)
    → (if b then some x else none) ≡ (if b then some y else none)
if_some_cong true h = ap some (h refl)
if_some_cong false h = refl
