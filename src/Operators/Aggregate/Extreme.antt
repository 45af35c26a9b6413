-- ===== src/Operators/Aggregate/Extreme.antt =====
-- What the minimum and the maximum of documents are.
use rocket_joe.Base.{
  ◌≡◌, refl, sym, ap, ◌∙◌, Bool, true, false, some, List, [], ◌∷◌, ◌++◌, All, All-map, All-snoc,
  append_assoc, if◌then◌else◌, length, append-nil,
}
use mathlib.Core.Path.{subst}
use rocket_joe.Document.{Documents}
use rocket_joe.Operators.Aggregate
use rocket_joe.Operators.Aggregate.{Aggregate, less, execute_aggregate}

-- A comparison by which the elements can be put in an order, equal ones side by side.
pub record IsOrder {A : Type 0} (comp : A → A → Bool) : Type 0 where
  pub asymmetric : (a b : A) → comp a b ≡ true → comp b a ≡ false
  pub below : (a b c : A) → comp a b ≡ true → comp c b ≡ false → comp a c ≡ true
  pub above : (a b c : A) → comp b a ≡ true → comp b c ≡ false → comp c a ≡ true

-- What comes before in a list of documents: less for a minimum, more for a maximum.
abbrev pub flipped : {A : Type 0} → (A → A → Bool) → A → A → Bool
flipped comp a b = comp b a

flipped-IsOrder : {A : Type 0} (comp : A → A → Bool) → IsOrder comp → IsOrder (flipped comp)
flipped-IsOrder comp o = record {
  asymmetric = λ a b. o.asymmetric b a;
  below = o.above;
  above = o.below;
}

-- `m` comes before the elements that stand before it, and none behind it comes before it.
pub record IsFirst {A : Type 0} (comp : A → A → Bool) (xs : List A) (m : A) : Type 0 where
  pub front : List A
  pub back : List A
  pub parts : xs ≡ front ++ (m ∷ back)
  pub front_behind : All (λ d. comp m d ≡ true) front
  pub back_behind : All (λ d. comp d m ≡ false) back

module _ {A : Type 0} (comp : A → A → Bool) (o : IsOrder comp) where
  All-join :
      (P : A → Type 0) (xs : List A) (m : A) (ys : List A)
      → All P xs
      → P m
      → All P ys
      → All P (xs ++ (m ∷ ys))
  All-join P [] m ys h p k = (p, k)
  All-join P (x ∷ xs) m ys h p k = (h.0, All-join P xs m ys h.1 p k)

  IsFirst-step :
      (m d : A) (xs : List A)
      → IsFirst comp xs m
      → (b : Bool) → comp d m ≡ b
      → IsFirst comp (xs ++ (d ∷ [])) (if b then d else m)
  IsFirst-step m d xs h true e = record {
    front = xs;
    back = [];
    parts = refl;
    front_behind = subst (All (λ x. comp d x ≡ true)) (sym h.parts) (
        All-join _ h.front m h.back
          (All-map h.front (λ x k. o.below d m x e (o.asymmetric m x k)) h.front_behind) e
          (All-map h.back (λ x k. o.below d m x e k) h.back_behind));
    back_behind = tt;
  }
  IsFirst-step m d xs h false e = record {
    front = h.front;
    back = h.back ++ (d ∷ []);
    parts = ap (λ r. r ++ (d ∷ [])) h.parts ∙ append_assoc h.front (m ∷ h.back) (d ∷ []);
    front_behind = h.front_behind;
    back_behind = All-snoc (λ x. comp x m ≡ false) h.back d h.back_behind e;
  }

  -- a loop that keeps what comes first
  loop-IsFirst :
      (loop : A → List A → A)
      → ((m : A) → loop m [] ≡ m)
      → ((m d : A) (ds : List A) → loop m (d ∷ ds) ≡ loop (if comp d m then d else m) ds)
      → (ds xs : List A) (m : A) → IsFirst comp xs m
      → IsFirst comp (xs ++ ds) (loop m ds)
  loop-IsFirst loop f g [] xs m h =
      subst (IsFirst comp (xs ++ [])) (sym (f m))
        (subst (λ r. IsFirst comp r m) (sym (append-nil xs)) h)
  loop-IsFirst loop f g (d ∷ ds) xs m h = subst (IsFirst comp (xs ++ (d ∷ ds))) (sym (g m d ds)) (
      subst (λ r. IsFirst comp r (loop (if comp d m then d else m) ds))
        (append_assoc xs (d ∷ []) ds)
        (loop-IsFirst loop f g ds (xs ++ (d ∷ [])) (if comp d m then d else m)
          (IsFirst-step m d xs h (comp d m) refl)))

  one-IsFirst : (m : A) → IsFirst comp (m ∷ []) m
  one-IsFirst m = record {
    front = [];
    back = [];
    parts = refl;
    front_behind = tt;
    back_behind = tt;
  }

module _ (D : Documents) where
  open D use {Document, Key}

  -- what the document of an aggregate holds
  pub data Holds (ds : List Document) : Aggregate Key → Aggregate.Result D → Type 0 where
    counted : Holds ds Aggregate.count (Aggregate.number (length ds))
    none_min : (key : Key) → ds ≡ [] → Holds ds (Aggregate.min key) (Aggregate.number 0)
    none_max : (key : Key) → ds ≡ [] → Holds ds (Aggregate.max key) (Aggregate.number 0)
    least :
        (key : Key) (m : Document)
        → IsFirst (less D key) ds m
        → Holds ds (Aggregate.min key) (Aggregate.value_of m key)
    greatest :
        (key : Key) (m : Document)
        → IsFirst (flipped (less D key)) ds m
        → Holds ds (Aggregate.max key) (Aggregate.value_of m key)

  of_documents-Holds :
      (a : Aggregate Key) (ds : List Document)
      → ((key : Key) → IsOrder (less D key))
      → Holds ds a (Aggregate.of_documents D a ds)
  of_documents-Holds Aggregate.count ds o = Holds.counted
  of_documents-Holds (Aggregate.min key) [] o = Holds.none_min key refl
  of_documents-Holds (Aggregate.max key) [] o = Holds.none_max key refl
  of_documents-Holds (Aggregate.min key) (d ∷ ds) o = Holds.least key _ (
      loop-IsFirst (less D key) (o key) (Aggregate.min_element D (less D key)) (λ m. refl)
        (λ m e es. refl) ds (d ∷ []) d (one-IsFirst (less D key) (o key) d))
  of_documents-Holds (Aggregate.max key) (d ∷ ds) o = Holds.greatest key _ (
      loop-IsFirst (flipped (less D key)) (flipped-IsOrder (less D key) (o key))
        (Aggregate.max_element D (less D key)) (λ m. refl) (λ m e es. refl) ds (d ∷ []) d
        (one-IsFirst (flipped (less D key)) (flipped-IsOrder (less D key) (o key)) d))

  -- Where the documents are ordered under every key: an aggregate outputs one document, which holds the
  -- number of the documents of the child, or the value that its least or its greatest document has
  -- under the key, the first of them where several are equal, and 0 where there is none.
  pub execute_aggregate-Holds :
      (a : Aggregate Key) (ds : List Document)
      → ((key : Key) → IsOrder (less D key))
      → (r : Aggregate.Result D) × ((execute_aggregate D a (some (some ds)) ≡ some (r ∷ []))
          × Holds ds a r)
  unfolding execute_aggregate
  execute_aggregate-Holds a ds o =
      (Aggregate.of_documents D a ds, (refl, of_documents-Holds a ds o))
